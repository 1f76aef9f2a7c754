-- ===== src/Syscall/Resolved.antt =====
-- The result of resolve_path_for_current in userspace/syscall.c.
use whirliscope.Prelude.{
  ℕ, zero, suc, ◌≤◌, ◌<◌, ◌≡◌, ◌≢◌, refl, sym, ap, ◌∙◌, subst, List, [], ◌∷◌, false, ◌||◌, Option,
  none, some, ltb, ◌==◌, if◌then◌else◌, length, length-append, get_or, drop, arith, Bool-cases, inl,
  inr,
}
use whirliscope.Ext2.Paths.{slash, skip_slashes, component}
use whirliscope.Syscall.{
  combine, back_to_slash, leave, follow, resolve_loop, resolve_path_for_current,
}
use whirliscope.Syscall.Whole.{LeadsTo, combine-LeadsTo, taken_else}
use whirliscope.Syscall.Resolve.{
  is_here, is_up, visit_nothing, splits, visit, walk, body, render, IsName, AllNames,
  splits-component, walk-skip_slashes, component-no_slash,
}
use whirliscope.Syscall.Stepping.{leave-render, enter-render}

-- The path `out` is that of names, and fits with its zero byte.
abbrev pub IsPath : (out_size : ℕ) → List ℕ → List (List ℕ) → Type 0
IsPath out_size out names = (out ≡ render names) × AllNames names × (length out < out_size)

length-render :
    (name : List ℕ) (names : List (List ℕ)) → length (render names) ≤ length (render (name ∷ names))
length-render name [] = omega arith
length-render name (last ∷ names) =
    omega (arith, length-append (body (last ∷ names)) (slash ∷ name))

leave_root : leave (slash ∷ []) ≡ slash ∷ []
unfolding leave back_to_slash
leave_root = refl

chosen : {x r : List ℕ} → some x ≡ some r → x ≡ r
chosen e = cc

stays :
    (out_size : ℕ) (names : List (List ℕ)) {r : List ℕ}
    → AllNames names
    → length (render names) < out_size
    → render names ≡ r
    → IsPath out_size r names
stays out_size names all fits e = (sym e, all, omega (arith, ap length e))

is_name :
    (name : List ℕ)
    → ((i : ℕ) → i < length name → get_or name i 0 ≢ slash)
    → is_here name ≡ false
    → is_up name ≡ false
    → (length name == 0) ≡ false
    → IsName name
is_name name no_slash h u z = record {
  nonempty = ground arith;
  no_slash = no_slash;
  not_here = h;
  not_up = u;
}

follow-render :
    (out_size : ℕ) (name : List ℕ) (names : List (List ℕ)) {r : List ℕ}
    → ((i : ℕ) → i < length name → get_or name i 0 ≢ slash)
    → AllNames names
    → length (render names) < out_size
    → follow out_size name (render names) ≡ some r
    → IsPath out_size r (visit name names)
unfolding follow
follow-render out_size name [] {r} no_slash all fits e = elim (Bool-cases (is_here name)) [
  | inl h ↦ rw h (stays out_size [] all fits (chosen (rw h at e)))
  | inr h ↦ elim (Bool-cases (is_up name)) [
    | inl u ↦
        let f : some (leave (slash ∷ [])) ≡ some r = rw (h, u) at e in
        rw (h, u) (stays out_size [] all fits (sym leave_root ∙ chosen f))
    | inr u ↦ elim (Bool-cases (length name == 0)) [
      | inl z ↦ rw (h, u, z) (stays out_size [] all fits (chosen (rw (h, u, z) at e)))
      | inr z ↦
          let (same, small) = enter-render out_size name [] {r = r} all (rw (h, u, z) at e) in
          rw (h, u, z) (same, (is_name name no_slash h u z, tt), small)
    ]
  ]
]
follow-render out_size name (last ∷ names) {r} no_slash (n, all) fits e =
    elim (Bool-cases (is_here name)) [
      | inl h ↦ rw h (stays out_size (last ∷ names) (n, all) fits (chosen (rw h at e)))
      | inr h ↦ elim (Bool-cases (is_up name)) [
        | inl u ↦
            let f : some (leave (render (last ∷ names))) ≡ some r = rw (h, u) at e in
            rw (h, u)
              (stays out_size names all (omega (arith, length-render last names))
                (sym (leave-render last names n) ∙ chosen f))
        | inr u ↦ elim (Bool-cases (length name == 0)) [
          | inl z ↦
              rw (h, u, z)
                (stays out_size (last ∷ names) (n, all) fits (chosen (rw (h, u, z) at e)))
          | inr z ↦
              let (same, small) =
                enter-render out_size name (last ∷ names) {r = r} (n, all) (rw (h, u, z) at e) in
              rw (h, u, z) (same, (is_name name no_slash h u z, (n, all)), small)
        ]
      ]
    ]

-- What a failing first step, and a failing test, leave over.
rest_of :
    (m : Option (List ℕ)) (f : List ℕ → Option (List ℕ)) {r : List ℕ}
    → elim m [ none ↦ none | some x ↦ f x ] ≡ some r
    → (x : List ℕ) × (m ≡ some x) × (f x ≡ some r)
rest_of none f e = absurd (ground arith)
rest_of (some x) f e = (x, refl, e)

resolve_loop-IsPath :
    (k out_size : ℕ) (cursor : List ℕ) (names : List (List ℕ)) (out : List ℕ) {r : List ℕ}
    → IsPath out_size out names
    → resolve_loop k out_size cursor out ≡ some r
    → IsPath out_size r (walk (splits cursor) names)
unfolding resolve_loop
resolve_loop-IsPath zero out_size cursor names out p e = absurd (ground arith)
resolve_loop-IsPath (suc k) out_size [] names out {r} p e =
    subst (IsPath out_size r) (visit_nothing names)
      (subst (λ o. IsPath out_size o names) (chosen e) p)
resolve_loop-IsPath (suc k) out_size (ch ∷ cursor) names out {r} (same, all, fits) e =
    let whole = ch ∷ cursor in
    let name = component whole in
    let behind = drop (length name) whole in
    let (ws, f, g) = splits-component whole in
    let way : walk (splits (skip_slashes behind)) (visit name names) ≡ walk (splits whole) names =
      walk-skip_slashes behind (visit name names)
      ∙ sym (g (visit name names))
      ∙ ap (λ (x : List (List ℕ)). walk x names) (sym f) in
    let followed =
      rest_of (follow out_size name out)
        (λ next. resolve_loop k out_size (skip_slashes behind) next) e in
    let step =
      follow-render out_size name names {r = followed.0} (component-no_slash whole) all
        (omega (arith, ap length same))
        (subst (λ o. follow out_size name o ≡ some followed.0) same followed.1) in
    subst (IsPath out_size r) way (
      resolve_loop-IsPath k out_size (skip_slashes behind) (visit name names) followed.0 step
        followed.2)

-- A path that is resolved is that of the names which a walk comes to over the parts of the path of
-- the call: from the root, over the first 127 characters, if it begins with a slash, and otherwise
-- from where a walk over the working directory leads. On a walk `.` and empty parts stay where they
-- are and `..` goes up, at the root no further. None of the names is empty, `.` or `..` or has a
-- slash in it, and the path with its zero byte fits. The working directory is empty or begins with
-- a slash.
pub resolve_path_for_current-IsPath :
    (cwd path : List ℕ) (out_size : ℕ) {out : List ℕ}
    → get_or cwd 0 slash ≡ slash
    → resolve_path_for_current cwd path out_size ≡ some out
    → (names : List (List ℕ)) × LeadsTo cwd path names × IsPath out_size out names
unfolding resolve_path_for_current
resolve_path_for_current-IsPath cwd path out_size {out} rooted e =
    let e1 = (taken_else (out_size == 0 || length path == 0) _ out e).1 in
    let (whole, found, e2) =
      rest_of (combine cwd path)
        (λ c.
          if ltb out_size 2
          then none
          else resolve_loop (suc (length c)) out_size (skip_slashes c) (slash ∷ []))
        e1 in
    let (small, e3) = taken_else (ltb out_size 2) _ out e2 in
    let start : IsPath out_size (slash ∷ []) [] = (refl, tt, ground arith) in
    let p =
      resolve_loop-IsPath (suc (length whole)) out_size (skip_slashes whole) [] (slash ∷ []) start
        e3 in
    (
      walk (splits whole) [],
      combine-LeadsTo cwd path whole rooted found,
      subst (IsPath out_size out) (walk-skip_slashes whole []) p,
    )
