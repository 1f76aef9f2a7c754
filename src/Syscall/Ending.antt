-- ===== src/Syscall/Ending.antt =====
-- resolve_path_for_current of userspace/syscall.c ends, and fails only for want of room.
use whirliscope.Prelude.{
  ℕ, zero, suc, ◌+◌, ◌-◌, ◌≤◌, ◌<◌, ◌≡◌, ◌⊎◌, inl, inr, refl, ap, ◌∙◌, List, [], ◌∷◌, ◌++◌, false,
  ◌||◌, some, ltb, ◌==◌, if◌then◌else◌, length, length-append, take, drop, arith, Bool-cases,
}
use whirliscope.Prelude.Slices.{length-drop}
use whirliscope.Ext2.Paths.{slash, skip_slashes, component}
use whirliscope.Syscall.{
  combine, back_to_slash, leave, enter, follow, resolve_loop, resolve_path_for_current,
}
use whirliscope.Syscall.Resolve.{is_here, is_up}

length-component : (path : List ℕ) → length (component path) ≤ length path
unfolding component
length-component [] = omega arith
length-component (ch ∷ path) = ground (arith, length-component path)

-- Behind a part of the path there is nothing or a slash.
behind-slash :
    (path : List ℕ)
    → (drop (length (component path)) path ≡ [])
      ⊎ ((rest : List ℕ) × (drop (length (component path)) path ≡ slash ∷ rest))
unfolding component
behind-slash [] = inl refl
behind-slash (ch ∷ path) = elim (Bool-cases (ch == slash)) [
  | inl e ↦ let s : ch ≡ slash = ground arith in rw e (inr (path, ap (λ c. c ∷ path) s))
  | inr e ↦ rw e (behind-slash path)
]

length-skip_slashes : (path : List ℕ) → length (skip_slashes path) ≤ length path
unfolding skip_slashes
length-skip_slashes [] = omega arith
length-skip_slashes (ch ∷ path) = ground (arith, length-skip_slashes path)

skip_slash : (rest : List ℕ) → skip_slashes (slash ∷ rest) ≡ skip_slashes rest
unfolding skip_slashes
skip_slash rest = refl

skip_nothing : skip_slashes [] ≡ []
unfolding skip_slashes
skip_nothing = refl

-- One round uses the part up, and a slash where more follows.
abbrev next_cursor : List ℕ → List ℕ
next_cursor path = skip_slashes (drop (length (component path)) path)

next_cursor-length :
    (path : List ℕ)
    → (next_cursor path ≡ [])
      ⊎ (length (next_cursor path) + length (component path) + 1 ≤ length path)
next_cursor-length path = elim (behind-slash path) [
  | inl e ↦ inl (ap skip_slashes e ∙ skip_nothing)
  | inr (rest, e) ↦
      let skipped : length (next_cursor path) ≡ length (skip_slashes rest) =
        ap length (ap skip_slashes e ∙ skip_slash rest) in
      inr (
        omega (
          arith,
          skipped,
          length-skip_slashes rest,
          ap length e,
          length-drop (length (component path)) path,
          length-component path,
        ))
]

length-take-le : (n : ℕ) (xs : List ℕ) → length (take n xs) ≤ length xs
length-take-le zero xs = omega arith
length-take-le (suc n) [] = omega arith
length-take-le (suc n) (x ∷ xs) = omega (arith, length-take-le n xs)

length-leave : (out : List ℕ) → length (leave out) ≤ length out
unfolding leave
length-leave out =
    let n = back_to_slash out (length out) in length-take-le (if ltb 1 n then n - 1 else n) out

-- A name is entered where there is room.
enter_room :
    (out_size : ℕ) (name out : List ℕ)
    → length out + length name + 2 ≤ out_size
    → (r : List ℕ) × (enter out_size name out ≡ some r) × (length r ≤ length out + 1 + length name)
unfolding enter
enter_room out_size name out fits = elim (Bool-cases (ltb 1 (length out))) [
  | inl e ↦
      let small : ltb out_size (length out + 1 + length name + 1) ≡ false = ground arith in
      rw (e, small)
        (out ++ ((slash ∷ []) ++ name), refl, omega (arith, length-append out (slash ∷ name)))
  | inr e ↦
      let small : ltb out_size (length out + 0 + length name + 1) ≡ false = ground arith in
      rw (e, small) (out ++ ([] ++ name), refl, omega (arith, length-append out name))
]

follow_room :
    (out_size : ℕ) (name out : List ℕ)
    → length out + length name + 2 ≤ out_size
    → (r : List ℕ) × (follow out_size name out ≡ some r) × (length r ≤ length out + 1 + length name)
unfolding follow
follow_room out_size name out fits = elim (Bool-cases (is_here name)) [
  | inl h ↦ rw h (out, refl, omega arith)
  | inr h ↦ elim (Bool-cases (is_up name)) [
    | inl u ↦ rw (h, u) (leave out, refl, omega (arith, length-leave out))
    | inr u ↦ elim (Bool-cases (length name == 0)) [
      | inl z ↦ rw (h, u, z) (out, refl, omega arith)
      | inr z ↦ rw (h, u, z) (enter_room out_size name out fits)
    ]
  ]
]

resolve_loop-total :
    (k out_size : ℕ) (cursor out : List ℕ)
    → length cursor < k
    → (cursor ≡ []) ⊎ (length out + length cursor + 2 ≤ out_size)
    → (r : List ℕ) × (resolve_loop k out_size cursor out ≡ some r)
unfolding resolve_loop
resolve_loop-total zero out_size cursor out rounds fits = absurd (omega arith)
resolve_loop-total (suc k) out_size [] out rounds fits = (out, refl)
resolve_loop-total (suc k) out_size (ch ∷ cursor) out rounds (inl e) = absurd (ground arith)
resolve_loop-total (suc k) out_size (ch ∷ cursor) out rounds (inr fits) =
    let whole = ch ∷ cursor in
    let (next, e, longer) =
      follow_room out_size (component whole) out (omega (arith, length-component whole)) in
    elim (next_cursor-length whole) [
      | inl done ↦
          rw (e, resolve_loop)
            (resolve_loop-total k out_size (next_cursor whole) next (omega (arith, ap length done))
              (inl done))
      | inr shorter ↦
          rw (e, resolve_loop)
            (resolve_loop-total k out_size (next_cursor whole) next (omega arith)
              (inr (omega arith)))
    ]

-- A path whose whole, behind the working directory where that counts, leaves room for two
-- characters more in the buffer is resolved: the loop ends and no part is refused.
pub resolve_path_total :
    (cwd path : List ℕ) (out_size : ℕ) {whole : List ℕ}
    → 0 < length path
    → combine cwd path ≡ some whole
    → length whole + 3 ≤ out_size
    → (out : List ℕ) × (resolve_path_for_current cwd path out_size ≡ some out)
unfolding resolve_path_for_current
resolve_path_total cwd path out_size {whole} some_path found fits =
    let t1 : (out_size == 0 || length path == 0) ≡ false = ground arith in
    let t2 : ltb out_size 2 ≡ false = ground arith in
    rw (t1, found, t2)
      (resolve_loop-total (suc (length whole)) out_size (skip_slashes whole) (slash ∷ [])
        (omega (arith, length-skip_slashes whole)) (inr (omega (arith, length-skip_slashes whole))))
