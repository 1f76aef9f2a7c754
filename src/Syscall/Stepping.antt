-- ===== src/Syscall/Stepping.antt =====
-- Leaving and entering a directory in resolve_path_for_current of userspace/syscall.c.
use whirliscope.Prelude.{
  ℕ, zero, suc, ◌+◌, ◌-◌, ◌≤◌, ◌<◌, ◌≡◌, ◌≢◌, refl, sym, ap, ◌∙◌, List, [], ◌∷◌, ◌++◌, Bool, true,
  false, none, some, ltb, ◌==◌, if◌then◌else◌, length, length-append, get_or, take, arith,
  Bool-cases, inl, inr,
}
use whirliscope.Ext2.Paths.{slash}
use whirliscope.Syscall.{back_to_slash, leave, enter}
use whirliscope.Syscall.Resolve.{body, render, IsName, AllNames}

get_or-append : (xs ys : List ℕ) (i : ℕ) → get_or (xs ++ ys) (length xs + i) 0 ≡ get_or ys i 0
get_or-append [] ys i = ap (λ j. get_or ys j 0) (omega arith)
get_or-append (x ∷ xs) ys i =
    let e : suc (length xs) + i ≡ suc (length xs + i) = omega arith in
    ap (λ j. get_or (x ∷ (xs ++ ys)) j 0) e ∙ get_or-append xs ys i

take-append : (xs ys : List ℕ) → take (length xs) (xs ++ ys) ≡ xs
take-append [] ys = refl
take-append (x ∷ xs) ys = ap (λ t. x ∷ t) (take-append xs ys)

-- One step back, from a place that is not the first.
back_step :
    (out : List ℕ) (n : ℕ)
    → 0 < n
    → back_to_slash out (suc n) ≡ (if get_or out n 0 == slash then suc n else back_to_slash out n)
unfolding back_to_slash
back_step out zero h = absurd (omega arith)
back_step out (suc n) h = refl

-- The way back from inside a name stops behind the slash before it.
back_to_slash-name :
    (before name : List ℕ) (j : ℕ)
    → ((i : ℕ) → i < length name → get_or name i 0 ≢ slash)
    → j ≤ length name
    → back_to_slash (before ++ slash ∷ name) (suc (length before + j)) ≡ suc (length before)
unfolding back_to_slash
back_to_slash-name before name zero h low = elim (Bool-cases (length before == 0)) [
  | inl e ↦
      let none_before : length before + 0 ≡ 0 = ground arith in
      let z : length before ≡ 0 = ground arith in rw (none_before, z) refl
  | inr e ↦
      let here : (get_or (before ++ slash ∷ name) (length before + 0) 0 == slash) ≡ true =
        rw (get_or-append before (slash ∷ name) 0) refl in
      back_step (before ++ slash ∷ name) (length before + 0) (ground arith) ∙ rw here (omega arith)
]
back_to_slash-name before name (suc j) h low =
    let at : length before + suc j ≡ suc (length before + j) = omega arith in
    let other : (get_or (before ++ slash ∷ name) (length before + suc j) 0 == slash) ≡ false =
      rw (get_or-append before (slash ∷ name) (suc j))
        (not_slash (get_or name j 0) (h j (omega arith))) in
    back_step (before ++ slash ∷ name) (length before + suc j) (omega arith)
    ∙ rw other (
        ap (back_to_slash (before ++ slash ∷ name)) at
        ∙ back_to_slash-name before name j h (omega arith))
  where
    not_slash : (x : ℕ) → x ≢ slash → (x == slash) ≡ false
    not_slash x h = ground arith

body_length : (name : List ℕ) (names : List (List ℕ)) → 0 < length (body (name ∷ names))
body_length name names = omega (arith, length-append (body names) (slash ∷ name))

-- Leaving a directory takes its last name off.
pub leave-render :
    (name : List ℕ) (names : List (List ℕ))
    → IsName name
    → leave (render (name ∷ names)) ≡ render names
unfolding leave
leave-render name names n =
    let out = body names ++ slash ∷ name in
    let all : length out ≡ suc (length (body names) + length name) =
      omega (arith, length-append (body names) (slash ∷ name)) in
    let back : back_to_slash out (length out) ≡ suc (length (body names)) =
      ap (back_to_slash out) all
      ∙ back_to_slash-name (body names) name (length name) n.no_slash (omega arith) in
    rw back (cut_off names)
  where
    cut_off :
        (names : List (List ℕ))
        → take
            (if ltb 1 (suc (length (body names)))
              then suc (length (body names)) - 1
              else suc (length (body names)))
            (body names ++ slash ∷ name)
          ≡ render names
    cut_off [] = refl
    cut_off (last ∷ rest) =
        let more : ltb 1 (suc (length (body (last ∷ rest)))) ≡ true =
          ground (arith, body_length last rest) in
        let less : suc (length (body (last ∷ rest))) - 1 ≡ length (body (last ∷ rest)) =
          omega arith in
        rw (more, less) (take-append (body (last ∷ rest)) (slash ∷ name))

taken {ℓ} :
    {A : Type ℓ} (test : Bool) (x r : A)
    → (if test then none else some x) ≡ some r
    → (test ≡ false) × (x ≡ r)
taken true x r e = absurd (ground arith)
taken false x r e = (refl, cc)

room : (size a b c : ℕ) → ltb size (a + b + c + 1) ≡ false → a + (b + c) < size
room size a b c e = ground arith

-- Entering one puts its name behind.
pub enter-render :
    (out_size : ℕ) (name : List ℕ) (names : List (List ℕ)) {r : List ℕ}
    → AllNames names
    → enter out_size name (render names) ≡ some r
    → (r ≡ render (name ∷ names)) × (length r < out_size)
unfolding enter
enter-render out_size name [] {r} all e =
    let (small, same) = taken (ltb out_size (1 + 0 + length name + 1)) (slash ∷ name) r e in
    (sym same, omega (arith, room out_size 1 0 (length name) small, ap length same))
enter-render out_size name (last ∷ names) {r} (n, all) e =
    let out = body (last ∷ names) in
    let more : ltb 1 (length out) ≡ true =
      ground (arith, n.nonempty, length-append (body names) (slash ∷ last)) in
    let f : (if ltb out_size (length out + 1 + length name + 1)
          then none
          else some (out ++ slash ∷ name))
        ≡ some r =
      rw more at e in
    let (small, same) =
      taken (ltb out_size (length out + 1 + length name + 1)) (out ++ slash ∷ name) r f in
    (
      sym same,
      omega (
        arith,
        room out_size (length out) 1 (length name) small,
        ap length same,
        length-append out (slash ∷ name),
      ),
    )
