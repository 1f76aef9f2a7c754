-- ===== src/Prelude/Slices.antt =====
-- Parts of lists: laws of take and drop with get_or and length.
use whirliscope.Prelude.{
  ℕ, zero, suc, ◌+◌, ◌-◌, ◌≤◌, ◌<◌, ◌≡◌, refl, sym, ap, ◌∙◌, List, [], ◌∷◌, ◌++◌, length, get_or,
  take, drop, arith,
}

pub take-drop : (n : ℕ) (xs : List ℕ) → take n xs ++ drop n xs ≡ xs
take-drop zero xs = refl
take-drop (suc n) [] = refl
take-drop (suc n) (x ∷ xs) = ap (λ t. x ∷ t) (take-drop n xs)

pub drop-cons : (n : ℕ) (xs : List ℕ) → n < length xs → drop n xs ≡ get_or xs n 0 ∷ drop (suc n) xs
drop-cons n [] h = absurd (omega arith)
drop-cons zero (x ∷ xs) h = refl
drop-cons (suc n) (x ∷ xs) h = drop-cons n xs (omega arith)

pub drop-nil : (k : ℕ) → drop {A = ℕ} k [] ≡ []
drop-nil zero = refl
drop-nil (suc k) = refl

pub drop-drop : (k n : ℕ) (xs : List ℕ) → drop k (drop n xs) ≡ drop (n + k) xs
drop-drop k zero xs = ap (λ j. drop j xs) (omega arith)
drop-drop k (suc n) [] = drop-nil k ∙ sym (drop-nil (suc n + k))
drop-drop k (suc n) (x ∷ xs) =
    let e : suc n + k ≡ suc (n + k) = omega arith in
    drop-drop k n xs ∙ ap (λ j. drop j (x ∷ xs)) (sym e)

pub length-take : (n : ℕ) (xs : List ℕ) → n ≤ length xs → length (take n xs) ≡ n
length-take zero xs h = refl
length-take (suc n) [] h = absurd (omega arith)
length-take (suc n) (x ∷ xs) h = ap suc (length-take n xs (omega arith))

pub get_or-take : (i n : ℕ) (xs : List ℕ) → i < n → get_or (take n xs) i 0 ≡ get_or xs i 0
get_or-take i zero xs h = absurd (omega arith)
get_or-take i (suc n) [] h = refl
get_or-take zero (suc n) (x ∷ xs) h = refl
get_or-take (suc i) (suc n) (x ∷ xs) h = get_or-take i n xs (omega arith)

pub get_or-drop : (i n : ℕ) (xs : List ℕ) → get_or (drop n xs) i 0 ≡ get_or xs (n + i) 0
get_or-drop i zero xs = ap (λ j. get_or xs j 0) (omega arith)
get_or-drop i (suc n) [] = refl
get_or-drop i (suc n) (x ∷ xs) =
    let e : suc n + i ≡ suc (n + i) = omega arith in
    get_or-drop i n xs ∙ ap (λ j. get_or (x ∷ xs) j 0) (sym e)

pub length-drop : (n : ℕ) (xs : List ℕ) → length (drop n xs) ≡ length xs - n
length-drop zero xs = omega arith
length-drop (suc n) [] = omega arith
length-drop (suc n) (x ∷ xs) = omega (arith, length-drop n xs)
