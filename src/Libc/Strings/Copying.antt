-- ===== src/Libc/Strings/Copying.antt =====
-- strcpy of libc/string.c.
use whirliscope.Prelude.{
  ℕ, zero, suc, ◌+◌, ◌≤◌, ◌<◌, ◌≡◌, refl, sym, ap, subst, ◌∙◌, ◌⊎◌, inl, inr, true, false, some,
  ◌==◌, arith,
}
use whirliscope.Libc.Memory.{Memory, store, copied}
use whirliscope.Libc.Strings.{strcpy}
use whirliscope.Libc.Strings.Length.{IsString, IsString-end, IsString-go}

-- The bytes of two ranges are different bytes.
abbrev pub Apart : ℕ → ℕ → ℕ → Type 0
Apart dest src n = (dest + n ≤ src) ⊎ (src + n ≤ dest)

store_other : (m : Memory) (d x a : ℕ) → (a ≡ d → ⊥) → store m d x a ≡ m a
store_other m d x a ne = ground arith

outside : (dest src n i : ℕ) → Apart dest src (suc (suc n)) → i < suc n → src + 1 + i ≡ dest → ⊥
outside dest src n i (inl below) lt e = omega arith
outside dest src n i (inr above) lt e = omega arith

Apart-suc : (dest src n : ℕ) → Apart dest src (suc n) → Apart (dest + 1) (src + 1) n
Apart-suc dest src n (inl below) = inl (omega arith)
Apart-suc dest src n (inr above) = inr (omega arith)

-- One byte, and the others behind it, make the whole.
one_byte : (m : Memory) (dest src a : ℕ) → store m dest (m src) a ≡ copied m dest src 1 a
one_byte m dest src a = ground arith

more_bytes :
    (m : Memory) (dest src n a : ℕ)
    → Apart dest src (suc (suc n))
    → copied (store m dest (m src)) (dest + 1) (src + 1) (suc n) a
      ≡ copied m dest src (suc (suc n)) a
more_bytes m dest src n a apart = ground arith

IsString-suc :
    (dest src n x : ℕ) (m : Memory)
    → Apart dest src (suc (suc n))
    → IsString src (suc n) m
    → IsString (src + 1) n (store m dest x)
IsString-suc dest src n x m apart v = record {
  ends =
      store_other m dest x (src + 1 + n) (outside dest src n n apart (omega arith))
      ∙ ap m (omega arith)
      ∙ v.ends;
  characters = λ i lt.
      subst (λ c. 0 < c)
        (sym (
          store_other m dest x (src + 1 + i) (outside dest src n i apart (omega arith))
          ∙ ap m (omega arith)))
        (v.characters (suc i) (omega arith));
}

-- strcpy returns, if it may go on for more rounds than the string has characters, and has then put
-- the string with its zero at the target and changed nothing else, for ranges that do not overlap.
pub strcpy-copied :
    (rounds dest src n : ℕ) (m : Memory)
    → IsString src n m
    → n < rounds
    → Apart dest src (suc n)
    → (m' : Memory) × (strcpy rounds dest src m ≡ some m')
      × ((a : ℕ) → m' a ≡ copied m dest src (suc n) a)
unfolding strcpy
strcpy-copied zero dest src n m v more apart = absurd (omega arith)
strcpy-copied (suc k) dest src zero m v more apart =
    rw first_zero (store m dest (m src), refl, λ a. one_byte m dest src a)
  where
    first_zero : (m src == 0) ≡ true
    first_zero = ap (λ x. m x == 0) (omega arith) ∙ IsString-end src 0 0 m v refl
strcpy-copied (suc k) dest src (suc n) m v more apart =
    let (m', run, f) =
      strcpy-copied k (dest + 1) (src + 1) n (store m dest (m src))
        (IsString-suc dest src n (m src) m apart v) (omega arith)
        (Apart-suc dest src (suc n) apart) in
    rw first_set (m', run, λ a. f a ∙ more_bytes m dest src n a apart)
  where
    first_set : (m src == 0) ≡ false
    first_set = ap (λ x. m x == 0) (omega arith) ∙ IsString-go src (suc n) 0 m v (omega arith)
