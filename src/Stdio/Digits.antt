-- ===== src/Stdio/Digits.antt =====
-- format_unsigned of libc/stdio.c: the digits stand for the value and fit the buffer of
-- emit_number.
use whirliscope.Prelude.{
  ℕ, zero, suc, ◌+◌, ◌-◌, ◌*◌, ◌/◌, ◌%◌, ◌^◌, ◌≤◌, ◌<◌, ◌≡◌, ◌≢◌, refl, sym, ap, subst, ◌∙◌, List,
  [], ◌∷◌, Bool, true, false, leb, ◌==◌, if◌then◌else◌, length, arith, Bool-cases, ◌⊎◌, inl, inr,
  ==_iff,
}
use whirliscope.Prelude.Table.{holds_from, holds_from-at}
use whirliscope.Stdio.Emit.{digit_char, format_digits, format_unsigned}

-- The value of a digit's character, of either case.
abbrev pub digit_value : ℕ → ℕ
digit_value ch =
    if leb ch b'9' then ch - b'0' else if leb ch b'F' then ch - b'A' + 10 else ch - b'a' + 10

-- The value of digits, the last digit first.
abbrev pub value_of : ℕ → List ℕ → ℕ
value_of base [] = 0
value_of base (d ∷ ds) = digit_value d + base * value_of base ds

-- The digit with the greatest weight is not a nought.
abbrev pub NoLeadingNought : List ℕ → Type 0
NoLeadingNought [] = Unit
NoLeadingNought (d ∷ []) = d ≢ b'0'
NoLeadingNought (d ∷ e ∷ ds) = NoLeadingNought (e ∷ ds)

digit_table :
    (uppercase : Bool) → holds_from 0 16 (λ d. digit_value (digit_char uppercase d) == d) ≡ true
unfolding holds_from
digit_table true = refl
digit_table false = refl

digit_char-value : (uppercase : Bool) (d : ℕ) → d < 16 → digit_value (digit_char uppercase d) ≡ d
digit_char-value uppercase d small = (==_iff _ _).0 (
    holds_from-at 0 16 d (λ d. digit_value (digit_char uppercase d) == d) (digit_table uppercase)
      (omega arith) (omega arith))

pow_suc : (k : ℕ) → 2 ^ suc k ≡ 2 * 2 ^ k
pow_suc k = omega arith

below_half : (value base half : ℕ) → 2 ≤ base → value < 2 * half → value / base < half
below_half value base half two small = grind arith

quotient_small : (k value base : ℕ) → 2 ≤ base → value < 2 ^ suc k → value / base < 2 ^ k
quotient_small k value base two small =
    below_half value base (2 ^ k) two (subst (λ b. value < b) (pow_suc k) small)

put_together :
    (value base rest : ℕ) → 0 < base → rest ≡ value / base → value % base + base * rest ≡ value
put_together value base rest positive e = grind arith

digit_small : (value base : ℕ) → 2 ≤ base → base ≤ 16 → value % base < 16
digit_small value base two sixteen = grind arith

module _ (base : ℕ) (uppercase : Bool) (two : 2 ≤ base) (sixteen : base ≤ 16) where
  format_digits-value :
      (k value : ℕ) → value < 2 ^ k → value_of base (format_digits k value base uppercase) ≡ value
  unfolding format_digits
  format_digits-value zero value small = omega arith
  format_digits-value (suc k) value small = elim (Bool-cases (value == 0)) [
    | inl e ↦ rw e (ground arith)
    | inr e ↦
        rw (e, digit_char-value uppercase (value % base) (digit_small value base two sixteen))
          (put_together value base _ (omega arith)
            (format_digits-value k (value / base) (quotient_small k value base two small)))
  ]

  format_digits_zero : (k : ℕ) → format_digits k 0 base uppercase ≡ []
  unfolding format_digits
  format_digits_zero zero = refl
  format_digits_zero (suc k) = refl

  last_digit :
      (value : ℕ) → value ≢ 0 → value / base ≡ 0 → digit_char uppercase (value % base) ≢ b'0'
  last_digit value positive e nought =
      let d = digit_char-value uppercase (value % base) (digit_small value base two sixteen) in
      let z : value % base ≡ 0 = sym d ∙ ap digit_value nought in
      positive (
        sym (put_together value base 0 (omega arith) (sym e))
        ∙ ap (λ x. x + base * 0) z
        ∙ omega arith)

  digit-NoLeadingNought :
      (value : ℕ) (ds : List ℕ)
      → value ≢ 0
      → (ds ≡ []) × (value / base ≡ 0) ⊎ (ds ≢ []) × NoLeadingNought ds
      → NoLeadingNought (digit_char uppercase (value % base) ∷ ds)
  digit-NoLeadingNought value [] positive (inl (e, z)) = last_digit value positive z
  digit-NoLeadingNought value [] positive (inr (e, h)) = absurd (e refl)
  digit-NoLeadingNought value (d ∷ ds) positive (inl (e, z)) = absurd (ground arith)
  digit-NoLeadingNought value (d ∷ ds) positive (inr (e, h)) = h

  format_digits_some :
      (k value : ℕ)
      → value < 2 ^ k
      → value ≢ 0
      → (format_digits k value base uppercase ≢ [])
        × NoLeadingNought (format_digits k value base uppercase)
  unfolding format_digits
  format_digits_some zero value small positive = absurd (positive (omega arith))
  format_digits_some (suc k) value small positive = elim (Bool-cases (value == 0)) [
    | inl e ↦ absurd (ground arith)
    | inr e ↦ rw e (
      ground arith,
      digit-NoLeadingNought value (format_digits k (value / base) base uppercase) positive
          (elim (Bool-cases (value / base == 0)) [
            | inl z ↦
                let f : value / base ≡ 0 = ground arith in inl (rw f (format_digits_zero k), f)
            | inr z ↦ inr (
                format_digits_some k (value / base) (quotient_small k value base two small)
                  (ground arith))
          ]),
    )
  ]

format_digits-length :
    (k value base : ℕ) (uppercase : Bool) → length (format_digits k value base uppercase) ≤ k
unfolding format_digits
format_digits-length zero value base uppercase = omega arith
format_digits-length (suc k) value base uppercase =
    ground (arith, format_digits-length k (value / base) base uppercase)

-- The digits that format_unsigned writes stand for the value, are at most the 64 that the buffer
-- of emit_number has, and start with a nought only for 0. The bases are those from 2 to 16.
pub format_unsigned-value_of :
    (value base : ℕ) (uppercase : Bool)
    → 2 ≤ base
    → base ≤ 16
    → value < 2 ^ 64
    → (value_of base (format_unsigned value base uppercase) ≡ value)
      × (length (format_unsigned value base uppercase) ≤ 64)
      × (value ≢ 0 → NoLeadingNought (format_unsigned value base uppercase))
unfolding format_unsigned
format_unsigned-value_of value base uppercase two sixteen small = elim (Bool-cases (value == 0)) [
  | inl e ↦ rw e (ground arith, ground arith, λ p. absurd (p (ground arith)))
  | inr e ↦ rw e (
    format_digits-value base uppercase two sixteen 64 value small,
    format_digits-length 64 value base uppercase,
    λ p. (format_digits_some base uppercase two sixteen 64 value small p).1,
  )
]
