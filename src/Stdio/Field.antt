-- ===== src/Stdio/Field.antt =====
-- emit_number of libc/stdio.c: the width of the field that a number takes.
use whirliscope.Prelude.{
  ℕ, ◌+◌, ◌-◌, ◌≡◌, refl, ap, ◌∙◌, List, [], ◌∷◌, Bool, true, false, not, ◌&&◌, ltb, ◌==◌,
  if◌then◌else◌, length, arith, length-append, length-replicate,
}
use whirliscope.Prelude.Int.{is_neg}
use mathlib.Core.List.{reverse, reverse-cons}
use whirliscope.Stdio.Emit.{
  Out, Number, emit_chars, emit_number, format_unsigned, digit_len, zeroes, spaces, is_zero,
}
use whirliscope.Stdio.Text.{filled, digits_text, number_text, emit_number-text}

length-reverse : (ds : List ℕ) → length (reverse ds) ≡ length ds
length-reverse [] = refl
length-reverse (d ∷ ds) =
    ap length (reverse-cons d ds)
    ∙ length-append (reverse ds) (d ∷ [])
    ∙ omega (arith, length-reverse ds)

length-digits_text : (n : Number) → length (digits_text n) ≡ digit_len n
unfolding digit_len
length-digits_text n =
    chosen (is_zero n.precision && n.value == 0) (format_unsigned n.value n.base n.uppercase)
  where
    chosen :
        (test : Bool) (ds : List ℕ)
        → length (if test then [] else reverse ds) ≡ (if test then 0 else length ds)
    chosen true ds = refl
    chosen false ds = length-reverse ds

length-filled : (test : Bool) (ch n : ℕ) → length (filled test ch n) ≡ (if test then n else 0)
length-filled true ch n = length-replicate n ch
length-filled false ch n = refl

-- Sign, prefix, zeroes of the precision and digits.
abbrev pub bare_length : Number → ℕ
bare_length n = (if n.negative then 1 else 0) + length n.prefix + zeroes n + digit_len n

-- Whether the zeroes that would fill the field are left off.
abbrev pub loses_padding : Number → Bool
loses_padding n = not n.left_adjust && (n.zero_pad && not (is_neg n.precision))

length-sign :
    (negative : Bool)
    → length {A = ℕ} (if negative then b'-' ∷ [] else []) ≡ (if negative then 1 else 0)
length-sign true = refl
length-sign false = refl

-- Blanks stand on one side, or zeroes fill the field, or neither.
one_padding :
    (left nought low : Bool) (blanks sign prefix extra digits : ℕ)
    → (if not left && not nought then blanks else 0)
        + (sign
            + (prefix
                + ((if not left && (nought && low) then blanks else 0)
                    + (extra + (digits + (if left then blanks else 0))))))
      ≡ (if not left && (nought && not low) then 0 else blanks) + (sign + prefix + extra + digits)
one_padding left nought low blanks sign prefix extra digits = ground arith

length_parts :
    (n : Number)
    → length (number_text n) ≡ (if loses_padding n then 0 else spaces n) + bare_length n
length_parts n =
    simp (length-append, length-filled, length-sign, length-replicate, length-digits_text)
      (one_padding n.left_adjust n.zero_pad (is_neg n.precision) (spaces n)
        (if n.negative then 1 else 0) (length n.prefix) (zeroes n) (digit_len n))

widened :
    (loses : Bool) (bare width : ℕ)
    → (if loses then 0 else if ltb bare width then width - bare else 0) + bare
      ≡ (if loses then bare else if ltb bare width then width else bare)
widened loses bare width = ground arith

-- A number fills its field: what emit_number emits is as long as the width or, where sign, prefix,
-- zeroes and digits take more, as long as they. The exception is a number adjusted to the right
-- under the flag 0 that has a precision too: it is emitted without any padding.
pub emit_number-field {ℓ} :
    {S : Type ℓ} (put : ℕ → ℕ → S → S) (o : Out S) (n : Number)
    → (emit_number put o n ≡ emit_chars put o (number_text n))
      × (length (number_text n) ≡ (
          if loses_padding n
          then bare_length n
          else if ltb (bare_length n) n.width
          then n.width
          else bare_length n))
unfolding spaces
emit_number-field put o n =
    (emit_number-text put o n, length_parts n ∙ widened (loses_padding n) (bare_length n) n.width)
