-- ===== src/Stdio/Emit.antt =====
-- The emit_* functions and format_unsigned of libc/stdio.c, over any `put` function.
use whirliscope.Prelude.{
  ℕ, zero, suc, ◌+◌, ◌-◌, ◌/◌, ◌%◌, List, [], ◌∷◌, Bool, false, not, ◌&&◌, length, get_or, ltb,
  ◌==◌, if◌then◌else◌, add64,
}
use whirliscope.Prelude.Text.{codes}
use whirliscope.Prelude.Int.{ℤ, pos, negsuc, is_neg}

-- struct out without its `put`, which the functions take as a parameter.
pub record Out {ℓ} (S : Type ℓ) : Type ℓ where
  pub ctx : S
  pub count : ℕ

-- digits[d], of the string literal that `uppercase` chooses.
abbrev pub digit_char : Bool → ℕ → ℕ
digit_char uppercase d =
    get_or (codes (if uppercase then "0123456789ABCDEF" else "0123456789abcdef")) d 0

-- The while loop of format_unsigned: what it appends to the buffer, with the rounds left.
unfoldable pub format_digits : (rounds value base : ℕ) → Bool → List ℕ
format_digits zero value base uppercase = []
format_digits (suc k) value base uppercase =
    let rest = format_digits k (value / base) base uppercase in
    if value == 0 then [] else digit_char uppercase (value % base) ∷ rest

-- The buffer up to the length returned, the last digit first.
unfoldable pub format_unsigned : (value base : ℕ) → Bool → List ℕ
format_unsigned value base uppercase =
    if value == 0 then b'0' ∷ [] else format_digits 64 value base uppercase

-- `precision > digit_len ? precision - digit_len : 0`.
abbrev pub excess : ℤ → ℕ → ℕ
excess (pos precision) len = if ltb len precision then precision - len else 0
excess (negsuc _) len = 0

abbrev pub is_zero : ℤ → Bool
is_zero (pos n) = n == 0
is_zero (negsuc _) = false

-- The arguments of emit_number that come from the conversion.
pub record Number : Type 0 where
  pub value : ℕ
  pub negative : Bool
  pub base : ℕ
  pub uppercase : Bool
  pub width : ℕ
  pub precision : ℤ
  pub left_adjust : Bool
  pub zero_pad : Bool
  pub prefix : List ℕ

-- `digit_len`, `zeroes` and `spaces` of emit_number.
unfoldable pub digit_len : Number → ℕ
digit_len n =
    if is_zero n.precision && n.value == 0
    then 0
    else length (format_unsigned n.value n.base n.uppercase)

unfoldable pub zeroes : Number → ℕ
unfolding digit_len
zeroes n = excess n.precision (digit_len n)

unfoldable pub spaces : Number → ℕ
unfolding digit_len zeroes
spaces n =
    let total_len = (if n.negative then 1 else 0) + length n.prefix + zeroes n + digit_len n in
    if ltb total_len n.width then n.width - total_len else 0

module _ {ℓ} {S : Type ℓ} (put : ℕ → ℕ → S → S) where
  -- `put` is given the count too, which `ctx` may point at.
  unfoldable pub emit_char : Out S → ℕ → Out S
  emit_char o ch = record { ctx = put ch o.count o.ctx; count = add64 o.count 1 }

  unfoldable pub emit_repeat : Out S → ℕ → ℕ → Out S
  unfolding emit_char
  emit_repeat o ch zero = o
  emit_repeat o ch (suc count) = emit_repeat (emit_char o ch) ch count

  -- The loops over the characters of a string and over a prefix.
  unfoldable pub emit_chars : Out S → List ℕ → Out S
  unfolding emit_char
  emit_chars o [] = o
  emit_chars o (ch ∷ s) = emit_chars (emit_char o ch) s

  unfoldable pub emit_padded_string : Out S → List ℕ → (width : ℕ) → (left_adjust : Bool) → Out S
  unfolding emit_repeat emit_chars
  emit_padded_string o s width left_adjust =
      let padding = if ltb (length s) width then width - length s else 0 in
      let o1 = if not left_adjust then emit_repeat o b' ' padding else o in
      let o2 = emit_chars o1 s in if left_adjust then emit_repeat o2 b' ' padding else o2

  -- `for (int i = digit_len - 1; i >= 0; i--)`.
  unfoldable pub emit_digits : Out S → List ℕ → ℕ → Out S
  unfolding emit_char
  emit_digits o digits zero = o
  emit_digits o digits (suc i) = emit_digits (emit_char o (get_or digits i 0)) digits i

  unfoldable pub emit_number : Out S → Number → Out S
  unfolding emit_char emit_repeat emit_chars emit_digits digit_len zeroes spaces
  emit_number o n =
      let digits = format_unsigned n.value n.base n.uppercase in
      let o1 = if not n.left_adjust && not n.zero_pad then emit_repeat o b' ' (spaces n) else o in
      let o2 = if n.negative then emit_char o1 b'-' else o1 in
      let o3 = emit_chars o2 n.prefix in
      let o4 =
        if not n.left_adjust && (n.zero_pad && is_neg n.precision)
        then emit_repeat o3 b'0' (spaces n)
        else o3 in
      let o5 = emit_repeat o4 b'0' (zeroes n) in
      let o6 = emit_digits o5 digits (digit_len n) in
      if n.left_adjust then emit_repeat o6 b' ' (spaces n) else o6
