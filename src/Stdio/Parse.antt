-- ===== src/Stdio/Parse.antt =====
-- The parts of vformat in libc/stdio.c that read the format and the arguments: flags, width,
-- precision and length of a conversion, and the integers of a va_list.
use whirliscope.Prelude.{
  ℕ, suc, ◌+◌, ◌-◌, ◌*◌, ◌%◌, ◌^◌, List, [], ◌∷◌, Bool, true, false, ◌&&◌, ltb, leb, ◌==◌,
  if◌then◌else◌, sub64,
}
use whirliscope.Prelude.Int.{ℤ, pos, negsuc}

-- decimal_digit; none of its callers uses the -1 but as "no digit".
abbrev pub is_decimal : ℕ → Bool
is_decimal ch = leb b'0' ch && leb ch b'9'

-- A va_list: the eight-byte slots that are left, the first at 0.
abbrev pub Args : Type 0
Args = ℕ → ℕ

abbrev pub next_arg : Args → Args
next_arg args i = args (i + 1)

pub data IntLen : Type 0 where
  int_len_default int_len_long int_len_long_long int_len_size : IntLen

-- The integer that a word stands for, read modulo `2 * half`.
abbrev pub signed : ℕ → ℕ → ℤ
signed half word =
    let low = word % (half * 2) in if ltb low half then pos low else negsuc (half * 2 - 1 - low)

unfoldable pub read_unsigned : Args → IntLen → ℕ
read_unsigned args int_len_default = args 0 % 2 ^ 32
read_unsigned args int_len_long = args 0 % 2 ^ 64
read_unsigned args int_len_long_long = args 0 % 2 ^ 64
read_unsigned args int_len_size = args 0 % 2 ^ 64

unfoldable pub read_signed : Args → IntLen → ℤ
read_signed args int_len_default = signed (2 ^ 31) (args 0)
read_signed args int_len_long = signed (2 ^ 63) (args 0)
read_signed args int_len_long_long = signed (2 ^ 63) (args 0)
read_signed args int_len_size = signed (2 ^ 63) (args 0)

-- `negative ? 0 - (unsigned long long)v : (unsigned long long)v`.
unfoldable pub magnitude : ℤ → ℕ
magnitude (pos n) = n % 2 ^ 64
magnitude (negsuc n) = sub64 0 (sub64 0 (n + 1))

pub record Flags : Type 0 where
  pub left_adjust : Bool
  pub zero_pad : Bool
  pub alternate_form : Bool

abbrev pub no_flags : Flags
no_flags = record { left_adjust = false; zero_pad = false; alternate_form = false }

-- The loop over the flags: the flags, and the format behind them.
unfoldable pub parse_flags : Flags → List ℕ → Flags × List ℕ
parse_flags f [] = (f, [])
parse_flags f (ch ∷ fmt) =
    let minus = parse_flags (record f { left_adjust = true }) fmt in
    let nought = parse_flags (record f { zero_pad = true }) fmt in
    let hash = parse_flags (record f { alternate_form = true }) fmt in
    if ch == b'-'
    then minus
    else if ch == b'0'
    then nought
    else if ch == b'#'
    then hash
    else (f, ch ∷ fmt)

-- The loops over the digits of a width or precision.
unfoldable pub parse_digits : ℕ → List ℕ → ℕ × List ℕ
parse_digits n [] = (n, [])
parse_digits n (ch ∷ fmt) =
    let rest = parse_digits (n * 10 + (ch - b'0')) fmt in
    if is_decimal ch then rest else (n, ch ∷ fmt)

-- What vformat has read between `%` and the conversion's letter.
pub record Spec : Type 0 where
  pub flags : Flags
  pub width : ℕ
  pub precision : ℤ
  pub len : IntLen
  pub args : Args
  pub fmt : List ℕ

-- A width of `*`: a negative one asks for left adjustment.
unfoldable pub star_width : ℤ → Flags → Flags × ℕ
star_width (pos n) f = (f, n)
star_width (negsuc n) f = (record f { left_adjust = true }, suc n)

unfoldable pub parse_width : Flags → Args → List ℕ → Spec
unfolding parse_digits star_width
parse_width f args [] = record {
  flags = f;
  width = 0;
  precision = negsuc 0;
  len = int_len_default;
  args = args;
  fmt = [];
}
parse_width f args (ch ∷ fmt) =
    let star = star_width (signed (2 ^ 31) (args 0)) f in
    let digits = parse_digits 0 (ch ∷ fmt) in
    if ch == b'*'
    then record {
      flags = star.0;
      width = star.1;
      precision = negsuc 0;
      len = int_len_default;
      args = next_arg args;
      fmt = fmt;
    }
    else record {
      flags = f;
      width = digits.0;
      precision = negsuc 0;
      len = int_len_default;
      args = args;
      fmt = digits.1;
    }

-- The precision behind a dot.
unfoldable pub parse_dot : Spec → List ℕ → Spec
unfolding parse_digits
parse_dot s [] = record s { precision = pos 0; fmt = [] }
parse_dot s (ch ∷ fmt) =
    let digits = parse_digits 0 (ch ∷ fmt) in
    if ch == b'*'
    then record s { precision = signed (2 ^ 31) (s.args 0); args = next_arg s.args; fmt = fmt }
    else record s { precision = pos digits.0; fmt = digits.1 }

unfoldable pub parse_precision : Spec → List ℕ → Spec
unfolding parse_dot
parse_precision s [] = record s { fmt = [] }
parse_precision s (ch ∷ fmt) = if ch == b'.' then parse_dot s fmt else record s { fmt = ch ∷ fmt }

-- Behind an `l`.
unfoldable pub parse_long : Spec → List ℕ → Spec
parse_long s [] = record s { len = int_len_long; fmt = [] }
parse_long s (ch ∷ fmt) =
    if ch == b'l'
    then record s { len = int_len_long_long; fmt = fmt }
    else record s { len = int_len_long; fmt = ch ∷ fmt }

unfoldable pub parse_length : Spec → List ℕ → Spec
unfolding parse_long
parse_length s [] = record s { fmt = [] }
parse_length s (ch ∷ fmt) =
    if ch == b'l'
    then parse_long s fmt
    else if ch == b'z'
    then record s { len = int_len_size; fmt = fmt }
    else record s { fmt = ch ∷ fmt }

-- From behind `%` to before the conversion's letter.
unfoldable pub parse_spec : Args → List ℕ → Spec
unfolding parse_flags parse_width parse_precision parse_length
parse_spec args fmt =
    let (f, fmt1) = parse_flags no_flags fmt in
    let s = parse_width f args fmt1 in let t = parse_precision s s.fmt in parse_length t t.fmt
