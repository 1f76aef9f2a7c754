-- ===== src/Stdio/Shorter.antt =====
-- The conversion parser of vformat never goes back in the format.
use whirliscope.Prelude.{ℕ, ◌+◌, ◌-◌, ◌*◌, ◌≤◌, List, [], ◌∷◌, true, length, arith}
use whirliscope.Stdio.Parse.{
  Spec, Args, Flags, no_flags, parse_flags, parse_digits, parse_width, parse_dot, parse_precision,
  parse_long, parse_length, parse_spec,
}

parse_digits-length : (n : ℕ) (fmt : List ℕ) → length (parse_digits n fmt).1 ≤ length fmt
unfolding parse_digits
parse_digits-length n [] = omega arith
parse_digits-length n (ch ∷ fmt) = ground (arith, parse_digits-length (n * 10 + (ch - b'0')) fmt)

parse_flags-length : (f : Flags) (fmt : List ℕ) → length (parse_flags f fmt).1 ≤ length fmt
unfolding parse_flags
parse_flags-length f [] = omega arith
parse_flags-length f (ch ∷ fmt) = ground (
  arith,
  parse_flags-length (record f { left_adjust = true }) fmt,
  parse_flags-length (record f { zero_pad = true }) fmt,
  parse_flags-length (record f { alternate_form = true }) fmt,
)

parse_width-length :
    (f : Flags) (args : Args) (fmt : List ℕ) → length (parse_width f args fmt).fmt ≤ length fmt
unfolding parse_width
parse_width-length f args [] = omega arith
parse_width-length f args (ch ∷ fmt) = ground (arith, parse_digits-length 0 (ch ∷ fmt))

parse_precision-length : (s : Spec) (fmt : List ℕ) → length (parse_precision s fmt).fmt ≤ length fmt
unfolding parse_precision parse_dot
parse_precision-length s [] = omega arith
parse_precision-length s (ch ∷ []) = ground arith
parse_precision-length s (ch ∷ d ∷ fmt) = ground (arith, parse_digits-length 0 (d ∷ fmt))

parse_length-length : (s : Spec) (fmt : List ℕ) → length (parse_length s fmt).fmt ≤ length fmt
unfolding parse_length parse_long
parse_length-length s [] = omega arith
parse_length-length s (ch ∷ []) = ground arith
parse_length-length s (ch ∷ d ∷ fmt) = ground arith

-- The format only gets shorter.
pub parse_spec-length : (args : Args) (fmt : List ℕ) → length (parse_spec args fmt).fmt ≤ length fmt
unfolding parse_spec
parse_spec-length args fmt =
    let f = parse_flags no_flags fmt in
    let s = parse_width f.0 args f.1 in
    let t = parse_precision s s.fmt in
    omega (
      arith,
      parse_flags-length no_flags fmt,
      parse_width-length f.0 args f.1,
      parse_precision-length s s.fmt,
      parse_length-length t t.fmt,
    )
