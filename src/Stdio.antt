-- ===== src/Stdio.antt =====
-- libc/stdio.c: formatted output. A format is the list of its characters before the zero byte, and
-- `text_at` gives those of the string at an address. The C `int` width and precision are exact
-- integers here: where the C arithmetic on them overflows, C leaves the result undefined.
-- The state of whrlibc_write, which stands elsewhere, is the list of the texts written.
pub mod Emit
pub mod Parse
pub mod Shorter
pub mod Text
pub mod Field
pub mod Format
pub mod Loop
pub mod Digits
pub mod Buffered
pub mod Streamed
mod Examples
use whirliscope.Prelude.{
  ℕ, zero, suc, ◌+◌, ◌-◌, ◌%◌, ◌^◌, List, [], ◌∷◌, ◌++◌, Bool, true, false, not, ◌&&◌, Option, none,
  some, ltb, ◌==◌, if◌then◌else◌, length, take, add64,
}
use whirliscope.Prelude.Text.{codes}
use whirliscope.Prelude.Int.{ℤ, pos, negsuc, is_neg}
use whirliscope.Libc.Memory.{Memory, store}
use whirliscope.Stdio.Emit.{Out, Number, emit_char, emit_padded_string, emit_number}
use whirliscope.Stdio.Parse.{
  Spec, Flags, Args, next_arg, signed, read_unsigned, read_signed, magnitude, parse_spec,
}

-- `precision < 0 || str_len < precision`.
abbrev pub below_precision : ℕ → ℤ → Bool
below_precision n (pos precision) = ltb n precision
below_precision n (negsuc _) = true

-- The loop of `%s` from `str_len` on, over the characters that are left.
unfoldable pub str_len : ℕ → ℤ → List ℕ → ℕ
str_len n precision [] = n
str_len n precision (ch ∷ s) =
    let rest = str_len (n + 1) precision s in if below_precision n precision then rest else n

unfoldable pub number : Spec → ℕ → Bool → ℕ → Bool → List ℕ → Number
number s value negative base uppercase prefix = record {
  value = value;
  negative = negative;
  base = base;
  uppercase = uppercase;
  width = s.width;
  precision = s.precision;
  left_adjust = s.flags.left_adjust;
  zero_pad = s.flags.zero_pad;
  prefix = prefix;
}

-- The number that `%b`, `%B`, `%x`, `%X` and `%o` emit, with the prefix of the alternate form.
unfoldable pub alternate : Spec → ℕ → Bool → List ℕ → Number
unfolding number read_unsigned
alternate s base uppercase prefix =
    let value = read_unsigned s.args s.len in
    number s value false base uppercase
      (if s.flags.alternate_form && not (value == 0) then prefix else [])

unfoldable pub signed_number : Spec → Number
unfolding number read_signed magnitude
signed_number s = let v = read_signed s.args s.len in number s (magnitude v) (is_neg v) 10 false []

module _ {ℓ} {S : Type ℓ} (text_at : ℕ → List ℕ) (put : ℕ → ℕ → S → S) where
  unfoldable pub emit_string : Out S → Spec → Out S
  unfolding str_len emit_padded_string
  emit_string o s =
      let text = if s.args 0 == 0 then codes "(null)" else text_at (s.args 0) in
      emit_padded_string put o (take (str_len 0 s.precision text) text) s.width s.flags.left_adjust

  -- The switch over the conversion's letter.
  unfoldable pub convert : Out S → Spec → (spec : ℕ) → Out S × Args
  unfolding emit_char emit_padded_string emit_number number alternate signed_number emit_string
  convert o s spec =
      let emitted : Number → Out S × Args = λ n. (emit_number put o n, next_arg s.args) in
      if spec == b'c'
      then (
        emit_padded_string put o (s.args 0 % 256 ∷ []) s.width s.flags.left_adjust,
        next_arg s.args,
      )
      else if spec == b's'
      then (emit_string o s, next_arg s.args)
      else if spec == b'd'
      then emitted (signed_number s)
      else if spec == b'i'
      then emitted (signed_number s)
      else if spec == b'u'
      then emitted (number s (read_unsigned s.args s.len) false 10 false [])
      else if spec == b'b'
      then emitted (alternate s 2 false (codes "0b"))
      else if spec == b'B'
      then emitted (alternate s 2 true (codes "0B"))
      else if spec == b'x'
      then emitted (alternate s 16 false (codes "0x"))
      else if spec == b'X'
      then emitted (alternate s 16 true (codes "0X"))
      else if spec == b'o'
      then emitted (alternate s 8 false (codes "0"))
      else if spec == b'p'
      then emitted (number s (s.args 0 % 2 ^ 64) false 16 false (codes "0x"))
      else (emit_char put (emit_char put o b'%') spec, s.args)

  -- Behind the flags, width, precision and length; `next` is the loop over the format behind.
  unfoldable pub conversion :
      (List ℕ → Args → Out S → Option (Out S)) → Out S → Spec → List ℕ → Option (Out S)
  unfolding convert
  conversion next o s [] = some o
  conversion next o s (spec ∷ fmt) = next fmt (convert o s spec).1 (convert o s spec).0

  unfoldable pub after_percent :
      (List ℕ → Args → Out S → Option (Out S)) → List ℕ → Args → Out S → Option (Out S)
  unfolding emit_char conversion parse_spec
  after_percent next [] args o = conversion next o (parse_spec args []) (parse_spec args []).fmt
  after_percent next (ch ∷ fmt) args o =
      let s = parse_spec args (ch ∷ fmt) in
      if ch == b'%' then next fmt args (emit_char put o ch) else conversion next o s s.fmt

  -- The loop over the format, with the rounds left; none stands for no rounds left.
  unfoldable pub format_loop : ℕ → List ℕ → Args → Out S → Option (Out S)
  unfolding emit_char after_percent
  format_loop zero fmt args o = none
  format_loop (suc k) [] args o = some o
  format_loop (suc k) (ch ∷ fmt) args o =
      let plain = format_loop k fmt args (emit_char put o ch) in
      let percent = after_percent (format_loop k) fmt args o in
      if ch == b'%' then percent else plain

  -- What is emitted; the result of the C function is `written` of its count.
  unfoldable pub vformat : List ℕ → Args → Out S → Option (Out S)
  unfolding format_loop
  vformat fmt args o = format_loop (suc (length fmt)) fmt args o

-- `(int)out->count`.
abbrev pub written : ℕ → ℤ
written count = signed (2 ^ 31) count

unfoldable pub buffer_put : (s n : ℕ) → ℕ → ℕ → Memory → Memory
buffer_put s n ch count m = if ltb 0 n && ltb (add64 count 1) n then store m (s + count) ch else m

-- struct stream_out: the first `len` characters of its buffer, and what has been written.
pub record Stream : Type 0 where
  pub buffer : List ℕ
  pub output : List (List ℕ)

abbrev pub print_buffer_size : ℕ
print_buffer_size = 512

unfoldable pub stream_flush : Stream → Stream
stream_flush s =
    if ltb 0 (length s.buffer)
    then record { buffer = []; output = s.output ++ s.buffer ∷ [] }
    else s

unfoldable pub stream_put : ℕ → ℕ → Stream → Stream
unfolding stream_flush
stream_put ch count s =
    let s1 = if length s.buffer == print_buffer_size then stream_flush s else s in
    record s1 { buffer = s1.buffer ++ ch ∷ [] }

-- The end of vprintf.
abbrev pub flushed : Out Stream → ℤ × List (List ℕ)
flushed o = (written o.count, (stream_flush o.ctx).output)

-- The end of vsnprintf.
abbrev pub terminated : (s n : ℕ) → Out Memory → ℤ × Memory
terminated s n o =
    let terminator = if ltb o.count n then o.count else n - 1 in
    (written o.count, if ltb 0 n then store o.ctx (s + terminator) 0 else o.ctx)

module _ (text_at : ℕ → List ℕ) where
  unfoldable pub vprintf : List ℕ → Args → List (List ℕ) → Option (ℤ × List (List ℕ))
  unfolding vformat stream_put stream_flush
  vprintf fmt args output =
      elim (vformat text_at stream_put fmt args
        (record { ctx = record { buffer = []; output = output }; count = 0 })) [
          | none ↦ none
          | some o ↦ some (flushed o)
        ]

  unfoldable pub vsnprintf : (s n : ℕ) → List ℕ → Args → Memory → Option (ℤ × Memory)
  unfolding vformat buffer_put
  vsnprintf s n fmt args m =
      elim (vformat text_at (buffer_put s n) fmt args (record { ctx = m; count = 0 })) [
        | none ↦ none
        | some o ↦ some (terminated s n o)
      ]

-- The results are the functions'; the list is what has been written.
unfoldable pub putchar : ℕ → List (List ℕ) → ℕ × List (List ℕ)
putchar ch output = (ch % 256, output ++ (ch % 256 ∷ []) ∷ [])

unfoldable pub fputs : List ℕ → List (List ℕ) → ℕ × List (List ℕ)
fputs s output = (0, output ++ s ∷ [])

unfoldable pub puts : List ℕ → List (List ℕ) → ℕ × List (List ℕ)
unfolding fputs
puts s output = (0, (fputs s output).1 ++ (b'\n' ∷ []) ∷ [])
