-- ===== src/Stdio/Examples.antt =====
-- The theorems on libc/stdio.c at concrete inputs.
use whirliscope.Prelude.{
  ℕ, ◌≤◌, ◌≡◌, ◌≢◌, refl, List, [], ◌∷◌, true, false, some, ltb, ◌==◌, if◌then◌else◌, length, arith,
}
use whirliscope.Prelude.Text.{codes}
use whirliscope.Prelude.Int.{pos}
use whirliscope.Libc.Memory.{Memory}
use whirliscope.Stdio.{vformat, vprintf, vsnprintf, written, buffer_put}
use whirliscope.Stdio.Emit.{Out, Number, emit_chars, emit_number, format_unsigned}
use whirliscope.Stdio.Parse.{Args}
use whirliscope.Stdio.Text.{number_text}
use whirliscope.Stdio.Field.{loses_padding, bare_length, emit_number-field}
use whirliscope.Stdio.Format.{collect, blank}
use whirliscope.Stdio.Loop.{vformat_total}
use whirliscope.Stdio.Digits.{value_of, NoLeadingNought, format_unsigned-value_of}
use whirliscope.Stdio.Buffered.{printed, vsnprintf-printed}
use whirliscope.Stdio.Streamed.{joined, Sized, vprintf-writes}

-- "disk" stands at 4096.
abbrev texts : ℕ → List ℕ
texts a = if a == 4096 then codes "disk" else []

-- 4096, 255, then zeroes.
abbrev slots : Args
slots i = if i == 0 then 4096 else if i == 1 then 255 else 0

abbrev format : List ℕ
format = codes "%-6s|%#06x%%"

abbrev shown : Out (List ℕ)
shown = record { ctx = codes "disk  |0x00ff%"; count = 14 }

shown_text : vformat texts collect format slots blank ≡ some shown
unfolding vformat format_unsigned whirliscope.Stdio.Emit.format_digits
shown_text = refl

abbrev nothing_stored : Memory
nothing_stored a = 0

abbrev to_memory : Out Memory
to_memory = record { ctx = nothing_stored; count = 0 }

vformat_total_example :
    (text : Out (List ℕ)) × (vformat texts collect format slots blank ≡ some text)
    × (vformat texts (buffer_put 8192 8) format slots to_memory
        ≡ some (emit_chars (buffer_put 8192 8) to_memory text.ctx))
vformat_total_example = vformat_total texts (buffer_put 8192 8) format slots to_memory

vsnprintf-printed_example :
    (r : Memory) × (vsnprintf texts 8192 8 format slots nothing_stored ≡ some (pos 14, r))
    × ((a : ℕ) → r a ≡ printed 8192 8 shown.ctx nothing_stored a)
vsnprintf-printed_example =
    vsnprintf-printed texts 8192 8 format slots nothing_stored {text = shown} shown_text
      (omega arith)

vprintf-writes_example :
    (writes : List (List ℕ)) × (vprintf texts format slots (codes "> " ∷ [])
      ≡ some (pos 14, codes "> " ∷ writes))
    × (joined writes ≡ codes "disk  |0x00ff%")
    × Sized writes
vprintf-writes_example =
    vprintf-writes texts format slots (codes "> " ∷ []) {text = shown} shown_text (omega arith)

format_unsigned-value_of_example :
    (value_of 16 (format_unsigned 48879 16 true) ≡ 48879)
    × (length (format_unsigned 48879 16 true) ≤ 64)
    × (◌≢◌ {A = ℕ} 48879 0 → NoLeadingNought (format_unsigned 48879 16 true))
format_unsigned-value_of_example =
    format_unsigned-value_of 48879 16 true (omega arith) (omega arith) (omega arith)

-- `%08.3d` of -7.
abbrev padded : Number
padded = record {
  value = 7;
  negative = true;
  base = 10;
  uppercase = false;
  width = 8;
  precision = pos 3;
  left_adjust = false;
  zero_pad = true;
  prefix = [];
}

emit_number-field_example :
    (emit_number collect blank padded ≡ emit_chars collect blank (number_text padded))
    × (length (number_text padded) ≡ (
        if loses_padding padded
        then bare_length padded
        else if ltb (bare_length padded) padded.width
        then padded.width
        else bare_length padded))
emit_number-field_example = emit_number-field collect blank padded
