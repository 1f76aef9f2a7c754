-- ===== src/Libc/Examples.antt =====
-- Runs of the functions of libc/, and their theorems at them.
use whirliscope.Libc.Strings.{strcpy}
use whirliscope.Libc.Strings.Length.{IsString}
use whirliscope.Libc.Strings.Copying.{strcpy-copied}
use whirliscope.Prelude.{ℕ, ◌+◌, ◌≡◌, refl, inr, some, if◌then◌else◌, arith}
use whirliscope.Libc.Memory.{Memory, within, copied}
use whirliscope.Libc.Block.{memmove, memcmp}
use whirliscope.Libc.Block.Copy.{memmove-copied}
use whirliscope.Libc.Block.Compare.{FirstDifference, memcmp-FirstDifference}

-- Each byte holds the low byte of its address.
abbrev ramp : Memory
ramp a = a

-- The target overlaps the source from above.
memmove-copied_example : memmove 22 20 8 ramp 26 ≡ 24
memmove-copied_example = memmove-copied 22 20 8 ramp 26

memcmp-FirstDifference_example : FirstDifference 0 4 10 20 ramp (memcmp 10 20 4 ramp)
memcmp-FirstDifference_example = memcmp-FirstDifference 10 20 4 ramp

-- Five characters from address 10 on.
abbrev word : Memory
word a = if within 10 5 a then a + 60 else 0

word-IsString : IsString 10 5 word
word-IsString = record { ends = refl; characters = λ i lt. ground arith }

strcpy-copied_example :
    (m' : Memory) × (strcpy 6 30 10 word ≡ some m') × ((a : ℕ) → m' a ≡ copied word 30 10 6 a)
strcpy-copied_example = strcpy-copied 6 30 10 5 word word-IsString (omega arith) (inr (omega arith))
