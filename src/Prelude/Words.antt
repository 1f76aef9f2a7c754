-- ===== src/Prelude/Words.antt =====
-- Machine words as native numbers: the moduli, and rounding to a power of two.
use Prim.Native.Nat.{ℕ, ◌+◌, ◌-◌, ◌*◌, ◌/◌, ◌%◌, ◌^◌}

abbrev pub u8_mod : ℕ
u8_mod = 2 ^ 8

abbrev pub u64_mod : ℕ
u64_mod = 2 ^ 64

-- uint64_t sum, difference and product.
abbrev pub add64 : ℕ → ℕ → ℕ
add64 a b = (a + b) % 2 ^ 64

abbrev pub sub64 : ℕ → ℕ → ℕ
sub64 a b = (a + 2 ^ 64 - b) % 2 ^ 64

abbrev pub mul64 : ℕ → ℕ → ℕ
mul64 a b = a * b % 2 ^ 64

-- `v & ~(a - 1)` and `(v + a - 1) & ~(a - 1)` for a power of two `a`.
abbrev pub align_down : ℕ → ℕ → ℕ
align_down v a = v / a * a

abbrev pub align_up : ℕ → ℕ → ℕ
align_up v a = (v + (a - 1)) % 2 ^ 64 / a * a
