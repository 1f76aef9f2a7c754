-- ===== src/Prelude/Int.antt =====
-- Signed integers over the native numbers, for the C `int` results of comparisons and for the
-- signed arguments of system calls.
use whirliscope.Prelude.{ℕ, suc, ◌-◌, ◌≡◌, Bool, true, false, arith, leb, if◌then◌else◌}

-- `negsuc n` is -(n + 1).
pub data ℤ : Type 0 where
  pos : ℕ → ℤ
  negsuc : ℕ → ℤ

-- a - b, as an integer.
abbrev pub sub_ℕ : ℕ → ℕ → ℤ
sub_ℕ a b = if leb b a then pos (a - b) else negsuc (b - a - 1)

abbrev pub neg : ℤ → ℤ
neg (pos n) = sub_ℕ 0 n
neg (negsuc n) = pos (suc n)

abbrev pub is_neg : ℤ → Bool
is_neg (pos n) = false
is_neg (negsuc n) = true

pub neg-sub_ℕ : (a b : ℕ) → neg (sub_ℕ a b) ≡ sub_ℕ b a
neg-sub_ℕ a b = ground arith

pub sub_ℕ_zero : (a b : ℕ) → sub_ℕ a b ≡ pos 0 → a ≡ b
sub_ℕ_zero a b h = ground arith
