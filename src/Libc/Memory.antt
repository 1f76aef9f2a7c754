-- ===== src/Libc/Memory.antt =====
-- The memory that libc/ works on: a byte at each address. Object bounds are the caller's duty in
-- C, and addresses do not wrap inside one object.
use whirliscope.Prelude.{ℕ, ◌+◌, ◌-◌, Bool, ◌&&◌, ltb, leb, ◌==◌, if◌then◌else◌}

abbrev pub Memory : Type 0
Memory = ℕ → ℕ

abbrev pub store : Memory → ℕ → ℕ → Memory
store m a v x = if x == a then v else m x

-- `a` lies in the `n` bytes from `p` on.
abbrev pub within : ℕ → ℕ → ℕ → Bool
within p n a = leb p a && ltb a (p + n)

-- The memory `m` with the `n` bytes from `src` on standing from `dest` on.
abbrev pub copied : Memory → ℕ → ℕ → ℕ → Memory
copied m dest src n a = if within dest n a then m (src + (a - dest)) else m a
