-- ===== src/Libc/Block/Compare.antt =====
-- The sign that memcmp of libc/mem.c returns.
use whirliscope.Prelude.{
  ℕ, zero, suc, ◌+◌, ◌-◌, ◌≤◌, ◌<◌, ◌≡◌, inl, inr, arith, ltb, ◌==◌, Bool-cases,
}
use whirliscope.Prelude.Int.{ℤ, pos, negsuc}
use whirliscope.Libc.Memory.{Memory}
use whirliscope.Libc.Block.{compare_up, memcmp}

-- The two blocks agree on the offsets from `i` up to `i + k`.
abbrev pub Agree : ℕ → ℕ → ℕ → ℕ → Memory → Type 0
Agree i k s1 s2 m = (j : ℕ) → i ≤ j → j < i + k → m (s1 + j) ≡ m (s2 + j)

-- `z` is the order of the first bytes that differ, as a C comparison reports it.
pub data FirstDifference (i k s1 s2 : ℕ) (m : Memory) : ℤ → Type 0 where
  same : Agree i k s1 s2 m → FirstDifference i k s1 s2 m (pos 0)
  less :
      (j : ℕ)
      → i ≤ j
      → j < i + k
      → Agree i (j - i) s1 s2 m
      → m (s1 + j) < m (s2 + j)
      → FirstDifference i k s1 s2 m (negsuc 0)
  greater :
      (j : ℕ)
      → i ≤ j
      → j < i + k
      → Agree i (j - i) s1 s2 m
      → m (s2 + j) < m (s1 + j)
      → FirstDifference i k s1 s2 m (pos 1)

Agree-extend :
    (i k l s1 s2 : ℕ) (m : Memory)
    → m (s1 + i) ≡ m (s2 + i)
    → Agree (i + 1) k s1 s2 m
    → l ≤ suc k
    → Agree i l s1 s2 m
Agree-extend i k l s1 s2 m e agree h j lo hi = elim (Bool-cases (i == j)) [
  | inl at ↦ ground arith
  | inr past ↦ agree j (ground arith) (omega arith)
]

extend :
    {i k s1 s2 : ℕ} {m : Memory} {z : ℤ}
    → m (s1 + i) ≡ m (s2 + i)
    → FirstDifference (i + 1) k s1 s2 m z
    → FirstDifference i (suc k) s1 s2 m z
extend {i} {k} {s1} {s2} {m} e (same agree) =
    same (Agree-extend i k (suc k) s1 s2 m e agree (omega arith))
extend {i} {k} {s1} {s2} {m} e (less j lo hi agree lt) =
    less j (omega arith) (omega arith)
      (Agree-extend i (j - (i + 1)) (j - i) s1 s2 m e agree (omega arith)) lt
extend {i} {k} {s1} {s2} {m} e (greater j lo hi agree lt) =
    greater j (omega arith) (omega arith)
      (Agree-extend i (j - (i + 1)) (j - i) s1 s2 m e agree (omega arith)) lt

compare_up-FirstDifference :
    (k i s1 s2 : ℕ) (m : Memory) → FirstDifference i k s1 s2 m (compare_up k i s1 s2 m)
unfolding compare_up
compare_up-FirstDifference zero i s1 s2 m = same λ j lo hi. absurd (omega arith)
compare_up-FirstDifference (suc k) i s1 s2 m = elim (Bool-cases (m (s1 + i) == m (s2 + i))) [
  | inl eq ↦ rw eq (extend (ground arith) (compare_up-FirstDifference k (i + 1) s1 s2 m))
  | inr ne ↦ rw ne (elim (Bool-cases (ltb (m (s1 + i)) (m (s2 + i)))) [
    | inl lt ↦
        rw lt (less i (omega arith) (omega arith) (λ j lo hi. absurd (omega arith)) (ground arith))
    | inr ge ↦
        rw ge
          (greater i (omega arith) (omega arith) (λ j lo hi. absurd (omega arith)) (ground arith))
  ])
]

-- memcmp returns 0 exactly for blocks that agree in all `n` bytes, and otherwise -1 or 1 for the
-- order of the first two bytes that differ, as unsigned numbers.
pub memcmp-FirstDifference :
    (s1 s2 n : ℕ) (m : Memory) → FirstDifference 0 n s1 s2 m (memcmp s1 s2 n m)
unfolding memcmp
memcmp-FirstDifference s1 s2 n m = compare_up-FirstDifference n 0 s1 s2 m
