-- ===== src/Prelude/Table.antt =====
-- Finite tables: a test that holds at each of `count` consecutive numbers, found by evaluation.
use whirliscope.Prelude.{ℕ, zero, suc, ◌+◌, ◌≤◌, ◌<◌, ◌≡◌, Bool, true, ◌&&◌, arith}

unfoldable pub holds_from : (first count : ℕ) → (ℕ → Bool) → Bool
holds_from first zero test = true
holds_from first (suc count) test = test first && holds_from (first + 1) count test

pub holds_from-at :
    (first count i : ℕ) (test : ℕ → Bool)
    → holds_from first count test ≡ true
    → first ≤ i
    → i < first + count
    → test i ≡ true
unfolding holds_from
holds_from-at first zero i test all low high = absurd (omega arith)
holds_from-at first (suc count) i test all low high =
    ground (arith, holds_from-at (first + 1) count i test)
