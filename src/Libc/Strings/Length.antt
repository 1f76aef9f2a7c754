-- ===== src/Libc/Strings/Length.antt =====
-- strlen and strnlen of libc/string.c.
use whirliscope.Prelude.{
  ℕ, zero, suc, ◌+◌, ◌≤◌, ◌<◌, ◌≡◌, ap, ◌∙◌, true, false, some, ◌==◌, if◌then◌else◌, leb, arith,
  inl, inr, Bool-cases,
}
use whirliscope.Libc.Memory.{Memory}
use whirliscope.Libc.Strings.{strlen_from, strlen, strnlen_from, strnlen}

-- A string of `n` characters and a zero behind them.
pub record IsString (s n : ℕ) (m : Memory) : Type 0 where
  pub ends : m (s + n) ≡ 0
  pub characters : (i : ℕ) → i < n → 0 < m (s + i)

-- The test that ends the loops.
pub IsString-end : (s n len : ℕ) (m : Memory) → IsString s n m → len ≡ n → (m (s + len) == 0) ≡ true
IsString-end s n len m v e = rw e (at_zero (m (s + n)) v.ends)
  where
    at_zero : (x : ℕ) → x ≡ 0 → (x == 0) ≡ true
    at_zero x h = ground arith

pub IsString-go : (s n len : ℕ) (m : Memory) → IsString s n m → len < n → (m (s + len) == 0) ≡ false
IsString-go s n len m v lt = positive (m (s + len)) (v.characters len lt)
  where
    positive : (x : ℕ) → 0 < x → (x == 0) ≡ false
    positive x h = ground arith

strlen_from-IsString :
    (k len s n : ℕ) (m : Memory)
    → IsString s n m
    → len ≤ n
    → n < len + k
    → strlen_from k len s m ≡ some n
unfolding strlen_from
strlen_from-IsString zero len s n m v low high = absurd (omega arith)
strlen_from-IsString (suc k) len s n m v low high = elim (Bool-cases (len == n)) [
  | inl last ↦
      let same : len ≡ n = ground arith in rw (IsString-end s n len m v same) (ap some same)
  | inr before ↦
      rw (IsString-go s n len m v (ground arith))
        (strlen_from-IsString k (len + 1) s n m v (ground arith) (omega arith))
]

-- strlen returns the length of the string, if it may go on for more rounds than that.
pub strlen-IsString :
    (rounds s n : ℕ) (m : Memory) → IsString s n m → n < rounds → strlen rounds s m ≡ some n
unfolding strlen
strlen-IsString rounds s n m v more =
    strlen_from-IsString rounds 0 s n m v (omega arith) (omega arith)

reached : (len n k : ℕ) → len ≡ n → len ≡ (if leb n (len + suc k) then n else len + suc k)
reached len n k e = ground arith

shifted :
    (len n k : ℕ)
    → (if leb n (len + 1 + k) then n else len + 1 + k)
      ≡ (if leb n (len + suc k) then n else len + suc k)
shifted len n k = ground arith

strnlen_from-IsString :
    (k len s n : ℕ) (m : Memory)
    → IsString s n m
    → len ≤ n
    → strnlen_from k len s m ≡ (if leb n (len + k) then n else len + k)
unfolding strnlen_from
strnlen_from-IsString zero len s n m v low = ground arith
strnlen_from-IsString (suc k) len s n m v low = elim (Bool-cases (len == n)) [
  | inl last ↦ rw (IsString-end s n len m v (ground arith)) (reached len n k (ground arith))
  | inr before ↦
      rw (IsString-go s n len m v (ground arith))
        (strnlen_from-IsString k (len + 1) s n m v (ground arith) ∙ shifted len n k)
]

-- strnlen returns the length of the string, or the limit where the string is longer.
pub strnlen-IsString :
    (s n maxlen : ℕ) (m : Memory)
    → IsString s n m
    → strnlen s maxlen m ≡ (if leb n maxlen then n else maxlen)
unfolding strnlen
strnlen-IsString s n maxlen m v =
    strnlen_from-IsString maxlen 0 s n m v (omega arith) ∙ from_zero n maxlen
  where
    from_zero : (n k : ℕ) → (if leb n (0 + k) then n else 0 + k) ≡ (if leb n k then n else k)
    from_zero n k = ground arith
