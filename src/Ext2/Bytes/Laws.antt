-- ===== src/Ext2/Bytes/Laws.antt =====
-- Numbers written to memory and read back.
use whirliscope.Prelude.{ℕ, ◌+◌, ◌*◌, ◌/◌, ◌%◌, ◌^◌, ◌≤◌, ◌<◌, ◌≡◌, ◌⊎◌, inl, inr, ap₂, ◌∙◌, arith}
use whirliscope.Libc.Memory.{Memory}
use whirliscope.Elf.{read8, read16, read32}
use whirliscope.Ext2.Bytes.{write16, write32}

pub read16-write16 : (a v : ℕ) (m : Memory) → v < 2 ^ 16 → read16 a (write16 a v m) ≡ v
unfolding read16 read8 write16
read16-write16 a v m small = ground arith

pub read16-write16_apart :
    (a b v : ℕ) (m : Memory) → (b + 2 ≤ a) ⊎ (a + 2 ≤ b) → read16 b (write16 a v m) ≡ read16 b m
unfolding read16 read8 write16
read16-write16_apart a b v m (inl h) = ground arith
read16-write16_apart a b v m (inr h) = ground arith

-- The halves of a 32-bit number.
halves : (v low high : ℕ) → low ≡ v % 2 ^ 16 → high ≡ v / 2 ^ 16 → low + 2 ^ 16 * high ≡ v
halves v low high e f = omega arith

pub read32-write32 : (a v : ℕ) (m : Memory) → v < 2 ^ 32 → read32 a (write32 a v m) ≡ v
unfolding read32 write32
read32-write32 a v m small =
    let m1 = write16 a (v % 2 ^ 16) m in
    halves v _ _
      (read16-write16_apart (a + 2) a (v / 2 ^ 16) m1 (inl (omega arith))
        ∙ read16-write16 a (v % 2 ^ 16) m (omega arith))
      (read16-write16 (a + 2) (v / 2 ^ 16) m1 (omega arith))

read16-write32_apart :
    (a b v : ℕ) (m : Memory) → (b + 2 ≤ a) ⊎ (a + 4 ≤ b) → read16 b (write32 a v m) ≡ read16 b m
unfolding write32
read16-write32_apart a b v m (inl h) =
    read16-write16_apart (a + 2) b (v / 2 ^ 16) (write16 a (v % 2 ^ 16) m) (inl (omega arith))
    ∙ read16-write16_apart a b (v % 2 ^ 16) m (inl h)
read16-write32_apart a b v m (inr h) =
    read16-write16_apart (a + 2) b (v / 2 ^ 16) (write16 a (v % 2 ^ 16) m) (inr (omega arith))
    ∙ read16-write16_apart a b (v % 2 ^ 16) m (inr (omega arith))

pub read32-write32_apart :
    (a b v : ℕ) (m : Memory) → (b + 4 ≤ a) ⊎ (a + 4 ≤ b) → read32 b (write32 a v m) ≡ read32 b m
unfolding read32
read32-write32_apart a b v m (inl h) =
    ap₂ (λ x y. x + 2 ^ 16 * y) (read16-write32_apart a b v m (inl (omega arith)))
      (read16-write32_apart a (b + 2) v m (inl (omega arith)))
read32-write32_apart a b v m (inr h) =
    ap₂ (λ x y. x + 2 ^ 16 * y) (read16-write32_apart a b v m (inr h))
      (read16-write32_apart a (b + 2) v m (inr (omega arith)))
