-- ===== src/Ext2/Bitmap/Counts.antt =====
-- The counts of free blocks that mark_block_used of fs/ext2.c changes.
use whirliscope.Prelude.{
  ℕ, ◌+◌, ◌-◌, ◌%◌, ◌^◌, ◌≤◌, ◌<◌, ◌≡◌, ◌⊎◌, inl, inr, ap, ◌∙◌, Bool, true, false, ltb,
  if◌then◌else◌, arith, Bool-cases,
}
use whirliscope.Libc.Memory.{Memory}
use whirliscope.Elf.{read8, read16, read32}
use whirliscope.Ext2.Bytes.{add32, write16, write32}
use whirliscope.Ext2.Bytes.Laws.{read32-write32, read16-write16}
use whirliscope.Ext2.Bitmap.{count_block, decrease32, decrease16, increase32, increase16}

write16_apart : (a v b : ℕ) (m : Memory) → (b < a) ⊎ (a + 2 ≤ b) → write16 a v m b ≡ m b
unfolding write16
write16_apart a v b m (inl h) = ground arith
write16_apart a v b m (inr h) = ground arith

write32_apart : (a v b : ℕ) (m : Memory) → (b < a) ⊎ (a + 4 ≤ b) → write32 a v m b ≡ m b
unfolding write32 write16
write32_apart a v b m (inl h) = ground arith
write32_apart a v b m (inr h) = ground arith

-- What the changes of a count leave alone.
decrease16_apart : (a b : ℕ) (m : Memory) → (b < a) ⊎ (a + 2 ≤ b) → decrease16 a m b ≡ m b
unfolding decrease16
decrease16_apart a b m h = elim (Bool-cases (ltb 0 (read16 a m))) [
  | inl e ↦ rw e (write16_apart a (read16 a m - 1) b m h)
  | inr e ↦ rw e
]

decrease32_apart : (a b : ℕ) (m : Memory) → (b < a) ⊎ (a + 4 ≤ b) → decrease32 a m b ≡ m b
unfolding decrease32
decrease32_apart a b m h = elim (Bool-cases (ltb 0 (read32 a m))) [
  | inl e ↦ rw e (write32_apart a (read32 a m - 1) b m h)
  | inr e ↦ rw e
]

pub count_block-apart :
    (desc b : ℕ) (used : Bool) (m : Memory)
    → (b < 1036) ⊎ (1036 + 4 ≤ b)
    → (b < desc + 12) ⊎ (desc + 12 + 2 ≤ b)
    → count_block desc used m b ≡ m b
unfolding count_block increase16 increase32
count_block-apart desc b true m h k =
    decrease16_apart (desc + 12) b (decrease32 1036 m) k ∙ decrease32_apart 1036 b m h
count_block-apart desc b false m h k =
    let m1 = write32 1036 (add32 (read32 1036 m) 1) m in
    write16_apart (desc + 12) ((read16 (desc + 12) m1 + 1) % 2 ^ 16) b m1 k
    ∙ write32_apart 1036 (add32 (read32 1036 m) 1) b m h

-- One free block less, if there was one, or one more.
abbrev pub counted : (used : Bool) → ℕ → ℕ
counted true n = if ltb 0 n then n - 1 else n
counted false n = add32 n 1

pub read32_agree :
    (m m' : Memory) → ((b : ℕ) → 1036 ≤ b → b < 1040 → m' b ≡ m b) → read32 1036 m' ≡ read32 1036 m
unfolding read32 read16 read8
read32_agree m m' h = rw (
  h 1036 (omega arith) (omega arith),
  h 1037 (omega arith) (omega arith),
  h 1038 (omega arith) (omega arith),
  h 1039 (omega arith) (omega arith),
)

read32-lt : (a : ℕ) (m : Memory) → read32 a m < 2 ^ 32
unfolding read32 read16 read8
read32-lt a m = omega arith

add32-lt : (a b : ℕ) → add32 a b < 2 ^ 32
add32-lt a b = omega arith

decrease32-counted : (m : Memory) → read32 1036 (decrease32 1036 m) ≡ counted true (read32 1036 m)
unfolding decrease32
decrease32-counted m = elim (Bool-cases (ltb 0 (read32 1036 m))) [
  | inl e ↦ rw e (read32-write32 1036 (read32 1036 m - 1) m (omega (arith, read32-lt 1036 m)))
  | inr e ↦ rw e
]

outside_desc :
    (desc b : ℕ)
    → (desc + 14 ≤ 1036) ⊎ (1040 ≤ desc + 12)
    → 1036 ≤ b
    → b < 1040
    → (b < desc + 12) ⊎ (desc + 12 + 2 ≤ b)
outside_desc desc b (inl h) low high = inr (omega arith)
outside_desc desc b (inr h) low high = inl (omega arith)

pub count_block-counted :
    (desc : ℕ) (used : Bool) (m : Memory)
    → (desc + 14 ≤ 1036) ⊎ (1040 ≤ desc + 12)
    → read32 1036 (count_block desc used m) ≡ counted used (read32 1036 m)
unfolding count_block increase16 increase32
count_block-counted desc true m apart =
    let m1 = decrease32 1036 m in
    read32_agree m1 (decrease16 (desc + 12) m1)
      (λ b low high. decrease16_apart (desc + 12) b m1 (outside_desc desc b apart low high))
    ∙ decrease32-counted m
count_block-counted desc false m apart =
    let m1 = write32 1036 (add32 (read32 1036 m) 1) m in
    read32_agree m1 (write16 (desc + 12) ((read16 (desc + 12) m1 + 1) % 2 ^ 16) m1) (λ b low high.
      write16_apart (desc + 12) ((read16 (desc + 12) m1 + 1) % 2 ^ 16) b m1
        (outside_desc desc b apart low high))
    ∙ read32-write32 1036 (add32 (read32 1036 m) 1) m (add32-lt (read32 1036 m) 1)

-- The same for the count of the group, a word of 16 bits.
abbrev pub counted_group : (used : Bool) → ℕ → ℕ
counted_group true n = if ltb 0 n then n - 1 else n
counted_group false n = (n + 1) % 2 ^ 16

pub read16_agree :
    (a : ℕ) (m m' : Memory) → ((b : ℕ) → a ≤ b → b < a + 2 → m' b ≡ m b) → read16 a m' ≡ read16 a m
unfolding read16 read8
read16_agree a m m' h = rw (h a (omega arith) (omega arith), h (a + 1) (omega arith) (omega arith))

read16-lt : (a : ℕ) (m : Memory) → read16 a m < 2 ^ 16
unfolding read16 read8
read16-lt a m = omega arith

decrease16-counted :
    (a : ℕ) (m : Memory) → read16 a (decrease16 a m) ≡ counted_group true (read16 a m)
unfolding decrease16
decrease16-counted a m = elim (Bool-cases (ltb 0 (read16 a m))) [
  | inl e ↦ rw e (read16-write16 a (read16 a m - 1) m (omega (arith, read16-lt a m)))
  | inr e ↦ rw e
]

outside_superblock :
    (desc b : ℕ)
    → (desc + 14 ≤ 1036) ⊎ (1040 ≤ desc + 12)
    → desc + 12 ≤ b
    → b < desc + 12 + 2
    → (b < 1036) ⊎ (1036 + 4 ≤ b)
outside_superblock desc b (inl h) low high = inl (omega arith)
outside_superblock desc b (inr h) low high = inr (omega arith)

pub count_block-counted_group :
    (desc : ℕ) (used : Bool) (m : Memory)
    → (desc + 14 ≤ 1036) ⊎ (1040 ≤ desc + 12)
    → read16 (desc + 12) (count_block desc used m) ≡ counted_group used (read16 (desc + 12) m)
unfolding count_block increase16 increase32
count_block-counted_group desc true m apart =
    let m1 = decrease32 1036 m in
    decrease16-counted (desc + 12) m1
    ∙ ap (counted_group true) (
        read16_agree (desc + 12) m m1
          (λ b low high. decrease32_apart 1036 b m (outside_superblock desc b apart low high)))
count_block-counted_group desc false m apart =
    let m1 = write32 1036 (add32 (read32 1036 m) 1) m in
    read16-write16 (desc + 12) ((read16 (desc + 12) m1 + 1) % 2 ^ 16) m1 (omega arith)
    ∙ ap (counted_group false) (
        read16_agree (desc + 12) m m1 (λ b low high.
          write32_apart 1036 (add32 (read32 1036 m) 1) b m
            (outside_superblock desc b apart low high)))
