-- ===== src/Ext2/Bitmap/Marking.antt =====
-- mark_block_used of fs/ext2.c: the bit and the counts.
use whirliscope.Prelude.{
  ℕ, ◌+◌, ◌*◌, ◌/◌, ◌≤◌, ◌<◌, ◌≡◌, ◌≢◌, ◌⊎◌, inl, inr, refl, ap, ◌∙◌, Bool, true, false, some, leb,
  ◌==◌, if◌then◌else◌, arith, Bool-cases,
}
use whirliscope.Libc.Memory.{Memory}
use whirliscope.Elf.{read16, read32}
use whirliscope.Ext2.Superblock
use whirliscope.Ext2.GroupDesc
use whirliscope.Ext2.Image.{Ext2, block_ptr, group_desc}
use whirliscope.Ext2.Bitmap.{
  bitmap_get, bitmap_set, count_block, eq_bool, block_group, block_group_index, mark_block_used,
}
use whirliscope.Ext2.Bitmap.Bits.{bitmap_get-bitmap_set, eq_bool→eq}
use whirliscope.Ext2.Bitmap.Counts.{
  counted, counted_group, count_block-apart, count_block-counted, count_block-counted_group,
  read32_agree, read16_agree,
}

-- The counts that marking changes do not lie in the bitmap, nor does one lie in the other.
pub record IsApart (bitmap size desc : ℕ) : Type 0 where
  pub from_superblock : (1040 ≤ bitmap) ⊎ (bitmap + size ≤ 1036)
  pub from_desc : (desc + 14 ≤ bitmap) ⊎ (bitmap + size ≤ desc + 12)
  pub counts : (desc + 14 ≤ 1036) ⊎ (1040 ≤ desc + 12)

-- The block is marked in `r`, and no other bit of the bitmap has changed; the counts of free
-- blocks of the superblock and of the group follow a change of the bit.
pub record IsMarked (block : ℕ) (used : Bool) (fs : Ext2) (desc bitmap : ℕ) (r : Ext2 × Bool)
    : Type 0 where
  pub succeeds : r.1 ≡ true
  pub bits :
      (j : ℕ)
      → j < 8 * fs.block_size
      → bitmap_get bitmap j r.0.image
        ≡ (if j == block_group_index block fs.image then used else bitmap_get bitmap j fs.image)
  pub free_blocks : read32 1036 r.0.image ≡ (
      if eq_bool (bitmap_get bitmap (block_group_index block fs.image) fs.image) used
      then read32 1036 fs.image
      else counted used (read32 1036 fs.image))
  pub group_free_blocks : read16 (desc + 12) r.0.image ≡ (
      if eq_bool (bitmap_get bitmap (block_group_index block fs.image) fs.image) used
      then read16 (desc + 12) fs.image
      else counted_group used (read16 (desc + 12) fs.image))

bitmap_get_agree :
    (bitmap j : ℕ) (m m' : Memory)
    → m' (bitmap + j / 8) ≡ m (bitmap + j / 8)
    → bitmap_get bitmap j m' ≡ bitmap_get bitmap j m
unfolding bitmap_get
bitmap_get_agree bitmap j m m' e = rw e

bitmap_set_apart :
    (bitmap index b : ℕ) (used : Bool) (m : Memory)
    → b ≢ bitmap + index / 8
    → bitmap_set bitmap index used m b ≡ m b
unfolding bitmap_set
bitmap_set_apart bitmap index b used m h =
    let e : (b == bitmap + index / 8) ≡ false = ground arith in rw e

outside_bitmap : {k : ℕ} (b : ℕ) → (k < 1036) ⊎ (1036 + 4 ≤ k) → 1036 ≤ b → b < 1040 → b ≢ k
outside_bitmap b (inl h) low high = λ e. omega arith
outside_bitmap b (inr h) low high = λ e. omega arith

already :
    (j index bitmap : ℕ) (used : Bool) (m : Memory)
    → eq_bool (bitmap_get bitmap index m) used ≡ true
    → bitmap_get bitmap j m ≡ (if j == index then used else bitmap_get bitmap j m)
already j index bitmap used m e = elim (Bool-cases (j == index)) [
  | inl t ↦
      let same : j ≡ index = ground arith in
      rw t (ap (λ k. bitmap_get bitmap k m) same ∙ eq_bool→eq (bitmap_get bitmap index m) used e)
  | inr t ↦ rw t
]

outside_bitmap_group :
    {k : ℕ} (desc b : ℕ)
    → (k < desc + 12) ⊎ (desc + 12 + 2 ≤ k)
    → desc + 12 ≤ b
    → b < desc + 12 + 2
    → b ≢ k
outside_bitmap_group desc b (inl h) low high = λ e. omega arith
outside_bitmap_group desc b (inr h) low high = λ e. omega arith

module _ (desc bitmap size : ℕ) (apart : IsApart bitmap size desc) where
  in_bitmap_superblock : (k : ℕ) → k < size → (bitmap + k < 1036) ⊎ (1036 + 4 ≤ bitmap + k)
  in_bitmap_superblock k small = elim apart.from_superblock [
    | inl h ↦ inr (omega arith)
    | inr h ↦ inl (omega arith)
  ]

  in_bitmap_desc : (k : ℕ) → k < size → (bitmap + k < desc + 12) ⊎ (desc + 12 + 2 ≤ bitmap + k)
  in_bitmap_desc k small = elim apart.from_desc [
    | inl h ↦ inr (omega arith)
    | inr h ↦ inl (omega arith)
  ]

  changed_bits :
      (j index : ℕ) (used : Bool) (m : Memory)
      → j < 8 * size
      → bitmap_get bitmap j (count_block desc used (bitmap_set bitmap index used m))
        ≡ (if j == index then used else bitmap_get bitmap j m)
  changed_bits j index used m small =
      let m1 = bitmap_set bitmap index used m in
      bitmap_get_agree bitmap j m1 (count_block desc used m1) (
        count_block-apart desc (bitmap + j / 8) used m1 (in_bitmap_superblock (j / 8) (omega arith))
          (in_bitmap_desc (j / 8) (omega arith)))
      ∙ bitmap_get-bitmap_set bitmap index j used m

  changed_count :
      (index : ℕ) (used : Bool) (m : Memory)
      → index < 8 * size
      → read32 1036 (count_block desc used (bitmap_set bitmap index used m))
        ≡ counted used (read32 1036 m)
  changed_count index used m small =
      let m1 = bitmap_set bitmap index used m in
      count_block-counted desc used m1 apart.counts
      ∙ ap (counted used) (
          read32_agree m m1 (λ b low high.
            bitmap_set_apart bitmap index b used m
              (outside_bitmap b (in_bitmap_superblock (index / 8) (omega arith)) low high)))

module _ (desc bitmap size : ℕ) (apart : IsApart bitmap size desc) where
  changed_group_count :
      (index : ℕ) (used : Bool) (m : Memory)
      → index < 8 * size
      → read16 (desc + 12) (count_block desc used (bitmap_set bitmap index used m))
        ≡ counted_group used (read16 (desc + 12) m)
  changed_group_count index used m small =
      let m1 = bitmap_set bitmap index used m in
      count_block-counted_group desc used m1 apart.counts
      ∙ ap (counted_group used) (
          read16_agree (desc + 12) m m1 (λ b low high. bitmap_set_apart bitmap index b used m (
            outside_bitmap_group desc b
              (in_bitmap_desc desc bitmap size apart (index / 8) (omega arith)) low high)))

-- Marking a block that the file system has, whose group has a descriptor and a bitmap in the image,
-- succeeds: its bit is then the one asked for, and all other bits of the bitmap are as they were.
-- If the bit changed, the counts of free blocks in the superblock and in the descriptor go down by
-- one, unless they are 0, for a block taken, and up by one, with their wrap-around, for a block
-- given back; if it did not change, they stay. The counts must not lie in the bitmap or in one
-- another, and the bit must lie in the bitmap's block.
pub mark_block_used-IsMarked :
    (block : ℕ) (used : Bool) (fs : Ext2) (desc bitmap : ℕ)
    → block < Superblock.blocks_count fs.image
    → group_desc (block_group block fs.image) fs ≡ some desc
    → block_ptr (GroupDesc.block_bitmap desc fs.image) 0 fs.block_size fs ≡ some bitmap
    → block_group_index block fs.image < 8 * fs.block_size
    → IsApart bitmap fs.block_size desc
    → IsMarked block used fs desc bitmap (mark_block_used block used fs)
unfolding mark_block_used
mark_block_used-IsMarked block used fs desc bitmap counted_in described mapped small apart =
    let index = block_group_index block fs.image in
    let within_count : leb (Superblock.blocks_count fs.image) block ≡ false = ground arith in
    elim (Bool-cases (eq_bool (bitmap_get bitmap index fs.image) used)) [
      | inl e ↦
          rw (within_count, described, mapped, e, mark_block_used)
            (record {
              succeeds = refl;
              bits = λ j low. already j index bitmap used fs.image e;
              free_blocks = rw e;
              group_free_blocks = rw e;
            })
      | inr e ↦
          rw (within_count, described, mapped, e, mark_block_used)
            (record {
              succeeds = refl;
              bits =
                  λ j low. changed_bits desc bitmap fs.block_size apart j index used fs.image low;
              free_blocks =
                  rw e (changed_count desc bitmap fs.block_size apart index used fs.image small);
              group_free_blocks =
                  rw e
                    (changed_group_count desc bitmap fs.block_size apart index used fs.image small);
            })
    ]
