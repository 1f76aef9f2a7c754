-- ===== src/Ext2/Bitmap.antt =====
-- Bitmaps of fs/ext2.c, and the marking and allocation of blocks and inodes.
pub mod Bits
pub mod Fresh
pub mod Counts
pub mod Marking
use whirliscope.Prelude.{
  ℕ, zero, suc, ◌+◌, ◌-◌, ◌*◌, ◌/◌, ◌%◌, ◌^◌, Bool, true, false, not, ◌&&◌, ◌||◌, Option, none,
  some, ltb, leb, ◌==◌, if◌then◌else◌,
}
use whirliscope.Libc.Memory.{Memory, store, within}
use whirliscope.Ext2.Bytes.{add32, sub32, mul32, write16, write32}
use whirliscope.Elf.{read16, read32}
use whirliscope.Ext2.Superblock
use whirliscope.Ext2.GroupDesc
use whirliscope.Ext2.Image.{Ext2, with_image, block_ptr, group_desc, write_inode}

-- Whether the byte has the bit number `i`.
abbrev pub has_bit : (byte i : ℕ) → Bool
has_bit byte i = byte / 2 ^ i % 2 == 1

-- `byte | mask` and `byte & ~mask`, for the mask of the bit number `i`.
abbrev pub with_bit : (byte i : ℕ) → Bool → ℕ
with_bit byte i true = if has_bit byte i then byte else byte + 2 ^ i
with_bit byte i false = if has_bit byte i then byte - 2 ^ i else byte

unfoldable pub bitmap_get : (bitmap index : ℕ) → Memory → Bool
bitmap_get bitmap index m = has_bit (m (bitmap + index / 8) % 256) (index % 8)

unfoldable pub bitmap_set : (bitmap index : ℕ) → Bool → Memory → Memory
bitmap_set bitmap index value m =
    let at = bitmap + index / 8 in store m at (with_bit (m at % 256) (index % 8) value)

abbrev pub eq_bool : Bool → Bool → Bool
eq_bool true b = b
eq_bool false b = not b

-- `if (x > 0) x--;` for the count at `a`, and `x++`.
unfoldable pub decrease32 : ℕ → Memory → Memory
decrease32 a m = let x = read32 a m in if ltb 0 x then write32 a (x - 1) m else m

unfoldable pub increase32 : ℕ → Memory → Memory
increase32 a m = write32 a (add32 (read32 a m) 1) m

unfoldable pub decrease16 : ℕ → Memory → Memory
decrease16 a m = let x = read16 a m in if ltb 0 x then write16 a (x - 1) m else m

unfoldable pub increase16 : ℕ → Memory → Memory
increase16 a m = write16 a ((read16 a m + 1) % 2 ^ 16) m

-- The counts of free blocks in the superblock and in the group descriptor at `d`.
unfoldable pub count_block : (d : ℕ) → (used : Bool) → Memory → Memory
count_block d true m = decrease16 (d + 12) (decrease32 1036 m)
count_block d false m = increase16 (d + 12) (increase32 1036 m)

-- The counts of free inodes and of directories.
unfoldable pub count_inode : (d : ℕ) → (used is_dir : Bool) → Memory → Memory
count_inode d true is_dir m =
    let m1 = decrease16 (d + 14) (decrease32 1040 m) in
    if is_dir then increase16 (d + 16) m1 else m1
count_inode d false is_dir m =
    let m1 = increase16 (d + 14) (increase32 1040 m) in
    if is_dir then decrease16 (d + 16) m1 else m1

-- The bitmap of the blocks of the group of `block`, and the number of its bit there.
unfoldable pub block_group : ℕ → Memory → ℕ
block_group block m = sub32 block (Superblock.first_data_block m) / Superblock.blocks_per_group m

unfoldable pub block_group_index : ℕ → Memory → ℕ
block_group_index block m =
    sub32 block (Superblock.first_data_block m) % Superblock.blocks_per_group m

unfoldable pub mark_block_used : (block : ℕ) → (used : Bool) → Ext2 → Ext2 × Bool
mark_block_used block used fs =
    let index = block_group_index block fs.image in
    if leb (Superblock.blocks_count fs.image) block
    then (fs, false)
    else elim (group_desc (block_group block fs.image) fs) [
      | none ↦ (fs, false)
      | some d ↦ elim (block_ptr (GroupDesc.block_bitmap d fs.image) 0 fs.block_size fs) [
        | none ↦ (fs, false)
        | some bitmap ↦
            if eq_bool (bitmap_get bitmap index fs.image) used
            then (fs, true)
            else (with_image fs (count_block d used (bitmap_set bitmap index used fs.image)), true)
      ]
    ]

unfoldable pub mark_inode_used : (inode_number : ℕ) → (used is_dir : Bool) → Ext2 → Ext2 × Bool
mark_inode_used inode_number used is_dir fs =
    let group = (inode_number - 1) / Superblock.inodes_per_group fs.image in
    let index = (inode_number - 1) % Superblock.inodes_per_group fs.image in
    if inode_number == 0 || ltb (Superblock.inodes_count fs.image) inode_number
    then (fs, false)
    else elim (group_desc group fs) [
      | none ↦ (fs, false)
      | some d ↦ elim (block_ptr (GroupDesc.inode_bitmap d fs.image) 0 fs.block_size fs) [
        | none ↦ (fs, false)
        | some bitmap ↦ if eq_bool (bitmap_get bitmap index fs.image) used then (fs, true) else (
          with_image fs (count_inode d used is_dir (bitmap_set bitmap index used fs.image)),
          true,
        )
      ]
    ]

-- `memset(ptr, 0, block_size)`.
abbrev pub zeroed : (at size : ℕ) → Memory → Memory
zeroed at size m a = if within at size a then 0 else m a

-- The inner loop of allocate_block: the first clear bit among the `rounds` from number `i` on.
unfoldable pub find_clear : (rounds i bitmap : ℕ) → Memory → Option ℕ
find_clear zero i bitmap m = none
find_clear (suc k) i bitmap m =
    let rest = find_clear k (i + 1) bitmap m in if bitmap_get bitmap i m then rest else some i

-- What allocate_block does with the free block that it has found.
unfoldable pub take_free_block : ℕ → Ext2 → Ext2 × ℕ
take_free_block block fs =
    let (marked, done) = mark_block_used block true fs in
    if not done then (marked, 0) else elim (block_ptr block 0 marked.block_size marked) [
      | none ↦ ((mark_block_used block false marked).0, 0)
      | some at ↦ (with_image marked (zeroed at marked.block_size marked.image), block)
    ]

-- The bounds of the group of a number: its first block, and the number of its blocks.
unfoldable pub group_base : ℕ → Memory → ℕ
group_base group m =
    add32 (Superblock.first_data_block m) (mul32 group (Superblock.blocks_per_group m))

unfoldable pub group_limit : ℕ → Memory → ℕ
group_limit group m =
    let base = group_base group m in
    let limit = Superblock.blocks_per_group m in
    let blocks = Superblock.blocks_count m in
    if ltb blocks (add32 base limit) then sub32 blocks base else limit

-- The outer loop of allocate_block, with the groups left; 0 stands for failure.
unfoldable pub allocate_from : (left group : ℕ) → Ext2 → Ext2 × ℕ
allocate_from zero group fs = (fs, 0)
allocate_from (suc k) group fs =
    let next = allocate_from k (group + 1) fs in
    elim (group_desc group fs) [
      | none ↦ next
      | some d ↦
          let search =
            elim (block_ptr (GroupDesc.block_bitmap d fs.image) 0 fs.block_size fs)
              as (λ _. Ext2 × ℕ) [
                | none ↦ (fs, 0)
                | some bitmap ↦ elim (find_clear (group_limit group fs.image) 0 bitmap fs.image) [
                  | none ↦ next
                  | some i ↦ take_free_block (add32 (group_base group fs.image) i) fs
                ]
              ] in
          if GroupDesc.free_blocks_count d fs.image == 0 then next else search
    ]

unfoldable pub allocate_block : Ext2 → Ext2 × ℕ
allocate_block fs = allocate_from fs.group_count 0 fs

-- What allocate_inode does with the free inode that it has found.
unfoldable pub take_free_inode : ℕ → (is_dir : Bool) → Ext2 → Ext2 × ℕ
take_free_inode inode_number is_dir fs =
    let (marked, done) = mark_inode_used inode_number true is_dir fs in
    if not done then (marked, 0) else ((write_inode inode_number (λ _. 0) marked).0, inode_number)

-- The loop of allocate_inode, with the inode numbers left; an image has less than 2^32 - 1 inodes.
unfoldable pub allocate_inode_from : (left inode_number : ℕ) → (is_dir : Bool) → Ext2 → Ext2 × ℕ
allocate_inode_from zero inode_number is_dir fs = (fs, 0)
allocate_inode_from (suc k) inode_number is_dir fs =
    let next = allocate_inode_from k (inode_number + 1) is_dir fs in
    let group = (inode_number - 1) / Superblock.inodes_per_group fs.image in
    let index = (inode_number - 1) % Superblock.inodes_per_group fs.image in
    elim (group_desc group fs) [
      | none ↦ next
      | some d ↦
          let search =
            elim (block_ptr (GroupDesc.inode_bitmap d fs.image) 0 fs.block_size fs)
              as (λ _. Ext2 × ℕ) [
                | none ↦ (fs, 0)
                | some bitmap ↦
                    if bitmap_get bitmap index fs.image
                    then next
                    else take_free_inode inode_number is_dir fs
              ] in
          if GroupDesc.free_inodes_count d fs.image == 0 then next else search
    ]

unfoldable pub allocate_inode : (is_dir : Bool) → Ext2 → Ext2 × ℕ
allocate_inode is_dir fs =
    let stated = Superblock.first_ino fs.image in
    let first = if not (stated == 0) then stated else 11 in
    allocate_inode_from (Superblock.inodes_count fs.image + 1 - first) first is_dir fs
