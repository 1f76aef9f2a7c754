-- ===== src/Ext2/Image.antt =====
-- The state of fs/ext2.c and its access to the image. A pointer into the image is its offset there,
-- and the pointer `superblock` is the offset 1024; the structures are read from the bytes, least
-- byte first, at the offsets of their packed fields.
use whirliscope.Prelude.{
  ℕ, ◌+◌, ◌-◌, ◌*◌, ◌/◌, ◌%◌, Bool, true, false, not, ◌&&◌, ◌||◌, Option, none, some, ltb, leb,
  ◌==◌, if◌then◌else◌,
}
use whirliscope.Libc.Memory.{Memory}
use whirliscope.Ext2.Superblock
use whirliscope.Ext2.GroupDesc
use whirliscope.Ext2.Inode.{Inode}

-- The static variables of the file. `attached` is `fs_image != NULL`, `has_superblock` is
-- `superblock != NULL`; `writeback` is the function with its context, if it is not NULL.
pub record Ext2 : Type 0 where
  pub image : Memory
  pub fs_size : ℕ
  pub attached : Bool
  pub has_superblock : Bool
  pub block_size : ℕ
  pub group_count : ℕ
  pub writeback : Option (Memory → ℕ → Bool)

abbrev pub with_image : Ext2 → Memory → Ext2
with_image fs m = record fs { image = m }

abbrev pub superblock_offset : ℕ
superblock_offset = 1024

-- sizeof of the packed structures.
abbrev pub superblock_size : ℕ
superblock_size = 136

abbrev pub group_desc_size : ℕ
group_desc_size = 32

abbrev pub inode_size : ℕ
inode_size = 128

unfoldable pub image_range_valid : (offset len : ℕ) → Ext2 → Bool
image_range_valid offset len fs = not (ltb fs.fs_size offset || ltb (fs.fs_size - offset) len)

unfoldable pub image_ptr : (offset len : ℕ) → Ext2 → Option ℕ
image_ptr offset len fs = if image_range_valid offset len fs then some offset else none

unfoldable pub block_ptr : (block offset len : ℕ) → Ext2 → Option ℕ
block_ptr block offset len fs =
    let base = block * fs.block_size in
    if ltb fs.block_size offset || ltb (fs.block_size - offset) len
    then none
    else image_ptr (base + offset) len fs

unfoldable pub group_desc : ℕ → Ext2 → Option ℕ
group_desc group fs =
    let table = if fs.block_size == 1024 then 2 else 1 in
    if leb fs.group_count group
    then none
    else image_ptr (table * fs.block_size + group * group_desc_size) group_desc_size fs

-- Where read_inode and write_inode find the inode; none where they return false.
unfoldable pub inode_ptr : ℕ → Ext2 → Option ℕ
inode_ptr inode_number fs =
    let index = inode_number - 1 in
    let group = index / Superblock.inodes_per_group fs.image in
    let group_index = index % Superblock.inodes_per_group fs.image in
    let stated = Superblock.inode_size fs.image in
    let size = if not (stated == 0) then stated else 128 in
    if inode_number == 0 || ltb (Superblock.inodes_count fs.image) inode_number
    then none
    else elim (group_desc group fs) [
      | none ↦ none
      | some d ↦
          image_ptr (GroupDesc.inode_table d fs.image * fs.block_size + group_index * size)
            inode_size fs
    ]

unfoldable pub read_inode : ℕ → Ext2 → Option Inode
read_inode inode_number fs = elim (inode_ptr inode_number fs) [
  | none ↦ none
  | some p ↦ some (λ i. fs.image (p + i))
]

unfoldable pub write_inode : ℕ → Inode → Ext2 → Ext2 × Bool
write_inode inode_number content fs = elim (inode_ptr inode_number fs) [
  | none ↦ (fs, false)
  | some p ↦ (
    with_image fs (λ a. if leb p a && ltb a (p + inode_size) then content (a - p) else fs.image a),
    true,
  )
]
