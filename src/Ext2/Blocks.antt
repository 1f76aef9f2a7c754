-- ===== src/Ext2/Blocks.antt =====
-- The blocks of a file in fs/ext2.c: twelve in the inode, the others in one indirect block.
pub mod Lookup
use whirliscope.Prelude.{
  ℕ, zero, suc, ◌+◌, ◌-◌, ◌*◌, ◌/◌, ◌%◌, ◌^◌, Bool, true, false, not, ◌&&◌, ◌||◌, Option, none,
  some, ltb, leb, ◌==◌, if◌then◌else◌,
}
use whirliscope.Elf.{read32}
use whirliscope.Ext2.Bytes.{add32, mul32, write32}
use whirliscope.Ext2.Inode.{Inode}
use whirliscope.Ext2.Inode
use whirliscope.Ext2.Image.{Ext2, with_image, block_ptr, write_inode}
use whirliscope.Ext2.Bitmap.{zeroed, mark_block_used, allocate_block}

abbrev pub direct_blocks : ℕ
direct_blocks = 12

-- `indirect[i]` at the offset `at`.
abbrev pub entry_of : (at i : ℕ) → ℕ
entry_of at i = at + 4 * i

-- The loop over the direct blocks, with the rounds left.
unfoldable pub count_direct : (rounds i : ℕ) → Inode → ℕ
count_direct zero i inode = 0
count_direct (suc k) i inode =
    (if not (Inode.block inode i == 0) then 1 else 0) + count_direct k (i + 1) inode

-- The loop over the entries of the indirect block.
unfoldable pub count_indirect : (rounds i at : ℕ) → Ext2 → ℕ
count_indirect zero i at fs = 0
count_indirect (suc k) i at fs =
    (if not (read32 (entry_of at i) fs.image == 0) then 1 else 0) + count_indirect k (i + 1) at fs

unfoldable pub inode_allocated_blocks : Inode → Ext2 → ℕ
inode_allocated_blocks inode fs =
    let direct = count_direct direct_blocks 0 inode in
    if Inode.block inode 12 == 0
    then direct
    else elim (block_ptr (Inode.block inode 12) 0 fs.block_size fs) [
      | none ↦ direct + 1
      | some at ↦ direct + 1 + count_indirect (fs.block_size / 4) 0 at fs
    ]

unfoldable pub update_inode_block_count : Inode → Ext2 → Inode
update_inode_block_count inode fs =
    Inode.set_blocks (mul32 (inode_allocated_blocks inode fs) (fs.block_size / 512)) inode

unfoldable pub block_id_at : Inode → ℕ → Ext2 → ℕ
block_id_at inode file_block_index fs =
    let i = file_block_index - direct_blocks in
    if ltb file_block_index direct_blocks
    then Inode.block inode file_block_index
    else if ltb i (fs.block_size / 4) && not (Inode.block inode 12 == 0)
    then elim (block_ptr (Inode.block inode 12) 0 fs.block_size fs) [
      | none ↦ 0
      | some at ↦ read32 (entry_of at i) fs.image
    ]
    else 0

-- The end of set_block_id_at: the entry of the indirect block.
unfoldable pub set_indirect : Inode → (i block_id : ℕ) → Ext2 → (Ext2 × Inode) × Bool
set_indirect inode i block_id fs = elim (block_ptr (Inode.block inode 12) 0 fs.block_size fs) [
  | none ↦ ((fs, inode), false)
  | some at ↦ ((with_image fs (write32 (entry_of at i) block_id fs.image), inode), true)
]

-- The image, the inode and the result.
unfoldable pub set_block_id_at :
    Inode
    → (file_block_index block_id : ℕ) → (allocate_metadata : Bool) → Ext2
    → (Ext2 × Inode) × Bool
set_block_id_at inode file_block_index block_id allocate_metadata fs =
    let i = file_block_index - direct_blocks in
    let (fs1, fresh) = allocate_block fs in
    let inode1 = Inode.set_block 12 fresh inode in
    if ltb file_block_index direct_blocks
    then ((fs, Inode.set_block file_block_index block_id inode), true)
    else if leb (fs.block_size / 4) i
    then ((fs, inode), false)
    else if not (Inode.block inode 12 == 0)
    then set_indirect inode i block_id fs
    else if not allocate_metadata
    then ((fs, inode), false)
    else if fresh == 0
    then ((fs1, inode1), false)
    else set_indirect inode1 i block_id fs1

-- The image, the inode, and the block, if the result is true.
unfoldable pub ensure_file_block : Inode → ℕ → Ext2 → (Ext2 × Inode) × Option ℕ
ensure_file_block inode file_block_index fs =
    let block = block_id_at inode file_block_index fs in
    let (fs1, fresh) = allocate_block fs in
    let ((fs2, inode2), done) = set_block_id_at inode file_block_index fresh true fs1 in
    if not (block == 0)
    then ((fs, inode), some block)
    else if fresh == 0
    then ((fs1, inode), none)
    else if not done
    then (((mark_block_used fresh false fs2).0, inode2), none)
    else ((fs2, update_inode_block_count inode2 fs2), some fresh)

-- The loop of free_inode_blocks over the direct blocks, with the rounds left.
unfoldable pub free_direct : (rounds i : ℕ) → Ext2 × Inode → Ext2 × Inode
free_direct zero i (fs, inode) = (fs, inode)
free_direct (suc k) i (fs, inode) =
    let block = Inode.block inode i in
    free_direct k (i + 1) (
      if not (block == 0)
      then ((mark_block_used block false fs).0, Inode.set_block i 0 inode)
      else (fs, inode))

-- Its loop over the entries of the indirect block at `at`.
unfoldable pub free_indirect : (rounds i at : ℕ) → Ext2 → Ext2
free_indirect zero i at fs = fs
free_indirect (suc k) i at fs =
    let block = read32 (entry_of at i) fs.image in
    let freed = (mark_block_used block false fs).0 in
    free_indirect k (i + 1) at
      (if not (block == 0) then with_image freed (write32 (entry_of at i) 0 freed.image) else fs)

-- What free_inode_blocks does about the indirect block at `at`.
unfoldable pub free_indirect_block : (keep_blocks at : ℕ) → Ext2 → Inode → Ext2 × Inode
free_indirect_block keep_blocks at fs inode =
    let entries = fs.block_size / 4 in
    let keep = if ltb direct_blocks keep_blocks then keep_blocks - direct_blocks else 0 in
    let fs1 = free_indirect (entries - keep) keep at fs in
    if leb keep_blocks direct_blocks
    then ((mark_block_used (Inode.block inode 12) false fs1).0, Inode.set_block 12 0 inode)
    else (fs1, inode)

unfoldable pub free_inode_blocks : Inode → (keep_blocks : ℕ) → Ext2 → (Ext2 × Inode) × Bool
free_inode_blocks inode keep_blocks fs =
    let (fs1, inode1) = free_direct (direct_blocks - keep_blocks) keep_blocks (fs, inode) in
    if ltb (direct_blocks + fs.block_size / 4) keep_blocks
    then ((fs, inode), false)
    else if Inode.block inode1 12 == 0
    then ((fs1, update_inode_block_count inode1 fs1), true)
    else elim (block_ptr (Inode.block inode1 12) 0 fs1.block_size fs1) [
      | none ↦ ((fs1, inode1), false)
      | some at ↦
          let (fs2, inode2) = free_indirect_block keep_blocks at fs1 inode1 in
          ((fs2, update_inode_block_count inode2 fs2), true)
    ]

-- The loop of resize_inode_data that adds blocks, with the rounds left.
unfoldable pub grow_blocks : (rounds i : ℕ) → Ext2 → Inode → (Ext2 × Inode) × Bool
grow_blocks zero i fs inode = ((fs, inode), true)
grow_blocks (suc k) i fs inode =
    let ((fs1, inode1), block) = ensure_file_block inode i fs in
    let rest = grow_blocks k (i + 1) fs1 inode1 in
    elim block [ none ↦ ((fs1, inode1), false) | some b ↦ rest ]

-- The memset on the end of the last block that a growing file had.
unfoldable pub clear_tail : (old_size : ℕ) → Inode → Ext2 → Ext2
clear_tail old_size inode fs =
    let block_offset = old_size % fs.block_size in
    let clear_len = fs.block_size - block_offset in
    elim (block_ptr (block_id_at inode (old_size / fs.block_size) fs) block_offset clear_len fs) [
      | none ↦ fs
      | some at ↦ with_image fs (zeroed at clear_len fs.image)
    ]

unfoldable pub resize_inode_data :
    Inode → (inode_number new_size : ℕ) → Ext2 → (Ext2 × Inode) × Bool
resize_inode_data inode inode_number new_size fs =
    let bs = fs.block_size in
    let old_size = Inode.size inode in
    let old_blocks = (old_size + bs - 1) / bs in
    let new_blocks = (new_size + bs - 1) / bs in
    let changed =
      if ltb old_blocks new_blocks
      then grow_blocks (new_blocks - old_blocks) old_blocks fs inode
      else if ltb new_blocks old_blocks
      then free_inode_blocks inode new_blocks fs
      else ((fs, inode), true) in
    let sized = Inode.set_size (new_size % 2 ^ 32) changed.0.1 in
    let cleared =
      if ltb old_size new_size && not (old_size % bs == 0)
      then clear_tail old_size sized changed.0.0
      else changed.0.0 in
    let final = update_inode_block_count sized cleared in
    let (stored, result) = write_inode inode_number final cleared in
    if ltb ((direct_blocks + bs / 4) * bs) new_size
    then ((fs, inode), false)
    else if not changed.1
    then changed
    else ((stored, final), result)
