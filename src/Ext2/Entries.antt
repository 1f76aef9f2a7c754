-- ===== src/Ext2/Entries.antt =====
-- Adding and removing directory entries in fs/ext2.c.
use whirliscope.Prelude.{
  ℕ, zero, suc, ◌+◌, ◌-◌, ◌/◌, ◌%◌, ◌^◌, List, [], ◌∷◌, Bool, false, not, ◌&&◌, ◌||◌, Option, none,
  some, ltb, leb, ◌==◌, if◌then◌else◌, length,
}
use whirliscope.Libc.Memory.{Memory, store}
use whirliscope.Ext2.Bytes.{add32, sub32, mul32, write16, write32}
use whirliscope.Ext2.Inode.{Inode, inode_is_dir}
use whirliscope.Ext2.Inode
use whirliscope.Ext2.Image.{Ext2, with_image, block_ptr, write_inode}
use whirliscope.Ext2.Bitmap.{zeroed}
use whirliscope.Ext2.Blocks.{block_id_at, ensure_file_block, update_inode_block_count}
use whirliscope.Ext2.Directory.{
  name_offset, name_max, entry_inode, entry_rec_len, entry_name_len, dir_entry_min_len, names_equal,
  dir_rounds,
}

-- `memcpy(entry->name, name, name_len)`.
unfoldable pub write_name : List ℕ → ℕ → Memory → Memory
write_name [] a m = m
write_name (ch ∷ name) a m = write_name name (a + 1) (store m a ch)

-- The fields of an entry but its length.
unfoldable pub fill_entry : (e child : ℕ) → List ℕ → (file_type : ℕ) → Memory → Memory
fill_entry e child name file_type m =
    write_name name (e + name_offset)
      (store (store (write32 e child m) (e + 6) (length name % 256)) (e + 7) file_type)

-- The room that the entry at `e` takes itself.
unfoldable pub actual_len : ℕ → Memory → ℕ
actual_len e m = if entry_inode e m == 0 then 8 else dir_entry_min_len (entry_name_len e m)

-- The new entry in the room of the one at `e`, behind what that one needs.
unfoldable pub insert_entry : (e child : ℕ) → List ℕ → (file_type : ℕ) → Memory → Memory
insert_entry e child name file_type m =
    let actual = actual_len e m in
    let old = entry_rec_len e m in
    let split =
      write16 (e + actual + 4) ((old + 2 ^ 16 - actual) % 2 ^ 16) (write16 (e + 4) actual m) in
    if entry_inode e m == 0
    then fill_entry e child name file_type m
    else fill_entry (e + actual) child name file_type split

pub data Slot : Type 0 where
  damaged full : Slot
  room_at : ℕ → Slot

-- The loop of add_dir_entry over the entries of the block at `at`.
unfoldable pub find_room : (rounds pos at block_size needed : ℕ) → Memory → Slot
find_room zero pos at block_size needed m = full
find_room (suc k) pos at block_size needed m =
    let e = at + pos in
    let rest = find_room k (pos + entry_rec_len e m) at block_size needed m in
    if ltb block_size (pos + 8)
    then full
    else if ltb (entry_rec_len e m) 8 || ltb block_size (pos + entry_rec_len e m)
    then damaged
    else if leb (actual_len e m + needed) (entry_rec_len e m)
    then room_at e
    else rest

-- The end of add_dir_entry: the size, the count of blocks, and the inode written back.
unfoldable pub store_dir : (dir_inode_number size : ℕ) → Ext2 → Inode → (Ext2 × Inode) × Bool
store_dir dir_inode_number size fs dir =
    let sized = update_inode_block_count (Inode.set_size size dir) fs in
    let (stored, result) = write_inode dir_inode_number sized fs in ((stored, sized), result)

-- What add_dir_entry does when no block has room: a block with this entry alone.
unfoldable pub append_entry :
    (blocks dir_inode_number child : ℕ)
    → List ℕ
    → (file_type : ℕ) → Ext2
    → Inode
    → (Ext2 × Inode) × Bool
append_entry blocks dir_inode_number child name file_type fs dir =
    let ((fs1, dir1), block) = ensure_file_block dir blocks fs in
    elim block [
      | none ↦ ((fs1, dir1), false)
      | some b ↦ elim (block_ptr b 0 fs1.block_size fs1) [
        | none ↦ ((fs1, dir1), false)
        | some at ↦
            let cleared = write16 (at + 4) fs1.block_size (zeroed at fs1.block_size fs1.image) in
            store_dir dir_inode_number (mul32 (add32 blocks 1) fs1.block_size)
              (with_image fs1 (fill_entry at child name file_type cleared)) dir1
      ]
    ]

-- The loop of add_dir_entry over the blocks, with the blocks left.
unfoldable pub add_from :
    (left file_block blocks dir_inode_number child : ℕ)
    → List ℕ
    → (file_type : ℕ) → Ext2
    → Inode
    → (Ext2 × Inode) × Bool
add_from zero file_block blocks dir_inode_number child name file_type fs dir =
    append_entry blocks dir_inode_number child name file_type fs dir
add_from (suc k) file_block blocks dir_inode_number child name file_type fs dir =
    let ((fs1, dir1), block) = ensure_file_block dir file_block fs in
    let next = add_from k (file_block + 1) blocks dir_inode_number child name file_type fs1 dir1 in
    elim block [
      | none ↦ ((fs1, dir1), false)
      | some b ↦ elim (block_ptr b 0 fs1.block_size fs1) [
        | none ↦ ((fs1, dir1), false)
        | some at ↦
            elim (find_room fs1.block_size 0 at fs1.block_size (dir_entry_min_len (length name))
              fs1.image) [
                | damaged ↦ ((fs1, dir1), false)
                | full ↦ next
                | room_at e ↦
                    store_dir dir_inode_number (mul32 blocks fs1.block_size)
                      (with_image fs1 (insert_entry e child name file_type fs1.image)) dir1
              ]
      ]
    ]

unfoldable pub add_dir_entry :
    Inode → (dir_inode_number child : ℕ) → List ℕ → (file_type : ℕ) → Ext2 → (Ext2 × Inode) × Bool
add_dir_entry dir dir_inode_number child name file_type fs =
    let stated = sub32 (add32 (Inode.size dir) fs.block_size) 1 / fs.block_size in
    let blocks = if stated == 0 then 1 else stated in
    if not (inode_is_dir dir) || length name == 0 || ltb name_max (length name)
    then ((fs, dir), false)
    else add_from blocks 0 blocks dir_inode_number child name file_type fs dir

pub data Removal : Type 0 where
  spoilt absent : Removal
  removed : (inode : ℕ) → Memory → Removal

-- The loop of remove_dir_entry over the entries of the block at `at`; `previous` is the last entry
-- in use before.
unfoldable pub remove_in_block :
    (rounds pos at block_size : ℕ) → (previous : Option ℕ) → List ℕ → Memory → Removal
remove_in_block zero pos at block_size previous name m = absent
remove_in_block (suc k) pos at block_size previous name m =
    let e = at + pos in
    let last = if not (entry_inode e m == 0) then some e else previous in
    let rest = remove_in_block k (pos + entry_rec_len e m) at block_size last name m in
    let without = elim previous as (λ _. Memory) [
      | none ↦ write32 e 0 m
      | some p ↦ write16 (p + 4) ((entry_rec_len p m + entry_rec_len e m) % 2 ^ 16) m
    ] in
    if ltb block_size (pos + 8)
    then absent
    else if ltb (entry_rec_len e m) 8 || ltb block_size (pos + entry_rec_len e m)
    then spoilt
    else if not (entry_inode e m == 0) && names_equal e name m
    then removed (entry_inode e m) without
    else rest

-- The loop of remove_dir_entry over the blocks, with the blocks left.
unfoldable pub remove_from :
    (left file_block dir_inode_number : ℕ) → List ℕ → Inode → Ext2 → Ext2 × Option ℕ × Bool
remove_from zero file_block dir_inode_number name dir fs = (fs, none, false)
remove_from (suc k) file_block dir_inode_number name dir fs =
    let disk_block = block_id_at dir file_block fs in
    let next = remove_from k (file_block + 1) dir_inode_number name dir fs in
    let searched = elim (block_ptr disk_block 0 fs.block_size fs) as (λ _. Ext2 × Option ℕ × Bool) [
      | none ↦ (fs, none, false)
      | some at ↦ elim (remove_in_block fs.block_size 0 at fs.block_size none name fs.image) [
        | spoilt ↦ (fs, none, false)
        | absent ↦ next
        | removed inode m ↦
            let (stored, result) = write_inode dir_inode_number dir (with_image fs m) in
            (stored, some inode, result)
      ]
    ] in
    if disk_block == 0 then next else searched

-- The image, the number of the removed inode if one was, and the result.
unfoldable pub remove_dir_entry :
    Inode → (dir_inode_number : ℕ) → List ℕ → Ext2 → Ext2 × Option ℕ × Bool
remove_dir_entry dir dir_inode_number name fs =
    if not (inode_is_dir dir) || length name == 0 || ltb name_max (length name)
    then (fs, none, false)
    else remove_from (dir_rounds dir fs) 0 dir_inode_number name dir fs
