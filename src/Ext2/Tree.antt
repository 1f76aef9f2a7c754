-- ===== src/Ext2/Tree.antt =====
-- The calls of fs/ext2.c that make and remove files and directories. `garbage` is what buffers on
-- the stack hold at first.
use whirliscope.Prelude.{
  ℕ, ◌+◌, ◌-◌, ◌%◌, ◌^◌, List, [], ◌∷◌, Bool, true, false, not, ◌&&◌, ◌||◌, Option, none, some, ltb,
  ◌==◌, if◌then◌else◌,
}
use whirliscope.Prelude.Int.{ℤ}
use whirliscope.Libc.Memory.{Memory}
use whirliscope.Elf.{read16}
use whirliscope.Ext2.Bytes.{write16}
use whirliscope.Ext2.Inode.{Inode, inode_is_dir, inode_is_file}
use whirliscope.Ext2.Inode
use whirliscope.Ext2.Image.{Ext2, with_image, block_ptr, read_inode, write_inode}
use whirliscope.Ext2.Bitmap.{
  zeroed, mark_block_used, mark_inode_used, allocate_block, allocate_inode,
}
use whirliscope.Ext2.Blocks.{update_inode_block_count, free_inode_blocks}
use whirliscope.Ext2.Directory.{dir_entry_min_len, find_in_dir, dir_is_empty}
use whirliscope.Ext2.Paths.{path_lookup, parent_lookup}
use whirliscope.Ext2.Entries.{fill_entry, add_dir_entry, remove_dir_entry}
use whirliscope.Ext2.Listing.{user_err_fault, user_err_inval}
use whirliscope.Ext2.Calls.{synced}

-- The new inode of ext2_create_file: a file with the mode 0644 and one link.
unfoldable pub new_file_inode : Inode
new_file_inode = write16 26 1 (write16 0 0x81a4 (λ i. 0))

-- The new inode of ext2_mkdir before its blocks are counted: mode 0755, two links, one block.
unfoldable pub new_dir_inode : (block block_size : ℕ) → Inode
new_dir_inode block block_size =
    Inode.set_block 0 block (write16 26 2 (Inode.set_size block_size (write16 0 0x41ed (λ i. 0))))

-- The entries `.` and `..` in the block at `at`.
unfoldable pub dot_entries : (at block_size inode_number parent : ℕ) → Memory → Memory
dot_entries at block_size inode_number parent m =
    let dot = dir_entry_min_len 1 in
    let first =
      write16 (at + 4) dot (fill_entry at inode_number (b'.' ∷ []) 2 (zeroed at block_size m)) in
    write16 (at + dot + 4) (block_size - dot)
      (fill_entry (at + dot) parent (b'.' ∷ b'.' ∷ []) 2 first)

abbrev pub links_count : Inode → ℕ
links_count i = read16 26 i

module _ (garbage : Memory) where
  -- ext2_create_file from the new inode's number on.
  unfoldable pub create_at :
      (parent : Inode) → (parent_number number : ℕ) → List ℕ → Ext2 → ℤ × Ext2
  create_at parent parent_number number name fs =
      let (fs1, stored) = write_inode number new_file_inode fs in
      let ((fs2, _), added) = add_dir_entry parent parent_number number name 1 fs1 in
      if not stored
      then (user_err_fault, (mark_inode_used number false false fs1).0)
      else if not added
      then (user_err_fault, (mark_inode_used number false false fs2).0)
      else synced fs2

  unfoldable pub ext2_create_file : List ℕ → Ext2 → ℤ × Ext2
  ext2_create_file path fs = elim (path_lookup garbage path fs) [
    | some _ ↦ (user_err_inval, fs)
    | none ↦ elim (parent_lookup garbage path fs) [
      | none ↦ (user_err_inval, fs)
      | some (parent, parent_number, name) ↦ elim (find_in_dir garbage name parent fs) [
        | some _ ↦ (user_err_inval, fs)
        | none ↦
            let (fs1, number) = allocate_inode false fs in
            if number == 0
            then (user_err_fault, fs1)
            else create_at parent parent_number number name fs1
      ]
    ]
  ]

  -- The end of ext2_mkdir: both inodes stored and the entry added, or block and inode given back.
  unfoldable pub link_dir :
      (inode parent : Inode) → (parent_number number block : ℕ) → List ℕ → Ext2 → ℤ × Ext2
  link_dir inode parent parent_number number block name fs =
      let linked = write16 26 ((links_count parent + 1) % 2 ^ 16) parent in
      let (fs1, stored) = write_inode number inode fs in
      let (fs2, stored_parent) = write_inode parent_number linked fs1 in
      let ((fs3, _), added) = add_dir_entry linked parent_number number name 2 fs2 in
      let undo : Ext2 → ℤ × Ext2 = λ s.
        (user_err_fault, (mark_inode_used number false true (mark_block_used block false s).0).0) in
      if not stored
      then undo fs1
      else if not stored_parent
      then undo fs2
      else if not added
      then undo fs3
      else synced fs3

  -- ext2_mkdir from the new inode's number and the block on.
  unfoldable pub mkdir_at :
      (parent : Inode) → (parent_number number block : ℕ) → List ℕ → Ext2 → ℤ × Ext2
  mkdir_at parent parent_number number block name fs =
      let undo_inode = if not (number == 0) then (mark_inode_used number false true fs).0 else fs in
      let undo =
        if not (block == 0) then (mark_block_used block false undo_inode).0 else undo_inode in
      let inode = update_inode_block_count (new_dir_inode block fs.block_size) fs in
      let made = elim (block_ptr block 0 fs.block_size fs) as (λ _. ℤ × Ext2) [
        | none ↦ (
          user_err_fault,
          (mark_inode_used number false true (mark_block_used block false fs).0).0,
        )
        | some at ↦
            link_dir inode parent parent_number number block name
              (with_image fs (dot_entries at fs.block_size number parent_number fs.image))
      ] in
      if number == 0 || block == 0 then (user_err_fault, undo) else made

  unfoldable pub ext2_mkdir : List ℕ → Ext2 → ℤ × Ext2
  ext2_mkdir path fs = elim (path_lookup garbage path fs) [
    | some _ ↦ (user_err_inval, fs)
    | none ↦ elim (parent_lookup garbage path fs) [
      | none ↦ (user_err_inval, fs)
      | some (parent, parent_number, name) ↦
          let (fs1, number) = allocate_inode true fs in
          let (fs2, block) = allocate_block fs1 in
          mkdir_at parent parent_number number block name fs2
    ]
  ]

  -- The blocks of a removed inode are freed, and it is cleared and freed itself.
  unfoldable pub release_inode : Inode → (number : ℕ) → (is_dir : Bool) → Ext2 → Ext2
  release_inode inode number is_dir fs =
      let fs1 = (free_inode_blocks inode 0 fs).0.0 in
      (mark_inode_used number false is_dir (write_inode number (λ i. 0) fs1).0).0

  -- Whether remove_dir_entry has removed the inode `number`.
  abbrev pub has_removed : Option ℕ × Bool → (number : ℕ) → Bool
  has_removed (none, result) number = false
  has_removed (some inode, result) number = result && inode == number

  unfoldable pub ext2_unlink : List ℕ → Ext2 → ℤ × Ext2
  ext2_unlink path fs = elim (parent_lookup garbage path fs) [
    | none ↦ (user_err_inval, fs)
    | some (parent, parent_number, name) ↦ elim (find_in_dir garbage name parent fs) [
      | none ↦ (user_err_inval, fs)
      | some number ↦ elim (read_inode number fs) [
        | none ↦ (user_err_inval, fs)
        | some inode ↦
            let (fs1, inode1, result) = remove_dir_entry parent parent_number name fs in
            if not (inode_is_file inode)
            then (user_err_inval, fs)
            else if not (has_removed (inode1, result) number)
            then (user_err_fault, fs1)
            else synced (release_inode inode number false fs1)
      ]
    ]
  ]

  -- The parent of a removed directory has one link less.
  unfoldable pub unlink_parent : Inode → (parent_number : ℕ) → Ext2 → Ext2
  unlink_parent parent parent_number fs =
      if ltb 0 (links_count parent)
      then (write_inode parent_number (write16 26 (links_count parent - 1) parent) fs).0
      else fs

  abbrev pub is_dot_name : List ℕ → Bool
  is_dot_name [] = false
  is_dot_name (a ∷ []) = a == b'.'
  is_dot_name (a ∷ b ∷ []) = a == b'.' && b == b'.'
  is_dot_name (a ∷ b ∷ c ∷ rest) = false

  unfoldable pub ext2_rmdir : List ℕ → Ext2 → ℤ × Ext2
  ext2_rmdir path fs = elim (parent_lookup garbage path fs) [
    | none ↦ (user_err_inval, fs)
    | some (parent, parent_number, name) ↦ elim (find_in_dir garbage name parent fs) [
      | none ↦ (user_err_inval, fs)
      | some number ↦ elim (read_inode number fs) [
        | none ↦ (user_err_inval, fs)
        | some inode ↦
            let (fs1, inode1, result) = remove_dir_entry parent parent_number name fs in
            if is_dot_name name || not (inode_is_dir inode) || not (dir_is_empty garbage inode fs)
            then (user_err_inval, fs)
            else if not (has_removed (inode1, result) number)
            then (user_err_fault, fs1)
            else synced (release_inode inode number true (unlink_parent parent parent_number fs1))
      ]
    ]
  ]
