-- ===== src/Ext2/Calls.antt =====
-- The calls of fs/ext2.c on the content of files. `garbage` is what buffers on the stack hold at
-- first.
pub mod ReadFile
use whirliscope.Prelude.{
  ℕ, zero, suc, ◌+◌, ◌-◌, ◌*◌, ◌/◌, ◌%◌, ◌^◌, List, [], ◌∷◌, ◌++◌, Bool, true, false, not, ◌&&◌,
  ◌||◌, Option, none, some, ltb, leb, ◌==◌, if◌then◌else◌, length,
}
use whirliscope.Prelude.Int.{ℤ, pos, negsuc}
use whirliscope.Libc.Memory.{Memory, store}
use whirliscope.Elf.{read8, read16}
use whirliscope.Ext2.Bytes.{write16, write32}
use whirliscope.Ext2.Inode.{Inode, inode_is_dir, inode_is_file}
use whirliscope.Ext2.Inode
use whirliscope.Ext2.Image.{Ext2, with_image, block_ptr, read_inode, write_inode}
use whirliscope.Ext2.Bitmap.{
  zeroed, mark_block_used, mark_inode_used, allocate_block, allocate_inode,
}
use whirliscope.Ext2.Blocks.{update_inode_block_count, free_inode_blocks, resize_inode_data}
use whirliscope.Ext2.Content.{read_inode_bytes, write_loop}
use whirliscope.Ext2.Directory.{
  entry_inode, entry_rec_len, entry_name_len, entry_file_type, broken_entry, is_dots, dir_chunk,
  dir_rounds, dir_entry_min_len, find_in_dir, dir_is_empty,
}
use whirliscope.Ext2.Paths.{path_lookup, parent_lookup}
use whirliscope.Ext2.Entries.{fill_entry, add_dir_entry, remove_dir_entry}
use whirliscope.Ext2.Mount.{ext2_sync}
use whirliscope.Ext2.Listing.{user_err_fault, user_err_inval, type_file, type_dir, Dirent}

abbrev pub synced : Ext2 → ℤ × Ext2
synced fs = (if ext2_sync fs then pos 0 else user_err_fault, fs)

module _ (garbage : Memory) where
  -- The buffer as far as it was read, where the result is not an error.
  unfoldable pub ext2_read_file : List ℕ → (len offset : ℕ) → Ext2 → Memory → ℤ × Memory
  ext2_read_file path len offset fs out = elim (path_lookup garbage path fs) [
    | none ↦ (user_err_inval, out)
    | some (file, number) ↦
        let size = Inode.size file in
        let n = if ltb (size - offset) len then size - offset else len in
        if not (inode_is_file file)
        then (user_err_inval, out)
        else if leb size offset
        then (pos 0, out)
        else elim (read_inode_bytes offset n file fs out) [
          | none ↦ (user_err_fault, out)
          | some read ↦ (pos n, read)
        ]
  ]

  -- The entry, where the result is not an error; its name is empty.
  unfoldable pub ext2_stat : List ℕ → Ext2 → ℤ × Option Dirent
  ext2_stat path fs = elim (path_lookup garbage path fs) [
    | none ↦ (user_err_inval, none)
    | some (inode, number) ↦ (
      pos 0,
      some (record {
        inode = number;
        size = Inode.size inode;
        name = [];
        type =
            if inode_is_dir inode then type_dir else if inode_is_file inode then type_file else 0;
      }),
    )
  ]

  -- A file to write `len` bytes of `buffer` to at `offset`, grown if it has to be.
  unfoldable pub write_to : Inode → (number len offset : ℕ) → Memory → Ext2 → ℤ × Ext2
  write_to file number len offset buffer fs =
      let end = offset + len in
      let grown =
        if ltb (Inode.size file) end
        then resize_inode_data file number end fs
        else ((fs, file), true) in
      let ((fs2, file2), done) = write_loop len len 0 offset buffer grown.0.0 grown.0.1 in
      let (fs3, stored) = write_inode number file2 fs2 in
      if not grown.1
      then (user_err_fault, grown.0.0)
      else if not done
      then (user_err_fault, fs2)
      else (if stored && ext2_sync fs3 then pos len else user_err_fault, fs3)

  -- The buffer is not NULL, or `len` is 0.
  unfoldable pub ext2_write_file : List ℕ → (len offset : ℕ) → Memory → Ext2 → ℤ × Ext2
  ext2_write_file path len offset buffer fs = elim (path_lookup garbage path fs) [
    | none ↦ (user_err_inval, fs)
    | some (file, number) ↦
        if not (inode_is_file file)
        then (user_err_inval, fs)
        else if ltb (Inode.size file) offset || ltb ((offset + len) % 2 ^ 64) offset
        then (user_err_inval, fs)
        else write_to file number len offset buffer fs
  ]

  unfoldable pub ext2_truncate_file : List ℕ → (size : ℕ) → Ext2 → ℤ × Ext2
  ext2_truncate_file path size fs = elim (path_lookup garbage path fs) [
    | none ↦ (user_err_inval, fs)
    | some (file, number) ↦
        let ((fs1, file1), done) = resize_inode_data file number size fs in
        if not (inode_is_file file)
        then (user_err_inval, fs)
        else if not done
        then (user_err_fault, fs1)
        else synced fs1
  ]
