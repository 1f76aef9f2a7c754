-- ===== src/Ext2/Listing.antt =====
-- ext2_list_dir of fs/ext2.c, and the results of the calls. `garbage` is what buffers on the stack
-- hold at first.
use whirliscope.Prelude.{
  ℕ, zero, suc, ◌+◌, List, [], ◌∷◌, ◌++◌, not, ◌&&◌, ◌||◌, none, some, ltb, leb, ◌==◌,
  if◌then◌else◌, length,
}
use whirliscope.Prelude.Int.{ℤ, pos, negsuc}
use whirliscope.Libc.Memory.{Memory}
use whirliscope.Elf.{read8}
use whirliscope.Ext2.Inode.{Inode, inode_is_dir, inode_is_file}
use whirliscope.Ext2.Inode
use whirliscope.Ext2.Image.{Ext2, read_inode}
use whirliscope.Ext2.Content.{read_inode_bytes}
use whirliscope.Ext2.Directory.{
  entry_inode, entry_rec_len, entry_name_len, entry_file_type, broken_entry, is_dots, dir_chunk,
  dir_rounds,
}
use whirliscope.Ext2.Paths.{path_lookup}

-- USER_ERR_FAULT and USER_ERR_INVAL.
abbrev pub user_err_fault : ℤ
user_err_fault = negsuc 1

abbrev pub user_err_inval : ℤ
user_err_inval = negsuc 2

abbrev pub type_file : ℕ
type_file = 1

abbrev pub type_dir : ℕ
type_dir = 2

-- struct user_fs_dirent; the name is the list of its characters.
pub record Dirent : Type 0 where
  pub inode : ℕ
  pub type : ℕ
  pub size : ℕ
  pub name : List ℕ

unfoldable pub user_file_type : Inode → ℕ → ℕ
user_file_type i dirent_type =
    if dirent_type == type_dir || inode_is_dir i
    then type_dir
    else if dirent_type == type_file || inode_is_file i
    then type_file
    else 0

-- The `n` bytes from `a` on.
unfoldable pub bytes_at : (n a : ℕ) → Memory → List ℕ
bytes_at zero a m = []
bytes_at (suc n) a m = read8 a m ∷ bytes_at n (a + 1) m

-- What ext2_list_dir tells of the entry at `at` of a block.
unfoldable pub dirent_of : (at : ℕ) → Memory → Ext2 → Dirent
dirent_of at block fs =
    let child = elim (read_inode (entry_inode at block) fs) as (λ _. Inode) [
      | none ↦ λ i. 0
      | some i ↦ i
    ] in
    let n = entry_name_len at block in
    record {
      inode = entry_inode at block;
      type = user_file_type child (entry_file_type at block);
      size = Inode.size child;
      name = bytes_at (if leb 64 n then 63 else n) (at + 8) block;
    }

pub data Listing : Type 0 where
  faulty filled more : List Dirent → Listing

-- The loop of ext2_list_dir over the entries of one block.
unfoldable pub list_block :
    (rounds at chunk max_entries : ℕ) → Memory → Ext2 → List Dirent → Listing
list_block zero at chunk max_entries block fs entries = more entries
list_block (suc k) at chunk max_entries block fs entries =
    let shown = not (entry_inode at block == 0) && not (is_dots at block) in
    let rest =
      list_block k (at + entry_rec_len at block) chunk max_entries block fs
        (if shown then entries ++ dirent_of at block fs ∷ [] else entries) in
    if ltb chunk (at + 8)
    then more entries
    else if broken_entry at chunk at block
    then faulty entries
    else if shown && leb max_entries (length entries)
    then filled entries
    else rest

-- Its loop over the blocks.
unfoldable pub list_from :
    (rounds offset max_entries : ℕ) → Inode → Ext2 → Memory → List Dirent → ℤ × List Dirent
list_from zero offset max_entries dir fs block entries = (pos (length entries), entries)
list_from (suc k) offset max_entries dir fs block entries =
    let chunk = dir_chunk (Inode.size dir) offset fs.block_size in
    elim (read_inode_bytes offset chunk dir fs block) [
      | none ↦ (user_err_fault, entries)
      | some read ↦ elim (list_block chunk 0 chunk max_entries read fs entries) [
        | faulty listed ↦ (user_err_fault, listed)
        | filled listed ↦ (pos (length listed), listed)
        | more listed ↦ list_from k (offset + fs.block_size) max_entries dir fs read listed
      ]
    ]

module _ (garbage : Memory) where
  unfoldable pub ext2_list_dir : List ℕ → (max_entries : ℕ) → Ext2 → ℤ × List Dirent
  ext2_list_dir path max_entries fs = elim (path_lookup garbage path fs) [
    | none ↦ (user_err_inval, [])
    | some (dir, number) ↦
        if not (inode_is_dir dir) || ltb 4096 fs.block_size
        then (user_err_inval, [])
        else list_from (dir_rounds dir fs) 0 max_entries dir fs garbage []
  ]
