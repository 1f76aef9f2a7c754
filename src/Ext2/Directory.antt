-- ===== src/Ext2/Directory.antt =====
-- Directories of fs/ext2.c: the entries of a block, and the searches in them. A name is the list of
-- its characters. `garbage` is what the buffer on the stack holds before anything is read into it.
use whirliscope.Prelude.{
  ℕ, zero, suc, ◌+◌, ◌-◌, ◌*◌, ◌/◌, ◌%◌, ◌^◌, List, [], ◌∷◌, Bool, true, false, not, ◌&&◌, ◌||◌,
  Option, none, some, ltb, ◌==◌, if◌then◌else◌, length,
}
use whirliscope.Libc.Memory.{Memory}
use whirliscope.Elf.{read8, read16, read32}
use whirliscope.Ext2.Inode.{Inode, inode_is_dir}
use whirliscope.Ext2.Inode
use whirliscope.Ext2.Image.{Ext2}
use whirliscope.Ext2.Content.{read_inode_bytes}

abbrev pub name_offset : ℕ
name_offset = 8

abbrev pub name_max : ℕ
name_max = 255

-- The fields of the struct ext2_dir_entry at `e`.
abbrev pub entry_inode : ℕ → Memory → ℕ
entry_inode e m = read32 e m

abbrev pub entry_rec_len : ℕ → Memory → ℕ
entry_rec_len e m = read16 (e + 4) m

abbrev pub entry_name_len : ℕ → Memory → ℕ
entry_name_len e m = read8 (e + 6) m

abbrev pub entry_file_type : ℕ → Memory → ℕ
entry_file_type e m = read8 (e + 7) m

unfoldable pub dir_entry_min_len : ℕ → ℕ
dir_entry_min_len name_len = (name_offset + name_len + 3) / 4 * 4 % 2 ^ 16

-- `memcmp(a, name, name_len) == 0`.
unfoldable pub same_bytes : List ℕ → ℕ → Memory → Bool
same_bytes [] a m = true
same_bytes (ch ∷ name) a m = read8 a m == ch && same_bytes name (a + 1) m

unfoldable pub names_equal : (e : ℕ) → List ℕ → Memory → Bool
names_equal e name m = entry_name_len e m == length name && same_bytes name (e + name_offset) m

-- `.` and `..`, as dir_is_empty and ext2_list_dir test for them.
abbrev pub is_dots : ℕ → Memory → Bool
is_dots e m =
    entry_name_len e m == 1 && read8 (e + 8) m == b'.'
    || entry_name_len e m == 2 && (read8 (e + 8) m == b'.' && read8 (e + 9) m == b'.')

-- `entry->rec_len < 8 || pos + entry->rec_len > chunk`.
abbrev pub broken_entry : (pos chunk e : ℕ) → Memory → Bool
broken_entry pos chunk e m = ltb (entry_rec_len e m) 8 || ltb chunk (pos + entry_rec_len e m)

pub data Search : Type 0 where
  broken missing : Search
  at_inode : ℕ → Search

-- The inner loop of find_in_dir over the entries of one block, which stands from 0 on.
unfoldable pub find_in_block : (rounds pos chunk : ℕ) → List ℕ → Memory → Search
find_in_block zero pos chunk name block = missing
find_in_block (suc k) pos chunk name block =
    let rest = find_in_block k (pos + entry_rec_len pos block) chunk name block in
    if ltb chunk (pos + 8)
    then missing
    else if broken_entry pos chunk pos block
    then broken
    else if not (entry_inode pos block == 0) && names_equal pos name block
    then at_inode (entry_inode pos block)
    else rest

-- The inner loop of dir_is_empty: whether it goes on to the next block.
unfoldable pub empty_block : (rounds pos chunk : ℕ) → Memory → Bool
empty_block zero pos chunk block = true
empty_block (suc k) pos chunk block =
    let rest = empty_block k (pos + entry_rec_len pos block) chunk block in
    if ltb chunk (pos + 8)
    then true
    else if broken_entry pos chunk pos block
    then false
    else if not (entry_inode pos block == 0) && not (is_dots pos block)
    then false
    else rest

-- The bytes of one block of a directory that count.
abbrev pub dir_chunk : (size offset block_size : ℕ) → ℕ
dir_chunk size offset block_size =
    if ltb (size - offset) block_size then size - offset else block_size

-- The rounds of the loops over the blocks of a directory.
abbrev pub dir_rounds : Inode → Ext2 → ℕ
dir_rounds dir fs = (Inode.size dir + fs.block_size - 1) / fs.block_size

-- The loop of find_in_dir over the blocks.
unfoldable pub find_in_blocks : (rounds offset : ℕ) → List ℕ → Inode → Ext2 → Memory → Option ℕ
find_in_blocks zero offset name dir fs block = none
find_in_blocks (suc k) offset name dir fs block =
    let chunk = dir_chunk (Inode.size dir) offset fs.block_size in
    elim (read_inode_bytes offset chunk dir fs block) [
      | none ↦ none
      | some read ↦
          let rest = find_in_blocks k (offset + fs.block_size) name dir fs read in
          elim (find_in_block chunk 0 chunk name read) [
            | broken ↦ none
            | at_inode i ↦ some i
            | missing ↦ rest
          ]
    ]

-- The loop of dir_is_empty over the blocks.
unfoldable pub empty_from : (rounds offset : ℕ) → Inode → Ext2 → Memory → Bool
empty_from zero offset dir fs block = true
empty_from (suc k) offset dir fs block =
    let chunk = dir_chunk (Inode.size dir) offset fs.block_size in
    elim (read_inode_bytes offset chunk dir fs block) [
      | none ↦ false
      | some read ↦
          let rest = empty_from k (offset + fs.block_size) dir fs read in
          if empty_block chunk 0 chunk read then rest else false
    ]

module _ (garbage : Memory) where
  -- The number of the inode, where the result is true.
  unfoldable pub find_in_dir : List ℕ → Inode → Ext2 → Option ℕ
  find_in_dir name dir fs =
      if not (inode_is_dir dir) || length name == 0 || ltb name_max (length name)
      then none
      else if ltb 4096 fs.block_size
      then none
      else find_in_blocks (dir_rounds dir fs) 0 name dir fs garbage

  unfoldable pub dir_is_empty : Inode → Ext2 → Bool
  dir_is_empty dir fs =
      inode_is_dir dir
      && not (ltb 4096 fs.block_size)
      && empty_from (dir_rounds dir fs) 0 dir fs garbage
