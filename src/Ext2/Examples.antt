-- ===== src/Ext2/Examples.antt =====
-- The theorems on fs/ext2.c at a small image of 16 blocks: the root directory with one file, `a`,
-- which holds the five characters of "hello".
use whirliscope.Prelude.{
  ℕ, ◌+◌, ◌-◌, ◌^◌, ◌<◌, ◌≡◌, refl, ap, ◌∙◌, ◌/◌, ◌%◌, inl, inr, true, false, some, none, ltb, ◌==◌,
  if◌then◌else◌, get_or, arith,
}
use whirliscope.Prelude.Text.{codes}
use whirliscope.Prelude.Int.{pos}
use whirliscope.Libc.Memory.{Memory, within}
use whirliscope.Ext2.Inode.{Inode, inode_is_dir, inode_is_file}
use whirliscope.Ext2.Inode
use whirliscope.Ext2.Superblock
use whirliscope.Elf.{read8, read16, read32}
use whirliscope.Ext2.Image.{
  Ext2, image_range_valid, image_ptr, block_ptr, group_desc, inode_ptr, read_inode,
}
use whirliscope.Ext2.Content.{read_loop, read_inode_bytes}
use whirliscope.Ext2.Directory.{same_bytes, names_equal, find_in_block, find_in_blocks, find_in_dir}
use whirliscope.Ext2.GroupDesc
use whirliscope.Ext2.Bitmap.{
  bitmap_get, bitmap_set, decrease16, decrease32, count_block, block_group, block_group_index,
  mark_block_used, find_clear, take_free_block, group_base, group_limit, allocate_from,
  allocate_block,
}
use whirliscope.Ext2.Bitmap.Fresh.{IsFresh, allocate_block-IsFresh}
use whirliscope.Ext2.Bitmap.Marking.{IsApart, IsMarked, mark_block_used-IsMarked}
use whirliscope.Ext2.Blocks.{block_id_at, set_block_id_at}
use whirliscope.Ext2.Blocks.Lookup.{IsPlaced, set_block_id_at-block_id_at}
use whirliscope.Ext2.Content.Reading.{block_of, file_byte, IsBacked}
use whirliscope.Ext2.Paths.{
  ext2_mounted, skip_slashes, component, lookup_loop, path_lookup, split_parent_path, trim,
  last_slash,
}
use whirliscope.Ext2.Paths.Split.{IsSplit, split_parent_path-IsSplit}
use whirliscope.Ext2.Mount.{ext2_mount_internal, opened}
use whirliscope.Ext2.Mount.Outcome.{Outcome, ext2_mount_internal-Outcome}
use whirliscope.Ext2.Calls.{ext2_read_file}
use whirliscope.Ext2.Calls.ReadFile.{available, ext2_read_file-file_byte}

-- The bytes that are not noughts: superblock, group descriptor, block bitmap, inodes 2 and 12,
-- directory and file.
abbrev disk : Memory
disk a =
    if a == 1024
    then 16
    else if a == 1028
    then 16
    else if a == 1036
    then 7
    else if a == 1044
    then 1
    else if a == 1057
    then 32
    else if a == 1064
    then 16
    else if a == 1080
    then 0x53
    else if a == 1081
    then 0xef
    else if a == 1108
    then 11
    else if a == 1112
    then 128
    else if a == 2048
    then 3
    else if a == 2052
    then 4
    else if a == 2056
    then 5
    else if a == 2060
    then 7
    else if a == 3072
    then 255
    else if a == 5249
    then 0x41
    else if a == 5253
    then 4
    else if a == 5288
    then 7
    else if a == 6529
    then 0x81
    else if a == 6532
    then 5
    else if a == 6568
    then 8
    else if a == 7168
    then 12
    else if a == 7173
    then 4
    else if a == 7174
    then 1
    else if a == 7175
    then 1
    else if a == 7176
    then b'a'
    else if within 8192 5 a
    then get_or (codes "hello") (a - 8192) 0
    else 0

abbrev fs : Ext2
fs = opened disk 16384 none

abbrev garbage : Memory
garbage a = 170

-- The inode 12.
abbrev file : Inode
file i = disk (6528 + i)

-- The inode 2.
abbrev root : Inode
root i = disk (5248 + i)

root_read : read_inode 2 fs ≡ some root
unfolding read_inode inode_ptr group_desc image_ptr image_range_valid Superblock.inodes_count
    Superblock.inodes_per_group Superblock.inode_size Superblock.blocks_count
    Superblock.blocks_per_group Superblock.log_block_size read32 read16 read8
root_read = refl

file_read : read_inode 12 fs ≡ some file
unfolding read_inode inode_ptr group_desc image_ptr image_range_valid Superblock.inodes_count
    Superblock.inodes_per_group Superblock.inode_size Superblock.blocks_count
    Superblock.blocks_per_group Superblock.log_block_size read32 read16 read8
file_read = refl

name_found : find_in_dir garbage (codes "a") root fs ≡ some 12
unfolding find_in_dir inode_is_dir find_in_blocks read_inode_bytes read_loop block_id_at
    find_in_block names_equal same_bytes block_ptr image_ptr image_range_valid
    Superblock.log_block_size read32 read16 read8
name_found = refl

file_found : path_lookup garbage (codes "/a") fs ≡ some (file, 12)
unfolding path_lookup ext2_mounted lookup_loop skip_slashes component
file_found =
    rw (root_read, path_lookup) (rw (name_found, lookup_loop) (rw (file_read, lookup_loop) refl))

block_size_lem : fs.block_size ≡ 1024
unfolding Superblock.log_block_size read32 read16 read8
block_size_lem = refl

file_size : Inode.size file ≡ 5
unfolding read32 read16 read8
file_size = refl

first_block : block_id_at file 0 fs ≡ 8
unfolding block_id_at read32 read16 read8
first_block = refl

file_in_block : (p : ℕ) → p < 1024 → block_of file fs p ≡ 8
file_in_block p small =
    let zeroth : p / fs.block_size % 2 ^ 32 ≡ 0 = rw block_size_lem (omega arith) in
    ap (λ k. block_id_at file k fs) zeroth ∙ first_block

file-IsBacked : (offset len : ℕ) → offset + len < 1024 → IsBacked file fs offset len
file-IsBacked offset len small i low set =
    rw (file_in_block (offset + i) (omega arith), block_size_lem) (omega arith)

three_left : available (Inode.size file) 3 1 ≡ 3
unfolding read32 read16 read8
three_left = refl

ext2_read_file-file_byte_example :
    (b : Memory) × (ext2_read_file garbage (codes "/a") 3 1 fs garbage
      ≡ (pos (available (Inode.size file) 3 1), b))
    × ((i : ℕ)
        → b i ≡ (
            if ltb i (available (Inode.size file) 3 1)
            then file_byte file fs (1 + i)
            else garbage i))
unfolding inode_is_file read32 read16 read8
ext2_read_file-file_byte_example =
    ext2_read_file-file_byte garbage (codes "/a") 3 1 fs garbage {file = file} {number = 12}
      file_found refl (omega (arith, block_size_lem)) (omega arith)
      (file-IsBacked 1 3 (omega arith))

-- Block 9 is the first free one.
nine_given : (allocate_block fs).1 ≡ 9
unfolding allocate_block allocate_from find_clear take_free_block mark_block_used bitmap_get
    bitmap_set group_base group_limit group_desc block_ptr image_ptr image_range_valid block_group
    block_group_index count_block decrease32 decrease16 Superblock.first_data_block
    Superblock.blocks_count Superblock.blocks_per_group Superblock.log_block_size read32 read16
    read8
nine_given = refl

allocate_block-IsFresh_example : IsFresh fs (allocate_block fs).0 (allocate_block fs).1
allocate_block-IsFresh_example = allocate_block-IsFresh fs (λ e. absurd (omega (arith, nine_given)))

desc_found : group_desc (block_group 9 disk) fs ≡ some 2048
unfolding group_desc image_ptr image_range_valid block_group Superblock.first_data_block
    Superblock.blocks_count Superblock.blocks_per_group Superblock.log_block_size read32 read16
    read8
desc_found = refl

bitmap_found : block_ptr (GroupDesc.block_bitmap 2048 disk) 0 fs.block_size fs ≡ some 3072
unfolding block_ptr image_ptr image_range_valid Superblock.log_block_size read32 read16 read8
bitmap_found = refl

index_of_nine : block_group_index 9 disk ≡ 8
unfolding block_group_index Superblock.first_data_block Superblock.blocks_per_group read32 read16
    read8
index_of_nine = refl

sixteen_blocks : Superblock.blocks_count disk ≡ 16
unfolding Superblock.blocks_count read32 read16 read8
sixteen_blocks = refl

counts-IsApart : IsApart 3072 fs.block_size 2048
counts-IsApart = record {
  from_superblock = inl (omega arith);
  from_desc = inl (omega arith);
  counts = inr (omega arith);
}

mark_block_used-IsMarked_example : IsMarked 9 true fs 2048 3072 (mark_block_used 9 true fs)
mark_block_used-IsMarked_example =
    mark_block_used-IsMarked 9 true fs 2048 3072 (omega (arith, sixteen_blocks)) desc_found
      bitmap_found (omega (arith, index_of_nine, block_size_lem)) counts-IsApart

set_block_id_at-block_id_at_example : IsPlaced file 1 9 fs (set_block_id_at file 1 9 false fs)
set_block_id_at-block_id_at_example =
    set_block_id_at-block_id_at file 1 9 false fs (inl (omega arith)) (omega arith)

ext2_mount_internal-Outcome_example : Outcome disk 16384 none (ext2_mount_internal disk 16384 none)
ext2_mount_internal-Outcome_example = ext2_mount_internal-Outcome disk 16384 none

split_parent_path-IsSplit_example : IsSplit (codes "/usr/bin//") 128 (codes "/usr") (codes "bin")
unfolding split_parent_path trim last_slash
split_parent_path-IsSplit_example =
    split_parent_path-IsSplit (codes "/usr/bin//") 128 {parent = codes "/usr"} {name = codes "bin"}
      refl
