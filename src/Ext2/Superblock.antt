-- ===== src/Ext2/Superblock.antt =====
-- The fields of struct ext2_superblock of fs/ext2.c, at the offset 1024 of an image.
use whirliscope.Prelude.{ℕ}
use whirliscope.Libc.Memory.{Memory}
use whirliscope.Elf.{read16, read32}

unfoldable pub inodes_count : Memory → ℕ
inodes_count m = read32 1024 m

unfoldable pub blocks_count : Memory → ℕ
blocks_count m = read32 1028 m

unfoldable pub free_blocks_count : Memory → ℕ
free_blocks_count m = read32 1036 m

unfoldable pub free_inodes_count : Memory → ℕ
free_inodes_count m = read32 1040 m

unfoldable pub first_data_block : Memory → ℕ
first_data_block m = read32 1044 m

unfoldable pub log_block_size : Memory → ℕ
log_block_size m = read32 1048 m

unfoldable pub blocks_per_group : Memory → ℕ
blocks_per_group m = read32 1056 m

unfoldable pub inodes_per_group : Memory → ℕ
inodes_per_group m = read32 1064 m

unfoldable pub magic : Memory → ℕ
magic m = read16 1080 m

unfoldable pub first_ino : Memory → ℕ
first_ino m = read32 1108 m

unfoldable pub inode_size : Memory → ℕ
inode_size m = read16 1112 m
