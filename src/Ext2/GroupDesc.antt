-- ===== src/Ext2/GroupDesc.antt =====
-- The fields of the struct ext2_group_desc of fs/ext2.c at `d`.
use whirliscope.Prelude.{ℕ, ◌+◌}
use whirliscope.Libc.Memory.{Memory}
use whirliscope.Elf.{read16, read32}

abbrev pub block_bitmap : ℕ → Memory → ℕ
block_bitmap d m = read32 d m

abbrev pub inode_bitmap : ℕ → Memory → ℕ
inode_bitmap d m = read32 (d + 4) m

abbrev pub inode_table : ℕ → Memory → ℕ
inode_table d m = read32 (d + 8) m

abbrev pub free_blocks_count : ℕ → Memory → ℕ
free_blocks_count d m = read16 (d + 12) m

abbrev pub free_inodes_count : ℕ → Memory → ℕ
free_inodes_count d m = read16 (d + 14) m

abbrev pub used_dirs_count : ℕ → Memory → ℕ
used_dirs_count d m = read16 (d + 16) m
