-- ===== src/Ext2/Inode.antt =====
-- struct ext2_inode of fs/ext2.c: its 128 bytes, and the fields read from them.
use whirliscope.Prelude.{ℕ, ◌+◌, ◌*◌, ◌/◌, ◌%◌, ◌^◌, Bool, ◌==◌}
use whirliscope.Libc.Memory.{Memory}
use whirliscope.Elf.{read16, read32}
use whirliscope.Ext2.Bytes.{write32}

abbrev pub Inode : Type 0
Inode = Memory

abbrev pub mode : Inode → ℕ
mode i = read16 0 i

abbrev pub size : Inode → ℕ
size i = read32 4 i

abbrev pub block : Inode → ℕ → ℕ
block i k = read32 (40 + 4 * k) i

abbrev pub set_size : ℕ → Inode → Inode
set_size v i = write32 4 v i

abbrev pub set_blocks : ℕ → Inode → Inode
set_blocks v i = write32 28 v i

abbrev pub set_block : ℕ → ℕ → Inode → Inode
set_block k v i = write32 (40 + 4 * k) v i

unfoldable pub inode_is_dir : Inode → Bool
inode_is_dir i = mode i / 2 ^ 14 % 2 == 1

unfoldable pub inode_is_file : Inode → Bool
inode_is_file i = mode i / 2 ^ 15 % 2 == 1
