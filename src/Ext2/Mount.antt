-- ===== src/Ext2/Mount.antt =====
-- Mounting, status and writing back in fs/ext2.c.
pub mod Outcome
use whirliscope.Prelude.{
  ℕ, ◌+◌, ◌-◌, ◌*◌, ◌/◌, ◌%◌, ◌^◌, Bool, true, false, not, ◌&&◌, ◌||◌, Option, none, some, ltb,
  ◌==◌, if◌then◌else◌,
}
use whirliscope.Libc.Memory.{Memory}
use whirliscope.Elf.{read8}
use whirliscope.Ext2.Bytes.{add32, sub32}
use whirliscope.Ext2.Superblock
use whirliscope.Ext2.Image.{
  Ext2, with_image, superblock_offset, superblock_size, image_ptr, group_desc,
}
use whirliscope.Ext2.Paths.{ext2_mounted}

abbrev pub super_magic : ℕ
super_magic = 0xef53

-- The state that the call begins with. What the image holds does not matter there.
abbrev pub detached : Memory → Ext2
detached m = record {
  image = m;
  fs_size = 0;
  attached = false;
  has_superblock = false;
  block_size = 0;
  group_count = 0;
  writeback = none;
}

-- The test of the superblock, for the state whose image has its size already.
unfoldable pub superblock_valid : Ext2 → Bool
superblock_valid fs = elim (image_ptr superblock_offset superblock_size fs) [
  | none ↦ false
  | some _ ↦
      Superblock.magic fs.image == super_magic
      && (not (ltb 2 (Superblock.log_block_size fs.image))
          && (not (Superblock.blocks_per_group fs.image == 0)
              && not (Superblock.inodes_per_group fs.image == 0)))
]

abbrev pub sized : Memory → ℕ → Ext2
sized m image_size = record {
  image = m;
  fs_size = image_size;
  attached = false;
  has_superblock = false;
  block_size = 0;
  group_count = 0;
  writeback = none;
}

-- The state behind the test of the superblock.
abbrev pub opened : Memory → ℕ → Option (Memory → ℕ → Bool) → Ext2
opened m image_size writeback = record {
  image = m;
  fs_size = image_size;
  attached = true;
  has_superblock = true;
  block_size = 1024 * 2 ^ Superblock.log_block_size m;
  group_count =
      sub32 (add32 (Superblock.blocks_count m) (Superblock.blocks_per_group m)) 1
      / Superblock.blocks_per_group m;
  writeback = writeback;
}

-- The image at a pointer that is not NULL.
unfoldable pub ext2_mount_internal : Memory → ℕ → Option (Memory → ℕ → Bool) → Ext2 × Bool
ext2_mount_internal m image_size writeback_fn =
    if ltb image_size (superblock_offset + superblock_size)
    then (detached m, false)
    else if not (superblock_valid (sized m image_size))
    then (sized m image_size, false)
    else elim (group_desc 0 (opened m image_size none)) [
      | none ↦ (opened m image_size none, false)
      | some _ ↦ (opened m image_size writeback_fn, true)
    ]

unfoldable pub ext2_mount : Memory → ℕ → Ext2 × Bool
ext2_mount m image_size = ext2_mount_internal m image_size none

unfoldable pub ext2_mount_with_writeback : Memory → ℕ → (Memory → ℕ → Bool) → Ext2 × Bool
ext2_mount_with_writeback m image_size writeback = ext2_mount_internal m image_size (some writeback)

unfoldable pub ext2_sync : Ext2 → Bool
ext2_sync fs =
    if not (ext2_mounted fs)
    then false
    else elim fs.writeback [ none ↦ true | some writeback ↦ writeback fs.image fs.fs_size ]

-- struct user_fs_status; its version and its reserved bytes are constant.
pub record UserFsStatus : Type 0 where
  pub mounted : ℕ
  pub status_block_size : ℕ
  pub blocks : ℕ
  pub inodes : ℕ
  pub free_blocks : ℕ
  pub free_inodes : ℕ
  pub volume_name : ℕ → ℕ

abbrev pub no_status : UserFsStatus
no_status = record {
  mounted = 0;
  status_block_size = 0;
  blocks = 0;
  inodes = 0;
  free_blocks = 0;
  free_inodes = 0;
  volume_name = λ i. 0;
}

unfoldable pub ext2_get_status : Ext2 → UserFsStatus
ext2_get_status fs = if not (ext2_mounted fs) then no_status else record {
  mounted = 1;
  status_block_size = fs.block_size;
  blocks = Superblock.blocks_count fs.image;
  inodes = Superblock.inodes_count fs.image;
  free_blocks = Superblock.free_blocks_count fs.image;
  free_inodes = Superblock.free_inodes_count fs.image;
  volume_name = λ i. if i == 15 then 0 else read8 (1024 + 120 + i) fs.image;
}
