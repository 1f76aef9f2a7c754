-- ===== src/Ext2/Mount/Outcome.antt =====
-- What ext2_mount_internal of fs/ext2.c has established when it returns.
use whirliscope.Prelude.{
  ℕ, zero, suc, ◌+◌, ◌*◌, ◌^◌, ◌≤◌, ◌<◌, ◌≡◌, refl, Bool, true, false, Option, none, some, ltb,
  arith, Bool-cases, Option-cases, inl, inr,
}
use whirliscope.Libc.Memory.{Memory}
use whirliscope.Ext2.Superblock
use whirliscope.Ext2.Image.{
  Ext2, superblock_offset, superblock_size, image_range_valid, image_ptr, group_desc,
}
use whirliscope.Ext2.Paths.{ext2_mounted}
use whirliscope.Ext2.Mount.{
  super_magic, detached, sized, opened, superblock_valid, ext2_mount_internal,
}

-- The state has taken up an image with a good superblock: a known block size, and groups of some
-- size.
pub record HasSuperblock (m : Memory) (image_size : ℕ) (fs : Ext2) : Type 0 where
  pub large : superblock_offset + superblock_size ≤ image_size
  pub whole_image : (fs.image ≡ m) × (fs.fs_size ≡ image_size)
  pub small : fs.block_size ≤ 4096
  pub positive : 0 < fs.block_size
  pub magic_number : Superblock.magic m ≡ super_magic
  pub some_blocks : 0 < Superblock.blocks_per_group m
  pub some_inodes : 0 < Superblock.inodes_per_group m

-- A mounted image: a good superblock, and a first descriptor in the image.
pub record IsOpen (m : Memory) (image_size : ℕ) (writeback : Option (Memory → ℕ → Bool)) (fs : Ext2)
    : Type 0 where
  pub mounted : ext2_mounted fs ≡ true
  pub superblock : HasSuperblock m image_size fs
  pub writes_back : fs.writeback ≡ writeback
  pub descriptor : (d : ℕ) × (group_desc 0 fs ≡ some d)

-- Success opens the image; after a failure the file system counts as mounted only if the
-- superblock is good and the first descriptor was the one thing missing.
pub Outcome : Memory → ℕ → Option (Memory → ℕ → Bool) → Ext2 × Bool → Type 0
Outcome m image_size writeback (fs, true) = IsOpen m image_size writeback fs
Outcome m image_size writeback (fs, false) =
    ext2_mounted fs ≡ true → HasSuperblock m image_size fs × (group_desc 0 fs ≡ none)

not_mounted :
    (m : Memory) (image_size : ℕ) (writeback : Option (Memory → ℕ → Bool)) (fs : Ext2)
    → fs.attached ≡ false
    → Outcome m image_size writeback (fs, false)
unfolding Outcome ext2_mounted
not_mounted m image_size writeback fs e = λ mounted. absurd (ground arith)

power_bounds : (k : ℕ) → ltb 2 k ≡ false → (0 < 1024 * 2 ^ k) × (1024 * 2 ^ k ≤ 4096)
power_bounds zero e = omega arith
power_bounds (suc zero) e = omega arith
power_bounds (suc (suc zero)) e = omega arith
power_bounds (suc (suc (suc k))) e = absurd (ground arith)

superblock_valid-parts :
    (fs : Ext2)
    → superblock_valid fs ≡ true
    → (Superblock.magic fs.image ≡ super_magic)
      × (ltb 2 (Superblock.log_block_size fs.image) ≡ false)
      × (0 < Superblock.blocks_per_group fs.image)
      × (0 < Superblock.inodes_per_group fs.image)
unfolding superblock_valid
superblock_valid-parts fs e = ground arith

-- group_desc does not read the writeback function.
group_desc_writeback :
    (m : Memory) (image_size d : ℕ) (writeback : Option (Memory → ℕ → Bool))
    → group_desc 0 (opened m image_size none) ≡ some d
    → group_desc 0 (opened m image_size writeback) ≡ some d
unfolding group_desc image_ptr image_range_valid
group_desc_writeback m image_size d writeback e = e

opened-HasSuperblock :
    (m : Memory) (image_size : ℕ) (writeback : Option (Memory → ℕ → Bool))
    → ltb image_size (superblock_offset + superblock_size) ≡ false
    → superblock_valid (sized m image_size) ≡ true
    → HasSuperblock m image_size (opened m image_size writeback)
opened-HasSuperblock m image_size writeback e valid =
    let (magic, log, blocks, inodes) = superblock_valid-parts (sized m image_size) valid in
    let (positive, small) = power_bounds (Superblock.log_block_size m) log in
    record {
      large = ground arith;
      whole_image = (refl, refl);
      small = small;
      positive = positive;
      magic_number = magic;
      some_blocks = blocks;
      some_inodes = inodes;
    }

opened-IsOpen :
    (m : Memory) (image_size d : ℕ) (writeback : Option (Memory → ℕ → Bool))
    → ltb image_size (superblock_offset + superblock_size) ≡ false
    → superblock_valid (sized m image_size) ≡ true
    → group_desc 0 (opened m image_size none) ≡ some d
    → IsOpen m image_size writeback (opened m image_size writeback)
unfolding ext2_mounted
opened-IsOpen m image_size d writeback e valid found = record {
  mounted = refl;
  superblock = opened-HasSuperblock m image_size writeback e valid;
  writes_back = refl;
  descriptor = (d, group_desc_writeback m image_size d writeback found);
}

-- A mount that succeeds leaves the file system mounted: the image of the call has room for the
-- superblock, and this has the right magic number, a block size from 1 to 4096 and groups that are
-- not empty; the first group descriptor lies in the image, and the function for writing back is
-- that of the call. After a mount that fails the file system counts as mounted only if all of this
-- holds of the superblock and the first group descriptor does not lie in the image.
pub ext2_mount_internal-Outcome :
    (m : Memory) (image_size : ℕ) (writeback : Option (Memory → ℕ → Bool))
    → Outcome m image_size writeback (ext2_mount_internal m image_size writeback)
unfolding ext2_mount_internal
ext2_mount_internal-Outcome m image_size writeback =
    elim (Bool-cases (ltb image_size (superblock_offset + superblock_size))) [
      | inl e ↦ rw e (not_mounted m image_size writeback (detached m) refl)
      | inr e ↦ elim (Bool-cases (superblock_valid (sized m image_size))) [
        | inl valid ↦ elim (Option-cases (group_desc 0 (opened m image_size none))) [
          | inl n ↦
              rw (e, valid, n)
                (unfold Outcome in λ _. (opened-HasSuperblock m image_size none e valid, n))
          | inr (d, n) ↦
              rw (e, valid, n) (unfold Outcome in opened-IsOpen m image_size d writeback e valid n)
        ]
        | inr invalid ↦
            rw (e, invalid) (not_mounted m image_size writeback (sized m image_size) refl)
      ]
    ]
