-- ===== src/Ext2/Blocks/Lookup.antt =====
-- set_block_id_at and block_id_at of fs/ext2.c.
use whirliscope.Prelude.{
  ℕ, ◌+◌, ◌-◌, ◌*◌, ◌/◌, ◌^◌, ◌≤◌, ◌<◌, ◌≡◌, ◌≢◌, ◌⊎◌, inl, inr, refl, sym, ◌∙◌, Bool, true, false,
  not, ◌&&◌, some, ltb, leb, ◌==◌, arith, Bool-cases, ltb→lt,
}
use whirliscope.Elf.{read32}
use whirliscope.Ext2.Bytes.{write32}
use whirliscope.Ext2.Bytes.Laws.{read32-write32, read32-write32_apart}
use whirliscope.Ext2.Inode.{Inode}
use whirliscope.Ext2.Inode
use whirliscope.Ext2.Image.{Ext2, with_image, image_range_valid, image_ptr, block_ptr}
use whirliscope.Ext2.Blocks.{direct_blocks, block_id_at, set_block_id_at, set_indirect}

-- The pointers of an inode after one of them was set.
block-set_block :
    (i j v : ℕ) (inode : Inode)
    → j ≢ i
    → Inode.block (Inode.set_block i v inode) j ≡ Inode.block inode j
block-set_block i j v inode other = elim (Bool-cases (ltb j i)) [
  | inl e ↦ read32-write32_apart (40 + 4 * i) (40 + 4 * j) v inode (inl (ground arith))
  | inr e ↦ read32-write32_apart (40 + 4 * i) (40 + 4 * j) v inode (inr (ground arith))
]

-- What block_id_at reads.
block_id_at_direct :
    (inode : Inode) (j : ℕ) (fs : Ext2)
    → ltb j direct_blocks ≡ true
    → block_id_at inode j fs ≡ Inode.block inode j
unfolding block_id_at
block_id_at_direct inode j fs e = rw e

block_id_at_same :
    (inode inode' : Inode) (j : ℕ) (fs : Ext2)
    → Inode.block inode' 12 ≡ Inode.block inode 12
    → ltb j direct_blocks ≡ false
    → block_id_at inode' j fs ≡ block_id_at inode j fs
unfolding block_id_at
block_id_at_same inode inode' j fs e f = rw (f, e)

block_id_at_indirect :
    (inode : Inode) (j at : ℕ) (fs : Ext2)
    → ltb j direct_blocks ≡ false
    → j - 12 < fs.block_size / 4
    → Inode.block inode 12 ≢ 0
    → block_ptr (Inode.block inode 12) 0 fs.block_size fs ≡ some at
    → block_id_at inode j fs ≡ read32 (at + 4 * (j - 12)) fs.image
unfolding block_id_at
block_id_at_indirect inode j at fs e inside set found =
    let t : (ltb (j - 12) (fs.block_size / 4) && not (Inode.block inode 12 == 0)) ≡ true =
      ground arith in
    rw (e, t, found)

block_ptr_image :
    (b offset len : ℕ) (fs : Ext2) (m : ℕ → ℕ)
    → block_ptr b offset len (with_image fs m) ≡ block_ptr b offset len fs
unfolding block_ptr image_ptr image_range_valid
block_ptr_image b offset len fs m = refl

-- The file block `i` has a pointer already: in the inode, or in an indirect block in the image.
abbrev pub HasPlace : Inode → ℕ → Ext2 → Type 0
HasPlace inode i fs =
    (i < direct_blocks)
    ⊎ ((direct_blocks ≤ i)
        × (i < direct_blocks + fs.block_size / 4)
        × (Inode.block inode 12 ≢ 0)
        × ((at : ℕ) × (block_ptr (Inode.block inode 12) 0 fs.block_size fs ≡ some at)))

-- `r` is the file with the block `v` at the place `i`, and its other blocks as they were.
pub record IsPlaced (inode : Inode) (i v : ℕ) (fs : Ext2) (r : (Ext2 × Inode) × Bool) : Type 0 where
  pub succeeds : r.1 ≡ true
  pub here : block_id_at r.0.1 i r.0.0 ≡ v
  pub others : (j : ℕ) → j ≢ i → block_id_at r.0.1 j r.0.0 ≡ block_id_at inode j fs

set_direct-IsPlaced :
    (inode : Inode) (i v : ℕ) (fs : Ext2)
    → i < direct_blocks
    → v < 2 ^ 32
    → IsPlaced inode i v fs ((fs, Inode.set_block i v inode), true)
set_direct-IsPlaced inode i v fs direct small = record {
  succeeds = refl;
  here =
      block_id_at_direct (Inode.set_block i v inode) i fs (ground arith)
      ∙ read32-write32 (40 + 4 * i) v inode small;
  others = λ j other. elim (Bool-cases (ltb j direct_blocks)) [
    | inl e ↦
        block_id_at_direct (Inode.set_block i v inode) j fs e
        ∙ block-set_block i j v inode other
        ∙ sym (block_id_at_direct inode j fs e)
    | inr e ↦
        block_id_at_same inode (Inode.set_block i v inode) j fs
          (block-set_block i 12 v inode (ground arith)) e
  ];
}

block_id_at_far :
    (inode : Inode) (j : ℕ) (fs : Ext2)
    → ltb j direct_blocks ≡ false
    → ltb (j - 12) (fs.block_size / 4) ≡ false
    → block_id_at inode j fs ≡ 0
unfolding block_id_at
block_id_at_far inode j fs e far = rw (e, far)

set_indirect_found :
    (inode : Inode) (i v at : ℕ) (fs : Ext2)
    → block_ptr (Inode.block inode 12) 0 fs.block_size fs ≡ some at
    → set_indirect inode (i - direct_blocks) v fs
      ≡ ((with_image fs (write32 (at + 4 * (i - 12)) v fs.image), inode), true)
unfolding set_indirect
set_indirect_found inode i v at fs found = rw (found, set_indirect) refl

module _ (inode : Inode) (i v at : ℕ) (fs : Ext2) where
  written_indirect : Ext2
  written_indirect = with_image fs (write32 (at + 4 * (i - 12)) v fs.image)

  set_indirect-IsPlaced :
      direct_blocks ≤ i
      → i < direct_blocks + fs.block_size / 4
      → v < 2 ^ 32
      → Inode.block inode 12 ≢ 0
      → block_ptr (Inode.block inode 12) 0 fs.block_size fs ≡ some at
      → IsPlaced inode i v fs ((written_indirect, inode), true)
  unfolding written_indirect
  set_indirect-IsPlaced past inside small set found =
      let still =
        block_ptr_image (Inode.block inode 12) 0 fs.block_size fs written_indirect.image ∙ found in
      record {
        succeeds = refl;
        here =
            block_id_at_indirect inode i at written_indirect (ground arith) (omega arith) set still
            ∙ read32-write32 (at + 4 * (i - 12)) v fs.image small;
        others = λ j other. elim (Bool-cases (ltb j direct_blocks)) [
          | inl e ↦
              block_id_at_direct inode j written_indirect e ∙ sym (block_id_at_direct inode j fs e)
          | inr e ↦ elim (Bool-cases (ltb (j - 12) (fs.block_size / 4))) [
            | inl near ↦
                block_id_at_indirect inode j at written_indirect e (ltb→lt _ _ near) set still
                ∙ entry_kept j other e
                ∙ sym (block_id_at_indirect inode j at fs e (ltb→lt _ _ near) set found)
            | inr far ↦
                block_id_at_far inode j written_indirect e far
                ∙ sym (block_id_at_far inode j fs e far)
          ]
        ];
      }
    where
      entry_kept :
          (j : ℕ)
          → j ≢ i
          → ltb j direct_blocks ≡ false
          → read32 (at + 4 * (j - 12)) written_indirect.image ≡ read32 (at + 4 * (j - 12)) fs.image
      entry_kept j other e = elim (Bool-cases (ltb j i)) [
        | inl less ↦
            read32-write32_apart (at + 4 * (i - 12)) (at + 4 * (j - 12)) v fs.image
              (inl (ground arith))
        | inr more ↦
            read32-write32_apart (at + 4 * (i - 12)) (at + 4 * (j - 12)) v fs.image
              (inr (ground arith))
      ]

-- Setting the pointer of a file block that has a place for it succeeds without an allocation:
-- block_id_at then finds the block set there, and at every other file block what it found before.
pub set_block_id_at-block_id_at :
    (inode : Inode) (i v : ℕ) (allocate_metadata : Bool) (fs : Ext2)
    → HasPlace inode i fs
    → v < 2 ^ 32
    → IsPlaced inode i v fs (set_block_id_at inode i v allocate_metadata fs)
unfolding set_block_id_at written_indirect
set_block_id_at-block_id_at inode i v allocate_metadata fs (inl direct) small =
    let e : ltb i direct_blocks ≡ true = ground arith in
    rw e (set_direct-IsPlaced inode i v fs direct small)
set_block_id_at-block_id_at inode i v allocate_metadata fs (inr (past, inside, set, (at, found)))
      small =
    let e : ltb i direct_blocks ≡ false = ground arith in
    let f : leb (fs.block_size / 4) (i - direct_blocks) ≡ false = ground arith in
    let g : (Inode.block inode 12 == 0) ≡ false = ground arith in
    rw (e, f, g, set_indirect_found inode i v at fs found)
      (set_indirect-IsPlaced inode i v at fs past inside small set found)
