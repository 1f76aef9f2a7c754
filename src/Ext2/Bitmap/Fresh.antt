-- ===== src/Ext2/Bitmap/Fresh.antt =====
-- allocate_block of fs/ext2.c: the block that it gives out was free, and is zeroed.
use whirliscope.Prelude.{
  ℕ, zero, suc, ◌+◌, ◌*◌, ◌≤◌, ◌<◌, ◌≡◌, ◌≢◌, refl, sym, subst, Bool, true, false, some, ◌==◌,
  arith, Bool-cases, Option-cases, inl, inr,
}
use whirliscope.Libc.Memory.{Memory}
use whirliscope.Ext2.Bytes.{add32}
use whirliscope.Ext2.Superblock
use whirliscope.Ext2.GroupDesc
use whirliscope.Ext2.Image.{Ext2, image_range_valid, image_ptr, block_ptr, group_desc}
use whirliscope.Ext2.Bitmap.{
  bitmap_get, mark_block_used, zeroed, find_clear, take_free_block, group_base, group_limit,
  allocate_from, allocate_block,
}

-- The block `b` was free in `fs`: its bit in the bitmap of its group was clear. In `after` it holds
-- noughts only.
pub record IsFresh (fs after : Ext2) (b : ℕ) : Type 0 where
  pub group : ℕ
  pub desc : ℕ
  pub bitmap : ℕ
  pub index : ℕ
  pub described : group_desc group fs ≡ some desc
  pub mapped : block_ptr (GroupDesc.block_bitmap desc fs.image) 0 fs.block_size fs ≡ some bitmap
  pub in_group : index < group_limit group fs.image
  pub was_clear : bitmap_get bitmap index fs.image ≡ false
  pub number : b ≡ add32 (group_base group fs.image) index
  pub counted : b < Superblock.blocks_count fs.image
  pub in_image : b * fs.block_size + fs.block_size ≤ fs.fs_size
  pub is_zeroed : (a : ℕ) → a < fs.block_size → after.image (b * fs.block_size + a) ≡ 0

find_clear-free :
    (k i bitmap found : ℕ) (m : Memory)
    → find_clear k i bitmap m ≡ some found
    → (found < i + k) × (bitmap_get bitmap found m ≡ false)
unfolding find_clear
find_clear-free zero i bitmap found m e = absurd (ground arith)
find_clear-free (suc k) i bitmap found m e = elim (Bool-cases (bitmap_get bitmap i m)) [
  | inl t ↦
      let rest : find_clear k (i + 1) bitmap m ≡ some found = rw t at e in
      let (a, b) = find_clear-free k (i + 1) bitmap found m rest in (omega arith, b)
  | inr f ↦
      let here : some i ≡ some found = rw f at e in
      let same : i ≡ found = ground arith in
      (omega arith, subst (λ x. bitmap_get bitmap x m ≡ false) same f)
]

-- Marking a block keeps the geometry, and works only on blocks below the count.
mark_block_used-kept :
    (block : ℕ) (used : Bool) (fs : Ext2)
    → ((mark_block_used block used fs).0.block_size ≡ fs.block_size)
      × ((mark_block_used block used fs).0.fs_size ≡ fs.fs_size)
      × ((mark_block_used block used fs).1 ≡ true → block < Superblock.blocks_count fs.image)
unfolding mark_block_used
mark_block_used-kept block used fs = (ground arith, ground arith, λ e. ground arith)

block_ptr-in_image :
    (block at : ℕ) (fs : Ext2)
    → block_ptr block 0 fs.block_size fs ≡ some at
    → (at ≡ block * fs.block_size) × (block * fs.block_size + fs.block_size ≤ fs.fs_size)
unfolding block_ptr image_ptr image_range_valid
block_ptr-in_image block at fs e = ground arith

-- A result that is a fresh block, or 0.
Gives : Ext2 → Ext2 × ℕ → Type 0
Gives fs (after, b) = b ≢ 0 → IsFresh fs after b

same_room :
    (b size size' limit limit' : ℕ)
    → size' ≡ size
    → limit' ≡ limit
    → b * size' + size' ≤ limit'
    → b * size + size ≤ limit
same_room b size size' limit limit' e f h =
    subst (λ s. b * s + s ≤ limit) e (subst (λ l. b * size' + size' ≤ l) f h)

zeroed_inside :
    (m : Memory) (b size size' at a : ℕ)
    → size' ≡ size
    → at ≡ b * size'
    → a < size
    → zeroed at size' m (b * size + a) ≡ 0
zeroed_inside m b size size' at a e f low =
    subst (λ s. at ≡ b * s → zeroed at s m (b * size + a) ≡ 0) (sym e)
      (λ g. subst (λ p. zeroed p size m (b * size + a) ≡ 0) (sym g) (ground arith)) f

take_free_block-Gives :
    (fs : Ext2) (group desc bitmap index : ℕ)
    → group_desc group fs ≡ some desc
    → block_ptr (GroupDesc.block_bitmap desc fs.image) 0 fs.block_size fs ≡ some bitmap
    → index < group_limit group fs.image
    → bitmap_get bitmap index fs.image ≡ false
    → Gives fs (take_free_block (add32 (group_base group fs.image) index) fs)
unfolding take_free_block Gives
take_free_block-Gives fs group desc bitmap index described mapped in_group was_clear =
    let b = add32 (group_base group fs.image) index in
    let marked = mark_block_used b true fs in
    let (size, limit, counted) = mark_block_used-kept b true fs in
    elim (Bool-cases marked.1) [
      | inl e ↦ elim (Option-cases (block_ptr b 0 marked.0.block_size marked.0)) [
        | inl n ↦ rw (e, n) (λ h. absurd (h refl))
        | inr (at, n) ↦
            let (place, inside) = block_ptr-in_image b at marked.0 n in
            rw (e, n)
              (λ h. record {
                group = group;
                desc = desc;
                bitmap = bitmap;
                index = index;
                described = described;
                mapped = mapped;
                in_group = in_group;
                was_clear = was_clear;
                number = refl;
                counted = counted e;
                in_image =
                    same_room b fs.block_size marked.0.block_size fs.fs_size marked.0.fs_size size
                      limit inside;
                is_zeroed = λ a low.
                    zeroed_inside marked.0.image b fs.block_size marked.0.block_size at a size place
                      low;
              })
      ]
      | inr e ↦ rw e (λ h. absurd (h refl))
    ]

allocate_from-Gives : (k group : ℕ) (fs : Ext2) → Gives fs (allocate_from k group fs)
unfolding allocate_from
allocate_from-Gives zero group fs = unfold Gives in λ h. absurd (h refl)
allocate_from-Gives (suc k) group fs =
    let next = allocate_from-Gives k (group + 1) fs in
    elim (Option-cases (group_desc group fs)) [
      | inl e ↦ rw (e, allocate_from) next
      | inr (d, e) ↦ elim (Bool-cases (GroupDesc.free_blocks_count d fs.image == 0)) [
        | inl z ↦ rw (e, z, allocate_from) next
        | inr z ↦
            elim (Option-cases (block_ptr (GroupDesc.block_bitmap d fs.image) 0 fs.block_size fs)) [
              | inl n ↦ rw (e, z, n, allocate_from) (unfold Gives in λ h. absurd (h refl))
              | inr (bitmap, n) ↦
                  elim (Option-cases (find_clear (group_limit group fs.image) 0 bitmap fs.image)) [
                    | inl c ↦ rw (e, z, n, c, allocate_from) next
                    | inr (i, c) ↦
                        let (below, clear) = find_clear-free _ 0 bitmap i fs.image c in
                        rw (e, z, n, c, allocate_from)
                          (take_free_block-Gives fs group d bitmap i e n (omega arith) clear)
                  ]
            ]
      ]
    ]

-- A block number other than 0 that allocate_block gives out is that of a block whose bit was clear,
-- inside the bounds of its group, below the number of blocks and inside the image; and the block is
-- filled with noughts.
pub allocate_block-IsFresh :
    (fs : Ext2) → (allocate_block fs).1 ≢ 0 → IsFresh fs (allocate_block fs).0 (allocate_block fs).1
unfolding allocate_block Gives
allocate_block-IsFresh fs h = allocate_from-Gives fs.group_count 0 fs h
