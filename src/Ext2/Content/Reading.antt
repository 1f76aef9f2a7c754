-- ===== src/Ext2/Content/Reading.antt =====
-- read_inode_bytes of fs/ext2.c against the bytes of a file.
use whirliscope.Prelude.{
  ℕ, zero, suc, ◌+◌, ◌-◌, ◌*◌, ◌/◌, ◌%◌, ◌^◌, ◌≤◌, ◌<◌, ◌≡◌, ◌≢◌, refl, sym, ap, ◌∙◌, subst, true,
  false, ◌||◌, Option, some, ltb, ◌==◌, if◌then◌else◌, arith, Bool-cases, inl, inr,
}
use whirliscope.Libc.Memory.{Memory, within}
use whirliscope.Ext2.Inode.{Inode}
use whirliscope.Ext2.Inode
use whirliscope.Ext2.Image.{Ext2, image_range_valid, image_ptr, block_ptr}
use whirliscope.Ext2.Blocks.{block_id_at}
use whirliscope.Ext2.Content.{fill_bytes, put_bytes, chunk_of, read_loop, read_inode_bytes}

-- The block that holds the byte number `p` of a file; 0 stands for a hole.
abbrev pub block_of : Inode → Ext2 → ℕ → ℕ
block_of inode fs p = block_id_at inode (p / fs.block_size % 2 ^ 32) fs

-- The byte number `p` of a file.
abbrev pub file_byte : Inode → Ext2 → ℕ → ℕ
file_byte inode fs p =
    if block_of inode fs p == 0
    then 0
    else fs.image (block_of inode fs p * fs.block_size + p % fs.block_size)

-- The blocks of the `len` bytes from number `p` on lie in the image, as far as they are not holes.
abbrev pub IsBacked : Inode → Ext2 → (p len : ℕ) → Type 0
IsBacked inode fs p len =
    (i : ℕ)
    → i < len
    → block_of inode fs (p + i) ≢ 0
    → block_of inode fs (p + i) * fs.block_size + fs.block_size ≤ fs.fs_size

same_block : (p d bs : ℕ) → p % bs + d < bs → ((p + d) / bs ≡ p / bs) × ((p + d) % bs ≡ p % bs + d)
same_block p d bs h = grind arith

chunk_bounds :
    (bs p left : ℕ)
    → 0 < bs
    → 0 < left
    → (0 < chunk_of bs p left) × (chunk_of bs p left ≤ left) × (p % bs + chunk_of bs p left ≤ bs)
chunk_bounds bs p left positive some_left = grind arith

block_ptr-some :
    (block offset len : ℕ) (fs : Ext2)
    → offset + len ≤ fs.block_size
    → block * fs.block_size + fs.block_size ≤ fs.fs_size
    → block_ptr block offset len fs ≡ some (block * fs.block_size + offset)
unfolding block_ptr image_ptr image_range_valid
block_ptr-some block offset len fs fits backed = ground arith

IsBacked-later :
    (inode : Inode) (fs : Ext2) (offset copied c left : ℕ)
    → c ≤ left
    → IsBacked inode fs (offset + copied) left
    → IsBacked inode fs (offset + (copied + c)) (left - c)
IsBacked-later inode fs offset copied c left le h i small =
    let e : offset + copied + (c + i) ≡ offset + (copied + c) + i = omega arith in
    subst
      (λ p.
        block_of inode fs p ≢ 0 → block_of inode fs p * fs.block_size + fs.block_size ≤ fs.fs_size)
      e (h (c + i) (omega arith))

IsBacked-first :
    (inode : Inode) (fs : Ext2) (p left : ℕ)
    → IsBacked inode fs p left
    → 0 < left
    → (block_of inode fs p == 0) ≡ false
    → block_of inode fs p * fs.block_size + fs.block_size ≤ fs.fs_size
IsBacked-first inode fs p left h some_left block =
    let e : p + 0 ≡ p = omega arith in
    subst
      (λ q.
        block_of inode fs q ≢ 0 → block_of inode fs q * fs.block_size + fs.block_size ≤ fs.fs_size)
      e (h 0 some_left) (λ z. absurd (ground arith))

-- The bytes of one round, and those of the rounds behind it.
rounds_joined :
    (copied c left i byte x old : ℕ)
    → c ≤ left
    → (copied ≤ i → i < copied + c → x ≡ byte)
    → (if within (copied + c) (left - c) i then byte else if within copied c i then x else old)
      ≡ (if within copied left i then byte else old)
rounds_joined copied c left i byte x old le h = ground arith

file_byte-chunk :
    (inode : Inode) (fs : Ext2) (p d : ℕ)
    → p % fs.block_size + d < fs.block_size
    → file_byte inode fs (p + d) ≡ (
        if block_of inode fs p == 0
        then 0
        else fs.image (block_of inode fs p * fs.block_size + (p % fs.block_size + d)))
file_byte-chunk inode fs p d h = let (e, f) = same_block p d fs.block_size h in rw (e, f)

-- The place in a file of the place `i` in the buffer.
placed : (offset copied i : ℕ) → copied ≤ i → offset + copied + (i - copied) ≡ offset + i
placed offset copied i h = omega arith

hole_byte :
    (inode : Inode) (fs : Ext2) (offset copied c i : ℕ)
    → (block_of inode fs (offset + copied) == 0) ≡ true
    → (offset + copied) % fs.block_size + c ≤ fs.block_size
    → copied ≤ i
    → i < copied + c
    → 0 ≡ file_byte inode fs (offset + i)
hole_byte inode fs offset copied c i e fits low high =
    subst (λ p. 0 ≡ file_byte inode fs p) (placed offset copied i low)
      (sym (file_byte-chunk inode fs (offset + copied) (i - copied) (omega arith) ∙ rw e))

block_byte :
    (inode : Inode) (fs : Ext2) (offset copied c i : ℕ)
    → (block_of inode fs (offset + copied) == 0) ≡ false
    → (offset + copied) % fs.block_size + c ≤ fs.block_size
    → copied ≤ i
    → i < copied + c
    → fs.image (
        block_of inode fs (offset + copied) * fs.block_size
        + (offset + copied) % fs.block_size
        + (i - copied))
      ≡ file_byte inode fs (offset + i)
block_byte inode fs offset copied c i e fits low high =
    let b = block_of inode fs (offset + copied) * fs.block_size in
    let o = (offset + copied) % fs.block_size in
    let same : b + o + (i - copied) ≡ b + (o + (i - copied)) = omega arith in
    ap fs.image same
    ∙ subst (λ p. fs.image (b + (o + (i - copied))) ≡ file_byte inode fs p)
        (placed offset copied i low)
        (sym (file_byte-chunk inode fs (offset + copied) (i - copied) (omega arith) ∙ rw e))

-- The loop ends with the buffer `out`, in which `left` bytes of the file stand from `copied` on.
Reads : (r : Option Memory) → (left copied offset : ℕ) → Inode → Ext2 → Memory → Type 0
Reads r left copied offset inode fs out =
    (b : Memory) × (r ≡ some b)
    × ((i : ℕ) → b i ≡ (if within copied left i then file_byte inode fs (offset + i) else out i))

Reads-later :
    (r : Option Memory) (left copied offset c : ℕ) (inode : Inode) (fs : Ext2) (out round : Memory)
    (x : ℕ → ℕ)
    → c ≤ left
    → ((i : ℕ) → round i ≡ (if within copied c i then x i else out i))
    → ((i : ℕ) → copied ≤ i → i < copied + c → x i ≡ file_byte inode fs (offset + i))
    → Reads r (left - c) (copied + c) offset inode fs round
    → Reads r left copied offset inode fs out
unfolding Reads
Reads-later r left copied offset c inode fs out round x le filled bytes (b, e, h) = (
  b,
  e,
  λ i.
      h i
      ∙ ap (λ y. if within (copied + c) (left - c) i then file_byte inode fs (offset + i) else y)
          (filled i)
      ∙ rounds_joined copied c left i (file_byte inode fs (offset + i)) (x i) (out i) le (bytes i),
)

Reads-nothing :
    (left copied offset : ℕ) (inode : Inode) (fs : Ext2) (out : Memory)
    → left ≡ 0
    → Reads (some out) left copied offset inode fs out
unfolding Reads
Reads-nothing left copied offset inode fs out e =
    (out, refl, λ i. nothing left copied i (file_byte inode fs (offset + i)) (out i) e)
  where
    nothing :
        (left copied i byte old : ℕ) → left ≡ 0 → old ≡ (if within copied left i then byte else old)
    nothing left copied i byte old e = ground arith

read_loop-Reads :
    (k left copied offset : ℕ) (inode : Inode) (fs : Ext2) (out : Memory)
    → 0 < fs.block_size
    → left ≤ k
    → IsBacked inode fs (offset + copied) left
    → Reads (read_loop k left copied offset inode fs out) left copied offset inode fs out
unfolding read_loop
read_loop-Reads zero left copied offset inode fs out positive enough backed =
    let e : (left == 0) ≡ true = ground arith in
    rw e (Reads-nothing left copied offset inode fs out (omega arith))
read_loop-Reads (suc k) left copied offset inode fs out positive enough backed =
    let p = offset + copied in
    let c = chunk_of fs.block_size p left in
    elim (Bool-cases (left == 0)) [
      | inl e ↦ rw e (Reads-nothing left copied offset inode fs out (ground arith))
      | inr e ↦
          let (some_bytes, le, fits) = chunk_bounds fs.block_size p left positive (ground arith) in
          let later = IsBacked-later inode fs offset copied c left le backed in
          elim (Bool-cases (block_of inode fs p == 0)) [
            | inl hole ↦
                rw (e, hole)
                  (Reads-later _ left copied offset c inode fs out (fill_bytes copied c out)
                    (λ i. 0) le (λ i. refl)
                    (λ i low high. hole_byte inode fs offset copied c i hole fits low high)
                    (read_loop-Reads k (left - c) (copied + c) offset inode fs _ positive
                      (omega arith) later))
            | inr block ↦
                let found =
                  block_ptr-some (block_of inode fs p) (p % fs.block_size) c fs fits
                    (IsBacked-first inode fs p left backed (ground arith) block) in
                let src = block_of inode fs p * fs.block_size + p % fs.block_size in
                rw (e, block, found)
                  (Reads-later _ left copied offset c inode fs out
                    (put_bytes copied src c fs.image out) (λ i. fs.image (src + (i - copied))) le
                    (λ i. refl)
                    (λ i low high. block_byte inode fs offset copied c i block fits low high)
                    (read_loop-Reads k (left - c) (copied + c) offset inode fs _ positive
                      (omega arith) later))
          ]
    ]

-- A read inside the size of a file whose blocks lie in the image fills the buffer with the bytes of
-- the file, noughts for its holes, and leaves the rest of the buffer alone.
pub read_inode_bytes-file_byte :
    (offset len : ℕ) (inode : Inode) (fs : Ext2) (out : Memory)
    → 0 < fs.block_size
    → offset + len ≤ Inode.size inode
    → IsBacked inode fs offset len
    → (b : Memory) × (read_inode_bytes offset len inode fs out ≡ some b)
      × ((i : ℕ) → b i ≡ (if ltb i len then file_byte inode fs (offset + i) else out i))
unfolding read_inode_bytes Reads
read_inode_bytes-file_byte offset len inode fs out positive inside backed =
    let start : offset + 0 ≡ offset = omega arith in
    let (b, e, h) =
      read_loop-Reads len len 0 offset inode fs out positive (omega arith)
        (subst (λ p. IsBacked inode fs p len) (sym start) backed) in
    (
      b,
      rw (in_size (Inode.size inode) offset len inside) e,
      λ i. h i ∙ from_zero len i (file_byte inode fs (offset + i)) (out i),
    )
  where
    in_size :
        (size offset len : ℕ)
        → offset + len ≤ size
        → (ltb size offset || ltb (size - offset) len) ≡ false
    in_size size offset len h = ground arith

    from_zero :
        (len i byte old : ℕ)
        → (if within 0 len i then byte else old) ≡ (if ltb i len then byte else old)
    from_zero len i byte old = ground arith
