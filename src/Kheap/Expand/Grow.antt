-- ===== src/Kheap/Expand/Grow.antt =====
-- expand_heap of memory/heap.c on the list of blocks.
use whirliscope.Prelude.{
  ℕ, ◌+◌, ◌-◌, ◌%◌, ◌^◌, ◌≤◌, ◌<◌, ◌≡◌, refl, sym, ap, ◌∙◌, subst, inl, inr, Bool, true, false,
  ◌||◌, List, [], ◌∷◌, ◌++◌, arith, ltb, if◌then◌else◌, Bool-cases, add64, sub64, align_up,
}
use whirliscope.Kheap.Blocks.{
  kheap_base, kheap_max_size, kheap_chunk_size, heap_magic, null, Links, HeapBlock, put,
  append_block,
}
use whirliscope.Kheap.Blocks.Layout.{Cell, cell, end_of, IsLayout, frame, end_of-append}
use whirliscope.Kheap.Blocks.Append.{append_block-IsLayout}
use whirliscope.Kheap.Cells.{used_bytes, used_bytes-append}
use whirliscope.Kheap.Invariant.{IsHeap}
use whirliscope.Kheap.Joined.{IsJoined}
use whirliscope.Kheap.Join.{join_before, Rejoined, join_before-Rejoined}
use whirliscope.Kheap.Expand.{PageOps, Heap, fresh_header, grow, expand_heap}

pub put_at : (b : ℕ → HeapBlock) (a : ℕ) (v : HeapBlock) → put b a v a ≡ v
put_at b a v = ground arith

put_below : (b : ℕ → HeapBlock) (a q : ℕ) (v : HeapBlock) → q < a → put b a v q ≡ b q
put_below b a q v lt = ground arith

-- A header behind the blocks is not one of theirs.
pub fresh-IsLayout :
    (l : Links) (start : ℕ) (xs : List Cell) (v : HeapBlock)
    → IsLayout l start xs
    → IsLayout (record l { block = put l.block (end_of start xs) v }) start xs
fresh-IsLayout l start xs v w = record {
  first = w.first;
  last = w.last;
  seg =
      frame l.block _ null start null xs (λ q lo hi. put_below l.block (end_of start xs) q v hi)
        w.seg;
}

-- The new block stands behind the others.
fresh-append :
    (l : Links) (start bytes p : ℕ) (xs : List Cell)
    → 0 < start
    → 32 ≤ bytes
    → bytes < 2 ^ 64
    → p ≡ end_of start xs
    → IsLayout l start xs
    → IsLayout (append_block p (fresh_header p bytes l)) start (xs ++ cell (bytes - 32) true ∷ [])
fresh-append l start bytes p xs pos big small e v =
    let a = end_of start xs in
    let fresh : HeapBlock = record (l.block a) {
      magic = heap_magic;
      free = true;
      size = sub64 bytes 32;
    } in
    let at = put_at l.block a fresh in
    subst
      (λ q.
        IsLayout (append_block q (fresh_header q bytes l)) start
          (xs ++ cell (bytes - 32) true ∷ []))
      (sym e)
      (append_block-IsLayout (fresh_header a bytes l) start xs (cell (bytes - 32) true) pos
        (fresh-IsLayout l start xs fresh v) (ap HeapBlock.magic at) (ap HeapBlock.free at)
        (ap HeapBlock.size at ∙ omega arith))

module _ {P : Type 0} (bytes : ℕ) (h : Heap P) (xs : List Cell) (v : IsHeap h xs) (big : 32 ≤ bytes)
    (unit : bytes % 16 ≡ 0) (room : h.heap_end + bytes ≤ h.heap_start + kheap_max_size) where
  abbrev start : ℕ
  start = h.heap_start

  abbrev whole : List Cell
  whole = xs ++ cell (bytes - 32) true ∷ []

  whole_end : end_of start whole ≡ h.heap_end + bytes
  whole_end = omega (arith, end_of-append start xs (cell (bytes - 32) true ∷ []), v.ends)

  grow-Rejoined : Rejoined (grow bytes h).links start whole
  unfolding grow
  grow-Rejoined =
      let l =
        fresh-append h.links start bytes h.heap_end xs (omega (arith, v.start)) big
          (omega (arith, v.start)) v.ends v.layout in
      subst
        (λ q.
          Rejoined (join_before q (append_block h.heap_end (fresh_header h.heap_end bytes h.links)))
            start whole)
        (sym v.ends)
        (join_before-Rejoined _ start xs (cell (bytes - 32) true) [] (omega (arith, v.start))
          (omega (arith, whole_end, v.start)) l v.sound (omega arith) refl tt)

  -- Growing by mapped bytes adds one free block, or lengthens the last one if that is free.
  pub grow-IsHeap : (xs' : List Cell) × IsHeap (grow bytes h) xs' × IsJoined start whole xs'
  unfolding grow used_bytes
  grow-IsHeap =
      let (xs', l, j, s) = grow-Rejoined in
      let used = used_bytes-append xs (cell (bytes - 32) true ∷ []) in
      (
        xs',
        record {
          ready = v.ready;
          start = v.start;
          layout = l;
          ends = omega (arith, whole_end, j.ends);
          limit = room;
          mapped = omega (arith, v.mapped);
          allocated = omega (arith, v.allocated, j.used, used);
          sound = s;
        },
        j,
      )

pub IsHeap-pages :
    {P : Type 0} (h : Heap P) (xs : List Cell) (s : P)
    → IsHeap h xs
    → IsHeap (record h { pages = s }) xs
IsHeap-pages h xs s v = record {
  ready = v.ready;
  start = v.start;
  layout = v.layout;
  ends = v.ends;
  limit = v.limit;
  mapped = v.mapped;
  allocated = v.allocated;
  sound = v.sound;
}

-- A growth fails, with the blocks as they were, or adds room for a block of `size` bytes.
pub data Expanded {P : Type 0} (h : Heap P) (size : ℕ) : Bool × Heap P → Type 0 where
  refused : (s : P) → Expanded h size (false, record h { pages = s })
  grown :
      (s : P) (bytes : ℕ)
      → size + 32 ≤ bytes
      → bytes % 16 ≡ 0
      → h.heap_end + bytes ≤ h.heap_start + kheap_max_size
      → Expanded h size (true, grow bytes (record h { pages = s }))

abbrev chunks : ℕ → ℕ
chunks size = align_up (add64 size 32) kheap_chunk_size

chunks_bounds :
    (size : ℕ)
    → size + 32 + 65536 ≤ 2 ^ 64
    → (size + 32 ≤ chunks size) × (chunks size % 16 ≡ 0) × (chunks size < 2 ^ 64)
chunks_bounds size h = omega arith

room_left :
    (a b s : ℕ)
    → b < 2 ^ 64
    → s ≡ kheap_base
    → a ≤ s + kheap_max_size
    → (ltb (add64 a b) a || ltb (s + kheap_max_size) (add64 a b)) ≡ false
    → a + b ≤ s + kheap_max_size
room_left a b s small e le h = ground arith

mapped-Expanded :
    {P : Type 0} (h : Heap P) (size : ℕ) (r : Bool × P)
    → size + 32 ≤ chunks size
    → chunks size % 16 ≡ 0
    → h.heap_end + chunks size ≤ h.heap_start + kheap_max_size
    → Expanded h size (
        if r.0
        then (true, grow (chunks size) (record h { pages = r.1 }))
        else (false, record h { pages = r.1 }))
mapped-Expanded h size (true, s) big unit room = grown s (chunks size) big unit room
mapped-Expanded h size (false, s) big unit room = refused s

-- expand_heap, for a size that is not within 65,568 bytes of the word's limit, fails and leaves all
-- blocks as they are, or adds at the end of the heap at least that many bytes and a header, within
-- the limit of 64 MiB.
pub expand_heap-Expanded :
    {P : Type 0} (ops : PageOps P) (size : ℕ) (h : Heap P) (xs : List Cell)
    → IsHeap h xs
    → size + 32 + kheap_chunk_size ≤ 2 ^ 64
    → Expanded h size (expand_heap ops size h)
unfolding expand_heap
expand_heap-Expanded ops size h xs v small =
    let over =
      ltb (add64 h.heap_end (chunks size)) h.heap_end
      || ltb (h.heap_start + kheap_max_size) (add64 h.heap_end (chunks size)) in
    let (big, unit, low) = chunks_bounds size small in
    elim (Bool-cases over) [
      | inl e ↦ rw e (refused h.pages)
      | inr e ↦ rw e (
          mapped-Expanded h size _ big unit
            (room_left h.heap_end (chunks size) h.heap_start low v.start v.limit e))
    ]
