-- ===== src/Kheap/Expand/Wrap.antt =====
-- expand_heap of memory/heap.c on sizes near the limit of size_t.
use whirliscope.Prelude.{
  ℕ, ◌+◌, ◌-◌, ◌^◌, ◌≤◌, ◌<◌, ◌≡◌, refl, sym, ap, subst, Bool, true, false, not, ◌&&◌, ◌||◌, ◌∙◌,
  ◌==◌, List, [], ◌∷◌, ◌++◌, arith, add64, sub64, align_up,
}
use whirliscope.Kheap.Blocks.{
  kheap_chunk_size, heap_magic, null, Links, HeapBlock, put, append_block,
}
use whirliscope.Kheap.Blocks.Layout.{Cell, cell, end_of, IsLayout, last_of-lt}
use whirliscope.Kheap.Blocks.Append.{append_block-IsLayout, append_block-prev, append_block-free}
use whirliscope.Kheap.Invariant.{IsHeap}
use whirliscope.Kheap.Expand.Grow.{put_at, fresh-IsLayout}
use whirliscope.Kheap.Expand.{PageOps, Heap, fresh_header, grow, map_pages, expand_heap}

no_chunks :
    (size : ℕ)
    → 2 ^ 64 ≤ size + 32 + 65535
    → size + 32 ≤ 2 ^ 64
    → align_up (add64 size 32) kheap_chunk_size ≡ 0
no_chunks size low high = omega arith

same_end : (a : ℕ) → a < 2 ^ 64 → add64 a 0 ≡ a
same_end a h = omega arith

-- A header of no bytes behind the blocks.
empty-append :
    (l : Links) (start p : ℕ) (xs : List Cell)
    → 0 < start
    → p ≡ end_of start xs
    → IsLayout l start xs
    → IsLayout (append_block p (fresh_header p 0 l)) start (xs ++ cell (2 ^ 64 - 32) true ∷ [])
empty-append l start p xs pos e v =
    let a = end_of start xs in
    let fresh : HeapBlock = record (l.block a) {
      magic = heap_magic;
      free = true;
      size = sub64 0 32;
    } in
    let at = put_at l.block a fresh in
    subst
      (λ q.
        IsLayout (append_block q (fresh_header q 0 l)) start (xs ++ cell (2 ^ 64 - 32) true ∷ []))
      (sym e)
      (append_block-IsLayout (fresh_header a 0 l) start xs (cell (2 ^ 64 - 32) true) pos
        (fresh-IsLayout l start xs fresh v) (ap HeapBlock.magic at) (ap HeapBlock.free at)
        (ap HeapBlock.size at))

last_below : {P : Type 0} (h : Heap P) (xs : List Cell) → IsHeap h xs → h.last_block < h.heap_end
last_below h [] v = omega (arith, v.layout.last, v.start, v.ends)
last_below h (c ∷ xs) v = omega (arith, v.layout.last, v.ends, last_of-lt null h.heap_start c xs)

in_use :
    (last : ℕ) (free : Bool) → (last == 0 || not free) ≡ true → (not (last == null) && free) ≡ false
in_use last true e = ground arith
in_use last false e = ground arith

put_other : (b : ℕ → HeapBlock) (p q : ℕ) (v : HeapBlock) → q < p → (put b p v q).free ≡ (b q).free
put_other b p q v low = ground arith

-- Without bytes, and behind a block in use, grow does nothing but link that header.
grow-wraps :
    {P : Type 0} (h : Heap P) (xs : List Cell)
    → IsHeap h xs
    → (h.last_block == 0 || not (h.block h.last_block).free) ≡ true
    → let r = grow 0 h in
      (r.pages ≡ h.pages)
      × (r.heap_end ≡ h.heap_end)
      × (r.mapped_bytes ≡ h.mapped_bytes)
      × IsLayout r.links h.heap_start (xs ++ cell (2 ^ 64 - 32) true ∷ [])
unfolding grow
grow-wraps h xs v busy =
    let p = h.heap_end in
    let fresh = fresh_header p 0 h.links in
    let low : h.last_block < p = last_below h xs v in
    let before = append_block-prev p fresh low in
    let kept = append_block-free p fresh low ∙ put_other h.block p h.last_block _ low in
    (
      refl,
      omega arith,
      omega arith,
      rw (before, kept, in_use h.last_block (h.block h.last_block).free busy)
          (empty-append h.links h.heap_start p xs (omega (arith, v.start)) v.ends v.layout),
    )

expand_heap-grow :
    {P : Type 0} (ops : PageOps P) (size : ℕ) (h : Heap P) (xs : List Cell)
    → IsHeap h xs
    → 2 ^ 64 ≤ size + 32 + 65535
    → size + 32 ≤ 2 ^ 64
    → expand_heap ops size h ≡ (true, grow 0 h)
unfolding expand_heap map_pages
expand_heap-grow ops size h xs v low high =
    rw (no_chunks size low high, same_end h.heap_end (omega (arith, v.limit, v.start)))
      (ground (arith, v.limit))

-- For the 65,536 sizes below 2 ^ 64 - 31 the rounding in expand_heap wraps to no bytes at all. In a
-- well-formed heap that has no blocks or whose last block is in use, the call reports success: no
-- page is taken and neither the end nor the count of mapped bytes moves, and yet a free block of
-- 2 ^ 64 - 32 bytes is linked behind the others, with its header past the mapped range.
pub expand_heap-wraps :
    {P : Type 0} (ops : PageOps P) (size : ℕ) (h : Heap P) (xs : List Cell)
    → IsHeap h xs
    → (h.last_block == 0 || not (h.block h.last_block).free) ≡ true
    → 2 ^ 64 ≤ size + 32 + 65535
    → size + 32 ≤ 2 ^ 64
    → let r = expand_heap ops size h in
      (r.0 ≡ true)
      × (r.1.pages ≡ h.pages)
      × (r.1.heap_end ≡ h.heap_end)
      × (r.1.mapped_bytes ≡ h.mapped_bytes)
      × IsLayout r.1.links h.heap_start (xs ++ cell (2 ^ 64 - 32) true ∷ [])
expand_heap-wraps ops size h xs v busy low high =
    let (pages, end, mapped, layout) = grow-wraps h xs v busy in
    rw (expand_heap-grow ops size h xs v low high) (refl, pages, end, mapped, layout)
