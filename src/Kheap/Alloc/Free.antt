-- ===== src/Kheap/Alloc/Free.antt =====
-- kfree of memory/heap.c on the list of blocks.
use whirliscope.Prelude.{
  ℕ, ◌+◌, ◌%◌, ◌^◌, ◌<◌, ◌≡◌, refl, sym, ap, ap₂, ◌∙◌, subst, true, false, List, ◌∷◌, ◌++◌, arith,
}
use whirliscope.Kheap.Blocks.{kheap_base, heap_magic, returned, payload_block}
use whirliscope.Kheap.Blocks.Layout.{Cell, cell, end_of, IsLayout, end_of-append, tail-Seg}
use whirliscope.Kheap.Blocks.Coalesce.{coalesce-IsLayout}
use whirliscope.Kheap.Blocks.Mark.{mark, mark-IsLayout}
use whirliscope.Kheap.Cells.{
  used_bytes, used_bytes-append, used_bytes-le, allocations, allocations-append, locate, Sound,
  Sound-split, Sound-merge, Sound-weaken,
}
use whirliscope.Kheap.Joined.{IsJoined, IsJoined-trans, IsJoined-append, IsJoined-merge, merge-cons}
use whirliscope.Kheap.Invariant.{IsHeap}
use whirliscope.Kheap.Expand.{Heap}
use whirliscope.Kheap.Join.{Rejoined, Sound-set, join_before-Rejoined}
use whirliscope.Kheap.Alloc.{release_block, kfree}

module _ {P : Type 0} (h : Heap P) (ys : List Cell) (c : Cell) (zs : List Cell)
    (v : IsHeap h (ys ++ c ∷ zs)) (busy : c.free ≡ false) where
  abbrev start : ℕ
  start = h.heap_start

  abbrev p : ℕ
  p = end_of start ys

  abbrev c' : Cell
  c' = cell c.size true

  bound : end_of start (ys ++ c' ∷ zs) < 2 ^ 64
  bound = omega (
    arith,
    v.limit,
    v.start,
    v.ends,
    end_of-append start ys (c ∷ zs),
    end_of-append start ys (c' ∷ zs),
  )

  Sound-parts : Sound false ys × (c.size % 16 ≡ 0) × Sound false zs
  Sound-parts =
      let (s, t) = Sound-split false ys (c ∷ zs) v.sound in (s, t.0, Sound-weaken c.free zs t.2)

  pos : 0 < start
  pos = omega (arith, v.start)

  release_links : Rejoined (release_block p h).links start (ys ++ c' ∷ zs)
  unfolding release_block
  release_links =
      let v1 = mark-IsLayout h.links start true ys c zs v.layout in
      let v2 = coalesce-IsLayout (mark p true h.links) start ys c' zs bound v1 in
      let s = Sound-parts in
      let j = IsJoined-append start ys (IsJoined-merge p c' zs refl) in
      let (m, ws, e, f) = merge-cons c' zs in
      let t = subst (Sound false) e (Sound-merge c' zs refl s.1 s.2) in
      let e' = ap (λ l. ys ++ l) e in
      let (xs', v3, j', s') =
        join_before-Rejoined _ start ys m ws pos
          (omega (arith, bound, j.ends, ap (end_of start) e')) (subst (IsLayout _ start) e' v2) s.0
          t.0 f (Sound-set ws f t.2) in
      (xs', v3, IsJoined-trans j (subst (λ l. IsJoined start l xs') (sym e') j'), s')

  used : used_bytes (ys ++ c' ∷ zs) + c.size ≡ h.allocated_bytes
  unfolding used_bytes
  used =
      let e : used_bytes (c ∷ zs) ≡ c.size + used_bytes zs = ground arith in
      omega (arith, v.allocated, used_bytes-append ys (c ∷ zs), used_bytes-append ys (c' ∷ zs), e)

  taken :
      allocations start (ys ++ c' ∷ zs) ≡ allocations start ys ++ allocations (p + 32 + c.size) zs
  taken = allocations-append start ys (c' ∷ zs)

  -- What the block list is after kfree, and that it no longer has the freed block in use.
  pub release_block-IsHeap :
      (xs' : List Cell) × IsHeap (release_block p h) xs'
      × (allocations start xs' ≡ allocations start ys ++ allocations (p + 32 + c.size) zs)
  unfolding release_block
  release_block-IsHeap =
      let (xs', l, j, s) = release_links in
      let size : (h.block p).size ≡ c.size = (tail-Seg ys (c ∷ zs) v.layout).0.size in
      let same = end_of-append start ys (c ∷ zs) ∙ sym (end_of-append start ys (c' ∷ zs)) in
      let fit = used_bytes-le start (ys ++ c' ∷ zs) in
      (
        xs',
        record {
          ready = v.ready;
          start = v.start;
          layout = l;
          ends = v.ends ∙ same ∙ sym j.ends;
          limit = v.limit;
          mapped = v.mapped;
          allocated = rw size (omega (arith, used, j.used, fit, bound));
          sound = s;
        },
        j.taken ∙ taken,
      )

kfree-returns :
    {P : Type 0} (h : Heap P) (p : ℕ)
    → (h.block p).magic ≡ heap_magic
    → (h.block p).free ≡ false
    → kfree (p + 32) h ≡ returned (release_block p h)
unfolding kfree
kfree-returns h p m f = let e : payload_block (p + 32) ≡ p = omega arith in rw e (ground arith)

-- The state after kfree: without the block at `ptr`, and otherwise with the same blocks in use.
pub record IsFreed {P : Type 0} (before after : List (ℕ × ℕ)) (ptr : ℕ) (h : Heap P) : Type 0 where
  pub h' : Heap P
  pub xs' : List Cell
  pub returns : kfree ptr h ≡ returned h'
  pub valid : IsHeap h' xs'
  pub taken : allocations kheap_base xs' ≡ before ++ after

-- kfree of a pointer to a block in use passes its assertions and returns. The heap is well formed
-- again, and the blocks in use are the others, at their addresses and with their sizes.
pub kfree-IsFreed :
    {P : Type 0} (h : Heap P) (xs : List Cell) (before after : List (ℕ × ℕ)) (ptr n : ℕ)
    → IsHeap h xs
    → allocations kheap_base xs ≡ before ++ (ptr, n) ∷ after
    → IsFreed before after ptr h
kfree-IsFreed h xs before after ptr n v e =
    let l = locate kheap_base xs before after ptr n e in
    let w = subst (IsHeap h) l.whole v in
    let (xs', valid, taken) = release_block-IsHeap h l.ys l.c l.zs w l.busy in
    let p = end_of h.heap_start l.ys in
    let s = (tail-Seg l.ys (l.c ∷ l.zs) w.layout).0 in
    let at : p + 32 ≡ ptr = rw v.start (sym l.at) in
    record {
      h' = release_block p h;
      xs' = xs';
      returns =
          subst (λ q. kfree q h ≡ returned (release_block p h)) at
            (kfree-returns h p s.magic (s.free ∙ l.busy));
      valid = valid;
      taken = (rw v.start at taken) ∙ ap₂ ◌++◌ l.front l.back;
    }
