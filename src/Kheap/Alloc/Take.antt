-- ===== src/Kheap/Alloc/Take.antt =====
-- The end of kmalloc in memory/heap.c: a free block is cut and marked as in use.
use whirliscope.Prelude.{
  ℕ, ◌+◌, ◌-◌, ◌%◌, ◌≤◌, ◌<◌, ◌≡◌, refl, sym, ap, ◌∙◌, subst, inl, inr, Bool, true, false, ◌&&◌,
  List, ◌∷◌, ◌++◌, arith, ltb, Bool-cases,
}
use whirliscope.Kheap.Blocks.{split_block, Links}
use whirliscope.Kheap.Blocks.Layout.{Cell, cell, end_of, IsLayout, end_of-append, tail-Seg}
use whirliscope.Kheap.Blocks.Split.{split_cells, split_block-IsLayout}
use whirliscope.Kheap.Blocks.Mark.{mark, mark-IsLayout}
use whirliscope.Kheap.Cells.{
  used_bytes, used_bytes-append, used_bytes-le, allocations, allocations-append, Sound, Sound-split,
  Sound-append, Sound-weaken, last_free,
}
use whirliscope.Kheap.Invariant.{IsHeap}
use whirliscope.Kheap.Expand.{Heap}
use whirliscope.Kheap.Alloc.{take_block}

-- The first of the blocks that a free block `c` is cut into holds `n` bytes or all of `c`.
record IsCut (a n : ℕ) (c : Cell) (zs : List Cell) (d : Cell) (ws : List Cell) : Type 0 where
  pub enough : n ≤ d.size
  pub most : d.size < n + 48
  pub unit : d.size % 16 ≡ 0
  pub idle : d.free ≡ true
  pub sound : Sound false ws
  pub ends : end_of (a + 32 + d.size) ws ≡ end_of (a + 32 + c.size) zs
  pub used : used_bytes ws ≡ used_bytes zs
  pub taken : allocations (a + 32 + d.size) ws ≡ allocations (a + 32 + c.size) zs

Cut-whole :
    (a n : ℕ) (c : Cell) (zs : List Cell)
    → n ≤ c.size
    → c.size < n + 48
    → c.size % 16 ≡ 0
    → c.free ≡ true
    → Sound false zs
    → IsCut a n c zs c zs
Cut-whole a n c zs le lt u f s = record {
  enough = le;
  most = lt;
  unit = u;
  idle = f;
  sound = s;
  ends = refl;
  used = refl;
  taken = refl;
}

Cut-part :
    (a n : ℕ) (c : Cell) (zs : List Cell)
    → n + 48 ≤ c.size
    → n % 16 ≡ 0
    → c.size % 16 ≡ 0
    → c.free ≡ true
    → Sound true zs
    → IsCut a n c zs (cell n c.free) (cell (c.size - n - 32) true ∷ zs)
unfolding used_bytes
Cut-part a n c zs le u w f s =
    let e : a + 32 + n + 32 + (c.size - n - 32) ≡ a + 32 + c.size = omega arith in
    record {
      enough = omega arith;
      most = omega arith;
      unit = u;
      idle = f;
      sound = (omega arith, refl, s);
      ends = ap (λ b. end_of b zs) e;
      used = omega arith;
      taken = ap (λ b. allocations b zs) e;
    }

Cut-split :
    (a n : ℕ) (c : Cell) (zs : List Cell)
    → n ≤ c.size
    → n % 16 ≡ 0
    → c.size % 16 ≡ 0
    → c.free ≡ true
    → Sound c.free zs
    → (d : Cell) × (ws : List Cell) × (split_cells n c zs ≡ d ∷ ws) × IsCut a n c zs d ws
unfolding split_cells
Cut-split a n c zs le u w f s = elim (Bool-cases (ltb c.size (n + 48))) [
  | inl lt ↦ (c, zs, rw lt, Cut-whole a n c zs le (ground arith) w f (Sound-weaken c.free zs s))
  | inr ge ↦ (
    cell n c.free,
    cell (c.size - n - 32) true ∷ zs,
    rw ge,
    Cut-part a n c zs (ground arith) u w f (subst (λ g. Sound g zs) f s),
  )
]

and_false : (b : Bool) → (b && false) ≡ false
and_false true = refl
and_false false = refl

-- The size of a header that was just marked.
marked_size : (l : Links) (p : ℕ) (f : Bool) → ((mark p f l).block p).size ≡ (l.block p).size
marked_size l p f = ground arith

module _ {P : Type 0} (h : Heap P) (n : ℕ) (ys : List Cell) (c : Cell) (zs : List Cell)
    (v : IsHeap h (ys ++ c ∷ zs)) (idle : c.free ≡ true) (le : n ≤ c.size) (unit : n % 16 ≡ 0) where
  abbrev start : ℕ
  start = h.heap_start

  abbrev p : ℕ
  p = end_of start ys

  parts : Sound false ys × Sound (last_free false ys) (c ∷ zs)
  parts = Sound-split false ys (c ∷ zs) v.sound

  -- `m` bytes of a free block are in use now, and all else is as it was.
  pub record IsTaken (m : ℕ) (xs' : List Cell) : Type 0 where
    pub enough : n ≤ m
    pub most : m < n + 48
    pub valid : IsHeap (take_block p n h) xs'
    pub taken :
        allocations start xs'
        ≡ allocations start ys ++ (p + 32, m) ∷ allocations (p + 32 + c.size) zs

  cut-IsTaken :
      (d : Cell) (ws : List Cell)
      → IsCut p n c zs d ws
      → IsLayout (split_block p n h.links) start (ys ++ d ∷ ws)
      → IsTaken d.size (ys ++ cell d.size false ∷ ws)
  unfolding take_block used_bytes
  cut-IsTaken d ws cut l =
      let d' = cell d.size false in
      let size : ((split_block p n h.links).block p).size ≡ d.size =
        (tail-Seg ys (d ∷ ws) l).0.size in
      let own = used_bytes-append ys (d' ∷ ws) in
      let old = used_bytes-append ys (c ∷ zs) in
      let none : used_bytes (c ∷ zs) ≡ used_bytes zs = ground arith in
      let ends =
        end_of-append start ys (d' ∷ ws) ∙ cut.ends ∙ sym (end_of-append start ys (c ∷ zs)) in
      let fit = used_bytes-le start (ys ++ d' ∷ ws) in
      record {
        enough = cut.enough;
        most = cut.most;
        valid = record {
          ready = v.ready;
          start = v.start;
          layout = mark-IsLayout (split_block p n h.links) start false ys d ws l;
          ends = v.ends ∙ sym ends;
          limit = v.limit;
          mapped = v.mapped;
          allocated =
              let m = marked_size (split_block p n h.links) p false ∙ size in
              omega (
                arith, m, own, old, none, fit, cut.used, v.allocated, v.limit, v.start, v.ends,
                ends,
              );
          sound =
              Sound-append false ys (d' ∷ ws) parts.0
                (cut.unit, and_false (last_free false ys), cut.sound);
        };
        taken =
            allocations-append start ys (d' ∷ ws)
            ∙ ap (λ t. allocations start ys ++ (p + 32, d.size) ∷ t) cut.taken;
      }

  pub take_block-IsTaken : (m : ℕ) × (xs' : List Cell) × IsTaken m xs'
  take_block-IsTaken =
      let (d, ws, e, cut) = Cut-split p n c zs le unit parts.1.0 idle parts.1.2 in
      let l =
        split_block-IsLayout h.links start n ys c zs (omega (arith, v.start))
          (omega (arith, v.ends, v.limit, v.start)) le v.layout in
      (
        d.size,
        ys ++ cell d.size false ∷ ws,
        cut-IsTaken d ws cut (subst (λ t. IsLayout (split_block p n h.links) start (ys ++ t)) e l),
      )
