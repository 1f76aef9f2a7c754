-- ===== src/Kheap/Alloc/Malloc.antt =====
-- kmalloc of memory/heap.c on the blocks in use.
use whirliscope.Prelude.{
  ℕ, ◌+◌, ◌-◌, ◌%◌, ◌^◌, ◌≤◌, ◌<◌, ◌≡◌, ◌⊎◌, refl, sym, ap, ◌∙◌, subst, inl, inr, Bool, true, false,
  List, [], ◌∷◌, ◌++◌, arith, align_up,
}
use mathlib.Core.List.{append-nil}
use whirliscope.Kheap.Blocks.{kheap_base, kheap_max_size, null, Outcome, returned, find_free_block}
use whirliscope.Kheap.Blocks.Layout.{Cell, cell, end_of, end_of-le}
use whirliscope.Kheap.Blocks.Find.{fits, NoneFits, Found, missing, found, find_free_block-Found}
use whirliscope.Kheap.Cells.{allocations, allocations-append}
use whirliscope.Kheap.Joined.{NoneFits-split}
use whirliscope.Kheap.Invariant.{IsHeap}
use whirliscope.Kheap.Expand.{PageOps, Heap, grow, expand_heap}
use whirliscope.Kheap.Expand.Grow.{
  Expanded, refused, grown, expand_heap-Expanded, IsHeap-pages, grow-IsHeap,
}
use whirliscope.Kheap.Alloc.{take_block, obtain_block, kmalloc}
use whirliscope.Kheap.Alloc.Take.{take_block-IsTaken}

-- A new block of `m` bytes at `ptr` joins the blocks in use; the others stay where they are.
pub record IsAdded {P : Type 0} (old : List (ℕ × ℕ)) (n ptr : ℕ) (h' : Heap P) : Type 0 where
  pub m : ℕ
  pub xs' : List Cell
  pub before : List (ℕ × ℕ)
  pub after : List (ℕ × ℕ)
  pub enough : n ≤ m
  pub most : m < n + 48
  pub valid : IsHeap h' xs'
  pub rest : before ++ after ≡ old
  pub taken : allocations kheap_base xs' ≡ before ++ (ptr, m) ∷ after

module _ {P : Type 0} (h : Heap P) (n : ℕ) (unit : n % 16 ≡ 0) where
  skip_free :
      (ys : List Cell) (c : Cell) (zs : List Cell)
      → c.free ≡ true
      → allocations h.heap_start ys ++ allocations (end_of h.heap_start ys + 32 + c.size) zs
        ≡ allocations h.heap_start (ys ++ c ∷ zs)
  skip_free ys c zs idle = sym (allocations-append h.heap_start ys (c ∷ zs) ∙ simp idle)

  taken-IsAdded :
      (ys : List Cell) (c : Cell) (zs : List Cell)
      → IsHeap h (ys ++ c ∷ zs)
      → fits n c ≡ true
      → IsAdded
          (allocations h.heap_start (ys ++ c ∷ zs))
          n
          (end_of h.heap_start ys + 32)
          (take_block (end_of h.heap_start ys) n h)
  taken-IsAdded ys c zs v fit =
      let idle : c.free ≡ true = ground arith in
      let (m, xs', t) = take_block-IsTaken h n ys c zs v idle (ground arith) unit in
      record {
        m = m;
        xs' = xs';
        before = allocations h.heap_start ys;
        after = allocations (end_of h.heap_start ys + 32 + c.size) zs;
        enough = t.enough;
        most = t.most;
        valid = t.valid;
        rest = skip_free ys c zs idle;
        taken = ap (λ b. allocations b xs') (sym v.start) ∙ t.taken;
      }

  -- The same for the block that a search came up with.
  Found-IsAdded :
      (xs : List Cell) (r : ℕ)
      → IsHeap h xs
      → Found h.heap_start n xs r
      → (NoneFits n xs × (r ≡ null))
        ⊎ (IsAdded (allocations h.heap_start xs) n (r + 32) (take_block r n h) × (0 < r))
  Found-IsAdded xs r v (missing none) = inl (none, refl)
  Found-IsAdded xs r v (found ys c zs e none fit) = inr (
    subst
        (λ l.
          IsAdded (allocations h.heap_start l) n (end_of h.heap_start ys + 32)
            (take_block (end_of h.heap_start ys) n h))
        (sym e) (taken-IsAdded ys c zs (subst (IsHeap h) e v) fit),
    omega (arith, end_of-le h.heap_start ys, v.start),
  )

  look_up :
      (xs : List Cell)
      → IsHeap h xs
      → (r : ℕ) × (find_free_block n h.links ≡ returned r) × Found h.heap_start n xs r
  look_up xs v =
      find_free_block-Found h.links h.heap_start n xs (omega (arith, v.start))
        (omega (arith, v.ends, v.limit)) v.layout

-- How the search for a block of `n` bytes ends, with one growth of the heap at most.
data Obtained {P : Type 0} (ops : PageOps P) (h : Heap P) (xs : List Cell) (n : ℕ)
    : Outcome (ℕ × Heap P) → Type 0 where
  nothing :
      (h' : Heap P)
      → IsHeap h' xs
      → NoneFits n xs
      → (expand_heap ops n h).0 ≡ false
      → Obtained ops h xs n (returned (null, h'))
  block :
      (h' : Heap P) (r : ℕ)
      → 0 < r
      → IsAdded (allocations kheap_base xs) n (r + 32) (take_block r n h')
      → Obtained ops h xs n (returned (r, h'))

large_fits : (n bytes : ℕ) → n + 32 ≤ bytes → fits n (cell (bytes - 32) true) ≡ false → ⊥
large_fits n bytes big e = ground arith

module _ {P : Type 0} (ops : PageOps P) (h : Heap P) (n : ℕ) where
  obtain_hit :
      (r : ℕ)
      → find_free_block n h.links ≡ returned r
      → 0 < r
      → obtain_block ops n h ≡ returned (r, h)
  unfolding obtain_block
  obtain_hit r e pos = ground arith

  obtain_miss :
      (h' : Heap P)
      → find_free_block n h.links ≡ returned null
      → expand_heap ops n h ≡ (false, h')
      → obtain_block ops n h ≡ returned (null, h')
  unfolding obtain_block
  obtain_miss h' e e' = rw (e, e')

  obtain_grown :
      (h' : Heap P) (q : ℕ)
      → find_free_block n h.links ≡ returned null
      → expand_heap ops n h ≡ (true, h')
      → find_free_block n h'.links ≡ returned q
      → obtain_block ops n h ≡ returned (q, h')
  unfolding obtain_block
  obtain_grown h' q e e' f = rw (e, e', f)

  module _ (xs : List Cell) (v : IsHeap h xs) (unit : n % 16 ≡ 0)
      (none : find_free_block n h.links ≡ returned null) (small : NoneFits n xs) where
    -- After a growth the search finds a block.
    grown-Obtained :
        (s : P) (bytes : ℕ)
        → n + 32 ≤ bytes
        → bytes % 16 ≡ 0
        → h.heap_end + bytes ≤ h.heap_start + kheap_max_size
        → expand_heap ops n h ≡ (true, grow bytes (record h { pages = s }))
        → Obtained ops h xs n (obtain_block ops n h)
    grown-Obtained s bytes big u room e =
        let h0 : Heap P = record h { pages = s } in
        let h1 = grow bytes h0 in
        let (xs', v', j) = grow-IsHeap bytes h0 xs (IsHeap-pages h xs s v) (omega arith) u room in
        let (q, f, answer) = look_up h1 n unit xs' v' in
        let same =
          ap (λ b. allocations b xs') (v'.start ∙ sym v.start)
          ∙ j.taken
          ∙ allocations-append h.heap_start xs (cell (bytes - 32) true ∷ [])
          ∙ append-nil (allocations h.heap_start xs)
          ∙ ap (λ b. allocations b xs) v.start in
        elim (Found-IsAdded h1 n unit xs' q v' answer) [
          | inl (no_fit, at) ↦ absurd (
              large_fits n bytes big
                (NoneFits-split n xs (cell (bytes - 32) true ∷ []) (j.smaller n no_fit)).1.0)
          | inr (a, pos) ↦
              subst (Obtained ops h xs n) (sym (obtain_grown h1 q none e f))
                (block h1 q pos (subst (λ l. IsAdded l n (q + 32) (take_block q n h1)) same a))
        ]

    after_growth :
        (r : Bool × Heap P)
        → Expanded h n r
        → expand_heap ops n h ≡ r
        → Obtained ops h xs n (obtain_block ops n h)
    after_growth r (refused s) e =
        subst (Obtained ops h xs n) (sym (obtain_miss _ none e))
          (nothing _ (IsHeap-pages h xs s v) small (ap (λ t. t.0) e))
    after_growth r (grown s bytes big u room) e = grown-Obtained s bytes big u room e

  obtain_block-Obtained :
      (xs : List Cell)
      → IsHeap h xs
      → n % 16 ≡ 0
      → n + 32 + 65536 ≤ 2 ^ 64
      → Obtained ops h xs n (obtain_block ops n h)
  obtain_block-Obtained xs v unit small =
      let (r, e, answer) = look_up h n unit xs v in
      elim (Found-IsAdded h n unit xs r v answer) [
        | inl (no_fit, at) ↦
            after_growth xs v unit (e ∙ ap returned at) no_fit _
              (expand_heap-Expanded ops n h xs v small) refl
        | inr (a, pos) ↦ subst (Obtained ops h xs n) (sym (obtain_hit r e pos)) (
            block h r pos
              (subst (λ b. IsAdded (allocations b xs) n (r + 32) (take_block r n h)) v.start a))
      ]

-- The outcome of kmalloc for `size` bytes over a heap of the blocks `xs`: NULL, with all blocks as
-- they were, where none is large enough and the heap cannot grow; or a new block in use.
pub data Allocated {P : Type 0} (ops : PageOps P) (h : Heap P) (xs : List Cell) (size : ℕ)
    : Outcome (ℕ × Heap P) → Type 0 where
  failed :
      (h' : Heap P)
      → IsHeap h' xs
      → NoneFits (align_up size 16) xs
      → (expand_heap ops (align_up size 16) h).0 ≡ false
      → Allocated ops h xs size (returned (null, h'))
  allocated :
      (h' : Heap P) (ptr : ℕ)
      → size ≤ align_up size 16
      → IsAdded (allocations kheap_base xs) (align_up size 16) ptr h'
      → 0 < ptr
      → Allocated ops h xs size (returned (ptr, h'))

module _ {P : Type 0} (ops : PageOps P) (h : Heap P) (size : ℕ) (ready : h.initialized ≡ true)
    (pos : 0 < size) where
  kmalloc_none :
      (h' : Heap P)
      → obtain_block ops (align_up size 16) h ≡ returned (null, h')
      → kmalloc ops size h ≡ returned (null, h')
  unfolding kmalloc
  kmalloc_none h' e = ground arith

  kmalloc_some :
      (h' : Heap P) (r : ℕ)
      → obtain_block ops (align_up size 16) h ≡ returned (r, h')
      → 0 < r
      → kmalloc ops size h ≡ returned (r + 32, take_block r (align_up size 16) h')
  unfolding kmalloc
  kmalloc_some h' r e p = ground arith

  finish :
      (xs : List Cell) (o : Outcome (ℕ × Heap P))
      → size ≤ align_up size 16
      → Obtained ops h xs (align_up size 16) o
      → obtain_block ops (align_up size 16) h ≡ o
      → Allocated ops h xs size (kmalloc ops size h)
  finish xs o le (nothing h' v none e') e =
      subst (Allocated ops h xs size) (sym (kmalloc_none h' e)) (failed h' v none e')
  finish xs o le (block h' r p a) e =
      subst (Allocated ops h xs size) (sym (kmalloc_some h' r e p))
        (allocated _ (r + 32) le a (omega arith))

align_up_unit :
    (size : ℕ)
    → size + 65600 ≤ 2 ^ 64
    → (size ≤ align_up size 16)
      × (align_up size 16 % 16 ≡ 0)
      × (align_up size 16 + 32 + 65536 ≤ 2 ^ 64)
align_up_unit size h = omega arith

-- kmalloc of a size that is not zero and not within 65,600 bytes of the word's limit returns. It
-- gives out a block of at least that many bytes, less than 48 bytes more than the size rounded up
-- to 16, leaves every other block in use where it is, and keeps the heap well formed; or it returns
-- NULL and leaves all blocks as they are, which it does only where no free block is large enough
-- and the heap cannot grow.
pub kmalloc-Allocated :
    {P : Type 0} (ops : PageOps P) (h : Heap P) (xs : List Cell) (size : ℕ)
    → IsHeap h xs
    → 0 < size
    → size + 65600 ≤ 2 ^ 64
    → Allocated ops h xs size (kmalloc ops size h)
kmalloc-Allocated ops h xs size v pos small =
    let (le, unit, low) = align_up_unit size small in
    finish ops h size v.ready pos xs _ le
      (obtain_block-Obtained ops h (align_up size 16) xs v unit low) refl
