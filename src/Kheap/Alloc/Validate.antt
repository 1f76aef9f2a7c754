-- ===== src/Kheap/Alloc/Validate.antt =====
-- kheap_validate and kheap_get_stats of memory/heap.c on the list of blocks.
use whirliscope.Prelude.{
  ℕ, zero, suc, ◌+◌, ◌*◌, ◌%◌, ◌^◌, ◌≤◌, ◌<◌, ◌≡◌, refl, ap, ◌∙◌, Bool, true, false, not, ◌&&◌,
  List, [], ◌∷◌, arith, ◌==◌, if◌then◌else◌, add64, length,
}
use whirliscope.Kheap.Blocks.{null, returned, max_blocks, Headers}
use whirliscope.Kheap.Blocks.Layout.{Cell, end_of, last_of, link, Seg, IsHeader, end_of-le}
use whirliscope.Kheap.Blocks.Find.{length-end_of}
use whirliscope.Kheap.Cells.{used_bytes, used_bytes-le, free_bytes, Sound, Sound-weaken}
use whirliscope.Kheap.Invariant.{IsHeap}
use whirliscope.Kheap.Expand.{Heap}
use whirliscope.Kheap.Alloc.{
  HeapStats, free_from, kheap_get_stats, well_formed, validate_from, kheap_validate,
}

-- The first block behind `c` is not free if `c` is.
abbrev next_idle : Headers → ℕ → List Cell → Bool
next_idle b a [] = false
next_idle b a (d ∷ xs) = d.free

idle_next :
    (f g : Bool) (a : ℕ) (b : Bool) → b ≡ g → (f && g) ≡ false → (f && not (a == null) && b) ≡ false
idle_next f g a b e h = ground arith

not_null : (a : ℕ) → 0 < a → (a == null) ≡ false
not_null a pos = ground arith

module _ {P : Type 0} (h : Heap P) where
  well_formed_lem :
      (a prev : ℕ) (c : Cell) (next : ℕ)
      → IsHeader h.block a c prev next
      → h.heap_start ≤ a
      → a + 32 + c.size ≤ h.heap_end
      → h.heap_end < 2 ^ 64
      → c.size % 16 ≡ 0
      → (c.free && not (next == null) && (h.block next).free) ≡ false
      → well_formed a prev h ≡ true
  unfolding well_formed
  well_formed_lem a prev c next s low high small u idle = ground arith

  well_formed-true :
      (a prev : ℕ) (c : Cell) (xs : List Cell)
      → h.heap_start ≤ a
      → a + 32 + c.size ≤ h.heap_end
      → h.heap_end < 2 ^ 64
      → Seg h.block prev a null (c ∷ xs)
      → Sound false (c ∷ xs)
      → well_formed a prev h ≡ true
  well_formed-true a prev c [] low high small s t =
      well_formed_lem a prev c null s.0 low high small t.0 (ground arith)
  well_formed-true a prev c (d ∷ xs) low high small s t =
      let e : (c.free && d.free) ≡ false = t.2.1 in
      well_formed_lem a prev c (a + 32 + c.size) s.0 low high small t.0
        (idle_next c.free d.free (a + 32 + c.size) _ s.1.0.free e)

  validate_step :
      (fuel a prev acc next : ℕ) (c : Cell)
      → 0 < a
      → IsHeader h.block a c prev next
      → well_formed a prev h ≡ true
      → validate_from (suc fuel) a prev acc h
        ≡ validate_from fuel next a (if c.free then acc else add64 acc c.size) h
  unfolding validate_from
  validate_step fuel a prev acc next c pos s good =
      rw (not_null a pos, good, s.next, s.free, s.size)

  -- The loop gets through the blocks `xs` at `a` and compares what it gathered.
  validate_from-true :
      (fuel a prev acc : ℕ) (xs : List Cell)
      → length xs < fuel
      → 0 < a
      → h.heap_start ≤ a
      → end_of a xs ≤ h.heap_end
      → h.heap_end < 2 ^ 64
      → Seg h.block prev a null xs
      → Sound false xs
      → acc + used_bytes xs < 2 ^ 64
      → h.last_block ≡ last_of prev a xs
      → h.allocated_bytes ≡ acc + used_bytes xs
      → validate_from fuel (link a null xs) prev acc h ≡ returned true
  unfolding validate_from used_bytes
  validate_from-true zero a prev acc xs enough pos low high small s t fit last sum =
      absurd (omega arith)
  validate_from-true (suc fuel) a prev acc [] enough pos low high small s t fit last sum =
      ground arith
  validate_from-true (suc fuel) a prev acc (c ∷ xs) enough pos low high small s t fit last sum =
      let top : a + 32 + c.size ≤ h.heap_end = omega (arith, end_of-le (a + 32 + c.size) xs) in
      let good = well_formed-true a prev c xs low top small s t in
      let more : ℕ = if c.free then 0 else c.size in
      let acc' : (if c.free then acc else add64 acc c.size) ≡ acc + more = ground arith in
      validate_step fuel a prev acc _ c pos s.0 good
      ∙ ap (λ n. validate_from fuel (link (a + 32 + c.size) null xs) a n h) acc'
      ∙ validate_from-true fuel (a + 32 + c.size) a (acc + more) xs (omega arith) (omega arith)
          (omega arith) high small s.1 (Sound-weaken c.free xs t.2) (omega arith) last (omega arith)

-- kheap_validate returns true on every well-formed heap.
pub kheap_validate-true :
    {P : Type 0} (h : Heap P) (xs : List Cell) → IsHeap h xs → kheap_validate h ≡ returned true
unfolding kheap_validate
kheap_validate-true h xs v =
    let fit = used_bytes-le h.heap_start xs in
    simp v.ready (
      ap (λ p. validate_from max_blocks p null 0 h) v.layout.first
      ∙ validate_from-true h max_blocks h.heap_start null 0 xs
          (omega (arith, length-end_of h.heap_start xs, v.ends, v.limit)) (omega (arith, v.start))
          (omega arith) (omega (arith, v.ends)) (omega (arith, v.limit, v.start)) v.layout.seg
          v.sound (omega (arith, fit, v.ends, v.limit, v.start)) v.layout.last
          (omega (arith, v.allocated)))

-- The loop of kheap_get_stats adds up the free blocks.
free_from-sum :
    (fuel a prev acc : ℕ) (b : Headers) (xs : List Cell)
    → length xs < fuel
    → 0 < a
    → Seg b prev a null xs
    → acc + free_bytes xs < 2 ^ 64
    → free_from fuel (link a null xs) acc b ≡ returned (acc + free_bytes xs)
unfolding free_from free_bytes
free_from-sum zero a prev acc b xs enough pos s fit = absurd (omega arith)
free_from-sum (suc fuel) a prev acc b [] enough pos s fit = ap returned (omega arith)
free_from-sum (suc fuel) a prev acc b (c ∷ xs) enough pos s fit =
    let more : ℕ = if c.free then c.size else 0 in
    let acc' : (if c.free then add64 acc c.size else acc) ≡ acc + more = ground arith in
    rw (not_null a pos, s.0.next, s.0.free, s.0.size, acc')
      (free_from-sum fuel (a + 32 + c.size) a (acc + more) b xs (omega arith) (omega arith) s.1
          (omega arith)
        ∙ ap returned (omega arith))

free_bytes-used :
    (a : ℕ) (xs : List Cell) → a + used_bytes xs + free_bytes xs + 32 * length xs ≡ end_of a xs
unfolding used_bytes free_bytes
free_bytes-used a [] = omega arith
free_bytes-used a (c ∷ xs) = ground (arith, free_bytes-used (a + 32 + c.size) xs)

-- kheap_get_stats returns, and the bytes that it reports as mapped are those in use, those that are
-- free and 32 for the header of each block.
pub kheap_get_stats-mapped :
    {P : Type 0} (h : Heap P) (xs : List Cell)
    → IsHeap h xs
    → (s : HeapStats) × (kheap_get_stats h ≡ returned s)
      × (s.allocated_bytes ≡ used_bytes xs)
      × (s.free_bytes ≡ free_bytes xs)
      × (s.mapped_bytes ≡ s.allocated_bytes + s.free_bytes + 32 * length xs)
unfolding kheap_get_stats
kheap_get_stats-mapped h xs v =
    let total = free_bytes-used h.heap_start xs in
    let zero : 0 + free_bytes xs ≡ free_bytes xs = omega arith in
    let e =
      free_from-sum max_blocks h.heap_start null 0 h.block xs
        (omega (arith, length-end_of h.heap_start xs, v.ends, v.limit)) (omega (arith, v.start))
        v.layout.seg (omega (arith, total, v.ends, v.limit, v.start)) in
    (
      record {
        mapped_bytes = h.mapped_bytes;
        allocated_bytes = h.allocated_bytes;
        free_bytes = free_bytes xs;
      },
      rw (ap (λ p. free_from max_blocks p 0 h.block) v.layout.first ∙ e ∙ ap returned zero),
      v.allocated,
      refl,
      omega (arith, total, v.ends, v.mapped, v.allocated),
    )
