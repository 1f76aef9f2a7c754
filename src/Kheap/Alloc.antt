-- ===== src/Kheap/Alloc.antt =====
-- memory/heap.c: the heap's calls. `returned` stands for a return, `panicked` for an assertion that
-- fails. kcalloc and krealloc also take and return the memory that the payloads are part of.
pub mod Free
pub mod Take
pub mod Malloc
pub mod Validate
pub mod Misuse
use whirliscope.Prelude.{
  ℕ, zero, suc, ◌+◌, ◌-◌, ◌/◌, ◌%◌, Bool, true, false, not, ◌&&◌, ◌||◌, ltb, leb, ◌==◌,
  if◌then◌else◌, add64, sub64, mul64, align_up,
}
use whirliscope.Libc.Memory.{Memory}
use whirliscope.Libc.Block.{memcpy, memset}
use whirliscope.Kheap.Blocks.{
  heap_align, heap_magic, null, Headers, HeapBlock, put, block_overhead, block_payload,
  payload_block, max_blocks, Links, split_block, coalesce_with_next, find_free_block, Outcome,
  returned, panicked, out_of_fuel, ◌>>=◌,
}
use whirliscope.Kheap.Expand.{PageOps, Heap, expand_heap}

-- The end of kmalloc, with a block of enough bytes at `p`.
pub take_block : {P : Type 0} → ℕ → ℕ → Heap P → Heap P
take_block p size h =
    let l = split_block p size h.links in
    let b = put l.block p (record (l.block p) { free = false }) in
    record h {
      links = record l { block = b };
      allocated_bytes = add64 h.allocated_bytes (b p).size;
    }

module _ {P : Type 0} (ops : PageOps P) where
  -- The block that kmalloc takes, after one attempt to grow the heap where none fits.
  pub obtain_block : ℕ → Heap P → Outcome (ℕ × Heap P)
  obtain_block size h = do
    p ← find_free_block size h.links
    let (grown, h') = expand_heap ops size h
    if not (p == null)
        then returned (p, h)
        else if grown
        then (do q ← find_free_block size h'.links; returned (q, h'))
        else returned (null, h')

  pub kmalloc : ℕ → Heap P → Outcome (ℕ × Heap P)
  kmalloc size h = if not h.initialized || size == 0 then returned (null, h) else do
    (p, h') ← obtain_block (align_up size heap_align) h
    if p == null
        then returned (null, h')
        else returned (block_payload p, take_block p (align_up size heap_align) h')

  pub kcalloc : ℕ → ℕ → Memory → Heap P → Outcome (ℕ × Memory × Heap P)
  kcalloc count size m h =
      if not (size == 0) && ltb (0xffff_ffff_ffff_ffff / size) count
      then returned (null, m, h)
      else do
        (ptr, h') ← kmalloc (mul64 count size) h
        returned (ptr, (if ptr == null then m else memset ptr 0 (mul64 count size) m), h')

-- The body of kfree behind its assertions.
pub release_block : {P : Type 0} → ℕ → Heap P → Heap P
release_block p h =
    let b = put h.block p (record (h.block p) { free = true }) in
    let l = coalesce_with_next p (record h.links { block = b }) in
    let before = (l.block p).prev in
    record h {
      links =
          if not (before == null) && (l.block before).free then coalesce_with_next before l else l;
      allocated_bytes = sub64 h.allocated_bytes (h.block p).size;
    }

pub kfree : {P : Type 0} → ℕ → Heap P → Outcome (Heap P)
kfree ptr h =
    let p = payload_block ptr in
    if ptr == null
    then returned h
    else if not ((h.block p).magic == heap_magic) || (h.block p).free
    then panicked
    else returned (release_block p h)

-- krealloc of a block that is large enough already.
pub shrink_block : {P : Type 0} → ℕ → ℕ → Heap P → Heap P
shrink_block p aligned_size h =
    let old_size = (h.block p).size in
    let l = split_block p aligned_size h.links in
    let next = (l.block p).next in
    let l' = if not (next == null) && (l.block next).free then coalesce_with_next next l else l in
    record h {
      links = l';
      allocated_bytes = sub64 h.allocated_bytes (sub64 old_size (l'.block p).size);
    }

pub krealloc : {P : Type 0} → PageOps P → ℕ → ℕ → Memory → Heap P → Outcome (ℕ × Memory × Heap P)
krealloc ops ptr size m h =
    let p = payload_block ptr in
    let aligned_size = align_up size heap_align in
    let fresh = (do (q, h') ← kmalloc ops size h; returned (q, m, h')) in
    let dropped = (do h' ← kfree ptr h; returned (null, m, h')) in
    let moved = (do
      (q, h') ← kmalloc ops size h
      let copied = memcpy q ptr (h'.block p).size m
      let h'' = kfree ptr h'
      if q == null then returned (null, m, h') else (do g ← h''; returned (q, copied, g))) in
    if ptr == null
    then fresh
    else if size == 0
    then dropped
    else if not ((h.block p).magic == heap_magic)
    then panicked
    else if leb aligned_size (h.block p).size
    then returned (ptr, m, shrink_block p aligned_size h)
    else moved

pub record HeapStats : Type 0 where
  pub mapped_bytes : ℕ
  pub allocated_bytes : ℕ
  pub free_bytes : ℕ

free_from : ℕ → ℕ → ℕ → Headers → Outcome ℕ
free_from zero p acc b = out_of_fuel
free_from (suc fuel) p acc b =
    let rest = free_from fuel (b p).next (if (b p).free then add64 acc (b p).size else acc) b in
    if p == null then returned acc else rest

pub kheap_get_stats : {P : Type 0} → Heap P → Outcome HeapStats
kheap_get_stats h = do
  free_bytes ← free_from max_blocks h.first_block 0 h.block
  returned (record {
    mapped_bytes = h.mapped_bytes;
    allocated_bytes = h.allocated_bytes;
    free_bytes = free_bytes;
  })

-- The tests of kheap_validate on one block; the last is the one on its successor.
well_formed : {P : Type 0} → ℕ → ℕ → Heap P → Bool
well_formed p previous h =
    let blk = h.block p in
    let payload = block_payload p in
    let block_end = add64 payload blk.size in
    not (
      not (blk.magic == heap_magic)
      || not (blk.prev == previous)
      || ltb p h.heap_start
      || leb h.heap_end p
      || ltb payload p
      || ltb block_end payload
      || ltb h.heap_end block_end
      || not (blk.size % 16 == 0))
    && not (blk.free && not (blk.next == null) && (h.block blk.next).free)

-- The loop of kheap_validate.
validate_from : {P : Type 0} → ℕ → ℕ → ℕ → ℕ → Heap P → Outcome Bool
validate_from zero p previous acc h = out_of_fuel
validate_from (suc fuel) p previous acc h =
    let blk = h.block p in
    let rest = validate_from fuel blk.next p (if blk.free then acc else add64 acc blk.size) h in
    if p == null
    then returned ((previous == h.last_block) && (acc == h.allocated_bytes))
    else if well_formed p previous h
    then rest
    else returned false

pub kheap_validate : {P : Type 0} → Heap P → Outcome Bool
kheap_validate h =
    if not h.initialized then returned false else validate_from max_blocks h.first_block null 0 h
