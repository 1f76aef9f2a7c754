-- ===== src/Kheap/Expand.antt =====
-- memory/heap.c: the heap's state, its growth by whole pages, and the roll-back of a failed growth.
-- The managers of physical pages and of page tables are a parameter.
pub mod Grow
pub mod Wrap
use whirliscope.Prelude.{
  ℕ, zero, suc, ◌+◌, ◌-◌, ◌/◌, Bool, true, false, not, ◌&&◌, ◌||◌, Option, none, some, ltb, ◌==◌,
  if◌then◌else◌, add64, sub64, align_up,
}
use whirliscope.Kheap.Blocks.{
  kheap_base, kheap_max_size, kheap_chunk_size, vmm_page_size, vmm_writable, heap_magic, null, put,
  block_overhead, Links, append_block, coalesce_with_next,
}

-- The physical and virtual memory managers as the heap uses them.
pub record PageOps (P : Type 0) : Type 0 where
  pub pmm_alloc_page : P → ℕ × P
  pub pmm_free_page : ℕ → P → P
  pub vmm_map_page : ℕ → ℕ → ℕ → P → Bool × P
  pub vmm_unmap_page : ℕ → P → P
  pub vmm_virt_to_phys : ℕ → P → Option ℕ

pub record Heap (P : Type 0) : Type 0 where
  pub links : Links
  pub open links use *
  pub heap_start : ℕ
  pub heap_end : ℕ
  pub mapped_bytes : ℕ
  pub allocated_bytes : ℕ
  pub initialized : Bool
  pub pages : P

unfoldable pub kheap_init : {P : Type 0} → Heap P → Heap P
kheap_init h = record {
  links = record { first_block = null; last_block = null; block = h.block };
  heap_start = kheap_base;
  heap_end = kheap_base;
  mapped_bytes = 0;
  allocated_bytes = 0;
  initialized = true;
  pages = h.pages;
}

-- The new header of expand_heap, before it is linked.
abbrev pub fresh_header : ℕ → ℕ → Links → Links
fresh_header p bytes l = record l {
  block =
      put l.block p
        (record (l.block p) { magic = heap_magic; free = true; size = sub64 bytes block_overhead });
}

-- The end of expand_heap, once the pages are there.
pub grow : {P : Type 0} → ℕ → Heap P → Heap P
grow bytes h =
    let l = append_block h.heap_end (fresh_header h.heap_end bytes h.links) in
    let before = (l.block h.heap_end).prev in
    record h {
      links =
          if not (before == null) && (l.block before).free then coalesce_with_next before l else l;
      heap_end = h.heap_end + bytes;
      mapped_bytes = h.mapped_bytes + bytes;
    }

module _ {P : Type 0} (ops : PageOps P) where
  open ops use {pmm_alloc_page, pmm_free_page, vmm_map_page, vmm_unmap_page, vmm_virt_to_phys}

  -- One round of rollback_heap_mapping.
  rollback_page : ℕ → P → P
  rollback_page vaddr s = elim (vmm_virt_to_phys vaddr s) [
    | none ↦ s
    | some physical ↦ pmm_free_page physical (vmm_unmap_page vaddr s)
  ]

  rollback_pages : ℕ → ℕ → ℕ → P → P
  rollback_pages zero offset start s = s
  rollback_pages (suc k) offset start s =
      rollback_pages k (offset + vmm_page_size) start (rollback_page (start + offset) s)

  pub rollback_heap_mapping : ℕ → ℕ → P → P
  unfolding rollback_pages rollback_page
  rollback_heap_mapping start bytes s =
      rollback_pages ((bytes + (vmm_page_size - 1)) / vmm_page_size) 0 start s

  -- The loop of expand_heap: the rounds left, `offset`, `mapped_this_expand` and `heap_end`.
  map_pages : ℕ → ℕ → ℕ → ℕ → P → Bool × P
  map_pages zero offset mapped start s = (true, s)
  map_pages (suc k) offset mapped start s =
      let (physical, s1) = pmm_alloc_page s in
      let (done, s2) = vmm_map_page (start + offset) physical vmm_writable s1 in
      let rest = map_pages k (offset + vmm_page_size) (mapped + vmm_page_size) start s2 in
      if physical == 0
      then (false, rollback_heap_mapping start mapped s1)
      else if done
      then rest
      else (false, rollback_heap_mapping start mapped (pmm_free_page physical s2))

  pub expand_heap : ℕ → Heap P → Bool × Heap P
  expand_heap min_payload_size h =
      let bytes = align_up (add64 min_payload_size block_overhead) kheap_chunk_size in
      let over =
        ltb (add64 h.heap_end bytes) h.heap_end
        || ltb (h.heap_start + kheap_max_size) (add64 h.heap_end bytes) in
      let (done, s) =
        map_pages ((bytes + (vmm_page_size - 1)) / vmm_page_size) 0 0 h.heap_end h.pages in
      let h' = record h { pages = s } in
      if over then (false, h) else if done then (true, grow bytes h') else (false, h')
