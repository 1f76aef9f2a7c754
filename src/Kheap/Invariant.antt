-- ===== src/Kheap/Invariant.antt =====
-- The invariant of memory/heap.c: the headers, the counters and the mapped range describe one list
-- of blocks.
use whirliscope.Prelude.{◌+◌, ◌≤◌, ◌≡◌, refl, true, false, List, [], arith}
use whirliscope.Kheap.Blocks.{kheap_base, kheap_max_size}
use whirliscope.Kheap.Blocks.Layout.{Cell, end_of, IsLayout}
use whirliscope.Kheap.Expand.{Heap, kheap_init}
use whirliscope.Kheap.Cells.{used_bytes, Sound}

pub record IsHeap {P : Type 0} (h : Heap P) (xs : List Cell) : Type 0 where
  pub ready : h.initialized ≡ true
  pub start : h.heap_start ≡ kheap_base
  pub layout : IsLayout h.links h.heap_start xs
  pub ends : h.heap_end ≡ end_of h.heap_start xs
  pub limit : h.heap_end ≤ h.heap_start + kheap_max_size
  pub mapped : h.heap_start + h.mapped_bytes ≡ h.heap_end
  pub allocated : h.allocated_bytes ≡ used_bytes xs
  pub sound : Sound false xs

-- kheap_init sets up the heap with no blocks, whatever was in memory before.
pub kheap_init-IsHeap : {P : Type 0} (h : Heap P) → IsHeap (kheap_init h) []
unfolding kheap_init used_bytes
kheap_init-IsHeap h = record {
  ready = refl;
  start = refl;
  layout = record { first = refl; last = refl; seg = tt };
  ends = refl;
  limit = omega arith;
  mapped = omega arith;
  allocated = refl;
  sound = tt;
}
