-- ===== src/Kheap/Examples.antt =====
-- A small heap, and the heap's theorems at it.
use whirliscope.Prelude.{
  ℕ, ◌+◌, ◌-◌, ◌*◌, ◌^◌, ◌≡◌, refl, true, false, some, List, [], ◌∷◌, arith, ◌==◌, ◌||◌, not,
  if◌then◌else◌,
}
use whirliscope.Kheap.Blocks.{kheap_base, null, HeapBlock, returned, panicked}
use whirliscope.Kheap.Blocks.Layout.{Cell, cell, IsLayout}
use whirliscope.Kheap.Cells.{used_bytes}
use whirliscope.Kheap.Invariant.{IsHeap, kheap_init-IsHeap}
use whirliscope.Kheap.Expand.{PageOps, Heap, kheap_init, expand_heap}
use whirliscope.Kheap.Expand.Wrap.{expand_heap-wraps}
use whirliscope.Kheap.Alloc.{kmalloc, kfree, kheap_validate}
use whirliscope.Kheap.Alloc.Malloc.{Allocated, kmalloc-Allocated}
use whirliscope.Kheap.Alloc.Free.{IsFreed, kfree-IsFreed}
use whirliscope.Kheap.Alloc.Misuse.{kfree-panicked}
use whirliscope.Kheap.Alloc.Validate.{kheap_validate-true}

-- Page managers over a count of free pages, which hand out addresses from 4096 on and never fail
-- to map.
abbrev counted : PageOps ℕ
counted = record {
  pmm_alloc_page = λ n. if n == 0 then (0, 0) else (4096 * n, n - 1);
  pmm_free_page = λ a n. n + 1;
  vmm_map_page = λ v p f n. (true, n);
  vmm_unmap_page = λ v n. n;
  vmm_virt_to_phys = λ v n. some 4096;
}

abbrev blank : HeapBlock
blank = record { magic = 0; free = false; size = 0; prev = 0; next = 0 }

abbrev empty_heap : Heap ℕ
empty_heap = kheap_init (record {
  links = record { first_block = 7; last_block = 7; block = λ a. blank };
  heap_start = 0;
  heap_end = 0;
  mapped_bytes = 0;
  allocated_bytes = 0;
  initialized = false;
  pages = 40;
})

kmalloc-Allocated_example : Allocated counted empty_heap [] 100 (kmalloc counted 100 empty_heap)
kmalloc-Allocated_example =
    kmalloc-Allocated counted empty_heap [] 100 (kheap_init-IsHeap _) (omega arith) (omega arith)

-- The heap after one allocation of 112 bytes: the rest of the first 64 KiB is free.
abbrev two_blocks : Heap ℕ
two_blocks = record {
  links = record {
    first_block = kheap_base;
    last_block = kheap_base + 144;
    block = λ a.
        if a == kheap_base
        then record {
          magic = 0x4845_4150;
          free = false;
          size = 112;
          prev = null;
          next = kheap_base + 144;
        }
        else if a == kheap_base + 144
        then record {
          magic = 0x4845_4150;
          free = true;
          size = 65360;
          prev = kheap_base;
          next = null;
        }
        else blank;
  };
  heap_start = kheap_base;
  heap_end = kheap_base + 65536;
  mapped_bytes = 65536;
  allocated_bytes = 112;
  initialized = true;
  pages = 24;
}

abbrev two_cells : List Cell
two_cells = cell 112 false ∷ cell 65360 true ∷ []

two_blocks-IsHeap : IsHeap two_blocks two_cells
unfolding used_bytes
two_blocks-IsHeap = record {
  ready = refl;
  start = refl;
  layout = record {
    first = refl;
    last = refl;
    seg = (
      record { magic = refl; free = refl; size = refl; prev = refl; next = refl },
      (record { magic = refl; free = refl; size = refl; prev = refl; next = refl }, tt),
    );
  };
  ends = refl;
  limit = omega arith;
  mapped = refl;
  allocated = refl;
  sound = (refl, refl, (refl, refl, tt));
}

kfree-IsFreed_example : IsFreed [] [] (kheap_base + 32) two_blocks
kfree-IsFreed_example =
    kfree-IsFreed two_blocks two_cells [] [] (kheap_base + 32) 112 two_blocks-IsHeap refl

kfree-panicked_example : kfree (kheap_base + 176) two_blocks ≡ panicked
kfree-panicked_example =
    kfree-panicked two_blocks (cell 112 false ∷ []) (cell 65360 true) [] two_blocks-IsHeap refl

kheap_validate-true_example : kheap_validate two_blocks ≡ returned true
kheap_validate-true_example = kheap_validate-true two_blocks two_cells two_blocks-IsHeap

-- The heap before the first block.
abbrev no_blocks : Heap ℕ
no_blocks = kheap_init two_blocks

no_last : (no_blocks.last_block == 0 || not (no_blocks.block no_blocks.last_block).free) ≡ true
unfolding kheap_init
no_last = refl

expand_heap-wraps_example :
    let r = expand_heap counted (2 ^ 64 - 48) no_blocks in
    (r.0 ≡ true)
    × (r.1.pages ≡ no_blocks.pages)
    × (r.1.heap_end ≡ no_blocks.heap_end)
    × (r.1.mapped_bytes ≡ no_blocks.mapped_bytes)
    × IsLayout r.1.links no_blocks.heap_start (cell (2 ^ 64 - 32) true ∷ [])
expand_heap-wraps_example =
    expand_heap-wraps counted (2 ^ 64 - 48) no_blocks [] (kheap_init-IsHeap two_blocks) no_last
      (omega arith) (omega arith)
