-- ===== src/Pmm/Examples.antt =====
-- A memory map of three regions, and the theorems at it.
use whirliscope.Prelude.{
  ℕ, ◌%◌, ◌^◌, ◌≡◌, refl, true, false, not, ◌&&◌, some, List, [], ◌∷◌, length, ◌==◌, arith,
}
use whirliscope.Pmm.{Pmm, MemmapEntry, pmm_init, pmm_alloc_page, pmm_free_page, pmm_page_size}
use whirliscope.Pmm.FreeList.{elem, IsFreeList, pmm_alloc_page-IsFreeList, pmm_free_page-IsFreeList}
use whirliscope.Pmm.Init.{usable_page, pmm_init-IsFreeList}

-- Page 0 is usable but never given out; the region from 20000 on does not start at a page.
abbrev regions : List MemmapEntry
regions =
    record { base = 0; length = 8192; type = 0 }
    ∷ record { base = 8192; length = 4096; type = 1 }
    ∷ record { base = 20000; length = 9000; type = 0 }
    ∷ []

abbrev before_init : Pmm
before_init = record {
  free_list = 7;
  next = λ a. 0;
  hhdm_base = 0;
  total_pages = 3;
  free_pages = 3;
  initialized = false;
}

pmm_init-IsFreeList_example :
    let t = pmm_init (some regions) (some 0xffff_8000_0000_0000) before_init in
    (ps : List ℕ) × IsFreeList t ps
    × (t.initialized ≡ true)
    × (t.total_pages ≡ length ps % 2 ^ 64)
    × ((p : ℕ) → elem p ps ≡ (p % pmm_page_size == 0 && not (p == 0) && usable_page p regions))
pmm_init-IsFreeList_example =
    pmm_init-IsFreeList regions 0xffff_8000_0000_0000 before_init
      (omega arith, omega arith, (omega arith, omega arith, (omega arith, omega arith, tt)))

-- One page is free.
abbrev one_free : Pmm
one_free = record {
  free_list = 0xffff_8000_0000_1000;
  next = λ a. 0;
  hhdm_base = 0xffff_8000_0000_0000;
  total_pages = 2;
  free_pages = 1;
  initialized = true;
}

one_free-IsFreeList : IsFreeList one_free (4096 ∷ [])
one_free-IsFreeList = record {
  chain = (refl, refl);
  count = refl;
  pages = ((omega arith, refl, omega arith), refl, tt);
}

pmm_alloc_page-IsFreeList_example :
    ((pmm_alloc_page one_free).0 ≡ 4096) × IsFreeList (pmm_alloc_page one_free).1 []
pmm_alloc_page-IsFreeList_example =
    pmm_alloc_page-IsFreeList one_free 4096 [] refl one_free-IsFreeList

pmm_free_page-IsFreeList_example : IsFreeList (pmm_free_page 8192 one_free) (8192 ∷ 4096 ∷ [])
pmm_free_page-IsFreeList_example =
    pmm_free_page-IsFreeList one_free 8192 (4096 ∷ []) refl (omega arith, refl, omega arith) refl
      one_free-IsFreeList
