-- ===== src/Pmm.antt =====
-- memory/pmm.c: the free list of physical pages. Its links lie in the free pages themselves, at
-- their addresses in the higher half.
pub mod FreeList
pub mod Init
mod Examples
use whirliscope.Prelude.{
  ℕ, zero, suc, ◌+◌, ◌-◌, ◌*◌, ◌/◌, ◌%◌, Bool, true, false, not, ◌&&◌, ◌||◌, Option, none, some,
  List, [], ◌∷◌, ltb, ◌==◌, if◌then◌else◌, add64, sub64, mul64, align_down, align_up,
}

abbrev pub pmm_page_size : ℕ
pmm_page_size = 4096

abbrev pub null_page : ℕ
null_page = 0

-- `next` is the `free_page` record at each virtual address.
pub record Pmm : Type 0 where
  pub free_list : ℕ
  pub next : ℕ → ℕ
  pub hhdm_base : ℕ
  pub total_pages : ℕ
  pub free_pages : ℕ
  pub initialized : Bool

abbrev pub limine_memmap_usable : ℕ
limine_memmap_usable = 0

-- An entry of the boot loader's memory map.
pub record MemmapEntry : Type 0 where
  pub base : ℕ
  pub length : ℕ
  pub type : ℕ

pub pmm_phys_to_virt : ℕ → Pmm → ℕ
pmm_phys_to_virt physical_address s = add64 s.hhdm_base physical_address

pub pmm_virt_to_phys : ℕ → Pmm → ℕ
pmm_virt_to_phys virtual_address s = sub64 virtual_address s.hhdm_base

pub push_page : ℕ → Pmm → Pmm
push_page physical_address s =
    let page = pmm_phys_to_virt physical_address s in
    record s {
      free_list = page;
      next = λ a. if a == page then s.free_list else s.next a;
      free_pages = add64 s.free_pages 1;
    }

-- The loop over the pages of one entry, in as many rounds as there are pages from `start` to `end`.
add_pages : ℕ → ℕ → Pmm → Pmm
add_pages zero page s = s
add_pages (suc n) page s =
    let t = push_page page s in
    let counted = record t { total_pages = add64 t.total_pages 1 } in
    add_pages n (page + pmm_page_size) (if page == 0 then s else counted)

pub add_entry : MemmapEntry → Pmm → Pmm
unfolding add_pages
add_entry entry s =
    let start = align_up entry.base pmm_page_size in
    let end = align_down (add64 entry.base entry.length) pmm_page_size in
    if not (entry.type == limine_memmap_usable)
    then s
    else add_pages ((end - start) / pmm_page_size) start s

pub add_entries : List MemmapEntry → Pmm → Pmm
add_entries [] s = s
add_entries (entry ∷ entries) s = add_entries entries (add_entry entry s)

abbrev pub cleared : Pmm → Pmm
cleared s = record {
  free_list = null_page;
  next = s.next;
  hhdm_base = 0;
  total_pages = 0;
  free_pages = 0;
  initialized = false;
}

-- The arguments are the boot loader's responses: the memory map and the offset of the higher half.
pub pmm_init : Option (List MemmapEntry) → Option ℕ → Pmm → Pmm
pmm_init none hhdm s = cleared s
pmm_init (some memmap) none s = cleared s
pmm_init (some memmap) (some offset) s =
    record (add_entries memmap (record (cleared s) { hhdm_base = offset })) { initialized = true }

pub pmm_alloc_page : Pmm → ℕ × Pmm
pmm_alloc_page s =
    let page = s.free_list in
    let t = record s { free_list = s.next page; free_pages = sub64 s.free_pages 1 } in
    if not s.initialized || page == null_page then (0, s) else (pmm_virt_to_phys page t, t)

pub pmm_free_page : ℕ → Pmm → Pmm
pmm_free_page physical_address s =
    if not s.initialized || physical_address == 0 || not (physical_address % pmm_page_size == 0)
    then s
    else push_page physical_address s

pub record PmmStats : Type 0 where
  pub total_pages : ℕ
  pub free_pages : ℕ
  pub used_pages : ℕ
  pub total_bytes : ℕ
  pub free_bytes : ℕ
  pub used_bytes : ℕ

pub pmm_get_stats : Pmm → PmmStats
pmm_get_stats s =
    let used = sub64 s.total_pages s.free_pages in
    record {
      total_pages = s.total_pages;
      free_pages = s.free_pages;
      used_pages = used;
      total_bytes = mul64 s.total_pages pmm_page_size;
      free_bytes = mul64 s.free_pages pmm_page_size;
      used_bytes = mul64 used pmm_page_size;
    }

pub pmm_hhdm_offset : Pmm → ℕ
pmm_hhdm_offset s = s.hhdm_base
