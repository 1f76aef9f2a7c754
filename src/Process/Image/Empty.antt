-- ===== src/Process/Image/Empty.antt =====
-- Segments of no bytes in userspace/process.c and userspace/elf.c.
use whirliscope.Prelude.{
  ℕ, ◌+◌, ◌-◌, ◌/◌, ◌%◌, ◌^◌, ◌<◌, ◌≡◌, refl, sym, ap, subst, ◌∙◌, Bool, true, false, some, ltb,
  ◌==◌, if◌then◌else◌, add64, align_down, align_up, arith,
}
use whirliscope.Elf.{Elf64Phdr, elf64_pt_load, check_segments}
use whirliscope.Process.Pages.{SpaceOps, Machine, vmm_page_size}
use whirliscope.Process.Image.{
  has_bit, segment_map_flags, load_segment_page, load_pages, load_user_segment,
}

one_page :
    (vaddr : ℕ)
    → 0 < vaddr % 4096
    → vaddr + 4096 < 2 ^ 64
    → (align_up (add64 vaddr 0) 4096 - align_down vaddr 4096) / 4096 ≡ 1
one_page vaddr inside room = omega arith

no_wrap : (vaddr : ℕ) → vaddr + 4096 < 2 ^ 64 → ltb (add64 vaddr 0) vaddr ≡ false
no_wrap vaddr room = ground arith

either_way :
    {A : Type 0} (r : Bool × A)
    → ◌≡◌ {A = Bool × A} (if◌then◌else◌ {A = Bool × A} r.0 (true, r.1) (false, r.1)) r
either_way (true, a) = refl
either_way (false, a) = refl

user_flag :
    (writable executable : Bool)
    → (4 + (if writable then 2 else 0) + (if executable then 0 else 2 ^ 63)) / 4 % 2 ≡ 1
user_flag true true = refl
user_flag true false = refl
user_flag false true = refl
user_flag false false = refl

-- The calls of the page managers by load_segment_page.
load_segment_page-calls :
    {P : Type 0} (ops : SpaceOps P) (pml4 image : ℕ) (phdr : Elf64Phdr) (page_vaddr : ℕ)
    (w : Machine P)
    → ((ops.pmm_alloc_page w.pages).0 == 0) ≡ false
    → let (phys, s) = ops.pmm_alloc_page w.pages in
      let mapped = ops.vmm_map_page_in_space pml4 page_vaddr phys (segment_map_flags phdr) s in
      let r = load_segment_page ops pml4 image phdr page_vaddr w in
      (r.0 ≡ mapped.0) × (r.1.pages ≡ mapped.1)
unfolding load_segment_page
load_segment_page-calls ops pml4 image phdr page_vaddr w free = rw free (refl, refl)

one_page_loaded :
    {P : Type 0} (ops : SpaceOps P) (pml4 image : ℕ) (phdr : Elf64Phdr) (w : Machine P)
    → phdr.p_type ≡ elf64_pt_load
    → phdr.p_memsz ≡ 0
    → 0 < phdr.p_vaddr % vmm_page_size
    → phdr.p_vaddr + vmm_page_size < 2 ^ 64
    → load_user_segment ops pml4 image phdr w
      ≡ load_segment_page ops pml4 image phdr (align_down phdr.p_vaddr vmm_page_size) w
unfolding load_user_segment load_pages
one_page_loaded ops pml4 image phdr w load empty inside room =
    rw (load, empty, no_wrap phdr.p_vaddr room, one_page phdr.p_vaddr inside room) (either_way _)

-- A segment to load that has no bytes in memory, at an address inside a page and below the last
-- 4096 bytes of the 64-bit range: the checks of elf64_validate_user_image pass over it, whatever
-- its address and its file range are. But load_user_segment takes a new page for it, if there is
-- one, and maps that for access by the program at the start of the page around its address; it
-- returns what the mapping does.
pub load_user_segment-maps :
    {P : Type 0} (ops : SpaceOps P) (pml4 image : ℕ) (headers : ℕ → Elf64Phdr)
    (entry image_size : ℕ) (seen : Bool) (w : Machine P)
    → (headers 0).p_type ≡ elf64_pt_load
    → (headers 0).p_memsz ≡ 0
    → 0 < (headers 0).p_vaddr % vmm_page_size
    → (headers 0).p_vaddr + vmm_page_size < 2 ^ 64
    → ((ops.pmm_alloc_page w.pages).0 == 0) ≡ false
    → let vaddr = (headers 0).p_vaddr in
      let (phys, s) = ops.pmm_alloc_page w.pages in
      let r = load_user_segment ops pml4 image (headers 0) w in
      (check_segments 1 0 headers entry image_size seen ≡ some seen)
      × (flags : ℕ) × (flags / 4 % 2 ≡ 1)
      × (let mapped = ops.vmm_map_page_in_space pml4 (vaddr - vaddr % 4096) phys flags s in
          (r.0 ≡ mapped.0) × (r.1.pages ≡ mapped.1))
unfolding check_segments segment_map_flags
load_user_segment-maps ops pml4 image headers entry image_size seen w load empty inside room free =
    let phdr = headers 0 in
    let (phys, s) = ops.pmm_alloc_page w.pages in
    let start = phdr.p_vaddr - phdr.p_vaddr % 4096 in
    let page_start : align_down phdr.p_vaddr 4096 ≡ start = omega arith in
    (
      rw (load, empty) refl,
      segment_map_flags phdr,
      user_flag (has_bit phdr.p_flags 1) (has_bit phdr.p_flags 0),
      subst
          (λ r.
            (r.0 ≡ (ops.vmm_map_page_in_space pml4 start phys (segment_map_flags phdr) s).0)
            × (r.1.pages
                ≡ (ops.vmm_map_page_in_space pml4 start phys (segment_map_flags phdr) s).1))
          (sym (
            one_page_loaded ops pml4 image phdr w load empty inside room
            ∙ ap (λ a. load_segment_page ops pml4 image phdr a w) page_start))
          (load_segment_page-calls ops pml4 image phdr start w free),
    )
