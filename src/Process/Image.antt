-- ===== src/Process/Image.antt =====
-- userspace/process.c: loading the segments of a program image and setting up its process.
pub mod Empty
pub mod Ready
pub mod Examples
use whirliscope.Prelude.{
  ℕ, zero, suc, ◌+◌, ◌-◌, ◌*◌, ◌/◌, ◌%◌, ◌^◌, Bool, true, false, not, ◌&&◌, ◌||◌, Option, none,
  some, List, [], ◌∷◌, take, ltb, leb, ◌==◌, if◌then◌else◌, add64, sub64, align_down, align_up,
}
use whirliscope.Libc.Memory.{Memory}
use whirliscope.Libc.Block.{memset, memcpy}
use whirliscope.AddressSpace.{userspace_range_is_valid}
use whirliscope.Elf.{
  Elf64Phdr, Elf64Image, elf64_pt_load, program_header_at, elf64_validate_user_image,
}
use whirliscope.Process.{
  Process, process_new, process_ready, thread_new, thread_ready, Thread, UserRegisters,
  no_registers, slash, process_set_cwd,
}
use whirliscope.Process.Pages.{SpaceOps, Machine, vmm_page_size, vmm_writable, vmm_user, vmm_noexec}

abbrev pub userspace_heap_base : ℕ
userspace_heap_base = 0x1000_0000

abbrev pub userspace_heap_limit : ℕ
userspace_heap_limit = 0x4000_0000

abbrev pub userspace_stack_top : ℕ
userspace_stack_top = 0x7fff_fff0_0000

-- Bit `k` of a word.
abbrev pub has_bit : ℕ → ℕ → Bool
has_bit v k = not (v / 2 ^ k % 2 == 0)

pub segment_map_flags : Elf64Phdr → ℕ
segment_map_flags phdr =
    vmm_user
    + (if has_bit phdr.p_flags 1 then vmm_writable else 0)
    + (if has_bit phdr.p_flags 0 then 0 else vmm_noexec)

module _ {P : Type 0} (ops : SpaceOps P) where
  pub load_segment_page : (pml4 image : ℕ) → Elf64Phdr → ℕ → Machine P → Bool × Machine P
  load_segment_page pml4 image phdr page_vaddr w =
      let (page_phys, s) = ops.pmm_alloc_page w.pages in
      let page = ops.pmm_phys_to_virt page_phys s in
      let cleared = memset page 0 vmm_page_size w.memory in
      let file_start = phdr.p_vaddr in
      let file_end = add64 phdr.p_vaddr phdr.p_filesz in
      let page_end = add64 page_vaddr vmm_page_size in
      let copy_start = if ltb file_start page_vaddr then page_vaddr else file_start in
      let copy_end = if ltb page_end file_end then page_end else file_end in
      let page_offset = sub64 copy_start page_vaddr in
      let file_offset = sub64 (add64 phdr.p_offset copy_start) phdr.p_vaddr in
      let filled =
        memcpy (page + page_offset) (image + file_offset) (sub64 copy_end copy_start) cleared in
      let (mapped, t) =
        ops.vmm_map_page_in_space pml4 page_vaddr page_phys (segment_map_flags phdr) s in
      if page_phys == 0 then (false, record { memory = w.memory; pages = s }) else (
        mapped,
        record { memory = if ltb copy_start copy_end then filled else cleared; pages = t },
      )

  pub load_pages : (n pml4 image : ℕ) → Elf64Phdr → ℕ → Machine P → Bool × Machine P
  load_pages zero pml4 image phdr page_vaddr w = (true, w)
  load_pages (suc n) pml4 image phdr page_vaddr w =
      let first = load_segment_page pml4 image phdr page_vaddr w in
      let rest = load_pages n pml4 image phdr (page_vaddr + vmm_page_size) first.1 in
      if first.0 then rest else (false, first.1)

  pub load_user_segment : (pml4 image : ℕ) → Elf64Phdr → Machine P → Bool × Machine P
  load_user_segment pml4 image phdr w =
      let segment_end = add64 phdr.p_vaddr phdr.p_memsz in
      let first_page = align_down phdr.p_vaddr vmm_page_size in
      let end_page = align_up segment_end vmm_page_size in
      if not (phdr.p_type == elf64_pt_load)
      then (true, w)
      else if ltb segment_end phdr.p_vaddr
      then (false, w)
      else load_pages ((end_page - first_page) / vmm_page_size) pml4 image phdr first_page w

  -- The headers are read from the memory as it is in each round.
  pub load_segments : (n i pml4 image : ℕ) → Elf64Image → Machine P → Bool × Machine P
  load_segments zero i pml4 image elf w = (true, w)
  load_segments (suc n) i pml4 image elf w =
      let phdr = program_header_at image elf.phoff elf.phentsize i w.memory in
      let first = load_user_segment pml4 image phdr w in
      let rest = load_segments n (i + 1) pml4 image elf first.1 in
      if first.0 then rest else (false, first.1)

  pub load_user_image_segments : (pml4 image : ℕ) → Elf64Image → Machine P → Bool × Machine P
  load_user_image_segments pml4 image elf w = load_segments elf.phnum 0 pml4 image elf w

-- The process that process_prepare_user_image writes, or `none` where it returns false; the
-- process to fill is not NULL here. The text
-- "user" stands for a name that is NULL.
pub process_prepare_user_image :
    (pid : ℕ) → Option (List ℕ) → (pml4 : ℕ) → Option Elf64Image → Option Process
process_prepare_user_image pid name pml4 none = none
process_prepare_user_image pid name pml4 (some image) =
    if pml4 == 0
    then none
    else if not (userspace_range_is_valid image.entry 1)
        || not (userspace_range_is_valid (userspace_stack_top - 1) 1)
    then none
    else some (record {
      pid = pid;
      state = process_new;
      pml4_phys = pml4;
      entry = image.entry;
      user_stack_top = userspace_stack_top;
      heap_start = userspace_heap_base;
      heap_current = userspace_heap_base;
      heap_end = userspace_heap_limit;
      main_thread = record {
        tid = 1;
        owner_pid = pid;
        state = thread_new;
        regs = record no_registers { rip = image.entry; rsp = userspace_stack_top; rflags = 0x202 };
      };
      name = take 31 (elim name [ none ↦ b'u' ∷ b's' ∷ b'e' ∷ b'r' ∷ [] | some text ↦ text ]);
      cwd = [];
    })

-- The end of process_load_user_image_bytes, with the process prepared.
abbrev pub made_ready : Option (List ℕ) → Process → Process
made_ready cwd process =
    let there =
      process_set_cwd (some (elim cwd [ none ↦ slash ∷ [] | some path ↦ path ])) process in
    record there.1 {
      state = process_ready;
      main_thread = record (there.1.main_thread) { state = thread_ready };
    }

module _ {P : Type 0} (ops : SpaceOps P) where
  -- The mapping of the segments and of the stack page.
  pub map_image : (pml4 stack_phys image : ℕ) → Elf64Image → Machine P → Bool × Machine P
  map_image pml4 stack_phys image elf w =
      let stack = ops.pmm_phys_to_virt stack_phys w.pages in
      let cleared = record w { memory = memset stack 0 vmm_page_size w.memory } in
      let (loaded, v) = load_user_image_segments ops pml4 image elf cleared in
      let (mapped, t) =
        ops.vmm_map_page_in_space pml4 (userspace_stack_top - vmm_page_size) stack_phys
          (vmm_user + vmm_writable + vmm_noexec) v.pages in
      if not loaded then (false, v) else (mapped, record v { pages = t })

  -- A failure leaves the process as it was.
  pub process_load_user_image_bytes :
      Process
      → (pid : ℕ) → Option (List ℕ)
      → (image image_size : ℕ) → Option (List ℕ)
      → Machine P
      → Bool × Process × Machine P
  process_load_user_image_bytes process pid name image image_size cwd w =
      let (pml4, s) = ops.vmm_create_address_space w.pages in
      let (stack_phys, t) = ops.pmm_alloc_page s in
      let v = record w { pages = t } in
      if pml4 == 0 || stack_phys == 0
      then (false, process, v)
      else elim (elf64_validate_user_image image image_size w.memory) [
        | none ↦ (false, process, v)
        | some elf ↦
            let (mapped, u) = map_image pml4 stack_phys image elf v in
            if not mapped
            then (false, process, u)
            else elim (process_prepare_user_image pid name pml4 (some elf)) [
              | none ↦ (false, process, u)
              | some prepared ↦ (true, made_ready cwd prepared, u)
            ]
      ]
