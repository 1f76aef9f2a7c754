-- ===== src/Process/Pages.antt =====
-- userspace/process.c: what it uses of the page managers, and the mapping of a run of zeroed pages
-- in process_sbrk.
pub mod Run
pub mod Break
use whirliscope.Prelude.{
  ℕ, zero, suc, ◌+◌, ◌-◌, ◌*◌, ◌/◌, ◌%◌, ◌^◌, Bool, true, false, not, ◌&&◌, ◌||◌, Option, none,
  some, ltb, ◌==◌, if◌then◌else◌, add64, align_down, align_up,
}
use whirliscope.Prelude.Int.{ℤ, pos, negsuc}
use whirliscope.Libc.Memory.{Memory}
use whirliscope.Libc.Block.{memset}
use whirliscope.Process.{Process}

abbrev pub vmm_page_size : ℕ
vmm_page_size = 4096

abbrev pub vmm_writable : ℕ
vmm_writable = 2

abbrev pub vmm_user : ℕ
vmm_user = 4

abbrev pub vmm_noexec : ℕ
vmm_noexec = 2 ^ 63

-- The page managers as this file uses them.
pub record SpaceOps (P : Type 0) : Type 0 where
  pub pmm_alloc_page : P → ℕ × P
  pub pmm_phys_to_virt : ℕ → P → ℕ
  pub vmm_create_address_space : P → ℕ × P
  pub vmm_map_page_in_space : (pml4 vaddr phys flags : ℕ) → P → Bool × P

-- The state below a process: memory, and that of the page managers.
pub record Machine (P : Type 0) : Type 0 where
  pub memory : Memory
  pub pages : P

-- The number of pages that the loop of process_sbrk maps.
abbrev pub pages_between : ℕ → ℕ → ℕ
pages_between low high = (align_up high vmm_page_size - align_up low vmm_page_size) / vmm_page_size

module _ {P : Type 0} (ops : SpaceOps P) where
  -- One round of process_sbrk's loop.
  pub map_zero_page : (pml4 vaddr : ℕ) → Machine P → Bool × Machine P
  map_zero_page pml4 vaddr w =
      let (phys, s) = ops.pmm_alloc_page w.pages in
      let m = memset (ops.pmm_phys_to_virt phys s) 0 vmm_page_size w.memory in
      let (mapped, t) =
        ops.vmm_map_page_in_space pml4 vaddr phys (vmm_user + vmm_writable + vmm_noexec) s in
      if phys == 0
      then (false, record { memory = w.memory; pages = s })
      else (mapped, record { memory = m; pages = t })

  -- The loop, with the rounds that are left.
  pub map_zero_pages : (n pml4 vaddr : ℕ) → Machine P → Bool × Machine P
  map_zero_pages zero pml4 vaddr w = (true, w)
  map_zero_pages (suc n) pml4 vaddr w =
      let first = map_zero_page pml4 vaddr w in
      let rest = map_zero_pages n pml4 (vaddr + vmm_page_size) first.1 in
      if first.0 then rest else (false, first.1)

  -- Neither pointer is NULL here. The results are the function's own, `*old_break` where it is written, the process and the
  -- machine.
  pub process_sbrk : Process → ℤ → Machine P → Bool × ℕ × Process × Machine P
  process_sbrk process (negsuc n) w = (false, process.heap_current, process, w)
  process_sbrk process (pos amount) w =
      let new_break = add64 process.heap_current amount in
      let start = align_up process.heap_current vmm_page_size in
      let mapped =
        map_zero_pages (pages_between process.heap_current new_break) process.pml4_phys start w in
      if amount == 0
      then (true, process.heap_current, process, w)
      else if ltb new_break process.heap_current || ltb process.heap_end new_break
      then (false, process.heap_current, process, w)
      else if mapped.0
      then (true, process.heap_current, record process { heap_current = new_break }, mapped.1)
      else (false, process.heap_current, process, mapped.1)
