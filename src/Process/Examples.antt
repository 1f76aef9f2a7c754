-- ===== src/Process/Examples.antt =====
-- A machine that hands out one page after the other, and the theorems about processes at it.
use whirliscope.Prelude.{
  ℕ, ◌+◌, ◌/◌, ◌%◌, ◌^◌, ◌<◌, ◌≡◌, refl, ap, true, some, List, [], ◌∷◌, arith,
}
use whirliscope.Prelude.Int.{pos, negsuc}
use whirliscope.Elf.{Elf64Phdr, check_segments}
use whirliscope.Process.{Process, process_ready, thread_ready, no_registers}
use whirliscope.Process.Pages.{SpaceOps, Machine, process_sbrk}
use whirliscope.Process.Pages.Break.{IsBreak, Moved, process_sbrk-Moved}
use whirliscope.Process.Image.{load_user_segment}
use whirliscope.Process.Image.Empty.{load_user_segment-maps}

-- The state is the number of pages handed out and the list of the addresses mapped.
abbrev pub pages : SpaceOps (ℕ × List ℕ)
pages = record {
  pmm_alloc_page = λ s. (4096 + s.0, (s.0 + 4096, s.1));
  pmm_phys_to_virt = λ phys s. 0x10_0000 + phys;
  vmm_create_address_space = λ s. (4096 + s.0, (s.0 + 4096, s.1));
  vmm_map_page_in_space = λ pml4 vaddr phys flags s. (true, (s.0, vaddr ∷ s.1));
}

abbrev pub fresh : Process
fresh = record {
  pid = 1;
  state = process_ready;
  pml4_phys = 4096;
  entry = 0x40_0000;
  user_stack_top = 0x7fff_fff0_0000;
  heap_start = 0x1000_0000;
  heap_current = 0x1000_0000;
  heap_end = 0x4000_0000;
  main_thread = record { tid = 1; owner_pid = 1; state = thread_ready; regs = no_registers };
  name = [];
  cwd = [];
}

abbrev blank : Machine (ℕ × List ℕ)
blank = record { memory = λ a. 0; pages = (0, []) }

small_increment : (n : ℕ) → pos 5000 ≡ pos n → n < 2 ^ 63
small_increment n e = omega (arith, same)
  where
    same : 5000 ≡ n
    same = ap (λ z. elim z [ pos k ↦ k | negsuc k ↦ 0 ]) e

process_sbrk-Moved_example :
    let r = process_sbrk pages fresh (pos 5000) blank in
    IsBreak r.2 × (r.1 ≡ 0x1000_0000) × Moved pages fresh (pos 5000) blank r
process_sbrk-Moved_example =
    process_sbrk-Moved pages fresh (pos 5000) blank
      (record { aligned = refl; low = omega arith; high = omega arith; limit = omega arith })
      small_increment

-- A segment of no bytes inside a page of the kernel.
abbrev empty_segment : Elf64Phdr
empty_segment = record {
  p_type = 1;
  p_flags = 6;
  p_offset = 0x7000_0000;
  p_vaddr = 0xffff_c000_0000_0010;
  p_paddr = 0;
  p_filesz = 64;
  p_memsz = 0;
  p_align = 0;
}

load_user_segment-maps_example :
    (check_segments 1 0 (λ i. empty_segment) 0x40_0000 4096 true ≡ some true)
    × (flags : ℕ) × (flags / 4 % 2 ≡ 1)
    × (((load_user_segment pages 4096 1000 empty_segment blank).0 ≡ true)
        × ((load_user_segment pages 4096 1000 empty_segment blank).1.pages
            ≡ (4096, 0xffff_c000_0000_0000 ∷ [])))
load_user_segment-maps_example =
    load_user_segment-maps pages 4096 1000 (λ i. empty_segment) 0x40_0000 4096 true blank refl refl
      (omega arith) (omega arith) refl
