-- ===== src/Process/Image/Ready.antt =====
-- The processes that userspace/process.c makes ready.
use whirliscope.Prelude.{ℕ, ◌≡◌, Bool}
use whirliscope.Elf.{Elf64Image}
use whirliscope.Elf.Sound.{IsLoadable}
use whirliscope.Process.{Process, process_ready, thread_ready}
use whirliscope.Process.Pages.{Machine}
use whirliscope.Process.Pages.Break.{IsBreak}
use whirliscope.Process.Image.{userspace_stack_top}

-- A process that can be launched, at the entry point of an image that was checked.
pub record IsLaunchable (p : Process) (pid image image_size : ℕ) (m : ℕ → ℕ) : Type 0 where
  pub number : p.pid ≡ pid
  pub ready : p.state ≡ process_ready
  pub thread : p.main_thread.state ≡ thread_ready
  pub at_entry : p.main_thread.regs.rip ≡ p.entry
  pub stack : p.main_thread.regs.rsp ≡ userspace_stack_top
  pub empty_heap : p.heap_current ≡ p.heap_start
  pub heap_limits : (p.heap_start ≡ 0x1000_0000) × (p.heap_end ≡ 0x4000_0000)
  pub heap : IsBreak p
  pub loadable : (elf : Elf64Image) × (elf.entry ≡ p.entry) × IsLoadable image image_size m elf

-- What process_prepare_user_image makes sure of.
record IsPrepared (p : Process) (pid entry : ℕ) : Type 0 where
  number : p.pid ≡ pid
  entry_point : p.entry ≡ entry
  at_entry : p.main_thread.regs.rip ≡ entry
  stack : p.main_thread.regs.rsp ≡ userspace_stack_top
  empty_heap : p.heap_current ≡ p.heap_start
  heap_limits : (p.heap_start ≡ 0x1000_0000) × (p.heap_end ≡ 0x4000_0000)
  heap : IsBreak p

abbrev Result : Type 0 → Type 0
Result P = Bool × Process × Machine P
