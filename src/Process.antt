-- ===== src/Process.antt =====
-- userspace/process.c: processes and their threads. A string in a buffer is the list of its
-- characters.
pub mod Pages
pub mod Image
pub mod Create
mod Examples
use whirliscope.Prelude.{
  ℕ, Bool, true, false, not, ◌||◌, Option, none, some, List, [], ◌∷◌, take, ◌==◌, if◌then◌else◌,
}

abbrev pub process_name_size : ℕ
process_name_size = 32

abbrev pub userspace_max_processes : ℕ
userspace_max_processes = 8

pub data ProcessState : Type 0 where
  process_empty : ProcessState
  process_new : ProcessState
  process_ready : ProcessState
  process_running : ProcessState
  process_exited : ProcessState

pub data ThreadState : Type 0 where
  thread_empty : ThreadState
  thread_new : ThreadState
  thread_ready : ThreadState
  thread_running : ThreadState
  thread_blocked : ThreadState
  thread_exited : ThreadState

pub record UserRegisters : Type 0 where
  pub rip : ℕ
  pub rsp : ℕ
  pub rflags : ℕ
  pub rax : ℕ
  pub rbx : ℕ
  pub rcx : ℕ
  pub rdx : ℕ
  pub rsi : ℕ
  pub rdi : ℕ
  pub rbp : ℕ
  pub r8 : ℕ
  pub r9 : ℕ
  pub r10 : ℕ
  pub r11 : ℕ
  pub r12 : ℕ
  pub r13 : ℕ
  pub r14 : ℕ
  pub r15 : ℕ

-- The registers that memset leaves.
abbrev pub no_registers : UserRegisters
no_registers = record {
  rip = 0;
  rsp = 0;
  rflags = 0;
  rax = 0;
  rbx = 0;
  rcx = 0;
  rdx = 0;
  rsi = 0;
  rdi = 0;
  rbp = 0;
  r8 = 0;
  r9 = 0;
  r10 = 0;
  r11 = 0;
  r12 = 0;
  r13 = 0;
  r14 = 0;
  r15 = 0;
}

pub record Thread : Type 0 where
  pub tid : ℕ
  pub owner_pid : ℕ
  pub state : ThreadState
  pub regs : UserRegisters

pub record Process : Type 0 where
  pub pid : ℕ
  pub state : ProcessState
  pub pml4_phys : ℕ
  pub entry : ℕ
  pub user_stack_top : ℕ
  pub heap_start : ℕ
  pub heap_current : ℕ
  pub heap_end : ℕ
  pub main_thread : Thread
  pub name : List ℕ
  pub cwd : List ℕ

-- A slot of the table that memset has cleared.
abbrev pub no_process : Process
no_process = record {
  pid = 0;
  state = process_empty;
  pml4_phys = 0;
  entry = 0;
  user_stack_top = 0;
  heap_start = 0;
  heap_current = 0;
  heap_end = 0;
  main_thread = record { tid = 0; owner_pid = 0; state = thread_empty; regs = no_registers };
  name = [];
  cwd = [];
}

-- A slot that process creation may fill.
abbrev pub is_unused : Process → Bool
is_unused p = elim p.state [ process_empty ↦ true | process_exited ↦ true | _ ↦ false ]

abbrev pub user_fs_path_size : ℕ
user_fs_path_size = 128

abbrev slash : ℕ
slash = b'/'

-- `strncpy(buffer, path, n - 1)` and a zero behind it keep the first `n - 1` characters.
unfoldable pub process_set_cwd : Option (List ℕ) → Process → Bool × Process
process_set_cwd none process = (false, process)
process_set_cwd (some []) process = (false, process)
process_set_cwd (some (c ∷ path)) process =
    if not (c == slash)
    then (false, process)
    else (true, record process { cwd = take 127 (c ∷ path) })
