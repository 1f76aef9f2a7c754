-- ===== src/Scheduler.antt =====
-- userspace/scheduler.c: launching, blocking runs, exits and timer ticks. Processes are known by
-- their addresses; 0 is NULL.
pub mod Frames
pub mod Stack
pub mod Runs
pub mod Moves
pub mod Ends
pub mod Steps
mod Examples
use whirliscope.Prelude.{
  ℕ, zero, suc, ◌+◌, ◌-◌, Bool, true, false, not, ◌&&◌, ◌||◌, Option, none, some, leb, ◌==◌,
  if◌then◌else◌, add64,
}
use whirliscope.Prelude.Int.{ℤ, pos}
use whirliscope.Process.{
  Process, ProcessState, process_ready, process_running, process_exited, process_empty, Thread,
  ThreadState, thread_empty, thread_ready, thread_running, thread_blocked, thread_exited,
  UserRegisters, no_registers, userspace_max_processes,
}
use whirliscope.Scheduler.Frames.{
  InterruptFrame, SyscallFrame, frame_is_from_user, save_user_frame, registers_from_syscall_frame,
  syscall_frame_from_registers,
}

pub record BlockingRun : Type 0 where
  pub parent : ℕ
  pub parent_regs : UserRegisters

-- Besides the variables of the file: the processes by address, and `address_space`, the argument
-- of the last vmm_activate_address_space.
pub record Scheduler : Type 0 where
  pub current : ℕ
  pub kernel_return_context : ℕ
  pub initialized : Bool
  pub preemptive_enabled : Bool
  pub ticks : ℕ
  pub user_preemptions : ℕ
  pub launches : ℕ
  pub exits : ℕ
  pub last_exit_status : ℤ
  pub blocking_runs : ℕ → BlockingRun
  pub blocking_run_depth : ℕ
  pub process : ℕ → Process
  pub address_space : ℕ

-- Where control goes from a function that does not return.
pub data Flow : Type 0 where
  entered_user : (rip rsp : ℕ) → Scheduler → Flow
  restored_context : (context value : ℕ) → Scheduler → Flow
  panicked : Flow

abbrev pub no_run : BlockingRun
no_run = record { parent = 0; parent_regs = no_registers }

abbrev pub put_process : ℕ → Process → Scheduler → Scheduler
put_process p v s = record s { process = λ q. if q == p then v else s.process q }

abbrev pub put_run : ℕ → BlockingRun → (ℕ → BlockingRun) → ℕ → BlockingRun
put_run i v runs j = if j == i then v else runs j

-- `process->state = …; process->main_thread.state = …;`
abbrev pub set_states : ℕ → ProcessState → ThreadState → Scheduler → Scheduler
set_states p state thread_state s =
    put_process p
      (record (s.process p) {
        state = state;
        main_thread = record ((s.process p).main_thread) { state = thread_state };
      })
      s

abbrev pub is_ready : Process → Bool
is_ready p = elim p.state [
  | process_ready ↦ elim p.main_thread.state [ thread_ready ↦ true | _ ↦ false ]
  | _ ↦ false
]

pub scheduler_init : Scheduler → Scheduler
scheduler_init s = record {
  current = 0;
  kernel_return_context = 0;
  initialized = true;
  preemptive_enabled = true;
  ticks = 0;
  user_preemptions = 0;
  launches = 0;
  exits = 0;
  last_exit_status = pos 0;
  blocking_runs = λ i. no_run;
  blocking_run_depth = 0;
  process = s.process;
  address_space = s.address_space;
}

pub scheduler_prepare_launch : ℕ → ℕ → Scheduler → Bool × Scheduler
scheduler_prepare_launch p return_context s =
    if not s.initialized || p == 0 || return_context == 0 || not (is_ready (s.process p))
    then (false, s)
    else (true, record s { current = p; kernel_return_context = return_context })

-- The assignments of scheduler_enter_current.
pub start_current : Scheduler → Scheduler
start_current s =
    let t =
      set_states s.current process_running thread_running
        (record s { launches = add64 s.launches 1 }) in
    record t { address_space = (t.process s.current).pml4_phys }

pub scheduler_enter_current : Scheduler → Flow
scheduler_enter_current s =
    let regs = (s.process s.current).main_thread.regs in
    if s.current == 0 || s.kernel_return_context == 0
    then panicked
    else entered_user regs.rip regs.rsp (start_current s)

-- The assignments of scheduler_run_process_blocking before it enters the process.
pub start_blocking : ℕ → SyscallFrame → Scheduler → Scheduler
start_blocking p parent_frame s =
    let t = set_states s.current process_ready thread_blocked s in
    record t {
      blocking_runs =
          put_run s.blocking_run_depth
            (record { parent = s.current; parent_regs = registers_from_syscall_frame parent_frame })
            s.blocking_runs;
      blocking_run_depth = s.blocking_run_depth + 1;
      current = p;
    }

pub scheduler_run_process_blocking : ℕ → Option SyscallFrame → Scheduler → Flow
scheduler_run_process_blocking p none s = panicked
scheduler_run_process_blocking p (some parent_frame) s =
    if not s.initialized
      || s.current == 0
      || p == 0
      || not (is_ready (s.process p))
      || leb userspace_max_processes s.blocking_run_depth
    then panicked
    else scheduler_enter_current (start_blocking p parent_frame s)

abbrev pub exit_states : ℕ → Scheduler → Scheduler
exit_states p s = if p == 0 then s else set_states p process_exited thread_exited s

-- The assignments of scheduler_finish_blocking_exit once it has found the run to go back to.
pub resume_parent : ℤ → BlockingRun → Scheduler → Scheduler
resume_parent status run s =
    let t = exit_states s.current s in
    let u =
      set_states run.parent process_running thread_running
        (record t { exits = add64 t.exits 1; last_exit_status = status; current = run.parent }) in
    record u { address_space = (u.process run.parent).pml4_phys }

pub scheduler_finish_blocking_exit :
    ℤ → Option SyscallFrame → Scheduler → Bool × Option SyscallFrame × Scheduler
scheduler_finish_blocking_exit status none s = (false, none, s)
scheduler_finish_blocking_exit status (some return_frame) s =
    let depth = s.blocking_run_depth - 1 in
    let run = s.blocking_runs depth in
    let popped = record s {
      blocking_run_depth = depth;
      blocking_runs = put_run depth no_run s.blocking_runs;
    } in
    if s.blocking_run_depth == 0
    then (false, some return_frame, s)
    else if run.parent == 0
    then (false, some return_frame, popped)
    else (
      true,
      some (syscall_frame_from_registers return_frame run.parent_regs),
      resume_parent status run popped,
    )

pub scheduler_exit_current : ℤ → Scheduler → Flow
scheduler_exit_current status s =
    let t = exit_states s.current s in
    if s.kernel_return_context == 0
    then panicked
    else restored_context s.kernel_return_context 1 (record t {
      exits = add64 t.exits 1;
      last_exit_status = status;
      current = 0;
      address_space = 0;
    })

pub scheduler_tick : Option InterruptFrame → Scheduler → Scheduler
scheduler_tick none s = record s { ticks = add64 s.ticks 1 }
scheduler_tick (some frame) s =
    let t = record s { ticks = add64 s.ticks 1 } in
    let p = t.process t.current in
    if not t.preemptive_enabled || t.current == 0 || not (frame_is_from_user frame)
    then t
    else put_process t.current (record p { main_thread = save_user_frame p.main_thread frame })
        (record t { user_preemptions = add64 t.user_preemptions 1 })

pub record SchedulerStatus : Type 0 where
  pub initialized : Bool
  pub preemptive_enabled : Bool
  pub user_task_active : Bool
  pub ticks : ℕ
  pub user_preemptions : ℕ
  pub launches : ℕ
  pub exits : ℕ
  pub last_exit_status : ℤ
  pub current_pid : ℕ
  pub current_process_state : ProcessState
  pub current_thread_state : ThreadState

pub scheduler_get_status : Scheduler → SchedulerStatus
scheduler_get_status s =
    let p = s.process s.current in
    let active = not (s.current == 0) in
    record {
      initialized = s.initialized;
      preemptive_enabled = s.preemptive_enabled;
      user_task_active = active;
      ticks = s.ticks;
      user_preemptions = s.user_preemptions;
      launches = s.launches;
      exits = s.exits;
      last_exit_status = s.last_exit_status;
      current_pid = if active then p.pid else 0;
      current_process_state = if active then p.state else process_empty;
      current_thread_state = if active then p.main_thread.state else thread_empty;
    }

pub scheduler_current_process : Scheduler → ℕ
scheduler_current_process s = s.current
