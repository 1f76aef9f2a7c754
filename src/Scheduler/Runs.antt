-- ===== src/Scheduler/Runs.antt =====
-- Launches, blocking runs and exits of userspace/scheduler.c on the stack of blocking runs.
use whirliscope.Prelude.{
  ℕ, suc, ◌+◌, ◌-◌, ◌%◌, ◌^◌, ◌<◌, ◌≡◌, ◌≢◌, refl, sym, ap, ◌∙◌, inl, inr, true, false, ◌||◌, some,
  List, [], ◌∷◌, length, ◌==◌, if◌then◌else◌, arith, Bool-cases,
}
use whirliscope.Prelude.Int.{ℤ}
use whirliscope.Process.{
  Process, process_exited, thread_running, thread_blocked, thread_exited, userspace_max_processes,
}
use whirliscope.Scheduler.Frames.{
  SyscallFrame, registers_from_syscall_frame, syscall_frame_from_registers,
}
use whirliscope.Scheduler.{
  Scheduler, BlockingRun, no_run, put_run, set_states, is_ready, start_current, start_blocking,
  resume_parent, exit_states, scheduler_init, scheduler_finish_blocking_exit,
}
use whirliscope.Scheduler.Stack.{
  waits, IsStack, put, put_self, Waiting-put, not_waiting, Slots-put, running_apart,
  start_current-IsStack,
}

pub is_ready_thread : (p : Process) → is_ready p ≡ true → p.main_thread.state ≢ thread_blocked
is_ready_thread p r e = ground arith

pub ready_running : (p : Process) → is_ready p ≡ true → p.main_thread.state ≢ thread_running
ready_running p r e = ground arith

-- scheduler_init starts with no process and no blocking run.
pub scheduler_init-IsStack : (s : Scheduler) → IsStack (scheduler_init s) []
unfolding scheduler_init
scheduler_init-IsStack s = record {
  depth = refl;
  bounded = omega arith;
  slots = tt;
  waiting = tt;
  running = λ h. absurd (omega arith);
  counted = refl;
}

abbrev pub run_of : SyscallFrame → Scheduler → BlockingRun
run_of frame s = record { parent = s.current; parent_regs = registers_from_syscall_frame frame }

slot : (f : ℕ → BlockingRun) (n i : ℕ) (r : BlockingRun) → n ≡ i → put_run n r f i ≡ r
slot f n i r e = ground arith

counted_run :
    (current launches n m : ℕ)
    → 0 < current
    → launches ≡ (n + (if current == 0 then 0 else 1)) % 2 ^ 64
    → m ≡ n + 1
    → launches ≡ m % 2 ^ 64
counted_run current launches n m there e f = ground arith

-- A process that is ready is neither current nor waiting.
not_current :
    (f : ℕ → Process) (p q : ℕ)
    → (f q).main_thread.state ≡ thread_running
    → is_ready (f p) ≡ true
    → (q == p) ≡ false
not_current f p q run ready = elim (Bool-cases (q == p)) [
  | inl e ↦
      absurd
        (ready_running (f p) ready (ap (λ x. (f x).main_thread.state) (sym (ground arith)) ∙ run))
  | inr e ↦ e
]

pub start_blocking-IsStack :
    (p : ℕ) (frame : SyscallFrame) (s : Scheduler) (runs : List BlockingRun)
    → IsStack s runs
    → 0 < s.current
    → 0 < p
    → is_ready (s.process p) ≡ true
    → length runs < userspace_max_processes
    → IsStack (start_current (start_blocking p frame s)) (run_of frame s ∷ runs)
unfolding start_blocking
start_blocking-IsStack p frame s runs v there pos ready room =
    start_current-IsStack (start_blocking p frame s) (run_of frame s ∷ runs)
      (omega (arith, v.depth)) (omega arith)
      (
        slot s.blocking_runs s.blocking_run_depth (length runs) (run_of frame s) v.depth,
        Slots-put s.blocking_runs s.blocking_run_depth (run_of frame s) runs
            (omega (arith, v.depth)) v.slots,
      )
      (
        there,
        ap (λ x. x.state) (put_self s.process s.current _),
        ap (λ x. x.main_thread.state) (put_self s.process s.current _),
        here,
        Waiting-put s.process s.current _ runs here v.waiting,
      )
      pos apart
      (counted_run s.current s.launches (s.exits + length runs) _ there v.counted (omega arith))
  where
    here : waits s.current runs ≡ false
    here =
        not_waiting s.process s.current runs (λ e. running_apart (sym (v.running there).1 ∙ e))
          v.waiting

    apart : (s.current == p || waits p runs) ≡ false
    apart =
        rw (not_current s.process p s.current (v.running there).1 ready)
          (not_waiting s.process p runs (is_ready_thread (s.process p) ready) v.waiting)

counted_finish :
    (current parent launches exits n : ℕ)
    → 0 < current
    → 0 < parent
    → launches ≡ (exits + suc n + (if current == 0 then 0 else 1)) % 2 ^ 64
    → launches ≡ ((exits + 1) % 2 ^ 64 + n + (if parent == 0 then 0 else 1)) % 2 ^ 64
counted_finish current parent launches exits n there pos e = ground arith

module _ (s : Scheduler) (r : BlockingRun) (runs : List BlockingRun)
    (v : IsStack s (r ∷ runs)) where
  abbrev pub popped : Scheduler
  popped = record s {
    blocking_run_depth = s.blocking_run_depth - 1;
    blocking_runs = put_run (s.blocking_run_depth - 1) no_run s.blocking_runs;
  }

  top : s.blocking_runs (s.blocking_run_depth - 1) ≡ r
  top = ap s.blocking_runs (omega (arith, v.depth)) ∙ v.slots.0

  exited : (p : ℕ) → 0 < p → exit_states p popped ≡ set_states p process_exited thread_exited popped
  exited p h = ground arith

  -- The parent of the newest run goes on, and that run is off the stack.
  pub resume_parent-IsStack :
      (status : ℤ) → 0 < s.current → IsStack (resume_parent status r popped) runs
  unfolding resume_parent
  resume_parent-IsStack status there = rw (exited s.current there) (record {
    depth = omega (arith, v.depth);
    bounded = omega (arith, v.bounded);
    slots =
        Slots-put s.blocking_runs (s.blocking_run_depth - 1) no_run runs (omega (arith, v.depth))
          v.slots.1;
    waiting =
        Waiting-put (put s.process s.current _) r.parent _ runs v.waiting.3
          (Waiting-put s.process s.current _ runs idle v.waiting.4);
    running = λ h. (
      ap (λ x. x.state) (put_self (put s.process s.current _) r.parent _),
      ap (λ x. x.main_thread.state) (put_self (put s.process s.current _) r.parent _),
    );
    counted =
        counted_finish s.current r.parent s.launches s.exits (length runs) there v.waiting.0
          v.counted;
  })
    where
      idle : waits s.current runs ≡ false
      idle =
          not_waiting s.process s.current runs (λ e. running_apart (sym (v.running there).1 ∙ e))
            v.waiting.4

  pub finish_top :
      (status : ℤ) (frame : SyscallFrame)
      → scheduler_finish_blocking_exit status (some frame) s ≡ (
        true,
        some (syscall_frame_from_registers frame r.parent_regs),
        resume_parent status r popped,
      )
  unfolding scheduler_finish_blocking_exit
  finish_top status frame = rw (deep, top, parent) refl
    where
      deep : (s.blocking_run_depth == 0) ≡ false
      deep = ground (arith, v.depth)

      parent : (r.parent == 0) ≡ false
      parent = ground (arith, v.waiting.0)
