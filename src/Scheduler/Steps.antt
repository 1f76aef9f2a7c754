-- ===== src/Scheduler/Steps.antt =====
-- What can happen to the scheduler of userspace/scheduler.c, as steps, and what holds after any
-- number of them.
use whirliscope.Prelude.{ℕ, ◌<◌, ◌≡◌, refl, ap, ◌∙◌, true, false, Option, some, List, [], ◌∷◌}
use whirliscope.Prelude.Int.{ℤ}
use whirliscope.Process.{is_unused, Process}
use whirliscope.Scheduler.Frames.{SyscallFrame, InterruptFrame, syscall_frame-registers}
use whirliscope.Scheduler.{
  Scheduler, BlockingRun, entered_user, restored_context, put_process, resume_parent,
  scheduler_init, scheduler_prepare_launch, scheduler_enter_current, scheduler_run_process_blocking,
  scheduler_finish_blocking_exit, scheduler_exit_current, scheduler_tick,
}
use whirliscope.Scheduler.Stack.{IsStack}
use whirliscope.Scheduler.Runs.{
  scheduler_init-IsStack, run_of, popped, resume_parent-IsStack, finish_top,
}
use whirliscope.Scheduler.Moves.{HasStack, launch_lem, run_lem, finish_lem}
use whirliscope.Scheduler.Ends.{exit_lem, tick_lem, create_lem}

-- The first launch, a blocking run by a system call, an exit to the parent, an exit to the kernel
-- (tried only where there is no parent), a timer tick, and the creation of a process.
pub data Step (s : Scheduler) : Scheduler → Type 0 where
  launch :
      (p context rip rsp : ℕ) (t u : Scheduler)
      → s.current ≡ 0
      → scheduler_prepare_launch p context s ≡ (true, t)
      → scheduler_enter_current t ≡ entered_user rip rsp u
      → Step s u
  run_blocking :
      (p rip rsp : ℕ) (frame : SyscallFrame) (u : Scheduler)
      → scheduler_run_process_blocking p (some frame) s ≡ entered_user rip rsp u
      → Step s u
  finish :
      (status : ℤ) (frame : SyscallFrame) (o : Option SyscallFrame) (u : Scheduler)
      → 0 < s.current
      → scheduler_finish_blocking_exit status (some frame) s ≡ (true, o, u)
      → Step s u
  exit :
      (status : ℤ) (frame : SyscallFrame) (context value : ℕ) (u : Scheduler)
      → 0 < s.current
      → (scheduler_finish_blocking_exit status (some frame) s).0 ≡ false
      → scheduler_exit_current status s ≡ restored_context context value u
      → Step s u
  tick : (frame : Option InterruptFrame) → Step s (scheduler_tick frame s)
  create : (p : ℕ) (v : Process) → is_unused (s.process p) ≡ true → Step s (put_process p v s)

pub data Reachable : Scheduler → Type 0 where
  start : (s : Scheduler) → Reachable (scheduler_init s)
  step : (s u : Scheduler) → Reachable s → Step s u → Reachable u

step_lem : (s u : Scheduler) (runs : List BlockingRun) → IsStack s runs → Step s u → HasStack u
step_lem s u runs v (launch p context rip rsp t _ idle e f) =
    (runs, launch_lem s t u runs p context rip rsp v idle e f)
step_lem s u runs v (run_blocking p rip rsp frame _ e) =
    (run_of frame s ∷ runs, run_lem s u runs p rip rsp frame v e)
step_lem s u runs v (finish status frame o _ there e) = finish_lem s u runs status frame o v there e
step_lem s u runs v (exit status frame context value _ there refused e) =
    ([], exit_lem s u runs status frame context value v there refused e)
step_lem s _ runs v (tick frame) = (runs, tick_lem s runs frame v)
step_lem s _ runs v (create p q free) = (runs, create_lem s runs p q free v)

-- In every state that the scheduler can reach from scheduler_init, the blocking runs form a stack
-- of at most eight: each parent on it is blocked and waits once, the current process is running,
-- and all launches are those of exited, waiting and running processes.
pub reachable-IsStack : (s : Scheduler) → Reachable s → (runs : List BlockingRun) × IsStack s runs
reachable-IsStack _ (start s) = ([], scheduler_init-IsStack s)
reachable-IsStack _ (step s u r t) = let (runs, v) = reachable-IsStack s r in step_lem s u runs v t

resumed_current :
    (status : ℤ) (r : BlockingRun) (s : Scheduler) → (resume_parent status r s).current ≡ r.parent
unfolding resume_parent
resumed_current status r s = refl

-- A blocking run and the exit that ends it: whatever the child does, as long as its run is again
-- the newest when it exits, control goes back to the caller of scheduler_run_process_blocking, whose
-- system call finds all the registers of its frame but the one of the number as they were, and the
-- older runs wait as before.
pub finish-run_blocking :
    (s u w : Scheduler) (runs : List BlockingRun) (p rip rsp : ℕ) (frame other : SyscallFrame)
    (status : ℤ)
    → IsStack s runs
    → scheduler_run_process_blocking p (some frame) s ≡ entered_user rip rsp u
    → IsStack w (run_of frame s ∷ runs)
    → 0 < w.current
    → IsStack u (run_of frame s ∷ runs)
      × (w' : Scheduler) × (scheduler_finish_blocking_exit status (some other) w
          ≡ (true, some (record frame { number = other.number }), w'))
      × IsStack w' runs
      × (w'.current ≡ s.current)
finish-run_blocking s u w runs p rip rsp frame other status v e wv there =
    let back = resume_parent status (run_of frame s) (popped w (run_of frame s) runs wv) in
    (
      run_lem s u runs p rip rsp frame v e,
      back,
      finish_top w (run_of frame s) runs wv status other
          ∙ ap (λ f. (true, some f, back)) (syscall_frame-registers frame other),
      resume_parent-IsStack w (run_of frame s) runs wv status there,
      resumed_current status (run_of frame s) (popped w (run_of frame s) runs wv),
    )
