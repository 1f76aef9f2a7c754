-- ===== src/Scheduler/Ends.antt =====
-- Exits to the kernel, timer ticks and new processes, on the stack of blocking runs of
-- userspace/scheduler.c.
use whirliscope.Prelude.{
  ℕ, ◌+◌, ◌%◌, ◌^◌, ◌<◌, ◌≡◌, ◌≢◌, refl, sym, ap, subst, ◌∙◌, inl, inr, Bool, true, false, not,
  ◌||◌, Option, none, some, List, [], ◌∷◌, ◌==◌, if◌then◌else◌, add64, arith, Bool-cases,
}
use whirliscope.Prelude.Int.{ℤ}
use whirliscope.Process.{
  is_unused, Process, process_ready, process_running, process_exited, thread_exited,
}
use whirliscope.Scheduler.Frames.{
  SyscallFrame, InterruptFrame, frame_is_from_user, save_user_frame_state,
}
use whirliscope.Scheduler.{
  Scheduler, BlockingRun, restored_context, put_process, set_states, exit_states,
  scheduler_finish_blocking_exit, scheduler_exit_current, scheduler_tick,
}
use whirliscope.Scheduler.Stack.{
  waits, Waiting, IsStack, put_other, put_self, Waiting-put, not_waiting, running_apart,
}
use whirliscope.Scheduler.Runs.{finish_top}
use whirliscope.Scheduler.Moves.{flow_state, behind_panic}

counted_exit :
    (current launches exits : ℕ)
    → 0 < current
    → launches ≡ (exits + 0 + (if current == 0 then 0 else 1)) % 2 ^ 64
    → launches ≡ ((exits + 1) % 2 ^ 64 + 0 + 0) % 2 ^ 64
counted_exit current launches exits there e = ground arith

pub exit_lem :
    (s u : Scheduler) (runs : List BlockingRun) (status : ℤ) (frame : SyscallFrame)
    (context value : ℕ)
    → IsStack s runs
    → 0 < s.current
    → (scheduler_finish_blocking_exit status (some frame) s).0 ≡ false
    → scheduler_exit_current status s ≡ restored_context context value u
    → IsStack u []
unfolding scheduler_exit_current
exit_lem s u (r ∷ runs) status frame context value v there refused e = absurd (
    differ (
      sym (
        ap {A = Bool × Option SyscallFrame × Scheduler} (λ x. x.0)
          (finish_top s r runs v status frame))
      ∙ refused))
  where
    differ : true ≡ false → ⊥
    differ h = ground arith
exit_lem s u [] status frame context value v there refused e =
    let (good, f) =
      behind_panic (s.kernel_return_context == 0) (restored_context context value u) _
        (ground arith) e in
    subst (λ x. IsStack x []) (ap (flow_state s) f)
      (rw (exited s there) (record {
        depth = v.depth;
        bounded = v.bounded;
        slots = tt;
        waiting = tt;
        running = λ h. absurd (omega arith);
        counted = counted_exit s.current s.launches s.exits there v.counted;
      }))
  where
    exited :
        (s : Scheduler)
        → 0 < s.current
        → exit_states s.current s ≡ set_states s.current process_exited thread_exited s
    exited s h = ground arith

-- The current process may change in all but its states.
kept :
    (s : Scheduler) (runs : List BlockingRun) (q : Process)
    → IsStack s runs
    → 0 < s.current
    → q.state ≡ (s.process s.current).state
    → q.main_thread.state ≡ (s.process s.current).main_thread.state
    → IsStack
        (put_process s.current q
          (record s { ticks = add64 s.ticks 1; user_preemptions = add64 s.user_preemptions 1 }))
        runs
kept s runs q v there e f = record {
  depth = v.depth;
  bounded = v.bounded;
  slots = v.slots;
  waiting =
      Waiting-put s.process s.current q runs
        (not_waiting s.process s.current runs (λ h. running_apart (sym (v.running there).1 ∙ h))
          v.waiting)
        v.waiting;
  running = λ h. (
    ap (λ x. x.state) (put_self s.process s.current q) ∙ e ∙ (v.running there).0,
    ap (λ x. x.main_thread.state) (put_self s.process s.current q) ∙ f ∙ (v.running there).1,
  );
  counted = v.counted;
}

unused_ready : (p : Process) → is_unused p ≡ true → p.state ≢ process_ready
unused_ready p free e = ground arith

unused_running : (p : Process) → is_unused p ≡ true → p.state ≢ process_running
unused_running p free e = ground arith

unused_waits :
    (f : ℕ → Process) (p : ℕ) (runs : List BlockingRun)
    → is_unused (f p) ≡ true
    → Waiting f runs
    → waits p runs ≡ false
unused_waits f p [] free w = refl
unused_waits f p (r ∷ runs) free w = elim (Bool-cases (r.parent == p)) [
  | inl e ↦ absurd (unused_ready (f p) free (ap (λ q. (f q).state) (sym (ground arith)) ∙ w.1))
  | inr e ↦ rw e (unused_waits f p runs free w.4)
]

unused_current :
    (s : Scheduler) (p : ℕ) {runs : List BlockingRun}
    → is_unused (s.process p) ≡ true
    → IsStack s runs
    → 0 < s.current
    → (s.current == p) ≡ false
unused_current s p free v there = elim (Bool-cases (s.current == p)) [
  | inl e ↦ absurd (
      unused_running (s.process p) free
        (ap (λ q. (s.process q).state) (sym (ground arith)) ∙ (v.running there).0))
  | inr e ↦ e
]

ticked :
    (s : Scheduler) (runs : List BlockingRun)
    → IsStack s runs
    → IsStack (record s { ticks = add64 s.ticks 1 }) runs
ticked s runs v = record {
  depth = v.depth;
  bounded = v.bounded;
  slots = v.slots;
  waiting = v.waiting;
  running = v.running;
  counted = v.counted;
}

pub tick_lem :
    (s : Scheduler) (runs : List BlockingRun) (frame : Option InterruptFrame)
    → IsStack s runs
    → IsStack (scheduler_tick frame s) runs
unfolding scheduler_tick
tick_lem s runs none v = ticked s runs v
tick_lem s runs (some frame) v =
    elim (Bool-cases
      (not s.preemptive_enabled || s.current == 0 || not (frame_is_from_user frame))) [
        | inl skipped ↦ rw skipped (ticked s runs v)
        | inr saved ↦ rw saved (
            kept s runs _ v (ground arith) refl
              (save_user_frame_state (s.process s.current).main_thread frame))
      ]

pub create_lem :
    (s : Scheduler) (runs : List BlockingRun) (p : ℕ) (q : Process)
    → is_unused (s.process p) ≡ true
    → IsStack s runs
    → IsStack (put_process p q s) runs
create_lem s runs p q free v = record {
  depth = v.depth;
  bounded = v.bounded;
  slots = v.slots;
  waiting = Waiting-put s.process p q runs (unused_waits s.process p runs free v.waiting) v.waiting;
  running = λ h.
      let same = put_other s.process p s.current q (unused_current s p free v h) in
      (
        ap (λ x. x.state) same ∙ (v.running h).0,
        ap (λ x. x.main_thread.state) same ∙ (v.running h).1,
      );
  counted = v.counted;
}
