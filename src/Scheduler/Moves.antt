-- ===== src/Scheduler/Moves.antt =====
-- What each call of userspace/scheduler.c does to the stack of blocking runs.
use whirliscope.Prelude.{
  ℕ, ◌+◌, ◌%◌, ◌^◌, ◌<◌, ◌≡◌, ◌≢◌, refl, sym, ap, subst, ◌∙◌, Bool, true, false, not, ◌||◌, Option,
  some, List, [], ◌∷◌, length, leb, ◌==◌, if◌then◌else◌, arith,
}
use whirliscope.Prelude.Int.{ℤ}
use whirliscope.Process.{userspace_max_processes}
use whirliscope.Scheduler.Frames.{SyscallFrame}
use whirliscope.Scheduler.{
  Scheduler, BlockingRun, Flow, entered_user, restored_context, panicked, is_ready, start_current,
  start_blocking, scheduler_prepare_launch, scheduler_enter_current, scheduler_run_process_blocking,
  scheduler_finish_blocking_exit,
}
use whirliscope.Scheduler.Stack.{IsStack, not_waiting, start_current-IsStack}
use whirliscope.Scheduler.Runs.{
  is_ready_thread, run_of, start_blocking-IsStack, resume_parent-IsStack, finish_top,
}

abbrev pub flow_state : Scheduler → Flow → Scheduler
flow_state s (entered_user rip rsp t) = t
flow_state s (restored_context context value t) = t
flow_state s panicked = s

-- Some stack of runs.
abbrev pub HasStack : Scheduler → Type 0
HasStack s = (runs : List BlockingRun) × IsStack s runs

pub behind_panic :
    (b : Bool) (r t : Flow) → r ≢ panicked → (if b then panicked else t) ≡ r → (b ≡ false) × (t ≡ r)
behind_panic true r t ne e = absurd (ne (sym e))
behind_panic false r t ne e = (refl, e)

enter_lem :
    (s u : Scheduler) (rip rsp : ℕ)
    → scheduler_enter_current s ≡ entered_user rip rsp u
    → (0 < s.current) × (start_current s ≡ u)
unfolding scheduler_enter_current
enter_lem s u rip rsp e =
    let (b, f) =
      behind_panic (s.current == 0 || s.kernel_return_context == 0) (entered_user rip rsp u) _
        (ground arith) e in
    (ground arith, ap (flow_state s) f)

behind_false :
    {A : Type 0} (b : Bool) (x t u : A)
    → ◌≡◌ {A = Bool × A} (if b then (false, x) else (true, t)) (true, u)
    → (b ≡ false) × (t ≡ u)
behind_false {A} true x t u e = absurd (differ (ap {A = Bool × A} (λ r. r.0) e))
  where
    differ : false ≡ true → ⊥
    differ h = ground arith
behind_false {A} false x t u e = (refl, ap {A = Bool × A} (λ r. r.1) e)

counted_idle :
    (current launches n : ℕ)
    → current ≡ 0
    → launches ≡ (n + (if current == 0 then 0 else 1)) % 2 ^ 64
    → launches ≡ n % 2 ^ 64
counted_idle current launches n idle e = ground arith

pub launch_lem :
    (s t u : Scheduler) (runs : List BlockingRun) (p context rip rsp : ℕ)
    → IsStack s runs
    → s.current ≡ 0
    → scheduler_prepare_launch p context s ≡ (true, t)
    → scheduler_enter_current t ≡ entered_user rip rsp u
    → IsStack u runs
unfolding scheduler_prepare_launch
launch_lem s t u runs p context rip rsp v idle e f =
    let (good, same) =
      behind_false (not s.initialized || p == 0 || context == 0 || not (is_ready (s.process p))) s _
        t e in
    let pos : 0 < p = ground arith in
    let ready : is_ready (s.process p) ≡ true = ground arith in
    let there = record s { current = p; kernel_return_context = context } in
    let enter = enter_lem t u rip rsp f in
    subst (λ x. IsStack x runs) (ap start_current same ∙ enter.1)
      (start_current-IsStack there runs v.depth v.bounded v.slots v.waiting pos
        (not_waiting s.process p runs (is_ready_thread (s.process p) ready) v.waiting)
        (counted_idle s.current s.launches (s.exits + length runs) idle v.counted))

pub run_lem :
    (s u : Scheduler) (runs : List BlockingRun) (p rip rsp : ℕ) (frame : SyscallFrame)
    → IsStack s runs
    → scheduler_run_process_blocking p (some frame) s ≡ entered_user rip rsp u
    → IsStack u (run_of frame s ∷ runs)
unfolding scheduler_run_process_blocking
run_lem s u runs p rip rsp frame v e =
    let (good, f) =
      behind_panic
        (not s.initialized
          || s.current == 0
          || p == 0
          || not (is_ready (s.process p))
          || leb userspace_max_processes s.blocking_run_depth)
        (entered_user rip rsp u) _ (ground arith) e in
    let (entered, same) = enter_lem (start_blocking p frame s) u rip rsp f in
    subst (λ x. IsStack x (run_of frame s ∷ runs)) same
      (start_blocking-IsStack p frame s runs v (ground arith) (ground arith) (ground arith)
        (ground (arith, v.depth)))

finish_empty :
    (s : Scheduler) (status : ℤ) (frame : SyscallFrame)
    → IsStack s []
    → scheduler_finish_blocking_exit status (some frame) s ≡ (false, some frame, s)
unfolding scheduler_finish_blocking_exit
finish_empty s status frame v = rw empty refl
  where
    empty : (s.blocking_run_depth == 0) ≡ true
    empty = ground (arith, v.depth)

pub finish_lem :
    (s u : Scheduler) (runs : List BlockingRun) (status : ℤ) (frame : SyscallFrame)
    (o : Option SyscallFrame)
    → IsStack s runs
    → 0 < s.current
    → scheduler_finish_blocking_exit status (some frame) s ≡ (true, o, u)
    → HasStack u
finish_lem s u [] status frame o v there e = absurd (
    differ (
      ap {A = Bool × Option SyscallFrame × Scheduler} (λ r. r.0)
        (sym (finish_empty s status frame v) ∙ e)))
  where
    differ : false ≡ true → ⊥
    differ h = ground arith
finish_lem s u (r ∷ runs) status frame o v there e = (
  runs,
  subst (λ x. IsStack x runs)
      (ap {A = Bool × Option SyscallFrame × Scheduler} (λ x. x.2)
        (sym (finish_top s r runs v status frame) ∙ e))
      (resume_parent-IsStack s r runs v status there),
)
