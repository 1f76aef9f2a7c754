-- ===== src/Scheduler/Stack.antt =====
-- The blocking runs of userspace/scheduler.c as a stack.
use whirliscope.Prelude.{
  ℕ, ◌+◌, ◌%◌, ◌^◌, ◌≤◌, ◌<◌, ◌≡◌, ◌≢◌, refl, sym, ap, ◌∙◌, inl, inr, Bool, true, false, ◌||◌, List,
  [], ◌∷◌, length, ◌==◌, if◌then◌else◌, arith, Bool-cases,
}
use whirliscope.Process.{
  Process, process_ready, process_running, thread_ready, thread_running, thread_blocked,
  userspace_max_processes,
}
use whirliscope.Scheduler.{Scheduler, BlockingRun, put_run, start_current}

-- The newest run stands last in the array.
abbrev pub Slots : (ℕ → BlockingRun) → List BlockingRun → Type 0
Slots f [] = Unit {0}
Slots f (r ∷ rs) = (f (length rs) ≡ r) × Slots f rs

abbrev pub waits : ℕ → List BlockingRun → Bool
waits p [] = false
waits p (r ∷ rs) = r.parent == p || waits p rs

-- The parents are blocked, and no process waits twice.
abbrev pub Waiting : (ℕ → Process) → List BlockingRun → Type 0
Waiting f [] = Unit {0}
Waiting f (r ∷ rs) =
    (0 < r.parent)
    × ((f r.parent).state ≡ process_ready)
    × ((f r.parent).main_thread.state ≡ thread_blocked)
    × (waits r.parent rs ≡ false)
    × Waiting f rs

abbrev pub Running : Process → Type 0
Running p = (p.state ≡ process_running) × (p.main_thread.state ≡ thread_running)

abbrev pub active : Scheduler → ℕ
active s = if s.current == 0 then 0 else 1

-- The scheduler has the blocking runs `runs`, newest first.
pub record IsStack (s : Scheduler) (runs : List BlockingRun) : Type 0 where
  pub depth : s.blocking_run_depth ≡ length runs
  pub bounded : length runs ≤ userspace_max_processes
  pub slots : Slots s.blocking_runs runs
  pub waiting : Waiting s.process runs
  pub running : (0 < s.current) → Running (s.process s.current)
  pub counted : s.launches ≡ (s.exits + length runs + active s) % 2 ^ 64

abbrev pub put : (ℕ → Process) → ℕ → Process → ℕ → Process
put f p v q = if q == p then v else f q

pub put_other : (f : ℕ → Process) (p q : ℕ) (v : Process) → (q == p) ≡ false → put f p v q ≡ f q
put_other f p q v e = rw e refl

pub put_self : (f : ℕ → Process) (p : ℕ) (v : Process) → put f p v p ≡ v
put_self f p v = ground arith

or_split : (a b : Bool) → (a || b) ≡ false → (a ≡ false) × (b ≡ false)
or_split true b e = absurd (ground arith)
or_split false b e = (refl, e)

pub Waiting-put :
    (f : ℕ → Process) (p : ℕ) (v : Process) (rs : List BlockingRun)
    → waits p rs ≡ false
    → Waiting f rs
    → Waiting (put f p v) rs
Waiting-put f p v [] e w = tt
Waiting-put f p v (r ∷ rs) e w =
    let (apart, rest) = or_split (r.parent == p) (waits p rs) e in
    let same = put_other f p r.parent v apart in
    (
      w.0,
      ap (λ x. x.state) same ∙ w.1,
      ap (λ x. x.main_thread.state) same ∙ w.2,
      w.3,
      Waiting-put f p v rs rest w.4,
    )

-- A process whose thread is not blocked does not wait.
pub not_waiting :
    (f : ℕ → Process) (p : ℕ) (rs : List BlockingRun)
    → (f p).main_thread.state ≢ thread_blocked
    → Waiting f rs
    → waits p rs ≡ false
not_waiting f p [] ne w = refl
not_waiting f p (r ∷ rs) ne w = elim (Bool-cases (r.parent == p)) [
  | inl e ↦ absurd (ne (ap (λ q. (f q).main_thread.state) (sym (ground arith)) ∙ w.2))
  | inr e ↦ rw e (not_waiting f p rs ne w.4)
]

pub Slots-put :
    (f : ℕ → BlockingRun) (n : ℕ) (v : BlockingRun) (rs : List BlockingRun)
    → length rs ≤ n
    → Slots f rs
    → Slots (put_run n v f) rs
Slots-put f n v [] le s = tt
Slots-put f n v (r ∷ rs) le s = (other ∙ s.0, Slots-put f n v rs (omega arith) s.1)
  where
    other : put_run n v f (length rs) ≡ f (length rs)
    other = ground arith

pub running_apart : thread_running ≢ thread_blocked
running_apart = ground arith

pub ready_apart : thread_ready ≢ thread_blocked
ready_apart = ground arith

-- To enter the current process, which does not wait, keeps the stack.
pub start_current-IsStack :
    (s : Scheduler) (runs : List BlockingRun)
    → s.blocking_run_depth ≡ length runs
    → length runs ≤ userspace_max_processes
    → Slots s.blocking_runs runs
    → Waiting s.process runs
    → 0 < s.current
    → waits s.current runs ≡ false
    → s.launches ≡ (s.exits + length runs) % 2 ^ 64
    → IsStack (start_current s) runs
unfolding start_current
start_current-IsStack s runs depth bounded slots waiting there apart counted = record {
  depth = depth;
  bounded = bounded;
  slots = slots;
  waiting = Waiting-put s.process s.current _ runs apart waiting;
  running = λ h. (
    ap (λ x. x.state) (put_self s.process s.current _),
    ap (λ x. x.main_thread.state) (put_self s.process s.current _),
  );
  counted = ground arith;
}
