-- ===== src/Timer.antt =====
-- drivers/timer.c: the divisor of the interval timer, the tick count, and the bounded wait.
pub mod Divisor
mod Examples
use whirliscope.Prelude.{
  ℕ, zero, suc, ◌+◌, ◌/◌, ◌%◌, Bool, true, ◌&&◌, not, Option, List, [], ◌∷◌, ltb, leb, ◌==◌,
  if◌then◌else◌, add64,
}
use whirliscope.Scheduler.{Scheduler, scheduler_tick}
use whirliscope.Scheduler.Frames.{InterruptFrame}

abbrev pub pit_input_hz : ℕ
pit_input_hz = 1193182

-- The two variables, and the bytes written to ports so far, newest first.
pub record Timer : Type 0 where
  pub ticks : ℕ
  pub current_frequency : ℕ
  pub written : List (ℕ × ℕ)

pub timer_irq : Option InterruptFrame → Timer × Scheduler → Timer × Scheduler
timer_irq frame (t, s) = (record t { ticks = add64 t.ticks 1 }, scheduler_tick frame s)

-- The divisor that timer_init programs.
pub divisor_for : ℕ → ℕ
divisor_for frequency_hz =
    let divisor = pit_input_hz / (if frequency_hz == 0 then 100 else frequency_hz) in
    if divisor == 0 then 1 else if ltb 0xffff divisor then 0xffff else divisor

-- The registration of the handler and the unmasking of the interrupt are left out.
pub timer_init : ℕ → Timer → Timer
timer_init frequency_hz t =
    let divisor = divisor_for frequency_hz in
    record {
      ticks = 0;
      current_frequency = pit_input_hz / divisor;
      written = (0x40, divisor / 256 % 256) ∷ (0x40, divisor % 256) ∷ (0x43, 0x36) ∷ t.written;
    }

pub timer_ticks : Timer → ℕ
timer_ticks t = t.ticks

pub timer_frequency : Timer → ℕ
timer_frequency t = t.current_frequency

-- The loop of timer_wait_ticks: `now i` is what timer_ticks returns the time number `i` that it is
-- called. The result is the number of calls.
pub wait_loop : (left i target : ℕ) → (ℕ → ℕ) → ℕ
wait_loop zero i target now = suc i
wait_loop (suc left) i target now =
    let rest = wait_loop left (i + 1) target now in if ltb (now i) target then rest else suc i

pub timer_wait_ticks : (wait_ticks spin_limit : ℕ) → (ℕ → ℕ) → Bool
timer_wait_ticks wait_ticks spin_limit now =
    let target = add64 (now 0) wait_ticks in leb target (now (wait_loop spin_limit 1 target now))
