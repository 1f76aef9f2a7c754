-- ===== src/Timer/Divisor.antt =====
-- The divisor of drivers/timer.c and the frequency that it gives.
use whirliscope.Prelude.{ℕ, ◌/◌, ◌%◌, ◌≤◌, ◌≡◌, refl, ap, ◌∷◌, ltb, ◌==◌, if◌then◌else◌, arith}
use whirliscope.Timer.{Timer, pit_input_hz, divisor_for, timer_init, timer_frequency}

divisor_bounds : (hz : ℕ) → (1 ≤ divisor_for hz) × (divisor_for hz ≤ 0xffff)
unfolding divisor_for
divisor_bounds hz = (
  lower (pit_input_hz / (if hz == 0 then 100 else hz)),
  upper (pit_input_hz / (if hz == 0 then 100 else hz)),
)
  where
    lower : (d : ℕ) → 1 ≤ (if d == 0 then 1 else if ltb 0xffff d then 0xffff else d)
    lower d = ground arith

    upper : (d : ℕ) → (if d == 0 then 1 else if ltb 0xffff d then 0xffff else d) ≤ 0xffff
    upper d = ground arith

-- timer_init writes a divisor from 1 to 65535 to the timer, low byte first, and reports the
-- frequency that this divisor gives, which is 18 Hz or more.
pub timer_init-timer_frequency :
    (hz : ℕ) (t : Timer)
    → (divisor : ℕ) × (1 ≤ divisor)
      × (divisor ≤ 0xffff)
      × ((timer_init hz t).written
          ≡ (0x40, divisor / 256) ∷ (0x40, divisor % 256) ∷ (0x43, 0x36) ∷ t.written)
      × (timer_frequency (timer_init hz t) ≡ pit_input_hz / divisor)
      × (18 ≤ timer_frequency (timer_init hz t))
unfolding timer_init timer_frequency
timer_init-timer_frequency hz t =
    let (low, high) = divisor_bounds hz in
    (
      divisor_for hz,
      low,
      high,
      ap (λ b. (0x40, b) ∷ (0x40, divisor_for hz % 256) ∷ (0x43, 0x36) ∷ t.written)
          (one_byte (divisor_for hz) high),
      refl,
      slowest (divisor_for hz) low high,
    )
  where
    one_byte : (d : ℕ) → d ≤ 0xffff → d / 256 % 256 ≡ d / 256
    one_byte d h = omega arith

    slowest : (d : ℕ) → 1 ≤ d → d ≤ 0xffff → 18 ≤ pit_input_hz / d
    slowest d low high = grind arith
