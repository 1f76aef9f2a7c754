-- ===== src/Timer/Examples.antt =====
-- The timer at 1000 Hz.
use whirliscope.Prelude.{[]}
use whirliscope.Timer.{Timer}

abbrev off : Timer
off = record { ticks = 4; current_frequency = 0; written = [] }
