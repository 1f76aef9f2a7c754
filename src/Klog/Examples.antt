-- ===== src/Klog/Examples.antt =====
-- Runs of the log of kernel/klog.c, and its theorems at them.
use whirliscope.Prelude.{ℕ, ◌≡◌, refl, List, [], ◌∷◌}
use whirliscope.Libc.Memory.{Memory}
use whirliscope.Klog.{Klog, klog_write, klog_copy_tail}
use whirliscope.Klog.Ring.{IsLog, klog_write-IsLog}
use whirliscope.Klog.Tail.{tail_at, klog_copy_tail-tail_at}

-- The static variables are zero at first.
abbrev fresh_log : Klog
fresh_log = record { ring = λ i. 0; head = 0; used = 0; total = 0 }

fresh-IsLog : IsLog [] fresh_log
fresh-IsLog = record { head = refl; used = refl; total = refl; holds = λ j lo hi. elim lo [ ] }

abbrev letters : List ℕ
letters = b'a' ∷ b'b' ∷ b'c' ∷ []

abbrev zeros : Memory
zeros a = 0

klog_write-IsLog_example : IsLog letters (klog_write letters fresh_log)
klog_write-IsLog_example = klog_write-IsLog [] letters fresh_log fresh-IsLog

klog_copy_tail-tail_at_example :
    ((klog_copy_tail 50 2 (klog_write letters fresh_log) zeros).0 ≡ 2)
    × ((a : ℕ)
        → (klog_copy_tail 50 2 (klog_write letters fresh_log) zeros).1 a
          ≡ tail_at letters 2 50 zeros a)
klog_copy_tail-tail_at_example =
    klog_copy_tail-tail_at letters (klog_write letters fresh_log) 50 2 zeros
      (klog_write-IsLog [] letters fresh_log fresh-IsLog)
