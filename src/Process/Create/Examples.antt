-- ===== src/Process/Create/Examples.antt =====
-- A file that holds a small program image, and a process made from it.
use whirliscope.Prelude.{ℕ, List}
use whirliscope.Prelude.Int.{pos}
use whirliscope.Process.{Process, no_process}
use whirliscope.Process.Examples.{fresh}
use whirliscope.Process.Image.Examples.{loaded, result}
use whirliscope.Process.Create.{Table, put, put, FileOps}

abbrev files : FileOps (ℕ × List ℕ)
files = record {
  ext2_stat = λ path w. (pos 0, record { type = 1; size = 120 }, w);
  ext2_read_file = λ path buffer size offset w. (pos 120, loaded);
  kmalloc = λ n w. (1000, w);
  kfree = λ a w. w;
}

abbrev made : Table
made = record { processes = put 1 result.1 (λ i. no_process); next_pid = 2 }

-- The process in slot 2 is in use.
abbrev busy : Table
busy = record { processes = put 2 fresh (λ i. no_process); next_pid = 4 }
