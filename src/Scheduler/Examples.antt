-- ===== src/Scheduler/Examples.antt =====
-- Two processes, the first of which runs the second, and the theorems at them.
use whirliscope.Prelude.{ℕ, ◌*◌, ◌≡◌, refl, true, false, some, List, [], ◌∷◌, arith}
use whirliscope.Prelude.Int.{pos}
use whirliscope.Process.{Process, process_ready, thread_ready, no_registers}
use whirliscope.Scheduler.Frames.{SyscallFrame}
use whirliscope.Scheduler.{
  Scheduler, BlockingRun, no_run, scheduler_init, scheduler_prepare_launch, scheduler_enter_current,
  start_current, start_blocking, scheduler_run_process_blocking, scheduler_finish_blocking_exit,
  entered_user,
}
use whirliscope.Scheduler.Stack.{IsStack}
use whirliscope.Scheduler.Runs.{run_of, scheduler_init-IsStack}
use whirliscope.Scheduler.Moves.{launch_lem, run_lem}
use whirliscope.Scheduler.Steps.{
  Step, launch, run_blocking, Reachable, start, step, reachable-IsStack, finish-run_blocking,
}

abbrev ready_process : ℕ → Process
ready_process n = record {
  pid = n;
  state = process_ready;
  pml4_phys = 4096 * n;
  entry = 0x40_0000;
  user_stack_top = 0x7000_0000;
  heap_start = 0x1000_0000;
  heap_current = 0x1000_0000;
  heap_end = 0x4000_0000;
  main_thread = record { tid = 1; owner_pid = n; state = thread_ready; regs = no_registers };
  name = [];
  cwd = [];
}

abbrev boot : Scheduler
boot = record {
  current = 5;
  kernel_return_context = 0;
  initialized = false;
  preemptive_enabled = false;
  ticks = 9;
  user_preemptions = 0;
  launches = 3;
  exits = 0;
  last_exit_status = pos 0;
  blocking_runs = λ i. no_run;
  blocking_run_depth = 2;
  process = ready_process;
  address_space = 0;
}

abbrev call : SyscallFrame
call = record {
  number = 40;
  arg0 = 1;
  arg1 = 2;
  arg2 = 3;
  arg3 = 4;
  arg4 = 5;
  arg5 = 6;
  rbx = 7;
  rcx = 8;
  rbp = 9;
  r11 = 10;
  r12 = 11;
  r13 = 12;
  r14 = 13;
  r15 = 14;
  user_rip = 15;
  user_rsp = 16;
  rflags = 17;
}

abbrev first : Scheduler
first = start_current (record (scheduler_init boot) { current = 1; kernel_return_context = 77 })

abbrev second : Scheduler
second = start_current (start_blocking 2 call first)

first-Step : Step (scheduler_init boot) first
unfolding scheduler_init scheduler_prepare_launch scheduler_enter_current start_current
first-Step = launch 1 77 0 0 _ first refl refl refl

second_entry : scheduler_run_process_blocking 2 (some call) first ≡ entered_user 0 0 second
unfolding scheduler_init scheduler_enter_current start_current start_blocking
    scheduler_run_process_blocking
second_entry = refl

first-Reachable : Reachable first
first-Reachable = step (scheduler_init boot) first (start boot) first-Step

second-Reachable : Reachable second
second-Reachable = step first second first-Reachable (run_blocking 2 0 0 call second second_entry)

reachable-IsStack_example : (runs : List BlockingRun) × IsStack second runs
reachable-IsStack_example = reachable-IsStack second second-Reachable

abbrev entry : Scheduler
entry = record (scheduler_init boot) { current = 1; kernel_return_context = 77 }

first-IsStack : IsStack first []
unfolding scheduler_init scheduler_prepare_launch scheduler_enter_current start_current
first-IsStack =
    launch_lem (scheduler_init boot) entry first [] 1 77 0 0 (scheduler_init-IsStack boot) refl refl
      refl

second-IsStack : IsStack second (run_of call first ∷ [])
second-IsStack = run_lem first second [] 2 0 0 call first-IsStack second_entry

finish-run_blocking_example :
    IsStack second (run_of call first ∷ [])
    × (w : Scheduler) × (scheduler_finish_blocking_exit
          (pos 3)
          (some (record call { number = 3; arg0 = 99 }))
          second
        ≡ (true, some (record call { number = 3 }), w))
    × IsStack w []
    × (w.current ≡ first.current)
unfolding start_current start_blocking
finish-run_blocking_example =
    finish-run_blocking first second second [] 2 0 0 call (record call { number = 3; arg0 = 99 })
      (pos 3) first-IsStack second_entry second-IsStack (omega arith)
