-- ===== src/Scheduler/Frames.antt =====
-- userspace/scheduler.c: the three layouts of a user's registers, and the moves between them.
use whirliscope.Prelude.{ℕ, ◌%◌, ◌≡◌, refl, Bool, ◌==◌}
use whirliscope.Process.{Thread, UserRegisters}

-- arch/x86_64/idt.h.
pub record InterruptFrame : Type 0 where
  pub r15 : ℕ
  pub r14 : ℕ
  pub r13 : ℕ
  pub r12 : ℕ
  pub r11 : ℕ
  pub r10 : ℕ
  pub r9 : ℕ
  pub r8 : ℕ
  pub rbp : ℕ
  pub rdi : ℕ
  pub rsi : ℕ
  pub rdx : ℕ
  pub rcx : ℕ
  pub rbx : ℕ
  pub rax : ℕ
  pub vector : ℕ
  pub error_code : ℕ
  pub rip : ℕ
  pub cs : ℕ
  pub rflags : ℕ
  pub user_rsp : ℕ
  pub user_ss : ℕ

-- userspace/syscall.h.
pub record SyscallFrame : Type 0 where
  pub number : ℕ
  pub arg0 : ℕ
  pub arg1 : ℕ
  pub arg2 : ℕ
  pub arg3 : ℕ
  pub arg4 : ℕ
  pub arg5 : ℕ
  pub rbx : ℕ
  pub rcx : ℕ
  pub rbp : ℕ
  pub r11 : ℕ
  pub r12 : ℕ
  pub r13 : ℕ
  pub r14 : ℕ
  pub r15 : ℕ
  pub user_rip : ℕ
  pub user_rsp : ℕ
  pub rflags : ℕ

pub frame_is_from_user : InterruptFrame → Bool
frame_is_from_user frame = frame.cs % 4 == 3

pub save_user_frame : Thread → InterruptFrame → Thread
save_user_frame thread frame = record thread {
  regs = record {
    rip = frame.rip;
    rsp = frame.user_rsp;
    rflags = frame.rflags;
    rax = frame.rax;
    rbx = frame.rbx;
    rcx = frame.rcx;
    rdx = frame.rdx;
    rsi = frame.rsi;
    rdi = frame.rdi;
    rbp = frame.rbp;
    r8 = frame.r8;
    r9 = frame.r9;
    r10 = frame.r10;
    r11 = frame.r11;
    r12 = frame.r12;
    r13 = frame.r13;
    r14 = frame.r14;
    r15 = frame.r15;
  };
}

pub registers_from_syscall_frame : SyscallFrame → UserRegisters
registers_from_syscall_frame frame = record {
  rip = frame.user_rip;
  rsp = frame.user_rsp;
  rflags = frame.rflags;
  rax = 0;
  rbx = frame.rbx;
  rcx = frame.rcx;
  rdx = frame.arg2;
  rsi = frame.arg1;
  rdi = frame.arg0;
  rbp = frame.rbp;
  r8 = frame.arg4;
  r9 = frame.arg5;
  r10 = frame.arg3;
  r11 = frame.r11;
  r12 = frame.r12;
  r13 = frame.r13;
  r14 = frame.r14;
  r15 = frame.r15;
}

pub syscall_frame_from_registers : SyscallFrame → UserRegisters → SyscallFrame
syscall_frame_from_registers frame regs = record frame {
  arg0 = regs.rdi;
  arg1 = regs.rsi;
  arg2 = regs.rdx;
  arg3 = regs.r10;
  arg4 = regs.r8;
  arg5 = regs.r9;
  rbx = regs.rbx;
  rcx = regs.rcx;
  rbp = regs.rbp;
  r11 = regs.r11;
  r12 = regs.r12;
  r13 = regs.r13;
  r14 = regs.r14;
  r15 = regs.r15;
  user_rip = regs.rip;
  user_rsp = regs.rsp;
  rflags = regs.rflags;
}

pub save_user_frame_state :
    (thread : Thread) (frame : InterruptFrame) → (save_user_frame thread frame).state ≡ thread.state
unfolding save_user_frame
save_user_frame_state thread frame = refl

-- The registers saved from a system call's frame, put into another frame, give the first frame
-- again, with the number of the other one.
pub syscall_frame-registers :
    (frame other : SyscallFrame)
    → syscall_frame_from_registers other (registers_from_syscall_frame frame)
      ≡ record frame { number = other.number }
unfolding syscall_frame_from_registers registers_from_syscall_frame
syscall_frame-registers frame other = refl
