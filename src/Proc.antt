-- ===== src/Proc.antt =====
-- kernel/proc.h and arch/x86_64/trap.h: what is kept of a process, and what a trap saves.
-- The table of processes is a list of 64 records; a pointer into it is an index.
pub mod Table
pub mod Life
pub mod Sound
pub mod Search
pub mod Calls
pub mod History
pub mod Effects
pub mod Exit
pub mod Paths
mod Tests
use bright_s.Base.{ℕ, List, Option, Bool, true, false, [], get_or}

-- `brights_proc_state_t`.
pub data ProcState : Type 0 where
  unused : ProcState
  runnable : ProcState
  running : ProcState
  sleeping : ProcState
  zombie : ProcState

-- `brights_proc_ctx_t`.
pub record Ctx : Type 0 where
  pub r15 : ℕ
  pub r14 : ℕ
  pub r13 : ℕ
  pub r12 : ℕ
  pub r11 : ℕ
  pub r10 : ℕ
  pub r9 : ℕ
  pub r8 : ℕ
  pub rbp : ℕ
  pub rdi : ℕ
  pub rsi : ℕ
  pub rdx : ℕ
  pub rcx : ℕ
  pub rbx : ℕ
  pub rax : ℕ
  pub rip : ℕ
  pub cs : ℕ
  pub rflags : ℕ
  pub rsp : ℕ
  pub ss : ℕ

-- `brights_trap_frame_t`.
pub record TrapFrame : Type 0 where
  pub r15 : ℕ
  pub r14 : ℕ
  pub r13 : ℕ
  pub r12 : ℕ
  pub r11 : ℕ
  pub r10 : ℕ
  pub r9 : ℕ
  pub r8 : ℕ
  pub rbp : ℕ
  pub rdi : ℕ
  pub rsi : ℕ
  pub rdx : ℕ
  pub rcx : ℕ
  pub rbx : ℕ
  pub rax : ℕ
  pub vec : ℕ
  pub err : ℕ
  pub rip : ℕ
  pub cs : ℕ
  pub rflags : ℕ
  pub rsp : ℕ
  pub ss : ℕ

-- `brights_proc_info_t`. A descriptor table holds indices into the pool of open files, `is_user`
-- is 0 or 1, and strings are without their terminating zero.
pub record ProcInfo : Type 0 where
  pub pid : ℕ
  pub ppid : ℕ
  pub state : ProcState
  pub name : List ℕ
  pub exit_code : ℕ
  pub fd_table : List (Option ℕ)
  pub cwd : List ℕ
  pub is_user : Bool
  pub cr3 : ℕ
  pub user_entry : ℕ
  pub user_stack_top : ℕ
  pub brk : ℕ
  pub brk_start : ℕ
  pub kernel_stack : ℕ
  pub ctx : Ctx

abbrev pub no_ctx : Ctx
no_ctx = record {
  r15 = 0;
  r14 = 0;
  r13 = 0;
  r12 = 0;
  r11 = 0;
  r10 = 0;
  r9 = 0;
  r8 = 0;
  rbp = 0;
  rdi = 0;
  rsi = 0;
  rdx = 0;
  rcx = 0;
  rbx = 0;
  rax = 0;
  rip = 0;
  cs = 0;
  rflags = 0;
  rsp = 0;
  ss = 0;
}

-- An entry of the static table before any call.
abbrev pub no_proc : ProcInfo
no_proc = record {
  pid = 0;
  ppid = 0;
  state = unused;
  name = [];
  exit_code = 0;
  fd_table = [];
  cwd = [];
  is_user = false;
  cr3 = 0;
  user_entry = 0;
  user_stack_top = 0;
  brk = 0;
  brk_start = 0;
  kernel_stack = 0;
  ctx = no_ctx;
}

abbrev pub proc_at : List ProcInfo → ℕ → ProcInfo
proc_at table i = get_or table i no_proc

abbrev pub is_unused : ProcState → Bool
is_unused unused = true
is_unused _ = false

abbrev pub is_running : ProcState → Bool
is_running running = true
is_running _ = false
