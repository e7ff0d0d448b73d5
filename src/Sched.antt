-- ===== src/Sched.antt =====
-- kernel/sched.c and kernel/sched.h: the round robin over the slots of runnable processes.
-- The state behind the calls is the scheduler's own variables, the table of processes, the trap
-- frame that `current_trap_frame` points to, and the two registers that a switch writes.
-- `brights_proc_table_ptr` is never null, since it is the address of a static table.
pub mod Find
pub mod Switch
pub mod Keeps
pub mod Full
pub mod Fair
pub mod Turns
pub mod Context
pub mod Start
pub mod History
pub mod Remove
mod Tests
use bright_s.Base.{
  ℕ, zero, suc, ◌+◌, ◌-◌, ◌%◌, ◌^◌, List, [], ◌∷◌, Option, none, some, Bool, true, false, not, ◌&&◌,
  ◌||◌, ◌==◌, ltb, leb, if◌then◌else◌, get_or, set, replicate, bit_and,
}
use bright_s.Base.Int.{ℤ, pos, minus_one}
use bright_s.Word.{complement, has_bit, set_bit, clear_bit, lowest}
use bright_s.Proc.{Ctx, TrapFrame, ProcInfo, ProcState, no_proc, proc_at, is_running}

-- `BRIGHTS_SCHED_MAX_PROC` and `BRIGHTS_SCHED_QUANTUM`.
abbrev pub sched_max_proc : ℕ
sched_max_proc = 64

abbrev pub sched_quantum : ℕ
sched_quantum = 10

-- The static variables, without `current_trap_frame`.
pub record Sched : Type 0 where
  pub sched_ticks : ℕ
  pub sched_dispatches : ℕ
  pub pid_to_slot : List ℕ
  pub slot_count : ℕ
  pub runnable_bitmap : ℕ
  pub current_slot : ℕ
  pub current_pid : ℕ
  pub total_runnable : ℕ
  pub timeslice_remaining : ℕ

-- With the table of processes, the current trap frame, `CR3` and the `rsp0` of the task segment.
pub record Cpu : Type 0 where
  pub sched : Sched
  pub table : List ProcInfo
  pub trap_frame : Option TrapFrame
  pub active_cr3 : ℕ
  pub rsp0 : ℕ

-- The value 0xFFFFFFFF, for no slot.
abbrev pub no_slot : ℕ
no_slot = 2 ^ 32 - 1

-- `--x` on 32 bits.
abbrev pub pred32 : ℕ → ℕ
pred32 x = (x + (2 ^ 32 - 1)) % 2 ^ 32

-- `get_proc_by_slot`: an index into the table.
unfoldable pub get_proc_by_slot : Sched → ℕ → Option ℕ
get_proc_by_slot s slot = if leb s.slot_count slot then none else some (get_or s.pid_to_slot slot 0)

-- `__builtin_ctzll`, of a value that is not 0.
abbrev pub ctzll : ℕ → ℕ
ctzll x = lowest 64 x

-- `sched_init`; `pid_to_slot` and the trap frame are left.
unfoldable pub init : Sched → Sched
init s = record s {
  sched_ticks = 0;
  sched_dispatches = 0;
  runnable_bitmap = 0;
  current_slot = 0;
  current_pid = 0;
  total_runnable = 0;
  slot_count = 0;
  timeslice_remaining = sched_quantum;
}

-- The variables before any call.
unfoldable pub boot : Sched
boot = record {
  sched_ticks = 0;
  sched_dispatches = 0;
  pid_to_slot = replicate 64 0;
  slot_count = 0;
  runnable_bitmap = 0;
  current_slot = 0;
  current_pid = 0;
  total_runnable = 0;
  timeslice_remaining = sched_quantum;
}

-- `brights_sched_mark_dispatch`, which returns 0.
unfoldable pub mark_dispatch : Sched → Sched
mark_dispatch s = record s {
  sched_dispatches = (s.sched_dispatches + 1) % 2 ^ 64;
  timeslice_remaining = sched_quantum;
}

-- The two loops of `brights_sched_add_process`.
unfoldable pub already_added : List ℕ → ℕ → ℕ → Bool
already_added slots zero pid = false
already_added [] (suc n) pid = false
already_added (i ∷ slots) (suc n) pid = let rest = already_added slots n pid in i == pid || rest

unfoldable pub find_pid : ℕ → List ProcInfo → ℕ → Option ℕ
find_pid k [] pid = none
find_pid k (p ∷ table) pid =
    let rest = find_pid (k + 1) table pid in if p.pid == pid then some k else rest

abbrev pub added : Sched → ℕ → Sched
added s i = record s {
  slot_count = s.slot_count + 1;
  pid_to_slot = set s.pid_to_slot s.slot_count i;
  runnable_bitmap = set_bit s.runnable_bitmap s.slot_count;
  total_runnable = (s.total_runnable + 1) % 2 ^ 32;
}

-- `brights_sched_add_process`.
unfoldable pub add_process : List ProcInfo → Sched → ℕ → ℤ × Sched
add_process table s pid =
    if pid == 0 || leb sched_max_proc s.slot_count
    then (minus_one, s)
    else if already_added s.pid_to_slot s.slot_count pid
    then (pos 0, s)
    else elim (find_pid 0 table pid) [ none ↦ (minus_one, s) | some i ↦ (pos 0, added s i) ]

-- The loops of `brights_sched_remove_process`: the first slot of the process, and the move of
-- the slots behind it, n of them.
unfoldable pub find_slot : List ProcInfo → ℕ → List ℕ → ℕ → ℕ → Option ℕ
find_slot table k slots zero pid = none
find_slot table k [] (suc n) pid = none
find_slot table k (i ∷ slots) (suc n) pid =
    let rest = find_slot table (k + 1) slots n pid in
    if (proc_at table i).pid == pid then some k else rest

unfoldable pub compact : ℕ → ℕ → List ℕ → List ℕ
compact zero j slots = slots
compact (suc n) j slots = compact n (j + 1) (set slots j (get_or slots (j + 1) 0))

unfoldable pub removed : Sched → ℕ → Sched
removed s i =
    let left : ℕ = s.slot_count - 1 in
    record s {
      total_runnable =
          if has_bit s.runnable_bitmap i then pred32 s.total_runnable else s.total_runnable;
      runnable_bitmap = clear_bit 64 s.runnable_bitmap i;
      pid_to_slot = compact (left - i) i s.pid_to_slot;
      slot_count = left;
      current_slot = if leb left s.current_slot && ltb 0 left then 0 else s.current_slot;
    }

-- `brights_sched_remove_process`.
unfoldable pub remove_process : List ProcInfo → Sched → ℕ → ℤ × Sched
remove_process table s pid = elim (find_slot table 0 s.pid_to_slot s.slot_count pid) [
  | none ↦ (minus_one, s)
  | some i ↦ (pos 0, removed s i)
]

-- `brights_sched_set_trap_frame`; `brights_sched_get_trap_frame`, `brights_sched_ticks`,
-- `brights_sched_dispatches` and `brights_sched_current_pid` read a field.
abbrev pub set_trap_frame : Option TrapFrame → Cpu → Cpu
set_trap_frame tf k = record k { trap_frame = tf }

-- The copies of `save_context` and `restore_context`.
unfoldable pub saved : TrapFrame → Ctx
saved tf = record {
  r15 = tf.r15;
  r14 = tf.r14;
  r13 = tf.r13;
  r12 = tf.r12;
  r11 = tf.r11;
  r10 = tf.r10;
  r9 = tf.r9;
  r8 = tf.r8;
  rbp = tf.rbp;
  rdi = tf.rdi;
  rsi = tf.rsi;
  rdx = tf.rdx;
  rcx = tf.rcx;
  rbx = tf.rbx;
  rax = tf.rax;
  rip = tf.rip;
  cs = tf.cs;
  rflags = tf.rflags;
  rsp = tf.rsp;
  ss = tf.ss;
}

unfoldable pub restored : Ctx → TrapFrame → TrapFrame
restored c tf = record tf {
  r15 = c.r15;
  r14 = c.r14;
  r13 = c.r13;
  r12 = c.r12;
  r11 = c.r11;
  r10 = c.r10;
  r9 = c.r9;
  r8 = c.r8;
  rbp = c.rbp;
  rdi = c.rdi;
  rsi = c.rsi;
  rdx = c.rdx;
  rcx = c.rcx;
  rbx = c.rbx;
  rax = c.rax;
  rip = c.rip;
  cs = c.cs;
  rflags = c.rflags;
  rsp = c.rsp;
  ss = c.ss;
}
