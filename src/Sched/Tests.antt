-- ===== src/Sched/Tests.antt =====
-- The scheduler of kernel/sched.c at concrete inputs.
use bright_s.Base.{
  ℕ, ◌<◌, ◌≤◌, ◌*◌, ◌≡◌, ◌≢◌, ◌⊎◌, ◌%◌, ◌^◌, refl, List, [], ◌∷◌, some, true, arith, get_or,
}
use bright_s.Base.Int.{pos, minus_one}
use bright_s.Word.{lowest}
use bright_s.Proc.{ProcInfo, runnable, no_proc, TrapFrame, proc_at}
use bright_s.Sched.{
  Sched, Cpu, boot, init, add_process, already_added, find_pid, remove_process, sched_quantum,
  mark_dispatch, get_proc_by_slot,
}
use bright_s.Sched.Find.{find_next_runnable, Next, find_next_runnable_lem}
use bright_s.Sched.Switch.{schedule, schedule_to, yield, dispatched}
use bright_s.Sched.Full.{Full, init-Full, add_process-Full}
use bright_s.Sched.Fair.{Runs, after, slot_pid}
use bright_s.Sched.Turns.{ticks, turn_for_every_slot}
use bright_s.Sched.Context.{HandOver, yield-HandOver}
use bright_s.Sched.History.{add, schedule_next, give_up, timer, calls, Sound, init-calls-Sound}
use bright_s.Sched.Start.{schedule-Runs}
use bright_s.Sched.Remove.{Removed, remove_process_lem}

-- As the processors of the x86 line shift: by the count modulo 64.
abbrev wrapping : ℕ → ℕ
wrapping start = 2 ^ (start % 64)

abbrev process : ℕ → ProcInfo
process pid = record no_proc {
  pid = pid;
  state = runnable;
  is_user = true;
  cr3 = 4096 * pid;
  kernel_stack = 8192 * pid;
}

abbrev table : List ProcInfo
table = process 1 ∷ process 2 ∷ process 3 ∷ []

abbrev frame : TrapFrame
frame = record {
  r15 = 1;
  r14 = 2;
  r13 = 3;
  r12 = 4;
  r11 = 5;
  r10 = 6;
  r9 = 7;
  r8 = 8;
  rbp = 9;
  rdi = 10;
  rsi = 11;
  rdx = 12;
  rcx = 13;
  rbx = 14;
  rax = 15;
  vec = 32;
  err = 0;
  rip = 16;
  cs = 17;
  rflags = 18;
  rsp = 19;
  ss = 20;
}

-- Three processes with slots 0, 1 and 2.
unfoldable added_three : Sched
added_three = (add_process table (add_process table (add_process table (init boot) 1).1 2).1 3).1

count_three : added_three.slot_count ≡ 3
unfolding added_three add_process boot init already_added find_pid
count_three = refl

first_slot : added_three.current_slot ≡ 0
unfolding added_three add_process boot init already_added find_pid
first_slot = refl

three-Full : Full added_three table
unfolding added_three add_process boot init already_added find_pid
three-Full =
    add_process-Full (add_process table (add_process table (init boot) 1).1 2).1 table 3
      (omega arith)
      (add_process-Full (add_process table (init boot) 1).1 table 2 (omega arith)
        (add_process-Full (init boot) table 1 (omega arith) (init-Full boot table refl)))

abbrev idle : Cpu
idle = record {
  sched = added_three;
  table = table;
  trap_frame = some frame;
  active_cr3 = 0;
  rsp0 = 0;
}

-- The first of them runs.
unfoldable busy : Cpu
busy = (schedule wrapping idle).1

busy-Runs : Runs busy
unfolding busy
busy-Runs = (schedule-Runs wrapping idle three-Full (omega (arith, count_three, first_slot))).1

count_busy : busy.sched.slot_count ≡ 3
unfolding busy schedule schedule_to find_next_runnable dispatched mark_dispatch get_proc_by_slot
    lowest added_three add_process boot init already_added find_pid
count_busy = refl

slice_busy : busy.sched.timeslice_remaining ≡ 10
unfolding busy schedule schedule_to find_next_runnable dispatched mark_dispatch get_proc_by_slot
    lowest added_three add_process boot init already_added find_pid
slice_busy = refl

frame_busy : busy.trap_frame ≡ some frame
unfolding busy schedule schedule_to find_next_runnable dispatched mark_dispatch get_proc_by_slot
    lowest added_three add_process boot init already_added find_pid
frame_busy = refl

slots_differ :
    get_or busy.sched.pid_to_slot busy.sched.current_slot 0
    ≢ get_or busy.sched.pid_to_slot (after busy.sched.slot_count busy.sched.current_slot) 0
unfolding busy schedule schedule_to find_next_runnable dispatched mark_dispatch get_proc_by_slot
    lowest added_three add_process boot init already_added find_pid
slots_differ = λ e. omega arith

find_next_runnable_lem_example : Next 19 3 (find_next_runnable wrapping 19 3)
find_next_runnable_lem_example =
    find_next_runnable_lem (omega arith) (omega arith) wrapping (λ e. omega arith)

-- Bits 0, 1 and 4 are set.
find_next_runnable_run : find_next_runnable wrapping 19 3 ≡ 4
unfolding find_next_runnable lowest
find_next_runnable_run = refl

turn_for_every_slot_example :
    (m : ℕ) × (m ≤ sched_quantum * busy.sched.slot_count)
    × ((ticks wrapping m busy).sched.current_slot ≡ 2)
    × ((ticks wrapping m busy).sched.current_pid ≡ slot_pid busy 2)
turn_for_every_slot_example =
    turn_for_every_slot wrapping busy busy-Runs (omega (arith, count_busy))
      (omega (arith, count_busy)) (omega (arith, slice_busy)) (omega (arith, slice_busy)) 2
      (omega (arith, count_busy))

yield-HandOver_example :
    ((yield wrapping busy).0 ≡ pos 0)
    × HandOver busy
        (yield wrapping busy).1
        frame
        (get_or busy.sched.pid_to_slot busy.sched.current_slot 0)
        (get_or busy.sched.pid_to_slot (after busy.sched.slot_count busy.sched.current_slot) 0)
yield-HandOver_example =
    yield-HandOver wrapping busy frame busy-Runs (omega (arith, count_busy))
      (omega (arith, count_busy)) frame_busy slots_differ

init-calls-Sound_example : Sound (
    calls wrapping
      (record busy { sched = init busy.sched })
      (add 1 ∷ add 2 ∷ schedule_next ∷ timer ∷ give_up ∷ []))
init-calls-Sound_example =
    init-calls-Sound wrapping busy (add 1 ∷ add 2 ∷ schedule_next ∷ timer ∷ give_up ∷ [])
      busy-Runs.full.size (omega arith)

remove_process_lem_example :
    ((i : ℕ) × (i < added_three.slot_count)
      × ((proc_at table (get_or added_three.pid_to_slot i 0)).pid ≡ 1)
      × ((remove_process table added_three 1).0 ≡ pos 0)
      × Removed added_three (remove_process table added_three 1).1 i)
    ⊎ (((i : ℕ)
          → i < added_three.slot_count
          → (proc_at table (get_or added_three.pid_to_slot i 0)).pid ≢ 1)
        × (remove_process table added_three 1 ≡ (minus_one, added_three)))
remove_process_lem_example = remove_process_lem added_three table 1 three-Full

-- The slots hold places in the table, which `add_process` compares with the id: process 1 is not
-- added when process 2, at place 1, was.
missed : (add_process table (add_process table (init boot) 2).1 1).1.slot_count ≡ 1
unfolding add_process boot init already_added find_pid
missed = refl

-- And process 2 is added twice.
twice : (add_process table (add_process table (init boot) 2).1 2).1.slot_count ≡ 2
unfolding add_process boot init already_added find_pid
twice = refl
