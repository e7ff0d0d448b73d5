-- ===== src/Sched/Switch.antt =====
-- kernel/sched.c: schedule, yield and tick, which choose the process that runs.
use bright_s.Base.{
  ℕ, ◌+◌, ◌%◌, ◌^◌, Option, none, some, Bool, not, ◌&&◌, ◌||◌, ◌==◌, ltb, leb, if◌then◌else◌, set,
}
use bright_s.Base.Int.{ℤ, pos, minus_one}
use bright_s.Proc.{TrapFrame, ProcInfo, runnable, running, proc_at, is_running}
use bright_s.Sched.{Sched, Cpu, get_proc_by_slot, no_slot, pred32, mark_dispatch, saved, restored}
use bright_s.Sched.Find.{find_next_runnable}

abbrev pub set_proc : Cpu → ℕ → ProcInfo → Cpu
set_proc k i p = record k { table = set k.table i p }

-- `save_context`.
abbrev pub save_at : Cpu → ℕ → Option TrapFrame → Cpu
save_at k i none = k
save_at k i (some tf) = set_proc k i (record (proc_at k.table i) { ctx = saved tf })

unfoldable pub save_context : Cpu → ℕ → Cpu
save_context k slot = elim (get_proc_by_slot k.sched slot) [
  | none ↦ k
  | some i ↦ save_at k i k.trap_frame
]

-- `restore_context`, of the process p.
unfoldable pub restore_at : Cpu → ProcInfo → Option TrapFrame → Cpu
restore_at k p none = k
restore_at k p (some tf) = record k {
  trap_frame = some (restored p.ctx tf);
  active_cr3 = if p.is_user && not (p.cr3 == 0) then p.cr3 else k.active_cr3;
  rsp0 = if p.is_user && ltb 0 p.kernel_stack then p.kernel_stack else k.rsp0;
}

unfoldable pub restore_context : Cpu → ℕ → Cpu
restore_context k slot = elim (get_proc_by_slot k.sched slot) [
  | none ↦ k
  | some i ↦ restore_at k (proc_at k.table i) k.trap_frame
]

abbrev pub stop : Cpu → Cpu
stop k = record k { sched = record k.sched { current_pid = 0 } }

abbrev pub at_slot : Cpu → ℕ → Cpu
at_slot k next = record k { sched = record k.sched { current_slot = next } }

-- What `schedule` and `yield` do with the process at index i: it runs, with a new quantum.
unfoldable pub dispatched : Cpu → ℕ → Cpu
dispatched k i = record k {
  sched = mark_dispatch (record k.sched { current_pid = (proc_at k.table i).pid });
  table = set k.table i (record (proc_at k.table i) { state = running });
}

-- The change of the state of the process that yields.
unfoldable pub demoted : Cpu → ℕ → Cpu
demoted k slot = elim (get_proc_by_slot k.sched slot) [
  | none ↦ k
  | some i ↦
      if is_running (proc_at k.table i).state
      then set_proc k i (record (proc_at k.table i) { state = runnable })
      else k
]

-- `next == 0xFFFFFFFF || next >= slot_count`.
abbrev pub no_next : Sched → ℕ → Bool
no_next s next = next == no_slot || leb s.slot_count next

-- The end of `brights_sched_schedule`, with the slot that the search found.
unfoldable pub schedule_to : Cpu → ℕ → ℤ × Cpu
schedule_to k next =
    if no_next k.sched next then (minus_one, stop k) else elim (get_proc_by_slot k.sched next) [
      | none ↦ (minus_one, stop (at_slot k next))
      | some i ↦ (pos 0, dispatched (at_slot k next) i)
    ]

-- The end of `brights_sched_yield`, with the slot that the search found.
unfoldable pub switch_to : Cpu → ℕ → ℤ × Cpu
switch_to k next =
    if no_next k.sched next then (minus_one, k) else elim (get_proc_by_slot k.sched next) [
      | none ↦ (minus_one, at_slot k next)
      | some i ↦ (pos 0, restore_context (dispatched (at_slot k next) i) next)
    ]

module _ (overshift : ℕ → ℕ) where
  -- `brights_sched_schedule`.
  unfoldable pub schedule : Cpu → ℤ × Cpu
  schedule k =
      if k.sched.total_runnable == 0
      then (minus_one, stop k)
      else schedule_to k (find_next_runnable overshift k.sched.runnable_bitmap k.sched.current_slot)

  -- `brights_sched_yield` after the state of the current process is changed.
  unfoldable pub switch : Cpu → ℤ × Cpu
  switch k =
      switch_to k (find_next_runnable overshift k.sched.runnable_bitmap (k.sched.current_slot + 1))

  -- `brights_sched_yield`.
  unfoldable pub yield : Cpu → ℤ × Cpu
  yield k =
      if k.sched.current_pid == 0 || leb k.sched.total_runnable 1
      then (minus_one, k)
      else switch (demoted (save_context k k.sched.current_slot) k.sched.current_slot)

  -- `brights_sched_tick`.
  unfoldable pub tick : Cpu → Cpu
  tick k =
      let ticks : ℕ = (k.sched.sched_ticks + 1) % 2 ^ 64 in
      let left : ℕ = pred32 k.sched.timeslice_remaining in
      let counted : Cpu = record k { sched = record k.sched { sched_ticks = ticks } } in
      let spent : Cpu = record counted {
        sched = record counted.sched { timeslice_remaining = left };
      } in
      if k.sched.current_pid == 0 then counted else if left == 0 then (yield spent).1 else spent
