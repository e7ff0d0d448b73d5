-- ===== src/Sched/Fair.antt =====
-- kernel/sched.c: brights_sched_yield takes the slots in turn.
use bright_s.Base.{
  ℕ, ◌+◌, ◌<◌, ◌≡◌, ◌≢◌, refl, sym, ap, subst, ◌∙◌, List, false, ltb, leb, ◌==◌, ◌||◌,
  if◌then◌else◌, get_or, arith,
}
use bright_s.Base.Int.{pos}
use bright_s.Proc.{ProcInfo, proc_at}
use bright_s.Sched.{Sched, Cpu, get_proc_by_slot, mark_dispatch, no_slot, sched_quantum}
use bright_s.Sched.Find.{find_next_runnable}
use bright_s.Sched.Switch.{
  save_context, restore_context, dispatched, demoted, at_slot, switch_to, switch, yield,
}
use bright_s.Sched.Keeps.{
  SamePids, SamePids-trans, Keeps, Keeps-trans, save_context-Keeps, demoted-Keeps,
  restore_context-Keeps, dispatched-SamePids,
}
use bright_s.Sched.Full.{Full, SamePids-Full, next_slot}

-- The process id behind a slot.
abbrev pub slot_pid : Cpu → ℕ → ℕ
slot_pid k i = (proc_at k.table (get_or k.sched.pid_to_slot i 0)).pid

-- A process runs, the one at the current slot.
pub record Runs (k : Cpu) : Type 0 where
  pub full : Full k.sched k.table
  pub slot : k.sched.current_slot < k.sched.slot_count
  pub pid : k.sched.current_pid ≡ slot_pid k k.sched.current_slot

-- The slot behind slot c of n, in a circle.
abbrev pub after : ℕ → ℕ → ℕ
after n c = if ltb (c + 1) n then c + 1 else 0

unfoldable pub turned : Sched → ℕ → ℕ → Sched
turned s next pid = mark_dispatch (record s { current_slot = next; current_pid = pid })

pub after-lt : (n c : ℕ) → 0 < n → after n c < n
after-lt n c h = ground arith

switch_to_lem :
    (k : Cpu) (next : ℕ)
    → k.sched.slot_count < 64
    → next < k.sched.slot_count
    → switch_to k next ≡ (
      pos 0,
      restore_context (dispatched (at_slot k next) (get_or k.sched.pid_to_slot next 0)) next,
    )
unfolding switch_to get_proc_by_slot
switch_to_lem k next room h =
    let inside : leb k.sched.slot_count next ≡ false = ground arith in
    let some_slot : (next == no_slot) ≡ false = ground arith in
    rw (some_slot, switch_to) (rw (inside, switch_to, get_proc_by_slot) refl)

module _ (overshift : ℕ → ℕ) where
  pub switch_lem :
      (k : Cpu)
      → Full k.sched k.table
      → k.sched.current_slot < k.sched.slot_count
      → let next = after k.sched.slot_count k.sched.current_slot in
        switch overshift k ≡ (
          pos 0,
          restore_context (dispatched (at_slot k next) (get_or k.sched.pid_to_slot next 0)) next,
        )
  unfolding switch
  switch_lem k f slot =
      let next : ℕ = after k.sched.slot_count k.sched.current_slot in
      let found : find_next_runnable overshift k.sched.runnable_bitmap (k.sched.current_slot + 1)
          ≡ next =
        ap (λ b. find_next_runnable overshift b (k.sched.current_slot + 1)) f.bits
        ∙ next_slot overshift k.sched.slot_count k.sched.current_slot f.room slot in
      ap (switch_to k) found
      ∙ switch_to_lem k next f.room (after-lt k.sched.slot_count k.sched.current_slot (omega arith))

-- One turn: the same slots, and the process at the next of them runs, with a whole quantum.
pub record Turned (k l : Cpu) : Type 0 where
  pub slots : l.sched.pid_to_slot ≡ k.sched.pid_to_slot
  pub count : l.sched.slot_count ≡ k.sched.slot_count
  pub table : SamePids k.table l.table
  pub slot : l.sched.current_slot ≡ after k.sched.slot_count k.sched.current_slot
  pub slice : l.sched.timeslice_remaining ≡ sched_quantum
  pub runs : Runs l

turned-Full : (s : Sched) (t : List ProcInfo) (next pid : ℕ) → Full s t → Full (turned s next pid) t
unfolding turned mark_dispatch
turned-Full s t next pid f = record {
  room = f.room;
  bits = f.bits;
  total = f.total;
  size = f.size;
  known = f.known;
}

pub turned-Runs :
    (k l : Cpu) (next : ℕ)
    → Full k.sched k.table
    → next < k.sched.slot_count
    → l.sched ≡ turned k.sched next (slot_pid k next)
    → SamePids k.table l.table
    → Runs l
unfolding turned mark_dispatch
turned-Runs k l next f inside e same =
    let s : Sched = turned k.sched next (slot_pid k next) in
    record {
      full =
          subst (λ s. Full s l.table) (sym e)
            (SamePids-Full s k.table l.table same
              (turned-Full k.sched k.table next (slot_pid k next) f));
      slot = subst (λ s. s.current_slot < s.slot_count) (sym e) inside;
      pid =
          subst (λ s. s.current_pid ≡ (proc_at l.table (get_or s.pid_to_slot s.current_slot 0)).pid)
            (sym e) (sym (same.pids (get_or k.sched.pid_to_slot next 0)));
    }

turned-Turned :
    (k l : Cpu)
    → Full k.sched k.table
    → k.sched.current_slot < k.sched.slot_count
    → let next = after k.sched.slot_count k.sched.current_slot in
      l.sched ≡ turned k.sched next (slot_pid k next) → SamePids k.table l.table → Turned k l
unfolding turned mark_dispatch
turned-Turned k l f slot e same =
    let next : ℕ = after k.sched.slot_count k.sched.current_slot in
    record {
      slots = ap (λ s. s.pid_to_slot) e;
      count = ap (λ s. s.slot_count) e;
      table = same;
      slot = ap (λ s. s.current_slot) e;
      slice = ap (λ s. s.timeslice_remaining) e;
      runs =
          turned-Runs k l next f (after-lt k.sched.slot_count k.sched.current_slot (omega arith)) e
            same;
    }

pub Keeps-Runs : (k l : Cpu) → Keeps k l → Runs k → Runs l
Keeps-Runs k l a r = record {
  full =
      subst (λ s. Full s l.table) (sym a.sched)
        (SamePids-Full k.sched k.table l.table a.table r.full);
  slot = subst (λ s. s.current_slot < s.slot_count) (sym a.sched) r.slot;
  pid =
      subst (λ s. s.current_pid ≡ (proc_at l.table (get_or s.pid_to_slot s.current_slot 0)).pid)
        (sym a.sched)
        (r.pid ∙ sym (a.table.pids (get_or k.sched.pid_to_slot k.sched.current_slot 0)));
}

Keeps-Turned : (k l m : Cpu) → Keeps k l → Turned l m → Turned k m
Keeps-Turned k l m a t = record {
  slots = t.slots ∙ ap (λ s. s.pid_to_slot) a.sched;
  count = t.count ∙ ap (λ s. s.slot_count) a.sched;
  table = SamePids-trans k.table l.table m.table a.table t.table;
  slot = t.slot ∙ ap (λ s. after s.slot_count s.current_slot) a.sched;
  slice = t.slice;
  runs = t.runs;
}

module _ (overshift : ℕ → ℕ) where
  switch-Turned :
      (k : Cpu)
      → Full k.sched k.table
      → k.sched.current_slot < k.sched.slot_count
      → ((switch overshift k).0 ≡ pos 0) × Turned k (switch overshift k).1
  unfolding dispatched turned
  switch-Turned k f slot =
      let next : ℕ = after k.sched.slot_count k.sched.current_slot in
      let i : ℕ = get_or k.sched.pid_to_slot next 0 in
      let d : Cpu = dispatched (at_slot k next) i in
      let keeps = restore_context-Keeps d next in
      subst (λ r. (r.0 ≡ pos 0) × Turned k r.1) (sym (switch_lem overshift k f slot))
        (
          refl,
          turned-Turned k _ f slot keeps.sched (
              SamePids-trans k.table d.table _ (dispatched-SamePids (at_slot k next) i)
                keeps.table),
        )

  pub yield-Turned :
      (k : Cpu)
      → Runs k
      → 1 < k.sched.slot_count
      → ((yield overshift k).0 ≡ pos 0) × Turned k (yield overshift k).1
  unfolding yield
  yield-Turned k r more =
      let c : ℕ = k.sched.current_slot in
      let l : Cpu = demoted (save_context k c) c in
      let keeps : Keeps k l =
        Keeps-trans k (save_context k c) l (save_context-Keeps k c)
          (demoted-Keeps (save_context k c) c) in
      let runs = Keeps-Runs k l keeps r in
      let (done, turn) = switch-Turned l runs.full runs.slot in
      let some_pid : k.sched.current_pid ≢ 0 = λ e. (r.full.known c r.slot).1 (sym r.pid ∙ e) in
      let goes : (k.sched.current_pid == 0 || leb k.sched.total_runnable 1) ≡ false =
        open_guard some_pid r.full.total in
      rw (goes, yield) (done, Keeps-Turned k l _ keeps turn)
    where
      open_guard :
          k.sched.current_pid ≢ 0
          → k.sched.total_runnable ≡ k.sched.slot_count
          → (k.sched.current_pid == 0 || leb k.sched.total_runnable 1) ≡ false
      open_guard a b = ground arith
