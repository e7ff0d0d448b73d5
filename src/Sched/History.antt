-- ===== src/Sched/History.antt =====
-- kernel/sched.c: what holds after any calls that remove no process.
use native.Mathlib.Decide.{dec_lt}
use bright_s.Base.{
  ℕ, suc, ◌+◌, ◌%◌, ◌^◌, ◌≤◌, ◌<◌, ◌≡◌, ◌⊎◌, refl, sym, ap, subst, ◌∙◌, List, [], ◌∷◌, Option, true,
  false, leb, ◌==◌, ◌||◌, length, get_or, set, arith, Bool-cases, Option-cases, inl, inr,
  get_or-set_ne,
}
use bright_s.Proc.{ProcInfo, TrapFrame, proc_at}
use bright_s.Sched.{
  Sched, Cpu, init, add_process, added, already_added, find_pid, sched_max_proc, set_trap_frame,
  pred32,
}
use bright_s.Sched.Switch.{schedule, yield, tick, stop}
use bright_s.Sched.Full.{Full, init-Full, add_process-Full}
use bright_s.Sched.Fair.{Runs, yield-Turned}
use bright_s.Sched.Turns.{timed, timed-Runs}
use bright_s.Sched.Start.{schedule-Runs}

-- The calls, those of brights_sched_remove_process left out.
pub data Call : Type 0 where
  add : ℕ → Call
  schedule_next : Call
  give_up : Call
  timer : Call
  set_frame : Option TrapFrame → Call

module _ (overshift : ℕ → ℕ) where
  unfoldable pub call : Cpu → Call → Cpu
  call k (add pid) = record k { sched = (add_process k.table k.sched pid).1 }
  call k schedule_next = (schedule overshift k).1
  call k give_up = (yield overshift k).1
  call k timer = tick overshift k
  call k (set_frame tf) = set_trap_frame tf k

  unfoldable pub calls : Cpu → List Call → Cpu
  calls k [] = k
  calls k (c ∷ cs) = calls (call k c) cs

abbrev pub count_adds : List Call → ℕ
count_adds [] = 0
count_adds (add pid ∷ cs) = suc (count_adds cs)
count_adds (schedule_next ∷ cs) = count_adds cs
count_adds (give_up ∷ cs) = count_adds cs
count_adds (timer ∷ cs) = count_adds cs
count_adds (set_frame tf ∷ cs) = count_adds cs

-- Nothing runs, and the next search begins at a slot in use or at the first.
pub record Idle (k : Cpu) : Type 0 where
  pub full : Full k.sched k.table
  pub start : (k.sched.current_slot < k.sched.slot_count) ⊎ (k.sched.current_slot ≡ 0)
  pub nobody : k.sched.current_pid ≡ 0

-- Either nothing runs or the process at the current slot does.
pub Sound : Cpu → Type 0
Sound k = Idle k ⊎ Runs k

add_process-cases :
    (t : List ProcInfo) (s : Sched) (pid : ℕ)
    → ((add_process t s pid).1 ≡ s) ⊎ ((i : ℕ) × ((add_process t s pid).1 ≡ added s i))
unfolding add_process
add_process-cases t s pid = elim (Bool-cases (pid == 0 || leb sched_max_proc s.slot_count)) [
  | inl e ↦ inl (rw (e, add_process) refl)
  | inr e ↦ elim (Bool-cases (already_added s.pid_to_slot s.slot_count pid)) [
    | inl found ↦ inl (rw (e, add_process) (rw (found, add_process) refl))
    | inr new ↦ elim (Option-cases (find_pid 0 t pid)) [
      | inl none_at ↦
          inl (rw (e, add_process) (rw (new, add_process) (rw (none_at, add_process) refl)))
      | inr (i, at) ↦
          inr (i, rw (e, add_process) (rw (new, add_process) (rw (at, add_process) refl)))
    ]
  ]
]

-- One more slot leaves what runs.
added-Sound :
    (k : Cpu) (i : ℕ)
    → Full (added k.sched i) k.table
    → Sound k
    → Sound (record k { sched = added k.sched i })
unfolding Sound
added-Sound k i f (inl idle) =
    inl (record { full = f; start = on idle.start; nobody = idle.nobody })
  where
    on :
        (k.sched.current_slot < k.sched.slot_count) ⊎ (k.sched.current_slot ≡ 0)
        → (k.sched.current_slot < k.sched.slot_count + 1) ⊎ (k.sched.current_slot ≡ 0)
    on (inl h) = inl (omega arith)
    on (inr h) = inr h
added-Sound k i f (inr r) =
    let e : get_or (set k.sched.pid_to_slot k.sched.slot_count i) k.sched.current_slot 0
        ≡ get_or k.sched.pid_to_slot k.sched.current_slot 0 =
      get_or-set_ne k.sched.pid_to_slot k.sched.slot_count k.sched.current_slot i 0
        (λ e. absurd (omega (arith, r.slot))) in
    inr (record {
      full = f;
      slot = omega (arith, r.slot);
      pid = r.pid ∙ sym (ap (λ j. (proc_at k.table j).pid) e);
    })

pub Sound-Full : (k : Cpu) → Sound k → Full k.sched k.table
unfolding Sound
Sound-Full k (inl idle) = idle.full
Sound-Full k (inr r) = r.full

add-Sound :
    (k : Cpu) (pid : ℕ)
    → k.sched.slot_count < 63
    → Sound k
    → Sound (record k { sched = (add_process k.table k.sched pid).1 })
      × ((add_process k.table k.sched pid).1.slot_count ≤ k.sched.slot_count + 1)
add-Sound k pid room h =
    pick (add_process-cases k.table k.sched pid)
      (add_process-Full k.sched k.table pid room (Sound-Full k h))
  where
    pick :
        {s : Sched}
        → (s ≡ k.sched) ⊎ ((i : ℕ) × (s ≡ added k.sched i))
        → Full s k.table
        → Sound (record k { sched = s }) × (s.slot_count ≤ k.sched.slot_count + 1)
    pick {s} (inl e) f =
        subst (λ s. Sound (record k { sched = s }) × (s.slot_count ≤ k.sched.slot_count + 1))
          (sym e) (h, omega arith)
    pick {s} (inr (i, e)) f =
        subst (λ s. Sound (record k { sched = s }) × (s.slot_count ≤ k.sched.slot_count + 1))
          (sym e) (added-Sound k i (subst (λ s. Full s k.table) e f) h, omega arith)

module _ (overshift : ℕ → ℕ) where
  yield-Sound :
      (k : Cpu)
      → Sound k
      → Sound (yield overshift k).1 × ((yield overshift k).1.sched.slot_count ≡ k.sched.slot_count)
  unfolding Sound yield
  yield-Sound k (inl idle) =
      let e : (k.sched.current_pid == 0) ≡ true = none_there idle.nobody in
      rw (e, yield) (inl idle, refl)
    where
      none_there : k.sched.current_pid ≡ 0 → (k.sched.current_pid == 0) ≡ true
      none_there e = ground arith
  yield-Sound k (inr r) = elim (dec_lt 1 k.sched.slot_count) [
    | yes more ↦ let (done, t) = yield-Turned overshift k r more in (inr t.runs, t.count)
    | no few ↦
        let e : (k.sched.current_pid == 0 || leb k.sched.total_runnable 1) ≡ true =
          alone few r.full.total in
        rw (e, yield) (inr r, refl)
  ]
    where
      alone :
          ¬ (1 < k.sched.slot_count)
          → k.sched.total_runnable ≡ k.sched.slot_count
          → (k.sched.current_pid == 0 || leb k.sched.total_runnable 1) ≡ true
      alone few e = ground arith

  timed-Sound : (k : Cpu) (ticks left : ℕ) → Sound k → Sound (timed k ticks left)
  unfolding Sound
  timed-Sound k ticks left (inl idle) = inl (record {
    full = record {
      room = idle.full.room;
      bits = idle.full.bits;
      total = idle.full.total;
      size = idle.full.size;
      known = idle.full.known;
    };
    start = idle.start;
    nobody = idle.nobody;
  })
  timed-Sound k ticks left (inr r) = inr (timed-Runs k ticks left r)

  tick-Sound :
      (k : Cpu)
      → Sound k
      → Sound (tick overshift k) × ((tick overshift k).sched.slot_count ≡ k.sched.slot_count)
  unfolding tick
  tick-Sound k h =
      let c : ℕ = (k.sched.sched_ticks + 1) % 2 ^ 64 in
      let left : ℕ = pred32 k.sched.timeslice_remaining in
      elim (Bool-cases (k.sched.current_pid == 0)) [
        | inl nobody ↦ rw (nobody, tick) (timed-Sound k c k.sched.timeslice_remaining h, refl)
        | inr somebody ↦ elim (Bool-cases (left == 0)) [
          | inl spent ↦
              rw (somebody, tick)
                (rw (spent, tick) (yield-Sound (timed k c left) (timed-Sound k c left h)))
          | inr more ↦ rw (somebody, tick) (rw (more, tick) (timed-Sound k c left h, refl))
        ]
      ]

  schedule-Sound :
      (k : Cpu)
      → Sound k
      → Sound (schedule overshift k).1
        × ((schedule overshift k).1.sched.slot_count ≡ k.sched.slot_count)
  unfolding Sound schedule
  schedule-Sound k h = elim (Bool-cases (k.sched.total_runnable == 0)) [
    | inl nothing ↦
        rw (nothing, schedule)
          (
            inl (record { full = full_stop (Sound-Full k h); start = start k h; nobody = refl }),
            refl,
          )
    | inr something ↦
        let slot : k.sched.current_slot < k.sched.slot_count =
          in_use (start k h) (Sound-Full k h).total something in
        let runs = schedule-Runs overshift k (Sound-Full k h) slot in (inr runs.1, runs.2)
  ]
    where
      start :
          (k : Cpu)
          → Sound k
          → (k.sched.current_slot < k.sched.slot_count) ⊎ (k.sched.current_slot ≡ 0)
      start k (inl idle) = idle.start
      start k (inr r) = inl r.slot

      full_stop : Full k.sched k.table → Full (stop k).sched k.table
      full_stop f = record {
        room = f.room;
        bits = f.bits;
        total = f.total;
        size = f.size;
        known = f.known;
      }

      in_use :
          (k.sched.current_slot < k.sched.slot_count) ⊎ (k.sched.current_slot ≡ 0)
          → k.sched.total_runnable ≡ k.sched.slot_count
          → (k.sched.total_runnable == 0) ≡ false
          → k.sched.current_slot < k.sched.slot_count
      in_use (inl h) e b = h
      in_use (inr h) e b = ground arith

  framed-Sound : (tf : Option TrapFrame) (k : Cpu) → Sound k → Sound (set_trap_frame tf k)
  unfolding Sound
  framed-Sound tf k (inl idle) =
      inl (record { full = idle.full; start = idle.start; nobody = idle.nobody })
  framed-Sound tf k (inr r) = inr (record { full = r.full; slot = r.slot; pid = r.pid })

  calls-Sound :
      (cs : List Call) (k : Cpu)
      → k.sched.slot_count + count_adds cs < 64
      → Sound k
      → Sound (calls overshift k cs)
  unfolding calls call
  calls-Sound [] k h s = s
  calls-Sound (add pid ∷ cs) k h s =
      let (s', room) = add-Sound k pid (omega arith) s in
      calls-Sound cs (record k { sched = (add_process k.table k.sched pid).1 }) (omega arith) s'
  calls-Sound (schedule_next ∷ cs) k h s =
      let (s', same) = schedule-Sound k s in
      calls-Sound cs (schedule overshift k).1 (omega (arith, same)) s'
  calls-Sound (give_up ∷ cs) k h s =
      let (s', same) = yield-Sound k s in
      calls-Sound cs (yield overshift k).1 (omega (arith, same)) s'
  calls-Sound (timer ∷ cs) k h s =
      let (s', same) = tick-Sound k s in calls-Sound cs (tick overshift k) (omega (arith, same)) s'
  calls-Sound (set_frame tf ∷ cs) k h s =
      calls-Sound cs (set_trap_frame tf k) (omega arith) (framed-Sound tf k s)

  -- After brights_sched_init, and then any calls that add at most 63 processes and remove none,
  -- the bits of exactly the slots in use are set and counted, behind each of these is a process,
  -- and either no process is current or the one at the current slot, which is in use, is.
  pub init-calls-Sound :
      (k : Cpu) (cs : List Call)
      → length k.sched.pid_to_slot ≡ 64
      → count_adds cs < 64
      → Sound (calls overshift (record k { sched = init k.sched }) cs)
  unfolding Sound init
  init-calls-Sound k cs size few =
      calls-Sound cs (record k { sched = init k.sched }) (omega arith)
        (inl (record { full = init-Full k.sched k.table size; start = inr refl; nobody = refl }))
