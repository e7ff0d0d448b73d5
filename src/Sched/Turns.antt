-- ===== src/Sched/Turns.antt =====
-- kernel/sched.c: the timer alone brings every process its turn.
use native.Mathlib.Decide.{dec_lt}
use bright_s.Base.{
  ℕ, zero, suc, ◌+◌, ◌-◌, ◌*◌, ◌%◌, ◌^◌, ◌≤◌, ◌<◌, ◌≡◌, ◌≢◌, refl, sym, ap, subst, ◌∙◌, false, ltb,
  ◌==◌, if◌then◌else◌, get_or, arith,
}
use bright_s.Proc.{proc_at}
use bright_s.Sched.{Cpu, pred32, sched_quantum}
use bright_s.Sched.Switch.{tick}
use bright_s.Sched.Keeps.{SamePids, SamePids-trans}
use bright_s.Sched.Fair.{Runs, Turned, slot_pid, after, yield-Turned}

-- Other values of the counters that the timer writes.
abbrev pub timed : Cpu → ℕ → ℕ → Cpu
timed k ticks left = record k {
  sched = record k.sched { sched_ticks = ticks; timeslice_remaining = left };
}

pub timed-Runs : (k : Cpu) (ticks left : ℕ) → Runs k → Runs (timed k ticks left)
timed-Runs k ticks left r = record {
  full = record {
    room = r.full.room;
    bits = r.full.bits;
    total = r.full.total;
    size = r.full.size;
    known = r.full.known;
  };
  slot = r.slot;
  pid = r.pid;
}

timed-Turned : (k l : Cpu) (ticks left : ℕ) → Turned (timed k ticks left) l → Turned k l
timed-Turned k l ticks left t = record {
  slots = t.slots;
  count = t.count;
  table = t.table;
  slot = t.slot;
  slice = t.slice;
  runs = t.runs;
}

-- The slot that is j places behind slot c of n, in a circle.
abbrev behind : ℕ → ℕ → ℕ → ℕ
behind n c j = if ltb (c + j) n then c + j else c + j - n

-- After j turns.
record Later (k l : Cpu) (j : ℕ) : Type 0 where
  pub slots : l.sched.pid_to_slot ≡ k.sched.pid_to_slot
  pub count : l.sched.slot_count ≡ k.sched.slot_count
  pub table : SamePids k.table l.table
  pub slot : l.sched.current_slot ≡ behind k.sched.slot_count k.sched.current_slot j
  pub runs : Runs l

Turned-Later : (k l : Cpu) → k.sched.current_slot < k.sched.slot_count → Turned k l → Later k l 1
Turned-Later k l h t = record {
  slots = t.slots;
  count = t.count;
  table = t.table;
  slot = t.slot ∙ one k.sched.slot_count k.sched.current_slot h;
  runs = t.runs;
}
  where
    one : (n c : ℕ) → c < n → after n c ≡ behind n c 1
    one n c h = ground arith

Turned-Later-trans :
    (k l m : Cpu) (j : ℕ)
    → k.sched.current_slot < k.sched.slot_count
    → j < k.sched.slot_count
    → Turned k l
    → Later l m j
    → Later k m (j + 1)
Turned-Later-trans k l m j hc hj t b = record {
  slots = b.slots ∙ t.slots;
  count = b.count ∙ t.count;
  table = SamePids-trans k.table l.table m.table t.table b.table;
  slot =
      b.slot
      ∙ (ap (λ n. behind n l.sched.current_slot j) t.count
          ∙ (ap (λ c. behind k.sched.slot_count c j) t.slot
              ∙ both k.sched.slot_count k.sched.current_slot hc hj));
  runs = b.runs;
}
  where
    both : (n c : ℕ) → c < n → j < n → behind n (after n c) j ≡ behind n c (j + 1)
    both n c hc hj = ground arith

module _ (overshift : ℕ → ℕ) where
  abbrev pub ticks : ℕ → Cpu → Cpu
  ticks zero k = k
  ticks (suc m) k = ticks m (tick overshift k)

  ticks-add : (m n : ℕ) (k : Cpu) → ticks (m + n) k ≡ ticks n (ticks m k)
  ticks-add zero n k = let e : 0 + n ≡ n = omega arith in ap (λ i. ticks i k) e
  ticks-add (suc m) n k =
      let e : suc m + n ≡ suc (m + n) = omega arith in
      ap (λ i. ticks i k) e ∙ ticks-add m n (tick overshift k)

  some_process : (k : Cpu) → Runs k → (k.sched.current_pid == 0) ≡ false
  some_process k r =
      let named : k.sched.current_pid ≢ 0 =
        λ e. (r.full.known k.sched.current_slot r.slot).1 (sym r.pid ∙ e) in
      ground arith

  tick_last :
      (k : Cpu)
      → Runs k
      → 1 < k.sched.slot_count
      → k.sched.timeslice_remaining ≡ 1
      → Turned k (tick overshift k)
  unfolding tick
  tick_last k r more one =
      let c : ℕ = (k.sched.sched_ticks + 1) % 2 ^ 64 in
      let left : pred32 k.sched.timeslice_remaining ≡ 0 = ap pred32 one in
      rw (some_process k r, tick)
        (rw (left, tick)
          (timed-Turned k _ c 0 (yield-Turned overshift (timed k c 0) (timed-Runs k c 0 r) more).1))

  tick_more :
      (k : Cpu) (t : ℕ)
      → Runs k
      → t < 9
      → k.sched.timeslice_remaining ≡ suc (suc t)
      → tick overshift k ≡ timed k ((k.sched.sched_ticks + 1) % 2 ^ 64) (suc t)
  unfolding tick
  tick_more k t r small two =
      let left : pred32 k.sched.timeslice_remaining ≡ suc t = ap pred32 two ∙ less in
      let on : (suc t == 0) ≡ false = ground arith in
      rw (some_process k r, tick) (rw (left, tick) (rw (on, tick) refl))
    where
      less : pred32 (suc (suc t)) ≡ suc t
      less = omega arith

  -- The rest of a quantum, and then a turn.
  ticks_turn :
      (t : ℕ) (k : Cpu)
      → Runs k
      → 1 < k.sched.slot_count
      → t < 10
      → k.sched.timeslice_remaining ≡ suc t
      → Turned k (ticks (suc t) k)
  ticks_turn zero k r more h e = tick_last k r more e
  ticks_turn (suc t) k r more h e =
      let c : ℕ = (k.sched.sched_ticks + 1) % 2 ^ 64 in
      subst (λ l. Turned k (ticks (suc t) l)) (sym (tick_more k t r (omega arith) e))
        (timed-Turned k _ c (suc t)
          (ticks_turn t (timed k c (suc t)) (timed-Runs k c (suc t) r) more (omega arith) refl))

  -- The j-th turn, j counted from 1, in time.
  turns :
      (j : ℕ) (t : ℕ) (k : Cpu)
      → Runs k
      → 1 < k.sched.slot_count
      → t < 10
      → k.sched.timeslice_remaining ≡ suc t
      → j < k.sched.slot_count
      → Later k (ticks (suc t + 10 * j) k) (j + 1)
  turns zero t k r more h e hj =
      let same : suc t ≡ suc t + 10 * 0 = omega arith in
      subst (λ m. Later k (ticks m k) 1) same (Turned-Later k _ r.slot (ticks_turn t k r more h e))
  turns (suc j) t k r more h e hj =
      let l : Cpu = ticks (suc t) k in
      let turn : Turned k l = ticks_turn t k r more h e in
      let split : ticks (suc t + 10 * suc j) k ≡ ticks (10 + 10 * j) l =
        ap (λ m. ticks m k) (regroup t j) ∙ ticks-add (suc t) (10 + 10 * j) k in
      subst (λ m. Later k m (suc j + 1)) (sym split)
        (subst (λ i. Later k (ticks (10 + 10 * j) l) (i + 1)) (omega arith)
          (Turned-Later-trans k l _ (j + 1) r.slot (omega arith) turn (
            turns j 9 l turn.runs (subst (λ n. 1 < n) (sym turn.count) more) (omega arith)
              turn.slice (omega (arith, turn.count)))))
    where
      regroup : (t j : ℕ) → suc t + 10 * suc j ≡ suc t + (10 + 10 * j)
      regroup t j = omega arith

  -- From a state in which the process at the current slot runs, with at least two and fewer than
  -- 64 slots in use, every one of them with its bit, and 1 to 10 ticks left, the timer alone
  -- lets the process at each of the slots run within 10 ticks for every slot.
  pub turn_for_every_slot :
      (k : Cpu)
      → Runs k
      → 1 < k.sched.slot_count
      → k.sched.slot_count < 64
      → 0 < k.sched.timeslice_remaining
      → k.sched.timeslice_remaining ≤ sched_quantum
      → (s : ℕ) → s < k.sched.slot_count
      → (m : ℕ) × (m ≤ sched_quantum * k.sched.slot_count)
        × ((ticks m k).sched.current_slot ≡ s)
        × ((ticks m k).sched.current_pid ≡ slot_pid k s)
  turn_for_every_slot k r more few some_left whole s hs =
      let n : ℕ = k.sched.slot_count in
      let c : ℕ = k.sched.current_slot in
      let t : ℕ = k.sched.timeslice_remaining - 1 in
      elim (dec_lt c s) [
        | yes ahead ↦ at t (s - c - 1) (omega arith) (omega arith) (place n c ahead hs)
        | no back ↦
            at t (s + n - c - 1) (omega arith) (omega (arith, r.slot)) (round n c back r.slot)
      ]
    where
      place : (n c : ℕ) → c < s → s < n → behind n c (s - c - 1 + 1) ≡ s
      place n c h hs = ground arith

      round : (n c : ℕ) → ¬ (c < s) → c < n → behind n c (s + n - c - 1 + 1) ≡ s
      round n c h hc = ground arith

      at :
          (t j : ℕ)
          → k.sched.timeslice_remaining ≡ suc t
          → j < k.sched.slot_count
          → behind k.sched.slot_count k.sched.current_slot (j + 1) ≡ s
          → (m : ℕ) × (m ≤ sched_quantum * k.sched.slot_count)
            × ((ticks m k).sched.current_slot ≡ s)
            × ((ticks m k).sched.current_pid ≡ slot_pid k s)
      at t j e hj there =
          let l : Cpu = ticks (suc t + 10 * j) k in
          let later : Later k l (j + 1) = turns j t k r more (omega arith) e hj in
          let slot : l.sched.current_slot ≡ s = later.slot ∙ there in
          (
            suc t + 10 * j,
            omega arith,
            slot,
            later.runs.pid
                ∙ (ap (slot_pid l) slot
                    ∙ (later.table.pids (get_or l.sched.pid_to_slot s 0)
                        ∙ ap (λ slots. (proc_at k.table (get_or slots s 0)).pid) later.slots)),
          )
