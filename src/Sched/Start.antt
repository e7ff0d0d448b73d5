-- ===== src/Sched/Start.antt =====
-- kernel/sched.c: brights_sched_schedule starts the process at the current slot.
use native.Mathlib.Decide.{dec_lt}
use bright_s.Base.{
  ℕ, ◌-◌, ◌^◌, ◌<◌, ◌≡◌, ◌≢◌, refl, sym, ap, ◌∙◌, false, ltb, leb, ◌==◌, get_or, arith,
}
use bright_s.Base.Int.{pos}
use bright_s.Word.{bit-ones, nonzero_of_bit, pow-lt-pow}
use bright_s.Sched.{Cpu, get_proc_by_slot, no_slot, mark_dispatch}
use bright_s.Sched.Find.{find_next_runnable, Next, find_next_runnable_lem}
use bright_s.Sched.Switch.{schedule, schedule_to, dispatched, at_slot}
use bright_s.Sched.Keeps.{dispatched-SamePids}
use bright_s.Sched.Full.{Full}
use bright_s.Sched.Fair.{Runs, turned, turned-Runs}

-- The search from a slot in use finds that slot.
same_slot :
    (overshift : ℕ → ℕ) (n c : ℕ) → n < 64 → c < n → find_next_runnable overshift (2 ^ n - 1) c ≡ c
same_slot overshift n c hn hc =
    choose _
      (find_next_runnable_lem (omega (arith, pow-lt-pow 64 n hn)) (omega arith) overshift nonempty)
  where
    nonempty : 2 ^ n - 1 ≢ 0
    nonempty = nonzero_of_bit (2 ^ n - 1) 0 (bit-ones n 0 ∙ ground arith)

    choose : (r : ℕ) → Next (2 ^ n - 1) c r → r ≡ c
    choose r next = elim (dec_lt r c) [
      | yes back ↦
          let miss : ltb c n ≡ false = sym (bit-ones n c) ∙ (next.wrapped back c).0 (omega arith) in
          absurd (ground arith)
      | no on ↦ elim (dec_lt c r) [
        | yes over ↦
            let miss : ltb c n ≡ false =
              sym (bit-ones n c) ∙ next.ahead (omega arith) c (omega arith) over in
            absurd (ground arith)
        | no at ↦ omega arith
      ]
    ]

schedule_to_lem :
    (k : Cpu) (next : ℕ)
    → k.sched.slot_count < 64
    → next < k.sched.slot_count
    → schedule_to k next ≡ (pos 0, dispatched (at_slot k next) (get_or k.sched.pid_to_slot next 0))
unfolding schedule_to get_proc_by_slot
schedule_to_lem k next room h =
    let inside : leb k.sched.slot_count next ≡ false = ground arith in
    let some_slot : (next == no_slot) ≡ false = ground arith in
    rw (some_slot, schedule_to) (rw (inside, schedule_to, get_proc_by_slot) refl)

dispatched-Runs :
    (k : Cpu) (next : ℕ)
    → Full k.sched k.table
    → next < k.sched.slot_count
    → Runs (dispatched (at_slot k next) (get_or k.sched.pid_to_slot next 0))
unfolding dispatched turned
dispatched-Runs k next f h =
    turned-Runs k _ next f h refl
      (dispatched-SamePids (at_slot k next) (get_or k.sched.pid_to_slot next 0))

-- With a process at some slot, brights_sched_schedule succeeds, and it runs the process at the
-- current slot.
pub schedule-Runs :
    (overshift : ℕ → ℕ) (k : Cpu)
    → Full k.sched k.table
    → k.sched.current_slot < k.sched.slot_count
    → ((schedule overshift k).0 ≡ pos 0)
      × Runs (schedule overshift k).1
      × ((schedule overshift k).1.sched.slot_count ≡ k.sched.slot_count)
unfolding schedule dispatched mark_dispatch
schedule-Runs overshift k f h =
    let c : ℕ = k.sched.current_slot in
    let found : find_next_runnable overshift k.sched.runnable_bitmap c ≡ c =
      ap (λ b. find_next_runnable overshift b c) f.bits
      ∙ same_slot overshift k.sched.slot_count c f.room h in
    let done : schedule_to k (find_next_runnable overshift k.sched.runnable_bitmap c)
        ≡ (pos 0, dispatched (at_slot k c) (get_or k.sched.pid_to_slot c 0)) =
      ap (schedule_to k) found ∙ schedule_to_lem k c f.room h in
    let busy : (k.sched.total_runnable == 0) ≡ false = not_zero f.total in
    rw (busy, schedule) (rw (done, schedule) (refl, dispatched-Runs k c f h, refl))
  where
    not_zero : k.sched.total_runnable ≡ k.sched.slot_count → (k.sched.total_runnable == 0) ≡ false
    not_zero e = ground arith
