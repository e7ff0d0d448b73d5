-- ===== src/Sched/Remove.antt =====
-- kernel/sched.c: brights_sched_remove_process moves the slots, but not their bits.
use bright_s.Base.{
  ℕ, zero, suc, ◌+◌, ◌-◌, ◌^◌, ◌≤◌, ◌<◌, ◌≡◌, ◌≢◌, ◌⊎◌, refl, ap, subst, ◌∙◌, List, [], ◌∷◌, none,
  some, true, false, not, ltb, ◌==◌, ◌&&◌, if◌then◌else◌, length, get_or, set, arith, Bool-cases,
  Option-cases, inl, inr, length-set,
}
use bright_s.Base.Members.{get_or-set}
use bright_s.Base.Int.{pos, minus_one}
use bright_s.Word.{bit, bit-ones, bit-clear_bit, clear_bit, pow-lt-pow}
use bright_s.Proc.{ProcInfo, proc_at}
use bright_s.Sched.{Sched, find_slot, compact, removed, remove_process}
use bright_s.Sched.Full.{Full}

compact_lem :
    (n j : ℕ) (xs : List ℕ) (i : ℕ)
    → j + n < length xs
    → get_or (compact n j xs) i 0
      ≡ (if not (ltb i j) && ltb i (j + n) then get_or xs (i + 1) 0 else get_or xs i 0)
unfolding compact
compact_lem zero j xs i h =
    let e : (not (ltb i j) && ltb i (j + 0)) ≡ false = ground arith in rw e refl
compact_lem (suc n) j xs i h =
    let v : ℕ = get_or xs (j + 1) 0 in
    let ys : List ℕ = set xs j v in
    compact_lem n (j + 1) ys i (omega (arith, length-set xs j v))
    ∙ same (get_or-set xs j i v 0 (omega arith)) (get_or-set xs j (i + 1) v 0 (omega arith))
  where
    same :
        get_or (set xs j (get_or xs (j + 1) 0)) i 0
          ≡ (if j == i then get_or xs (j + 1) 0 else get_or xs i 0)
        → get_or (set xs j (get_or xs (j + 1) 0)) (i + 1) 0
          ≡ (if j == i + 1 then get_or xs (j + 1) 0 else get_or xs (i + 1) 0)
        → (if not (ltb i (j + 1)) && ltb i (j + 1 + n)
            then get_or (set xs j (get_or xs (j + 1) 0)) (i + 1) 0
            else get_or (set xs j (get_or xs (j + 1) 0)) i 0)
          ≡ (if not (ltb i j) && ltb i (j + suc n) then get_or xs (i + 1) 0 else get_or xs i 0)
    same a b = elim (Bool-cases (j == i)) [
      | inl here ↦
          let e : j ≡ i = ground arith in
          let c : get_or xs (j + 1) 0 ≡ get_or xs (i + 1) 0 = ap (λ m. get_or xs (m + 1) 0) e in
          ground arith
      | inr there ↦ ground arith
    ]

find_slot_lem :
    (t : List ProcInfo) (k : ℕ) (slots : List ℕ) (n pid i : ℕ)
    → find_slot t k slots n pid ≡ some i
    → (j : ℕ) × (i ≡ k + j) × (j < n) × ((proc_at t (get_or slots j 0)).pid ≡ pid)
unfolding find_slot
find_slot_lem t k slots zero pid i e = absurd (ground arith)
find_slot_lem t k [] (suc n) pid i e = absurd (ground arith)
find_slot_lem t k (x ∷ slots) (suc n) pid i e =
    pick (Bool-cases ((proc_at t x).pid == pid)) (find_slot_lem t (k + 1) slots n pid i)
  where
    pick :
        (((proc_at t x).pid == pid) ≡ true) ⊎ (((proc_at t x).pid == pid) ≡ false)
        → (find_slot t (k + 1) slots n pid ≡ some i
            → (j : ℕ) × (i ≡ k + 1 + j) × (j < n) × ((proc_at t (get_or slots j 0)).pid ≡ pid))
        → (j : ℕ) × (i ≡ k + j) × (j < suc n) × ((proc_at t (get_or (x ∷ slots) j 0)).pid ≡ pid)
    pick (inl found) ih = (0, ground arith, omega arith, ground arith)
    pick (inr other) ih =
        let (j, at, inside, has) = ih (ground arith) in (suc j, omega arith, omega arith, has)

find_slot-none :
    (t : List ProcInfo) (k : ℕ) (slots : List ℕ) (n pid : ℕ)
    → n ≤ length slots
    → find_slot t k slots n pid ≡ none
    → (j : ℕ) → j < n
    → (proc_at t (get_or slots j 0)).pid ≢ pid
unfolding find_slot
find_slot-none t k slots zero pid h e j hj = absurd (omega arith)
find_slot-none t k [] (suc n) pid h e j hj = absurd (omega arith)
find_slot-none t k (x ∷ slots) (suc n) pid h e j hj =
    go (Bool-cases ((proc_at t x).pid == pid)) (find_slot-none t (k + 1) slots n pid (omega arith))
      j hj
  where
    go :
        (((proc_at t x).pid == pid) ≡ true) ⊎ (((proc_at t x).pid == pid) ≡ false)
        → (find_slot t (k + 1) slots n pid ≡ none
            → (j : ℕ) → j < n
            → (proc_at t (get_or slots j 0)).pid ≢ pid)
        → (j : ℕ) → j < suc n
        → (proc_at t (get_or (x ∷ slots) j 0)).pid ≢ pid
    go (inl found) ih j hj = absurd (ground arith)
    go (inr other) ih zero hj = ground arith
    go (inr other) ih (suc j) hj = ih (ground arith) j (omega arith)

-- The slots and the bits after slot i was taken out.
pub record Removed (s s' : Sched) (i : ℕ) : Type 0 where
  pub count : s'.slot_count + 1 ≡ s.slot_count
  pub slots :
      (j : ℕ)
      → j < s'.slot_count
      → get_or s'.pid_to_slot j 0 ≡ get_or s.pid_to_slot (if ltb j i then j else j + 1) 0
  pub bits : (j : ℕ) → bit s'.runnable_bitmap j ≡ (ltb j s.slot_count && not (i == j))

removed-Removed :
    (s : Sched) (t : List ProcInfo) (i : ℕ)
    → Full s t
    → i < s.slot_count
    → Removed s (removed s i) i
unfolding removed
removed-Removed s t i f h = record {
  count = omega arith;
  slots = λ j hj.
      compact_lem (s.slot_count - 1 - i) i s.pid_to_slot j (omega (arith, f.size, f.room))
      ∙ cut j hj;
  bits = λ j.
      ap (λ b. bit (clear_bit 64 b i) j) f.bits
      ∙ (bit-clear_bit 64 (2 ^ s.slot_count - 1) i j
            (omega (arith, pow-lt-pow 64 s.slot_count f.room)) (omega (arith, f.room))
          ∙ ap (λ b. b && not (i == j)) (bit-ones s.slot_count j));
}
  where
    cut :
        (j : ℕ)
        → j < s.slot_count - 1
        → (if not (ltb j i) && ltb j (i + (s.slot_count - 1 - i))
            then get_or s.pid_to_slot (j + 1) 0
            else get_or s.pid_to_slot j 0)
          ≡ get_or s.pid_to_slot (if ltb j i then j else j + 1) 0
    cut j hj = elim (Bool-cases (ltb j i)) [
      | inl low ↦ rw low refl
      | inr high ↦
          let e : ltb j (i + (s.slot_count - 1 - i)) ≡ true = ground arith in rw high (rw e refl)
    ]

-- While fewer than 64 slots are in use, every one of them with its bit,
-- brights_sched_remove_process of a process with a slot takes one of its slots out and moves
-- those behind it up by one, but only clears the bit of the slot that was taken out: unless it
-- was the last, that bit is clear although a process has moved there, and the bit behind the
-- last slot in use stays set. A process without a slot makes it fail and changes nothing.
pub remove_process_lem :
    (s : Sched) (t : List ProcInfo) (pid : ℕ)
    → Full s t
    → ((i : ℕ) × (i < s.slot_count)
        × ((proc_at t (get_or s.pid_to_slot i 0)).pid ≡ pid)
        × ((remove_process t s pid).0 ≡ pos 0)
        × Removed s (remove_process t s pid).1 i)
      ⊎ (((i : ℕ) → i < s.slot_count → (proc_at t (get_or s.pid_to_slot i 0)).pid ≢ pid)
          × (remove_process t s pid ≡ (minus_one, s)))
unfolding remove_process
remove_process_lem s t pid f = elim (Option-cases (find_slot t 0 s.pid_to_slot s.slot_count pid)) [
  | inl e ↦ inr (
    find_slot-none t 0 s.pid_to_slot s.slot_count pid (omega (arith, f.room, f.size)) e,
    rw (e, remove_process) refl,
  )
  | inr (i, e) ↦
      let (j, at, inside, has) = find_slot_lem t 0 s.pid_to_slot s.slot_count pid i e in
      inl (rw (e, remove_process) (found i j (omega arith) inside has))
]
  where
    found :
        (i j : ℕ)
        → j ≡ i
        → j < s.slot_count
        → (proc_at t (get_or s.pid_to_slot j 0)).pid ≡ pid
        → (i' : ℕ) × (i' < s.slot_count)
          × ((proc_at t (get_or s.pid_to_slot i' 0)).pid ≡ pid)
          × (pos 0 ≡ pos 0)
          × Removed s (removed s i) i'
    found i j e h has =
        (j, h, has, refl, subst (λ x. Removed s (removed s x) j) e (removed-Removed s t j f h))
