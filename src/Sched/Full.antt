-- ===== src/Sched/Full.antt =====
-- kernel/sched.c: while no process is removed, every slot in use has its bit, and no other.
use native.Mathlib.Decide.{dec_lt}
use bright_s.Base.{
  ℕ, suc, ◌+◌, ◌-◌, ◌^◌, ◌<◌, ◌≡◌, ◌≢◌, refl, sym, ap, subst, ◌∙◌, List, [], ◌∷◌, some, true, false,
  ltb, leb, ◌==◌, ◌||◌, if◌then◌else◌, length, get_or, set, arith, Bool-cases, Option-cases, inl,
  inr, length-set, ◌⊎◌,
}
use bright_s.Base.Members.{get_or-set}
use bright_s.Word.{bit_ext, bit-set_bit, bit-ones, set_bit, set_bit-lt, pow-lt-pow, nonzero_of_bit}
use bright_s.Proc.{ProcInfo, proc_at}
use bright_s.Sched.{Sched, init, add_process, added, find_pid, already_added, sched_max_proc}
use bright_s.Sched.Find.{find_next_runnable, Next, find_next_runnable_lem}
use bright_s.Sched.Keeps.{SamePids}

-- Fewer than 64 slots are in use, so that no shift of the search is undefined, the bits are those
-- of the slots in use, and a process is behind each of them.
pub record Full (s : Sched) (t : List ProcInfo) : Type 0 where
  pub room : s.slot_count < 64
  pub bits : s.runnable_bitmap ≡ 2 ^ s.slot_count - 1
  pub total : s.total_runnable ≡ s.slot_count
  pub size : length s.pid_to_slot ≡ 64
  pub known :
      (i : ℕ)
      → i < s.slot_count
      → (get_or s.pid_to_slot i 0 < length t) × ((proc_at t (get_or s.pid_to_slot i 0)).pid ≢ 0)

pub init-Full : (s : Sched) (t : List ProcInfo) → length s.pid_to_slot ≡ 64 → Full (init s) t
unfolding init
init-Full s t h = record {
  room = omega arith;
  bits = refl;
  total = refl;
  size = h;
  known = λ i h'. absurd (omega arith);
}

-- The table may change as long as it has the same processes.
pub SamePids-Full : (s : Sched) (t u : List ProcInfo) → SamePids t u → Full s t → Full s u
SamePids-Full s t u same f = record {
  room = f.room;
  bits = f.bits;
  total = f.total;
  size = f.size;
  known = λ i h. (
    omega (arith, same.size, (f.known i h).0),
    λ e. (f.known i h).1 (sym (same.pids (get_or s.pid_to_slot i 0)) ∙ e),
  );
}

pub find_pid_lem :
    (k : ℕ) (t : List ProcInfo) (pid i : ℕ)
    → find_pid k t pid ≡ some i
    → (j : ℕ) × (i ≡ k + j) × (j < length t) × ((proc_at t j).pid ≡ pid)
unfolding find_pid
find_pid_lem k [] pid i e = absurd (ground arith)
find_pid_lem k (p ∷ t) pid i e = pick (Bool-cases (p.pid == pid)) (find_pid_lem (k + 1) t pid i)
  where
    pick :
        ((p.pid == pid) ≡ true) ⊎ ((p.pid == pid) ≡ false)
        → (find_pid (k + 1) t pid ≡ some i
            → (j : ℕ) × (i ≡ k + 1 + j) × (j < length t) × ((proc_at t j).pid ≡ pid))
        → (j : ℕ) × (i ≡ k + j) × (j < length (p ∷ t)) × ((proc_at (p ∷ t) j).pid ≡ pid)
    pick (inl found) ih = (0, ground arith, omega arith, ground arith)
    pick (inr other) ih =
        let (j, at, inside, has) = ih (ground arith) in (suc j, omega arith, omega arith, has)

-- One more low bit.
ones-suc : (n : ℕ) → n < 63 → set_bit (2 ^ n - 1) n ≡ 2 ^ (n + 1) - 1
ones-suc n h =
    let small : 2 ^ n - 1 < 2 ^ 64 = omega (arith, pow-lt-pow 64 n (omega arith)) in
    bit_ext 64 _ _ (set_bit-lt 64 (2 ^ n - 1) n small (omega arith))
      (omega (arith, pow-lt-pow 64 (n + 1) (omega arith)))
      (λ i.
        bit-set_bit (2 ^ n - 1) n i
        ∙ (ap (λ b. b || n == i) (bit-ones n i) ∙ (cover i ∙ sym (bit-ones (n + 1) i))))
  where
    cover : (i : ℕ) → (ltb i n || n == i) ≡ ltb i (n + 1)
    cover i = ground arith

added-Full :
    (s : Sched) (t : List ProcInfo) (i : ℕ)
    → s.slot_count < 63
    → i < length t
    → (proc_at t i).pid ≢ 0
    → Full s t
    → Full (added s i) t
added-Full s t i room inside named f = record {
  room = omega arith;
  bits = ap (λ b. set_bit b s.slot_count) f.bits ∙ ones-suc s.slot_count room;
  total = omega (arith, f.total);
  size = length-set s.pid_to_slot s.slot_count i ∙ f.size;
  known = λ j h. each j h (get_or-set s.pid_to_slot s.slot_count j i 0 (omega (arith, f.size)));
}
  where
    each :
        (j : ℕ)
        → j < s.slot_count + 1
        → get_or (set s.pid_to_slot s.slot_count i) j 0
          ≡ (if s.slot_count == j then i else get_or s.pid_to_slot j 0)
        → (get_or (set s.pid_to_slot s.slot_count i) j 0 < length t)
          × ((proc_at t (get_or (set s.pid_to_slot s.slot_count i) j 0)).pid ≢ 0)
    each j h e = elim (Bool-cases (s.slot_count == j)) [
      | inl new ↦
          subst (λ x. (x < length t) × ((proc_at t x).pid ≢ 0))
            (sym (e ∙ ap (λ b. if b then i else get_or s.pid_to_slot j 0) new)) (inside, named)
      | inr old ↦
          subst (λ x. (x < length t) × ((proc_at t x).pid ≢ 0))
            (sym (e ∙ ap (λ b. if b then i else get_or s.pid_to_slot j 0) old))
            (f.known j (ground arith))
    ]

-- A new process keeps it, while there is a slot to spare.
pub add_process-Full :
    (s : Sched) (t : List ProcInfo) (pid : ℕ)
    → s.slot_count < 63
    → Full s t
    → Full (add_process t s pid).1 t
unfolding add_process
add_process-Full s t pid room f = elim (Bool-cases (pid == 0 || leb sched_max_proc s.slot_count)) [
  | inl e ↦ rw (e, add_process) f
  | inr e ↦
      let named : pid ≢ 0 = ground arith in
      rw (e, add_process)
        (elim (Bool-cases (already_added s.pid_to_slot s.slot_count pid)) [
          | inl found ↦ rw (found, add_process) f
          | inr new ↦
              rw (new, add_process)
                (elim (Option-cases (find_pid 0 t pid)) [
                  | inl e ↦ rw (e, add_process) f
                  | inr (i, e) ↦ rw (e, add_process) (found_at named i (find_pid_lem 0 t pid i e))
                ])
        ])
]
  where
    found_at :
        pid ≢ 0
        → (i : ℕ) → (j : ℕ) × (i ≡ 0 + j) × (j < length t) × ((proc_at t j).pid ≡ pid)
        → Full (added s i) t
    found_at named i (j, at, inside, has) =
        let e : j ≡ i = omega arith in
        subst (λ x. Full (added s x) t) e
          (added-Full s t j room inside (λ h. named (sym has ∙ h)) f)

-- The next slot is the one behind, or the first.
pub next_slot :
    (overshift : ℕ → ℕ) (n c : ℕ)
    → n < 64
    → c < n
    → find_next_runnable overshift (2 ^ n - 1) (c + 1) ≡ (if ltb (c + 1) n then c + 1 else 0)
next_slot overshift n c hn hc = elim (dec_lt (c + 1) 64) [
  | no big ↦ absurd (omega arith)
  | yes small ↦ choose _ (
      find_next_runnable_lem (omega (arith, pow-lt-pow 64 n hn)) small overshift
        (λ e. absurd (ground (arith, nonempty))))
]
  where
    nonempty : 2 ^ n - 1 ≢ 0
    nonempty = nonzero_of_bit (2 ^ n - 1) 0 (bit-ones n 0 ∙ ground arith)

    choose : (r : ℕ) → Next (2 ^ n - 1) (c + 1) r → r ≡ (if ltb (c + 1) n then c + 1 else 0)
    choose r next =
        let low : ltb r n ≡ true = sym (bit-ones n r) ∙ next.is_set in
        elim (Bool-cases (ltb (c + 1) n)) [
          | inl more ↦ rw more (elim (dec_lt r (c + 1)) [
            | yes back ↦
                let miss : ltb (c + 1) n ≡ false =
                  sym (bit-ones n (c + 1)) ∙ (next.wrapped back (c + 1)).0 (omega arith) in
                absurd (ground arith)
            | no on ↦ elim (dec_lt (c + 1) r) [
              | yes over ↦
                  let miss : ltb (c + 1) n ≡ false =
                    sym (bit-ones n (c + 1))
                    ∙ next.ahead (omega arith) (c + 1) (omega arith) over in
                  absurd (ground arith)
              | no at ↦ omega arith
            ]
          ])
          | inr last ↦ rw last (elim (dec_lt 0 r) [
            | yes above ↦
                let miss : ltb 0 n ≡ false =
                  sym (bit-ones n 0) ∙ (next.wrapped (ground arith) 0).1 above in
                absurd (ground arith)
            | no at ↦ omega arith
          ])
        ]
