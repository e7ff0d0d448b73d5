-- ===== src/Sched/Context.antt =====
-- kernel/sched.c: what a switch does to registers and to the table of processes.
use bright_s.Base.{
  ℕ, zero, suc, ◌<◌, ◌≡◌, ◌≢◌, refl, sym, ap, subst, ◌∙◌, List, [], ◌∷◌, some, Bool, true, false,
  ltb, leb, not, ◌==◌, ◌&&◌, ◌||◌, if◌then◌else◌, length, get_or, set, arith, Bool-cases, inl, inr,
  get_or-set_self, get_or-set_ne, length-set,
}
use bright_s.Base.Int.{pos}
use bright_s.Proc.{Ctx, TrapFrame, ProcInfo, runnable, running, proc_at, no_proc, is_running}
use bright_s.Sched.{Sched, Cpu, get_proc_by_slot, saved, restored, mark_dispatch}
use bright_s.Sched.Switch.{
  save_context, save_at, set_proc, restore_at, restore_context, dispatched, demoted, at_slot,
  switch, yield,
}
use bright_s.Sched.Keeps.{Keeps, set-SamePids}
use bright_s.Sched.Fair.{Runs, after, after-lt, switch_lem, Keeps-Runs}

-- The registers of a frame that was restored are those of the context.
pub saved-restored : (c : Ctx) (tf : TrapFrame) → saved (restored c tf) ≡ c
unfolding saved restored
saved-restored c tf = refl

set-set {ℓ} : {A : Type ℓ} (xs : List A) (i : ℕ) (v w : A) → set (set xs i v) i w ≡ set xs i w
set-set [] i v w = refl
set-set (x ∷ xs) zero v w = refl
set-set (x ∷ xs) (suc i) v w = ap (λ r. x ∷ r) (set-set xs i v w)

-- The process that gives the processor away.
abbrev left : ProcInfo → TrapFrame → ProcInfo
left p tf =
    if is_running p.state
    then record p { ctx = saved tf; state = runnable }
    else record p { ctx = saved tf }

slot_of :
    (s : Sched) (c : ℕ) → c < s.slot_count → get_proc_by_slot s c ≡ some (get_or s.pid_to_slot c 0)
unfolding get_proc_by_slot
slot_of s c h = let e : leb s.slot_count c ≡ false = ground arith in rw e refl

save_context_lem :
    (k : Cpu) (c : ℕ) (tf : TrapFrame)
    → c < k.sched.slot_count
    → k.trap_frame ≡ some tf
    → let a = get_or k.sched.pid_to_slot c 0 in
      save_context k c ≡ set_proc k a (record (proc_at k.table a) { ctx = saved tf })
unfolding save_context
save_context_lem k c tf h e =
    rw (slot_of k.sched c h, save_context) (ap (save_at k (get_or k.sched.pid_to_slot c 0)) e)

demoted_lem :
    (k : Cpu) (c : ℕ) (tf : TrapFrame)
    → c < k.sched.slot_count
    → let a = get_or k.sched.pid_to_slot c 0 in
      a < length k.table
      → demoted (set_proc k a (record (proc_at k.table a) { ctx = saved tf })) c
        ≡ set_proc k a (left (proc_at k.table a) tf)
unfolding demoted
demoted_lem k c tf h inside =
    let a : ℕ = get_or k.sched.pid_to_slot c 0 in
    let p : ProcInfo = record (proc_at k.table a) { ctx = saved tf } in
    rw (slot_of k.sched c h, demoted)
      (rw (get_or-set_self k.table a p no_proc inside, demoted)
        (elim (Bool-cases (is_running (proc_at k.table a).state)) [
          | inl runs ↦ rw runs (
              ap (λ t. record k { table = t })
                (set-set k.table a p (record p { state = runnable })))
          | inr rests ↦ rw rests refl
        ]))

-- What is left of a switch: `from` and `to` are indices into the table.
pub record HandOver (k l : Cpu) (tf : TrapFrame) (from to : ℕ) : Type 0 where
  pub registers :
      (tf' : TrapFrame) × (l.trap_frame ≡ some tf')
      × (saved tf' ≡ (proc_at k.table to).ctx)
      × (tf'.vec ≡ tf.vec)
      × (tf'.err ≡ tf.err)
  pub kept : (proc_at l.table from).ctx ≡ saved tf
  pub waits : is_running (proc_at l.table from).state ≡ false
  pub runs : proc_at l.table to ≡ record (proc_at k.table to) { state = running }
  pub others : (j : ℕ) → j ≢ from → j ≢ to → proc_at l.table j ≡ proc_at k.table j
  pub address_space :
      (proc_at k.table to).is_user ≡ true
      → (proc_at k.table to).cr3 ≢ 0
      → l.active_cr3 ≡ (proc_at k.table to).cr3
  pub stack :
      (proc_at k.table to).is_user ≡ true
      → 0 < (proc_at k.table to).kernel_stack
      → l.rsp0 ≡ (proc_at k.table to).kernel_stack

if_true {ℓ} : {A : Type ℓ} (b : Bool) (x y : A) → b ≡ true → (if b then x else y) ≡ x
if_true b x y e = rw e refl

left-waits : (p : ProcInfo) (tf : TrapFrame) → is_running (left p tf).state ≡ false
left-waits p tf = elim (Bool-cases (is_running p.state)) [
  | inl runs ↦ rw runs refl
  | inr rests ↦ rw rests rests
]

left-ctx : (p : ProcInfo) (tf : TrapFrame) → (left p tf).ctx ≡ saved tf
left-ctx p tf = elim (Bool-cases (is_running p.state)) [
  | inl runs ↦ rw runs refl
  | inr rests ↦ rw rests refl
]

-- The end of the switch, from the state in which the registers of `from` are kept.
restored-HandOver :
    (k : Cpu) (tf : TrapFrame) (next from : ℕ)
    → k.trap_frame ≡ some tf
    → next < k.sched.slot_count
    → let to = get_or k.sched.pid_to_slot next 0 in
      from < length k.table
      → to < length k.table
      → from ≢ to
      → let m = set_proc k from (left (proc_at k.table from) tf) in
        HandOver k (restore_context (dispatched (at_slot m next) to) next) tf from to
unfolding dispatched restore_context restore_at mark_dispatch restored
restored-HandOver k tf next from frame h inside_from inside_to apart =
    let to : ℕ = get_or k.sched.pid_to_slot next 0 in
    let p : ProcInfo = proc_at k.table to in
    let q : ProcInfo = left (proc_at k.table from) tf in
    let t1 = set k.table from q in
    let target : proc_at t1 to ≡ p = get_or-set_ne k.table from to q no_proc apart in
    let there : get_or (set t1 to (record p { state = running })) to no_proc
        ≡ record p { state = running } =
      get_or-set_self t1 to (record p { state = running }) no_proc
        (omega (arith, length-set k.table from q)) in
    rw (slot_of (dispatched (at_slot (set_proc k from q) next) to).sched next h, restore_context)
      (rw (frame, restore_context, restore_at)
        (rw target (
          rw there (record {
            registers = (restored p.ctx tf, refl, saved-restored p.ctx tf, refl, refl);
            kept =
                ap (λ x. x.ctx) (old (record p { state = running }))
                ∙ left-ctx (proc_at k.table from) tf;
            waits =
                ap (λ x. is_running x.state) (old (record p { state = running }))
                ∙ left-waits (proc_at k.table from) tf;
            runs = there;
            others = λ j a b.
                get_or-set_ne t1 to j (record p { state = running }) no_proc (λ e. b (sym e))
                ∙ get_or-set_ne k.table from j q no_proc (λ e. a (sym e));
            address_space = λ u c. if_true _ p.cr3 k.active_cr3 (both u c);
            stack = λ u c. if_true _ p.kernel_stack k.rsp0 (pair u c);
          }))))
  where
    old :
        (r : ProcInfo)
        → proc_at
            (set
              (set k.table from (left (proc_at k.table from) tf))
              (get_or k.sched.pid_to_slot next 0)
              r)
            from
          ≡ left (proc_at k.table from) tf
    old r =
        get_or-set_ne _ _ from r no_proc (λ e. apart (sym e))
        ∙ get_or-set_self k.table from (left (proc_at k.table from) tf) no_proc inside_from

    both : {u : Bool} {c : ℕ} → u ≡ true → c ≢ 0 → (u && not (c == 0)) ≡ true
    both e h = ground arith

    pair : {u : Bool} {c : ℕ} → u ≡ true → 0 < c → (u && ltb 0 c) ≡ true
    pair e h = ground arith

module _ (overshift : ℕ → ℕ) where
  open_yield :
      (k : Cpu)
      → Runs k
      → 1 < k.sched.slot_count
      → let c = k.sched.current_slot in
        yield overshift k ≡ switch overshift (demoted (save_context k c) c)
  unfolding yield
  open_yield k r more =
      let some_pid : k.sched.current_pid ≢ 0 =
        λ e. (r.full.known k.sched.current_slot r.slot).1 (sym r.pid ∙ e) in
      let goes : (k.sched.current_pid == 0 || leb k.sched.total_runnable 1) ≡ false =
        open_guard some_pid r.full.total in
      rw (goes, yield) refl
    where
      open_guard :
          k.sched.current_pid ≢ 0
          → k.sched.total_runnable ≡ k.sched.slot_count
          → (k.sched.current_pid == 0 || leb k.sched.total_runnable 1) ≡ false
      open_guard a b = ground arith

  -- From a state in which the process at the current slot runs, with at least two and fewer than
  -- 64 slots in use, every one of them with its bit, and the next slot naming another process,
  -- brights_sched_yield succeeds: it keeps the trap frame's registers for the process that gives
  -- up the processor, which no longer is in the state running, gives the frame the registers
  -- that were kept for the next one, which is, sets CR3 and the kernel stack for a user process
  -- that has them, and changes no other process.
  pub yield-HandOver :
      (k : Cpu) (tf : TrapFrame)
      → Runs k
      → 1 < k.sched.slot_count
      → k.sched.slot_count < 64
      → k.trap_frame ≡ some tf
      → let next = after k.sched.slot_count k.sched.current_slot in
        let from = get_or k.sched.pid_to_slot k.sched.current_slot 0 in
        let to = get_or k.sched.pid_to_slot next 0 in
        from ≢ to → ((yield overshift k).0 ≡ pos 0) × HandOver k (yield overshift k).1 tf from to
  yield-HandOver k tf r more few frame apart =
      let c : ℕ = k.sched.current_slot in
      let n : ℕ = k.sched.slot_count in
      let next : ℕ = after n c in
      let from : ℕ = get_or k.sched.pid_to_slot c 0 in
      let to : ℕ = get_or k.sched.pid_to_slot next 0 in
      let p : ProcInfo = proc_at k.table from in
      let m : Cpu = set_proc k from (left p tf) in
      let inside = r.full.known c r.slot in
      let next_lt : next < n = after-lt n c (omega arith) in
      let middle : demoted (save_context k c) c ≡ m =
        ap (λ l. demoted l c) (save_context_lem k c tf r.slot frame)
        ∙ demoted_lem k c tf r.slot inside.0 in
      let keeps : Keeps k m = record {
        sched = refl;
        table = set-SamePids k.table from (left p tf) (left-pid p tf);
      } in
      let there = Keeps-Runs k m keeps r in
      let all : yield overshift k ≡ (pos 0, restore_context (dispatched (at_slot m next) to) next) =
        open_yield k r more
        ∙ (ap (switch overshift) middle ∙ switch_lem overshift m there.full there.slot) in
      subst (λ y. (y.0 ≡ pos 0) × HandOver k y.1 tf from to) (sym all)
        (
          refl,
          restored-HandOver k tf next from frame next_lt inside.0 (r.full.known next next_lt).0
              apart,
        )
    where
      left-pid : (p : ProcInfo) (tf : TrapFrame) → (left p tf).pid ≡ p.pid
      left-pid p tf = elim (Bool-cases (is_running p.state)) [
        | inl runs ↦ rw runs refl
        | inr rests ↦ rw rests refl
      ]
