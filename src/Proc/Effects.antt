-- ===== src/Proc/Effects.antt =====
-- kernel/proc.c: what fork and exit do to the table.
use native.Mathlib.Decide.{dec_lt}
use bright_s.Base.{
  ℕ, suc, ◌+◌, ◌<◌, ◌≡◌, ◌≢◌, ◌⊎◌, refl, sym, ap, subst, List, [], ◌∷◌, none, some, length, get_or,
  arith, true, false, Bool-cases, Option-cases, inl, inr, ◌==◌, ◌&&◌, ◌||◌, not, leb,
  get_or-set_self, get_or-set_ne,
}
use bright_s.Base.Int.{ℤ, minus_one}
use bright_s.Proc.{ProcInfo, ProcState, runnable, no_proc, proc_at, is_unused}
use bright_s.Proc.Table.{
  Procs, proc_max, pid_range, get_by_pid, get_current, next_pid_after, set_entry, int_of, set_state,
}
use bright_s.Proc.Life.{Parts, find_unused, fork, cloned, forked, forked_rest}
use bright_s.Proc.Sound.{live, Inv}

-- An id that has no place in `pid_to_index` is not found through it.
get_by_pid-fresh :
    (s : Procs) (pid : ℕ)
    → (pid < pid_range → get_or s.pid_to_index pid 0 ≡ proc_max)
    → get_by_pid s pid ≡ none
unfolding get_by_pid
get_by_pid-fresh s pid fresh = elim (dec_lt pid pid_range) [
  | no past ↦
      let e : (pid == 0 || leb pid_range pid) ≡ true = ground arith in rw (e, get_by_pid) refl
  | yes inside ↦ elim (Bool-cases (pid == 0 || leb pid_range pid)) [
    | inl e ↦ rw (e, get_by_pid) refl
    | inr e ↦
        let out : leb proc_max (get_or s.pid_to_index pid 0) ≡ true =
          ap (leb proc_max) (fresh inside) in
        rw (e, get_by_pid) (rw (out, get_by_pid) refl)
  ]
]

find_unused-idle :
    (k : ℕ) (t : List ProcInfo) (i : ℕ)
    → find_unused k t ≡ some i
    → (j : ℕ) × (i ≡ k + j) × (j < length t) × (live (proc_at t j) ≡ false)
unfolding find_unused
find_unused-idle k [] i e = absurd (ground arith)
find_unused-idle k (p ∷ t) i e =
    pick (Bool-cases (is_unused p.state)) (find_unused-idle (k + 1) t i)
  where
    pick :
        (is_unused p.state ≡ true) ⊎ (is_unused p.state ≡ false)
        → (find_unused (k + 1) t ≡ some i
            → (j : ℕ) × (i ≡ k + 1 + j) × (j < length t) × (live (proc_at t j) ≡ false))
        → (j : ℕ) × (i ≡ k + j) × (j < length (p ∷ t)) × (live (proc_at (p ∷ t) j) ≡ false)
    pick (inl found) ih = (0, ground arith, omega arith, ground arith)
    pick (inr other) ih =
        let (j, at, inside, idle) = ih (ground arith) in (suc j, omega arith, omega arith, idle)

-- The child c of the process p.
pub record Child (p c : ProcInfo) (pid : ℕ) : Type 0 where
  pub pid_is : c.pid ≡ pid
  pub ppid_is : c.ppid ≡ p.pid
  pub state_is : c.state ≡ runnable
  pub registers : c.ctx ≡ record p.ctx { rax = 0 }
  pub files : c.fd_table ≡ p.fd_table
  pub user : c.is_user ≡ p.is_user
  pub breaks : (c.brk ≡ p.brk) × (c.brk_start ≡ p.brk_start)
  pub program : (c.user_entry ≡ p.user_entry) × (c.user_stack_top ≡ p.user_stack_top)

-- What fork makes of the states s of processes: the result and the new state.
pub record Forked (s t : Procs) (result : ℤ) : Type 0 where
  pub parent : ℕ
  pub child : ℕ
  pub caller : get_current s ≡ some parent
  pub was_idle : live (proc_at s.table child) ≡ false
  pub returns : result ≡ int_of s.next_pid
  pub copy : Child (proc_at s.table parent) (proc_at t.table child) s.next_pid
  pub others : (j : ℕ) → child ≢ j → proc_at t.table j ≡ proc_at s.table j
  pub lost : get_by_pid t s.next_pid ≡ none
  pub stuck : (state : ProcState) → set_state t s.next_pid state ≡ (minus_one, t)

set_state-none :
    (s : Procs) (pid : ℕ) (state : ProcState)
    → get_by_pid s pid ≡ none
    → set_state s pid state ≡ (minus_one, s)
unfolding set_state
set_state-none s pid state lost = rw (lost, set_state) refl

module _ {W : Type 0} (parts : Parts W) where
  forked-Forked :
      (s : Procs) (parent i cr3 page : ℕ)
      → Inv s
      → get_current s ≡ some parent
      → live (proc_at s.table i) ≡ false
      → i < length s.table
      → let p = proc_at s.table parent in
        let c = forked_rest parts p (forked parts s p (proc_at s.table i)) cr3 page in
        Forked s (set_entry (next_pid_after s) i c) (int_of s.next_pid)
  forked-Forked s parent i cr3 page inv e idle inside =
      let p : ProcInfo = proc_at s.table parent in
      let c : ProcInfo = forked_rest parts p (forked parts s p (proc_at s.table i)) cr3 page in
      let t : Procs = set_entry (next_pid_after s) i c in
      let lost : get_by_pid t s.next_pid ≡ none =
        get_by_pid-fresh t s.next_pid (λ h. inv.fresh s.next_pid (omega arith) h) in
      record {
        parent = parent;
        child = i;
        caller = e;
        was_idle = idle;
        returns = refl;
        copy =
            subst (λ x. Child p x s.next_pid) (sym (get_or-set_self s.table i c no_proc inside))
              (record {
                pid_is = refl;
                ppid_is = refl;
                state_is = refl;
                registers = refl;
                files = refl;
                user = refl;
                breaks = (refl, refl);
                program = (refl, refl);
              });
        others = λ j h. get_or-set_ne s.table i j c no_proc h;
        lost = lost;
        stuck = λ state. set_state-none t s.next_pid state lost;
      }

  -- In a table of which processes in use have different ids below the next one, and of whose ids
  -- none that was not handed out has a place in pid_to_index, brights_proc_fork either returns
  -- -1, or makes of an entry that was not in use a process with the next id, with the current
  -- process as its parent and its registers, descriptors, break and entry but 0 in rax, and
  -- changes no other entry; but proc_get_by_pid, and with it brights_proc_set_state, then does
  -- not find the new process.
  pub fork_lem :
      (s : Procs) (w : W)
      → Inv s
      → ((fork parts s w).0 ≡ minus_one) ⊎ Forked s (fork parts s w).1 (fork parts s w).0
  unfolding fork
  fork_lem s w inv = elim (Option-cases (get_by_pid s s.current_pid)) [
    | inl e ↦ inl (rw (e, fork) refl)
    | inr (parent, e) ↦ elim (Option-cases (find_unused 0 s.table)) [
      | inl none_free ↦ inl (rw (e, fork) (rw (none_free, fork) refl))
      | inr (i, f) ↦
          let p : ProcInfo = proc_at s.table parent in
          let space = cloned parts p w in
          let stack = parts.alloc_page space.1 in
          let (j, at, inside, idle) = find_unused-idle 0 s.table i f in
          let same : j ≡ i = omega arith in
          elim (Bool-cases (p.is_user && not (p.cr3 == 0) && space.0 == 0)) [
            | inl fails ↦ inl (rw (e, fork) (rw (f, fork) (rw (fails, fork) refl)))
            | inr works ↦
                let c : ProcInfo =
                  forked_rest parts p (forked parts s p (proc_at s.table i)) space.0 stack.0 in
                let t : Procs = set_entry (next_pid_after s) i c in
                let done : fork parts s w ≡ (int_of s.next_pid, t, stack.1) =
                  rw (e, fork) (rw (f, fork) (rw (works, fork) refl)) in
                inr (
                  subst (λ r. Forked s r.1 r.0) (sym done)
                    (forked-Forked s parent i space.0 stack.0 inv e
                      (subst (λ k. live (proc_at s.table k) ≡ false) same idle)
                      (omega (arith, inside))))
          ]
    ]
  ]
