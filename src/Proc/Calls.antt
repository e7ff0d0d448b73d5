-- ===== src/Proc/Calls.antt =====
-- kernel/proc.c: what holds of the table after any calls.
use bright_s.Base.{
  ℕ, ◌+◌, ◌^◌, ltb, ◌<◌, ◌≡◌, refl, subst, ◌∙◌, List, Option, none, some, true, not, ◌==◌, ◌&&◌,
  set, arith, Bool-cases, Option-cases, inl, inr, length-set, get_or-set_ne,
}
use bright_s.Proc.{ProcInfo, ProcState, proc_at}
use bright_s.Proc.Table.{
  Procs, proc_max, get_by_pid, find_free_slot, find_live, pid_range, store_index, spawned_kernel,
  spawn_kernel, set_state, set_current, set_cwd, set_brk,
}
use bright_s.Proc.Life.{
  Parts, find_unused, exit, spawned_user, spawn_user, fork, cloned, exec, exec_at, exec_loaded,
}
use bright_s.Proc.Sound.{live, Inv, Same, set_entry-Inv, entered-Inv}
use bright_s.Proc.Search.{find_live_lem, find_unused_lem, get_by_pid_lem, find_free_slot_lem}

pub spawn_kernel-Inv :
    (stray : ℕ → ℕ → Procs → Procs) (s : Procs) (name : Option (List ℕ))
    → s.next_pid < pid_range
    → Inv s
    → Inv (spawn_kernel stray s name).1
unfolding spawn_kernel spawned_kernel store_index
spawn_kernel-Inv stray s name small inv = elim (Option-cases (find_free_slot s)) [
  | inl e ↦ rw (e, spawn_kernel) inv
  | inr (slot, e) ↦
      let inside : slot < proc_max = find_free_slot_lem s slot e in
      let fits : ltb s.next_pid pid_range ≡ true = ground arith in
      rw (e, spawn_kernel)
        (rw (fits, spawned_kernel, store_index)
          (set_entry-Inv _ slot _
            (entered-Inv s slot _ (set s.pid_to_index s.next_pid slot) _ inv inside (omega arith)
              refl (length-set s.pid_to_index s.next_pid slot ∙ inv.index_size)
              (λ pid h.
                get_or-set_ne s.pid_to_index s.next_pid pid slot 0 (λ e. absurd (omega arith))))
            (record { pid = refl; lives = λ h. h })))
]

unused-Same : (p q : ProcInfo) → q.pid ≡ p.pid → live p ≡ true → Same p q
unused-Same p q e lives = record { pid = e; lives = λ h. lives }

pub set_state-Inv :
    (s : Procs) (pid : ℕ) (state : ProcState) → Inv s → Inv (set_state s pid state).1
unfolding set_state
set_state-Inv s pid state inv = elim (Option-cases (get_by_pid s pid)) [
  | inl e ↦ rw (e, set_state) inv
  | inr (i, e) ↦
      let (inside, has, lives) = get_by_pid_lem s pid i e in
      rw (e, set_state) (set_entry-Inv s i _ inv (unused-Same (proc_at s.table i) _ refl lives))
]

pub set_cwd-Inv : (s : Procs) (path : List ℕ) → Inv s → Inv (set_cwd s path).1
unfolding set_cwd
set_cwd-Inv s path inv = elim (Option-cases (get_by_pid s s.current_pid)) [
  | inl e ↦ rw (e, set_cwd) inv
  | inr (i, e) ↦ rw (e, set_cwd) (set_entry-Inv s i _ inv (record { pid = refl; lives = λ h. h }))
]

pub set_brk-Inv : (s : Procs) (pid new_brk : ℕ) → Inv s → Inv (set_brk s pid new_brk).1
unfolding set_brk
set_brk-Inv s pid new_brk inv = elim (Option-cases (find_live 0 s.table pid)) [
  | inl e ↦ rw (e, set_brk) inv
  | inr (i, e) ↦ rw (e, set_brk) (set_entry-Inv s i _ inv (record { pid = refl; lives = λ h. h }))
]

pub set_current-Inv : (s : Procs) (pid : ℕ) → Inv s → Inv (set_current s pid)
set_current-Inv s pid inv = record {
  size = inv.size;
  index_size = inv.index_size;
  first = inv.first;
  fresh = inv.fresh;
  handed_out = inv.handed_out;
  distinct = inv.distinct;
}

module _ {W : Type 0} (parts : Parts W) where
  pub exit-Inv : (s : Procs) (w : W) (pid code : ℕ) → Inv s → Inv (exit parts s w pid code).1
  unfolding exit
  exit-Inv s w pid code inv = elim (Bool-cases (pid == 0)) [
    | inl e ↦ rw (e, exit) inv
    | inr e ↦ elim (Option-cases (find_live 0 s.table pid)) [
      | inl missing ↦ rw (e, exit) (rw (missing, exit) inv)
      | inr (i, found) ↦
          let (j, at, inside, has, lives) = find_live_lem 0 s.table pid i found in
          let same : j ≡ i = omega arith in
          rw (e, exit)
            (rw (found, exit)
              (set_entry-Inv s i _ inv (
                unused-Same (proc_at s.table i) _ refl
                  (subst (λ k. live (proc_at s.table k) ≡ true) same lives))))
    ]
  ]

  pub spawn_user-Inv :
      (s : Procs) (w : W) (name : Option (List ℕ)) (entry stack_top : ℕ)
      → s.next_pid + 1 < 2 ^ 32
      → Inv s
      → Inv (spawn_user parts s w name entry stack_top).1
  unfolding spawn_user spawned_user
  spawn_user-Inv s w name entry stack_top small inv = elim (Option-cases (find_unused 0 s.table)) [
    | inl e ↦ rw (e, spawn_user) inv
    | inr (i, e) ↦
        let (j, at, inside) = find_unused_lem 0 s.table i e in
        rw (e, spawn_user)
          (set_entry-Inv _ i _
            (entered-Inv s i s.free_slots_bitmap s.pid_to_index _ inv (omega (arith, inv.size))
              small refl inv.index_size (λ pid h. refl))
            (record { pid = refl; lives = λ h. h }))
  ]

  pub fork-Inv : (s : Procs) (w : W) → s.next_pid + 1 < 2 ^ 32 → Inv s → Inv (fork parts s w).1
  unfolding fork
  fork-Inv s w small inv = elim (Option-cases (get_by_pid s s.current_pid)) [
    | inl e ↦ rw (e, fork) inv
    | inr (parent, e) ↦ elim (Option-cases (find_unused 0 s.table)) [
      | inl none_free ↦ rw (e, fork) (rw (none_free, fork) inv)
      | inr (i, f) ↦
          let (j, at, inside) = find_unused_lem 0 s.table i f in
          let here : i < proc_max = omega (arith, inv.size) in
          rw (e, fork)
            (rw (f, fork)
              (elim (Bool-cases (
                (proc_at s.table parent).is_user
                && not ((proc_at s.table parent).cr3 == 0)
                && (cloned parts (proc_at s.table parent) w).0 == 0)) [
                  | inl fails ↦
                      rw (fails, fork)
                        (entered-Inv s i s.free_slots_bitmap s.pid_to_index _ inv here small refl
                          inv.index_size (λ pid h. refl))
                  | inr works ↦
                      rw (works, fork)
                        (entered-Inv s i s.free_slots_bitmap s.pid_to_index _ inv here small refl
                          inv.index_size (λ pid h. refl))
                ]))
    ]
  ]

  exec_loaded-Inv :
      (s : Procs) (i cr3 : ℕ) (program : Option (ℕ × ℕ)) (w : W)
      → Inv s
      → Inv (exec_loaded parts s i (proc_at s.table i) cr3 program w).1
  unfolding exec_loaded
  exec_loaded-Inv s i cr3 none w inv =
      set_entry-Inv s i _ inv (record { pid = refl; lives = λ h. h })
  exec_loaded-Inv s i cr3 (some (entry, stack_top)) w inv =
      set_entry-Inv s i _ inv (record { pid = refl; lives = λ h. h })

  pub exec-Inv : (s : Procs) (w : W) → Inv s → Inv (exec parts s w).1
  unfolding exec exec_at
  exec-Inv s w inv = elim (Option-cases (get_by_pid s s.current_pid)) [
    | inl e ↦ rw (e, exec) inv
    | inr (i, e) ↦
        let p : ProcInfo = proc_at s.table i in
        let w1 = parts.create_space (parts.destroy_space p.cr3 w) in
        let program = parts.load_elf w1.1 in
        rw (e, exec)
          (elim (Bool-cases (not p.is_user)) [
            | inl kernel ↦ rw (kernel, exec) inv
            | inr user ↦ elim (Bool-cases (w1.0 == 0)) [
              | inl no_space ↦
                  rw (user, exec)
                    (rw (no_space, exec_at)
                      (set_entry-Inv s i _ inv (record { pid = refl; lives = λ h. h })))
              | inr space ↦
                  rw (user, exec)
                    (rw (space, exec_at) (exec_loaded-Inv s i w1.0 program.0 program.1 inv))
            ]
          ])
  ]
