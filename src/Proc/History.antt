-- ===== src/Proc/History.antt =====
-- kernel/proc.c: histories of calls.
use bright_s.Base.{
  ℕ, ◌+◌, ◌%◌, ◌^◌, true, ltb, ◌≤◌, ◌<◌, ◌≡◌, ◌⊎◌, refl, List, [], ◌∷◌, Option, none, some, length,
  arith, Bool-cases, Option-cases, inl, inr, ◌==◌, ◌&&◌, not,
}
use bright_s.Proc.{ProcInfo, ProcState, proc_at}
use bright_s.Proc.Table.{
  Procs, proc_max, init, find_free_slot, pid_range, store_index, spawn_kernel, spawned_kernel,
  set_state, set_current, set_cwd, set_brk, get_by_pid, find_live,
}
use bright_s.Proc.Life.{
  Parts, find_unused, exit, spawn_user, spawned_user, fork, cloned, exec, exec_at, exec_loaded,
}
use bright_s.Proc.Sound.{Inv, init-Inv}
use bright_s.Proc.Calls.{
  set_state-Inv, set_cwd-Inv, set_brk-Inv, set_current-Inv, spawn_kernel-Inv, exit-Inv,
  spawn_user-Inv, fork-Inv, exec-Inv,
}

-- The calls that change the table.
pub data Call : Type 0 where
  spawns_kernel : Option (List ℕ) → Call
  spawns_user : Option (List ℕ) → ℕ → ℕ → Call
  forks : Call
  execs : Call
  exits : ℕ → ℕ → Call
  sets_state : ℕ → ProcState → Call
  sets_current : ℕ → Call
  sets_cwd : List ℕ → Call
  sets_brk : ℕ → ℕ → Call

-- How many of the calls may hand out an id.
abbrev pub starts : Call → ℕ
starts (spawns_kernel name) = 1
starts (spawns_user name entry stack_top) = 1
starts forks = 1
starts execs = 0
starts (exits pid code) = 0
starts (sets_state pid state) = 0
starts (sets_current pid) = 0
starts (sets_cwd path) = 0
starts (sets_brk pid new_brk) = 0

abbrev pub count_starts : List Call → ℕ
count_starts [] = 0
count_starts (c ∷ cs) = starts c + count_starts cs

-- `stray` is what a write behind `pid_to_index` does.
module _ {W : Type 0} (parts : Parts W) (stray : ℕ → ℕ → Procs → Procs) where
  unfoldable pub call : Procs × W → Call → Procs × W
  call (s, w) (spawns_kernel name) = ((spawn_kernel stray s name).1, w)
  call (s, w) (spawns_user name entry stack_top) =
      let r = spawn_user parts s w name entry stack_top in (r.1, r.2)
  call (s, w) forks = let r = fork parts s w in (r.1, r.2)
  call (s, w) execs = let r = exec parts s w in (r.1, r.2)
  call (s, w) (exits pid code) = let r = exit parts s w pid code in (r.1, r.2)
  call (s, w) (sets_state pid state) = ((set_state s pid state).1, w)
  call (s, w) (sets_current pid) = (set_current s pid, w)
  call (s, w) (sets_cwd path) = ((set_cwd s path).1, w)
  call (s, w) (sets_brk pid new_brk) = ((set_brk s pid new_brk).1, w)

  unfoldable pub calls : Procs × W → List Call → Procs × W
  calls k [] = k
  calls k (c ∷ cs) = calls (call k c) cs

set_state-next :
    (s : Procs) (pid : ℕ) (state : ProcState) → (set_state s pid state).1.next_pid ≡ s.next_pid
unfolding set_state
set_state-next s pid state = elim (Option-cases (get_by_pid s pid)) [
  | inl e ↦ rw (e, set_state) refl
  | inr (i, e) ↦ rw (e, set_state) refl
]

set_cwd-next : (s : Procs) (path : List ℕ) → (set_cwd s path).1.next_pid ≡ s.next_pid
unfolding set_cwd
set_cwd-next s path = elim (Option-cases (get_by_pid s s.current_pid)) [
  | inl e ↦ rw (e, set_cwd) refl
  | inr (i, e) ↦ rw (e, set_cwd) refl
]

set_brk-next : (s : Procs) (pid new_brk : ℕ) → (set_brk s pid new_brk).1.next_pid ≡ s.next_pid
unfolding set_brk
set_brk-next s pid new_brk = elim (Option-cases (find_live 0 s.table pid)) [
  | inl e ↦ rw (e, set_brk) refl
  | inr (i, e) ↦ rw (e, set_brk) refl
]

-- One id is used up, or none.
Next : Procs → Procs → Type 0
Next s t = (t.next_pid ≡ s.next_pid) ⊎ (t.next_pid ≡ (s.next_pid + 1) % 2 ^ 32)

spawn_kernel-Next :
    (stray : ℕ → ℕ → Procs → Procs) (s : Procs) (name : Option (List ℕ))
    → s.next_pid < pid_range
    → Next s (spawn_kernel stray s name).1
unfolding Next spawn_kernel spawned_kernel store_index
spawn_kernel-Next stray s name small = elim (Option-cases (find_free_slot s)) [
  | inl e ↦ rw (e, spawn_kernel) (inl refl)
  | inr (slot, e) ↦
      let fits : ltb s.next_pid pid_range ≡ true = ground arith in
      rw (e, spawn_kernel) (rw (fits, spawned_kernel, store_index) (inr refl))
]

module _ {W : Type 0} (parts : Parts W) where
  exit-next : (s : Procs) (w : W) (pid code : ℕ) → (exit parts s w pid code).1.next_pid ≡ s.next_pid
  unfolding exit
  exit-next s w pid code = elim (Bool-cases (pid == 0)) [
    | inl e ↦ rw (e, exit) refl
    | inr e ↦ elim (Option-cases (find_live 0 s.table pid)) [
      | inl missing ↦ rw (e, exit) (rw (missing, exit) refl)
      | inr (i, found) ↦ rw (e, exit) (rw (found, exit) refl)
    ]
  ]

  spawn_user-Next :
      (s : Procs) (w : W) (name : Option (List ℕ)) (entry stack_top : ℕ)
      → Next s (spawn_user parts s w name entry stack_top).1
  unfolding Next spawn_user spawned_user
  spawn_user-Next s w name entry stack_top = elim (Option-cases (find_unused 0 s.table)) [
    | inl e ↦ rw (e, spawn_user) (inl refl)
    | inr (i, e) ↦ rw (e, spawn_user) (inr refl)
  ]

  fork-Next : (s : Procs) (w : W) → Next s (fork parts s w).1
  unfolding Next fork
  fork-Next s w = elim (Option-cases (get_by_pid s s.current_pid)) [
    | inl e ↦ rw (e, fork) (inl refl)
    | inr (parent, e) ↦ elim (Option-cases (find_unused 0 s.table)) [
      | inl none_free ↦ rw (e, fork) (rw (none_free, fork) (inl refl))
      | inr (i, f) ↦
          rw (e, fork)
            (rw (f, fork)
              (elim (Bool-cases (
                (proc_at s.table parent).is_user
                && not ((proc_at s.table parent).cr3 == 0)
                && (cloned parts (proc_at s.table parent) w).0 == 0)) [
                  | inl fails ↦ rw (fails, fork) (inr refl)
                  | inr works ↦ rw (works, fork) (inr refl)
                ]))
    ]
  ]

  exec_loaded-next :
      (s : Procs) (i : ℕ) (p : ProcInfo) (cr3 : ℕ) (program : Option (ℕ × ℕ)) (w : W)
      → (exec_loaded parts s i p cr3 program w).1.next_pid ≡ s.next_pid
  unfolding exec_loaded
  exec_loaded-next s i p cr3 none w = refl
  exec_loaded-next s i p cr3 (some (entry, stack_top)) w = refl

  exec-next : (s : Procs) (w : W) → (exec parts s w).1.next_pid ≡ s.next_pid
  unfolding exec exec_at
  exec-next s w = elim (Option-cases (get_by_pid s s.current_pid)) [
    | inl e ↦ rw (e, exec) refl
    | inr (i, e) ↦
        let p : ProcInfo = proc_at s.table i in
        let w1 = parts.create_space (parts.destroy_space p.cr3 w) in
        let program = parts.load_elf w1.1 in
        rw (e, exec)
          (elim (Bool-cases (not p.is_user)) [
            | inl kernel ↦ rw (kernel, exec) refl
            | inr user ↦ elim (Bool-cases (w1.0 == 0)) [
              | inl no_space ↦ rw (user, exec) (rw (no_space, exec_at) refl)
              | inr space ↦
                  rw (user, exec)
                    (rw (space, exec_at) (exec_loaded-next s i p w1.0 program.0 program.1))
            ]
          ])
  ]

Next-small : (s t : Procs) → Next s t → s.next_pid + 1 < 2 ^ 32 → t.next_pid ≤ s.next_pid + 1
unfolding Next
Next-small s t (inl e) h = omega arith
Next-small s t (inr e) h = omega arith

module _ {W : Type 0} (parts : Parts W) (stray : ℕ → ℕ → Procs → Procs) where
  call-Inv :
      (s : Procs) (w : W) (c : Call)
      → s.next_pid + starts c ≤ pid_range
      → Inv s
      → Inv (call parts stray (s, w) c).0
        × ((call parts stray (s, w) c).0.next_pid ≤ s.next_pid + starts c)
  unfolding call
  call-Inv s w (spawns_kernel name) h inv = (
    spawn_kernel-Inv stray s name (omega arith) inv,
    Next-small s (spawn_kernel stray s name).1 (spawn_kernel-Next stray s name (omega arith))
        (omega arith),
  )
  call-Inv s w (spawns_user name entry stack_top) h inv = (
    spawn_user-Inv parts s w name entry stack_top (omega arith) inv,
    Next-small s (spawn_user parts s w name entry stack_top).1
        (spawn_user-Next parts s w name entry stack_top) (omega arith),
  )
  call-Inv s w forks h inv = (
    fork-Inv parts s w (omega arith) inv,
    Next-small s (fork parts s w).1 (fork-Next parts s w) (omega arith),
  )
  call-Inv s w execs h inv = (exec-Inv parts s w inv, omega (arith, exec-next parts s w))
  call-Inv s w (exits pid code) h inv =
      (exit-Inv parts s w pid code inv, omega (arith, exit-next parts s w pid code))
  call-Inv s w (sets_state pid state) h inv =
      (set_state-Inv s pid state inv, omega (arith, set_state-next s pid state))
  call-Inv s w (sets_current pid) h inv = (set_current-Inv s pid inv, omega arith)
  call-Inv s w (sets_cwd path) h inv = (set_cwd-Inv s path inv, omega (arith, set_cwd-next s path))
  call-Inv s w (sets_brk pid new_brk) h inv =
      (set_brk-Inv s pid new_brk inv, omega (arith, set_brk-next s pid new_brk))

  calls-Inv :
      (cs : List Call) (s : Procs) (w : W)
      → s.next_pid + count_starts cs ≤ pid_range
      → Inv s
      → Inv (calls parts stray (s, w) cs).0
  unfolding calls
  calls-Inv [] s w h inv = inv
  calls-Inv (c ∷ cs) s w h inv =
      let k = call parts stray (s, w) c in
      let (inv', bound) = call-Inv s w c (omega arith) inv in
      calls-Inv cs k.0 k.1 (omega (arith, bound)) inv'

  -- After brights_proc_init and any history of calls of which at most 255 start a process, so
  -- that no id reaches 256, whatever the other parts do: processes in use have different ids,
  -- from 1 to below the next id, and no id that was not handed out has a place in pid_to_index.
  pub init-calls-Inv :
      (s : Procs) (w : W) (cs : List Call)
      → length s.table ≡ proc_max
      → count_starts cs ≤ 255
      → Inv (calls parts stray (init s, w) cs).0
  unfolding init
  init-calls-Inv s w cs size few = calls-Inv cs (init s) w (omega arith) (init-Inv s size)
