-- ===== src/Proc/Tests.antt =====
-- The processes of kernel/proc.c at concrete inputs.
use bright_s.Base.{
  ℕ, ◌+◌, ◌≡◌, ◌≢◌, ◌⊎◌, refl, List, [], ◌∷◌, ◌++◌, none, some, true, replicate, length-replicate,
  arith,
}
use bright_s.Base.Int.{pos, minus_one}
use bright_s.Word.{lowest}
use bright_s.Hook
use bright_s.Fs.Text.{slash}
use bright_s.Fs.Vfs.Files.{max_fds}
use bright_s.Fs.Path.Describe.{split, resolve, join, fit}
use bright_s.Pmem.Used.{start, start-Inv}
use bright_s.Proc.{no_proc, proc_at, zombie}
use bright_s.Proc.Table.{
  Procs, init, spawn_kernel, spawned_kernel, store_index, find_free_slot, get_by_pid, inherited_cwd,
  set_cwd, get_cwd,
}
use bright_s.Proc.Life.{Parts, fork, find_unused, cloned, exit}
use bright_s.Proc.Sound.{live}
use bright_s.Proc.Sound
use bright_s.Proc.History.{Call, spawns_kernel, sets_current, calls, call, init-calls-Inv}
use bright_s.Proc.Effects.{Forked, fork_lem}
use bright_s.Proc.Paths.{resolve_path, resolve_path-eq-resolve}
use bright_s.Proc.Exit.{Machine, Others, machine_parts, Exited, exit_lem}

abbrev others : Others ℕ
others = record {
  close = λ f x. x + 1;
  active_cr3 = λ x. 0;
  create_space = λ r. (4096, r);
  destroy_space = λ cr3 r. r;
  clone_space = λ cr3 r. (4096, r);
  load_elf = λ x. (none, x);
}

abbrev parts : Parts (Machine ℕ)
parts = machine_parts others

abbrev machine : Machine ℕ
machine = record { hooks = Hook.init Hook.boot; mem = start 1048576 100; rest = 0 }

abbrev before : Procs
before = record {
  table = replicate 64 no_proc;
  pid_to_index = [];
  free_slots_bitmap = 0;
  next_pid = 0;
  current_pid = 0;
}

-- No write behind `pid_to_index` does harm.
abbrev lost : ℕ → ℕ → Procs → Procs
lost pid slot s = s

-- A process of the kernel runs.
abbrev history : List Call
history = spawns_kernel none ∷ sets_current 1 ∷ []

unfoldable one_process : Procs
one_process = (calls parts lost (init before, machine) history).0

init-calls-Inv_example : Sound.Inv (calls parts lost (init before, machine) history).0
init-calls-Inv_example =
    init-calls-Inv parts lost before machine history (length-replicate 64 no_proc) (omega arith)

one-Inv : Sound.Inv one_process
unfolding one_process
one-Inv =
    init-calls-Inv parts lost before machine history (length-replicate 64 no_proc) (omega arith)

fork_lem_example :
    ((fork parts one_process machine).0 ≡ minus_one)
    ⊎ Forked one_process (fork parts one_process machine).1 (fork parts one_process machine).0
fork_lem_example = fork_lem parts one_process machine one-Inv

-- The child has the id 2 and the second entry, but no place in `pid_to_index`.
forked_id : (fork parts one_process machine).0 ≡ pos 2
unfolding one_process calls call init spawn_kernel spawned_kernel store_index find_free_slot lowest
    get_by_pid inherited_cwd fork find_unused cloned
forked_id = refl

forked_lost : get_by_pid (fork parts one_process machine).1 2 ≡ none
unfolding one_process calls call init spawn_kernel spawned_kernel store_index find_free_slot lowest
    get_by_pid inherited_cwd fork find_unused cloned
forked_lost = refl

is_ready : (Hook.init Hook.boot).initialized ≡ true
unfolding Hook.init Hook.boot
is_ready = refl

exit_lem_example :
    let r = exit parts one_process machine 1 7 in
    ((i : ℕ) × (live (proc_at one_process.table i) ≡ true)
      × ((proc_at one_process.table i).pid ≡ 1)
      × (r.0 ≡ pos 0)
      × (proc_at r.1.table i ≡ record (proc_at one_process.table i) {
        fd_table = replicate max_fds none;
        state = zombie;
        exit_code = 7;
      })
      × ((j : ℕ) → i ≢ j → proc_at r.1.table j ≡ proc_at one_process.table j)
      × Exited (proc_at one_process.table i) 1 machine r.2)
    ⊎ (((j : ℕ) → live (proc_at one_process.table j) ≡ true → (proc_at one_process.table j).pid ≢ 1)
        × (r ≡ (minus_one, one_process, machine)))
exit_lem_example =
    exit_lem others one_process machine 1 7 (λ e. omega arith) (start-Inv 1048576 100)
      (λ cr3 mem x inv. (inv, refl)) is_ready (omega arith)

-- The process works in /a.
unfoldable in_a : Procs
in_a = (set_cwd one_process (slash ∷ 0x61 ∷ [])).1

cwd_is : get_cwd in_a ≡ slash ∷ 0x61 ∷ []
unfolding in_a set_cwd get_cwd one_process calls call init spawn_kernel spawned_kernel store_index
    find_free_slot lowest get_by_pid inherited_cwd
cwd_is = refl

-- The path "../b".
abbrev up_to_b : List ℕ
up_to_b = 0x2e ∷ 0x2e ∷ slash ∷ 0x62 ∷ []

resolve_path-eq-resolve_example :
    resolve_path in_a up_to_b 128 ≡ (elim (resolve 64 (split (get_cwd in_a) ++ split up_to_b) []) [
      | none ↦ none
      | some segs ↦ fit 128 (join segs)
    ])
resolve_path-eq-resolve_example =
    resolve_path-eq-resolve in_a up_to_b 128 (omega arith) (omega arith) refl
      (rw cwd_is (omega arith)) (rw cwd_is refl) (rw cwd_is (omega arith))
