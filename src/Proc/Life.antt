-- ===== src/Proc/Life.antt =====
-- kernel/proc.c: the calls that start and end processes, with the parts of the kernel they call.
use bright_s.Base.{
  ℕ, ◌+◌, ◌-◌, ◌%◌, ◌^◌, List, [], ◌∷◌, Option, none, some, true, not, ◌&&◌, ◌==◌, if◌then◌else◌,
  replicate,
}
use bright_s.Base.Int.{ℤ, pos, minus_one}
use bright_s.Fs.Vfs.Files.{max_fds}
use bright_s.Proc.{Ctx, ProcInfo, unused, runnable, zombie, no_ctx, proc_at, is_unused}
use bright_s.Proc.Table.{
  Procs, proc_kstack_size, proc_str_copy, proc_name_len, proc_cwd_len, get_current, find_live,
  inherited_cwd, set_entry, name_or, next_pid_after, int_of,
}

-- The calls of other parts, on their state W: `brights_vfs2_close`,
-- `brights_syshook_cleanup_pid`, `brights_paging_get_cr3`, `_create_address_space`,
-- `_destroy_address_space` and `_clone_address_space`, `brights_pmem_alloc_page` and `_free_page`,
-- and `brights_elf_load` of the program that is given, with its entry and stack top.
pub record Parts (W : Type 0) : Type 0 where
  pub close : ℕ → W → W
  pub cleanup_pid : ℕ → W → W
  pub active_cr3 : W → ℕ
  pub create_space : W → ℕ × W
  pub destroy_space : ℕ → W → W
  pub clone_space : ℕ → W → ℕ × W
  pub alloc_page : W → ℕ × W
  pub free_page : ℕ → W → W
  pub load_elf : W → Option (ℕ × ℕ) × W

-- The search of the loops for an entry that is not in use, from entry k on.
unfoldable pub find_unused : ℕ → List ProcInfo → Option ℕ
find_unused k [] = none
find_unused k (p ∷ table) =
    let rest = find_unused (k + 1) table in if is_unused p.state then some k else rest

-- `(uint64_t)kstack_page + BRIGHTS_PROC_KSTACK_SIZE`, or 0 without a page.
abbrev pub stack_top_of : ℕ → ℕ
stack_top_of page = if page == 0 then 0 else (page + proc_kstack_size) % 2 ^ 64

-- The registers with which a program starts.
abbrev pub start_ctx : ℕ → ℕ → Ctx
start_ctx entry stack_top = record no_ctx {
  rip = entry;
  rsp = stack_top;
  cs = 0x2b;
  ss = 0x23;
  rflags = 0x202;
}

-- The string "user".
abbrev pub user_name : List ℕ
user_name = 0x75 ∷ 0x73 ∷ 0x65 ∷ 0x72 ∷ []

module _ {W : Type 0} (parts : Parts W) where
  -- The loop of `brights_proc_exit` over the descriptors.
  unfoldable pub close_all : List (Option ℕ) → W → W
  close_all [] w = w
  close_all (none ∷ fds) w = close_all fds w
  close_all (some f ∷ fds) w = close_all fds (parts.close f w)

  -- The end of an address space of a user process that is not the active one.
  unfoldable pub leave_space : ProcInfo → W → W
  leave_space p w =
      if not (p.cr3 == 0) && p.is_user && not (p.cr3 == parts.active_cr3 w)
      then parts.destroy_space p.cr3 w
      else w

  unfoldable pub leave_stack : ProcInfo → W → W
  leave_stack p w =
      if p.kernel_stack == 0
      then w
      else parts.free_page ((p.kernel_stack + (2 ^ 64 - proc_kstack_size)) % 2 ^ 64) w

  abbrev pub ended : ProcInfo → ℕ → ProcInfo
  ended p code = record p { fd_table = replicate max_fds none; state = zombie; exit_code = code }

  -- `brights_proc_exit`; the exit code is taken as a number.
  unfoldable pub exit : Procs → W → ℕ → ℕ → ℤ × Procs × W
  exit s w pid code = if pid == 0 then (minus_one, s, w) else elim (find_live 0 s.table pid) [
    | none ↦ (minus_one, s, w)
    | some i ↦
        let p : ProcInfo = proc_at s.table i in
        (
          pos 0,
          set_entry s i (ended p code),
          leave_stack p (leave_space p (parts.cleanup_pid pid (close_all p.fd_table w))),
        )
  ]

  -- The entry that `brights_proc_spawn_user` writes up to the kernel stack; `cr3` and
  -- `kernel_stack` are those it got.
  abbrev pub user_entry_of : Procs → ProcInfo → Option (List ℕ) → ℕ → ℕ → ℕ → ℕ → ProcInfo
  user_entry_of s p name entry stack_top cr3 page = record p {
    pid = s.next_pid;
    ppid = s.current_pid;
    state = runnable;
    exit_code = 0;
    is_user = true;
    user_entry = entry;
    user_stack_top = stack_top;
    brk = 0;
    brk_start = 0;
    cr3 = cr3;
    kernel_stack = stack_top_of page;
    name = name_or name user_name;
    fd_table = replicate max_fds none;
  }

  unfoldable pub spawned_user : Procs → ℕ → ProcInfo → ℕ → ℕ → Procs
  spawned_user s i p entry stack_top =
      let t : Procs = set_entry (next_pid_after s) i p in
      set_entry t i
        (record (proc_at t.table i) { cwd = inherited_cwd t; ctx = start_ctx entry stack_top })

  -- `brights_proc_spawn_user`.
  unfoldable pub spawn_user : Procs → W → Option (List ℕ) → ℕ → ℕ → ℤ × Procs × W
  spawn_user s w name entry stack_top = elim (find_unused 0 s.table) [
    | none ↦ (minus_one, s, w)
    | some i ↦
        let (cr3, w1) = parts.create_space w in
        let (page, w2) = parts.alloc_page w1 in
        (
          int_of s.next_pid,
          spawned_user s i (user_entry_of s (proc_at s.table i) name entry stack_top cr3 page) entry
              stack_top,
          w2,
        )
  ]

  -- What `brights_proc_fork` copies before the address space.
  abbrev pub forked : Procs → ProcInfo → ProcInfo → ProcInfo
  forked s parent child = record child {
    pid = s.next_pid;
    ppid = parent.pid;
    state = runnable;
    exit_code = 0;
    name = proc_str_copy proc_name_len parent.name;
    cwd = proc_str_copy proc_cwd_len parent.cwd;
    is_user = parent.is_user;
    fd_table = parent.fd_table;
  }

  -- The clone of the address space: its `cr3`, 0 if there is none to clone.
  unfoldable pub cloned : ProcInfo → W → ℕ × W
  cloned parent w =
      if parent.is_user && not (parent.cr3 == 0) then parts.clone_space parent.cr3 w else (0, w)

  abbrev pub forked_rest : ProcInfo → ProcInfo → ℕ → ℕ → ProcInfo
  forked_rest parent child cr3 page = record child {
    cr3 = cr3;
    user_entry = parent.user_entry;
    user_stack_top = parent.user_stack_top;
    brk = parent.brk;
    brk_start = parent.brk_start;
    kernel_stack = stack_top_of page;
    ctx = record parent.ctx { rax = 0 };
  }

  -- `brights_proc_fork`: the new id is used up even when the clone fails.
  unfoldable pub fork : Procs → W → ℤ × Procs × W
  fork s w = elim (get_current s) [
    | none ↦ (minus_one, s, w)
    | some parent ↦ elim (find_unused 0 s.table) [
      | none ↦ (minus_one, s, w)
      | some i ↦
          let p : ProcInfo = proc_at s.table parent in
          let c : ProcInfo = forked s p (proc_at s.table i) in
          let (cr3, w1) = cloned p w in
          if p.is_user && not (p.cr3 == 0) && cr3 == 0
          then (
            minus_one,
            set_entry (next_pid_after s) i (record c { cr3 = 0; state = unused }),
            w1,
          )
          else (let (page, w2) = parts.alloc_page w1 in
              (int_of s.next_pid, set_entry (next_pid_after s) i (forked_rest p c cr3 page), w2))
    ]
  ]

  -- The end of `brights_proc_exec`, after the load.
  unfoldable pub exec_loaded : Procs → ℕ → ProcInfo → ℕ → Option (ℕ × ℕ) → W → ℤ × Procs × W
  exec_loaded s i p cr3 none w =
      let w1 : W = parts.destroy_space cr3 w in
      (minus_one, set_entry s i (record p { cr3 = parts.active_cr3 w1 }), w1)
  exec_loaded s i p cr3 (some (entry, stack_top)) w = (
    pos 0,
    set_entry s i (record p {
      cr3 = cr3;
      user_entry = entry;
      user_stack_top = stack_top;
      brk = 0;
      brk_start = 0;
      ctx = start_ctx entry stack_top;
    }),
    w,
  )

  -- `brights_proc_exec` of the process at index i.
  unfoldable pub exec_at : Procs → ℕ → ProcInfo → W → ℤ × Procs × W
  exec_at s i p w =
      let (cr3, w1) = parts.create_space (parts.destroy_space p.cr3 w) in
      let (program, w2) = parts.load_elf w1 in
      if cr3 == 0
      then (minus_one, set_entry s i (record p { cr3 = 0 }), w1)
      else exec_loaded s i p cr3 program w2

  -- `brights_proc_exec`; when it fails the program that ran is gone.
  unfoldable pub exec : Procs → W → ℤ × Procs × W
  exec s w = elim (get_current s) [
    | none ↦ (minus_one, s, w)
    | some i ↦
        if not (proc_at s.table i).is_user
        then (minus_one, s, w)
        else exec_at s i (proc_at s.table i) w
  ]
