-- ===== src/Proc/Exit.antt =====
-- kernel/proc.c: brights_proc_exit with the hooks of kernel/syshook.c and the pages of
-- kernel/pmem.c.
use bright_s.Base.{
  ℕ, zero, suc, ◌+◌, ◌-◌, ◌*◌, ◌/◌, ◌%◌, ◌^◌, ◌≤◌, ◌<◌, ◌≡◌, ◌≢◌, ◌⊎◌, refl, sym, ap, subst, ◌∙◌,
  List, [], ◌∷◌, Option, none, some, length, arith, true, false, Bool-cases, Option-cases, inl, inr,
  ◌==◌, ◌&&◌, ◌||◌, not, replicate, ltb, leb, if◌then◌else◌, get_or-set_self, get_or-set_ne,
}
use bright_s.Base.Int.{ℤ, pos, minus_one}
use bright_s.Hook.{Hook, Hooks, released}
use bright_s.Hook.Calls.{cleanup_pid}
use bright_s.Hook.Delivery.{hook_at}
use bright_s.Hook.Table.{cleanup_loop_lem}
use bright_s.Pmem.{Pmem, max_pages, page_size, page_addr, bitmap_test, alloc_page, free_page}
use bright_s.Pmem.Single.{Inv}
use bright_s.Pmem.Release.{released-Gave}
use bright_s.Pmem.Undo.{free_page_lem}
use bright_s.Proc.{ProcInfo, no_proc, proc_at, is_unused, zombie}
use bright_s.Fs.Vfs.Files.{max_fds}
use bright_s.Proc.Table.{Procs, proc_kstack_size, find_live, set_entry}
use bright_s.Proc.Life.{Parts, exit, ended, close_all, leave_space, leave_stack}
use bright_s.Proc.Sound.{live}
use bright_s.Proc.Search.{find_live_lem}

find_live-none :
    (k : ℕ) (t : List ProcInfo) (pid : ℕ)
    → find_live k t pid ≡ none
    → (j : ℕ) → live (proc_at t j) ≡ true
    → (proc_at t j).pid ≢ pid
unfolding find_live
find_live-none k [] pid e j lives = absurd (ground arith)
find_live-none k (p ∷ t) pid e j lives =
    go (Bool-cases (p.pid == pid && not (is_unused p.state))) (find_live-none (k + 1) t pid) j lives
  where
    go :
        ((p.pid == pid && not (is_unused p.state)) ≡ true)
          ⊎ ((p.pid == pid && not (is_unused p.state)) ≡ false)
        → (find_live (k + 1) t pid ≡ none
            → (j : ℕ) → live (proc_at t j) ≡ true
            → (proc_at t j).pid ≢ pid)
        → (j : ℕ) → live (proc_at (p ∷ t) j) ≡ true
        → (proc_at (p ∷ t) j).pid ≢ pid
    go (inl found) ih j lives = absurd (ground arith)
    go (inr other) ih zero lives = ground arith
    go (inr other) ih (suc j) lives = ih (ground arith) j lives

-- What the kernel keeps outside of the table of processes: the hooks, the pages, and the rest.
pub record Machine (X : Type 0) : Type 0 where
  pub hooks : Hooks
  pub mem : Pmem
  pub rest : X

-- The calls of the parts that are not modelled: closing a file works on the rest, and paging on
-- it and on the pages.
pub record Others (X : Type 0) : Type 0 where
  pub close : ℕ → X → X
  pub active_cr3 : X → ℕ
  pub create_space : Pmem × X → ℕ × (Pmem × X)
  pub destroy_space : ℕ → Pmem × X → Pmem × X
  pub clone_space : ℕ → Pmem × X → ℕ × (Pmem × X)
  pub load_elf : X → Option (ℕ × ℕ) × X

module _ {X : Type 0} (others : Others X) where
  abbrev pub with_pages : Machine X → Pmem × X → Machine X
  with_pages m (mem, rest) = record { hooks = m.hooks; mem = mem; rest = rest }

  -- The parts of this machine.
  abbrev pub machine_parts : Parts (Machine X)
  machine_parts = record {
    close = λ f m. record m { rest = others.close f m.rest };
    cleanup_pid = λ pid m. record m { hooks = cleanup_pid m.hooks pid };
    active_cr3 = λ m. others.active_cr3 m.rest;
    create_space = λ m. let r = others.create_space (m.mem, m.rest) in (r.0, with_pages m r.1);
    destroy_space = λ cr3 m. with_pages m (others.destroy_space cr3 (m.mem, m.rest));
    clone_space =
        λ cr3 m. let r = others.clone_space cr3 (m.mem, m.rest) in (r.0, with_pages m r.1);
    alloc_page = λ m. let r = alloc_page m.mem in (r.0, record m { mem = r.1 });
    free_page = λ addr m. record m { mem = free_page m.mem addr };
    load_elf = λ m. let r = others.load_elf m.rest in (r.0, record m { rest = r.1 });
  }

-- From m to n, the pages may have been given back or taken, but the rest is the same.
record Paged {X : Type 0} (m n : Machine X) : Type 0 where
  pub same_hooks : n.hooks ≡ m.hooks
  pub same_base : n.mem.base ≡ m.mem.base
  pub inv : Inv n.mem

record PagedMem {X : Type 0} (m n : Machine X) : Type 0 where
  pub same_base : n.mem.base ≡ m.mem.base
  pub inv : Inv n.mem

-- What the end of a process leaves: p is its entry.
pub record Exited {X : Type 0} (p : ProcInfo) (pid : ℕ) (m n : Machine X) : Type 0 where
  pub inv : Inv n.mem
  pub no_hook :
      (h : ℕ)
      → h < length m.hooks.table
      → ((hook_at n.hooks.table h).active && (hook_at n.hooks.table h).owner_pid == pid) ≡ false
  pub stack_free :
      (page : ℕ)
      → page < max_pages
      → page_addr m.mem page ≢ 0
      → p.kernel_stack ≡ page_addr m.mem page + proc_kstack_size
      → bitmap_test n.mem.bitmap page ≡ false

free_page-Inv : (s : Pmem) (addr : ℕ) → Inv s → Inv (free_page s addr)
unfolding free_page
free_page-Inv s addr inv =
    elim (Bool-cases
      (addr == 0 || (ltb addr s.base || leb max_pages ((addr - s.base) / page_size)))) [
        | inl out ↦ rw (out, free_page) inv
        | inr inside ↦
            rw (inside, free_page)
              (released-Gave s ((addr - s.base) / page_size) inv
                (below ((addr - s.base) / page_size) inside)).inv
      ]
  where
    below : (i : ℕ) → (addr == 0 || (ltb addr s.base || leb max_pages i)) ≡ false → i < max_pages
    below i e = ground arith

-- A hook that was released is not active.
cleanup-no_hook :
    (hooks : Hooks) (pid h : ℕ)
    → hooks.initialized ≡ true
    → pid ≢ 0
    → h < length hooks.table
    → let t = (cleanup_pid hooks pid).table in
      ((hook_at t h).active && (hook_at t h).owner_pid == pid) ≡ false
unfolding cleanup_pid
cleanup-no_hook hooks pid h ready some_pid inside =
    let goes : (not hooks.initialized || pid == 0) ≡ false = ground arith in
    rw (goes, cleanup_pid)
      (subst (λ x. (x.active && x.owner_pid == pid) ≡ false)
        (sym (cleanup_loop_lem pid hooks.table h inside)) (each (hook_at hooks.table h)))
  where
    each :
        (x : Hook)
        → (let y = if x.active && x.owner_pid == pid then released x else x in
            (y.active && y.owner_pid == pid) ≡ false)
    each x = elim (Bool-cases (x.active && x.owner_pid == pid)) [
      | inl own ↦ rw own refl
      | inr other ↦ rw other other
    ]

module _ {X : Type 0} (others : Others X) where
  close_all-Paged :
      (fds : List (Option ℕ)) (m : Machine X)
      → Inv m.mem
      → Paged m (close_all (machine_parts others) fds m)
  unfolding close_all
  close_all-Paged [] m inv = record { same_hooks = refl; same_base = refl; inv = inv }
  close_all-Paged (none ∷ fds) m inv = close_all-Paged fds m inv
  close_all-Paged (some f ∷ fds) m inv =
      let p = close_all-Paged fds (record m { rest = others.close f m.rest }) inv in
      record { same_hooks = p.same_hooks; same_base = p.same_base; inv = p.inv }

  -- The end of an address space leaves the pages counted.
  abbrev pub Destroys : Type 0
  Destroys =
      (cr3 : ℕ) (mem : Pmem) (x : X)
      → Inv mem
      → Inv (others.destroy_space cr3 (mem, x)).0
        × ((others.destroy_space cr3 (mem, x)).0.base ≡ mem.base)

  leave_space-Paged :
      Destroys
      → (p : ProcInfo) (m : Machine X) → Inv m.mem
      → Paged m (leave_space (machine_parts others) p m)
  unfolding leave_space
  leave_space-Paged destroys p m inv =
      elim (Bool-cases (not (p.cr3 == 0) && p.is_user && not (p.cr3 == others.active_cr3 m.rest))) [
        | inl goes ↦
            let (inv', base) = destroys p.cr3 m.mem m.rest inv in
            rw (goes, leave_space) (record { same_hooks = refl; same_base = base; inv = inv' })
        | inr stays ↦
            rw (stays, leave_space) (record { same_hooks = refl; same_base = refl; inv = inv })
      ]

  leave_stack-Exited :
      (p : ProcInfo) (pid : ℕ) (m n : Machine X)
      → PagedMem m n
      → m.mem.base + max_pages * page_size ≤ 2 ^ 64
      → ((h : ℕ)
          → h < length m.hooks.table
          → ((hook_at n.hooks.table h).active && (hook_at n.hooks.table h).owner_pid == pid)
            ≡ false)
      → Exited p pid m (leave_stack (machine_parts others) p n)
  unfolding leave_stack
  leave_stack-Exited p pid m n paged fits hooks = elim (Bool-cases (p.kernel_stack == 0)) [
    | inl no_stack ↦
        rw (no_stack, leave_stack)
          (record {
            inv = paged.inv;
            no_hook = hooks;
            stack_free = λ page inside some_addr at. absurd (nowhere page at no_stack);
          })
    | inr stack ↦
        rw (stack, leave_stack)
          (record {
            inv = free_page-Inv n.mem _ paged.inv;
            no_hook = hooks;
            stack_free = λ page inside some_addr at.
                let addr : (p.kernel_stack + (2 ^ 64 - proc_kstack_size)) % 2 ^ 64
                    ≡ page_addr m.mem page =
                  back page at in
                ap (λ a. bitmap_test (free_page n.mem a).bitmap page) addr
                ∙ ((free_page_lem m.mem n.mem page paged.inv inside paged.same_base fits
                        some_addr).used
                      page
                    ∙ gone page);
          })
  ]
    where
      nowhere :
          (page : ℕ)
          → p.kernel_stack ≡ page_addr m.mem page + proc_kstack_size
          → (p.kernel_stack == 0) ≡ true
          → ⊥
      nowhere page at e = ground arith

      back :
          (page : ℕ)
          → p.kernel_stack ≡ page_addr m.mem page + proc_kstack_size
          → (p.kernel_stack + (2 ^ 64 - proc_kstack_size)) % 2 ^ 64 ≡ page_addr m.mem page
      back page at = omega arith

      gone :
          (page : ℕ)
          → (bitmap_test n.mem.bitmap page && not (leb page page && ltb page (page + 1))) ≡ false
      gone page =
          let e : (leb page page && ltb page (page + 1)) ≡ true = ground arith in ground arith

  -- While pmem_free_pages is the number of the clear bits, also after an address space was
  -- destroyed, the hooks are ready and the addresses of the bitmap's range do not pass 2^64,
  -- brights_proc_exit of an id that is not 0 either finds no process in use with it, and fails
  -- and changes nothing; or makes a zombie with the exit code and without descriptors of one
  -- that has it, changes no other entry, and leaves no active hook that the process owns, and
  -- the page from which its kernel stack was computed free.
  pub exit_lem :
      (s : Procs) (m : Machine X) (pid code : ℕ)
      → pid ≢ 0
      → Inv m.mem
      → Destroys
      → m.hooks.initialized ≡ true
      → m.mem.base + max_pages * page_size ≤ 2 ^ 64
      → let r = exit (machine_parts others) s m pid code in
        ((i : ℕ) × (live (proc_at s.table i) ≡ true)
          × ((proc_at s.table i).pid ≡ pid)
          × (r.0 ≡ pos 0)
          × (proc_at r.1.table i ≡ record (proc_at s.table i) {
            fd_table = replicate max_fds none;
            state = zombie;
            exit_code = code;
          })
          × ((j : ℕ) → i ≢ j → proc_at r.1.table j ≡ proc_at s.table j)
          × Exited (proc_at s.table i) pid m r.2)
        ⊎ (((j : ℕ) → live (proc_at s.table j) ≡ true → (proc_at s.table j).pid ≢ pid)
            × (r ≡ (minus_one, s, m)))
  unfolding exit
  exit_lem s m pid code some_pid inv destroys ready fits =
      let e : (pid == 0) ≡ false = ground arith in
      elim (Option-cases (find_live 0 s.table pid)) [
        | inl missing ↦
            inr (find_live-none 0 s.table pid missing, rw (e, exit) (rw (missing, exit) refl))
        | inr (i, found) ↦
            let (j, at, inside, has, lives) = find_live_lem 0 s.table pid i found in
            let same : j ≡ i = omega arith in
            let p : ProcInfo = proc_at s.table i in
            let parts = machine_parts others in
            let m1 : Machine X = close_all parts p.fd_table m in
            let m2 : Machine X = record m1 { hooks = cleanup_pid m1.hooks pid } in
            let m3 : Machine X = leave_space parts p m2 in
            let one = close_all-Paged p.fd_table m inv in
            let three = leave_space-Paged destroys p m2 one.inv in
            let paged : PagedMem m m3 = record {
              same_base = three.same_base ∙ one.same_base;
              inv = three.inv;
            } in
            let hooks : m3.hooks ≡ cleanup_pid m.hooks pid =
              three.same_hooks ∙ ap (λ h. cleanup_pid h pid) one.same_hooks in
            let r : ℤ × Procs × Machine X =
              (pos 0, set_entry s i (ended parts p code), leave_stack parts p m3) in
            let done : exit parts s m pid code ≡ r = rw (e, exit) (rw (found, exit) refl) in
            inl (
              i,
              subst (λ k. live (proc_at s.table k) ≡ true) same lives,
              subst (λ k. (proc_at s.table k).pid ≡ pid) same has,
              ap (λ x. x.0) done,
              ap (λ x. proc_at x.1.table i) done
                  ∙ get_or-set_self s.table i (ended parts p code) no_proc (omega (arith, inside)),
              λ k h.
                  ap (λ x. proc_at x.1.table k) done
                  ∙ get_or-set_ne s.table i k (ended parts p code) no_proc h,
              subst (λ x. Exited p pid m x.2) (sym done)
                  (leave_stack-Exited p pid m m3 paged fits (λ h hh.
                    subst
                      (λ x.
                        ((hook_at x.table h).active && (hook_at x.table h).owner_pid == pid)
                        ≡ false)
                      (sym hooks) (cleanup-no_hook m.hooks pid h ready some_pid hh))),
            )
      ]
