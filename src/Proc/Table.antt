-- ===== src/Proc/Table.antt =====
-- kernel/proc.c: the table of processes and the calls that only use it.
use bright_s.Base.{
  ℕ, ◌+◌, ◌-◌, ◌%◌, ◌^◌, List, [], ◌∷◌, map, Option, none, some, Bool, true, false, not, ◌&&◌, ◌||◌,
  ◌==◌, ltb, leb, if◌then◌else◌, get_or, set, take, replicate,
}
use bright_s.Base.Int.{ℤ, pos, negsuc, minus_one}
use bright_s.Word.{complement, set_bit, lowest}
use bright_s.Fs.Text.{slash}
use bright_s.Fs.Vfs.Files.{max_fds}
use bright_s.Proc.{
  ProcInfo, ProcState, unused, runnable, running, sleeping, zombie, proc_at, is_unused,
}

-- `BRIGHTS_PROC_MAX`, the length of `pid_to_index`, `BRIGHTS_PROC_NAME_LEN`,
-- `BRIGHTS_PROC_CWD_LEN` and `BRIGHTS_PROC_KSTACK_SIZE`.
abbrev pub proc_max : ℕ
proc_max = 64

abbrev pub pid_range : ℕ
pid_range = 256

abbrev pub proc_name_len : ℕ
proc_name_len = 32

abbrev pub proc_cwd_len : ℕ
proc_cwd_len = 128

abbrev pub proc_kstack_size : ℕ
proc_kstack_size = 8192

-- The static variables.
pub record Procs : Type 0 where
  pub table : List ProcInfo
  pub pid_to_index : List ℕ
  pub free_slots_bitmap : ℕ
  pub next_pid : ℕ
  pub current_pid : ℕ

-- `proc_str_copy` of a string, or of a null pointer, into an array of `cap` bytes.
abbrev pub proc_str_copy : ℕ → List ℕ → List ℕ
proc_str_copy cap src = take (cap - 1) src

abbrev pub same_state : ProcState → ProcState → Bool
same_state unused unused = true
same_state runnable runnable = true
same_state running running = true
same_state sleeping sleeping = true
same_state zombie zombie = true
same_state _ _ = false

-- `proc_get_by_pid`: an index.
unfoldable pub get_by_pid : Procs → ℕ → Option ℕ
get_by_pid s pid =
    let idx : ℕ = get_or s.pid_to_index pid 0 in
    if pid == 0 || leb pid_range pid
    then none
    else if leb proc_max idx
    then none
    else if not ((proc_at s.table idx).pid == pid) || is_unused (proc_at s.table idx).state
    then none
    else some idx

-- `proc_get_current`.
abbrev pub get_current : Procs → Option ℕ
get_current s = get_by_pid s s.current_pid

-- `proc_find_free_slot`.
unfoldable pub find_free_slot : Procs → Option ℕ
find_free_slot s =
    let bitmap : ℕ = complement 64 s.free_slots_bitmap in
    if bitmap == 0 then none else some (lowest 64 bitmap)

-- What `brights_proc_init` makes of an entry; its registers are left.
abbrev pub cleared : ProcInfo → ProcInfo
cleared p = record p {
  pid = 0;
  ppid = 0;
  state = unused;
  name = [];
  exit_code = 0;
  fd_table = replicate max_fds none;
  cwd = slash ∷ [];
  is_user = false;
  cr3 = 0;
  user_entry = 0;
  user_stack_top = 0;
  brk = 0;
  brk_start = 0;
  kernel_stack = 0;
}

-- `brights_proc_init`, of a table of 64 entries.
unfoldable pub init : Procs → Procs
init s = record {
  table = map cleared s.table;
  pid_to_index = replicate pid_range proc_max;
  free_slots_bitmap = 0;
  next_pid = 1;
  current_pid = 0;
}

-- The directory that a new process starts in.
unfoldable pub inherited_cwd : Procs → List ℕ
inherited_cwd s = elim (get_current s) [
  | none ↦ slash ∷ []
  | some parent ↦ proc_str_copy proc_cwd_len (proc_at s.table parent).cwd
]

abbrev pub set_entry : Procs → ℕ → ProcInfo → Procs
set_entry s i p = record s { table = set s.table i p }

-- The string "kernel".
abbrev pub kernel_name : List ℕ
kernel_name = 0x6b ∷ 0x65 ∷ 0x72 ∷ 0x6e ∷ 0x65 ∷ 0x6c ∷ []

abbrev pub name_or : Option (List ℕ) → List ℕ → List ℕ
name_or none default = proc_str_copy proc_name_len default
name_or (some name) default = proc_str_copy proc_name_len name

-- The entry that `brights_proc_spawn_kernel` writes before it looks for the parent.
abbrev pub kernel_entry : Procs → ProcInfo → Option (List ℕ) → ProcInfo
kernel_entry s p name = record p {
  pid = s.next_pid;
  ppid = s.current_pid;
  state = runnable;
  exit_code = 0;
  is_user = false;
  cr3 = 0;
  user_entry = 0;
  user_stack_top = 0;
  brk = 0;
  brk_start = 0;
  kernel_stack = 0;
  name = name_or name kernel_name;
  fd_table = replicate max_fds none;
}

-- `next_pid++` on 32 bits.
abbrev pub next_pid_after : Procs → Procs
next_pid_after s = record s { next_pid = (s.next_pid + 1) % 2 ^ 32 }

-- `pid_to_index[pid] = slot`. The array has 256 places and the code does not test the id: what a
-- write behind the array does to the tables is the parameter `stray`.
unfoldable pub store_index : (ℕ → ℕ → Procs → Procs) → ℕ → ℕ → Procs → Procs
store_index stray pid slot s =
    if ltb pid pid_range
    then record s { pid_to_index = set s.pid_to_index pid slot }
    else stray pid slot s

unfoldable pub spawned_kernel : (ℕ → ℕ → Procs → Procs) → Procs → ℕ → Option (List ℕ) → Procs
spawned_kernel stray s slot name =
    let t : Procs =
      set_entry (next_pid_after s) slot (kernel_entry s (proc_at s.table slot) name) in
    let u : Procs = set_entry t slot (record (proc_at t.table slot) { cwd = inherited_cwd t }) in
    let v : Procs = store_index stray s.next_pid slot u in
    record v { free_slots_bitmap = set_bit v.free_slots_bitmap slot }

-- `(int)pid` of a 32-bit pid.
abbrev pub int_of : ℕ → ℤ
int_of pid = if ltb pid (2 ^ 31) then pos pid else negsuc (2 ^ 32 - 1 - pid)

-- `brights_proc_spawn_kernel`.
unfoldable pub spawn_kernel : (ℕ → ℕ → Procs → Procs) → Procs → Option (List ℕ) → ℤ × Procs
spawn_kernel stray s name = elim (find_free_slot s) [
  | none ↦ (minus_one, s)
  | some slot ↦ let t = spawned_kernel stray s slot name in (int_of (proc_at t.table slot).pid, t)
]

-- `brights_proc_set_state`.
unfoldable pub set_state : Procs → ℕ → ProcState → ℤ × Procs
set_state s pid state = elim (get_by_pid s pid) [
  | none ↦ (minus_one, s)
  | some i ↦ (pos 0, set_entry s i (record (proc_at s.table i) { state = state }))
]

-- `brights_proc_count` and `brights_proc_total`.
unfoldable pub count : List ProcInfo → ProcState → ℕ
count [] state = 0
count (p ∷ table) state = (if same_state p.state state then 1 else 0) + count table state

unfoldable pub total : List ProcInfo → ℕ
total [] = 0
total (p ∷ table) = (if is_unused p.state then 0 else 1) + total table

-- `brights_proc_info_at` with a buffer: the entry is stored even when it is not in use.
unfoldable pub info_at : Procs → ℕ → ℤ × Option ProcInfo
info_at s index = if leb proc_max index then (minus_one, none) else (
  if is_unused (proc_at s.table index).state then minus_one else pos 0,
  some (proc_at s.table index),
)

-- The search that the other calls make, from entry k on: the first entry in use with the id.
unfoldable pub find_live : ℕ → List ProcInfo → ℕ → Option ℕ
find_live k [] pid = none
find_live k (p ∷ table) pid =
    let rest = find_live (k + 1) table pid in
    if p.pid == pid && not (is_unused p.state) then some k else rest

-- `brights_proc_get_by_pid` with a buffer.
unfoldable pub info_by_pid : Procs → ℕ → Option ProcInfo
info_by_pid s pid =
    if pid == 0
    then none
    else elim (find_live 0 s.table pid) [ none ↦ none | some i ↦ some (proc_at s.table i) ]

-- `brights_proc_set_current`; `brights_proc_current` reads the field.
abbrev pub set_current : Procs → ℕ → Procs
set_current s pid = record s { current_pid = pid }

-- `brights_proc_fd_table`, `brights_proc_get_cwd`, `brights_proc_set_cwd` of a path and
-- `brights_proc_kernel_stack`.
unfoldable pub fd_table_of : Procs → Option (List (Option ℕ))
fd_table_of s = elim (get_current s) [ none ↦ none | some i ↦ some (proc_at s.table i).fd_table ]

unfoldable pub get_cwd : Procs → List ℕ
get_cwd s = elim (get_current s) [ none ↦ slash ∷ [] | some i ↦ (proc_at s.table i).cwd ]

unfoldable pub set_cwd : Procs → List ℕ → ℤ × Procs
set_cwd s path = elim (get_current s) [
  | none ↦ (minus_one, s)
  | some i ↦
      (pos 0, set_entry s i (record (proc_at s.table i) { cwd = proc_str_copy proc_cwd_len path }))
]

unfoldable pub kernel_stack_of : Procs → ℕ
kernel_stack_of s = elim (get_current s) [ none ↦ 0 | some i ↦ (proc_at s.table i).kernel_stack ]

-- `brights_proc_get_cr3`, `brights_proc_get_brk` and `brights_proc_set_brk`.
unfoldable pub get_cr3 : Procs → ℕ → ℕ
get_cr3 s pid = elim (find_live 0 s.table pid) [ none ↦ 0 | some i ↦ (proc_at s.table i).cr3 ]

unfoldable pub get_brk : Procs → ℕ → ℕ
get_brk s pid = elim (find_live 0 s.table pid) [ none ↦ 0 | some i ↦ (proc_at s.table i).brk ]

unfoldable pub set_brk : Procs → ℕ → ℕ → ℤ × Procs
set_brk s pid new_brk = elim (find_live 0 s.table pid) [
  | none ↦ (minus_one, s)
  | some i ↦ (
    pos 0,
    set_entry s i (record (proc_at s.table i) {
      brk_start =
          if (proc_at s.table i).brk_start == 0 then new_brk else (proc_at s.table i).brk_start;
      brk = new_brk;
    }),
  )
]
