-- ===== src/Hook/Calls.antt =====
-- kernel/syshook.c: the operations on the table of hooks. What `brights_proc_current` returns is
-- the argument `pid`. What is copied to the caller's memory is part of the result.
use bright_s.Base.{
  ℕ, zero, suc, ◌+◌, ◌%◌, ◌^◌, List, [], ◌∷◌, Option, none, some, Bool, true, false, leb, ltb, ◌==◌,
  ◌||◌, ◌&&◌, not, if◌then◌else◌, set, replicate, length, bit_and,
}
use bright_s.Base.Int.{ℤ, pos, negsuc, minus_one}
use bright_s.Hook.{
  Event, Hook, Hooks, syshook_max, ringbuf_size, flag_pre, flag_post, flag_broadcast,
  evt_pre_syscall, evt_broadcast, entry, released, ringbuf_push, ringbuf_pop, hook_watches_syscall,
}

-- The loop over the table that pushes an event into the hooks that want it.
unfoldable pub deliver : (Hook → Bool) → Event → List Hook → List Hook
deliver wanted evt [] = []
deliver wanted evt (h ∷ hs) = (if wanted h then ringbuf_push h evt else h) ∷ deliver wanted evt hs

-- `syshook_total_events_dispatched++` for each of them.
unfoldable pub dispatched : (Hook → Bool) → List Hook → ℕ → ℕ
dispatched wanted [] n = n
dispatched wanted (h ∷ hs) n = dispatched wanted hs (if wanted h then (n + 1) % 2 ^ 64 else n)

abbrev pub phase_flag : ℕ → ℕ
phase_flag phase = if phase == evt_pre_syscall then flag_pre else flag_post

abbrev pub wants_syscall : ℕ → ℕ → Hook → Bool
wants_syscall phase num h = h.active && hook_watches_syscall h num (phase_flag phase)

abbrev pub syscall_event : ℕ → ℕ → List ℕ → ℤ → ℕ → ℕ → Event
syscall_event phase num args ret pid tsc = record {
  event_type = phase;
  syscall_nr = num;
  args = args;
  ret = ret;
  caller_pid = pid;
  timestamp = tsc;
  custom = replicate 2 0;
}

-- `brights_syshook_notify`.
unfoldable pub notify : Hooks → ℕ → ℕ → List ℕ → ℤ → ℕ → ℕ → Hooks
notify s phase num args ret pid tsc = if not s.initialized then s else record s {
  table = deliver (wants_syscall phase num) (syscall_event phase num args ret pid tsc) s.table;
  events_dispatched = dispatched (wants_syscall phase num) s.table s.events_dispatched;
}

abbrev pub wants_broadcast : Hook → Bool
wants_broadcast h = h.active && not (bit_and h.flags flag_broadcast == 0)

abbrev pub broadcast_event : ℕ → ℕ → ℕ → Event
broadcast_event sender_pid custom_a custom_b = record {
  event_type = evt_broadcast;
  syscall_nr = 0;
  args = replicate 6 0;
  ret = pos 0;
  caller_pid = sender_pid;
  timestamp = 0;
  custom = custom_a ∷ custom_b ∷ [];
}

-- `brights_syshook_broadcast`; `brights_sys_broadcast` is this with the current process.
unfoldable pub broadcast : Hooks → ℕ → ℕ → ℕ → Hooks
broadcast s sender_pid custom_a custom_b = if not s.initialized then s else record s {
  table = deliver wants_broadcast (broadcast_event sender_pid custom_a custom_b) s.table;
}

-- The search for a free slot, from entry i on.
unfoldable pub find_inactive : ℕ → List Hook → Option ℕ
find_inactive i [] = none
find_inactive i (h ∷ hs) =
    let rest = find_inactive (i + 1) hs in if not h.active then some i else rest

abbrev pub registered : ℕ → ℕ → ℕ → ℕ → Hook → Hook
registered pid watch_lo watch_hi flags h = record h {
  active = true;
  owner_pid = pid;
  watch_lo = watch_lo;
  watch_hi = watch_hi;
  flags = bit_and flags 7;
  rd = 0;
  wr = 0;
  count = 0;
  total_events = 0;
  dropped_events = 0;
}

-- `brights_sys_hook_register`.
unfoldable pub register : Hooks → ℕ → ℕ → ℕ → ℕ → ℤ × Hooks
register s pid watch_lo watch_hi flags =
    if not s.initialized then (minus_one, s) else elim (find_inactive 0 s.table) [
      | none ↦ (minus_one, s)
      | some slot ↦ (
        pos slot,
        record s {
          table = set s.table slot (registered pid watch_lo watch_hi flags (entry s slot));
          hooks_created = (s.hooks_created + 1) % 2 ^ 64;
        },
      )
    ]

-- The checks that `unregister`, `poll` and `wait` share.
unfoldable pub owns : Hooks → ℕ → ℕ → Bool
owns s pid hook_id =
    s.initialized
    && not (leb syshook_max hook_id)
    && (entry s hook_id).active
    && (entry s hook_id).owner_pid == pid

-- `brights_sys_hook_unregister`.
unfoldable pub unregister : Hooks → ℕ → ℕ → ℤ × Hooks
unregister s pid hook_id =
    if owns s pid hook_id
    then (pos 0, record s { table = set s.table hook_id (released (entry s hook_id)) })
    else (minus_one, s)

-- `brights_sys_hook_poll`: the result, the events stored at `event_buf_va`, and the table.
unfoldable pub poll : Hooks → ℕ → ℕ → ℕ → ℕ → ℤ × List Event × Hooks
poll s pid hook_id event_buf_va max_events =
    if event_buf_va == 0 || max_events == 0 || not (owns s pid hook_id)
    then (minus_one, [], s)
    else let n = if ltb ringbuf_size max_events then ringbuf_size else max_events in
      let (events, h) = ringbuf_pop n (entry s hook_id) in
      (pos (length events), events, record s { table = set s.table hook_id h })

-- The loop of `brights_sys_hook_wait`: whether it stops for an event or for the timeout, and the
-- table then. `others` is what the rest of the system does to the table during a sleep of 10
-- milliseconds; without a timeout the loop may not end, so it has fuel, and `none` for none left.
unfoldable pub wait_loop : (ℕ → Hooks → Hooks) → ℕ → ℕ → ℕ → ℕ → Hooks → Option (Bool × Hooks)
wait_loop others zero hook_id timeout_ms elapsed s = none
wait_loop others (suc fuel) hook_id timeout_ms elapsed s =
    let rest =
      wait_loop others fuel hook_id timeout_ms ((elapsed + 10) % 2 ^ 64) (others elapsed s) in
    if not ((entry s hook_id).count == 0)
    then some (true, s)
    else if ltb 0 timeout_ms && leb timeout_ms elapsed
    then some (false, s)
    else rest

-- `brights_sys_hook_wait`.
unfoldable pub wait :
    (ℕ → Hooks → Hooks) → ℕ → Hooks → ℕ → ℕ → ℕ → ℕ → Option (ℤ × List Event × Hooks)
wait others fuel s pid hook_id event_buf_va timeout_ms =
    if event_buf_va == 0 || not (owns s pid hook_id)
    then some (minus_one, [], s)
    else elim (wait_loop others fuel hook_id timeout_ms 0 s) [
      | none ↦ none
      | some (found, t) ↦
          if not found
          then some (pos 0, [], t)
          else let (events, h) = ringbuf_pop 1 (entry t hook_id) in
            some (pos (length events), events, record t { table = set t.table hook_id h })
    ]

-- `brights_hook_info_t`.
pub record HookInfo : Type 0 where
  pub hook_id : ℕ
  pub owner_pid : ℕ
  pub flags : ℕ
  pub event_count : ℕ
  pub total_events : ℕ
  pub dropped_events : ℕ

-- `brights_sys_hook_info`: what it stores at `info_buf_va`, or `none` for -1.
unfoldable pub info : Hooks → ℕ → ℕ → Option HookInfo
info s hook_id info_buf_va =
    if not s.initialized
      || leb syshook_max hook_id
      || info_buf_va == 0
      || not (entry s hook_id).active
    then none
    else some (record {
      hook_id = hook_id;
      owner_pid = (entry s hook_id).owner_pid;
      flags = (entry s hook_id).flags;
      event_count = (entry s hook_id).count;
      total_events = (entry s hook_id).total_events;
      dropped_events = (entry s hook_id).dropped_events;
    })

unfoldable pub cleanup_loop : ℕ → List Hook → List Hook
cleanup_loop pid [] = []
cleanup_loop pid (h ∷ hs) =
    (if h.active && h.owner_pid == pid then released h else h) ∷ cleanup_loop pid hs

-- `brights_syshook_cleanup_pid`.
unfoldable pub cleanup_pid : Hooks → ℕ → Hooks
cleanup_pid s pid =
    if not s.initialized || pid == 0 then s else record s { table = cleanup_loop pid s.table }

unfoldable pub active_loop : List Hook → ℕ → ℕ
active_loop [] n = n
active_loop (h ∷ hs) n = active_loop hs (if h.active then n + 1 else n)

-- `brights_syshook_active_count`.
unfoldable pub active_count : Hooks → ℕ
active_count s = if not s.initialized then 0 else active_loop s.table 0

-- `brights_syshook_total_created` and `brights_syshook_total_events`.
unfoldable pub total_created : Hooks → ℕ
total_created s = s.hooks_created

unfoldable pub total_events_dispatched : Hooks → ℕ
total_events_dispatched s = s.events_dispatched

-- `brights_syshook_get_entry` with room for a result: the index of the entry.
unfoldable pub get_entry : Hooks → ℤ → Option ℕ
get_entry s (negsuc n) = none
get_entry s (pos slot) = if not s.initialized || leb syshook_max slot then none else some slot
