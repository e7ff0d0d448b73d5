-- ===== src/Hook.antt =====
-- kernel/syshook.c and kernel/syshook.h: processes watch system calls through hooks, each with a
-- ring of 64 events that drops its oldest event when it is full. The functions take the table
-- `hook_table` with the other static variables, and return it where they change it.
pub mod Calls
pub mod Ring
pub mod Delivery
pub mod Table
pub mod Steps
pub mod Isolation
pub mod Wait
mod Tests
use bright_s.Base.{
  ℕ, zero, suc, ◌+◌, ◌-◌, ◌%◌, ◌^◌, List, [], ◌∷◌, Bool, true, false, leb, ltb, ◌==◌, ◌&&◌, not,
  if◌then◌else◌, get_or, set, replicate, bit_and,
}
use bright_s.Base.Int.{ℤ, pos}
use bright_s.Word.{has_bit}

-- `SYSHOOK_MAX` and `SYSHOOK_RINGBUF_SIZE`.
abbrev pub syshook_max : ℕ
syshook_max = 32

abbrev pub ringbuf_size : ℕ
ringbuf_size = 64

-- `HOOK_FLAG_PRE`, `HOOK_FLAG_POST` and `HOOK_FLAG_BROADCAST`.
abbrev pub flag_pre : ℕ
flag_pre = 1

abbrev pub flag_post : ℕ
flag_post = 2

abbrev pub flag_broadcast : ℕ
flag_broadcast = 4

-- `HOOK_EVT_PRE_SYSCALL`, `HOOK_EVT_POST_SYSCALL` and `HOOK_EVT_BROADCAST`.
abbrev pub evt_pre_syscall : ℕ
evt_pre_syscall = 0

abbrev pub evt_post_syscall : ℕ
evt_post_syscall = 1

abbrev pub evt_broadcast : ℕ
evt_broadcast = 2

-- `brights_hook_event_t`; `args` has 6 entries and `custom` 2, and `pad0`, always 0, is left out.
pub record Event : Type 0 where
  pub event_type : ℕ
  pub syscall_nr : ℕ
  pub args : List ℕ
  pub ret : ℤ
  pub caller_pid : ℕ
  pub timestamp : ℕ
  pub custom : List ℕ

-- `brights_hook_entry_t`; the two words of `watch_mask` are `watch_lo` and `watch_hi`.
pub record Hook : Type 0 where
  pub active : Bool
  pub owner_pid : ℕ
  pub watch_lo : ℕ
  pub watch_hi : ℕ
  pub flags : ℕ
  pub ringbuf : List Event
  pub rd : ℕ
  pub wr : ℕ
  pub count : ℕ
  pub total_events : ℕ
  pub dropped_events : ℕ

-- The static variables.
pub record Hooks : Type 0 where
  pub table : List Hook
  pub initialized : Bool
  pub hooks_created : ℕ
  pub events_dispatched : ℕ

unfoldable pub no_event : Event
no_event = record {
  event_type = 0;
  syscall_nr = 0;
  args = replicate 6 0;
  ret = pos 0;
  caller_pid = 0;
  timestamp = 0;
  custom = replicate 2 0;
}

-- An entry of zeroed static storage.
unfoldable pub zeroed : Hook
zeroed = record {
  active = false;
  owner_pid = 0;
  watch_lo = 0;
  watch_hi = 0;
  flags = 0;
  ringbuf = replicate ringbuf_size no_event;
  rd = 0;
  wr = 0;
  count = 0;
  total_events = 0;
  dropped_events = 0;
}

-- The static variables before `brights_syshook_init`.
unfoldable pub boot : Hooks
boot = record {
  table = replicate syshook_max zeroed;
  initialized = false;
  hooks_created = 0;
  events_dispatched = 0;
}

abbrev pub entry : Hooks → ℕ → Hook
entry s i = get_or s.table i zeroed

-- What `brights_sys_hook_unregister` and `brights_syshook_cleanup_pid` make of an entry.
abbrev pub released : Hook → Hook
released h = record h {
  active = false;
  owner_pid = 0;
  watch_lo = 0;
  watch_hi = 0;
  flags = 0;
  rd = 0;
  wr = 0;
  count = 0;
}

unfoldable pub init_table : List Hook → List Hook
init_table [] = []
init_table (h ∷ hs) = record (released h) { total_events = 0; dropped_events = 0 } ∷ init_table hs

-- `brights_syshook_init`.
unfoldable pub init : Hooks → Hooks
init s = record s { table = init_table s.table; initialized = true }

-- `ringbuf_push`, whose result is always 0.
unfoldable pub ringbuf_push : Hook → Event → Hook
ringbuf_push h evt =
    let full = leb ringbuf_size h.count in
    record h {
      rd = if full then (h.rd + 1) % 2 ^ 32 % ringbuf_size else h.rd;
      dropped_events = if full then (h.dropped_events + 1) % 2 ^ 64 else h.dropped_events;
      count = if full then h.count else (h.count + 1) % 2 ^ 32;
      ringbuf = set h.ringbuf h.wr evt;
      wr = (h.wr + 1) % 2 ^ 32 % ringbuf_size;
      total_events = (h.total_events + 1) % 2 ^ 64;
    }

-- What a round of `ringbuf_pop` does with the hook.
abbrev pub drop_event : Hook → Hook
drop_event h = record h { rd = (h.rd + 1) % 2 ^ 32 % ringbuf_size; count = h.count - 1 }

-- `ringbuf_pop` with n rounds left: the events that it stores, in order, and the hook.
unfoldable pub ringbuf_pop : ℕ → Hook → List Event × Hook
ringbuf_pop zero h = ([], h)
ringbuf_pop (suc n) h =
    let (out, rest) = ringbuf_pop n (drop_event h) in
    if ltb 0 h.count then (get_or h.ringbuf h.rd no_event ∷ out, rest) else ([], h)

-- `hook_watches_syscall`.
unfoldable pub hook_watches_syscall : Hook → ℕ → ℕ → Bool
hook_watches_syscall h nr phase_flag =
    if bit_and h.flags phase_flag == 0
    then false
    else if ltb nr 64
    then has_bit h.watch_lo nr
    else if ltb nr 128
    then has_bit h.watch_hi (nr - 64)
    else false
