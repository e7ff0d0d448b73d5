-- ===== src/Signal.antt =====
-- kernel/signal.c and kernel/signal.h: pending and blocked signal masks, handlers and actions.
-- A function takes the state behind its pointer, `none` for a null one, and returns it changed.
-- A `sighandler_t` is its 64-bit value, and a mask a 32-bit word.
pub mod Masks
pub mod Invariant
pub mod Refine
mod Tests
use bright_s.Base.{
  ℕ, ◌-◌, ◌^◌, List, Option, none, some, Bool, true, false, leb, ◌==◌, ◌||◌, not, bit_and, bit_or,
  if◌then◌else◌, get_or, set, replicate,
}
use bright_s.Base.Int.{ℤ, pos, minus_one}
use bright_s.Word.{complement, has_bit, set_bit, clear_bit}

-- `BRIGHTS_SIGNAL_MAX`, and `SIG_DFL`, `SIG_IGN` and `SIG_ERR`.
abbrev pub signal_max : ℕ
signal_max = 32

abbrev pub sig_dfl : ℕ
sig_dfl = 0

abbrev pub sig_ign : ℕ
sig_ign = 1

abbrev pub sig_err : ℕ
sig_err = 2 ^ 64 - 1

-- The signal numbers that the code tests for.
abbrev pub sigkill : ℕ
sigkill = 9

abbrev pub sigchld : ℕ
sigchld = 17

abbrev pub sigstop : ℕ
sigstop = 19

abbrev pub sigurg : ℕ
sigurg = 23

abbrev pub sigwinch : ℕ
sigwinch = 28

-- `brights_sigaction_t`.
pub record SigAction : Type 0 where
  pub sa_handler : ℕ
  pub sa_flags : ℕ
  pub sa_restorer : ℕ
  pub sa_mask : ℕ

-- `brights_signal_state_t`.
pub record SignalState : Type 0 where
  pub pending : ℕ
  pub blocked : ℕ
  pub handlers : List ℕ
  pub sigactions : List SigAction

abbrev pub default_action : SigAction
default_action = record { sa_handler = sig_dfl; sa_flags = 0; sa_restorer = 0; sa_mask = 0 }

-- `brights_signal_proc_init` sets every field, so nothing of the old state is left;
-- `brights_signal_init` is this on the global state.
pub proc_init : Option SignalState → Option SignalState
proc_init none = none
proc_init (some s) = some (record {
  pending = 0;
  blocked = 0;
  handlers = replicate signal_max sig_dfl;
  sigactions = replicate signal_max default_action;
})

-- `signo == 0 || signo >= BRIGHTS_SIGNAL_MAX`.
abbrev pub out_of_range : ℕ → Bool
out_of_range signo = signo == 0 || leb signal_max signo

-- `signo == SIGKILL || signo == SIGSTOP`.
abbrev pub uncatchable : ℕ → Bool
uncatchable signo = signo == sigkill || signo == sigstop

-- `brights_signal_raise_proc`; `brights_signal_raise` is this on the global state.
pub raise_proc : Option SignalState → ℕ → ℤ × Option SignalState
raise_proc none signo = (minus_one, none)
raise_proc (some s) signo =
    if out_of_range signo
    then (minus_one, some s)
    else if uncatchable signo
    then (minus_one, some s)
    else (pos 0, some (record s { pending = set_bit s.pending signo }))

-- `brights_signal_pending_proc`; `brights_signal_pending` is this on the global state.
pub pending_proc : Option SignalState → ℕ
pending_proc none = 0
pending_proc (some s) = bit_and s.pending (complement 32 s.blocked)

-- `brights_signal_consume`.
pub consume : Option SignalState → ℕ → ℤ × Option SignalState
consume none signo = (minus_one, none)
consume (some s) signo =
    if out_of_range signo
    then (minus_one, some s)
    else if not (has_bit s.pending signo)
    then (minus_one, some s)
    else (pos 0, some (record s { pending = clear_bit 32 s.pending signo }))

-- `brights_signal_clear`.
pub clear : Option SignalState → Option SignalState
clear none = none
clear (some s) = some (record s { pending = 0 })

-- `brights_signal_block` and `brights_signal_unblock`.
pub block : Option SignalState → ℕ → Option SignalState
block none mask = none
block (some s) mask = some (record s { blocked = bit_or s.blocked mask })

pub unblock : Option SignalState → ℕ → Option SignalState
unblock none mask = none
unblock (some s) mask = some (record s { blocked = bit_and s.blocked (complement 32 mask) })

-- `brights_signal_sethandler`: the old handler, and the state.
pub set_handler : Option SignalState → ℕ → ℕ → ℕ × Option SignalState
set_handler none signo handler = (sig_err, none)
set_handler (some s) signo handler =
    if out_of_range signo
    then (sig_err, some s)
    else if uncatchable signo
    then (sig_err, some s)
    else (
      get_or s.handlers signo sig_dfl,
      some (record s {
        handlers = set s.handlers signo handler;
        sigactions =
            set s.sigactions signo
              (record (get_or s.sigactions signo default_action) { sa_handler = handler });
      }),
    )

-- What `brights_signal_sigaction` does with `act`, which may be null.
abbrev install : SignalState → ℕ → Option SigAction → SignalState
install s signo none = s
install s signo (some act) = record s {
  sigactions = set s.sigactions signo act;
  handlers = set s.handlers signo act.sa_handler;
}

-- `brights_signal_sigaction` on the global state: the result, what is written through `oldact`
-- if it is not null (`wants_old`), and the state. `act` and `oldact` do not overlap.
pub sigaction : SignalState → ℕ → Option SigAction → Bool → ℤ × Option SigAction × SignalState
sigaction s signo act wants_old =
    if out_of_range signo
    then (minus_one, none, s)
    else if uncatchable signo
    then (minus_one, none, s)
    else (
      pos 0,
      if wants_old then some (get_or s.sigactions signo default_action) else none,
      install s signo act,
    )

-- The `switch` of `brights_signal_deliver`: the signals that are ignored by default. All other
-- cases of it return -1.
abbrev pub ignored_by_default : ℕ → Bool
ignored_by_default signo = signo == sigchld || signo == sigurg || signo == sigwinch

-- `brights_signal_deliver`.
pub deliver : Option SignalState → ℕ → ℤ × Option SignalState
deliver none signo = (minus_one, none)
deliver (some s) signo =
    let handler = get_or s.handlers signo sig_dfl in
    if out_of_range signo
    then (minus_one, some s)
    else if handler == sig_dfl
    then (if ignored_by_default signo then pos 0 else minus_one, some s)
    else if handler == sig_ign
    then (pos 0, (consume (some s) signo).1)
    else (pos 0, some s)
