-- ===== src/Signal/Refine.antt =====
-- kernel/signal.c: histories of calls against sets of signals.
use bright_s.Base.{
  ℕ, ◌<◌, ◌^◌, ◌≡◌, ◌∙◌, some, none, Option, List, [], ◌∷◌, Bool, true, false, ◌||◌, ◌&&◌, not,
  ◌==◌, if◌then◌else◌, arith, get_or,
}
use bright_s.Base.Members.{get_or-set}
use bright_s.Word.{
  has_bit, has_bit-set_bit, has_bit-clear_bit, has_bit-eq-bit, bit-zero, bit_and-lt, bit_or-lt,
  complement,
}
use bright_s.Signal.{
  SignalState, SigAction, signal_max, sig_dfl, sig_ign, out_of_range, uncatchable, default_action,
  raise_proc, consume, clear, block, unblock, set_handler, sigaction, deliver,
}
use bright_s.Signal.Masks.{has_bit-bit_or, has_bit-mask_off}
use bright_s.Signal.Invariant.{
  IsValid, OkState, raise_proc-IsValid, consume-IsValid, fewer_pending-IsValid, blocked-IsValid,
  install-IsValid, deliver-IsValid,
}

-- The calls that change a state. `acts` is `brights_signal_sigaction` with a possibly null `act`.
pub data Call : Type 0 where
  raises consumes : ℕ → Call
  clears : Call
  blocks unblocks : ℕ → Call
  sets : ℕ → ℕ → Call
  acts : ℕ → Option SigAction → Call
  delivers : ℕ → Call

abbrev from_some : SignalState → Option SignalState → SignalState
from_some s none = s
from_some s (some t) = t

unfoldable pub step : SignalState → Call → SignalState
step s (raises k) = from_some s (raise_proc (some s) k).1
step s (consumes k) = from_some s (consume (some s) k).1
step s clears = from_some s (clear (some s))
step s (blocks m) = from_some s (block (some s) m)
step s (unblocks m) = from_some s (unblock (some s) m)
step s (sets k h) = from_some s (set_handler (some s) k h).1
step s (acts k act) = (sigaction s k act true).2
step s (delivers k) = from_some s (deliver (some s) k).1

-- Masks are 32-bit words.
abbrev pub IsCall : Call → Type 0
IsCall (blocks m) = m < 2 ^ 32
IsCall (unblocks m) = m < 2 ^ 32
IsCall _ = Unit {0}

-- The abstract state: which signals are pending, which are blocked, and each signal's handler.
pub record View : Type 0 where
  pub pending : ℕ → Bool
  pub blocked : ℕ → Bool
  pub handler : ℕ → ℕ

abbrev catchable : ℕ → Bool
catchable k = not (out_of_range k) && not (uncatchable k)

with_handler : View → ℕ → ℕ → View
with_handler v k h = record v { handler = λ i. if k == i && catchable k then h else v.handler i }

-- What the calls mean for sets: raising adds a signal that can be caught, consuming removes one,
-- delivering removes one whose handler is `SIG_IGN`, and so on.
unfoldable pub meaning : View → Call → View
unfolding with_handler
meaning v (raises k) = record v { pending = λ i. v.pending i || (k == i && catchable k) }
meaning v (consumes k) = record v { pending = λ i. v.pending i && not (k == i) }
meaning v clears = record v { pending = λ i. false }
meaning v (blocks m) = record v { blocked = λ i. v.blocked i || has_bit m i }
meaning v (unblocks m) = record v { blocked = λ i. v.blocked i && not (has_bit m i) }
meaning v (sets k h) = with_handler v k h
meaning v (acts k none) = v
meaning v (acts k (some act)) = with_handler v k act.sa_handler
meaning v (delivers k) = record v {
  pending = λ i. v.pending i && not (k == i && not (out_of_range k) && v.handler k == sig_ign);
}

-- The state shows the abstract state, signal by signal.
pub record Shows (s : SignalState) (v : View) : Type 0 where
  pub pending : (i : ℕ) → i < signal_max → has_bit s.pending i ≡ v.pending i
  pub blocked : (i : ℕ) → i < signal_max → has_bit s.blocked i ≡ v.blocked i
  pub handler : (i : ℕ) → i < signal_max → get_or s.handlers i sig_dfl ≡ v.handler i

from_some-IsValid :
    (s : SignalState) (o : Option SignalState) → IsValid s → OkState o → IsValid (from_some s o)
from_some-IsValid s none v ok = v
from_some-IsValid s (some t) v ok = ok

pub step-IsValid : (s : SignalState) (c : Call) → IsCall c → IsValid s → IsValid (step s c)
unfolding step clear block unblock set_handler sigaction
step-IsValid s (raises k) ok v = from_some-IsValid s _ v (raise_proc-IsValid s k v)
step-IsValid s (consumes k) ok v = from_some-IsValid s _ v (consume-IsValid s k v)
step-IsValid s clears ok v =
    fewer_pending-IsValid s 0 v (omega arith) (λ i e. has_bit-eq-bit 0 i ∙ bit-zero i)
step-IsValid s (blocks m) ok v = blocked-IsValid s _ v (bit_or-lt 32 s.blocked m v.blocked_word ok)
step-IsValid s (unblocks m) ok v =
    blocked-IsValid s _ v (bit_and-lt 32 s.blocked (complement 32 m) v.blocked_word (omega arith))
step-IsValid s (sets k h) ok v = ground (
  arith,
  install-IsValid s k (record (get_or s.sigactions k default_action) { sa_handler = h }) v,
)
step-IsValid s (acts k none) ok v = ground arith
step-IsValid s (acts k (some act)) ok v = ground (arith, install-IsValid s k act v)
step-IsValid s (delivers k) ok v = from_some-IsValid s _ v (deliver-IsValid s k v)

-- Each call means for the sets what `meaning` says.
pub step-Shows :
    (s : SignalState) (v : View) (c : Call)
    → IsCall c
    → IsValid s
    → Shows s v
    → Shows (step s c) (meaning v c)
unfolding step meaning raise_proc consume clear block unblock
step-Shows s v (raises k) ok w a = record {
  pending = λ i h. ground (arith, has_bit-set_bit s.pending k i, a.pending i h);
  blocked = λ i h. ground (arith, a.blocked i h);
  handler = λ i h. ground (arith, a.handler i h);
}
step-Shows s v (consumes k) ok w a = record {
  pending = λ i h.
      ground
        (arith, has_bit-clear_bit 32 s.pending k i w.pending_word, a.pending i h, w.unraised i);
  blocked = λ i h. ground (arith, a.blocked i h);
  handler = λ i h. ground (arith, a.handler i h);
}
step-Shows s v clears ok w a = record {
  pending = λ i h. has_bit-eq-bit 0 i ∙ bit-zero i;
  blocked = a.blocked;
  handler = a.handler;
}
step-Shows s v (blocks m) ok w a = record {
  pending = a.pending;
  blocked = λ i h. ground (arith, has_bit-bit_or s.blocked m i, a.blocked i h);
  handler = a.handler;
}
step-Shows s v (unblocks m) ok w a = record {
  pending = a.pending;
  blocked = λ i h. ground (arith, has_bit-mask_off s.blocked m i ok h, a.blocked i h);
  handler = a.handler;
}
step-Shows s v (sets k f) ok w a = record {
  pending = λ i h. unfold set_handler in ground (arith, a.pending i h);
  blocked = λ i h. unfold set_handler in ground (arith, a.blocked i h);
  handler = λ i h.
      unfold set_handler with_handler in
      ground (arith, a.handler i h, get_or-set s.handlers k i f sig_dfl, w.handlers_full);
}
step-Shows s v (acts k none) ok w a = record {
  pending = λ i h. unfold sigaction in ground (arith, a.pending i h);
  blocked = λ i h. unfold sigaction in ground (arith, a.blocked i h);
  handler = λ i h. unfold sigaction in ground (arith, a.handler i h);
}
step-Shows s v (acts k (some act)) ok w a = record {
  pending = λ i h. unfold sigaction in ground (arith, a.pending i h);
  blocked = λ i h. unfold sigaction in ground (arith, a.blocked i h);
  handler = λ i h.
      unfold sigaction with_handler in
      ground
        (arith, a.handler i h, get_or-set s.handlers k i act.sa_handler sig_dfl, w.handlers_full);
}
step-Shows s v (delivers k) ok w a = record {
  pending = λ i h.
      unfold deliver in
      ground (
        arith,
        has_bit-clear_bit 32 s.pending k i w.pending_word,
        a.pending i h,
        a.handler k,
        w.unraised i,
      );
  blocked = λ i h. unfold deliver in ground (arith, a.blocked i h);
  handler = λ i h. unfold deliver in ground (arith, a.handler i h);
}

unfoldable pub run : SignalState → List Call → SignalState
run s [] = s
run s (c ∷ cs) = run (step s c) cs

unfoldable pub meaning_run : View → List Call → View
meaning_run v [] = v
meaning_run v (c ∷ cs) = meaning_run (meaning v c) cs

abbrev pub AllCalls : List Call → Type 0
AllCalls [] = Unit {0}
AllCalls (c ∷ cs) = IsCall c × AllCalls cs

-- From a sound state that shows some sets, every history of signal calls in range leads to a
-- sound state that shows the sets which the calls mean.
pub run_refines :
    (s : SignalState) (v : View) (cs : List Call)
    → AllCalls cs
    → IsValid s
    → Shows s v
    → IsValid (run s cs) × Shows (run s cs) (meaning_run v cs)
unfolding run meaning_run
run_refines s v [] ok w a = (w, a)
run_refines s v (c ∷ cs) ok w a =
    run_refines (step s c) (meaning v c) cs ok.1 (step-IsValid s c ok.0 w)
      (step-Shows s v c ok.0 w a)
