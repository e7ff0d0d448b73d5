-- ===== src/Signal/Invariant.antt =====
-- kernel/signal.c: the state invariant, kept by every call and so by every history.
use bright_s.Base.{
  ℕ, ◌<◌, ◌^◌, ◌≡◌, ◌⊎◌, refl, sym, ap, ◌∙◌, some, none, Option, true, false, ◌==◌, arith,
  Bool-cases, inl, inr, length, length-set, get_or, get_or-set_self, get_or-set_ne,
  get_or-replicate, set,
}
use bright_s.Word.{
  has_bit, set_bit, clear_bit, set_bit-lt, clear_bit-lt, has_bit-set_bit, has_bit-clear_bit,
  has_bit-eq-bit, bit-zero,
}
use bright_s.Signal.{
  SignalState, SigAction, signal_max, sig_dfl, default_action, out_of_range, uncatchable, proc_init,
  raise_proc, consume, deliver,
}

-- Both masks are words, no mask holds a signal that cannot be raised, both tables have an entry
-- for each signal and agree, and the two signals that cannot be caught have the default action.
pub record IsValid (s : SignalState) : Type 0 where
  pub pending_word : s.pending < 2 ^ 32
  pub blocked_word : s.blocked < 2 ^ 32
  pub handlers_full : length s.handlers ≡ signal_max
  pub actions_full : length s.sigactions ≡ signal_max
  pub unraised : (i : ℕ) → (i ≡ 0) ⊎ (uncatchable i ≡ true) → has_bit s.pending i ≡ false
  pub agree :
      (i : ℕ) → get_or s.handlers i sig_dfl ≡ (get_or s.sigactions i default_action).sa_handler
  pub kept_default : (i : ℕ) → uncatchable i ≡ true → get_or s.handlers i sig_dfl ≡ sig_dfl

raise-IsValid :
    (s : SignalState) (signo : ℕ)
    → IsValid s
    → out_of_range signo ≡ false
    → uncatchable signo ≡ false
    → IsValid (record s { pending = set_bit s.pending signo })
raise-IsValid s signo v r u = record {
  pending_word = set_bit-lt 32 s.pending signo v.pending_word (ground arith);
  blocked_word = v.blocked_word;
  handlers_full = v.handlers_full;
  actions_full = v.actions_full;
  unraised = λ i h. ground (arith, has_bit-set_bit s.pending signo i, v.unraised i h);
  agree = v.agree;
  kept_default = v.kept_default;
}

-- Giving up signals keeps the invariant: `consume` and `clear` only take bits away.
pub fewer_pending-IsValid :
    (s : SignalState) (p : ℕ)
    → IsValid s
    → p < 2 ^ 32
    → ((i : ℕ) → has_bit s.pending i ≡ false → has_bit p i ≡ false)
    → IsValid (record s { pending = p })
fewer_pending-IsValid s p v h fewer = record {
  pending_word = h;
  blocked_word = v.blocked_word;
  handlers_full = v.handlers_full;
  actions_full = v.actions_full;
  unraised = λ i u. fewer i (v.unraised i u);
  agree = v.agree;
  kept_default = v.kept_default;
}

pub blocked-IsValid :
    (s : SignalState) (b : ℕ) → IsValid s → b < 2 ^ 32 → IsValid (record s { blocked = b })
blocked-IsValid s b v h = record {
  pending_word = v.pending_word;
  blocked_word = h;
  handlers_full = v.handlers_full;
  actions_full = v.actions_full;
  unraised = v.unraised;
  agree = v.agree;
  kept_default = v.kept_default;
}

-- Writing one action to both tables keeps them in step.
pub install-IsValid :
    (s : SignalState) (signo : ℕ) (act : SigAction)
    → IsValid s
    → out_of_range signo ≡ false
    → uncatchable signo ≡ false
    → IsValid (record s {
      handlers = set s.handlers signo act.sa_handler;
      sigactions = set s.sigactions signo act;
    })
install-IsValid s signo act v r u = record {
  pending_word = v.pending_word;
  blocked_word = v.blocked_word;
  handlers_full = length-set s.handlers signo act.sa_handler ∙ v.handlers_full;
  actions_full = length-set s.sigactions signo act ∙ v.actions_full;
  unraised = v.unraised;
  agree = λ i. elim (Bool-cases (signo == i)) [
    | inl same ↦
        let e : signo ≡ i = ground arith in
        rw (← e) (
          get_or-set_self s.handlers signo act.sa_handler sig_dfl h_in
          ∙ sym (
              ap (λ (a : SigAction). a.sa_handler)
                (get_or-set_self s.sigactions signo act default_action a_in)))
    | inr apart ↦
        get_or-set_ne s.handlers signo i act.sa_handler sig_dfl (ground arith)
        ∙ v.agree i
        ∙ sym (
            ap (λ (a : SigAction). a.sa_handler)
              (get_or-set_ne s.sigactions signo i act default_action (ground arith)))
  ];
  kept_default = λ i c.
      get_or-set_ne s.handlers signo i act.sa_handler sig_dfl (ground arith) ∙ v.kept_default i c;
}
  where
    h_in : signo < length s.handlers
    h_in = ground (arith, v.handlers_full)

    a_in : signo < length s.sigactions
    a_in = ground (arith, v.actions_full)

abbrev pub OkState : Option SignalState → Type 0
OkState none = Unit {0}
OkState (some s) = IsValid s

pub proc_init-IsValid : (s : Option SignalState) → OkState (proc_init s)
unfolding proc_init
proc_init-IsValid none = tt
proc_init-IsValid (some s) = record {
  pending_word = omega arith;
  blocked_word = omega arith;
  handlers_full = refl;
  actions_full = refl;
  unraised = λ i h. has_bit-eq-bit 0 i ∙ bit-zero i;
  agree = λ i.
      get_or-replicate signal_max i sig_dfl
      ∙ sym (ap (λ (a : SigAction). a.sa_handler) (get_or-replicate signal_max i default_action));
  kept_default = λ i c. get_or-replicate signal_max i sig_dfl;
}

pub raise_proc-IsValid :
    (s : SignalState) (signo : ℕ) → IsValid s → OkState (raise_proc (some s) signo).1
unfolding raise_proc
raise_proc-IsValid s signo v = ground (arith, raise-IsValid s signo v)

pub consume-IsValid : (s : SignalState) (signo : ℕ) → IsValid s → OkState (consume (some s) signo).1
unfolding consume
consume-IsValid s signo v = ground (
  arith,
  λ (r : signo < 32).
      fewer_pending-IsValid s (clear_bit 32 s.pending signo) v
        (clear_bit-lt 32 s.pending signo v.pending_word)
        (λ i e. ground (arith, has_bit-clear_bit 32 s.pending signo i v.pending_word r)),
)

pub deliver-IsValid : (s : SignalState) (signo : ℕ) → IsValid s → OkState (deliver (some s) signo).1
unfolding deliver
deliver-IsValid s signo v = ground (arith, consume-IsValid s signo v)
