-- ===== src/Signal/Tests.antt =====
-- kernel/signal.c at concrete inputs.
use bright_s.Base.{
  ◌^◌, ◌≡◌, refl, some, List, [], ◌∷◌, false, arith, replicate, ◌+◌, ◌∙◌, get_or-replicate,
}
use bright_s.Base.Int.{pos, minus_one}
use bright_s.Word.{has_bit-eq-bit, bit-zero}
use bright_s.Signal.{
  SignalState, signal_max, sig_dfl, sig_ign, default_action, proc_init, raise_proc, pending_proc,
  consume, block, deliver, set_handler,
}
use bright_s.Signal.Masks.{consume-raise}
use bright_s.Signal.Invariant.{IsValid, proc_init-IsValid}
use bright_s.Signal.Refine.{
  Call, raises, blocks, sets, delivers, View, Shows, run, meaning_run, run_refines, step,
}

abbrev fresh : SignalState
fresh = record {
  pending = 0;
  blocked = 0;
  handlers = replicate signal_max sig_dfl;
  sigactions = replicate signal_max default_action;
}

fresh-IsValid : IsValid fresh
unfolding proc_init
fresh-IsValid = proc_init-IsValid (some fresh)

-- SIGHUP and SIGALRM pending, SIGALRM blocked.
abbrev busy : SignalState
busy = record fresh { pending = 2 + 2 ^ 14; blocked = 2 ^ 14 }

shows_unblocked : pending_proc (some busy) ≡ 2
unfolding pending_proc
shows_unblocked = refl

raise_refuses_kill : raise_proc (some busy) 9 ≡ (minus_one, some busy)
unfolding raise_proc
raise_refuses_kill = refl

ignored_is_consumed :
    deliver (set_handler (some busy) 1 sig_ign).1 1
    ≡ (pos 0, (consume (set_handler (some busy) 1 sig_ign).1 1).1)
unfolding deliver set_handler
ignored_is_consumed = refl

consume-raise_example :
    ((raise_proc (some busy) 15).0 ≡ pos 0)
    × (consume (raise_proc (some busy) 15).1 15 ≡ (pos 0, some busy))
consume-raise_example = consume-raise busy 15 (omega arith) refl refl refl

abbrev no_signals : View
no_signals = record { pending = λ i. false; blocked = λ i. false; handler = λ i. sig_dfl }

fresh-Shows : Shows fresh no_signals
fresh-Shows = record {
  pending = λ i h. has_bit-eq-bit 0 i ∙ bit-zero i;
  blocked = λ i h. has_bit-eq-bit 0 i ∙ bit-zero i;
  handler = λ i h. get_or-replicate signal_max i sig_dfl;
}

abbrev history : List Call
history = raises 1 ∷ blocks 2 ∷ sets 1 sig_ign ∷ raises 9 ∷ delivers 1 ∷ raises 14 ∷ []

history_leaves : (run fresh history).pending ≡ 2 ^ 14
unfolding run step raise_proc block set_handler deliver consume
history_leaves = refl

run_refines_example :
    IsValid (run fresh history) × Shows (run fresh history) (meaning_run no_signals history)
run_refines_example = run_refines fresh no_signals history (omega arith) fresh-IsValid fresh-Shows
