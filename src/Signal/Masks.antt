-- ===== src/Signal/Masks.antt =====
-- kernel/signal.c: what each call does to each single signal of the two masks.
use bright_s.Base.{ℕ, ◌<◌, ◌^◌, ◌≡◌, some, false, ◌&&◌, ◌||◌, not, arith, bit_and, bit_or, sym, ◌∙◌}
use native.Mathlib.Decide.{dec_lt}
use bright_s.Base.Int.{pos}
use bright_s.Word.{
  complement, has_bit, has_bit-set_bit, has_bit-eq-bit, bit-bit_and, bit-bit_or, bit-complement,
  set_bit, clear_bit, bit_ext, bit-clear_bit, bit-set_bit, set_bit-lt, clear_bit-lt, bit_and-lt,
  bit_or-lt, bit-above,
}
use bright_s.Signal.{
  SignalState, signal_max, out_of_range, uncatchable, raise_proc, pending_proc, consume, block,
  unblock,
}

pub has_bit-bit_or : (x m i : ℕ) → has_bit (bit_or x m) i ≡ (has_bit x i || has_bit m i)
has_bit-bit_or x m i =
    ground (
      arith,
      has_bit-eq-bit x i,
      has_bit-eq-bit m i,
      has_bit-eq-bit (bit_or x m) i,
      bit-bit_or x m i,
    )

-- `x & ~m` keeps the signals that are not in m.
pub has_bit-mask_off :
    (x m i : ℕ)
    → m < 2 ^ 32
    → i < signal_max
    → has_bit (bit_and x (complement 32 m)) i ≡ (has_bit x i && not (has_bit m i))
has_bit-mask_off x m i h hi = ground (
  arith,
  has_bit-eq-bit x i,
  has_bit-eq-bit m i,
  has_bit-eq-bit (bit_and x (complement 32 m)) i,
  bit-bit_and x (complement 32 m) i,
  bit-complement 32 m i h hi,
)

-- brights_signal_pending_proc shows signal i exactly when it is pending and not blocked, for a
-- 32-bit set of blocked signals.
pub pending_proc_lem :
    (s : SignalState) (i : ℕ)
    → s.blocked < 2 ^ 32
    → i < signal_max
    → has_bit (pending_proc (some s)) i ≡ (has_bit s.pending i && not (has_bit s.blocked i))
unfolding pending_proc
pending_proc_lem s i h hi = has_bit-mask_off s.pending s.blocked i h hi

-- Raising a signal that can be caught and is not yet pending in a 32-bit set, and then consuming
-- it, both succeed and give back the very state.
pub consume-raise :
    (s : SignalState) (k : ℕ)
    → s.pending < 2 ^ 32
    → out_of_range k ≡ false
    → uncatchable k ≡ false
    → has_bit s.pending k ≡ false
    → (raise_proc (some s) k).0 ≡ pos 0 × (consume (raise_proc (some s) k).1 k ≡ (pos 0, some s))
unfolding raise_proc consume
consume-raise s k word range catch fresh =
    let k_in : k < 32 = ground arith in
    let raised_word = set_bit-lt 32 s.pending k word k_in in
    let same : clear_bit 32 (set_bit s.pending k) k ≡ s.pending =
      bit_ext 32 _ s.pending (clear_bit-lt 32 _ k raised_word) word λ i. ground (
        arith,
        bit-clear_bit 32 (set_bit s.pending k) k i raised_word k_in,
        bit-set_bit s.pending k i,
        has_bit-eq-bit s.pending k,
      ) in
    ground (arith, has_bit-set_bit s.pending k k, same)

-- Blocking signals of which none was blocked, and then unblocking them, gives back the state,
-- for 32-bit sets.
pub unblock-block :
    (s : SignalState) (m : ℕ)
    → s.blocked < 2 ^ 32
    → m < 2 ^ 32
    → ((i : ℕ) → i < signal_max → (has_bit s.blocked i && has_bit m i) ≡ false)
    → unblock (block (some s) m) m ≡ some s
unfolding block unblock
unblock-block s m word mask apart =
    let same : bit_and (bit_or s.blocked m) (complement 32 m) ≡ s.blocked =
      bit_ext 32 _ s.blocked (bit_and-lt 32 _ _ (bit_or-lt 32 s.blocked m word mask) (omega arith))
        word
        λ i. elim (dec_lt i 32) [
          | yes below ↦ ground (
            arith,
            bit-bit_and (bit_or s.blocked m) (complement 32 m) i,
            bit-bit_or s.blocked m i,
            bit-complement 32 m i mask below,
            has_bit-eq-bit s.blocked i,
            has_bit-eq-bit m i,
            apart i below,
          )
          | no above ↦
              bit-above 32 _ i
                (bit_and-lt 32 _ _ (bit_or-lt 32 s.blocked m word mask) (omega arith)) (omega arith)
              ∙ sym (bit-above 32 s.blocked i word (omega arith))
        ] in
    rw same
