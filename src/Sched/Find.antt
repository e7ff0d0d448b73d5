-- ===== src/Sched/Find.antt =====
-- kernel/sched.c: find_next_runnable, and which slot it finds.
use native.Mathlib.Decide.{dec_lt}
use native.Mathlib.Nat.{one-le-pow}
use bright_s.Base.{
  ℕ, ◌+◌, ◌-◌, ◌%◌, ◌^◌, ◌≤◌, ◌<◌, ◌≡◌, ◌≢◌, true, false, not, ◌&&◌, ◌==◌, ltb, if◌then◌else◌,
  bit_and, arith, refl, sym, ap, ◌∙◌, Bool-cases, inl, inr,
}
use bright_s.Word.{
  bit, complement, Lowest, lowest_lem, bit-ones, bit-bit_and, bit-complement, bit-above, bit-zero,
  bit_and-lt, pow-lt-pow,
}
use bright_s.Sched.{no_slot, ctzll}

-- A shift by 64 or more is undefined in C: `overshift` is what `1ULL << start` gives then.
module _ (overshift : ℕ → ℕ) where
  abbrev pub shifted_one : ℕ → ℕ
  shifted_one start = if ltb start 64 then 2 ^ start else overshift start

  -- `find_next_runnable`, with the bitmap as an argument.
  unfoldable pub find_next_runnable : ℕ → ℕ → ℕ
  find_next_runnable bitmap start =
      let high : ℕ = bit_and bitmap (complement 64 (2 ^ start - 1)) in
      let low : ℕ = bit_and bitmap ((shifted_one start + (2 ^ 64 - 1)) % 2 ^ 64) in
      if bitmap == 0
      then no_slot
      else if (ltb 0 start && ltb start 64) && not (high == 0)
      then ctzll high
      else if not (low == 0)
      then ctzll low
      else ctzll bitmap

-- The slot r is the first of the bitmap in the cyclic order that begins at `start`.
pub record Next (bitmap start r : ℕ) : Type 0 where
  pub is_set : bit bitmap r ≡ true
  pub inside : r < 64
  pub ahead : start ≤ r → (j : ℕ) → start ≤ j → j < r → bit bitmap j ≡ false
  pub wrapped :
      r < start → (j : ℕ) → (start ≤ j → bit bitmap j ≡ false) × (j < r → bit bitmap j ≡ false)

bit-high :
    (bitmap start j : ℕ)
    → bitmap < 2 ^ 64
    → start < 64
    → bit (bit_and bitmap (complement 64 (2 ^ start - 1))) j ≡ (bit bitmap j && not (ltb j start))
bit-high bitmap start j hb hs = elim (dec_lt j 64) [
  | yes below ↦
      rw
        (
          bit-bit_and,
          bit-complement 64 (2 ^ start - 1) j (omega (arith, pow-lt-pow 64 start hs)) below,
          bit-ones start j,
        )
        refl
  | no above ↦ rw (bit-bit_and, bit-above 64 bitmap j hb (omega arith)) refl
]

low_mask :
    (overshift : ℕ → ℕ) (start : ℕ)
    → start < 64
    → (shifted_one overshift start + (2 ^ 64 - 1)) % 2 ^ 64 ≡ 2 ^ start - 1
low_mask overshift start h = ground (arith, pow-lt-pow 64 start h, one-le-pow start 2)

bit-low :
    (bitmap start j : ℕ) → bit (bit_and bitmap (2 ^ start - 1)) j ≡ (bit bitmap j && ltb j start)
bit-low bitmap start j = rw (bit-bit_and, bit-ones start j) refl

module _ {bitmap start : ℕ} (hb : bitmap < 2 ^ 64) (hs : start < 64) where
  from_high :
      (r : ℕ)
      → r < 64
      → Lowest (bit_and bitmap (complement 64 (2 ^ start - 1))) r
      → Next bitmap start r
  from_high r inside l =
      let both : (bit bitmap r && not (ltb r start)) ≡ true =
        sym (bit-high bitmap start r hb hs) ∙ l.is_set in
      record {
        is_set = ground arith;
        inside = inside;
        ahead =
            λ _ j from below. miss j from (sym (bit-high bitmap start j hb hs) ∙ l.below j below);
        wrapped = λ h j. absurd (ground arith);
      }
    where
      miss :
          (j : ℕ) → start ≤ j → (bit bitmap j && not (ltb j start)) ≡ false → bit bitmap j ≡ false
      miss j from e = ground arith

  high_empty :
      (bit_and bitmap (complement 64 (2 ^ start - 1)) == 0) ≡ true
      → (j : ℕ) → start ≤ j
      → bit bitmap j ≡ false
  high_empty e j from =
      let zero : bit_and bitmap (complement 64 (2 ^ start - 1)) ≡ 0 = ground arith in
      miss (sym (bit-high bitmap start j hb hs) ∙ ap (λ x. bit x j) zero ∙ bit-zero j)
    where
      miss : (bit bitmap j && not (ltb j start)) ≡ false → bit bitmap j ≡ false
      miss e = ground arith

  from_low :
      (r : ℕ)
      → r < 64
      → (0 < start → (j : ℕ) → start ≤ j → bit bitmap j ≡ false)
      → Lowest (bit_and bitmap (2 ^ start - 1)) r
      → Next bitmap start r
  from_low r inside none_above l =
      let both : (bit bitmap r && ltb r start) ≡ true = sym (bit-low bitmap start r) ∙ l.is_set in
      let below : r < start = ground arith in
      record {
        is_set = ground arith;
        inside = inside;
        ahead = λ h j. absurd (omega arith);
        wrapped = λ _ j. (
          none_above (omega arith) j,
          λ h. miss j (omega arith) (sym (bit-low bitmap start j) ∙ l.below j h),
        );
      }
    where
      miss : (j : ℕ) → j < start → (bit bitmap j && ltb j start) ≡ false → bit bitmap j ≡ false
      miss j from e = ground arith

  from_all :
      (r : ℕ)
      → r < 64
      → (r < start → (j : ℕ) → start ≤ j → bit bitmap j ≡ false)
      → Lowest bitmap r
      → Next bitmap start r
  from_all r inside none_above l = record {
    is_set = l.is_set;
    inside = inside;
    ahead = λ _ j _. l.below j;
    wrapped = λ h j. (none_above h j, l.below j);
  }

  -- For a bitmap that is not empty, find_next_runnable finds the first set bit in the cyclic
  -- order from `start`: the lowest at or above it, else the lowest of all.
  pub find_next_runnable_lem :
      (overshift : ℕ → ℕ)
      → bitmap ≢ 0
      → Next bitmap start (find_next_runnable overshift bitmap start)
  unfolding find_next_runnable
  find_next_runnable_lem overshift some_bit =
      let high : ℕ = bit_and bitmap (complement 64 (2 ^ start - 1)) in
      let high_lt : high < 2 ^ 64 = bit_and-lt 64 bitmap _ hb (omega (arith, one-le-pow start 2)) in
      let low_lt : bit_and bitmap (2 ^ start - 1) < 2 ^ 64 =
        bit_and-lt 64 bitmap _ hb (omega (arith, pow-lt-pow 64 start hs)) in
      let nonzero : (bitmap == 0) ≡ false = ground arith in
      rw (nonzero, find_next_runnable)
        (rw (low_mask overshift start hs, find_next_runnable)
          (elim (Bool-cases ((ltb 0 start && ltb start 64) && not (high == 0))) [
            | inl e ↦
                rw (e, find_next_runnable)
                  (let l = lowest_lem 64 high high_lt (ground arith) in from_high _ l.0 l.1)
            | inr e ↦ rw (e, find_next_runnable) (rest e low_lt)
          ]))
    where
      above :
          ((ltb 0 start && ltb start 64)
              && not (bit_and bitmap (complement 64 (2 ^ start - 1)) == 0))
            ≡ false
          → 0 < start
          → (j : ℕ) → start ≤ j
          → bit bitmap j ≡ false
      above e h j from = high_empty (ground arith) j from

      rest :
          ((ltb 0 start && ltb start 64)
              && not (bit_and bitmap (complement 64 (2 ^ start - 1)) == 0))
            ≡ false
          → bit_and bitmap (2 ^ start - 1) < 2 ^ 64
          → Next bitmap start (
              if not (bit_and bitmap (2 ^ start - 1) == 0)
              then ctzll (bit_and bitmap (2 ^ start - 1))
              else ctzll bitmap)
      rest e low_lt = elim (Bool-cases (not (bit_and bitmap (2 ^ start - 1) == 0))) [
        | inl some_low ↦
            rw some_low
              (let l = lowest_lem 64 _ low_lt (ground arith) in from_low _ l.0 (above e) l.1)
        | inr none_low ↦ rw none_low (
            let l = lowest_lem 64 bitmap hb some_bit in
            from_all _ l.0 (λ h. above e (omega arith)) l.1)
      ]
