-- ===== src/Word/Laws.antt =====
-- What the word operations do to each single bit, and that words are equal when their bits are.
use mathlib.Core.WellFounded
use native.Mathlib.Nat.{pow-suc, one-le-pow}
use bright_s.Base.{
  ℕ, zero, suc, ◌*◌, ◌/◌, ◌%◌, ◌^◌, ◌≤◌, ◌<◌, bit_and, bit_or, ◌≡◌, refl, sym, ◌∙◌, false, not,
  ◌&&◌, ◌||◌, ◌==◌, arith, ap,
}
use native.Mathlib.Decide.{dec_lt}
use bright_s.Base.Order.{lt_wf}
use bright_s.Word.Defs.{bit, complement, has_bit, set_bit, clear_bit}
use bright_s.Word.Digits.{bit_and_step, bit_or_step}

pub bit-bit_and : (x y i : ℕ) → bit (bit_and x y) i ≡ (bit x i && bit y i)
unfolding bit
bit-bit_and x y zero = ground (arith, bit_and_step x y)
bit-bit_and x y (suc i) =
    let e : bit_and x y / 2 ≡ bit_and (x / 2) (y / 2) = omega (arith, bit_and_step x y) in
    rw e (bit-bit_and (x / 2) (y / 2) i)

pub bit-bit_or : (x y i : ℕ) → bit (bit_or x y) i ≡ (bit x i || bit y i)
unfolding bit
bit-bit_or x y zero = ground (arith, bit_or_step x y)
bit-bit_or x y (suc i) =
    let e : bit_or x y / 2 ≡ bit_or (x / 2) (y / 2) = omega (arith, bit_or_step x y) in
    rw e (bit-bit_or (x / 2) (y / 2) i)

pub bit-zero : (i : ℕ) → bit 0 i ≡ false
unfolding bit
bit-zero zero = refl
bit-zero (suc i) = bit-zero i

pub bit-pow : (k i : ℕ) → bit (2 ^ k) i ≡ (k == i)
unfolding bit
bit-pow zero zero = refl
bit-pow zero (suc i) = bit-zero i ∙ ground arith
bit-pow (suc k) zero = ground (arith, pow-suc 2 k)
bit-pow (suc k) (suc i) =
    let e : 2 ^ suc k / 2 ≡ 2 ^ k = omega (arith, pow-suc 2 k) in rw e (bit-pow k i ∙ ground arith)

pub bit-complement : (w x i : ℕ) → x < 2 ^ w → i < w → bit (complement w x) i ≡ not (bit x i)
unfolding bit
bit-complement zero x i h k = absurd (omega arith)
bit-complement (suc w) x zero h k = ground (arith, pow-suc 2 w)
bit-complement (suc w) x (suc i) h k =
    let e : complement (suc w) x / 2 ≡ complement w (x / 2) = omega (arith, pow-suc 2 w) in
    rw e (bit-complement w (x / 2) i (omega (arith, pow-suc 2 w)) (omega arith))

-- A word has no bit at or above its width.
pub bit-above : (w x i : ℕ) → x < 2 ^ w → w ≤ i → bit x i ≡ false
unfolding bit
bit-above zero x i h k = let e : x ≡ 0 = omega arith in rw e (bit-zero i)
bit-above (suc w) x zero h k = absurd (omega arith)
bit-above (suc w) x (suc i) h k = bit-above w (x / 2) i (omega (arith, pow-suc 2 w)) (omega arith)

-- Words with the same bits are equal.
pub bit_ext : (w x y : ℕ) → x < 2 ^ w → y < 2 ^ w → ((i : ℕ) → bit x i ≡ bit y i) → x ≡ y
unfolding bit
bit_ext zero x y h k same = omega arith
bit_ext (suc w) x y h k same =
    let halves : x / 2 ≡ y / 2 =
      bit_ext w (x / 2) (y / 2) (omega (arith, pow-suc 2 w)) (omega (arith, pow-suc 2 w))
        (λ i. same (suc i)) in
    let low : (x % 2 == 1) ≡ (y % 2 == 1) = same 0 in ground arith

pub bit_or-lt : (w x y : ℕ) → x < 2 ^ w → y < 2 ^ w → bit_or x y < 2 ^ w
bit_or-lt zero x y h k =
    let ex : x ≡ 0 = omega arith in let ey : y ≡ 0 = omega arith in rw (ex, ey) (omega arith)
bit_or-lt (suc w) x y h k = omega (
  arith,
  pow-suc 2 w,
  bit_or_step x y,
  bit_or-lt w (x / 2) (y / 2) (omega (arith, pow-suc 2 w)) (omega (arith, pow-suc 2 w)),
)

pub bit_and-lt : (w x y : ℕ) → x < 2 ^ w → y < 2 ^ w → bit_and x y < 2 ^ w
bit_and-lt zero x y h k =
    let ex : x ≡ 0 = omega arith in let ey : y ≡ 0 = omega arith in rw (ex, ey) (omega arith)
bit_and-lt (suc w) x y h k = omega (
  arith,
  pow-suc 2 w,
  bit_and_step x y,
  bit_and-lt w (x / 2) (y / 2) (omega (arith, pow-suc 2 w)) (omega (arith, pow-suc 2 w)),
)

bit_and-zero : (x : ℕ) → bit_and x 0 ≡ 0
bit_and-zero x = WellFounded.induction lt_wf {C = λ y. bit_and y 0 ≡ 0} x step
  where
    step : (y : ℕ) → ((z : ℕ) → z < y → bit_and z 0 ≡ 0) → bit_and y 0 ≡ 0
    step zero ih = refl
    step (suc y) ih = omega (arith, bit_and_step (suc y) 0, ih (suc y / 2) (omega arith))

-- `x & (1 << i)` is not zero exactly when bit i is set.
pub has_bit-eq-bit : (x i : ℕ) → has_bit x i ≡ bit x i
unfolding bit
has_bit-eq-bit x zero = ground (arith, bit_and_step x 1, bit_and-zero (x / 2))
has_bit-eq-bit x (suc i) =
    let half : 2 ^ suc i / 2 ≡ 2 ^ i = omega (arith, pow-suc 2 i) in
    let even : 2 ^ suc i % 2 ≡ 0 = omega (arith, pow-suc 2 i) in
    ground (arith, has_bit-eq-bit (x / 2) i, double i half even)
  where
    double :
        (i : ℕ)
        → 2 ^ suc i / 2 ≡ 2 ^ i
        → 2 ^ suc i % 2 ≡ 0
        → bit_and x (2 ^ suc i) ≡ bit_and (x / 2) (2 ^ i) * 2
    double i half even =
        let e : bit_and (x / 2) (2 ^ suc i / 2) ≡ bit_and (x / 2) (2 ^ i) =
          ap (bit_and (x / 2)) half in
        omega (arith, bit_and_step x (2 ^ suc i))

pub bit-set_bit : (x k i : ℕ) → bit (set_bit x k) i ≡ (bit x i || k == i)
bit-set_bit x k i = rw (bit-bit_or, bit-pow k i)

pub pow-lt-pow : (w k : ℕ) → k < w → 2 ^ k < 2 ^ w
pow-lt-pow zero k h = absurd (omega arith)
pow-lt-pow (suc w) zero h = omega (arith, pow-suc 2 w, one-le-pow w 2)
pow-lt-pow (suc w) (suc k) h = omega (arith, pow-suc 2 w, pow-suc 2 k, pow-lt-pow w k)

pub bit-clear_bit :
    (w x k i : ℕ) → x < 2 ^ w → k < w → bit (clear_bit w x k) i ≡ (bit x i && not (k == i))
bit-clear_bit w x k i hx hk = elim (dec_lt i w) [
  | yes below ↦ rw (bit-bit_and, bit-complement w (2 ^ k) i (pow-lt-pow w k hk) below, bit-pow k i)
  | no above ↦ rw (bit-bit_and, bit-above w x i hx (omega arith))
]

pub set_bit-lt : (w x k : ℕ) → x < 2 ^ w → k < w → set_bit x k < 2 ^ w
set_bit-lt w x k hx hk = bit_or-lt w x (2 ^ k) hx (pow-lt-pow w k hk)

pub clear_bit-lt : (w x k : ℕ) → x < 2 ^ w → clear_bit w x k < 2 ^ w
clear_bit-lt w x k hx = bit_and-lt w x (complement w (2 ^ k)) hx (omega (arith, one-le-pow w 2))

pub has_bit-set_bit : (x k i : ℕ) → has_bit (set_bit x k) i ≡ (has_bit x i || k == i)
has_bit-set_bit x k i =
    has_bit-eq-bit (set_bit x k) i
    ∙ bit-set_bit x k i
    ∙ sym (ap (λ b. b || k == i) (has_bit-eq-bit x i))

pub has_bit-clear_bit :
    (w x k i : ℕ) → x < 2 ^ w → k < w → has_bit (clear_bit w x k) i ≡ (has_bit x i && not (k == i))
has_bit-clear_bit w x k i hx hk =
    has_bit-eq-bit (clear_bit w x k) i
    ∙ bit-clear_bit w x k i hx hk
    ∙ sym (ap (λ b. b && not (k == i)) (has_bit-eq-bit x i))
