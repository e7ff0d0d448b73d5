-- ===== src/Pmem/Align.antt =====
-- kernel/pmem.c: align_up_page and align_down_page round to multiples of a page.
use native.Mathlib.Nat.{pow-suc, one-le-pow, mul_assoc}
use bright_s.Base.{
  ℕ, zero, suc, ◌+◌, ◌-◌, ◌*◌, ◌/◌, ◌%◌, ◌^◌, ◌≤◌, ◌<◌, ◌≡◌, refl, sym, ap, ◌∙◌, arith, bit_and,
}
use bright_s.Word.{complement, bit_and_step}
use bright_s.Pmem.{page_size, align_down_page, align_up_page}

-- m is the largest multiple of d that is not above x.
pub record Floor (d x m : ℕ) : Type 0 where
  pub quotient : ℕ
  pub multiple : m ≡ d * quotient
  pub below : m ≤ x
  pub above : x < m + d

bit_and-all : (w x : ℕ) → x < 2 ^ w → bit_and x (2 ^ w - 1) ≡ x
bit_and-all zero x h = let e : x ≡ 0 = omega arith in rw e refl
bit_and-all (suc w) x h =
    let half : (2 ^ suc w - 1) / 2 ≡ 2 ^ w - 1 = omega (arith, pow-suc 2 w, one-le-pow w 2) in
    let odd : (2 ^ suc w - 1) % 2 ≡ 1 = omega (arith, pow-suc 2 w, one-le-pow w 2) in
    omega (
      arith,
      pow-suc 2 w,
      bit_and_step x (2 ^ suc w - 1),
      ap (bit_and (x / 2)) half,
      bit_and-all w (x / 2) (omega (arith, pow-suc 2 w)),
    )

pow_le : (k w : ℕ) → k ≤ w → 2 ^ k ≤ 2 ^ w
pow_le zero w h = one-le-pow w 2 (omega arith)
pow_le (suc k) zero h = absurd (omega arith)
pow_le (suc k) (suc w) h = omega (arith, pow-suc 2 k, pow-suc 2 w, pow_le k w (omega arith))

Floor-double : (k x m y : ℕ) → Floor (2 ^ k) (x / 2) m → y ≡ m * 2 → Floor (2 ^ suc k) x y
Floor-double k x m y f e = record {
  quotient = f.quotient;
  multiple =
      let swap : 2 ^ k * f.quotient * 2 ≡ 2 * (2 ^ k * f.quotient) = omega arith in
      let twice : 2 * 2 ^ k ≡ 2 ^ suc k = omega (arith, pow-suc 2 k) in
      e
      ∙ (ap (λ p. p * 2) f.multiple
          ∙ (swap ∙ (sym (mul_assoc 2 (2 ^ k) f.quotient) ∙ ap (λ p. p * f.quotient) twice)));
  below = omega (arith, f.below);
  above = omega (arith, f.above, pow-suc 2 k);
}

mask-Floor :
    (k w x : ℕ) → k ≤ w → x < 2 ^ w → Floor (2 ^ k) x (bit_and x (complement w (2 ^ k - 1)))
mask-Floor zero w x h hx =
    let e : complement w (2 ^ 0 - 1) ≡ 2 ^ w - 1 = omega arith in
    let same : bit_and x (complement w (2 ^ 0 - 1)) ≡ x = ap (bit_and x) e ∙ bit_and-all w x hx in
    record {
      quotient = x;
      multiple = same ∙ omega arith;
      below = omega (arith, same);
      above = omega (arith, same);
    }
mask-Floor (suc k) zero x h hx = absurd (omega arith)
mask-Floor (suc k) (suc w) x h hx =
    let half : complement (suc w) (2 ^ suc k - 1) / 2 ≡ complement w (2 ^ k - 1) =
      omega (arith, pow-suc 2 w, pow-suc 2 k, one-le-pow k 2, pow_le k w (omega arith)) in
    let even : complement (suc w) (2 ^ suc k - 1) % 2 ≡ 0 =
      omega (arith, pow-suc 2 w, pow-suc 2 k, one-le-pow k 2, pow_le k w (omega arith)) in
    Floor-double k x (bit_and (x / 2) (complement w (2 ^ k - 1))) _
      (mask-Floor k w (x / 2) (omega arith) (omega (arith, pow-suc 2 w)))
      (omega
        (arith, bit_and_step x (complement (suc w) (2 ^ suc k - 1)), ap (bit_and (x / 2)) half))

-- align_down_page of a 64-bit value is the page's boundary at or below it.
pub align_down_page-Floor : (x : ℕ) → x < 2 ^ 64 → Floor page_size x (align_down_page x)
align_down_page-Floor x h = mask-Floor 12 64 x (omega arith) h

-- align_up_page of a value that is not in the last page is the boundary at or above it.
pub align_up_page_lem :
    (x : ℕ)
    → x + page_size ≤ 2 ^ 64
    → (align_up_page x % page_size ≡ 0) × (x ≤ align_up_page x) × (align_up_page x < x + page_size)
align_up_page_lem x h =
    let f = align_down_page-Floor ((x + (page_size - 1)) % 2 ^ 64) (omega arith) in
    let small : (x + (page_size - 1)) % 2 ^ 64 ≡ x + (page_size - 1) = omega arith in
    (omega (arith, f.multiple), omega (arith, f.above), omega (arith, f.below))
