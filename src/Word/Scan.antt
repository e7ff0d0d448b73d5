-- ===== src/Word/Scan.antt =====
-- The search for the lowest set bit of a word, and the words whose lowest bits are all set.
use native.Mathlib.Nat.{pow-suc, one-le-pow}
use bright_s.Base.{
  ℕ, zero, suc, ◌-◌, ◌/◌, ◌%◌, ◌^◌, ◌<◌, ◌≡◌, ◌≢◌, ap, ◌∙◌, true, false, ◌==◌, ltb, arith,
  if◌then◌else◌, Bool-cases, inl, inr, ◌⊎◌,
}
use bright_s.Word.Defs.{bit}
use bright_s.Word.Laws.{bit-zero}

-- The number of zeros below the lowest set bit of a word of w bits; w if there is none.
unfoldable pub lowest : ℕ → ℕ → ℕ
lowest zero x = 0
lowest (suc w) x = let rest = lowest w (x / 2) in if x % 2 == 1 then 0 else suc rest

pub record Lowest (x i : ℕ) : Type 0 where
  pub is_set : bit x i ≡ true
  pub below : (j : ℕ) → j < i → bit x j ≡ false

pub lowest_lem : (w x : ℕ) → x < 2 ^ w → x ≢ 0 → (lowest w x < w) × Lowest x (lowest w x)
unfolding lowest bit
lowest_lem zero x h some_bit = absurd (some_bit (omega arith))
lowest_lem (suc w) x h some_bit = pick (Bool-cases (x % 2 == 1)) (lowest_lem w (x / 2))
  where
    shifted : (i : ℕ) → (x % 2 == 1) ≡ false → Lowest (x / 2) i → Lowest x (suc i)
    shifted i even l = record { is_set = l.is_set; below = λ j h. below j h }
      where
        below : (j : ℕ) → j < suc i → bit x j ≡ false
        below zero h = even
        below (suc j) h = l.below j (omega arith)

    pick :
        ((x % 2 == 1) ≡ true) ⊎ ((x % 2 == 1) ≡ false)
        → (x / 2 < 2 ^ w → x / 2 ≢ 0 → (lowest w (x / 2) < w) × Lowest (x / 2) (lowest w (x / 2)))
        → ((if x % 2 == 1 then 0 else suc (lowest w (x / 2))) < suc w)
          × Lowest x (if x % 2 == 1 then 0 else suc (lowest w (x / 2)))
    pick (inl odd) ih =
        rw odd (omega arith, record { is_set = odd; below = λ j h. absurd (omega arith) })
    pick (inr even) ih =
        let (inside, l) = ih (omega (arith, pow-suc 2 w)) (λ e. some_bit (ground arith)) in
        rw even (omega arith, shifted _ even l)

-- The word with the n lowest bits set.
pub bit-ones : (n i : ℕ) → bit (2 ^ n - 1) i ≡ ltb i n
unfolding bit
bit-ones zero i = bit-zero i ∙ ground arith
bit-ones (suc n) zero = ground (arith, pow-suc 2 n, one-le-pow n 2)
bit-ones (suc n) (suc i) =
    let e : (2 ^ suc n - 1) / 2 ≡ 2 ^ n - 1 = omega (arith, pow-suc 2 n, one-le-pow n 2) in
    rw e (bit-ones n i ∙ ground arith)

-- A word with a bit set is not zero.
pub nonzero_of_bit : (x i : ℕ) → bit x i ≡ true → x ≢ 0
nonzero_of_bit x i set e = absurd (contra (ap (λ y. bit y i) e) (bit-zero i) set)
  where
    contra : bit x i ≡ bit 0 i → bit 0 i ≡ false → bit x i ≡ true → ⊥
    contra a b c = ground arith
