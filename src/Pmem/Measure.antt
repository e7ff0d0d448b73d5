-- ===== src/Pmem/Measure.antt =====
-- kernel/pmem.c: the loop of brights_pmem_init that finds the base.
use bright_s.Base.{
  ℕ, ◌+◌, ◌-◌, ◌/◌, ◌%◌, ◌^◌, ◌≤◌, ◌≡◌, ◌⊎◌, refl, sym, ap, subst, ◌∙◌, List, [], ◌∷◌, true, false,
  ltb, leb, arith, Bool-cases, inl, inr,
}
use bright_s.Base.Members.{All}
use bright_s.Pmem.{Region, page_size, first_byte, end_byte, measure}
use bright_s.Pmem.Align.{align_up_page_lem, align_down_page-Floor}

-- The region ends at least a page before 2^64.
abbrev pub Fits : Region → Type 0
Fits r = r.base + r.size + page_size ≤ 2 ^ 64

pub bytes-aligned :
    (r : Region) → Fits r → (first_byte r % page_size ≡ 0) × (end_byte r % page_size ≡ 0)
bytes-aligned r h =
    let (up, low, high) = align_up_page_lem r.base (omega arith) in
    let f = align_down_page-Floor ((r.base + r.size) % 2 ^ 64) (omega arith) in
    (up, omega (arith, f.multiple))

-- The base lies at or below the first page of each region that has a page.
abbrev pub Below : ℕ → List Region → Type 0
Below b = All (λ r. (leb (end_byte r) (first_byte r) ≡ true) ⊎ (b ≤ first_byte r))

-- What the first loop says of the base, from the base so far.
unfoldable pub Measured : ℕ → List Region → ℕ × ℕ → Type 0
Measured base regions m = (m.0 ≤ base) × ((m.0 ≡ base) ⊎ (m.0 % page_size ≡ 0)) × Below m.0 regions

pub measure_lem :
    (regions : List Region) (base total : ℕ)
    → All Fits regions
    → Measured base regions (measure regions base total)
unfolding measure Measured
measure_lem [] base total h = (omega arith, inl refl, tt)
measure_lem (r ∷ regions) base total (fit, fits) =
    let sum : ℕ = (total + (end_byte r - first_byte r) / page_size) % 2 ^ 64 in
    elim (Bool-cases (leb (end_byte r) (first_byte r))) [
      | inl empty ↦
          let e : measure (r ∷ regions) base total ≡ measure regions base total =
            rw (empty, measure) refl in
          subst (Measured base (r ∷ regions)) (sym e)
            (skip (measure regions base total) empty (measure_lem regions base total fits))
      | inr some_page ↦ elim (Bool-cases (ltb (first_byte r) base)) [
        | inl lower ↦
            let e : measure (r ∷ regions) base total ≡ measure regions (first_byte r) sum =
              rw (some_page, measure) (rw (lower, measure) refl) in
            subst (Measured base (r ∷ regions)) (sym e) (
              lowered (measure regions (first_byte r) sum) lower
                (measure_lem regions (first_byte r) sum fits))
        | inr higher ↦
            let e : measure (r ∷ regions) base total ≡ measure regions base sum =
              rw (some_page, measure) (rw (higher, measure) refl) in
            subst (Measured base (r ∷ regions)) (sym e)
              (kept (measure regions base sum) higher (measure_lem regions base sum fits))
      ]
    ]
  where
    skip :
        (m : ℕ × ℕ)
        → leb (end_byte r) (first_byte r) ≡ true
        → Measured base regions m
        → Measured base (r ∷ regions) m
    skip m empty (low, at, below) = (low, at, (inl empty, below))

    aligned : {b : ℕ} → (b ≡ first_byte r) ⊎ (b % page_size ≡ 0) → (b ≡ base) ⊎ (b % page_size ≡ 0)
    aligned (inl e) = inr (ap (λ x. x % page_size) e ∙ (bytes-aligned r fit).0)
    aligned (inr e) = inr e

    lowered :
        (m : ℕ × ℕ)
        → ltb (first_byte r) base ≡ true
        → Measured (first_byte r) regions m
        → Measured base (r ∷ regions) m
    lowered m lower (low, at, below) =
        let less : first_byte r ≤ base = ground arith in
        (omega (arith, low, less), aligned at, (inr low, below))

    kept :
        (m : ℕ × ℕ)
        → ltb (first_byte r) base ≡ false
        → Measured base regions m
        → Measured base (r ∷ regions) m
    kept m higher (low, at, below) =
        let more : base ≤ first_byte r = ground arith in
        (low, at, (inr (omega (arith, low, more)), below))
