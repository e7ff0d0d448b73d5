-- ===== src/Pmem/Undo.antt =====
-- kernel/pmem.c: giving back what was just taken restores the state.
use native.Mathlib.Decide.{dec_lt}
use bright_s.Base.{
  ℕ, ◌+◌, ◌-◌, ◌*◌, ◌/◌, ◌^◌, ◌≤◌, ◌<◌, ◌≡◌, ◌≢◌, ◌⊎◌, refl, sym, ap, ap₂, subst, ◌∙◌, List, true,
  false, not, ◌&&◌, ◌||◌, ◌==◌, ltb, leb, arith, Bool-cases, inl, inr,
}
use bright_s.Pmem.{
  Pmem, max_pages, page_size, page_addr, bitmap_test, free_page, free_pages, alloc_page,
  alloc_pages,
}
use bright_s.Pmem.Bits.{bitmap_ext, free_among}
use bright_s.Pmem.Single.{Inv, Took, alloc_page_lem}
use bright_s.Pmem.Release.{Gave, released-Gave, free_run-Gave}
use bright_s.Pmem.Runs.{Free, alloc_pages_lem}

-- A state is its bitmap and where it lies, if the count is right.
Pmem_ext :
    (s t : Pmem)
    → Inv s
    → Inv t
    → t.base ≡ s.base
    → t.total_pages ≡ s.total_pages
    → ((j : ℕ) → bitmap_test t.bitmap j ≡ bitmap_test s.bitmap j)
    → t ≡ s
Pmem_ext s t hs ht base total same =
    let b : t.bitmap ≡ s.bitmap = bitmap_ext t.bitmap s.bitmap ht.bits hs.bits (λ j _. same j) in
    let f : t.free_pages ≡ s.free_pages =
      ht.counted ∙ (ap (free_among max_pages) b ∙ sym hs.counted) in
    ap₂ (λ x y. record t { bitmap = x; free_pages = y }) b f
    ∙ ap₂ (λ x y. record s { base = x; total_pages = y }) base total

-- Giving back exactly what was taken.
Took-Gave :
    (s t u : Pmem) (i n : ℕ)
    → Inv s
    → ((j : ℕ) → i ≤ j → j < i + n → bitmap_test s.bitmap j ≡ false)
    → Took s t i n
    → Gave t u i n
    → u ≡ s
Took-Gave s t u i n inv free a b =
    Pmem_ext s u inv b.inv (b.same_base ∙ a.same_base) (b.same_total ∙ a.same_total)
      (λ j. b.used j ∙ (ap (λ x. x && not (leb i j && ltb j (i + n))) (a.used j) ∙ back j))
  where
    back :
        (j : ℕ)
        → ((bitmap_test s.bitmap j || leb i j && ltb j (i + n)) && not (leb i j && ltb j (i + n)))
          ≡ bitmap_test s.bitmap j
    back j = elim (Bool-cases (leb i j && ltb j (i + n))) [
      | inl within ↦
          let e : bitmap_test s.bitmap j ≡ false = free j (ground arith) (ground arith) in
          ground arith
      | inr without ↦ ground arith
    ]

-- The place of a page in memory names it again.
page_addr_index :
    (s : Pmem) (i : ℕ)
    → i < max_pages
    → s.base + max_pages * page_size ≤ 2 ^ 64
    → (page_addr s i - s.base) / page_size ≡ i
page_addr_index s i h fits = omega arith

pub free_page_lem :
    (s t : Pmem) (i : ℕ)
    → Inv t
    → i < max_pages
    → t.base ≡ s.base
    → s.base + max_pages * page_size ≤ 2 ^ 64
    → page_addr s i ≢ 0
    → Gave t (free_page t (page_addr s i)) i 1
unfolding free_page
free_page_lem s t i inv hi same fits some_addr =
    let e : (page_addr s i - t.base) / page_size ≡ i =
      ap (λ b. (page_addr s i - b) / page_size) same ∙ page_addr_index s i hi fits in
    let goes : (page_addr s i == 0 || (ltb (page_addr s i) t.base || leb max_pages i)) ≡ false =
      guard in
    rw (e, free_page) (rw (goes, free_page) (released-Gave t i inv hi))
  where
    guard : (page_addr s i == 0 || (ltb (page_addr s i) t.base || leb max_pages i)) ≡ false
    guard = ground arith

free_pages_lem :
    (s t : Pmem) (i n : ℕ)
    → Inv t
    → i < max_pages
    → t.base ≡ s.base
    → 0 < n
    → s.base + max_pages * page_size ≤ 2 ^ 64
    → page_addr s i ≢ 0
    → Gave t (free_pages t (page_addr s i) n) i n
unfolding free_pages
free_pages_lem s t i n inv hi same many fits some_addr =
    let e : (page_addr s i - t.base) / page_size ≡ i =
      ap (λ b. (page_addr s i - b) / page_size) same ∙ page_addr_index s i hi fits in
    rw (e, free_pages) (rw (guard, free_pages) (free_run-Gave n i t inv))
  where
    guard : (page_addr s i == 0 || (n == 0 || ltb (page_addr s i) t.base)) ≡ false
    guard = ground arith

Free-elim :
    (b : List ℕ) (i n : ℕ) → Free b i n → (j : ℕ) → i ≤ j → j < i + n → bitmap_test b j ≡ false
unfolding Free
Free-elim b i n free = free

one-Free : (b : List ℕ) (i count : ℕ) → count ≡ 1 → bitmap_test b i ≡ false → Free b i count
unfolding Free
one-Free b i count one free j h h' =
    let e : i ≡ j = omega arith in sym (ap (bitmap_test b) e) ∙ free

alloc_pages-one : (s : Pmem) → alloc_pages s 1 ≡ alloc_page s
unfolding alloc_pages
alloc_pages-one s = refl

alloc_pages-outcome :
    (s : Pmem) (count : ℕ)
    → Inv s
    → 0 < count
    → ((i : ℕ) × (i + count ≤ max_pages)
        × Free s.bitmap i count
        × ((alloc_pages s count).0 ≡ page_addr s i)
        × Took s (alloc_pages s count).1 i count)
      ⊎ (alloc_pages s count ≡ (0, s))
alloc_pages-outcome s count inv some_pages = elim (dec_lt 1 count) [
  | yes many ↦ of_many (alloc_pages_lem s count inv many)
  | no one ↦ of_one (only_one (omega arith)) (alloc_page_lem s inv)
]
  where
    of_many :
        ((r : ℕ) × (r + count ≤ max_pages)
            × Free s.bitmap r count
            × ((q : ℕ) → q < r → ¬ Free s.bitmap q count)
            × ((alloc_pages s count).0 ≡ page_addr s r)
            × Took s (alloc_pages s count).1 r count)
          ⊎ (((q : ℕ) → q + count ≤ max_pages → ¬ Free s.bitmap q count)
              × (alloc_pages s count ≡ (0, s)))
        → ((i : ℕ) × (i + count ≤ max_pages)
            × Free s.bitmap i count
            × ((alloc_pages s count).0 ≡ page_addr s i)
            × Took s (alloc_pages s count).1 i count)
          ⊎ (alloc_pages s count ≡ (0, s))
    of_many (inl (r, fits, free, before, at, took)) = inl (r, fits, free, at, took)
    of_many (inr (nowhere, e)) = inr e

    only_one : count ≡ 1 → (alloc_pages s count ≡ alloc_page s) × (count ≡ 1)
    only_one e = (ap (alloc_pages s) e ∙ alloc_pages-one s, e)

    of_one :
        (alloc_pages s count ≡ alloc_page s) × (count ≡ 1)
        → ((i : ℕ) × (i < max_pages)
            × (i < s.total_pages)
            × (bitmap_test s.bitmap i ≡ false)
            × ((j : ℕ) → j < i → bitmap_test s.bitmap j ≡ true)
            × ((alloc_page s).0 ≡ page_addr s i)
            × Took s (alloc_page s).1 i 1)
          ⊎ (((j : ℕ) → j < s.total_pages → j < max_pages → bitmap_test s.bitmap j ≡ true)
              × (alloc_page s ≡ (0, s)))
        → ((i : ℕ) × (i + count ≤ max_pages)
            × Free s.bitmap i count
            × ((alloc_pages s count).0 ≡ page_addr s i)
            × Took s (alloc_pages s count).1 i count)
          ⊎ (alloc_pages s count ≡ (0, s))
    of_one (e, one) (inl (i, inside, total, free, before, at, took)) = inl (
      i,
      omega arith,
      one-Free s.bitmap i count one free,
      ap (λ r. r.0) e ∙ at,
      subst (Took s (alloc_pages s count).1 i) (sym one) (subst (λ r. Took s r.1 i 1) (sym e) took),
    )
    of_one (e, one) (inr (full, nothing)) = inr (e ∙ nothing)

-- Where pmem_free_pages is the number of the clear bits and no address of the bitmap's range
-- passes 2^64, brights_pmem_free_pages of the pages that brights_pmem_alloc_pages returned, one
-- or more, gives back the very state.
pub free_pages-alloc_pages :
    (s : Pmem) (count : ℕ)
    → Inv s
    → 0 < count
    → s.base + max_pages * page_size ≤ 2 ^ 64
    → (alloc_pages s count).0 ≢ 0
    → free_pages (alloc_pages s count).1 (alloc_pages s count).0 count ≡ s
free_pages-alloc_pages s count inv many fits some_addr =
    go (alloc_pages s count) some_addr (alloc_pages-outcome s count inv many)
  where
    go :
        (r : ℕ × Pmem)
        → r.0 ≢ 0
        → ((i : ℕ) × (i + count ≤ max_pages)
            × Free s.bitmap i count
            × (r.0 ≡ page_addr s i)
            × Took s r.1 i count)
          ⊎ (r ≡ (0, s))
        → free_pages r.1 r.0 count ≡ s
    go r some_addr (inr e) = absurd (some_addr (ap (λ x. x.0) e))
    go r some_addr (inl (i, inside, free, at, took)) =
        ap (λ a. free_pages r.1 a count) at
        ∙ Took-Gave s r.1 (free_pages r.1 (page_addr s i) count) i count inv
            (Free-elim s.bitmap i count free) took
            (free_pages_lem s r.1 i count took.inv (omega arith) took.same_base many fits
              (λ e. some_addr (at ∙ e)))

-- The same for brights_pmem_alloc_page and brights_pmem_free_page.
pub free_page-alloc_page :
    (s : Pmem)
    → Inv s
    → s.base + max_pages * page_size ≤ 2 ^ 64
    → (alloc_page s).0 ≢ 0
    → free_page (alloc_page s).1 (alloc_page s).0 ≡ s
free_page-alloc_page s inv fits some_addr = go (alloc_page s) some_addr (alloc_page_lem s inv)
  where
    go :
        (r : ℕ × Pmem)
        → r.0 ≢ 0
        → ((i : ℕ) × (i < max_pages)
            × (i < s.total_pages)
            × (bitmap_test s.bitmap i ≡ false)
            × ((j : ℕ) → j < i → bitmap_test s.bitmap j ≡ true)
            × (r.0 ≡ page_addr s i)
            × Took s r.1 i 1)
          ⊎ (((j : ℕ) → j < s.total_pages → j < max_pages → bitmap_test s.bitmap j ≡ true)
              × (r ≡ (0, s)))
        → free_page r.1 r.0 ≡ s
    go r some_addr (inr (full, e)) = absurd (some_addr (ap (λ x. x.0) e))
    go r some_addr (inl (i, inside, total, free, before, at, took)) =
        ap (free_page r.1) at
        ∙ Took-Gave s r.1 (free_page r.1 (page_addr s i)) i 1 inv
            (λ j h h'. let e : i ≡ j = omega arith in sym (ap (bitmap_test s.bitmap) e) ∙ free) took
            (free_page_lem s r.1 i took.inv inside took.same_base fits (λ e. some_addr (at ∙ e)))
