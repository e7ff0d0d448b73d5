-- ===== src/Pmem/Single.antt =====
-- kernel/pmem.c: brights_pmem_alloc_page takes the first free page.
use native.Mathlib.Decide.{dec_lt}
use bright_s.Base.{
  ℕ, ◌+◌, ◌-◌, ◌*◌, ◌/◌, ◌%◌, ◌^◌, ◌≤◌, ◌<◌, ◌≡◌, ◌⊎◌, refl, sym, ap, ap₂, subst, ◌∙◌, List, Bool,
  true, false, not, ◌&&◌, ◌||◌, ◌==◌, ltb, leb, if◌then◌else◌, length, get_or, arith, Bool-cases,
  Option-cases, inl, inr,
}
use bright_s.Word.{bit, complement, lowest, lowest_lem, bit-ones, bit-complement}
use bright_s.Pmem.{
  Pmem, max_pages, page_addr, bitmap_test, bitmap_set, find_word, alloc_page, take_page, taken,
  pred64,
}
use bright_s.Pmem.Bits.{
  IsBitmap, bitmap_set-IsBitmap, bitmap_test-set, free_among, free_among_le, free_among-taken,
}
use bright_s.Pmem.Scan.{find_word_lem, find_word-none}

-- The bitmap is whole, and `pmem_free_pages` is the number of its clear bits.
pub record Inv (s : Pmem) : Type 0 where
  pub bits : IsBitmap s.bitmap
  pub counted : s.free_pages ≡ free_among max_pages s.bitmap

-- From s to s', the pages from `first` on, n of them, were taken.
pub record Took (s s' : Pmem) (first n : ℕ) : Type 0 where
  pub used :
      (j : ℕ)
      → bitmap_test s'.bitmap j ≡ (bitmap_test s.bitmap j || leb first j && ltb j (first + n))
  pub same_base : s'.base ≡ s.base
  pub same_total : s'.total_pages ≡ s.total_pages
  pub free : s'.free_pages + n ≡ s.free_pages
  pub inv : Inv s'

full_word : (b : List ℕ) (j : ℕ) → get_or b (j / 64) 0 ≡ 2 ^ 64 - 1 → bitmap_test b j ≡ true
unfolding bitmap_test
full_word b j e = ap (λ w. bit w (j % 64)) e ∙ (bit-ones 64 (j % 64) ∙ below)
  where
    below : ltb (j % 64) 64 ≡ true
    below = ground arith

-- Taking a free page.
pub taken-Took :
    (s : Pmem) (i : ℕ)
    → Inv s
    → i < max_pages
    → bitmap_test s.bitmap i ≡ false
    → Took s (taken s i) i 1
taken-Took s i inv hi free =
    let c : List ℕ = bitmap_set s.bitmap i in
    let test = λ (j : ℕ). bitmap_test-set s.bitmap i j inv.bits hi in
    let fewer = free_among-taken max_pages s.bitmap c i free test in
    let inside : ltb i max_pages ≡ true = ground arith in
    let less : free_among max_pages c + 1 ≡ free_among max_pages s.bitmap =
      sym (ap (λ x. free_among max_pages c + (if x then 1 else 0)) inside) ∙ fewer in
    let step : pred64 s.free_pages ≡ free_among max_pages c =
      down s.free_pages (free_among max_pages c) (less ∙ sym inv.counted)
        (free_among_le max_pages c) in
    record {
      used = λ j. test j ∙ ap (λ x. bitmap_test s.bitmap j || x) (one j);
      same_base = refl;
      same_total = refl;
      free = ap (λ x. x + 1) step ∙ (less ∙ sym inv.counted);
      inv = record { bits = bitmap_set-IsBitmap s.bitmap i inv.bits hi; counted = step };
    }
  where
    one : (j : ℕ) → (i == j) ≡ (leb i j && ltb j (i + 1))
    one j = ground arith

    down : (x y : ℕ) → y + 1 ≡ x → y ≤ max_pages → pred64 x ≡ y
    down x y e h = omega arith

-- The first clear bit of a word that has one.
first_clear :
    (w : ℕ)
    → w < 2 ^ 64 - 1
    → let d = lowest 64 (complement 64 w) in
      (d < 64) × (bit w d ≡ false) × ((m : ℕ) → m < d → bit w m ≡ true)
first_clear w h =
    let (inside, l) = lowest_lem 64 (complement 64 w) (omega arith) (λ e. omega arith) in
    (
      inside,
      flip (sym (bit-complement 64 w _ (omega arith) inside) ∙ l.is_set),
      λ m hm. flop (sym (bit-complement 64 w m (omega arith) (omega arith)) ∙ l.below m hm),
    )
  where
    flip : {b : Bool} → not b ≡ true → b ≡ false
    flip e = ground arith

    flop : {b : Bool} → not b ≡ false → b ≡ true
    flop e = ground arith

-- The page that the scan stops at.
first_free :
    (s : Pmem) (i : ℕ)
    → Inv s
    → i < length s.bitmap
    → get_or s.bitmap i 0 < 2 ^ 64 - 1
    → ((m : ℕ) → m < i → 2 ^ 64 - 1 ≤ get_or s.bitmap m 0)
    → let idx = i * 64 + lowest 64 (complement 64 (get_or s.bitmap i 0)) in
      (idx < max_pages)
      × (bitmap_test s.bitmap idx ≡ false)
      × ((j : ℕ) → j < idx → bitmap_test s.bitmap j ≡ true)
unfolding bitmap_test
first_free s i inv inside low before =
    let (small, clear, below) = first_clear (get_or s.bitmap i 0) low in at _ small clear below
  where
    at :
        (d : ℕ)
        → d < 64
        → bit (get_or s.bitmap i 0) d ≡ false
        → ((m : ℕ) → m < d → bit (get_or s.bitmap i 0) m ≡ true)
        → (i * 64 + d < max_pages)
          × (bitmap_test s.bitmap (i * 64 + d) ≡ false)
          × ((j : ℕ) → j < i * 64 + d → bitmap_test s.bitmap j ≡ true)
    at d small clear below =
        let word : (i * 64 + d) / 64 ≡ i = omega arith in
        let place : (i * 64 + d) % 64 ≡ d = omega arith in
        (
          omega (arith, inv.bits.size),
          ap₂ (λ w k. bit (get_or s.bitmap w 0) k) word place ∙ clear,
          λ j hj. elim (dec_lt (j / 64) i) [
            | yes earlier ↦
                full_word s.bitmap j
                  (omega (arith, before (j / 64) earlier, inv.bits.word (j / 64)))
            | no later ↦
                let e : j / 64 ≡ i = omega arith in
                ap (λ w. bit (get_or s.bitmap w 0) (j % 64)) e ∙ below (j % 64) (omega arith)
          ],
        )

-- When pmem_free_pages is the number of the clear bits of the bitmap, brights_pmem_alloc_page
-- takes the first of the free pages if it lies below pmem_total_pages: it returns its address,
-- marks it and no other, and counts it. Otherwise it returns null and changes nothing, and then
-- no page below pmem_total_pages is free.
pub alloc_page_lem :
    (s : Pmem)
    → Inv s
    → ((i : ℕ) × (i < max_pages)
        × (i < s.total_pages)
        × (bitmap_test s.bitmap i ≡ false)
        × ((j : ℕ) → j < i → bitmap_test s.bitmap j ≡ true)
        × ((alloc_page s).0 ≡ page_addr s i)
        × Took s (alloc_page s).1 i 1)
      ⊎ (((j : ℕ) → j < s.total_pages → j < max_pages → bitmap_test s.bitmap j ≡ true)
          × (alloc_page s ≡ (0, s)))
unfolding alloc_page take_page
alloc_page_lem s inv = elim (Option-cases (find_word 0 s.bitmap)) [
  | inl e ↦ inr (
    λ j hj hm. full_word s.bitmap j (
        omega (
          arith,
          find_word-none 0 s.bitmap e (j / 64) (omega (arith, inv.bits.size)),
          inv.bits.word (j / 64),
        )),
    rw (e, alloc_page) refl,
  )
  | inr (i, e) ↦
      let (j, at, inside, low, before) = find_word_lem 0 s.bitmap i e in
      let same : j ≡ i = omega arith in
      rw (e, alloc_page)
        (subst (λ x. Outcome (x * 64 + lowest 64 (complement 64 (get_or s.bitmap x 0)))) same
          (decide _ (first_free s j inv inside low before)))
]
  where
    Outcome : ℕ → Type 0
    Outcome idx =
        ((i : ℕ) × (i < max_pages)
          × (i < s.total_pages)
          × (bitmap_test s.bitmap i ≡ false)
          × ((j : ℕ) → j < i → bitmap_test s.bitmap j ≡ true)
          × ((take_page s idx).0 ≡ page_addr s i)
          × Took s (take_page s idx).1 i 1)
        ⊎ (((j : ℕ) → j < s.total_pages → j < max_pages → bitmap_test s.bitmap j ≡ true)
            × (take_page s idx ≡ (0, s)))

    decide :
        (idx : ℕ)
        → (idx < max_pages)
          × (bitmap_test s.bitmap idx ≡ false)
          × ((j : ℕ) → j < idx → bitmap_test s.bitmap j ≡ true)
        → Outcome idx
    decide idx (inside, free, before) = elim (Bool-cases (leb s.total_pages idx)) [
      | inl past ↦ inr (λ j hj hm. before j (ground arith), rw (past, take_page) refl)
      | inr within ↦ inl (
        idx,
        inside,
        ground arith,
        free,
        before,
        rw (within, take_page) refl,
        rw (within, take_page) (taken-Took s idx inv inside free),
      )
    ]
