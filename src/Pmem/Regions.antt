-- ===== src/Pmem/Regions.antt =====
-- kernel/pmem.c: the loops of brights_pmem_init over the regions of memory.
use bright_s.Base.{
  ℕ, zero, suc, ◌+◌, ◌-◌, ◌*◌, ◌/◌, ◌%◌, ◌≤◌, ◌<◌, ◌≡◌, refl, ap, subst, ◌∙◌, List, [], ◌∷◌, Bool,
  true, false, not, ◌&&◌, ◌||◌, ltb, leb, arith, Bool-cases, inl, inr,
}
use bright_s.Pmem.{
  Pmem, Region, max_pages, page_size, first_byte, end_byte, bitmap_test, released, bitmap_clear,
  succ64, free_from,
}
use bright_s.Pmem.Single.{Inv}
use bright_s.Pmem.Release.{Gave, released-Gave, same-Gave, Gave-trans, bitmap_test-past}
use bright_s.Pmem.Measure.{Fits, bytes-aligned}

-- The address lies in a page that is whole inside the region, or one of the regions.
abbrev pub within : Region → ℕ → Bool
within r a = leb (first_byte r) a && ltb a (end_byte r)

unfoldable pub within_any : List Region → ℕ → Bool
within_any [] a = false
within_any (r ∷ regions) a = within r a || within_any regions a

-- No page is in two of the regions.
unfoldable pub Apart : List Region → Type 0
Apart [] = Unit
Apart (r ∷ regions) = ((a : ℕ) → within r a ≡ true → within_any regions a ≡ false) × Apart regions

-- The loop over a region of pages that are all in use gives them all back.
free_from-Gave :
    (n addr end i : ℕ) (s : Pmem)
    → Inv s
    → addr ≡ s.base + i * page_size
    → end ≡ addr + n * page_size
    → ((j : ℕ) → i ≤ j → j < i + n → j < max_pages → bitmap_test s.bitmap j ≡ true)
    → Gave s (free_from n addr end s) i n
unfolding free_from
free_from-Gave zero addr end i s inv at to used = record {
  used = λ j. nothing j;
  same_base = refl;
  same_total = refl;
  inv = inv;
}
  where
    nothing :
        (j : ℕ)
        → bitmap_test s.bitmap j ≡ (bitmap_test s.bitmap j && not (leb i j && ltb j (i + 0)))
    nothing j = let e : (leb i j && ltb j (i + 0)) ≡ false = ground arith in ground arith
free_from-Gave (suc n) addr end i s inv at to used =
    let idx : (addr - s.base) / page_size ≡ i = omega arith in
    let goes : ltb addr end ≡ true = ground arith in
    rw (goes, free_from)
      (rw (idx, free_from)
        (elim (Bool-cases (ltb i max_pages)) [
          | inl inside ↦
              let one = released-Gave s i inv (ground arith) in
              let rest =
                free_from-Gave n (addr + page_size) end (i + 1) (released s i) one.inv
                  (omega (arith, one.same_base)) (omega arith)
                  (λ j h h' h''. one.used j ∙ still j h (used j (omega arith) (omega arith) h'')) in
              rw (inside, free_from)
                (subst (λ t. Gave s (free_from n (addr + page_size) end t) i (suc n))
                  (released_used (used i (omega arith) (omega arith) (ground arith)))
                  (Gave-trans s (released s i) _ i n one rest))
          | inr past ↦
              let one = same-Gave s i inv (bitmap_test-past s.bitmap i inv.bits (ground arith)) in
              rw (past, free_from)
                (Gave-trans s s _ i n one (
                  free_from-Gave n (addr + page_size) end (i + 1) s inv (omega arith) (omega arith)
                    (λ j h h' h''. used j (omega arith) (omega arith) h'')))
        ]))
  where
    still :
        (j : ℕ)
        → i + 1 ≤ j
        → bitmap_test s.bitmap j ≡ true
        → (bitmap_test s.bitmap j && not (leb i j && ltb j (i + 1))) ≡ true
    still j hj e = let past : ltb j (i + 1) ≡ false = ground arith in ground arith

    released_used :
        bitmap_test s.bitmap i ≡ true
        → released s i
          ≡ record s { bitmap = bitmap_clear s.bitmap i; free_pages = succ64 s.free_pages }
    released_used e = rw e refl

-- After the loop over the regions.
pub record Freed (regions : List Region) (s t : Pmem) : Type 0 where
  pub inv : Inv t
  pub same_base : t.base ≡ s.base
  pub same_total : t.total_pages ≡ s.total_pages
  pub used :
      (j : ℕ)
      → j < max_pages
      → bitmap_test t.bitmap j
        ≡ (bitmap_test s.bitmap j && not (within_any regions (s.base + j * page_size)))

-- All pages of the regions are in use.
abbrev pub Fresh : List Region → Pmem → Type 0
Fresh regions s =
    (j : ℕ)
    → j < max_pages
    → within_any regions (s.base + j * page_size) ≡ true
    → bitmap_test s.bitmap j ≡ true

pub region-Gave :
    (r : Region) (s : Pmem)
    → Fits r
    → Inv s
    → s.base % page_size ≡ 0
    → s.base ≤ first_byte r
    → first_byte r < end_byte r
    → ((j : ℕ)
        → j < max_pages
        → within r (s.base + j * page_size) ≡ true
        → bitmap_test s.bitmap j ≡ true)
    → let n = (end_byte r - first_byte r) / page_size in
      Freed (r ∷ []) s (free_from n (first_byte r) (end_byte r) s)
unfolding within_any
region-Gave r s fit inv aligned low some_page used =
    let (a, b) = bytes-aligned r fit in
    let i : ℕ = (first_byte r - s.base) / page_size in
    let n : ℕ = (end_byte r - first_byte r) / page_size in
    let from : first_byte r ≡ s.base + i * page_size = omega (arith, a) in
    let to : end_byte r ≡ first_byte r + n * page_size = omega (arith, a, b) in
    let gave =
      free_from-Gave n (first_byte r) (end_byte r) i s inv from to
        (λ j h h' h''. used j h'' (inside i n j from to h h')) in
    record {
      inv = gave.inv;
      same_base = gave.same_base;
      same_total = gave.same_total;
      used = λ j _. gave.used j ∙ ap (λ x. bitmap_test s.bitmap j && not x) (exactly i n j from to);
    }
  where
    inside :
        (i n j : ℕ)
        → first_byte r ≡ s.base + i * page_size
        → end_byte r ≡ first_byte r + n * page_size
        → i ≤ j
        → j < i + n
        → within r (s.base + j * page_size) ≡ true
    inside i n j from to h h' = place (first_byte r) (end_byte r) from to h h'
      where
        place :
            (f e : ℕ)
            → f ≡ s.base + i * page_size
            → e ≡ f + n * page_size
            → i ≤ j
            → j < i + n
            → (leb f (s.base + j * page_size) && ltb (s.base + j * page_size) e) ≡ true
        place f e from to h h' = ground arith

    exactly :
        (i n j : ℕ)
        → first_byte r ≡ s.base + i * page_size
        → end_byte r ≡ first_byte r + n * page_size
        → (leb i j && ltb j (i + n)) ≡ (within r (s.base + j * page_size) || false)
    exactly i n j from to = place (first_byte r) (end_byte r) from to
      where
        place :
            (f e : ℕ)
            → f ≡ s.base + i * page_size
            → e ≡ f + n * page_size
            → (leb i j && ltb j (i + n))
              ≡ ((leb f (s.base + j * page_size) && ltb (s.base + j * page_size) e) || false)
        place f e from to = ground arith
