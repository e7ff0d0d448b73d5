-- ===== src/Pmem/Boot.antt =====
-- kernel/pmem.c: what brights_pmem_init leaves free.
use bright_s.Base.{
  ℕ, ◌+◌, ◌-◌, ◌*◌, ◌%◌, ◌^◌, ◌≤◌, ◌<◌, ◌≡◌, ◌≢◌, ◌⊎◌, refl, sym, ap, ap₂, ◌∙◌, List, Bool, true,
  false, not, ◌&&◌, ◌||◌, ◌==◌, ltb, leb, if◌then◌else◌, arith, inl, inr,
}
use bright_s.Base.Members.{All}
use bright_s.Pmem.{
  Pmem, Region, max_pages, page_size, bitmap_test, measure, free_regions, reserve_from, init,
}
use bright_s.Pmem.Single.{Inv}
use bright_s.Pmem.Measure.{Fits, Below, Measured, measure_lem}
use bright_s.Pmem.Regions.{within_any, Apart, Freed}
use bright_s.Pmem.Init.{free_regions-Freed}
use bright_s.Pmem.Used.{bitmap_test-all_used, start, start-Inv}
use bright_s.Pmem.Reserve.{Reserved, reserve_from-Reserved, limit, reserved}

free_where :
    (regions : List Region) (s1 s2 t : Pmem)
    → ((j : ℕ) → j < max_pages → bitmap_test s1.bitmap j ≡ true)
    → Freed regions s1 s2
    → Reserved 0 s2 t
    → (j : ℕ) → j < max_pages
    → let a = t.base + j * page_size in
      not (bitmap_test t.bitmap j) ≡ (within_any regions a && not (reserved (limit t) a))
free_where regions s1 s2 t used freed res j h =
    let same : limit t ≡ limit s2 =
      ap₂ (λ x y. (x + y * page_size) % 2 ^ 64) res.same_base res.same_total in
    ap not (res.used j h)
    ∙ (ap
          (λ x.
            not (
              x
              || leb 0 (s2.base + j * page_size) && reserved (limit s2) (s2.base + j * page_size)))
          (freed.used j h)
        ∙ (ap₂
              (λ x y. not (
                (x && not y)
                || leb 0 (s2.base + j * page_size)
                  && reserved (limit s2) (s2.base + j * page_size)))
              (used j h) (ap (λ b. within_any regions (b + j * page_size)) (sym freed.same_base))
            ∙ (flat (within_any regions (s2.base + j * page_size)) (s2.base + j * page_size)
                  (reserved (limit s2) (s2.base + j * page_size))
                ∙ ap₂
                    (λ b l.
                      within_any regions (b + j * page_size)
                      && not (reserved l (b + j * page_size)))
                    (sym res.same_base) (sym same))))
  where
    flat : (x : Bool) (a : ℕ) (y : Bool) → not ((true && not x) || leb 0 a && y) ≡ (x && not y)
    flat x a y = let e : leb 0 a ≡ true = ground arith in ground arith

-- For regions of memory that no page is in two of, that end a page before 2^64 at least and of
-- which one has a whole page, brights_pmem_init makes free, of the pages that the bitmap has
-- from the base on, exactly those that lie whole in a region and that the loop for the first
-- megabyte leaves, which is those at or above a megabyte and those at or above the end of as
-- many pages as it counted; and pmem_free_pages is their number.
pub init_lem :
    (regions : List Region) (s : Pmem)
    → All Fits regions
    → Apart regions
    → (measure regions (2 ^ 64 - 1) 0).0 ≢ 2 ^ 64 - 1
    → let t = init regions s in
      Inv t
      × ((j : ℕ)
          → j < max_pages
          → let a = t.base + j * page_size in
            not (bitmap_test t.bitmap j) ≡ (within_any regions a && not (reserved (limit t) a)))
unfolding init Measured
init_lem regions s fits apart some_page =
    let m = measure regions (2 ^ 64 - 1) 0 in
    let capped : ℕ = if ltb max_pages m.1 then max_pages else m.1 in
    let s1 : Pmem = start m.0 capped in
    let s2 : Pmem = free_regions regions s1 in
    let goes : (m.0 == 2 ^ 64 - 1) ≡ false = ground arith in
    let (low, at, below) = measured (measure_lem regions (2 ^ 64 - 1) 0 fits) in
    let aligned : m.0 % page_size ≡ 0 = boundary at in
    let freed : Freed regions s1 s2 =
      free_regions-Freed regions s1 fits apart (start-Inv m.0 capped) aligned below
        (λ j h w. bitmap_test-all_used j h) in
    let res =
      reserve_from-Reserved 256 0 s2 freed.inv (ap (λ b. b % page_size) freed.same_base ∙ aligned)
        refl (omega arith) in
    rw (goes, init)
      (res.inv, free_where regions s1 s2 (reserve_from 256 0 s2) bitmap_test-all_used freed res)
  where
    measured :
        Measured (2 ^ 64 - 1) regions (measure regions (2 ^ 64 - 1) 0)
        → ((measure regions (2 ^ 64 - 1) 0).0 ≤ 2 ^ 64 - 1)
          × (((measure regions (2 ^ 64 - 1) 0).0 ≡ 2 ^ 64 - 1)
              ⊎ ((measure regions (2 ^ 64 - 1) 0).0 % page_size ≡ 0))
          × Below (measure regions (2 ^ 64 - 1) 0).0 regions
    measured h = h

    boundary :
        ((measure regions (2 ^ 64 - 1) 0).0 ≡ 2 ^ 64 - 1)
          ⊎ ((measure regions (2 ^ 64 - 1) 0).0 % page_size ≡ 0)
        → (measure regions (2 ^ 64 - 1) 0).0 % page_size ≡ 0
    boundary (inl e) = absurd (some_page e)
    boundary (inr e) = e
