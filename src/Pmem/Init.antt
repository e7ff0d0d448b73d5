-- ===== src/Pmem/Init.antt =====
-- kernel/pmem.c: the second loop of brights_pmem_init over the regions.
use bright_s.Base.{
  ℕ, ◌+◌, ◌-◌, ◌*◌, ◌/◌, ◌%◌, ◌≤◌, ◌<◌, ◌≡◌, ◌⊎◌, refl, sym, ap, subst, ◌∙◌, List, [], ◌∷◌, Bool,
  true, false, not, ◌&&◌, ◌||◌, ltb, leb, arith, Bool-cases, inl, inr,
}
use bright_s.Base.Members.{All}
use bright_s.Pmem.{
  Pmem, Region, max_pages, page_size, first_byte, end_byte, bitmap_test, free_from, free_regions,
}
use bright_s.Pmem.Single.{Inv}
use bright_s.Pmem.Measure.{Fits, Below}
use bright_s.Pmem.Regions.{within, within_any, Apart, Freed, Fresh, region-Gave}

Freed-none : (s : Pmem) → Inv s → Freed [] s s
unfolding within_any
Freed-none s inv = record { inv = inv; same_base = refl; same_total = refl; used = λ j _. keep j }
  where
    keep : (j : ℕ) → bitmap_test s.bitmap j ≡ (bitmap_test s.bitmap j && true)
    keep j = ground arith

Freed-cons :
    (r : Region) (regions : List Region) (s t u : Pmem)
    → Freed (r ∷ []) s t
    → Freed regions t u
    → Freed (r ∷ regions) s u
unfolding within_any
Freed-cons r regions s t u a b = record {
  inv = b.inv;
  same_base = b.same_base ∙ a.same_base;
  same_total = b.same_total ∙ a.same_total;
  used = λ j h.
      b.used j h
      ∙ (ap (λ x. bitmap_test t.bitmap j && not (within_any regions (x + j * page_size)))
            a.same_base
          ∙ (ap (λ x. x && not (within_any regions (s.base + j * page_size))) (a.used j h)
              ∙ joined (within r (s.base + j * page_size)) (bitmap_test s.bitmap j)
                  (within_any regions (s.base + j * page_size))));
}
  where
    joined : (x y z : Bool) → ((y && not (x || false)) && not z) ≡ (y && not (x || z))
    joined x y z = ground arith

-- A region without a whole page changes nothing.
Freed-skip :
    (r : Region) (regions : List Region) (s t : Pmem)
    → leb (end_byte r) (first_byte r) ≡ true
    → Freed regions s t
    → Freed (r ∷ regions) s t
unfolding within_any
Freed-skip r regions s t empty a = record {
  inv = a.inv;
  same_base = a.same_base;
  same_total = a.same_total;
  used =
      λ j h. a.used j h ∙ ap (λ x. bitmap_test s.bitmap j && not x) (out (s.base + j * page_size));
}
  where
    out : (a : ℕ) → within_any regions a ≡ (within r a || within_any regions a)
    out a = outside (first_byte r) (end_byte r) empty a
      where
        outside :
            (f e : ℕ)
            → leb e f ≡ true
            → (a : ℕ) → within_any regions a ≡ ((leb f a && ltb a e) || within_any regions a)
        outside f e h a = let miss : (leb f a && ltb a e) ≡ false = ground arith in ground arith

pub free_regions-Freed :
    (regions : List Region) (s : Pmem)
    → All Fits regions
    → Apart regions
    → Inv s
    → s.base % page_size ≡ 0
    → Below s.base regions
    → Fresh regions s
    → Freed regions s (free_regions regions s)
unfolding free_regions within_any Apart
free_regions-Freed [] s fits apart inv aligned below fresh = Freed-none s inv
free_regions-Freed (r ∷ regions) s (fit, fits) (alone, apart) inv aligned (low, below) fresh =
    elim (Bool-cases (leb (end_byte r) (first_byte r))) [
      | inl empty ↦
          rw (empty, free_regions)
            (Freed-skip r regions s _ empty (
              free_regions-Freed regions s fits apart inv aligned below
                (λ j h w. fresh j h (right (within r (s.base + j * page_size)) _ w))))
      | inr some_page ↦
          let t : Pmem =
            free_from ((end_byte r - first_byte r) / page_size) (first_byte r) (end_byte r) s in
          let one : Freed (r ∷ []) s t =
            region-Gave r s fit inv aligned (lower low some_page) (longer some_page) (λ j h w.
              fresh j h (
                left (within r (s.base + j * page_size))
                  (within_any regions (s.base + j * page_size)) w)) in
          rw (some_page, free_regions)
            (Freed-cons r regions s t (free_regions regions t) one (
              free_regions-Freed regions t fits apart one.inv
                (ap (λ b. b % page_size) one.same_base ∙ aligned)
                (subst (λ b. Below b regions) (sym one.same_base) below)
                (λ j h w.
                  still t.bitmap j
                    (ap (λ b. within_any regions (b + j * page_size)) (sym one.same_base) ∙ w) h
                    (one.used j h))))
    ]
  where
    left : (x y : Bool) → x ≡ true → (x || y) ≡ true
    left x y e = ground arith

    right : (x y : Bool) → y ≡ true → (x || y) ≡ true
    right x y e = ground arith

    longer : leb (end_byte r) (first_byte r) ≡ false → first_byte r < end_byte r
    longer e = ground arith

    lower :
        (leb (end_byte r) (first_byte r) ≡ true) ⊎ (s.base ≤ first_byte r)
        → leb (end_byte r) (first_byte r) ≡ false
        → s.base ≤ first_byte r
    lower (inl e) h = absurd (ground arith)
    lower (inr e) h = e

    still :
        (b : List ℕ) (j : ℕ)
        → within_any regions (s.base + j * page_size) ≡ true
        → j < max_pages
        → bitmap_test b j
          ≡ (bitmap_test s.bitmap j && not (within r (s.base + j * page_size) || false))
        → bitmap_test b j ≡ true
    still b j w h e =
        let was : bitmap_test s.bitmap j ≡ true =
          fresh j h (right (within r (s.base + j * page_size)) _ w) in
        let out : within r (s.base + j * page_size) ≡ false =
          elim (Bool-cases (within r (s.base + j * page_size))) [
            | inl also ↦
                let no : within_any regions (s.base + j * page_size) ≡ false = alone _ also in
                absurd (clash w no)
            | inr out ↦ out
          ] in
        e
        ∙ (ap (λ x. bitmap_test s.bitmap j && not (x || false)) out
            ∙ (ap (λ x. x && not (false || false)) was ∙ refl))
      where
        clash : {x : Bool} → x ≡ true → x ≡ false → ⊥
        clash a b = ground arith
