-- ===== src/Pmem/Release.antt =====
-- kernel/pmem.c: brights_pmem_free_page and brights_pmem_free_pages give pages back.
use bright_s.Base.{
  ℕ, zero, suc, ◌+◌, ◌/◌, ◌%◌, ◌≤◌, ◌<◌, ◌≡◌, refl, sym, ap, ◌∙◌, List, [], ◌∷◌, true, false, not,
  ◌&&◌, ◌||◌, ◌==◌, ltb, leb, if◌then◌else◌, arith, length, get_or, Bool-cases, inl, inr,
}
use bright_s.Word.{bit, bit-zero}
use bright_s.Pmem.{Pmem, max_pages, bitmap_test, bitmap_clear, released, free_run, succ64}
use bright_s.Pmem.Bits.{
  IsBitmap, bitmap_clear-IsBitmap, bitmap_test-clear, free_among, free_among_le, free_among-taken,
}
use bright_s.Pmem.Single.{Inv}

-- From s to s', the pages from `first` on, n of them, were given back.
pub record Gave (s s' : Pmem) (first n : ℕ) : Type 0 where
  pub used :
      (j : ℕ)
      → bitmap_test s'.bitmap j ≡ (bitmap_test s.bitmap j && not (leb first j && ltb j (first + n)))
  pub same_base : s'.base ≡ s.base
  pub same_total : s'.total_pages ≡ s.total_pages
  pub inv : Inv s'

get_or-past : (b : List ℕ) (i : ℕ) → length b ≤ i → get_or b i 0 ≡ 0
get_or-past [] i h = refl
get_or-past (x ∷ b) zero h = absurd (omega arith)
get_or-past (x ∷ b) (suc i) h = get_or-past b i (omega arith)

-- No page at or above the end of the bitmap is in use.
pub bitmap_test-past : (b : List ℕ) (j : ℕ) → IsBitmap b → max_pages ≤ j → bitmap_test b j ≡ false
unfolding bitmap_test
bitmap_test-past b j h past =
    ap (λ w. bit w (j % 64)) (get_or-past b (j / 64) (omega (arith, h.size))) ∙ bit-zero (j % 64)

-- One page of which nothing is to be done.
pub same-Gave : (s : Pmem) (i : ℕ) → Inv s → bitmap_test s.bitmap i ≡ false → Gave s s i 1
same-Gave s i inv free = record {
  used = λ j. elim (Bool-cases (i == j)) [
    | inl here ↦
        let e : i ≡ j = ground arith in
        let clear : bitmap_test s.bitmap j ≡ false = sym (ap (bitmap_test s.bitmap) e) ∙ free in
        ground arith
    | inr there ↦ apart j there
  ];
  same_base = refl;
  same_total = refl;
  inv = inv;
}
  where
    apart :
        (j : ℕ)
        → (i == j) ≡ false
        → bitmap_test s.bitmap j ≡ (bitmap_test s.bitmap j && not (leb i j && ltb j (i + 1)))
    apart j e = let out : (leb i j && ltb j (i + 1)) ≡ false = ground arith in ground arith

pub released-Gave : (s : Pmem) (i : ℕ) → Inv s → i < max_pages → Gave s (released s i) i 1
released-Gave s i inv hi = elim (Bool-cases (bitmap_test s.bitmap i)) [
  | inr free ↦ rw free (same-Gave s i inv free)
  | inl used ↦
      let c : List ℕ = bitmap_clear s.bitmap i in
      let test = λ (j : ℕ). bitmap_test-clear s.bitmap i j inv.bits hi in
      let clear : bitmap_test c i ≡ false = test i ∙ gone i in
      let more = free_among-taken max_pages c s.bitmap i clear (λ j. back j used (test j)) in
      let inside : ltb i max_pages ≡ true = ground arith in
      let up : free_among max_pages s.bitmap + 1 ≡ free_among max_pages c =
        sym (ap (λ x. free_among max_pages s.bitmap + (if x then 1 else 0)) inside) ∙ more in
      rw used (record {
        used = λ j. test j ∙ ap (λ x. bitmap_test s.bitmap j && not x) (one j);
        same_base = refl;
        same_total = refl;
        inv = record {
          bits = bitmap_clear-IsBitmap s.bitmap i inv.bits hi;
          counted = step (free_among max_pages c) (up' up inv.counted) (free_among_le max_pages c);
        };
      })
]
  where
    gone : (i : ℕ) → (bitmap_test s.bitmap i && not (i == i)) ≡ false
    gone i = ground arith

    one : (j : ℕ) → (i == j) ≡ (leb i j && ltb j (i + 1))
    one j = ground arith

    up' : {x y : ℕ} → x + 1 ≡ y → s.free_pages ≡ x → s.free_pages + 1 ≡ y
    up' a b = omega arith

    step : (y : ℕ) → s.free_pages + 1 ≡ y → y ≤ max_pages → succ64 s.free_pages ≡ y
    step y e h = omega arith

    back :
        (j : ℕ)
        → bitmap_test s.bitmap i ≡ true
        → bitmap_test (bitmap_clear s.bitmap i) j ≡ (bitmap_test s.bitmap j && not (i == j))
        → bitmap_test s.bitmap j ≡ (bitmap_test (bitmap_clear s.bitmap i) j || i == j)
    back j used e = elim (Bool-cases (i == j)) [
      | inl here ↦
          let same : i ≡ j = ground arith in
          let also : bitmap_test s.bitmap j ≡ true = sym (ap (bitmap_test s.bitmap) same) ∙ used in
          ground arith
      | inr there ↦ ground arith
    ]

pub Gave-trans :
    (s s' s'' : Pmem) (i n : ℕ) → Gave s s' i 1 → Gave s' s'' (i + 1) n → Gave s s'' i (suc n)
Gave-trans s s' s'' i n a b = record {
  used = λ j.
      b.used j ∙ (ap (λ x. x && not (leb (i + 1) j && ltb j (i + 1 + n))) (a.used j) ∙ joined j);
  same_base = b.same_base ∙ a.same_base;
  same_total = b.same_total ∙ a.same_total;
  inv = b.inv;
}
  where
    joined :
        (j : ℕ)
        → ((bitmap_test s.bitmap j && not (leb i j && ltb j (i + 1)))
            && not (leb (i + 1) j && ltb j (i + 1 + n)))
          ≡ (bitmap_test s.bitmap j && not (leb i j && ltb j (i + suc n)))
    joined j = ground arith

pub free_run-Gave : (n i : ℕ) (s : Pmem) → Inv s → Gave s (free_run n i s) i n
unfolding free_run
free_run-Gave zero i s inv = record {
  used = λ j. nothing j;
  same_base = refl;
  same_total = refl;
  inv = inv;
}
  where
    nothing :
        (j : ℕ)
        → bitmap_test s.bitmap j ≡ (bitmap_test s.bitmap j && not (leb i j && ltb j (i + 0)))
    nothing j = let e : (leb i j && ltb j (i + 0)) ≡ false = ground arith in ground arith
free_run-Gave (suc n) i s inv = elim (Bool-cases (ltb i max_pages)) [
  | inl inside ↦
      let one = released-Gave s i inv (ground arith) in
      rw (inside, free_run)
        (Gave-trans s (released s i) _ i n one (free_run-Gave n (i + 1) (released s i) one.inv))
  | inr past ↦
      let one = same-Gave s i inv (bitmap_test-past s.bitmap i inv.bits (ground arith)) in
      rw (past, free_run) (Gave-trans s s _ i n one (free_run-Gave n (i + 1) s inv))
]
