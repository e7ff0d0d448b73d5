-- ===== src/Pmem/Runs.antt =====
-- kernel/pmem.c: brights_pmem_alloc_pages takes the first run of free pages that is long enough.
use native.Mathlib.Decide.{dec_lt}
use bright_s.Base.{
  ℕ, zero, suc, ◌+◌, ◌-◌, ◌%◌, ◌^◌, ◌≤◌, ◌<◌, ◌≡◌, ◌⊎◌, refl, sym, ap, subst, ◌∙◌, List, Option,
  none, some, true, false, ◌&&◌, ◌||◌, ◌==◌, ltb, leb, if◌then◌else◌, arith, Bool-cases,
  Option-cases, inl, inr,
}
use bright_s.Pmem.{
  Pmem, max_pages, page_addr, bitmap_test, bitmap_set, find_run, set_run, alloc_pages, taken,
  pred64,
}
use bright_s.Pmem.Bits.{free_among_le}
use bright_s.Pmem.Single.{Inv, Took, taken-Took}

-- The pages from r on, n of them, are free.
unfoldable pub Free : List ℕ → ℕ → ℕ → Type 0
Free b r n = (j : ℕ) → r ≤ j → j < r + n → bitmap_test b j ≡ false

-- What the search says, from page `lo` up to page `hi`: the first run, or none.
pub First : List ℕ → ℕ → ℕ → ℕ → Option ℕ → Type 0
First b lo hi count none = (q : ℕ) → lo ≤ q → q + count ≤ hi → ¬ Free b q count
First b lo hi count (some r) =
    (lo ≤ r) × (r + count ≤ hi) × Free b r count × ((q : ℕ) → lo ≤ q → q < r → ¬ Free b q count)

-- A page in use is in no run.
First-skip :
    (b : List ℕ) (lo i hi count : ℕ) (o : Option ℕ)
    → bitmap_test b i ≡ true
    → lo ≤ i
    → i < lo + count
    → First b (i + 1) hi count o
    → First b lo hi count o
unfolding First Free
First-skip b lo i hi count none used h h' first = λ q low fits free. elim (dec_lt i q) [
  | yes over ↦ first q (omega arith) fits free
  | no within ↦
      let e : bitmap_test b i ≡ false = free i (omega arith) (omega arith) in absurd (ground arith)
]
First-skip b lo i hi count (some r) used h h' (low, fits, free, before) = (
  omega arith,
  fits,
  free,
  λ q hq hr run. elim (dec_lt i q) [
    | yes over ↦ before q (omega arith) hr run
    | no within ↦
        let e : bitmap_test b i ≡ false = run i (omega arith) (omega arith) in absurd (ground arith)
  ],
)

find_run_lem :
    (n : ℕ) (b : List ℕ) (i found start count lo : ℕ)
    → (if found == 0 then i else start) ≡ lo
    → lo + found ≡ i
    → found < count
    → Free b lo found
    → First b lo (i + n) count (find_run n b i found start count)
unfolding find_run First Free
find_run_lem zero b i found start count lo e at short free = λ q low fits run. absurd (omega arith)
find_run_lem (suc n) b i found start count lo e at short free =
    let hi : i + 1 + n ≡ i + suc n = omega arith in
    elim (Bool-cases (bitmap_test b i)) [
      | inl used ↦
          rw (used, find_run)
            (First-skip b lo i (i + suc n) count (find_run n b (i + 1) 0 start count) used
              (omega arith) (omega arith)
              (subst (λ k. First b (i + 1) k count (find_run n b (i + 1) 0 start count)) hi
                (find_run_lem n b (i + 1) 0 start count (i + 1) refl (omega arith) (omega arith)
                  (λ j hj hj'. absurd (omega arith)))))
      | inr idle ↦ elim (Bool-cases (found + 1 == count)) [
        | inl done ↦
            rw (idle, find_run)
              (rw (done, find_run)
                (rw e (
                  omega arith,
                  ground arith,
                  λ j hj hj'. longer idle j hj (ground arith),
                  λ q hq hr run. omega arith,
                )))
        | inr more ↦
            let go : First b lo (i + 1 + n) count (find_run n b (i + 1) (found + 1) lo count) =
              find_run_lem n b (i + 1) (found + 1) lo count lo (started lo) (omega arith)
                (ground arith) (λ j hj hj'. longer idle j hj (omega arith)) in
            rw (idle, find_run)
              (rw (more, find_run)
                (rw e (
                  subst (λ k. First b lo k count (find_run n b (i + 1) (found + 1) lo count)) hi
                    go)))
      ]
    ]
  where
    longer : bitmap_test b i ≡ false → (j : ℕ) → lo ≤ j → j < i + 1 → bitmap_test b j ≡ false
    longer idle j hj hj' = elim (dec_lt j i) [
      | yes before ↦ free j hj (omega arith)
      | no here ↦ let e : i ≡ j = omega arith in sym (ap (bitmap_test b) e) ∙ idle
    ]

    started : (lo : ℕ) → (if found + 1 == 0 then i + 1 else lo) ≡ lo
    started lo = let e : (found + 1 == 0) ≡ false = ground arith in rw e refl

Took-trans :
    (s s' s'' : Pmem) (i n : ℕ) → Took s s' i 1 → Took s' s'' (i + 1) n → Took s s'' i (suc n)
Took-trans s s' s'' i n a b = record {
  used = λ j. b.used j ∙ (ap (λ x. x || leb (i + 1) j && ltb j (i + 1 + n)) (a.used j) ∙ joined j);
  same_base = b.same_base ∙ a.same_base;
  same_total = b.same_total ∙ a.same_total;
  free = omega (arith, a.free, b.free);
  inv = b.inv;
}
  where
    joined :
        (j : ℕ)
        → ((bitmap_test s.bitmap j || leb i j && ltb j (i + 1))
            || leb (i + 1) j && ltb j (i + 1 + n))
          ≡ (bitmap_test s.bitmap j || leb i j && ltb j (i + suc n))
    joined j = ground arith

-- `pmem_free_pages -= count`.
abbrev fewer : ℕ → ℕ → ℕ
fewer free count = (free + (2 ^ 64 - count)) % 2 ^ 64

Inv-small : (s : Pmem) → Inv s → s.free_pages ≤ max_pages
Inv-small s inv = omega (arith, inv.counted, free_among_le max_pages s.bitmap)

set_run-Took :
    (n i : ℕ) (s : Pmem)
    → Inv s
    → i + n ≤ max_pages
    → Free s.bitmap i n
    → Took s (record s { bitmap = set_run n i s.bitmap; free_pages = fewer s.free_pages n }) i n
unfolding set_run Free
set_run-Took zero i s inv h free =
    let e : s.free_pages ≡ fewer s.free_pages 0 = omega (arith, Inv-small s inv) in
    subst (λ x. Took s (record s { free_pages = x }) i 0) e
      (record {
        used = λ j. nothing j;
        same_base = refl;
        same_total = refl;
        free = omega arith;
        inv = inv;
      })
  where
    nothing :
        (j : ℕ) → bitmap_test s.bitmap j ≡ (bitmap_test s.bitmap j || leb i j && ltb j (i + 0))
    nothing j = let e : (leb i j && ltb j (i + 0)) ≡ false = ground arith in ground arith
set_run-Took (suc n) i s inv h free =
    let one : Took s (taken s i) i 1 =
      taken-Took s i inv (omega arith) (free i (omega arith) (omega arith)) in
    let rest =
      set_run-Took n (i + 1) (taken s i) one.inv (omega arith)
        (λ j hj hj'. one.used j ∙ still j hj (free j (omega arith) (omega arith))) in
    let e : fewer (pred64 s.free_pages) n ≡ fewer s.free_pages (suc n) =
      again s.free_pages (pred64 s.free_pages) one.free rest.free (Inv-small s inv) in
    subst
      (λ x.
        Took s (record s { bitmap = set_run n (i + 1) (bitmap_set s.bitmap i); free_pages = x }) i
          (suc n))
      e (Took-trans s (taken s i) _ i n one rest)
  where
    still :
        (j : ℕ)
        → i + 1 ≤ j
        → bitmap_test s.bitmap j ≡ false
        → (bitmap_test s.bitmap j || leb i j && ltb j (i + 1)) ≡ false
    still j hj e = let past : ltb j (i + 1) ≡ false = ground arith in ground arith

    again : (f g : ℕ) → g + 1 ≡ f → fewer g n + n ≡ g → f ≤ max_pages → fewer g n ≡ fewer f (suc n)
    again f g a b h = omega arith

nothing-Free : (b : List ℕ) → Free b 0 0
unfolding Free
nothing-Free b j h h' = absurd (omega arith)

-- When pmem_free_pages is the number of the clear bits, brights_pmem_alloc_pages of two pages or
-- more takes the first run of as many free pages: it returns the address of the first of them,
-- marks them and no other, and counts them. If there is no such run, it returns null and changes
-- nothing.
pub alloc_pages_lem :
    (s : Pmem) (count : ℕ)
    → Inv s
    → 1 < count
    → ((r : ℕ) × (r + count ≤ max_pages)
        × Free s.bitmap r count
        × ((q : ℕ) → q < r → ¬ Free s.bitmap q count)
        × ((alloc_pages s count).0 ≡ page_addr s r)
        × Took s (alloc_pages s count).1 r count)
      ⊎ (((q : ℕ) → q + count ≤ max_pages → ¬ Free s.bitmap q count)
          × (alloc_pages s count ≡ (0, s)))
unfolding alloc_pages First
alloc_pages_lem s count inv many =
    let some_pages : (count == 0) ≡ false = ground arith in
    let more : (count == 1) ≡ false = ground arith in
    let found =
      find_run_lem max_pages s.bitmap 0 0 0 count 0 refl (omega arith) (omega arith)
        (nothing-Free s.bitmap) in
    rw (some_pages, alloc_pages)
      (rw (more, alloc_pages)
        (elim (Option-cases (find_run max_pages s.bitmap 0 0 0 count)) [
          | inl e ↦
              let none_there : First s.bitmap 0 (0 + max_pages) count none =
                subst (First s.bitmap 0 (0 + max_pages) count) e found in
              rw (e, alloc_pages) (inr (λ q fits. none_there q (omega arith) (omega arith), refl))
          | inr (r, e) ↦
              let (low, fits, free, before) : First s.bitmap 0 (0 + max_pages) count (some r) =
                subst (First s.bitmap 0 (0 + max_pages) count) e found in
              rw (e, alloc_pages)
                (inl (
                  r,
                  omega arith,
                  free,
                  λ q hq. before q (omega arith) hq,
                  refl,
                  set_run-Took count r s inv (omega arith) free,
                ))
        ]))
