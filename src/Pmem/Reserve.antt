-- ===== src/Pmem/Reserve.antt =====
-- kernel/pmem.c: the loop of brights_pmem_init that reserves the first megabyte.
use bright_s.Base.{
  ℕ, zero, suc, ◌+◌, ◌-◌, ◌*◌, ◌/◌, ◌%◌, ◌^◌, ◌≤◌, ◌<◌, ◌≡◌, refl, sym, ap, ap₂, ◌∙◌, Bool, true,
  false, not, ◌&&◌, ◌||◌, ◌==◌, ltb, leb, arith, Bool-cases, inl, inr,
}
use bright_s.Pmem.{Pmem, max_pages, page_size, bitmap_test, taken, reserve_from}
use bright_s.Pmem.Single.{Inv, Took, taken-Took}

-- The end of the pages that `pmem_total_pages` counts, from the base on, as the code computes it.
abbrev pub limit : Pmem → ℕ
limit s = (s.base + s.total_pages * page_size) % 2 ^ 64

-- What is reserved: an address in the first megabyte and below the limit.
abbrev pub reserved : ℕ → ℕ → Bool
reserved end a = ltb a 1048576 && ltb a end

-- After the loop that reserves, from an address on.
pub record Reserved (addr : ℕ) (s t : Pmem) : Type 0 where
  pub inv : Inv t
  pub same_base : t.base ≡ s.base
  pub same_total : t.total_pages ≡ s.total_pages
  pub used :
      (j : ℕ)
      → j < max_pages
      → let a = s.base + j * page_size in
        bitmap_test t.bitmap j ≡ (bitmap_test s.bitmap j || leb addr a && reserved (limit s) a)

Reserved-end : (addr : ℕ) (s : Pmem) → Inv s → reserved (limit s) addr ≡ false → Reserved addr s s
Reserved-end addr s inv over = record {
  inv = inv;
  same_base = refl;
  same_total = refl;
  used = λ j _. past (s.base + j * page_size) (limit s) over;
}
  where
    past :
        {b : Bool} (a end : ℕ) → reserved end addr ≡ false → b ≡ (b || leb addr a && reserved end a)
    past a end h = let e : (leb addr a && reserved end a) ≡ false = ground arith in ground arith

-- One round of that loop.
record Round (addr : ℕ) (s t : Pmem) : Type 0 where
  pub inv : Inv t
  pub same_base : t.base ≡ s.base
  pub same_total : t.total_pages ≡ s.total_pages
  pub used :
      (j : ℕ)
      → j < max_pages
      → bitmap_test t.bitmap j ≡ (bitmap_test s.bitmap j || s.base + j * page_size == addr)

taken-Round :
    (addr : ℕ) (s : Pmem)
    → Inv s
    → s.base % page_size ≡ 0
    → addr % page_size ≡ 0
    → let idx = (addr - s.base) / page_size in
      (leb s.base addr && (ltb idx max_pages && not (bitmap_test s.bitmap idx))) ≡ true
      → Round addr s (taken s idx)
taken-Round addr s inv aligned whole e =
    let idx : ℕ = (addr - s.base) / page_size in
    let took : Took s (taken s idx) idx 1 = taken-Took s idx inv (ground arith) (ground arith) in
    let low : s.base ≤ addr = ground arith in
    record {
      inv = took.inv;
      same_base = took.same_base;
      same_total = took.same_total;
      used = λ j h. took.used j ∙ ap (λ x. bitmap_test s.bitmap j || x) (here j idx low refl);
    }
  where
    here :
        (j idx : ℕ)
        → s.base ≤ addr
        → idx ≡ (addr - s.base) / page_size
        → (leb idx j && ltb j (idx + 1)) ≡ (s.base + j * page_size == addr)
    here j idx low at = ground arith

same-Round :
    (addr : ℕ) (s : Pmem)
    → Inv s
    → s.base % page_size ≡ 0
    → addr % page_size ≡ 0
    → let idx = (addr - s.base) / page_size in
      (leb s.base addr && (ltb idx max_pages && not (bitmap_test s.bitmap idx))) ≡ false
      → Round addr s s
same-Round addr s inv aligned whole e = record {
  inv = inv;
  same_base = refl;
  same_total = refl;
  used = λ j h. elim (Bool-cases (s.base + j * page_size == addr)) [
    | inr apart ↦ rw apart (keep j)
    | inl here ↦
        let at : (addr - s.base) / page_size ≡ j = place j here in
        let low : leb s.base addr ≡ true = lower j here in
        let no : (ltb j max_pages && not (bitmap_test s.bitmap j)) ≡ false =
          sym (ap₂ (λ x k. x && (ltb k max_pages && not (bitmap_test s.bitmap k))) low at) ∙ e in
        rw here (there j h no)
  ];
}
  where
    keep : (j : ℕ) → bitmap_test s.bitmap j ≡ (bitmap_test s.bitmap j || false)
    keep j = ground arith

    place : (j : ℕ) → (s.base + j * page_size == addr) ≡ true → (addr - s.base) / page_size ≡ j
    place j h = ground arith

    lower : (j : ℕ) → (s.base + j * page_size == addr) ≡ true → leb s.base addr ≡ true
    lower j h = ground arith

    there :
        (j : ℕ)
        → j < max_pages
        → (ltb j max_pages && not (bitmap_test s.bitmap j)) ≡ false
        → bitmap_test s.bitmap j ≡ (bitmap_test s.bitmap j || true)
    there j h e = ground arith

Reserved-step :
    (addr : ℕ) (s t u : Pmem)
    → s.base % page_size ≡ 0
    → addr % page_size ≡ 0
    → reserved (limit s) addr ≡ true
    → Round addr s t
    → Reserved (addr + page_size) t u
    → Reserved addr s u
Reserved-step addr s t u aligned whole goes a b =
    let same : limit t ≡ limit s =
      ap₂ (λ x y. (x + y * page_size) % 2 ^ 64) a.same_base a.same_total in
    record {
      inv = b.inv;
      same_base = b.same_base ∙ a.same_base;
      same_total = b.same_total ∙ a.same_total;
      used = λ j h.
          b.used j h
          ∙ (ap₂
                (λ x y.
                  bitmap_test t.bitmap j
                  || leb (addr + page_size) (x + j * page_size) && reserved y (x + j * page_size))
                a.same_base same
              ∙ (ap
                    (λ x.
                      x
                      || leb (addr + page_size) (s.base + j * page_size)
                        && reserved (limit s) (s.base + j * page_size))
                    (a.used j h)
                  ∙ joined (bitmap_test s.bitmap j) j (limit s) goes));
    }
  where
    simple : (x y : Bool) → ((x || false) || y) ≡ (x || y)
    simple x y = ground arith

    joined :
        (x : Bool) (j end : ℕ)
        → reserved end addr ≡ true
        → ((x || s.base + j * page_size == addr)
            || leb (addr + page_size) (s.base + j * page_size)
              && reserved end (s.base + j * page_size))
          ≡ (x || leb addr (s.base + j * page_size) && reserved end (s.base + j * page_size))
    joined x j end goes = elim (Bool-cases (s.base + j * page_size == addr)) [
      | inl here ↦
          let e : s.base + j * page_size ≡ addr = ground arith in
          let low : leb addr (s.base + j * page_size) ≡ true = ground arith in
          let same : reserved end (s.base + j * page_size) ≡ true = ap (reserved end) e ∙ goes in
          ground arith
      | inr apart ↦
          let e : leb (addr + page_size) (s.base + j * page_size)
              ≡ leb addr (s.base + j * page_size) =
            ground arith in
          rw (apart, e)
            (simple x (leb addr (s.base + j * page_size) && reserved end (s.base + j * page_size)))
    ]

pub reserve_from-Reserved :
    (n addr : ℕ) (s : Pmem)
    → Inv s
    → s.base % page_size ≡ 0
    → addr % page_size ≡ 0
    → 1048576 ≤ addr + n * page_size
    → Reserved addr s (reserve_from n addr s)
unfolding reserve_from
reserve_from-Reserved zero addr s inv aligned whole enough =
    Reserved-end addr s inv (over (limit s))
  where
    over : (end : ℕ) → reserved end addr ≡ false
    over end = let e : ltb addr 1048576 ≡ false = ground arith in rw e refl
reserve_from-Reserved (suc n) addr s inv aligned whole enough =
    elim (Bool-cases (reserved (limit s) addr)) [
      | inr stops ↦ rw (stops, reserve_from) (Reserved-end addr s inv stops)
      | inl goes ↦
          rw (goes, reserve_from)
            (elim (Bool-cases (
              leb s.base addr
              && (ltb ((addr - s.base) / page_size) max_pages
                  && not (bitmap_test s.bitmap ((addr - s.base) / page_size))))) [
                    | inl takes ↦
                        let t : Pmem = taken s ((addr - s.base) / page_size) in
                        let one : Round addr s t = taken-Round addr s inv aligned whole takes in
                        rw (takes, reserve_from)
                          (Reserved-step addr s t _ aligned whole goes one (
                            reserve_from-Reserved n (addr + page_size) t one.inv aligned
                              (omega arith) (omega arith)))
                    | inr skips ↦
                        let one : Round addr s s = same-Round addr s inv aligned whole skips in
                        rw (skips, reserve_from)
                          (Reserved-step addr s s _ aligned whole goes one (
                            reserve_from-Reserved n (addr + page_size) s inv aligned (omega arith)
                              (omega arith)))
                  ])
    ]
