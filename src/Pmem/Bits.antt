-- ===== src/Pmem/Bits.antt =====
-- kernel/pmem.c: the bitmap as the set of the pages in use, and the number of the others.
use native.Mathlib.Decide.{dec_lt}
use bright_s.Base.{
  ℕ, zero, suc, ◌+◌, ◌*◌, ◌/◌, ◌%◌, ◌^◌, ◌≤◌, ◌<◌, ◌≡◌, refl, sym, ap, ap₂, ◌∙◌, List, [], ◌∷◌,
  true, false, not, ◌&&◌, ◌||◌, ◌==◌, ltb, if◌then◌else◌, length, get_or, set, arith, Bool-cases,
  inl, inr, length-set,
}
use bright_s.Base.Members.{get_or-set}
use bright_s.Word.{
  bit, bit_ext, bit-above, bit-set_bit, bit-clear_bit, set_bit, clear_bit, set_bit-lt, clear_bit-lt,
}
use bright_s.Pmem.{bitmap_words, max_pages, bitmap_set, bitmap_clear, bitmap_test}

-- As many words as the array has, each of 64 bits.
pub record IsBitmap (b : List ℕ) : Type 0 where
  pub size : length b ≡ bitmap_words
  pub word : (i : ℕ) → get_or b i 0 < 2 ^ 64

set-IsBitmap :
    (b : List ℕ) (i v : ℕ) → IsBitmap b → i < bitmap_words → v < 2 ^ 64 → IsBitmap (set b i v)
set-IsBitmap b i v h hi hv = record {
  size = length-set b i v ∙ h.size;
  word = λ j. each j (get_or-set b i j v 0 (omega (arith, h.size)));
}
  where
    each :
        (j : ℕ)
        → get_or (set b i v) j 0 ≡ (if i == j then v else get_or b j 0)
        → get_or (set b i v) j 0 < 2 ^ 64
    each j e = elim (Bool-cases (i == j)) [
      | inl same ↦ ground arith
      | inr apart ↦ ground (arith, h.word j)
    ]

pub bitmap_set-IsBitmap :
    (b : List ℕ) (i : ℕ) → IsBitmap b → i < max_pages → IsBitmap (bitmap_set b i)
unfolding bitmap_set
bitmap_set-IsBitmap b i h hi =
    set-IsBitmap b (i / 64) _ h (omega arith)
      (set_bit-lt 64 (get_or b (i / 64) 0) (i % 64) (h.word (i / 64)) (omega arith))

pub bitmap_clear-IsBitmap :
    (b : List ℕ) (i : ℕ) → IsBitmap b → i < max_pages → IsBitmap (bitmap_clear b i)
unfolding bitmap_clear
bitmap_clear-IsBitmap b i h hi =
    set-IsBitmap b (i / 64) _ h (omega arith)
      (clear_bit-lt 64 (get_or b (i / 64) 0) (i % 64) (h.word (i / 64)))

same_word : (i j : ℕ) → (i / 64 == j / 64) ≡ true → i / 64 ≡ j / 64
same_word i j e = ground arith

same_digit : (i j : ℕ) → (i / 64 == j / 64) ≡ true → (i % 64 == j % 64) ≡ (i == j)
same_digit i j e = ground arith

other_page : (i j : ℕ) → (i / 64 == j / 64) ≡ false → (i == j) ≡ false
other_page i j e = ground arith

module _ (b : List ℕ) (i j : ℕ) (h : IsBitmap b) (hi : i < max_pages) where
  at_word :
      (v : ℕ)
      → bit (get_or (set b (i / 64) v) (j / 64) 0) (j % 64)
        ≡ (if i / 64 == j / 64 then bit v (j % 64) else bitmap_test b j)
  unfolding bitmap_test
  at_word v =
      ap (λ w. bit w (j % 64)) (get_or-set b (i / 64) (j / 64) v 0 (omega (arith, h.size)))
      ∙ elim (Bool-cases (i / 64 == j / 64)) [ inl same ↦ rw same refl | inr apart ↦ rw apart refl ]

  pub bitmap_test-set : bitmap_test (bitmap_set b i) j ≡ (bitmap_test b j || i == j)
  unfolding bitmap_test bitmap_set
  bitmap_test-set =
      at_word (set_bit (get_or b (i / 64) 0) (i % 64)) ∙ elim (Bool-cases (i / 64 == j / 64)) [
        | inl same ↦
            let e : get_or b (i / 64) 0 ≡ get_or b (j / 64) 0 =
              ap (λ k. get_or b k 0) (same_word i j same) in
            rw same (
              bit-set_bit (get_or b (i / 64) 0) (i % 64) (j % 64)
              ∙ (ap (λ w. bit w (j % 64) || i % 64 == j % 64) e
                  ∙ ap (λ c. bit (get_or b (j / 64) 0) (j % 64) || c) (same_digit i j same)))
        | inr apart ↦ rw apart (outside apart)
      ]
    where
      outside :
          (i / 64 == j / 64) ≡ false
          → bit (get_or b (j / 64) 0) (j % 64) ≡ (bit (get_or b (j / 64) 0) (j % 64) || i == j)
      outside e = let apart : (i == j) ≡ false = other_page i j e in ground arith

  pub bitmap_test-clear : bitmap_test (bitmap_clear b i) j ≡ (bitmap_test b j && not (i == j))
  unfolding bitmap_test bitmap_clear
  bitmap_test-clear =
      at_word (clear_bit 64 (get_or b (i / 64) 0) (i % 64)) ∙ elim (Bool-cases (i / 64 == j / 64)) [
        | inl same ↦
            let e : get_or b (i / 64) 0 ≡ get_or b (j / 64) 0 =
              ap (λ k. get_or b k 0) (same_word i j same) in
            rw same (
              bit-clear_bit 64 (get_or b (i / 64) 0) (i % 64) (j % 64) (h.word (i / 64))
                (omega arith)
              ∙ (ap (λ w. bit w (j % 64) && not (i % 64 == j % 64)) e
                  ∙ ap (λ c. bit (get_or b (j / 64) 0) (j % 64) && not c) (same_digit i j same)))
        | inr apart ↦ rw apart (outside apart)
      ]
    where
      outside :
          (i / 64 == j / 64) ≡ false
          → bit (get_or b (j / 64) 0) (j % 64)
            ≡ (bit (get_or b (j / 64) 0) (j % 64) && not (i == j))
      outside e = let apart : (i == j) ≡ false = other_page i j e in ground arith

list_ext :
    (xs ys : List ℕ)
    → length xs ≡ length ys
    → ((i : ℕ) → i < length xs → get_or xs i 0 ≡ get_or ys i 0)
    → xs ≡ ys
list_ext [] [] h same = refl
list_ext [] (y ∷ ys) h same = absurd (omega arith)
list_ext (x ∷ xs) [] h same = absurd (omega arith)
list_ext (x ∷ xs) (y ∷ ys) h same =
    ap₂ ◌∷◌ (same 0 (omega arith))
      (list_ext xs ys (omega arith) (λ i hi. same (suc i) (omega arith)))

-- A bitmap is the set of the pages in use.
pub bitmap_ext :
    (b c : List ℕ)
    → IsBitmap b
    → IsBitmap c
    → ((i : ℕ) → i < max_pages → bitmap_test b i ≡ bitmap_test c i)
    → b ≡ c
unfolding bitmap_test
bitmap_ext b c hb hc same =
    list_ext b c (hb.size ∙ sym hc.size)
      (λ i hi. bit_ext 64 (get_or b i 0) (get_or c i 0) (hb.word i) (hc.word i) (λ j. digit i j hi))
  where
    digit : (i j : ℕ) → i < length b → bit (get_or b i 0) j ≡ bit (get_or c i 0) j
    digit i j hi = elim (dec_lt j 64) [
      | yes low ↦
          let word : (i * 64 + j) / 64 ≡ i = omega arith in
          let place : (i * 64 + j) % 64 ≡ j = omega arith in
          sym (ap₂ (λ w k. bit (get_or b w 0) k) word place)
          ∙ (same (i * 64 + j) (omega (arith, hb.size))
              ∙ ap₂ (λ w k. bit (get_or c w 0) k) word place)
      | no high ↦
          bit-above 64 (get_or b i 0) j (hb.word i) (omega arith)
          ∙ sym (bit-above 64 (get_or c i 0) j (hc.word i) (omega arith))
    ]

-- The number of free pages among the first n.
unfoldable pub free_among : ℕ → List ℕ → ℕ
free_among zero b = 0
free_among (suc n) b = free_among n b + (if bitmap_test b n then 0 else 1)

pub free_among_le : (n : ℕ) (b : List ℕ) → free_among n b ≤ n
unfolding free_among
free_among_le zero b = omega arith
free_among_le (suc n) b = ground (arith, free_among_le n b)

-- The count of a set that differs at one page.
pub free_among-taken :
    (n : ℕ) (b c : List ℕ) (i : ℕ)
    → bitmap_test b i ≡ false
    → ((j : ℕ) → bitmap_test c j ≡ (bitmap_test b j || i == j))
    → free_among n c + (if ltb i n then 1 else 0) ≡ free_among n b
unfolding free_among
free_among-taken zero b c i free change = ground arith
free_among-taken (suc n) b c i free change = elim (Bool-cases (i == n)) [
  | inl here ↦
      let at : bitmap_test b n ≡ false = ap (bitmap_test b) (sym (equal here)) ∙ free in
      ground (arith, free_among-taken n b c i free change, change n)
  | inr there ↦ ground (arith, free_among-taken n b c i free change, change n)
]
  where
    equal : (i == n) ≡ true → i ≡ n
    equal e = ground arith
