-- ===== src/Pmem/Used.antt =====
-- kernel/pmem.c: the bitmap with every page in use.
use native.Mathlib.Decide.{dec_lt}
use bright_s.Base.{
  ℕ, zero, suc, ◌-◌, ◌/◌, ◌%◌, ◌^◌, ◌≤◌, ◌<◌, ◌≡◌, refl, sym, ap, ◌∙◌, List, true, ltb, arith,
  length, get_or, length-replicate,
}
use bright_s.Word.{bit, bit-ones}
use bright_s.Pmem.{Pmem, max_pages, bitmap_words, bitmap_test, all_used}
use bright_s.Pmem.Bits.{IsBitmap, free_among}
use bright_s.Pmem.Single.{Inv}

all_used-length : (n : ℕ) → length (all_used n) ≡ n
unfolding all_used
all_used-length n = length-replicate n (2 ^ 64 - 1)

all_used-word : (n i : ℕ) → i < n → get_or (all_used n) i 0 ≡ 2 ^ 64 - 1
unfolding all_used
all_used-word zero i h = absurd (omega arith)
all_used-word (suc n) zero h = refl
all_used-word (suc n) (suc i) h = all_used-word n i (omega arith)

all_used-past : (n i : ℕ) → n ≤ i → get_or (all_used n) i 0 ≡ 0
unfolding all_used
all_used-past zero i h = refl
all_used-past (suc n) zero h = absurd (omega arith)
all_used-past (suc n) (suc i) h = all_used-past n i (omega arith)

all_used-IsBitmap : IsBitmap (all_used bitmap_words)
all_used-IsBitmap = record {
  size = all_used-length bitmap_words;
  word = λ i. elim (dec_lt i bitmap_words) [
    | yes inside ↦ omega (arith, all_used-word bitmap_words i inside)
    | no past ↦ omega (arith, all_used-past bitmap_words i (omega arith))
  ];
}

pub bitmap_test-all_used : (j : ℕ) → j < max_pages → bitmap_test (all_used bitmap_words) j ≡ true
unfolding bitmap_test
bitmap_test-all_used j h =
    ap (λ w. bit w (j % 64)) (all_used-word bitmap_words (j / 64) (omega arith))
    ∙ (bit-ones 64 (j % 64) ∙ low)
  where
    low : ltb (j % 64) 64 ≡ true
    low = ground arith

none_free : (n : ℕ) (b : List ℕ) → ((j : ℕ) → j < n → bitmap_test b j ≡ true) → free_among n b ≡ 0
unfolding free_among
none_free zero b used = refl
none_free (suc n) b used =
    let last : bitmap_test b n ≡ true = used n (omega arith) in
    rw last (omega (arith, none_free n b (λ j h. used j (omega arith))))

abbrev pub start : ℕ → ℕ → Pmem
start base total = record {
  bitmap = all_used bitmap_words;
  base = base;
  total_pages = total;
  free_pages = 0;
}

pub start-Inv : (base total : ℕ) → Inv (start base total)
start-Inv base total = record {
  bits = all_used-IsBitmap;
  counted = sym (none_free max_pages (all_used bitmap_words) bitmap_test-all_used);
}
