-- ===== src/Pmem/Scan.antt =====
-- kernel/pmem.c: the scan of brights_pmem_alloc_page over the words of the bitmap.
use bright_s.Base.{
  ℕ, zero, suc, ◌+◌, ◌-◌, ◌^◌, ◌≤◌, ◌<◌, ◌≡◌, ◌⊎◌, List, [], ◌∷◌, none, some, true, false, not,
  ◌&&◌, ◌==◌, length, get_or, arith, Bool-cases, inl, inr,
}
use bright_s.Word.{complement}
use bright_s.Pmem.{find_word}

pub find_word_lem :
    (k : ℕ) (b : List ℕ) (i : ℕ)
    → find_word k b ≡ some i
    → (j : ℕ) × (i ≡ k + j)
      × (j < length b)
      × (get_or b j 0 < 2 ^ 64 - 1)
      × ((m : ℕ) → m < j → 2 ^ 64 - 1 ≤ get_or b m 0)
unfolding find_word
find_word_lem k [] i e = absurd (ground arith)
find_word_lem k (w ∷ b) i e =
    pick (Bool-cases (not (w == 2 ^ 64 - 1) && not (complement 64 w == 0)))
      (find_word_lem (k + 1) b i)
  where
    pick :
        ((not (w == 2 ^ 64 - 1) && not (complement 64 w == 0)) ≡ true)
          ⊎ ((not (w == 2 ^ 64 - 1) && not (complement 64 w == 0)) ≡ false)
        → (find_word (k + 1) b ≡ some i
            → (j : ℕ) × (i ≡ k + 1 + j)
              × (j < length b)
              × (get_or b j 0 < 2 ^ 64 - 1)
              × ((m : ℕ) → m < j → 2 ^ 64 - 1 ≤ get_or b m 0))
        → (j : ℕ) × (i ≡ k + j)
          × (j < length (w ∷ b))
          × (get_or (w ∷ b) j 0 < 2 ^ 64 - 1)
          × ((m : ℕ) → m < j → 2 ^ 64 - 1 ≤ get_or (w ∷ b) m 0)
    pick (inl some_clear) ih =
        (0, ground arith, omega arith, ground arith, λ m hm. absurd (omega arith))
    pick (inr all_set) ih =
        let (j, at, inside, low, before) = ih (ground arith) in
        (suc j, omega arith, omega arith, low, full before)
      where
        full :
            {j : ℕ}
            → ((m : ℕ) → m < j → 2 ^ 64 - 1 ≤ get_or b m 0)
            → (m : ℕ) → m < suc j
            → 2 ^ 64 - 1 ≤ get_or (w ∷ b) m 0
        full before zero hm = ground arith
        full before (suc m) hm = before m (omega arith)

pub find_word-none :
    (k : ℕ) (b : List ℕ) → find_word k b ≡ none → (m : ℕ) → m < length b → 2 ^ 64 - 1 ≤ get_or b m 0
unfolding find_word
find_word-none k [] e m hm = absurd (omega arith)
find_word-none k (w ∷ b) e m hm =
    go (Bool-cases (not (w == 2 ^ 64 - 1) && not (complement 64 w == 0))) (find_word-none (k + 1) b)
      m hm
  where
    go :
        ((not (w == 2 ^ 64 - 1) && not (complement 64 w == 0)) ≡ true)
          ⊎ ((not (w == 2 ^ 64 - 1) && not (complement 64 w == 0)) ≡ false)
        → (find_word (k + 1) b ≡ none → (m : ℕ) → m < length b → 2 ^ 64 - 1 ≤ get_or b m 0)
        → (m : ℕ) → m < length (w ∷ b)
        → 2 ^ 64 - 1 ≤ get_or (w ∷ b) m 0
    go (inl some_clear) ih m hm = absurd (ground arith)
    go (inr all_set) ih zero hm = ground arith
    go (inr all_set) ih (suc m) hm = ih (ground arith) m (omega arith)
