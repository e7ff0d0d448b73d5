-- ===== src/Fs/Vfs/Pool.antt =====
-- kernel/fs/vfs2.c: files are given out of the pool one by one, and given back.
use bright_s.Base.{
  ℕ, zero, suc, ◌+◌, ◌≤◌, ◌<◌, ◌^◌, ◌≡◌, ◌≢◌, ◌⊎◌, inl, inr, refl, ap, ◌∙◌, none, some, true, false,
  ◌==◌, ◌&&◌, ◌||◌, not, leb, if◌then◌else◌, length, length-set, set, get_or-set_self,
  get_or-set_ne, arith, Bool-cases, Option-cases,
}
use bright_s.Word.{has_bit, set_bit, clear_bit, has_bit-set_bit, has_bit-clear_bit, set_bit-lt}
use bright_s.Fs.Vfs.Files.{
  Pool, file_pool_size, find_closed, file_alloc, file_free, fresh_file, open_at, no_file,
}

find_closed_lem :
    (n i bitmap k : ℕ)
    → find_closed n i bitmap ≡ some k
    → (i ≤ k) × (k < i + n) × (has_bit bitmap k ≡ false)
unfolding find_closed
find_closed_lem zero i bitmap k e = absurd (ground arith)
find_closed_lem (suc n) i bitmap k e =
    pick (Bool-cases (has_bit bitmap i)) (find_closed_lem n (i + 1) bitmap k)
  where
    pick :
        (has_bit bitmap i ≡ true) ⊎ (has_bit bitmap i ≡ false)
        → (find_closed n (i + 1) bitmap ≡ some k
            → (i + 1 ≤ k) × (k < i + 1 + n) × (has_bit bitmap k ≡ false))
        → (i ≤ k) × (k < i + suc n) × (has_bit bitmap k ≡ false)
    pick (inr free) ih =
        let same : i ≡ k = ground arith in (omega arith, omega arith, rw (← same) free)
    pick (inl used) ih = let r = ih (ground arith) in (omega (arith, r.0), omega (arith, r.1), r.2)

find_closed-none :
    (n i bitmap : ℕ)
    → find_closed n i bitmap ≡ none
    → (j : ℕ) → i ≤ j
    → j < i + n
    → has_bit bitmap j ≡ true
unfolding find_closed
find_closed-none zero i bitmap e j low high = absurd (omega arith)
find_closed-none (suc n) i bitmap e j low high = elim (Bool-cases (has_bit bitmap i)) [
  | inr free ↦ absurd (ground arith)
  | inl used ↦ elim (Bool-cases (j == i)) [
    | inl here ↦ let same : j ≡ i = ground arith in rw same used
    | inr later ↦ find_closed-none n (i + 1) bitmap (ground arith) j (ground arith) (omega arith)
  ]
]

-- In a pool of 64 files with a 64-bit bitmap, brights_vfs2_file_alloc either fails, and then
-- every file is taken, or takes a free one, makes it fresh, marks it and changes no other;
-- brights_vfs2_file_free of it takes the mark off again and puts the bitmap back.
pub file_alloc_lem :
    (p : Pool)
    → length p.files ≡ file_pool_size
    → p.bitmap < 2 ^ 64
    → let (r, q) = file_alloc p in
      ((r ≡ none) × (q ≡ p) × ((j : ℕ) → j < file_pool_size → has_bit p.bitmap j ≡ true))
      ⊎ ((i : ℕ) × (r ≡ some i)
          × (i < file_pool_size)
          × (has_bit p.bitmap i ≡ false)
          × (open_at q i ≡ fresh_file)
          × ((j : ℕ) → has_bit q.bitmap j ≡ (has_bit p.bitmap j || i == j))
          × ((j : ℕ) → i ≢ j → open_at q j ≡ open_at p j)
          × (((open_at (file_free q (some i)) i).in_use ≡ false)
              × ((j : ℕ) → has_bit (file_free q (some i)).bitmap j ≡ has_bit p.bitmap j)))
unfolding file_alloc file_free
file_alloc_lem p full word = elim (Option-cases (find_closed file_pool_size 0 p.bitmap)) [
  | inl used_up ↦
      rw (used_up, file_alloc)
        (inl (
          refl,
          refl,
          λ j h. find_closed-none file_pool_size 0 p.bitmap used_up j (omega arith) (omega arith),
        ))
  | inr (i, e) ↦
      let (low, high, free) = find_closed_lem file_pool_size 0 p.bitmap i e in
      let h : i < file_pool_size = omega (arith, high) in
      let inside : leb file_pool_size i ≡ false = ground arith in
      let here = get_or-set_self p.files i fresh_file no_file (omega arith) in
      rw (e, file_alloc)
        (inr (
          i,
          refl,
          h,
          free,
          here,
          λ j. has_bit-set_bit p.bitmap i j,
          λ j apart. get_or-set_ne p.files i j fresh_file no_file apart,
          (
            ap (λ g. g.in_use)
                (get_or-set_self (set p.files i fresh_file) i _ no_file
                  (omega (arith, length-set p.files i fresh_file))),
            λ j.
                ap (λ b. has_bit b j)
                  (ap (λ c. if c then set_bit p.bitmap i else clear_bit 64 (set_bit p.bitmap i) i)
                    inside)
                ∙ (has_bit-clear_bit 64 (set_bit p.bitmap i) i j (set_bit-lt 64 p.bitmap i word h) h
                    ∙ (ap (λ b. b && not (i == j)) (has_bit-set_bit p.bitmap i j)
                        ∙ unset i j free)),
          ),
        ))
]
  where
    unset :
        (i j : ℕ)
        → has_bit p.bitmap i ≡ false
        → ((has_bit p.bitmap j || i == j) && not (i == j)) ≡ has_bit p.bitmap j
    unset i j free = elim (Bool-cases (i == j)) [
      | inr apart ↦ ground arith
      | inl e ↦ let same : i ≡ j = ground arith in rw e (ground (arith, ap (has_bit p.bitmap) same))
    ]

pub length-file_alloc : (p : Pool) → length (file_alloc p).1.files ≡ length p.files
unfolding file_alloc
length-file_alloc p = elim (Option-cases (find_closed file_pool_size 0 p.bitmap)) [
  | inl used_up ↦ rw (used_up, file_alloc) refl
  | inr (i, e) ↦ rw (e, file_alloc) (length-set p.files i fresh_file)
]
