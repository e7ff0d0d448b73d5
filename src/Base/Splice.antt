-- ===== src/Base/Splice.antt =====
-- Writing a run of bytes into an array, as cutting and joining lists.
use bright_s.Base.{
  ℕ, zero, suc, ◌+◌, ◌-◌, ◌≤◌, ◌<◌, ◌≡◌, refl, sym, ap, ◌∙◌, List, [], ◌∷◌, ◌++◌, length, take,
  drop, set, arith, length-take, min, max, take-nil, take-take,
}

module _ {ℓ} {A : Type ℓ} where
  pub take-suc-set :
      (xs : List A) (i : ℕ) (v : A)
      → i < length xs
      → take (suc i) (set xs i v) ≡ take i xs ++ (v ∷ [])
  take-suc-set [] i v h = absurd (omega arith)
  take-suc-set (x ∷ xs) zero v h = refl
  take-suc-set (x ∷ xs) (suc i) v h = ap (λ r. x ∷ r) (take-suc-set xs i v (omega arith))

  pub drop-set : (xs : List A) (i n : ℕ) (v : A) → i < n → drop n (set xs i v) ≡ drop n xs
  drop-set [] i n v h = refl
  drop-set (x ∷ xs) i zero v h = absurd (omega arith)
  drop-set (x ∷ xs) zero (suc n) v h = refl
  drop-set (x ∷ xs) (suc i) (suc n) v h = drop-set xs i n v (omega arith)

  pub drop-append : (xs ys : List A) → drop (length xs) (xs ++ ys) ≡ ys
  drop-append [] ys = refl
  drop-append (x ∷ xs) ys = drop-append xs ys

  pub take-append_le : (n : ℕ) (xs ys : List A) → n ≤ length xs → take n (xs ++ ys) ≡ take n xs
  take-append_le zero xs ys h = refl
  take-append_le (suc n) [] ys h = absurd (omega arith)
  take-append_le (suc n) (x ∷ xs) ys h = ap (λ r. x ∷ r) (take-append_le n xs ys (omega arith))

  pub drop-append_le :
      (n : ℕ) (xs ys : List A) → n ≤ length xs → drop n (xs ++ ys) ≡ drop n xs ++ ys
  drop-append_le zero xs ys h = refl
  drop-append_le (suc n) [] ys h = absurd (omega arith)
  drop-append_le (suc n) (x ∷ xs) ys h = drop-append_le n xs ys (omega arith)

  pub take-add : (m n : ℕ) (xs : List A) → take (m + n) xs ≡ take m xs ++ take n (drop m xs)
  take-add zero n xs = let e : 0 + n ≡ n = omega arith in rw e refl
  take-add (suc m) n [] = let e : suc m + n ≡ suc (m + n) = omega arith in rw e (sym (take-nil n))
  take-add (suc m) n (x ∷ xs) =
      let e : suc m + n ≡ suc (m + n) = omega arith in rw e (ap (λ r. x ∷ r) (take-add m n xs))

  pub drop-take : (n s : ℕ) (xs : List A) → drop n (take s xs) ≡ take (s - n) (drop n xs)
  drop-take zero s xs = let e : s - 0 ≡ s = omega arith in rw e refl
  drop-take (suc n) zero xs = let e : 0 - suc n ≡ 0 = omega arith in rw e refl
  drop-take (suc n) (suc s) [] = sym (take-nil (suc s - suc n))
  drop-take (suc n) (suc s) (x ∷ xs) =
      let e : suc s - suc n ≡ s - n = omega arith in rw e (drop-take n s xs)

  pub take_past :
      (n : ℕ) (xs ys : List A) → length xs ≤ n → take n (xs ++ ys) ≡ xs ++ take (n - length xs) ys
  take_past n [] ys h = let e : n - 0 ≡ n = omega arith in rw e refl
  take_past zero (x ∷ xs) ys h = absurd (omega arith)
  take_past (suc n) (x ∷ xs) ys h =
      let e : suc n - suc (length xs) ≡ n - length xs = omega arith in
      rw e (ap (λ r. x ∷ r) (take_past n xs ys (omega arith)))

  -- A run written over a prefix from inside it, as seen from the whole.
  pub take_splice :
      (xs src : List A) (off n s : ℕ)
      → s ≤ length xs
      → off ≤ s
      → length src ≡ n
      → take (max s (off + n)) (take off xs ++ (src ++ drop (off + n) xs))
        ≡ take off (take s xs) ++ (src ++ drop (off + n) (take s xs))
  take_splice xs src off n s h inside hn =
      let la : length (take off xs) ≡ off = omega (arith, length-take off xs) in
      let m = max s (off + n) in
      let e : min s off ≡ off = omega arith in
      let e' : m - off - n ≡ s - (off + n) = omega arith in
      take_past m (take off xs) _ (omega (arith, la))
      ∙ (ap (λ k. take off xs ++ take (m - k) (src ++ drop (off + n) xs)) la
          ∙ (ap (λ r. take off xs ++ r)
                (take_past (m - off) src (drop (off + n) xs) (omega (arith, hn))
                  ∙ (ap (λ k. src ++ take (m - off - k) (drop (off + n) xs)) hn
                      ∙ (ap (λ k. src ++ take k (drop (off + n) xs)) e'
                          ∙ ap (λ r. src ++ r) (sym (drop-take (off + n) s xs)))))
              ∙ ap (λ r. r ++ (src ++ drop (off + n) (take s xs)))
                  (sym (take-take off s xs ∙ ap (λ k. take k xs) e))))

  pub drop-drop : (a b : ℕ) (xs : List A) → drop b (drop a xs) ≡ drop (a + b) xs
  drop-drop zero b xs = let e : 0 + b ≡ b = omega arith in rw e refl
  drop-drop (suc a) zero [] = let e : suc a + 0 ≡ suc a = omega arith in rw e refl
  drop-drop (suc a) (suc b) [] = let e : suc a + suc b ≡ suc (a + suc b) = omega arith in rw e refl
  drop-drop (suc a) b (x ∷ xs) =
      let e : suc a + b ≡ suc (a + b) = omega arith in rw e (drop-drop a b xs)
