-- ===== src/Base/Members.antt =====
-- Predicates on every entry of an array, in the form that the tactics read.
use bright_s.Base.{
  ℕ, zero, suc, ◌≡◌, List, [], ◌∷◌, ◌++◌, some, get_elem?, set, arith, replicate, ◌<◌, get_or,
  length, ◌==◌, if◌then◌else◌, Bool-cases, inl, inr, get_or-set_self, get_or-set_ne,
  get_elem?-set_self, get_elem?-set_ne,
}

abbrev pub All {ℓ κ} : {A : Type ℓ} → (A → Type κ) → List A → Type κ
All P [] = Unit
All P (x ∷ xs) = P x × All P xs

module _ {ℓ κ} {A : Type ℓ} (P : A → Type κ) where
  pub All-append : (xs ys : List A) → All P xs → All P ys → All P (xs ++ ys)
  All-append [] ys hx hy = hy
  All-append (x ∷ xs) ys hx hy = (hx.0, All-append xs ys hx.1 hy)

  pub All-set : (xs : List A) (i : ℕ) (v : A) → All P xs → P v → All P (set xs i v)
  All-set [] i v h p = h
  All-set (x ∷ xs) zero v h p = (p, h.1)
  All-set (x ∷ xs) (suc i) v h p = (h.0, All-set xs i v h.1 p)

  pub All-get_elem? : (xs : List A) (i : ℕ) (x : A) → All P xs → get_elem? xs i ≡ some x → P x
  All-get_elem? [] i x h e = absurd (ground arith)
  All-get_elem? (y ∷ xs) zero x h e = rw (← (some_inj y x e)) h.0
    where
      some_inj : (y x : A) → some y ≡ some x → y ≡ x
      some_inj y x e = cc
  All-get_elem? (y ∷ xs) (suc i) x h e = All-get_elem? xs i x h.1 e

  pub All-replicate : (n : ℕ) (a : A) → P a → All P (replicate n a)
  All-replicate zero a p = tt
  All-replicate (suc n) a p = (p, All-replicate n a p)

-- A read after a write in bounds, in one equation.
pub get_or-set {ℓ} :
    {A : Type ℓ} (xs : List A) (k i : ℕ) (v d : A)
    → k < length xs
    → get_or (set xs k v) i d ≡ (if k == i then v else get_or xs i d)
get_or-set xs k i v d h = elim (Bool-cases (k == i)) [
  | inl same ↦ let e : k ≡ i = ground arith in rw same (rw (← e) (get_or-set_self xs k v d h))
  | inr apart ↦ rw apart (get_or-set_ne xs k i v d (ground arith))
]

pub get_elem?-set {ℓ} :
    {A : Type ℓ} (xs : List A) (k i : ℕ) (v : A)
    → k < length xs
    → get_elem? (set xs k v) i ≡ (if k == i then some v else get_elem? xs i)
get_elem?-set xs k i v h = elim (Bool-cases (k == i)) [
  | inl same ↦ let e : k ≡ i = ground arith in rw same (rw (← e) (get_elem?-set_self xs k v h))
  | inr apart ↦ rw apart (get_elem?-set_ne xs k i v (ground arith))
]
