-- ===== src/Base/Window.antt =====
-- A ring of `cap` cells in an array: the run of cells from an index on, going round at `cap`.
use native.Mathlib.Decide.{dec_lt}
use native.Mathlib.Nat.{mod-add-mod, mod-eq_of_lt, mod-eq-sub-mod}
use bright_s.Base.{
  ℕ, zero, suc, ◌+◌, ◌-◌, ◌%◌, ◌≤◌, ◌<◌, ◌≡◌, ◌≢◌, refl, sym, ap, ap₂, ◌∙◌, List, [], ◌∷◌, ◌++◌,
  length, get_or, set, get_or-set_self, get_or-set_ne, arith,
}

module _ {ℓ} {A : Type ℓ} (d : A) (cap : ℕ) where
  -- The contents of `n` cells, the one at `start` first.
  unfoldable pub window : List A → ℕ → ℕ → List A
  window buf start zero = []
  window buf start (suc n) = get_or buf start d ∷ window buf ((start + 1) % cap) n

  pub length-window : (buf : List A) (start n : ℕ) → length (window buf start n) ≡ n
  unfolding window
  length-window buf start zero = refl
  length-window buf start (suc n) = ap suc (length-window buf ((start + 1) % cap) n)

-- Fewer than `cap` steps round a ring do not come back to the start.
pub round-ne : (size start k : ℕ) → start < size → 0 < k → k < size → (start + k) % size ≢ start
round-ne size start k hs hk hc = elim (dec_lt (start + k) size) [
  | yes inside ↦ omega (arith, mod-eq_of_lt inside)
  | no over ↦ omega (
    arith,
    mod-eq-sub-mod {n = start + k} {m = size} (omega arith),
    mod-eq_of_lt {n = start + k - size} {m = size} (omega arith),
  )
]

pub next-add : (size start n : ℕ) → ((start + 1) % size + n) % size ≡ (start + suc n) % size
next-add size start n = rw mod-add-mod (ap (λ k. k % size) (omega arith))

module _ {ℓ} {A : Type ℓ} (d : A) (cap : ℕ) where
  -- A write just past the run makes the run longer by what is written.
  pub window-set :
      (buf : List A) (start n i : ℕ) (v : A)
      → cap ≤ length buf
      → start < cap
      → n < cap
      → i ≡ (start + n) % cap
      → window d cap (set buf i v) start (suc n) ≡ window d cap buf start n ++ (v ∷ [])
  unfolding window
  window-set buf start zero i v hb hs hn e =
      let e' : i ≡ start = e ∙ ap (λ k. k % cap) (omega arith) ∙ mod-eq_of_lt hs in
      rw (e', get_or-set_self buf start v d (omega arith)) refl
  window-set buf start (suc n) i v hb hs hn e =
      let apart : i ≢ start = omega (arith, round-ne cap start (suc n) hs (omega arith) hn) in
      let rest =
        window-set buf ((start + 1) % cap) n i v hb (omega arith) (omega arith)
          (e ∙ sym (next-add cap start n)) in
      ap₂ ◌∷◌ (get_or-set_ne buf i start v d apart) rest

  -- Taking the first cell off: the code tests the count, the run is by recursion on it.
  pub window_of_pos :
      (buf : List A) (start n : ℕ)
      → 0 < n
      → window d cap buf start n ≡ get_or buf start d ∷ window d cap buf ((start + 1) % cap) (n - 1)
  unfolding window
  window_of_pos buf start zero h = absurd (omega arith)
  window_of_pos buf start (suc n) h =
      ap (λ k. get_or buf start d ∷ window d cap buf ((start + 1) % cap) k) (omega arith)
