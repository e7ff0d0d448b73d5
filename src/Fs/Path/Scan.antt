-- ===== src/Fs/Path/Scan.antt =====
-- The scanning loop of `normalize_path` against the components of the path.
use bright_s.Base.{
  ℕ, zero, suc, ◌+◌, ◌-◌, ◌≤◌, ◌<◌, ◌≡◌, refl, sym, ap, ◌∙◌, List, [], ◌∷◌, none, some, false, ◌==◌,
  leb, ltb, if◌then◌else◌, length, take, arith, Bool-cases, Option-cases, inl, inr,
}
use bright_s.Fs.Text.{slash, path_eq}
use bright_s.Fs.Path.{skip_slashes, read_segment, drop_last, add_segment, scan}
use bright_s.Fs.Path.Describe.{split, enter, resolve}

seg_of : List ℕ → List ℕ
seg_of [] = []
seg_of (c ∷ path) = if c == slash then [] else c ∷ seg_of path

rest_of : List ℕ → List ℕ
rest_of [] = []
rest_of (c ∷ path) = if c == slash then c ∷ path else rest_of path

split_rest : List ℕ → List (List ℕ)
split_rest [] = []
split_rest (c ∷ path) = split path

read_segment_lem :
    (m k : ℕ) (p : List ℕ)
    → k < m
    → read_segment m k p
      ≡ (if ltb (k + length (seg_of p)) m then some (seg_of p, rest_of p) else none)
unfolding read_segment seg_of rest_of
read_segment_lem m k [] h = ground arith
read_segment_lem m k (c ∷ p) h = elim (Bool-cases (leb (m - 1) k)) [
  | inl full ↦ ground arith
  | inr room ↦ ground (arith, read_segment_lem m (k + 1) p)
]

split_lem : (p : List ℕ) → split p ≡ seg_of p ∷ split_rest (rest_of p)
unfolding split seg_of rest_of split_rest
split_lem [] = refl
split_lem (c ∷ p) = ground (arith, split_lem p)

length-rest_of : (p : List ℕ) → length (rest_of p) ≤ length p
unfolding rest_of
length-rest_of [] = omega arith
length-rest_of (c ∷ p) = ground (arith, length-rest_of p)

length-skip_slashes : (p : List ℕ) → length (skip_slashes p) ≤ length p
unfolding skip_slashes
length-skip_slashes [] = omega arith
length-skip_slashes (c ∷ p) = ground (arith, length-skip_slashes p)

resolve-nil : (m : ℕ) (cs segs : List (List ℕ)) → resolve m ([] ∷ cs) segs ≡ resolve m cs segs
unfolding resolve enter path_eq
resolve-nil m cs segs = refl

resolve-skip_slashes :
    (m : ℕ) (p : List ℕ) (segs : List (List ℕ))
    → resolve m (split (skip_slashes p)) segs ≡ resolve m (split p) segs
unfolding skip_slashes split
resolve-skip_slashes m [] segs = refl
resolve-skip_slashes m (c ∷ p) segs =
    ground (arith, resolve-skip_slashes m p segs, resolve-nil m (split p) segs)

resolve-split_rest :
    (m : ℕ) (p : List ℕ) (segs : List (List ℕ))
    → resolve m (split_rest (rest_of p)) segs ≡ resolve m (split (rest_of p)) segs
unfolding split_rest rest_of split
resolve-split_rest m [] segs = sym (resolve-nil m [] segs)
resolve-split_rest m (c ∷ p) segs =
    ground (arith, resolve-split_rest m p segs, resolve-nil m (split p) segs)

drop_last_lem : (segs : List (List ℕ)) → drop_last segs ≡ take (length segs - 1) segs
unfolding drop_last
drop_last_lem [] = refl
drop_last_lem (s ∷ []) = refl
drop_last_lem (s ∷ t ∷ segs) =
    let here : length (s ∷ t ∷ segs) - 1 ≡ suc (length segs) = omega arith in
    let there : length (t ∷ segs) - 1 ≡ length segs = omega arith in
    ap (λ r. s ∷ r) (drop_last_lem (t ∷ segs) ∙ ap (λ k. take k (t ∷ segs)) there)
    ∙ sym (ap (λ k. take k (s ∷ t ∷ segs)) here)

-- On a component that is not empty and short enough the code and `enter` agree.
add_segment-eq-enter :
    (m : ℕ) (c : ℕ) (s : List ℕ) (segs : List (List ℕ))
    → length (c ∷ s) < m
    → add_segment (c ∷ s) segs ≡ enter m (c ∷ s) segs
unfolding add_segment enter path_eq
add_segment-eq-enter m c [] segs h = ground arith
add_segment-eq-enter m c (d ∷ []) segs h = ground (arith, drop_last_lem segs)
add_segment-eq-enter m c (d ∷ e ∷ s) segs h = ground arith

-- A component that is too long is refused by `enter` too.
enter_long :
    (m : ℕ) (s : List ℕ) (segs : List (List ℕ)) → 3 ≤ m → m ≤ length s → enter m s segs ≡ none
unfolding enter path_eq
enter_long m [] segs h k = absurd (omega arith)
enter_long m (a ∷ []) segs h k = absurd (omega arith)
enter_long m (a ∷ b ∷ []) segs h k = absurd (omega arith)
enter_long m (a ∷ b ∷ c ∷ s) segs h k = ground arith

skip_slashes_head :
    (p : List ℕ) (c : ℕ) (r : List ℕ) → skip_slashes p ≡ c ∷ r → (c == slash) ≡ false
unfolding skip_slashes
skip_slashes_head [] c r e = absurd (ground arith)
skip_slashes_head (x ∷ p) c r e = ground (arith, skip_slashes_head p c r)

resolve_refused :
    (m : ℕ) (c : List ℕ) (cs segs : List (List ℕ))
    → enter m c segs ≡ none
    → resolve m (c ∷ cs) segs ≡ none
unfolding resolve
resolve_refused m c cs segs e = rw (e, resolve) refl

resolve_taken :
    (m : ℕ) (c : List ℕ) (cs segs : List (List ℕ)) {more : List (List ℕ)}
    → enter m c segs ≡ some more
    → resolve m (c ∷ cs) segs ≡ resolve m cs more
unfolding resolve
resolve_taken m c cs segs e = rw (e, resolve) refl

-- What a round does with the component that it finds, if the rounds that follow do right.
round_lem :
    (fuel m c : ℕ) (r : List ℕ) (segs : List (List ℕ))
    → 3 ≤ m
    → (c == slash) ≡ false
    → ((more : List (List ℕ)) → scan fuel m (rest_of r) more ≡ resolve m (split (rest_of r)) more)
    → (elim (read_segment m 0 (c ∷ r)) [
      | none ↦ none
      | some (seg, left) ↦ elim (add_segment seg segs) [
        | none ↦ none
        | some more ↦ scan fuel m left more
      ]
    ])
      ≡ resolve m (split (c ∷ r)) segs
round_lem fuel m c r segs hm hc ih =
    let seg = c ∷ seg_of r in
    let seg_eq : seg_of (c ∷ r) ≡ seg = unfold seg_of in rw hc refl in
    let rest_eq : rest_of (c ∷ r) ≡ rest_of r = unfold rest_of in rw hc refl in
    rw (split_lem (c ∷ r), read_segment_lem m 0 (c ∷ r) (omega arith), seg_eq, rest_eq)
      (elim (Bool-cases (ltb (0 + length seg) m)) [
        | inr long ↦
            rw long (sym (resolve_refused m seg _ segs (enter_long m seg segs hm (ground arith))))
        | inl short ↦
            let same = add_segment-eq-enter m c (seg_of r) segs (ground arith) in
            rw (short, same)
              (elim (Option-cases (enter m seg segs)) [
                | inl refused ↦ rw refused (sym (resolve_refused m seg _ segs refused))
                | inr (more, taken) ↦ rw taken (
                    ih more
                    ∙ sym (resolve-split_rest m r more)
                    ∙ sym (resolve_taken m seg _ segs taken))
              ])
      ])

-- One more unit of fuel than the path has bytes lets the loop end as the components say.
pub scan-eq-resolve :
    (fuel m : ℕ) (p : List ℕ) (segs : List (List ℕ))
    → 3 ≤ m
    → length p < fuel
    → scan fuel m p segs ≡ resolve m (split p) segs
unfolding scan
scan-eq-resolve zero m p segs hm hf = absurd (omega arith)
scan-eq-resolve (suc fuel) m p segs hm hf =
    round (skip_slashes p) refl (scan-eq-resolve fuel m) ∙ resolve-skip_slashes m p segs
  where
    round :
        (q : List ℕ)
        → skip_slashes p ≡ q
        → ((p' : List ℕ) (more : List (List ℕ))
            → 3 ≤ m
            → length p' < fuel
            → scan fuel m p' more ≡ resolve m (split p') more)
        → scan (suc fuel) m p segs ≡ resolve m (split (skip_slashes p)) segs
    round [] e ih = rw (e, scan) (unfold split resolve in sym (resolve-nil m [] segs))
    round (c ∷ r) e ih =
        let fits : length (rest_of r) < fuel =
          omega (arith, length-rest_of r, ap length e, length-skip_slashes p) in
        rw (e, scan)
          (round_lem fuel m c r segs hm (skip_slashes_head p c r e)
            (λ more. ih (rest_of r) more hm fits))
