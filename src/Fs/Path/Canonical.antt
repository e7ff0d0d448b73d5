-- ===== src/Fs/Path/Canonical.antt =====
-- The paths that `normalize_path` makes: absolute, with plain names only, and their own normal
-- form.
use bright_s.Base.{
  ℕ, zero, suc, take, length-take, ◌-◌, ◌+◌, ◌≤◌, ◌<◌, ◌≡◌, refl, ap, ◌∙◌, List, [], ◌∷◌, ◌++◌,
  none, some, false, ◌==◌, ◌||◌, length, arith, Bool-cases, Option-cases, inl, inr, length-append,
  append_assoc, append-nil,
}
use bright_s.Base.Members.{All, All-append}
use bright_s.Fs.Text.{slash, path_eq, has_char}
use bright_s.Fs.Path.{dot, dotdot, normalize_path}
use bright_s.Fs.Path.Spec.{normalize_path-eq-resolve}
use bright_s.Fs.Path.Describe.{
  split, onto_first, enter, resolve, join, fit, between, join-eq-between,
}

-- A plain name: not empty, no slash, neither "." nor "..", and shorter than the segment buffer.
pub record IsName (max_name : ℕ) (s : List ℕ) : Type 0 where
  pub nonempty : path_eq s [] ≡ false
  pub no_slash : has_char s slash ≡ false
  pub not_dot : path_eq s dot ≡ false
  pub not_dotdot : path_eq s dotdot ≡ false
  pub short : length s < max_name

abbrev IsBare : List ℕ → Type 0
IsBare s = has_char s slash ≡ false

All-onto_first :
    (c : ℕ) (ss : List (List ℕ))
    → (c == slash) ≡ false
    → All IsBare ss
    → All IsBare (onto_first c ss)
unfolding onto_first has_char
All-onto_first c [] e h = (rw e refl, tt)
All-onto_first c (s ∷ ss) e h = (rw e h.0, h.1)

All-split : (p : List ℕ) → All IsBare (split p)
unfolding split has_char
All-split [] = (refl, tt)
All-split (c ∷ p) = ground (arith, All-split p, All-onto_first c (split p))

All-take : (m n : ℕ) (ss : List (List ℕ)) → All (IsName m) ss → All (IsName m) (take n ss)
All-take m zero ss h = tt
All-take m (suc n) [] h = tt
All-take m (suc n) (s ∷ ss) h = (h.0, All-take m n ss h.1)

-- A stack of at most 16 plain names.
abbrev pub AreNames : ℕ → List (List ℕ) → Type 0
AreNames m segs = All (IsName m) segs × (length segs ≤ 16)

enter-AreNames :
    (m : ℕ) (c : List ℕ) (segs more : List (List ℕ))
    → IsBare c
    → AreNames m segs
    → enter m c segs ≡ some more
    → AreNames m more
unfolding enter
enter-AreNames m c segs more bare h e = elim (Bool-cases (path_eq c [] || path_eq c dot)) [
  | inl skip ↦ let same : segs ≡ more = ground arith in rw (← same) h
  | inr name ↦ elim (Bool-cases (path_eq c dotdot)) [
    | inl up ↦
        let same : take (length segs - 1) segs ≡ more = ground arith in
        rw (← same)
          (All-take m (length segs - 1) segs h.0, omega (arith, length-take (length segs - 1) segs))
    | inr plain ↦
        let same : segs ++ (c ∷ []) ≡ more = ground arith in
        let is_name : IsName m c = ground arith in
        rw (← same) (
          All-append (IsName m) segs (c ∷ []) h.0 (is_name, tt),
          ground (arith, length-append segs (c ∷ [])),
        )
  ]
]

pub resolve-AreNames :
    (m : ℕ) (cs segs more : List (List ℕ))
    → All IsBare cs
    → AreNames m segs
    → resolve m cs segs ≡ some more
    → AreNames m more
unfolding resolve
resolve-AreNames m [] segs more bare h e = let same : segs ≡ more = ground arith in rw (← same) h
resolve-AreNames m (c ∷ cs) segs more bare h e = elim (Option-cases (enter m c segs)) [
  | inl refused ↦ absurd (ground arith)
  | inr (next, taken) ↦
      resolve-AreNames m cs next more bare.1 (enter-AreNames m c segs next bare.0 h taken)
        (ground arith)
]

-- Cutting at the slash behind a plain name.
split-append : (s p : List ℕ) → has_char s slash ≡ false → split (s ++ (slash ∷ p)) ≡ s ∷ split p
unfolding split has_char onto_first
split-append [] p h = refl
split-append (c ∷ s) p h = ground (arith, split-append s p)

split_bare : (s : List ℕ) → has_char s slash ≡ false → split s ≡ s ∷ []
unfolding split has_char onto_first
split_bare [] h = refl
split_bare (c ∷ s) h = ground (arith, split_bare s)

split-between :
    (m : ℕ) (s : List ℕ) (segs : List (List ℕ))
    → All (IsName m) (s ∷ segs)
    → split (between (s ∷ segs)) ≡ s ∷ segs
unfolding between
split-between m s [] h = split_bare s h.0.no_slash
split-between m s (t ∷ segs) h =
    split-append s (between (t ∷ segs)) h.0.no_slash ∙ ap (λ r. s ∷ r) (split-between m t segs h.1)

split-slash : (p : List ℕ) → split (slash ∷ p) ≡ [] ∷ split p
unfolding split
split-slash p = refl

resolve_empty : (m : ℕ) (cs segs : List (List ℕ)) → resolve m ([] ∷ cs) segs ≡ resolve m cs segs
unfolding resolve enter path_eq
resolve_empty m cs segs = refl

resolve_names :
    (m : ℕ) (cs segs : List (List ℕ))
    → All (IsName m) cs
    → length segs + length cs ≤ 16
    → resolve m cs segs ≡ some (segs ++ cs)
unfolding resolve
resolve_names m [] segs h k = ground (arith, append-nil segs)
resolve_names m (c ∷ cs) segs h k =
    let n = h.0 in
    let put_on : enter m c segs ≡ some (segs ++ (c ∷ [])) =
      unfold enter in rw (n.nonempty, n.not_dot, n.not_dotdot) (ground (arith, n.short)) in
    rw (put_on, resolve)
      (resolve_names m cs (segs ++ (c ∷ [])) h.1 (omega (arith, length-append segs (c ∷ [])))
        ∙ ap some (append_assoc segs (c ∷ []) cs))

-- The names of an absolute path are found again.
pub resolve-join :
    (m : ℕ) (segs : List (List ℕ)) → AreNames m segs → resolve m (split (join segs)) [] ≡ some segs
resolve-join m [] h = unfold join split resolve enter path_eq onto_first in refl
resolve-join m (s ∷ segs) h =
    rw (join-eq-between s segs, split-slash, split-between m s segs h.0, resolve_empty)
      (resolve_names m (s ∷ segs) [] h.0 (omega (arith, h.1)))

-- What a successful normalize_path makes, with segments and a buffer of at least two bytes, is
-- the absolute path of at most 16 plain names, shorter than the buffer, and it is its own normal
-- form.
pub normalize_path_canonical :
    (max_name cap : ℕ) (path : List ℕ) {out : List ℕ}
    → 3 ≤ max_name
    → 2 ≤ cap
    → normalize_path max_name cap path ≡ some out
    → (segs : List (List ℕ)) × (out ≡ join segs)
      × AreNames max_name segs
      × (length out < cap)
      × (normalize_path max_name cap out ≡ some out)
normalize_path_canonical m cap path {out} hm hc e =
    elim (Option-cases (resolve m (split path) [])) [
      | inl refused ↦
          absurd (none_some (rw (normalize_path-eq-resolve m cap path hm hc, refused) at e))
      | inr (segs, found) ↦
          let fits : fit cap (join segs) ≡ some out =
            rw (normalize_path-eq-resolve m cap path hm hc, found) at e in
          let names : AreNames m segs =
            resolve-AreNames m (split path) [] segs (All-split path) (tt, omega arith) found in
          let shape : (out ≡ join segs) × (length out < cap) = unfold fit in ground arith in
          (
            segs,
            shape.0,
            names,
            shape.1,
            rw shape.0 (
                rw (normalize_path-eq-resolve m cap (join segs) hm hc, resolve-join m segs names)
                  (fits ∙ ap some shape.0)),
          )
    ]
  where
    none_some : none ≡ some out → ⊥
    none_some e = cc
