-- ===== src/Fs/Path/Describe.antt =====
-- What a path means: the stack of names that its components leave.
use bright_s.Base.{
  ℕ, ◌-◌, ◌≡◌, refl, ap, List, [], ◌∷◌, ◌++◌, Option, none, some, ◌==◌, ◌||◌, ◌&&◌, ltb,
  if◌then◌else◌, length, take,
}
use bright_s.Fs.Text.{slash, root, path_eq}
use bright_s.Fs.Path.{dot, dotdot}

unfoldable pub onto_first : ℕ → List (List ℕ) → List (List ℕ)
onto_first c [] = (c ∷ []) ∷ []
onto_first c (s ∷ segs) = (c ∷ s) ∷ segs

-- A path cut at its slashes: one component more than there are slashes, some of them empty.
unfoldable pub split : List ℕ → List (List ℕ)
unfolding onto_first
split [] = [] ∷ []
split (c ∷ path) = let more = split path in if c == slash then [] ∷ more else onto_first c more

-- What one component does to the stack of names: nothing if it is empty or ".", ".." takes the
-- last name off, and any other is put on, if it is shorter than `max_name` and there are fewer
-- than 16.
unfoldable pub enter : ℕ → List ℕ → List (List ℕ) → Option (List (List ℕ))
enter max_name seg segs =
    if path_eq seg [] || path_eq seg dot
    then some segs
    else if path_eq seg dotdot
    then some (take (length segs - 1) segs)
    else if ltb (length seg) max_name && ltb (length segs) 16
    then some (segs ++ (seg ∷ []))
    else none

-- The stack that a sequence of components leaves.
unfoldable pub resolve : ℕ → List (List ℕ) → List (List ℕ) → Option (List (List ℕ))
resolve max_name [] segs = some segs
resolve max_name (c ∷ cs) segs = elim (enter max_name c segs) [
  | none ↦ none
  | some more ↦ resolve max_name cs more
]

-- The absolute path of some names.
unfoldable pub join : List (List ℕ) → List ℕ
join [] = root
join (s ∷ []) = slash ∷ s
join (s ∷ t ∷ segs) = (slash ∷ s) ++ join (t ∷ segs)

unfoldable pub fit : ℕ → List ℕ → Option (List ℕ)
fit cap text = if ltb (length text) cap then some text else none

-- The names with a slash between each two.
unfoldable pub between : List (List ℕ) → List ℕ
between [] = []
between (s ∷ []) = s
between (s ∷ t ∷ segs) = s ++ (slash ∷ between (t ∷ segs))

pub join-eq-between :
    (s : List ℕ) (segs : List (List ℕ)) → join (s ∷ segs) ≡ slash ∷ between (s ∷ segs)
unfolding join between
join-eq-between s [] = refl
join-eq-between s (t ∷ segs) = ap (λ r. slash ∷ s ++ r) (join-eq-between t segs)
