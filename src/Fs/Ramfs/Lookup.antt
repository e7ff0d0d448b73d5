-- ===== src/Fs/Ramfs/Lookup.antt =====
-- kernel/fs/ramfs.c: what the searches of the table find.
use bright_s.Base.{
  ℕ, zero, suc, ◌+◌, ◌<◌, ◌≡◌, ◌⊎◌, inl, inr, ap, ◌∙◌, List, [], ◌∷◌, none, some, true, false,
  length, arith, Bool-cases, Option-cases,
}
use bright_s.Fs.Text.{path_eq, path_eq_iff}
use bright_s.Fs.Ramfs.{Files, file_at, find_free, find_name}

-- Entry i is in use under a name.
abbrev pub Holds : Files → ℕ → List ℕ → Type 0
Holds files i name = ((file_at files i).in_use ≡ true) × ((file_at files i).name ≡ name)

-- No two entries in use have one name.
abbrev pub Distinct : Files → Type 0
Distinct files =
    (i j : ℕ) (name : List ℕ)
    → i < length files
    → j < length files
    → Holds files i name
    → Holds files j name
    → i ≡ j

-- What is found from the k-th entry on is an entry of the table with that name.
abbrev FoundFrom : ℕ → Files → List ℕ → ℕ → Type 0
FoundFrom k files name i = (j : ℕ) × (i ≡ k + j) × (j < length files) × Holds files j name

find_name_found :
    (k : ℕ) (files : Files) (name : List ℕ) (i : ℕ)
    → find_name k files name ≡ some i
    → FoundFrom k files name i
unfolding find_name
find_name_found k [] name i e = absurd (ground arith)
find_name_found k (f ∷ files) name i e =
    pick (Bool-cases f.in_use) (Bool-cases (path_eq f.name name))
      (find_name_found (k + 1) files name i)
  where
    later : FoundFrom (k + 1) files name i → FoundFrom k (f ∷ files) name i
    later (j, at, inside, holds) = (suc j, omega arith, omega arith, holds)

    pick :
        (f.in_use ≡ true) ⊎ (f.in_use ≡ false)
        → (path_eq f.name name ≡ true) ⊎ (path_eq f.name name ≡ false)
        → (find_name (k + 1) files name ≡ some i → FoundFrom (k + 1) files name i)
        → FoundFrom k (f ∷ files) name i
    pick (inr free) c ih = later (ih (ground arith))
    pick (inl used) (inr other) ih = later (ih (ground arith))
    pick (inl used) (inl same) ih =
        (0, ground arith, omega arith, (used, (path_eq_iff f.name name).0 same))

-- What `find_name` returns is an entry in use with that name.
pub find_name-Holds :
    (files : Files) (name : List ℕ) (i : ℕ)
    → find_name 0 files name ≡ some i
    → (i < length files) × Holds files i name
find_name-Holds files name i e =
    let (j, at, inside, holds) = find_name_found 0 files name i e in
    let same : i ≡ j = omega arith in rw same (inside, holds)

-- It returns nothing only if no entry in use has the name.
pub find_name-none :
    (k : ℕ) (files : Files) (name : List ℕ) (i : ℕ)
    → find_name k files name ≡ none
    → i < length files
    → ¬ Holds files i name
unfolding find_name
find_name-none k [] name i e h holds = absurd (omega arith)
find_name-none k (f ∷ files) name zero e h holds = ground (arith, path_eq_iff f.name name)
find_name-none k (f ∷ files) name (suc i) e h holds =
    find_name-none (k + 1) files name i (ground arith) (omega arith) holds

-- Where names are distinct, each entry in use is found by its name.
pub find_name_of_Holds :
    (files : Files) (name : List ℕ) (i : ℕ)
    → Distinct files
    → i < length files
    → Holds files i name
    → find_name 0 files name ≡ some i
find_name_of_Holds files name i distinct h holds = elim (Option-cases (find_name 0 files name)) [
  | inl missing ↦ absurd (find_name-none 0 files name i missing h holds)
  | inr (j, found) ↦
      let other = find_name-Holds files name j found in
      found ∙ ap some (distinct j i name other.0 h other.1 holds)
]

-- `find_free` returns an entry that is not in use, and nothing only if all are.
pub find_free_found :
    (k : ℕ) (files : Files) (i : ℕ)
    → find_free k files ≡ some i
    → (j : ℕ) × (i ≡ k + j) × (j < length files) × ((file_at files j).in_use ≡ false)
unfolding find_free
find_free_found k [] i e = absurd (ground arith)
find_free_found k (f ∷ files) i e = pick (Bool-cases f.in_use) (find_free_found (k + 1) files i)
  where
    pick :
        (f.in_use ≡ true) ⊎ (f.in_use ≡ false)
        → (find_free (k + 1) files ≡ some i
            → (j : ℕ) × (i ≡ k + 1 + j) × (j < length files) × ((file_at files j).in_use ≡ false))
        → (j : ℕ) × (i ≡ k + j)
          × (j < length (f ∷ files))
          × ((file_at (f ∷ files) j).in_use ≡ false)
    pick (inr free) ih = (0, ground arith, omega arith, free)
    pick (inl used) ih =
        let (j, at, inside, free) = ih (ground arith) in (suc j, omega arith, omega arith, free)

pub find_free_lem :
    (files : Files) (i : ℕ)
    → find_free 0 files ≡ some i
    → (i < length files) × ((file_at files i).in_use ≡ false)
find_free_lem files i e =
    let (j, at, inside, free) = find_free_found 0 files i e in
    let same : i ≡ j = omega arith in rw same (inside, free)

pub find_free-none :
    (k : ℕ) (files : Files) (i : ℕ)
    → find_free k files ≡ none
    → i < length files
    → (file_at files i).in_use ≡ true
unfolding find_free
find_free-none k [] i e h = absurd (omega arith)
find_free-none k (f ∷ files) zero e h = ground arith
find_free-none k (f ∷ files) (suc i) e h =
    find_free-none (k + 1) files i (ground arith) (omega arith)
