-- ===== src/Fs/Ramfs/Listing.antt =====
-- kernel/fs/ramfs.c: the listing of a directory.
use mathlib.Core.Bool.{false≢true}
use mathlib.Core.List.Memᴰ
use mathlib.Core.List.{Memᴰ}
use bright_s.Base.{
  ℕ, zero, suc, ◌+◌, ◌≤◌, ◌<◌, ◌≡◌, ◌≢◌, ◌⊎◌, ◌↔◌, inl, inr, refl, sym, ap, subst, ◌∙◌, List, [],
  ◌∷◌, ◌++◌, Option, none, some, true, false, ◌==◌, not, leb, if◌then◌else◌, length, drop, arith,
  Bool-cases,
}
use bright_s.Base.Splice.{drop-append}
use bright_s.Fs.Text.{slash, strncmp_eq, has_char, char_at, ends_at}
use bright_s.Fs.Path.{normalize_path}
use bright_s.Fs.Ramfs.{File, Files, max_name, file_at}
use bright_s.Fs.Ramfs.Children.{strncmp_eq-append}

-- The loop of `brights_ramfs_get_dir_entries`: the names that it stores, the number of those
-- before being `count`.
unfoldable pub dir_entries : Files → List ℕ → ℕ → ℕ → List (List ℕ)
dir_entries [] path max_entries count = []
dir_entries (f ∷ files) path max_entries count =
    let rest = dir_entries files path max_entries count in
    let more = dir_entries files path max_entries (count + 1) in
    let entry_name = drop (length path) f.name in
    if leb max_entries count
    then []
    else if not f.in_use
    then rest
    else if not (strncmp_eq f.name path (length path))
    then rest
    else if ends_at entry_name 0
    then rest
    else if has_char entry_name slash
    then rest
    else (if char_at entry_name 0 == slash then drop 1 entry_name else entry_name) ∷ more

-- `brights_ramfs_get_dir_entries`, whose result is the number of these names.
unfoldable pub get_dir_entries : Files → List ℕ → ℕ → Option (List (List ℕ))
get_dir_entries files path max_entries = elim (normalize_path max_name max_name path) [
  | none ↦ none
  | some normal_path ↦ some (dir_entries files normal_path max_entries 0)
]

-- An entry in use whose name is the path of the directory followed by a name without a slash.
abbrev pub Lists : File → List ℕ → List ℕ → Type 0
Lists f path n = (f.in_use ≡ true) × (f.name ≡ path ++ n) × (n ≢ []) × (has_char n slash ≡ false)

strncmp_eq_lem : (a p : List ℕ) → strncmp_eq a p (length p) ≡ true → a ≡ p ++ drop (length p) a
unfolding strncmp_eq
strncmp_eq_lem a [] e = refl
strncmp_eq_lem [] (c ∷ p) e = absurd (ground arith)
strncmp_eq_lem (b ∷ a) (c ∷ p) e =
    let same : b ≡ c = ground arith in rw same (ap (λ r. c ∷ r) (strncmp_eq_lem a p (ground arith)))

no_slash : (n : List ℕ) → has_char n slash ≡ false → (char_at n 0 == slash) ≡ false
unfolding has_char
no_slash [] e = ground arith
no_slash (x ∷ n) e = ground arith

nonempty : (n : List ℕ) → ends_at n 0 ≡ false → n ≢ []
nonempty [] e h = ground arith
nonempty (x ∷ n) e h = ground arith

empty : (n : List ℕ) → ends_at n 0 ≡ true → n ≡ []
empty [] e = refl
empty (x ∷ n) e = absurd (ground arith)

-- One turn of the loop.
abbrev Turn : File → Files → List ℕ → ℕ → ℕ → Type 0
Turn f files path max k =
    ((n : List ℕ) × Lists f path n
      × (dir_entries (f ∷ files) path max k ≡ n ∷ dir_entries files path max (k + 1)))
    ⊎ (((n : List ℕ) → ¬ Lists f path n)
        × (dir_entries (f ∷ files) path max k ≡ dir_entries files path max k))

-- The name that is looked at is the only one that the entry can give.
only_name : (f : File) (path n : List ℕ) → Lists f path n → n ≡ drop (length path) f.name
only_name f path n l = rw l.1 (sym (drop-append path n))

turn : (f : File) (files : Files) (path : List ℕ) (max k : ℕ) → k < max → Turn f files path max k
unfolding dir_entries
turn f files path max k h =
    go (Bool-cases f.in_use) (Bool-cases (strncmp_eq f.name path (length path)))
      (Bool-cases (ends_at e 0)) (Bool-cases (has_char e slash))
  where
    e : List ℕ
    e = drop (length path) f.name

    below : leb max k ≡ false
    below = ground arith

    go :
        (f.in_use ≡ true) ⊎ (f.in_use ≡ false)
        → (strncmp_eq f.name path (length path) ≡ true)
          ⊎ (strncmp_eq f.name path (length path) ≡ false)
        → (ends_at e 0 ≡ true) ⊎ (ends_at e 0 ≡ false)
        → (has_char e slash ≡ true) ⊎ (has_char e slash ≡ false)
        → Turn f files path max k
    go (inr free) b c d = inr (λ n l. false≢true (sym free ∙ l.0), rw (below, free) refl)
    go (inl used) (inr other) c d = inr (
      λ n l. false≢true (sym other ∙ rw l.1 (strncmp_eq-append path n)),
      rw (below, used, other) refl,
    )
    go (inl used) (inl prefix) (inl end) d =
        inr (λ n l. l.2 (only_name f path n l ∙ empty e end), rw (below, used, prefix, end) refl)
    go (inl used) (inl prefix) (inr more) (inl deep) = inr (
      λ n l. false≢true (sym l.3 ∙ (ap (λ m. has_char m slash) (only_name f path n l) ∙ deep)),
      rw (below, used, prefix, more, deep) refl,
    )
    go (inl used) (inl prefix) (inr more) (inr flat) = inl (
      e,
      (used, strncmp_eq_lem f.name path prefix, nonempty e more, flat),
      rw (below, used, prefix, more, flat, no_slash e flat) refl,
    )

dir_entries_lem :
    (files : Files) (path : List ℕ) (max k : ℕ) (n : List ℕ)
    → k + length files ≤ max
    → Memᴰ n (dir_entries files path max k)
      ↔ ((i : ℕ) × (i < length files) × Lists (file_at files i) path n)
unfolding dir_entries
dir_entries_lem [] path max k n h = (λ m. absurd (Memᴰ.not-nil m), λ l. absurd (omega (arith, l.1)))
dir_entries_lem (f ∷ files) path max k n h =
    go (turn f files path max k (omega arith)) (dir_entries_lem files path max k n (omega arith))
      (dir_entries_lem files path max (k + 1) n (omega arith))
  where
    At : Files → Type 0
    At g = (i : ℕ) × (i < length g) × Lists (file_at g i) path n

    later : At files → At (f ∷ files)
    later (i, hi, l) = (suc i, omega arith, l)

    go :
        Turn f files path max k
        → Memᴰ n (dir_entries files path max k) ↔ At files
        → Memᴰ n (dir_entries files path max (k + 1)) ↔ At files
        → Memᴰ n (dir_entries (f ∷ files) path max k) ↔ At (f ∷ files)
    go (inl (m, lists, e)) ih ih' = (there, back)
      where
        there : Memᴰ n (dir_entries (f ∷ files) path max k) → At (f ∷ files)
        there d = elim (Memᴰ.cases_cons (subst (Memᴰ n) e d)) [
          | inl same ↦ (0, omega arith, subst (Lists f path) (sym same) lists)
          | inr tl ↦ later (ih'.0 tl)
        ]

        back : At (f ∷ files) → Memᴰ n (dir_entries (f ∷ files) path max k)
        back (zero, hi, l) =
            subst (Memᴰ n) (sym e)
              (Memᴰ.head (only_name f path n l ∙ sym (only_name f path m lists)))
        back (suc i, hi, l) = subst (Memᴰ n) (sym e) (Memᴰ.tail (ih'.1 (i, omega arith, l)))
    go (inr (never, e)) ih ih' = (λ d. later (ih.0 (subst (Memᴰ n) e d)), back)
      where
        back : At (f ∷ files) → Memᴰ n (dir_entries (f ∷ files) path max k)
        back (zero, hi, l) = absurd (never n l)
        back (suc i, hi, l) = subst (Memᴰ n) (sym e) (ih.1 (i, omega arith, l))

-- With room for as many names as the table has entries, brights_ramfs_get_dir_entries of a path
-- with a normal form stores exactly the names n, not empty and without a slash, for which some
-- entry in use has the normal form followed at once by n as its name.
pub get_dir_entries_lem :
    (files : Files) (path p : List ℕ) (max : ℕ)
    → normalize_path max_name max_name path ≡ some p
    → length files ≤ max
    → (out : List (List ℕ)) × (get_dir_entries files path max ≡ some out)
      × ((n : List ℕ) → Memᴰ n out ↔ ((i : ℕ) × (i < length files) × Lists (file_at files i) p n))
unfolding get_dir_entries
get_dir_entries_lem files path p max e h = (
  dir_entries files p max 0,
  rw (e, get_dir_entries) refl,
  λ n. dir_entries_lem files p max 0 n (omega arith),
)
