-- ===== src/Fs/Ramfs/Tree.antt =====
-- kernel/fs/ramfs.c: the entries in use form a tree of paths, whatever is called.
use mathlib.Core.Bool.{false≢true}
use native.Mathlib.Decide.{ℕ_discrete}
use bright_s.Base.{
  ℕ, ◌<◌, ◌≡◌, ◌≢◌, ◌⊎◌, inl, inr, sym, subst, ◌∙◌, List, none, some, true, false, length,
  length-set, set, arith, Bool-cases, Option-cases, get_or-set_self, get_or-set_ne,
}
use bright_s.Fs.Text.{root, path_eq, path_eq_iff}
use bright_s.Fs.Path.{path_parent}
use bright_s.Fs.Path.Parent.{IsPath}
use bright_s.Fs.Ramfs.{File, Files, max_files, max_name, blank, file_at, find_name, parent_exists}
use bright_s.Fs.Ramfs.Lookup.{Holds, Distinct, find_name-Holds, find_name-none}

-- The parent of a path is the root or a directory in use.
abbrev pub ParentIn : Files → List ℕ → Type 0
ParentIn files p =
    (q : List ℕ) × (path_parent p max_name ≡ some q)
    × ((q ≡ root)
        ⊎ ((j : ℕ) × (j < length files) × Holds files j q × ((file_at files j).is_dir ≡ true)))

-- 32 entries; no two in use have one name; names in use are paths below the root, and their
-- parents are there.
pub record Inv (files : Files) : Type 0 where
  pub full : length files ≡ max_files
  pub distinct : Distinct files
  pub paths :
      (i : ℕ)
      → i < length files
      → (file_at files i).in_use ≡ true
      → IsPath max_name (file_at files i).name
  pub parents :
      (i : ℕ)
      → i < length files
      → (file_at files i).in_use ≡ true
      → ParentIn files (file_at files i).name

-- `ramfs_parent_exists` tests for that.
pub parent_exists-ParentIn :
    (files : Files) (p : List ℕ) → parent_exists files p ≡ true → ParentIn files p
unfolding parent_exists
parent_exists-ParentIn files p e = elim (Option-cases (path_parent p max_name)) [
  | inl missing ↦ absurd (ground arith)
  | inr (q, parent) ↦ elim (Bool-cases (path_eq q root)) [
    | inl top ↦ (q, parent, inl ((path_eq_iff q root).0 top))
    | inr below ↦ elim (Option-cases (find_name 0 files q)) [
      | inl missing ↦ absurd (ground arith)
      | inr (j, found) ↦
          let holds = find_name-Holds files q j found in
          (q, parent, inr (j, holds.0, holds.1, ground arith))
    ]
  ]
]

module _ (files : Files) (i : ℕ) (f : File) (h : i < length files) where
  pub at_changed : file_at (set files i f) i ≡ f
  at_changed = get_or-set_self files i f blank h

  pub at_other : (j : ℕ) → i ≢ j → file_at (set files i f) j ≡ file_at files j
  at_other j apart = get_or-set_ne files i j f blank apart

  -- A property of the entries holds after a change if it holds of the new entry and of the others.
  pub by_entry {ℓ} :
      (P : ℕ → File → Type ℓ)
      → P i f
      → ((j : ℕ) → i ≢ j → P j (file_at files j))
      → (j : ℕ) → P j (file_at (set files i f) j)
  by_entry P new old j = elim (ℕ_discrete i j) [
    | yes same ↦
        subst (λ k. P k (file_at (set files i f) k)) same (subst (P i) (sym at_changed) new)
    | no apart ↦ subst (P j) (sym (at_other j apart)) (old j apart)
  ]

-- A parent that is still there after a change.
pub ParentIn-mono :
    (files : Files) (i : ℕ) (f : File) (p : List ℕ)
    → i < length files
    → ParentIn files p
    → ((q : List ℕ)
        → path_parent p max_name ≡ some q
        → Holds files i q
        → (file_at files i).is_dir ≡ true
        → (f.in_use ≡ true) × (f.name ≡ q) × (f.is_dir ≡ true))
    → ParentIn (set files i f) p
ParentIn-mono files i f p h (q, e, inl top) keep = (q, e, inl top)
ParentIn-mono files i f p h (q, e, inr (j, jh, holds, dir)) keep =
    (q, e, inr (j, rw (length-set files i f) jh, (there.0, there.1), there.2))
  where
    there :
        ((file_at (set files i f) j).in_use ≡ true)
        × ((file_at (set files i f) j).name ≡ q)
        × ((file_at (set files i f) j).is_dir ≡ true)
    there = elim (ℕ_discrete i j) [
      | yes same ↦
          let k = keep q e (rw same holds) (rw same dir) in
          rw (← same) (rw (at_changed files i f h) k)
      | no apart ↦ rw (at_other files i f h j apart) (holds.0, holds.1, dir)
    ]

module _ (files : Files) (i : ℕ) (f : File) (h : i < length files) where
  pub Holds-changed : (n : List ℕ) → Holds (set files i f) i n → (f.in_use ≡ true) × (f.name ≡ n)
  Holds-changed n = subst (λ g. (g.in_use ≡ true) × (g.name ≡ n)) (at_changed files i f h)

  pub Holds-other : (j : ℕ) (n : List ℕ) → i ≢ j → Holds (set files i f) j n → Holds files j n
  Holds-other j n apart =
      subst (λ g. (g.in_use ≡ true) × (g.name ≡ n)) (at_other files i f h j apart)

  -- The name of the new entry is no other's, so names stay distinct.
  change-Distinct :
      Distinct files
      → (f.in_use ≡ true → (j : ℕ) → i ≢ j → j < length files → ¬ Holds files j f.name)
      → Distinct (set files i f)
  change-Distinct distinct only a b n ha hb va vb =
      let ha' : a < length files = rw (length-set files i f) at ha in
      let hb' : b < length files = rw (length-set files i f) at hb in
      elim (ℕ_discrete i a) [
        | yes ia ↦ elim (ℕ_discrete i b) [
          | yes ib ↦ sym ia ∙ ib
          | no nb ↦
              let new = Holds-changed n (subst (λ k. Holds (set files i f) k n) (sym ia) va) in
              absurd
                (only new.0 b nb hb' (subst (Holds files b) (sym new.1) (Holds-other b n nb vb)))
        ]
        | no na ↦ elim (ℕ_discrete i b) [
          | yes ib ↦
              let new = Holds-changed n (subst (λ k. Holds (set files i f) k n) (sym ib) vb) in
              absurd
                (only new.0 a na ha' (subst (Holds files a) (sym new.1) (Holds-other a n na va)))
          | no nb ↦ distinct a b n ha' hb' (Holds-other a n na va) (Holds-other b n nb vb)
        ]
      ]

  pub change-Inv :
      Inv files
      → (f.in_use ≡ true → IsPath max_name f.name)
      → (f.in_use ≡ true → ParentIn (set files i f) f.name)
      → (f.in_use ≡ true → (j : ℕ) → i ≢ j → j < length files → ¬ Holds files j f.name)
      → ((j : ℕ)
          → i ≢ j
          → j < length files
          → (file_at files j).in_use ≡ true
          → ParentIn (set files i f) (file_at files j).name)
      → Inv (set files i f)
  change-Inv v path parent only others = record {
    full = length-set files i f ∙ v.full;
    distinct = change-Distinct v.distinct only;
    paths = λ j hj.
        by_entry files i f h (λ j g. j < length files → g.in_use ≡ true → IsPath max_name g.name)
          (λ _. path) (λ j _. v.paths j) j (rw (length-set files i f) at hj);
    parents = λ j hj.
        by_entry files i f h
          (λ j g. j < length files → g.in_use ≡ true → ParentIn (set files i f) g.name)
          (λ _. parent) others j (rw (length-set files i f) at hj);
  }

-- Changing an entry without touching its name or kind keeps the tree.
pub touch-Inv :
    (files : Files) (i : ℕ) (f : File)
    → Inv files
    → i < length files
    → f.in_use ≡ (file_at files i).in_use
    → f.name ≡ (file_at files i).name
    → f.is_dir ≡ (file_at files i).is_dir
    → Inv (set files i f)
touch-Inv files i f v h used named kind =
    change-Inv files i f h v (λ u. subst (IsPath max_name) (sym named) (v.paths i h (sym used ∙ u)))
      (λ u. subst (ParentIn (set files i f)) (sym named) (still _ (v.parents i h (sym used ∙ u))))
      (λ u j apart hj holds. apart (v.distinct i j f.name h hj (sym used ∙ u, sym named) holds))
      (λ j apart hj u. still _ (v.parents j hj u))
  where
    still : (p : List ℕ) → ParentIn files p → ParentIn (set files i f) p
    still p w =
        ParentIn-mono files i f p h w
          (λ q e holds dir. (used ∙ holds.0, named ∙ holds.1, kind ∙ dir))

-- A new entry at a free place, under a path that no entry has and whose parent is there.
pub add-Inv :
    (files : Files) (i : ℕ) (f : File)
    → Inv files
    → i < length files
    → (file_at files i).in_use ≡ false
    → IsPath max_name f.name
    → ParentIn files f.name
    → find_name 0 files f.name ≡ none
    → Inv (set files i f)
add-Inv files i f v h free path parent fresh =
    change-Inv files i f h v (λ u. path) (λ u. still f.name parent)
      (λ u j apart hj holds. find_name-none 0 files f.name j fresh hj holds)
      (λ j apart hj u. still _ (v.parents j hj u))
  where
    still : (p : List ℕ) → ParentIn files p → ParentIn (set files i f) p
    still p w =
        ParentIn-mono files i f p h w (λ q e holds dir. absurd (false≢true (sym free ∙ holds.0)))
