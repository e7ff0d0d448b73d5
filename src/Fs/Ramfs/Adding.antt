-- ===== src/Fs/Ramfs/Adding.antt =====
-- kernel/fs/ramfs.c: when making an entry succeeds, and when it does not, told without the searches
-- of the code.
use bright_s.Base.{
  ℕ, zero, suc, ◌+◌, ◌<◌, ◌≡◌, ◌≢◌, ◌⊎◌, inl, inr, sym, ap, subst, ◌∙◌, List, [], ◌∷◌, Option, none,
  some, true, false, ◌==◌, if◌then◌else◌, length, length-set, arith, Bool-cases,
}
use bright_s.Fs.Text.{root, path_eq, path_eq_iff}
use bright_s.Fs.Path.{normalize_path}
use bright_s.Fs.Path.Parent.{Cut, IsPath, path_parent-IsPath}
use bright_s.Fs.Ramfs.{File, Files, max_name, file_at, find_free, parent_exists}
use bright_s.Fs.Ramfs.Names.{add_file}
use bright_s.Fs.Ramfs.Lookup.{
  Holds, Distinct, find_name-Holds, find_name-none, find_name_of_Holds, find_free_lem,
  find_free-none,
}
use bright_s.Fs.Ramfs.Tree.{parent_exists-ParentIn, at_changed, at_other}
use bright_s.Fs.Ramfs.Edit.{
  Names, Added, Refused, AddResult, added, refused, bad_path, at_root, no_parent, exists_already,
  table_full, add_file_lem,
}

-- The text before the last slash of a path, or the root if there is none.
abbrev pub parent_text : {p : List ℕ} → Cut p → List ℕ
parent_text c = if length c.before == 0 then root else c.before

-- That text is the root or the name of a directory in use.
abbrev pub ParentThere : Files → {p : List ℕ} → Cut p → Type 0
ParentThere files c =
    (parent_text c ≡ root)
    ⊎ ((j : ℕ) × (j < length files)
        × Holds files j (parent_text c)
        × ((file_at files j).is_dir ≡ true))

-- Why no entry is made: the name has no normal form, it is the root, its parent is not there, an
-- entry in use has it, or all entries are in use.
pub data Reason (files : Files) (name : List ℕ) : Type 0 where
  malformed : normalize_path max_name max_name name ≡ none → Reason files name
  is_root : normalize_path max_name max_name name ≡ some root → Reason files name
  orphan : (p : List ℕ) (n : Names name p) → ¬ ParentThere files n.is_path.cut → Reason files name
  taken :
      (p : List ℕ) (i : ℕ) → Names name p → i < length files → Holds files i p → Reason files name
  all_used : ((j : ℕ) → j < length files → (file_at files j).in_use ≡ true) → Reason files name

-- A new entry: it is the first that was not in use, no entry in use had its name, and its parent
-- is there.
pub record Made (fill : File → File) (files : Files) (name : List ℕ) (r : Option ℕ × Files)
    : Type 0 where
  pub path : List ℕ
  pub slot : ℕ
  pub names : Names name path
  pub parent : ParentThere files names.is_path.cut
  pub fresh : (j : ℕ) → j < length files → ¬ Holds files j path
  pub inside : slot < length files
  pub free : (file_at files slot).in_use ≡ false
  pub least : (j : ℕ) → j < slot → (file_at files j).in_use ≡ true
  pub returned : r.0 ≡ some slot
  pub entry : file_at r.1 slot ≡ fill (record (file_at files slot) { name = path })
  pub others : (j : ℕ) → slot ≢ j → file_at r.1 j ≡ file_at files j
  pub size : length r.1 ≡ length files

find_free_first :
    (k : ℕ) (files : Files) (i : ℕ)
    → find_free k files ≡ some i
    → (j : ℕ) → k + j < i
    → (file_at files j).in_use ≡ true
unfolding find_free
find_free_first k [] i e j h = absurd (ground arith)
find_free_first k (f ∷ files) i e zero h = elim (Bool-cases f.in_use) [
  | inl used ↦ used
  | inr free ↦ absurd (ground arith)
]
find_free_first k (f ∷ files) i e (suc j) h = elim (Bool-cases f.in_use) [
  | inl used ↦ find_free_first (k + 1) files i (ground arith) j (omega arith)
  | inr free ↦ absurd (ground arith)
]

there :
    (files : Files) (p : List ℕ) (v : IsPath max_name p)
    → parent_exists files p ≡ true
    → ParentThere files v.cut
there files p v e =
    let (q, is_parent, found) = parent_exists-ParentIn files p e in
    let same : q ≡ parent_text v.cut =
      some_inj q (parent_text v.cut) (sym is_parent ∙ path_parent-IsPath max_name p v) in
    subst
      (λ q.
        (q ≡ root)
        ⊎ ((j : ℕ) × (j < length files) × Holds files j q × ((file_at files j).is_dir ≡ true)))
      same found
  where
    some_inj : (a b : List ℕ) → some a ≡ some b → a ≡ b
    some_inj a b h = cc

not_there :
    (files : Files) (p : List ℕ) (v : IsPath max_name p)
    → Distinct files
    → parent_exists files p ≡ false
    → ¬ ParentThere files v.cut
unfolding parent_exists
not_there files p v distinct e (inl top) =
    let q = path_parent-IsPath max_name p v in
    let t : path_eq (parent_text v.cut) root ≡ true =
      (path_eq_iff (parent_text v.cut) root).1 top in
    absurd (ground arith)
not_there files p v distinct e (inr (j, inside, holds, dir)) =
    let q = path_parent-IsPath max_name p v in
    let found = find_name_of_Holds files (parent_text v.cut) j distinct inside holds in
    elim (Bool-cases (path_eq (parent_text v.cut) root)) [
      | inl top ↦ absurd (ground arith)
      | inr below ↦ absurd (ground arith)
    ]

Added-Made :
    (fill : File → File) (files : Files) (name : List ℕ) (r : Option ℕ × Files)
    → Added fill files name r
    → Made fill files name r
Added-Made fill files name r a =
    let g = fill (record (file_at files a.slot) { name = a.path }) in
    let free = find_free_lem files a.slot a.free in
    record {
      path = a.path;
      slot = a.slot;
      names = a.names;
      parent = there files a.path a.names.is_path a.parent;
      fresh = λ j h. find_name-none 0 files a.path j a.fresh h;
      inside = free.0;
      free = free.1;
      least = λ j h. find_free_first 0 files a.slot a.free j (omega arith);
      returned = ap (λ r. r.0) a.result;
      entry = ap (λ r. file_at r.1 a.slot) a.result ∙ at_changed files a.slot g free.0;
      others = λ j apart. ap (λ r. file_at r.1 j) a.result ∙ at_other files a.slot g free.0 j apart;
      size = ap (λ r. length r.1) a.result ∙ length-set files a.slot g;
    }

reason : (files : Files) (name : List ℕ) → Distinct files → Refused files name → Reason files name
reason files name distinct (bad_path e) = malformed e
reason files name distinct (at_root p e top) = is_root (e ∙ ap some ((path_eq_iff p root).0 top))
reason files name distinct (no_parent p n e) = orphan p n (not_there files p n.is_path distinct e)
reason files name distinct (exists_already p i n e) =
    let holds = find_name-Holds files p i e in taken p i n holds.0 holds.1
reason files name distinct (table_full e) = all_used (λ j h. find_free-none 0 files j e h)

-- In a table in which no two entries in use have one name, brights_ramfs_mkdir,
-- brights_ramfs_create and brights_ramfs_symlink either make the first entry that is not in use
-- into one with the normal form of the name, which no entry in use had and before whose last
-- slash there is nothing, the root or the name of a directory in use, and change no other entry;
-- or they return -1 and change nothing, and then the name has no normal form, is the root, has
-- no such parent or is that of an entry in use, or all entries are in use.
pub add_file-Made :
    (fill : File → File) (files : Files) (name : List ℕ)
    → Distinct files
    → Made fill files name (add_file fill files name)
      ⊎ (Reason files name × (add_file fill files name ≡ (none, files)))
add_file-Made fill files name distinct = go (add_file_lem fill files name)
  where
    go :
        AddResult fill files name (add_file fill files name)
        → Made fill files name (add_file fill files name)
          ⊎ (Reason files name × (add_file fill files name ≡ (none, files)))
    go (added a) = inl (Added-Made fill files name _ a)
    go (refused why e) = inr (reason files name distinct why, e)
