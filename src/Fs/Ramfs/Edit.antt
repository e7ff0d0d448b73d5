-- ===== src/Fs/Ramfs/Edit.antt =====
-- kernel/fs/ramfs.c: what making and removing an entry does to the table, on every branch.
use bright_s.Base.{
  ℕ, ◌-◌, ◌≡◌, ◌⊎◌, inl, inr, refl, ap, ◌∙◌, List, [], ◌∷◌, Option, none, some, Bool, true, false,
  ◌&&◌, ◌==◌, length, set, take_all, arith, Bool-cases, Option-cases,
}
use bright_s.Fs.Text.{root, path_eq, path_len_limited, path_len_limited_lem}
use bright_s.Fs.Path.{normalize_path}
use bright_s.Fs.Path.Parent.{IsPath, normalize_path-IsPath}
use bright_s.Fs.Ramfs.{
  File, Files, max_name, file_at, find_free, find_name, parent_exists, dir_has_children,
}
use bright_s.Fs.Ramfs.Names.{add_file, unlink, unlinked, find_entry}

-- A name that `normalize_path` takes to p, which is not the root.
pub record Names (name p : List ℕ) : Type 0 where
  pub normal : normalize_path max_name max_name name ≡ some p
  pub below_root : path_eq p root ≡ false
  pub is_path : IsPath max_name p

-- Why `normalize_path` and the test for the root let a name pass, or refuse it.
pub Names-cases :
    (name : List ℕ)
    → ((p : List ℕ) × Names name p)
      ⊎ ((normalize_path max_name max_name name ≡ none)
          ⊎ ((p : List ℕ) × (normalize_path max_name max_name name ≡ some p)
              × (path_eq p root ≡ true)))
Names-cases name = pick (Option-cases (normalize_path max_name max_name name))
  where
    pick :
        (normalize_path max_name max_name name ≡ none)
          ⊎ ((p : List ℕ) × (normalize_path max_name max_name name ≡ some p))
        → ((p : List ℕ) × Names name p)
          ⊎ ((normalize_path max_name max_name name ≡ none)
              ⊎ ((p : List ℕ) × (normalize_path max_name max_name name ≡ some p)
                  × (path_eq p root ≡ true)))
    pick (inl bad) = inr (inl bad)
    pick (inr (p, e)) = elim (Bool-cases (path_eq p root)) [
      | inl at_root ↦ inr (inr (p, e, at_root))
      | inr below ↦ inl (
        p,
        record {
          normal = e;
          below_root = below;
          is_path = normalize_path-IsPath max_name name (omega arith) e below;
        },
      )
    ]

-- A new entry: the name is a path whose parent is there, which no entry has yet, and the entry
-- taken was free.
pub record Added (fill : File → File) (files : Files) (name : List ℕ) (r : Option ℕ × Files)
    : Type 0 where
  pub path : List ℕ
  pub slot : ℕ
  pub names : Names name path
  pub parent : parent_exists files path ≡ true
  pub fresh : find_name 0 files path ≡ none
  pub free : find_free 0 files ≡ some slot
  pub result : r ≡ (some slot, set files slot (fill (record (file_at files slot) { name = path })))

-- Why no entry is made.
pub data Refused (files : Files) (name : List ℕ) : Type 0 where
  bad_path : normalize_path max_name max_name name ≡ none → Refused files name
  at_root :
      (p : List ℕ)
      → normalize_path max_name max_name name ≡ some p
      → path_eq p root ≡ true
      → Refused files name
  no_parent : (p : List ℕ) → Names name p → parent_exists files p ≡ false → Refused files name
  exists_already :
      (p : List ℕ) (i : ℕ) → Names name p → find_name 0 files p ≡ some i → Refused files name
  table_full : find_free 0 files ≡ none → Refused files name

-- The two outcomes exclude one another.
pub data AddResult (fill : File → File) (files : Files) (name : List ℕ) (r : Option ℕ × Files)
    : Type 0 where
  added : Added fill files name r → AddResult fill files name r
  refused : Refused files name → r ≡ (none, files) → AddResult fill files name r

-- The copy of a name of a path takes all of it.
pub copied_name :
    (p : List ℕ) → IsPath max_name p → path_len_limited p (max_name - 1) 0 ≡ some (length p)
copied_name p v =
    let fits = v.fits in
    path_len_limited_lem p (max_name - 1) 0 (omega arith) ∙ ap some (omega arith)

IsPath-pos : (p : List ℕ) → IsPath max_name p → (length p == 0) ≡ false
IsPath-pos [] v = absurd (omega (arith, v.cut.named, ap length v.cut.whole))
IsPath-pos (c ∷ p) v = ground arith

add_named :
    (fill : File → File) (files : Files) (name p : List ℕ)
    → Names name p
    → AddResult fill files name (add_file fill files name)
unfolding add_file
add_named fill files name p n = elim (Bool-cases (parent_exists files p)) [
  | inr orphan ↦
      refused (no_parent p n orphan) (rw (n.normal, add_file) (rw (n.below_root, orphan) refl))
  | inl parent ↦ elim (Option-cases (find_name 0 files p)) [
    | inr (i, old) ↦
        refused (exists_already p i n old)
          (rw (n.normal, add_file) (rw (n.below_root, parent, old) refl))
    | inl fresh ↦ elim (Option-cases (find_free 0 files)) [
      | inl full ↦
          refused (table_full full)
            (rw (n.normal, add_file) (rw (n.below_root, parent, fresh, full) refl))
      | inr (slot, free) ↦ added (record {
        path = p;
        slot = slot;
        names = n;
        parent = parent;
        fresh = fresh;
        free = free;
        result =
            rw (n.normal, add_file)
              (rw (n.below_root, parent, fresh, free)
                (rw
                  (
                    copied_name p n.is_path,
                    IsPath-pos p n.is_path,
                    take_all (length p) p (omega arith),
                  )
                  refl));
      })
    ]
  ]
]

-- brights_ramfs_mkdir, brights_ramfs_create and brights_ramfs_symlink either make an entry with
-- the normal form of the name in a free slot, or return -1 and change nothing, for one of five
-- reasons: no normal form, the root, no parent directory, an entry of that name, or a full
-- table.
pub add_file_lem :
    (fill : File → File) (files : Files) (name : List ℕ)
    → AddResult fill files name (add_file fill files name)
unfolding add_file
add_file_lem fill files name = elim (Names-cases name) [
  | inl (p, n) ↦ add_named fill files name p n
  | inr (inl bad) ↦ refused (bad_path bad) (rw (bad, add_file) refl)
  | inr (inr (p, e, top)) ↦ refused (at_root p e top) (rw (e, add_file) (rw top refl))
]

-- A removed entry: it was found under the normal form of the name, and it is no directory with
-- something in it.
pub record Removed (files : Files) (name : List ℕ) (r : Bool × Files) : Type 0 where
  pub path : List ℕ
  pub slot : ℕ
  pub names : Names name path
  pub found : find_name 0 files path ≡ some slot
  pub no_children : ((file_at files slot).is_dir && dir_has_children files path) ≡ false
  pub result : r ≡ (true, set files slot (unlinked (file_at files slot)))

-- `brights_ramfs_unlink` removes such an entry or changes nothing.
pub unlink_lem :
    (files : Files) (name : List ℕ)
    → Removed files name (unlink files name) ⊎ (unlink files name ≡ (false, files))
unfolding unlink
unlink_lem files name = elim (Names-cases name) [
  | inr (inl bad) ↦ inr (rw (bad, unlink) refl)
  | inr (inr (p, e, top)) ↦ inr (rw (e, unlink) (rw top refl))
  | inl (p, n) ↦ elim (Option-cases (find_name 0 files p)) [
    | inl missing ↦ inr (rw (n.normal, unlink) (rw (n.below_root, missing) refl))
    | inr (slot, found) ↦
        elim (Bool-cases ((file_at files slot).is_dir && dir_has_children files p)) [
          | inl busy ↦ inr (rw (n.normal, unlink) (rw (n.below_root, found) (rw busy refl)))
          | inr idle ↦ inl (record {
            path = p;
            slot = slot;
            names = n;
            found = found;
            no_children = idle;
            result = rw (n.normal, unlink) (rw (n.below_root, found) (rw idle refl));
          })
        ]
  ]
]

-- The entry that `chmod` and `chown` change.
pub find_entry_lem :
    (files : Files) (name : List ℕ) (i : ℕ)
    → find_entry files name ≡ some i
    → (p : List ℕ) × Names name p × (find_name 0 files p ≡ some i)
unfolding find_entry
find_entry_lem files name i e = elim (Names-cases name) [
  | inr (inl bad) ↦ absurd (ground arith)
  | inr (inr (p, e', top)) ↦ absurd (ground arith)
  | inl (p, n) ↦ (p, n, ground (arith, n.normal, n.below_root))
]
