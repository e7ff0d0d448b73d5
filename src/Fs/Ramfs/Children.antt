-- ===== src/Fs/Ramfs/Children.antt =====
-- kernel/fs/ramfs.c: `ramfs_dir_has_children` sees every entry below a directory, so removing an
-- entry leaves none without its parent.
use mathlib.Core.Bool.{false≢true}
use bright_s.Base.{
  ℕ, zero, suc, ◌<◌, ◌≡◌, inl, inr, refl, sym, ap, ◌∙◌, List, [], ◌∷◌, ◌++◌, some, true, false,
  ◌&&◌, ◌==◌, if◌then◌else◌, length, length-append, set, arith, Bool-cases,
}
use bright_s.Fs.Text.{slash, root, path_eq, path_eq_iff, strncmp_eq, char_at}
use bright_s.Fs.Path.{path_parent}
use bright_s.Fs.Path.Parent.{IsPath, path_parent-IsPath}
use bright_s.Fs.Ramfs.{Files, max_name, file_at, find_name, any_child, dir_has_children}
use bright_s.Fs.Ramfs.Lookup.{Holds, find_name-Holds}
use bright_s.Fs.Ramfs.Names.{unlinked}
use bright_s.Fs.Ramfs.Edit.{copied_name}
use bright_s.Fs.Ramfs.Tree.{Inv, ParentIn-mono, change-Inv}

pub strncmp_eq-append : (p r : List ℕ) → strncmp_eq (p ++ r) p (length p) ≡ true
unfolding strncmp_eq
strncmp_eq-append [] r = refl
strncmp_eq-append (c ∷ p) r = ground (arith, strncmp_eq-append p r)

char_at-append : (p r : List ℕ) → char_at (p ++ (slash ∷ r)) (length p) ≡ slash
char_at-append [] r = refl
char_at-append (c ∷ p) r = char_at-append p r

-- An entry in use whose name goes on behind the directory's by a slash is found.
any_child_lem :
    (files : Files) (p r : List ℕ) (j : ℕ)
    → path_eq p root ≡ false
    → j < length files
    → Holds files j (p ++ (slash ∷ r))
    → any_child files p (length p) ≡ true
unfolding any_child
any_child_lem [] p r j below h holds = absurd (omega arith)
any_child_lem (f ∷ files) p r zero below h holds =
    let longer : path_eq f.name p ≡ false = elim (Bool-cases (path_eq f.name p)) [
      | inr e ↦ e
      | inl e ↦
          let same : p ++ (slash ∷ r) ≡ p = sym holds.1 ∙ (path_eq_iff f.name p).0 e in
          absurd (omega (arith, ap length same, length-append p (slash ∷ r)))
    ] in
    let prefix : strncmp_eq f.name p (length p) ≡ true =
      rw holds.1 (strncmp_eq-append p (slash ∷ r)) in
    let next : char_at f.name (length p) ≡ slash = rw holds.1 (char_at-append p r) in
    rw (holds.0, longer, any_child) (rw (below, prefix) (rw next refl))
any_child_lem (f ∷ files) p r (suc j) below h holds =
    ground (arith, any_child_lem files p r j below (omega arith) holds)

-- What has the entry for its parent goes on behind its name.
below_parent :
    (p q : List ℕ) (v : IsPath max_name q)
    → path_parent q max_name ≡ some p
    → path_eq p root ≡ false
    → (r : List ℕ) × (q ≡ p ++ (slash ∷ r))
below_parent p q v e below =
    let c = v.cut in
    (
      c.last,
      c.whole
          ∙ ap (λ a. a ++ (slash ∷ c.last)) (before_is (sym (path_parent-IsPath max_name q v) ∙ e)),
    )
  where
    before_is :
        some (if length v.cut.before == 0 then root else v.cut.before) ≡ some p → v.cut.before ≡ p
    before_is same = elim (Bool-cases (length v.cut.before == 0)) [
      | inr no_root ↦ ground arith
      | inl top ↦
          let is_root : root ≡ p = ground arith in
          absurd (false≢true (sym below ∙ (path_eq_iff p root).1 (sym is_root)))
    ]

dir_has_children_lem :
    (files : Files) (p : List ℕ)
    → IsPath max_name p
    → dir_has_children files p ≡ any_child files p (length p)
unfolding dir_has_children
dir_has_children_lem files p v = rw (copied_name p v, dir_has_children) refl

-- `brights_ramfs_unlink` keeps the tree: an entry that passes its test has nothing below it.
pub remove-Inv :
    (files : Files) (i : ℕ) (p : List ℕ)
    → Inv files
    → find_name 0 files p ≡ some i
    → IsPath max_name p
    → path_eq p root ≡ false
    → ((file_at files i).is_dir && dir_has_children files p) ≡ false
    → Inv (set files i (unlinked (file_at files i)))
remove-Inv files i p v found path below idle =
    change-Inv files i _ here.0 v (λ u. absurd (false≢true u)) (λ u. absurd (false≢true u))
      (λ u. absurd (false≢true u))
      λ j apart hj u.
        ParentIn-mono files i _ _ here.0 (v.parents j hj u)
          λ q e holds dir. absurd (no_child j hj u q e holds dir)
  where
    here : (i < length files) × Holds files i p
    here = find_name-Holds files p i found

    no_child :
        (j : ℕ) (hj : j < length files) (u : (file_at files j).in_use ≡ true) (q : List ℕ)
        → path_parent (file_at files j).name max_name ≡ some q
        → Holds files i q
        → (file_at files i).is_dir ≡ true
        → ⊥
    no_child j hj u q e holds dir =
        let same : q ≡ p = sym holds.1 ∙ here.1.1 in
        let (r, shape) =
          below_parent p (file_at files j).name (v.paths j hj u) (e ∙ ap some same) below in
        let seen : dir_has_children files p ≡ true =
          dir_has_children_lem files p path ∙ any_child_lem files p r j below hj (u, shape) in
        false≢true (sym idle ∙ rw (dir, seen) refl)
