-- ===== src/Fs/Ramfs/View.antt =====
-- kernel/fs/ramfs.c seen from outside: a partial map from paths to nodes, which forgets where in
-- the table an entry stands and what its storage holds behind the end of the file.
use mathlib.Core.Bool.{false≢true}
use native.Mathlib.Decide.{ℕ_discrete}
use bright_s.Base.{
  ℕ, ◌<◌, ◌≡◌, ◌≢◌, inl, inr, refl, sym, subst, ◌∙◌, List, Option, none, some, Bool, true, false,
  if◌then◌else◌, length, length-set, set, arith, Bool-cases, Option-cases, take,
}
use bright_s.Fs.Text.{path_eq, path_eq_iff}
use bright_s.Fs.Ramfs.{File, Files, file_at, find_name}
use bright_s.Fs.Ramfs.Lookup.{Holds, Distinct, find_name-Holds, find_name-none, find_name_of_Holds}
use bright_s.Fs.Ramfs.Tree.{Holds-changed, Holds-other, at_changed, at_other}

-- What a path stands for.
pub record Node : Type 0 where
  pub content : List ℕ
  pub mode : ℕ
  pub uid : ℕ
  pub gid : ℕ
  pub symlink_target : List ℕ
  pub is_dir : Bool
  pub is_symlink : Bool

abbrev pub node : File → Node
node f = record {
  content = take f.size f.bytes;
  mode = f.mode;
  uid = f.uid;
  gid = f.gid;
  symlink_target = f.symlink_target;
  is_dir = f.is_dir;
  is_symlink = f.is_symlink;
}

unfoldable pub view : Files → List ℕ → Option Node
view files p = elim (find_name 0 files p) [ none ↦ none | some i ↦ some (node (file_at files i)) ]

-- A map that differs from another at one path at most.
abbrev pub Updated : Files → Files → List ℕ → Option Node → Type 0
Updated files files' p n = (q : List ℕ) → view files' q ≡ (if path_eq p q then n else view files q)

module _ (files : Files) (i : ℕ) (f : File) (h : i < length files) (v : Distinct files) where
  view_other :
      (q : List ℕ)
      → Distinct (set files i f)
      → ¬ Holds files i q
      → ¬ ((f.in_use ≡ true) × (f.name ≡ q))
      → view (set files i f) q ≡ view files q
  unfolding view
  view_other q w old new = elim (Option-cases (find_name 0 files q)) [
    | inr (j, found) ↦
        let holds = find_name-Holds files q j found in
        let apart : i ≢ j = λ e. old (subst (λ k. Holds files k q) (sym e) holds.1) in
        let same = at_other files i f h j apart in
        let there =
          find_name_of_Holds (set files i f) q j w (omega (arith, length-set files i f, holds.0))
            (rw same holds.1) in
        rw (there, found, view) (rw same refl)
    | inl missing ↦ elim (Option-cases (find_name 0 (set files i f) q)) [
      | inl gone ↦ rw (missing, gone, view) refl
      | inr (j, found) ↦
          let holds = find_name-Holds (set files i f) q j found in
          let inside : j < length files = omega (arith, length-set files i f, holds.0) in
          absurd (elim (ℕ_discrete i j) [
            | yes e ↦ new (
                Holds-changed files i f h q
                  (subst (λ k. Holds (set files i f) k q) (sym e) holds.1))
            | no apart ↦
                find_name-none 0 files q j missing inside
                  (Holds-other files i f h j q apart holds.1)
          ])
    ]
  ]

  -- An entry that is put in, or stays, under a name.
  pub view_put :
      (p : List ℕ)
      → Distinct (set files i f)
      → f.in_use ≡ true
      → f.name ≡ p
      → ((q : List ℕ) → Holds files i q → q ≡ p)
      → Updated files (set files i f) p (some (node f))
  unfolding view
  view_put p w used named only q = elim (Bool-cases (path_eq p q)) [
    | inl e ↦
        let same = (path_eq_iff p q).0 e in
        let here = at_changed files i f h in
        let found =
          find_name_of_Holds (set files i f) q i w (omega (arith, length-set files i f, h))
            (rw here (used, named ∙ same)) in
        rw e (rw (found, view) (rw here refl))
    | inr e ↦
        let apart : p ≢ q = λ s. false≢true (sym e ∙ (path_eq_iff p q).1 s) in
        rw e
          (view_other q w (λ holds. apart (sym (only q holds))) (λ new. apart (sym named ∙ new.1)))
  ]

  -- An entry that is taken out.
  pub view_drop :
      (p : List ℕ)
      → Distinct (set files i f)
      → f.in_use ≡ false
      → Holds files i p
      → Updated files (set files i f) p none
  unfolding view
  view_drop p w free old q =
      let never : (s : List ℕ) → ¬ ((f.in_use ≡ true) × (f.name ≡ s)) =
        λ s new. false≢true (sym free ∙ new.0) in
      elim (Bool-cases (path_eq p q)) [
        | inr e ↦
            let apart : p ≢ q = λ s. false≢true (sym e ∙ (path_eq_iff p q).1 s) in
            rw e (view_other q w (λ holds. apart (sym old.1 ∙ holds.1)) (never q))
        | inl e ↦ rw e (elim (Option-cases (find_name 0 (set files i f) q)) [
          | inl gone ↦ rw (gone, view) refl
          | inr (j, found) ↦
              let holds = find_name-Holds (set files i f) q j found in
              let inside : j < length files = omega (arith, length-set files i f, holds.0) in
              absurd (elim (ℕ_discrete i j) [
                | yes s ↦ never q (
                    Holds-changed files i f h q
                      (subst (λ k. Holds (set files i f) k q) (sym s) holds.1))
                | no apart ↦ apart (
                    v i j p h inside old (
                      subst (Holds files j) (sym ((path_eq_iff p q).0 e))
                        (Holds-other files i f h j q apart holds.1)))
              ])
        ])
      ]

pub view-none : (files : Files) (p : List ℕ) → find_name 0 files p ≡ none → view files p ≡ none
unfolding view
view-none files p e = rw (e, view) refl

pub view-some :
    (files : Files) (p : List ℕ) (i : ℕ)
    → find_name 0 files p ≡ some i
    → view files p ≡ some (node (file_at files i))
unfolding view
view-some files p i e = rw (e, view) refl
