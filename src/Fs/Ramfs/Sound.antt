-- ===== src/Fs/Ramfs/Sound.antt =====
-- kernel/fs/ramfs.c: every operation keeps the tree and the storage of the entries sound.
use mathlib.Core.Bool.{false≢true}
use bright_s.Base.{
  ℕ, zero, suc, ◌+◌, ◌≤◌, ◌<◌, ◌^◌, ◌≡◌, refl, sym, ap, ◌∙◌, List, [], ◌∷◌, true, length,
  length-set, set, arith, Bool-cases, Option-cases, inl, inr, leb,
}
use bright_s.Base.Int.{ℤ}
use bright_s.Fs.Ramfs.{File, Files, max_files, storage_size, file_at, init, init_file, blank}
use bright_s.Fs.Ramfs.Names.{add_file, unlink, unlinked, chmod, chown, find_entry}
use bright_s.Fs.Ramfs.Access.{Overrun, file_of_fd, write, written}
use bright_s.Fs.Ramfs.Lookup.{find_name-Holds, find_free_lem}
use bright_s.Fs.Ramfs.Edit.{AddResult, added, refused, add_file_lem, unlink_lem, find_entry_lem}
use bright_s.Fs.Ramfs.Tree.{Inv, by_entry, touch-Inv, add-Inv, parent_exists-ParentIn}
use bright_s.Fs.Ramfs.Children.{remove-Inv}
use bright_s.Fs.Ramfs.Data.{IsStored, file_of_fd_lem, write-eq-written, written-DidWrite, room}

-- The tree is sound, and so is each entry's storage.
pub record Sound (files : Files) : Type 0 where
  pub tree : Inv files
  pub stored : (i : ℕ) → i < length files → IsStored (file_at files i)

set-IsStored :
    (files : Files) (i : ℕ) (f : File)
    → i < length files
    → ((j : ℕ) → j < length files → IsStored (file_at files j))
    → IsStored f
    → (j : ℕ) → j < length (set files i f)
    → IsStored (file_at (set files i f) j)
set-IsStored files i f h v w j hj =
    by_entry files i f h (λ j g. j < length files → IsStored g) (λ _. w) (λ j _. v j) j
      (rw (length-set files i f) at hj)

-- A way to fill an entry that keeps its name and storage and puts it in use with no bytes.
pub record Fills (fill : File → File) : Type 0 where
  pub names : (f : File) → (fill f).name ≡ f.name
  pub bytes : (f : File) → (fill f).bytes ≡ f.bytes
  pub cap : (f : File) → (fill f).capacity ≡ f.capacity
  pub size : (f : File) → (fill f).size ≡ 0

pub add_file-Sound :
    (fill : File → File) (files : Files) (name : List ℕ)
    → Fills fill
    → Sound files
    → Sound (add_file fill files name).1
add_file-Sound fill files name w v = go (add_file_lem fill files name)
  where
    go : AddResult fill files name (add_file fill files name) → Sound (add_file fill files name).1
    go (refused why e) = rw e v
    go (added a) =
        let free = find_free_lem files a.slot a.free in
        let old = file_at files a.slot in
        let new = fill (record old { name = a.path }) in
        let named : new.name ≡ a.path = w.names _ in
        let s = v.stored a.slot free.0 in
        rw a.result (record {
          tree =
              add-Inv files a.slot new v.tree free.0 free.1 (rw named a.names.is_path)
                (rw named (parent_exists-ParentIn files a.path a.parent)) (rw named a.fresh);
          stored = set-IsStored files a.slot new free.0 v.stored (record {
            whole = ap length (w.bytes _) ∙ s.whole;
            cap = w.cap _ ∙ s.cap;
            inside = rw w.size (omega arith);
          });
        })

-- An entry that keeps its name, kind, storage and size.
pub touch-Sound :
    (files : Files) (i : ℕ) (g : File)
    → Sound files
    → i < length files
    → g.in_use ≡ (file_at files i).in_use
    → g.name ≡ (file_at files i).name
    → g.is_dir ≡ (file_at files i).is_dir
    → IsStored g
    → Sound (set files i g)
touch-Sound files i g v h used named kind s = record {
  tree = touch-Inv files i g v.tree h used named kind;
  stored = set-IsStored files i g h v.stored s;
}

pub unlink-Sound : (files : Files) (name : List ℕ) → Sound files → Sound (unlink files name).1
unlink-Sound files name v = elim (unlink_lem files name) [
  | inr nothing ↦ rw nothing v
  | inl r ↦
      let h = (find_name-Holds files r.path r.slot r.found).0 in
      let s = v.stored r.slot h in
      rw r.result (record {
        tree =
            remove-Inv files r.slot r.path v.tree r.found r.names.is_path r.names.below_root
              r.no_children;
        stored =
            set-IsStored files r.slot (unlinked (file_at files r.slot)) h v.stored
              (record { whole = s.whole; cap = s.cap; inside = omega arith });
      })
]

pub write-Sound :
    (overrun : Overrun) (files : Files) (fd : ℤ) (off : ℕ) (buf : List ℕ) (len : ℕ)
    → len ≤ length buf
    → off + len < 2 ^ 64
    → Sound files
    → Sound (write overrun files fd off buf len).1
unfolding write
write-Sound overrun files fd off buf len hl k v = elim (Option-cases (file_of_fd files fd)) [
  | inl bad ↦ rw (bad, write) v
  | inr (i, e) ↦
      let f = file_at files i in
      let h : i < length files = omega (arith, (file_of_fd_lem files fd i e).0, v.tree.full) in
      let s = v.stored i h in
      elim (Bool-cases (leb f.capacity off)) [
        | inl behind ↦ rw (e, write) (rw behind v)
        | inr before ↦
            let inside : off < storage_size = ground (arith, s.cap) in
            let w = written-DidWrite f off len buf s inside hl k in
            rw (write-eq-written overrun files fd i off len buf e s inside k) (
              touch-Sound files i (written f off buf (room off len)) v h w.kind.0 w.kind.2 w.kind.1
                w.stored)
      ]
]

-- `chmod` and `chown` change an entry's owner and mode only.
pub chmod-Sound :
    (files : Files) (name : List ℕ) (mode : ℕ) → Sound files → Sound (chmod files name mode).1
unfolding chmod
chmod-Sound files name mode v = elim (Option-cases (find_entry files name)) [
  | inl missing ↦ rw (missing, chmod) v
  | inr (i, e) ↦
      let (p, n, found) = find_entry_lem files name i e in
      let h = (find_name-Holds files p i found).0 in
      let s = v.stored i h in
      rw (e, chmod)
        (touch-Sound files i _ v h refl refl refl
          (record { whole = s.whole; cap = s.cap; inside = s.inside }))
]

pub chown-Sound :
    (files : Files) (name : List ℕ) (uid gid : ℕ) → Sound files → Sound (chown files name uid gid).1
unfolding chown
chown-Sound files name uid gid v = elim (Option-cases (find_entry files name)) [
  | inl missing ↦ rw (missing, chown) v
  | inr (i, e) ↦
      let (p, n, found) = find_entry_lem files name i e in
      let h = (find_name-Holds files p i found).0 in
      let s = v.stored i h in
      rw (e, chown)
        (touch-Sound files i _ v h refl refl refl
          (record { whole = s.whole; cap = s.cap; inside = s.inside }))
]

length-init : (files : Files) → length (init files) ≡ length files
unfolding init
length-init [] = refl
length-init (f ∷ files) = ap suc (length-init files)

file_at-init : (files : Files) (i : ℕ) → file_at (init files) i ≡ init_file (file_at files i)
unfolding init blank
file_at-init [] i = refl
file_at-init (f ∷ files) zero = refl
file_at-init (f ∷ files) (suc i) = file_at-init files i

pub init-Sound :
    (files : Files)
    → length files ≡ max_files
    → ((i : ℕ) → i < length files → length (file_at files i).bytes ≡ storage_size)
    → Sound (init files)
init-Sound files full whole = record {
  tree = record {
    full = length-init files ∙ full;
    distinct = λ a b n ha hb va vb. absurd (free a va.0);
    paths = λ i h used. absurd (free i used);
    parents = λ i h used. absurd (free i used);
  };
  stored = λ i h.
      rw (file_at-init files i) (record {
        whole = whole i (rw (length-init files) at h);
        cap = refl;
        inside = omega arith;
      });
}
  where
    free : (i : ℕ) → ¬ ((file_at (init files) i).in_use ≡ true)
    free i used = false≢true (ap (λ f. f.in_use) (sym (file_at-init files i)) ∙ used)
