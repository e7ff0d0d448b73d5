-- ===== src/Fs/Ramfs/Refine.antt =====
-- kernel/fs/ramfs.c: the operations as updates of the map from paths to nodes.
use mathlib.Core.Bool.{false≢true}
use bright_s.Base.{
  ℕ, ◌+◌, ◌-◌, ◌≤◌, ◌<◌, ◌^◌, ◌≡◌, refl, sym, ap, subst, ◌∙◌, List, [], ◌++◌, Option, none, some,
  Bool, true, false, if◌then◌else◌, length, set, arith, take, drop, min, max, length-take,
  get_or-set_self, inl, inr, ◌≢◌, Option-cases,
}
use bright_s.Base.Int.{ℤ}
use bright_s.Base.Splice.{take_splice}
use bright_s.Fs.Text.{path_eq, path_eq_refl}
use bright_s.Fs.Ramfs.{blank, File, Files, file_at, find_name, storage_size}
use bright_s.Fs.Ramfs.Names.{
  add_file, create, mkdir, unlink, unlinked, open_file, fill_regular, fill_dir,
}
use bright_s.Fs.Ramfs.Access.{Overrun, write, written, file_of_fd}
use bright_s.Fs.Ramfs.Lookup.{find_name-Holds, find_name_of_Holds, find_free_lem}
use bright_s.Fs.Ramfs.Edit.{Names, AddResult, added, refused, add_file_lem, unlink_lem}
use bright_s.Fs.Ramfs.Data.{file_of_fd_lem, written-DidWrite, write-eq-written, room}
use bright_s.Fs.Ramfs.Sound.{Sound, Fills, add_file-Sound, unlink-Sound, write-Sound}
use bright_s.Fs.Ramfs.View.{Node, node, view, view-none, view-some, Updated, view_put, view_drop}

-- A name with its normal form is opened by searching for that form.
open_named :
    (files : Files) (name p : List ℕ) → Names name p → open_file files name ≡ find_name 0 files p
unfolding open_file
open_named files name p n = rw (n.normal, open_file) (rw n.below_root refl)

-- What a new entry means outside.
pub record Makes (files : Files) (name : List ℕ) (n : Node) (i : ℕ) (files' : Files) : Type 0 where
  pub path : List ℕ
  pub names : Names name path
  pub fresh : view files path ≡ none
  pub update : Updated files files' path (some n)
  pub opens : open_file files' name ≡ some i

some_pair :
    {A B : Type 0} (a b : A) (s t : B) (p q : Option A × B)
    → p ≡ (some a, s)
    → q ≡ (some b, t)
    → p ≡ q
    → (a ≡ b) × (s ≡ t)
some_pair a b s t p q ep eq e = (
  some_inj (sym (ap (λ r. r.0) ep) ∙ (ap (λ r. r.0) e ∙ ap (λ r. r.0) eq)),
  sym (ap (λ r. r.1) ep) ∙ (ap (λ r. r.1) e ∙ ap (λ r. r.1) eq),
)
  where
    some_inj : some a ≡ some b → a ≡ b
    some_inj h = cc

add_view :
    (fill : File → File) (files : Files) (name : List ℕ) (i : ℕ) (files' : Files) (n : Node)
    → Fills fill
    → ((f : File) → ((fill f).in_use ≡ true) × (node (fill f) ≡ n))
    → Sound files
    → add_file fill files name ≡ (some i, files')
    → Makes files name n i files'
add_view fill files name i files' n w used v e = go (add_file_lem fill files name)
  where
    go : AddResult fill files name (add_file fill files name) → Makes files name n i files'
    go (refused why r) = absurd (ground arith)
    go (added a) =
        let free = find_free_lem files a.slot a.free in
        let f = fill (record (file_at files a.slot) { name = a.path }) in
        let same : (a.slot ≡ i) × (set files a.slot f ≡ files') =
          some_pair a.slot i _ files' _ _ a.result e refl in
        let after : Sound (set files a.slot f) =
          subst Sound (ap (λ r. r.1) a.result) (add_file-Sound fill files name w v) in
        let named : f.name ≡ a.path = w.names _ in
        let inside : a.slot < length (set files a.slot f) =
          omega (arith, free.0, v.tree.full, after.tree.full) in
        rw (← same.0, ← same.1)
          (record {
            path = a.path;
            names = a.names;
            fresh = view-none files a.path a.fresh;
            update = λ q.
                view_put files a.slot f free.0 v.tree.distinct a.path after.tree.distinct (used _).0
                  named (λ s holds. absurd (false≢true (sym free.1 ∙ holds.0))) q
                ∙ ap (λ m. if path_eq a.path q then some m else view files q) (used _).1;
            opens =
                open_named (set files a.slot f) name a.path a.names
                ∙ find_name_of_Holds (set files a.slot f) a.path a.slot after.tree.distinct inside
                    (rw (get_or-set_self files a.slot f blank free.0) ((used _).0, named));
          })

-- An empty file, or directory, of the superuser.
abbrev pub new_node : ℕ → Bool → Node
new_node mode is_dir = record {
  content = [];
  mode = mode;
  uid = 0;
  gid = 0;
  symlink_target = [];
  is_dir = is_dir;
  is_symlink = false;
}

-- In a sound table, when brights_ramfs_create returns an index, nothing was at the normal form
-- of the name; now an empty file of mode 0100644 and user 0 is there, every other path stands
-- for what it did, and brights_ramfs_open of the same name returns that index.
pub create_refines :
    (files : Files) (name : List ℕ) (i : ℕ) (files' : Files)
    → Sound files
    → create files name ≡ (some i, files')
    → Makes files name (new_node 0x81a4 false) i files'
unfolding create
create_refines files name i files' v e =
    add_view fill_regular files name i files' (new_node 0x81a4 false)
      (record { names = λ f. refl; bytes = λ f. refl; cap = λ f. refl; size = λ f. refl })
      (λ f. (refl, refl)) v e

-- In a sound table, when brights_ramfs_mkdir succeeds, nothing was at the normal form of the
-- name; now a directory of mode 0040755 and user 0 is there, every other path stands for what it
-- did, and brights_ramfs_open of the same name finds it.
pub mkdir_refines :
    (files : Files) (name : List ℕ) (i : ℕ) (files' : Files)
    → Sound files
    → mkdir files name ≡ (some i, files')
    → Makes files name (new_node 0x41ed true) i files'
unfolding mkdir
mkdir_refines files name i files' v e =
    add_view fill_dir files name i files' (new_node 0x41ed true)
      (record { names = λ f. refl; bytes = λ f. refl; cap = λ f. refl; size = λ f. refl })
      (λ f. (refl, refl)) v e

-- In a sound table, when brights_ramfs_unlink succeeds, something was at the normal form of the
-- name; now nothing is, every other path stands for what it did, and brights_ramfs_open of the
-- same name fails.
pub unlink_refines :
    (files : Files) (name : List ℕ)
    → Sound files
    → (unlink files name).0 ≡ true
    → let files' = (unlink files name).1 in
      (p : List ℕ) × Names name p
      × (view files p ≢ none)
      × Updated files files' p none
      × (open_file files' name ≡ none)
unlink_refines files name v e = elim (unlink_lem files name) [
  | inr nothing ↦ absurd (false≢true (ap (λ r. r.0) (sym nothing) ∙ e))
  | inl r ↦
      let f = unlinked (file_at files r.slot) in
      let old = find_name-Holds files r.path r.slot r.found in
      let after : Sound (set files r.slot f) =
        subst Sound (ap (λ u. u.1) r.result) (unlink-Sound files name v) in
      let update : Updated files (set files r.slot f) r.path none =
        view_drop files r.slot f old.0 v.tree.distinct r.path after.tree.distinct refl old.1 in
      rw r.result (
        r.path,
        r.names,
        λ gone. absurd (nonempty (sym (view-some files r.path r.slot r.found) ∙ gone)),
        update,
        open_named (set files r.slot f) name r.path r.names
            ∙ find_name_of_view (set files r.slot f) r.path (
                update r.path
                ∙ ap (λ b. if b then none else view files r.path) (path_eq_refl r.path)),
      )
]
  where
    nonempty : {n : Node} → some n ≢ none
    nonempty e = ground arith

    find_name_of_view : (g : Files) (p : List ℕ) → view g p ≡ none → find_name 0 g p ≡ none
    find_name_of_view g p h = elim (Option-cases (find_name 0 g p)) [
      | inl gone ↦ gone
      | inr (j, found) ↦ absurd (nonempty (sym (view-some g p j found) ∙ h))
    ]

-- In a sound table, a write that does not overflow, through a descriptor of a regular file in
-- use and from an offset inside the file, replaces the bytes of the file from the offset on by
-- those written, which are as many as were offered or as there is storage for, lengthens the
-- file where they pass its end, and changes nothing else at any path.
pub write_refines :
    (overrun : Overrun) (files : Files) (fd : ℤ) (i off len : ℕ) (buf : List ℕ)
    → Sound files
    → file_of_fd files fd ≡ some i
    → off < storage_size
    → off ≤ (file_at files i).size
    → len ≤ length buf
    → off + len < 2 ^ 64
    → let n = min len (storage_size - off) in
      let f = file_at files i in
      let old = node f in
      Updated files (write overrun files fd off buf len).1 f.name (
        some (record old {
          content = take off old.content ++ (take n buf ++ drop (off + n) old.content);
        }))
write_refines overrun files fd i off len buf v e h inside hl k =
    let n = room off len in
    let f = file_at files i in
    let fd_ok = file_of_fd_lem files fd i e in
    let here : i < length files = omega (arith, fd_ok.0, v.tree.full) in
    let s = v.stored i here in
    let w = written-DidWrite f off len buf s h hl k in
    let g = written f off buf n in
    let moved = write-eq-written overrun files fd i off len buf e s h k in
    let after : Sound (set files i g) =
      subst Sound (ap (λ r. r.1) moved) (write-Sound overrun files fd off buf len hl k v) in
    let content : take g.size g.bytes
        ≡ take off (take f.size f.bytes) ++ (take n buf ++ drop (off + n) (take f.size f.bytes)) =
      ap (λ m. take m g.bytes) w.size
      ∙ (ap (take (max f.size (off + n))) w.bytes
          ∙ take_splice f.bytes (take n buf) off n f.size (omega (arith, s.whole, s.cap, s.inside))
              inside (omega (arith, length-take n buf))) in
    rw moved (λ q.
      view_put files i g here v.tree.distinct f.name after.tree.distinct (w.kind.0 ∙ fd_ok.1)
        w.kind.2 (λ r holds. sym holds.1) q
      ∙ ap (λ c. if path_eq f.name q then some (record (node f) { content = c }) else view files q)
          content)
