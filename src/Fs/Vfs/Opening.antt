-- ===== src/Fs/Vfs/Opening.antt =====
-- kernel/fs/vfs2.c: the position of an open file.
use bright_s.Base.{
  ℕ, ◌≡◌, ◌≢◌, ◌<◌, ◌^◌, refl, ap, ◌∙◌, ◌+◌, ◌%◌, none, some, Bool, true, not, length, get_or,
  get_or-set_self, get_or-set_ne, arith, if◌then◌else◌,
}
use bright_s.Fs.Vfs.Files.{OpenFile, open_at, no_file}
use bright_s.Fs.Vfs.Dispatch.{System, Ops, no_inode, lseek, new_pos, store_file}

module _ {World : Type 0} (ops : Ops World) where
  default_lseek :
      (s : System World) (f offset whence p : ℕ)
      → (open_at s.pool f).in_use ≡ true
      → ops.lseek (open_at s.pool f).fops ≡ none
      → new_pos ops
          (open_at s.pool f)
          (get_or s.inodes (open_at s.pool f).inode no_inode)
          offset
          whence
        ≡ some p
      → lseek ops s f offset whence
        ≡ (some p, store_file ops s f (record (open_at s.pool f) { pos_at = p }) s.world)
  unfolding lseek
  default_lseek s f offset whence p busy plain e =
      if_used (open_at s.pool f).in_use (none, s) _ busy ∙ rw (plain, lseek) (rw (e, lseek) refl)
    where
      if_used : {A : Type 0} (b : Bool) (x y : A) → b ≡ true → (if not b then x else y) ≡ y
      if_used b x y q = rw q refl

  -- For a file in use of the pool whose operations have no lseek of their own,
  -- brights_vfs2_lseek to a 64-bit offset from the start returns that offset, sets the position,
  -- and changes no other file; then moving by 0 from the current position returns it again.
  pub lseek_twice :
      (s : System World) (f off : ℕ)
      → f < length s.pool.files
      → (open_at s.pool f).in_use ≡ true
      → ops.lseek (open_at s.pool f).fops ≡ none
      → off < 2 ^ 64
      → let (r, t) = lseek ops s f off 0 in
        (r ≡ some off)
        × ((open_at t.pool f).pos_at ≡ off)
        × ((lseek ops t f 0 1).0 ≡ some off)
        × ((j : ℕ) → f ≢ j → open_at t.pool j ≡ open_at s.pool j)
  unfolding new_pos
  lseek_twice s f off h busy plain small =
      let file = open_at s.pool f in
      let moved : OpenFile = record file { pos_at = off } in
      let t : System World = store_file ops s f moved s.world in
      let one : lseek ops s f off 0 ≡ (some off, t) = default_lseek s f off 0 off busy plain refl in
      let here : open_at t.pool f ≡ moved = get_or-set_self s.pool.files f moved no_file h in
      let still : (off + 0) % 2 ^ 64 ≡ off = omega arith in
      let two : (lseek ops t f 0 1).0 ≡ some off =
        ap (λ r. r.0)
          (default_lseek t f 0 1 ((off + 0) % 2 ^ 64) (ap (λ g. g.in_use) here ∙ busy)
            (ap (λ g. ops.lseek g.fops) here ∙ plain)
            (ap (λ g. some ((g.pos_at + 0) % 2 ^ 64)) here))
        ∙ ap some still in
      (
        ap (λ r. r.0) one,
        ap (λ r. (open_at r.1.pool f).pos_at) one ∙ ap (λ g. g.pos_at) here,
        ap (λ r. (lseek ops r.1 f 0 1).0) one ∙ two,
        λ j apart.
            ap (λ r. open_at r.1.pool j) one ∙ get_or-set_ne s.pool.files f j moved no_file apart,
      )
