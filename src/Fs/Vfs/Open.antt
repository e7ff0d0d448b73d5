-- ===== src/Fs/Vfs/Open.antt =====
-- kernel/fs/vfs2.c: what comes of `brights_vfs2_open`.
use bright_s.Base.{
  ℕ, Option, ◌≡◌, ◌≢◌, ◌<◌, ◌^◌, ◌⊎◌, inl, inr, refl, sym, ◌∙◌, List, none, some, true, length,
  arith, Option-cases,
}
use bright_s.Word.{has_bit}
use bright_s.Fs.Vfs.{mount_at, resolve}
use bright_s.Fs.Vfs.Files.{Pool, file_alloc, file_pool_size}
use bright_s.Fs.Vfs.Pool.{file_alloc_lem}
use bright_s.Fs.Vfs.Dispatch.{System, Ops, Inode, rel_seen, create_first, find_inode, open_path}
use bright_s.Fs.Vfs.Opened.{LookedUp, IsOpenedAt, looked_up, taken_file-IsOpenedAt}

module _ {World : Type 0} (ops : Ops World) where
  -- What comes of opening a path that resolves to a mount: the inode that was looked up there, and
  -- then a file, or none because there is no inode or no file is free.
  pub record AtMount (s : System World) (path : List ℕ) (flags : ℕ) (r : Option ℕ)
      (t : System World) : Type 0 where
    pub i : ℕ
    pub rel : List ℕ
    pub node : Option ℕ
    pub inodes : List Inode
    pub resolved : (resolve s.vfs path).0 ≡ some (i, rel)
    pub looked :
        LookedUp ops s flags
          (mount_at (resolve s.vfs path).1 i).sb
          (rel_seen ops.dead_array s.vfs path rel)
          node
          inodes
          t.world
    pub file :
        ((r ≡ none)
          × (t.pool ≡ s.pool)
          × (t.inodes ≡ inodes)
          × ((node ≡ none) ⊎ ((j : ℕ) → j < file_pool_size → has_bit s.pool.bitmap j ≡ true)))
        ⊎ ((n : ℕ) × (f : ℕ) × (node ≡ some n)
            × (r ≡ some f)
            × IsOpenedAt ops s t flags (mount_at (resolve s.vfs path).1 i).sb n f inodes)

  -- What comes of opening a path: no mount, and no change but the one of resolving; or that.
  pub data Outcome (s : System World) (path : List ℕ) (flags : ℕ) (r : Option ℕ) (t : System World)
      : Type 0 where
    no_mount :
        (resolve s.vfs path).0 ≡ none
        → r ≡ none
        → t ≡ record s { vfs = (resolve s.vfs path).1 }
        → Outcome s path flags r t
    at_mount : AtMount s path flags r t → Outcome s path flags r t

  all_taken :
      (p : Pool)
      → length p.files ≡ file_pool_size
      → p.bitmap < 2 ^ 64
      → (file_alloc p).0 ≡ none
      → (j : ℕ) → j < file_pool_size
      → has_bit p.bitmap j ≡ true
  all_taken p full word e = elim (file_alloc_lem p full word) [
    | inl (r, same, every) ↦ every
    | inr a ↦ absurd (none_some (sym e ∙ a.1))
  ]
    where
      none_some : {k : ℕ} → none ≢ some k
      none_some q = ground arith

  -- With a pool of 64 files and a 64-bit bitmap, and whatever the functions of the superblocks
  -- do and a pointer to the dead array of brights_vfs2_resolve shows: brights_vfs2_open of a
  -- path that resolves to no mount returns -1 and changes nothing but by resolving. Otherwise it
  -- creates a file at the superblock, if the flags ask for it and the superblock can, and then
  -- looks the inode up. It returns -1, and leaves the pool as it was, only where there is no
  -- inode or all files are taken; else the file that it returns was free and now is in use with
  -- that inode and its private data, the flags and the file operations of the superblock. The
  -- size of the inode becomes 0 if the flags ask for truncation and its whole mode is
  -- VFS_S_IFREG, and else stays; the position is 0, or to append that size; and no other file of
  -- the pool changes.
  pub open_path-Outcome :
      (s : System World) (path : List ℕ) (flags : ℕ)
      → length s.pool.files ≡ file_pool_size
      → s.pool.bitmap < 2 ^ 64
      → let (r, t) = open_path ops s path flags in Outcome s path flags r t
  unfolding open_path
  open_path-Outcome s path flags full word = elim (Option-cases (resolve s.vfs path).0) [
    | inl nowhere ↦ rw (nowhere, open_path) (no_mount nowhere refl refl)
    | inr ((i, rel), at) ↦
        let sb = (mount_at (resolve s.vfs path).1 i).sb in
        let seen : World → List ℕ = rel_seen ops.dead_array s.vfs path rel in
        let made = create_first ops flags sb seen s.inodes s.world in
        let found = find_inode ops sb seen made.0 made.1 in
        let looked = looked_up ops s flags sb seen in
        elim (Option-cases found.0) [
          | inl missing ↦
              rw (at, open_path)
                (rw (missing, open_path)
                  (at_mount (record {
                    i = i;
                    rel = rel;
                    node = found.0;
                    inodes = found.1;
                    resolved = at;
                    looked = looked;
                    file = inl (refl, refl, refl, inl missing);
                  })))
          | inr (n, there) ↦ elim (Option-cases (file_alloc s.pool).0) [
            | inl used_up ↦
                rw (at, open_path)
                  (rw (there, open_path)
                    (rw (used_up, open_path)
                      (at_mount (record {
                        i = i;
                        rel = rel;
                        node = found.0;
                        inodes = found.1;
                        resolved = at;
                        looked = looked;
                        file = inl (refl, refl, refl, inr (all_taken s.pool full word used_up));
                      }))))
            | inr (f, taken) ↦
                rw (at, open_path)
                  (rw (there, open_path)
                    (rw (taken, open_path)
                      (at_mount (record {
                        i = i;
                        rel = rel;
                        node = found.0;
                        inodes = found.1;
                        resolved = at;
                        looked = looked;
                        file = inr (
                          n,
                          f,
                          there,
                          refl,
                          taken_file-IsOpenedAt ops s (resolve s.vfs path).1 flags sb n f found.1
                              found.2 full word taken,
                        );
                      }))))
          ]
        ]
  ]
