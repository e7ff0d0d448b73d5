-- ===== src/Fs/Vfs/Metadata.antt =====
-- kernel/fs/vfs2.c: the calls on a path that return data or change what is kept of a file. The
-- functions of `vfs_sb_ops_t` behind them are parameters, as in Fs/Vfs/Dispatch; what one stores
-- through its pointers is part of its result.
use bright_s.Base.{ℕ, List, [], Option, none, some, ◌≡◌, inl, inr, refl, Option-cases}
use bright_s.Base.Int.{ℤ, minus_one}
use bright_s.Fs.Vfs.{mount_at, resolve}
use bright_s.Fs.Vfs.Dispatch.{System, rel_seen}

-- The functions of the superblocks: stat with the size and the mode, readdir and readlink with
-- the size of the buffer and the bytes stored, symlink with the target, chmod and chown; `dead_array` is as in
-- Fs/Vfs/Dispatch.
pub record PathOps (World : Type 0) : Type 0 where
  pub dead_array : List ℕ → World → List ℕ
  pub stat : ℕ → Option (List ℕ → World → (ℤ × ℕ × ℕ) × World)
  pub readdir : ℕ → Option (ℕ → List ℕ → World → (ℤ × List ℕ) × World)
  pub symlink : ℕ → Option (List ℕ → List ℕ → World → ℤ × World)
  pub readlink : ℕ → Option (List ℕ → ℕ → World → (ℤ × List ℕ) × World)
  pub chmod : ℕ → Option (List ℕ → ℕ → World → ℤ × World)
  pub chown : ℕ → Option (List ℕ → ℕ → ℕ → World → ℤ × World)

module _ {World : Type 0} where
  -- The body that these calls share: `refused` is the result without a mount or a function.
  unfoldable pub dispatch_out :
      {R : Type 0}
      → (List ℕ → World → List ℕ)
      → R
      → (ℕ → Option (List ℕ → World → R × World))
      → System World
      → List ℕ
      → R × System World
  dispatch_out dead refused op s path =
      let (found, vfs) = resolve s.vfs path in
      elim found [
        | none ↦ (refused, record s { vfs = vfs })
        | some (i, rel) ↦ elim (op (mount_at vfs i).sb) [
          | none ↦ (refused, record s { vfs = vfs })
          | some f ↦
              let (r, world) = f (rel_seen dead s.vfs path rel s.world) s.world in
              (r, record s { vfs = vfs; world = world })
        ]
      ]

  -- `none` where there is no function, and otherwise what it does with a path.
  abbrev at_path :
      {A R : Type 0}
      → (A → List ℕ → World → R × World)
      → Option A
      → Option (List ℕ → World → R × World)
  at_path apply none = none
  at_path apply (some f) = some (apply f)

module _ {World : Type 0} (ops : PathOps World) where
  -- `brights_vfs2_stat`: the result with the size and the mode.
  unfoldable pub stat_path : System World → List ℕ → (ℤ × ℕ × ℕ) × System World
  stat_path = dispatch_out ops.dead_array (minus_one, 0, 0) ops.stat

  -- `brights_vfs2_readdir` and `brights_vfs2_readlink`, with the bytes stored.
  unfoldable pub read_dir : System World → List ℕ → ℕ → (ℤ × List ℕ) × System World
  read_dir s path buf_size =
      dispatch_out ops.dead_array (minus_one, []) (λ sb. at_path (λ f. f buf_size) (ops.readdir sb))
        s path

  unfoldable pub read_link : System World → List ℕ → ℕ → (ℤ × List ℕ) × System World
  read_link s path buf_size =
      dispatch_out ops.dead_array (minus_one, [])
        (λ sb. at_path (λ f rel. f rel buf_size) (ops.readlink sb)) s path

  -- `brights_vfs2_symlink`: the path that is resolved is the link's.
  unfoldable pub make_link : System World → List ℕ → List ℕ → ℤ × System World
  make_link s target link_path =
      dispatch_out ops.dead_array minus_one (λ sb. at_path (λ f. f target) (ops.symlink sb)) s
        link_path

  -- `brights_vfs2_chmod` and `brights_vfs2_chown`.
  unfoldable pub change_mode : System World → List ℕ → ℕ → ℤ × System World
  change_mode s path mode =
      dispatch_out ops.dead_array minus_one (λ sb. at_path (λ f rel. f rel mode) (ops.chmod sb)) s
        path

  unfoldable pub change_owner : System World → List ℕ → ℕ → ℕ → ℤ × System World
  change_owner s path uid gid =
      dispatch_out ops.dead_array minus_one (λ sb. at_path (λ f rel. f rel uid gid) (ops.chown sb))
        s path

-- Such a call never touches the open files, and the inodes only by the function it calls, whose
-- effect on them is not followed.
pub dispatch_out_keeps :
    {World R : Type 0} (dead : List ℕ → World → List ℕ) (refused : R)
    (op : ℕ → Option (List ℕ → World → R × World)) (s : System World) (path : List ℕ)
    → ((dispatch_out dead refused op s path).1.pool ≡ s.pool)
      × ((dispatch_out dead refused op s path).1.inodes ≡ s.inodes)
unfolding dispatch_out
dispatch_out_keeps dead refused op s path = elim (Option-cases (resolve s.vfs path).0) [
  | inl e ↦ rw (e, dispatch_out) (refl, refl)
  | inr ((i, rel), e) ↦
      rw (e, dispatch_out)
        (elim (Option-cases (op (mount_at (resolve s.vfs path).1 i).sb)) [
          | inl no_op ↦ rw (no_op, dispatch_out) (refl, refl)
          | inr (f, some_op) ↦ rw (some_op, dispatch_out) (refl, refl)
        ])
]
