-- ===== src/Fs/Vfs/Dispatch.antt =====
-- kernel/fs/vfs2.c: the calls that go on to a filesystem. The functions behind the pointers of
-- `vfs_sb_ops_t` and `vfs_file_ops_t` are parameters, as is the state `World` that they keep; a
-- NULL pointer is `none`. A path, buffer or file that is NULL is refused first; those here are not.
use bright_s.Base.{
  ℕ, ◌+◌, ◌%◌, ◌^◌, List, [], Option, none, some, Bool, true, false, ◌==◌, ◌&&◌, not, if◌then◌else◌,
  set, get_or, bit_and,
}
use bright_s.Base.Int.{ℤ, minus_one}
use bright_s.Fs.Vfs.{Vfs, mount_at, find_cached, resolve}
use bright_s.Fs.Vfs.Files.{OpenFile, Pool, open_at, file_alloc, file_free}

-- `VFS_O_CREAT`, `VFS_O_TRUNC`, `VFS_O_APPEND` and `VFS_S_IFREG`.
abbrev pub o_creat : ℕ
o_creat = 0x40

abbrev pub o_trunc : ℕ
o_trunc = 0x200

abbrev pub o_append : ℕ
o_append = 0x400

abbrev pub s_ifreg : ℕ
s_ifreg = 0x8000

-- The fields of `vfs_inode_t` that this layer uses; a `vfs_inode_t *` is an index into a list.
pub record Inode : Type 0 where
  pub mode : ℕ
  pub size : ℕ
  pub fs_private : ℕ

abbrev pub no_inode : Inode
no_inode = record { mode = 0; size = 0; fs_private = 0 }

pub record System (World : Type 0) : Type 0 where
  pub vfs : Vfs
  pub pool : Pool
  pub inodes : List Inode
  pub world : World

-- A `create`, `mkdir` or `unlink` of a superblock; these may change inodes.
abbrev pub PathOp : Type 0 → Type 0
PathOp World = List ℕ → List Inode → World → ℤ × List Inode × World

-- The functions of the superblocks, by the superblock, and of files, by the table `fops`; and what
-- the pointer to `best_rel_path` shows after `brights_vfs2_resolve` has returned, when that array
-- is dead: it may be anything, which can depend on what the array held and on the world.
pub record Ops (World : Type 0) : Type 0 where
  pub dead_array : List ℕ → World → List ℕ
  pub lookup : ℕ → Option (List ℕ → List Inode → World → Option ℕ × List Inode × World)
  pub make_file : ℕ → Option (PathOp World)
  pub make_dir : ℕ → Option (PathOp World)
  pub remove : ℕ → Option (PathOp World)
  pub default_fops : ℕ → ℕ
  pub read : ℕ → Option (OpenFile → ℕ → World → (ℤ × List ℕ) × OpenFile × World)
  pub write : ℕ → Option (OpenFile → List ℕ → World → ℤ × OpenFile × World)
  pub close : ℕ → Option (OpenFile → World → World)
  pub lseek : ℕ → Option (OpenFile → ℕ → ℕ → World → Option ℕ × OpenFile × World)

-- The relative path that a caller of `brights_vfs2_resolve` sees through its pointer: that of the
-- cache, which is static, if the path was found there, and otherwise what the dead array shows.
abbrev pub rel_seen :
    {World : Type 0} → (List ℕ → World → List ℕ) → Vfs → List ℕ → List ℕ → World → List ℕ
rel_seen dead vfs path rel world = elim (find_cached vfs.path_cache path) [
  | none ↦ dead rel world
  | some hit ↦ rel
]

module _ {World : Type 0} (ops : Ops World) where
  -- `brights_vfs2_create`, `brights_vfs2_mkdir` and `brights_vfs2_unlink`, by the function that
  -- each calls.
  unfoldable pub dispatch : (ℕ → Option (PathOp World)) → System World → List ℕ → ℤ × System World
  dispatch op s path =
      let (found, vfs) = resolve s.vfs path in
      elim found [
        | none ↦ (minus_one, record s { vfs = vfs })
        | some (i, rel) ↦ elim (op (mount_at vfs i).sb) [
          | none ↦ (minus_one, record s { vfs = vfs })
          | some f ↦
              let seen = rel_seen ops.dead_array s.vfs path rel s.world in
              let (r, inodes, world) = f seen s.inodes s.world in
              (r, record s { vfs = vfs; inodes = inodes; world = world })
        ]
      ]

  unfoldable pub create : System World → List ℕ → ℤ × System World
  create = dispatch ops.make_file

  unfoldable pub mkdir : System World → List ℕ → ℤ × System World
  mkdir = dispatch ops.make_dir

  unfoldable pub unlink : System World → List ℕ → ℤ × System World
  unlink = dispatch ops.remove

  -- `if ((flags & VFS_O_CREAT) ...) sb->sb_ops->create(sb, rel);`
  -- `seen` is the relative path as it shows in a state of the world.
  abbrev pub create_first : ℕ → ℕ → (World → List ℕ) → List Inode → World → List Inode × World
  create_first flags sb seen inodes world =
      if bit_and flags o_creat == 0 then (inodes, world) else elim (ops.make_file sb) [
        | none ↦ (inodes, world)
        | some f ↦ let r = f (seen world) inodes world in (r.1, r.2)
      ]

  abbrev pub find_inode : ℕ → (World → List ℕ) → List Inode → World → Option ℕ × List Inode × World
  find_inode sb seen inodes world = elim (ops.lookup sb) [
    | none ↦ (none, inodes, world)
    | some f ↦ f (seen world) inodes world
  ]

  -- What is left of the inode's size.
  abbrev pub truncated : ℕ → Inode → Inode
  truncated flags ino =
      if not (bit_and flags o_trunc == 0) && ino.mode == s_ifreg
      then record ino { size = 0 }
      else ino

  abbrev pub opened : ℕ → ℕ → ℕ → Inode → OpenFile
  opened flags sb n ino = record {
    inode = n;
    pos_at = if bit_and flags o_append == 0 then 0 else ino.size;
    flags = flags;
    fops = ops.default_fops sb;
    private_data = ino.fs_private;
    in_use = true;
  }

  -- `brights_vfs2_open`: the file, and the state.
  unfoldable pub open_path : System World → List ℕ → ℕ → Option ℕ × System World
  open_path s path flags =
      let (found, vfs) = resolve s.vfs path in
      elim found [
        | none ↦ (none, record s { vfs = vfs })
        | some (i, rel) ↦
            let sb = (mount_at vfs i).sb in
            let seen = rel_seen ops.dead_array s.vfs path rel in
            let made = create_first flags sb seen s.inodes s.world in
            let (node, inodes, world) = find_inode sb seen made.0 made.1 in
            let t = record s { vfs = vfs; inodes = inodes; world = world } in
            elim node [
              | none ↦ (none, t)
              | some n ↦ elim (file_alloc s.pool).0 [
                | none ↦ (none, t)
                | some f ↦
                    let ino = truncated flags (get_or inodes n no_inode) in
                    (
                      some f,
                      record t {
                        inodes = set inodes n ino;
                        pool = record (file_alloc s.pool).1 {
                          files = set (file_alloc s.pool).1.files f (opened flags sb n ino);
                        };
                      },
                    )
              ]
            ]
      ]

  -- `brights_vfs2_close`.
  unfoldable pub close : System World → ℕ → Bool × System World
  close s f = if not (open_at s.pool f).in_use then (false, s) else (
    true,
    record s {
      world = elim (ops.close (open_at s.pool f).fops) [
        | none ↦ s.world
        | some op ↦ op (open_at s.pool f) s.world
      ];
      pool = file_free s.pool (some f);
    },
  )

  abbrev pub store_file : System World → ℕ → OpenFile → World → System World
  store_file s f file world = record s {
    pool = record s.pool { files = set s.pool.files f file };
    world = world;
  }

  -- `brights_vfs2_read`: the result, the bytes stored, and the state.
  unfoldable pub read : System World → ℕ → ℕ → ℤ × List ℕ × System World
  read s f n =
      let file = open_at s.pool f in
      if not file.in_use then (minus_one, [], s) else elim (ops.read file.fops) [
        | none ↦ (minus_one, [], s)
        | some op ↦
            let ((r, out), after, world) = op file n s.world in (r, out, store_file s f after world)
      ]

  -- `brights_vfs2_write`.
  unfoldable pub write : System World → ℕ → List ℕ → ℤ × System World
  write s f buf =
      let file = open_at s.pool f in
      if not file.in_use then (minus_one, s) else elim (ops.write file.fops) [
        | none ↦ (minus_one, s)
        | some op ↦ let (r, after, world) = op file buf s.world in (r, store_file s f after world)
      ]

  -- The switch of `brights_vfs2_lseek` on SET, CUR and END, by words of 64 bits.
  unfoldable pub new_pos : OpenFile → Inode → ℕ → ℕ → Option ℕ
  new_pos file ino offset whence =
      if whence == 0
      then some offset
      else if whence == 1
      then some ((file.pos_at + offset) % 2 ^ 64)
      else if whence == 2
      then some ((ino.size + offset) % 2 ^ 64)
      else none

  -- `brights_vfs2_lseek` of a file with an inode; `none` is -1, and the offset and the result are
  -- the words of the C integers.
  unfoldable pub lseek : System World → ℕ → ℕ → ℕ → Option ℕ × System World
  lseek s f offset whence =
      let file = open_at s.pool f in
      if not file.in_use then (none, s) else elim (ops.lseek file.fops) [
        | some op ↦
            let (r, after, world) = op file offset whence s.world in (r, store_file s f after world)
        | none ↦ elim (new_pos file (get_or s.inodes file.inode no_inode) offset whence) [
          | none ↦ (none, s)
          | some p ↦ (some p, store_file s f (record file { pos_at = p }) s.world)
        ]
      ]
