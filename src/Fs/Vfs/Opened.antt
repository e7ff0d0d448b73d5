-- ===== src/Fs/Vfs/Opened.antt =====
-- kernel/fs/vfs2.c: the parts of `brights_vfs2_open`, the inode that it finds and the file that it
-- makes of it.
use bright_s.Base.{
  ℕ, Option, bit_and, Bool-cases, set, ◌==◌, ◌&&◌, ◌≡◌, ◌≢◌, ◌<◌, ◌^◌, ◌⊎◌, inl, inr, refl, sym, ap,
  ◌∙◌, List, none, some, true, false, not, length, get_or, get_or-set_self, get_or-set_ne, arith,
}
use bright_s.Word.{has_bit}
use bright_s.Fs.Vfs.{Vfs}
use bright_s.Fs.Vfs.Files.{open_at, file_alloc, file_pool_size, no_file}
use bright_s.Fs.Vfs.Pool.{file_alloc_lem, length-file_alloc}
use bright_s.Fs.Vfs.Dispatch.{
  System, Ops, PathOp, Inode, no_inode, o_creat, o_trunc, o_append, s_ifreg, create_first,
  find_inode, truncated, opened,
}

module _ {World : Type 0} (ops : Ops World) where
  -- Opening a path at a mount asks the superblock for an inode, after the creation that the flags
  -- ask for; `seen` is the relative path as it shows in a state of the world.
  pub record LookedUp (s : System World) (flags sb : ℕ) (seen : World → List ℕ) (node : Option ℕ)
      (inodes : List Inode) (world : World) : Type 0 where
    pub made : List Inode × World
    pub no_creation :
        ((bit_and flags o_creat ≡ 0) ⊎ (ops.make_file sb ≡ none)) → made ≡ (s.inodes, s.world)
    pub creation :
        (op : PathOp World)
        → bit_and flags o_creat ≢ 0
        → ops.make_file sb ≡ some op
        → let r = op (seen s.world) s.inodes s.world in made ≡ (r.1, r.2)
    pub no_lookup : ops.lookup sb ≡ none → (node ≡ none) × (inodes ≡ made.0) × (world ≡ made.1)
    pub lookup :
        (op : List ℕ → List Inode → World → Option ℕ × List Inode × World)
        → ops.lookup sb ≡ some op
        → op (seen made.1) made.0 made.1 ≡ (node, inodes, world)

  -- The new file, at f, for the inode `ino` at `node` of `inodes`; `left` is the size that
  -- truncation leaves.
  pub record IsOpenedAt (s t : System World) (flags sb node f : ℕ) (inodes : List Inode)
      : Type 0 where
    pub left : ℕ
    pub free : has_bit s.pool.bitmap f ≡ false
    pub in_pool : f < file_pool_size
    pub emptied :
        bit_and flags o_trunc ≢ 0 → (get_or inodes node no_inode).mode ≡ s_ifreg → left ≡ 0
    pub whole :
        ((bit_and flags o_trunc ≡ 0) ⊎ ((get_or inodes node no_inode).mode ≢ s_ifreg))
        → left ≡ (get_or inodes node no_inode).size
    pub sized : t.inodes ≡ set inodes node (record (get_or inodes node no_inode) { size = left })
    pub at_start : bit_and flags o_append ≡ 0 → (open_at t.pool f).pos_at ≡ 0
    pub at_end : bit_and flags o_append ≢ 0 → (open_at t.pool f).pos_at ≡ left
    pub inode : (open_at t.pool f).inode ≡ node
    pub flags_kept : (open_at t.pool f).flags ≡ flags
    pub fops : (open_at t.pool f).fops ≡ ops.default_fops sb
    pub private : (open_at t.pool f).private_data ≡ (get_or inodes node no_inode).fs_private
    pub busy : (open_at t.pool f).in_use ≡ true
    pub others : (j : ℕ) → f ≢ j → open_at t.pool j ≡ open_at s.pool j

  pub looked_up :
      (s : System World) (flags sb : ℕ) (seen : World → List ℕ)
      → let made = create_first ops flags sb seen s.inodes s.world in
        let found = find_inode ops sb seen made.0 made.1 in
        LookedUp s flags sb seen found.0 found.1 found.2
  looked_up s flags sb seen = record {
    made = create_first ops flags sb seen s.inodes s.world;
    no_creation = not_made;
    creation = made_by;
    no_lookup = λ e. rw (e, find_inode) (refl, refl, refl);
    lookup = λ op e. rw (e, find_inode) refl;
  }
    where
      not_made :
          ((bit_and flags o_creat ≡ 0) ⊎ (ops.make_file sb ≡ none))
          → create_first ops flags sb seen s.inodes s.world ≡ (s.inodes, s.world)
      not_made (inl e) = let z : (bit_and flags o_creat == 0) ≡ true = ground arith in rw z refl
      not_made (inr e) = elim (Bool-cases (bit_and flags o_creat == 0)) [
        | inl z ↦ rw z refl
        | inr z ↦ rw (z, e) refl
      ]

      made_by :
          (op : PathOp World)
          → bit_and flags o_creat ≢ 0
          → ops.make_file sb ≡ some op
          → let r = op (seen s.world) s.inodes s.world in
            create_first ops flags sb seen s.inodes s.world ≡ (r.1, r.2)
      made_by op some_flag e =
          let z : (bit_and flags o_creat == 0) ≡ false = ground arith in rw (z, e) refl

  module _ (flags : ℕ) (o : Inode) where
    is_emptied : bit_and flags o_trunc ≢ 0 → o.mode ≡ s_ifreg → (truncated ops flags o).size ≡ 0
    is_emptied some_flag regular =
        let z : (not (bit_and flags o_trunc == 0) && o.mode == s_ifreg) ≡ true = ground arith in
        rw z refl

    is_whole :
        ((bit_and flags o_trunc ≡ 0) ⊎ (o.mode ≢ s_ifreg)) → (truncated ops flags o).size ≡ o.size
    is_whole (inl no_flag) =
        let z : (not (bit_and flags o_trunc == 0) && o.mode == s_ifreg) ≡ false = ground arith in
        rw z refl
    is_whole (inr other) =
        let z : (not (bit_and flags o_trunc == 0) && o.mode == s_ifreg) ≡ false = ground arith in
        rw z refl

    is_sized : truncated ops flags o ≡ record o { size = (truncated ops flags o).size }
    is_sized = elim (Bool-cases (not (bit_and flags o_trunc == 0) && o.mode == s_ifreg)) [
      | inl z ↦ rw z refl
      | inr z ↦ rw z refl
    ]

  pos_start :
      (flags sb n : ℕ) (ino : Inode)
      → bit_and flags o_append ≡ 0
      → (opened ops flags sb n ino).pos_at ≡ 0
  pos_start flags sb n ino e =
      let z : (bit_and flags o_append == 0) ≡ true = ground arith in rw z refl

  pos_end :
      (flags sb n : ℕ) (ino : Inode)
      → bit_and flags o_append ≢ 0
      → (opened ops flags sb n ino).pos_at ≡ ino.size
  pos_end flags sb n ino e =
      let z : (bit_and flags o_append == 0) ≡ false = ground arith in rw z refl

  -- The state that `brights_vfs2_open` leaves when it succeeds.
  abbrev pub taken_file : System World → Vfs → ℕ → ℕ → ℕ → ℕ → List Inode → World → System World
  taken_file s vfs flags sb n f inodes world =
      let ino = truncated ops flags (get_or inodes n no_inode) in
      record s {
        vfs = vfs;
        inodes = set inodes n ino;
        world = world;
        pool = record (file_alloc s.pool).1 {
          files = set (file_alloc s.pool).1.files f (opened ops flags sb n ino);
        };
      }

  pub taken_file-IsOpenedAt :
      (s : System World) (vfs : Vfs) (flags sb n f : ℕ) (inodes : List Inode) (world : World)
      → length s.pool.files ≡ file_pool_size
      → s.pool.bitmap < 2 ^ 64
      → (file_alloc s.pool).0 ≡ some f
      → IsOpenedAt s (taken_file s vfs flags sb n f inodes world) flags sb n f inodes
  taken_file-IsOpenedAt s vfs flags sb n f inodes world full word taken =
      elim (file_alloc_lem s.pool full word) [
        | inl none_free ↦ absurd (none_some (sym none_free.0 ∙ taken))
        | inr (f', e, inside, free, fresh, bits, others, released) ↦
            let same : f' ≡ f = some_inj f' f (sym e ∙ taken) in
            let h : f < length (file_alloc s.pool).1.files =
              omega (arith, same, inside, full, length-file_alloc s.pool) in
            let o = get_or inodes n no_inode in
            let ino = truncated ops flags o in
            let file = opened ops flags sb n ino in
            let here : open_at (taken_file s vfs flags sb n f inodes world).pool f ≡ file =
              get_or-set_self (file_alloc s.pool).1.files f file no_file h in
            record {
              left = ino.size;
              free = ap (has_bit s.pool.bitmap) (sym same) ∙ free;
              in_pool = omega (arith, same, inside);
              emptied = is_emptied flags o;
              whole = is_whole flags o;
              sized = ap (set inodes n) (is_sized flags o);
              at_start = λ z. ap (λ x. x.pos_at) here ∙ pos_start flags sb n ino z;
              at_end = λ z. ap (λ x. x.pos_at) here ∙ pos_end flags sb n ino z;
              inode = ap (λ x. x.inode) here;
              flags_kept = ap (λ x. x.flags) here;
              fops = ap (λ x. x.fops) here;
              private = ap (λ x. x.private_data) here ∙ same_private flags o;
              busy = ap (λ x. x.in_use) here;
              others = λ j apart.
                  get_or-set_ne (file_alloc s.pool).1.files f j file no_file apart
                  ∙ others j (λ q. apart (sym same ∙ q));
            }
      ]
    where
      none_some : {k : ℕ} → none ≢ some k
      none_some q = ground arith

      some_inj : (a b : ℕ) → some a ≡ some b → a ≡ b
      some_inj a b q = cc

      same_private : (flags : ℕ) (o : Inode) → (truncated ops flags o).fs_private ≡ o.fs_private
      same_private flags o =
          elim (Bool-cases (not (bit_and flags o_trunc == 0) && o.mode == s_ifreg)) [
            | inl z ↦ rw z refl
            | inr z ↦ rw z refl
          ]
