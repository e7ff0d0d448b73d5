-- ===== src/Fs/Vfs/Files.antt =====
-- kernel/fs/vfs2.c: the pool of open files and the tables of file descriptors. A `vfs_file_t *` is
-- an index into `file_pool`, `none` for NULL; inodes, operations and private data are numbers.
use bright_s.Base.{
  ℕ, zero, suc, ◌+◌, ◌<◌, ◌≡◌, ◌≢◌, ◌⊎◌, inl, inr, refl, ap, ◌∙◌, List, [], ◌∷◌, Option, none, some,
  Bool, true, false, not, leb, if◌then◌else◌, length, length-set, set, get_or, get_or-set_self,
  get_or-set_ne, arith, Option-cases, replicate,
}
use bright_s.Base.Int.{ℤ, pos, negsuc, minus_one}
use bright_s.Word.{has_bit, set_bit, clear_bit}

-- `VFS_FILE_POOL_SIZE` and `VFS_MAX_FDS`.
abbrev pub file_pool_size : ℕ
file_pool_size = 64

abbrev pub max_fds : ℕ
max_fds = 32

-- `vfs_file_t`; 0 stands for a NULL inode, operations table or private data.
pub record OpenFile : Type 0 where
  pub inode : ℕ
  pub pos_at : ℕ
  pub flags : ℕ
  pub fops : ℕ
  pub private_data : ℕ
  pub in_use : Bool

-- `file_pool` and `file_pool_bitmap`.
pub record Pool : Type 0 where
  pub files : List OpenFile
  pub bitmap : ℕ

abbrev pub no_file : OpenFile
no_file = record { inode = 0; pos_at = 0; flags = 0; fops = 0; private_data = 0; in_use = false }

abbrev pub open_at : Pool → ℕ → OpenFile
open_at p i = get_or p.files i no_file

-- The search for a free file, with n files left from the i-th on.
unfoldable pub find_closed : ℕ → ℕ → ℕ → Option ℕ
find_closed zero i bitmap = none
find_closed (suc n) i bitmap =
    let rest = find_closed n (i + 1) bitmap in if not (has_bit bitmap i) then some i else rest

abbrev pub fresh_file : OpenFile
fresh_file = record { inode = 0; pos_at = 0; flags = 0; fops = 0; private_data = 0; in_use = true }

-- `brights_vfs2_file_alloc`.
unfoldable pub file_alloc : Pool → Option ℕ × Pool
file_alloc p = elim (find_closed file_pool_size 0 p.bitmap) [
  | none ↦ (none, p)
  | some i ↦ (some i, record { files = set p.files i fresh_file; bitmap = set_bit p.bitmap i })
]

-- `brights_vfs2_file_free` of a file of the pool.
unfoldable pub file_free : Pool → Option ℕ → Pool
file_free p none = p
file_free p (some i) = record {
  files = set p.files i (record (open_at p i) { in_use = false });
  bitmap = if leb file_pool_size i then p.bitmap else clear_bit 64 p.bitmap i;
}

-- A table of descriptors: `vfs_file_t *table[VFS_MAX_FDS]`.
abbrev pub Fds : Type 0
Fds = List (Option ℕ)

-- `brights_vfs2_fdtable_init`.
unfoldable pub fdtable_init : Fds
fdtable_init = replicate max_fds none

-- The search for a free descriptor, from the i-th on.
unfoldable pub find_fd : ℕ → Fds → Option ℕ
find_fd i [] = none
find_fd i (slot ∷ table) =
    let rest = find_fd (i + 1) table in elim slot [ none ↦ some i | some f ↦ rest ]

-- `brights_vfs2_fd_alloc` of a table and a file that are not NULL.
unfoldable pub fd_alloc : Fds → ℕ → ℤ × Fds
fd_alloc table f = elim (find_fd 0 table) [
  | none ↦ (minus_one, table)
  | some i ↦ (pos i, set table i (some f))
]

-- `brights_vfs2_fd_free`.
unfoldable pub fd_free : Fds → ℤ → Fds
fd_free table (negsuc n) = table
fd_free table (pos fd) = if leb max_fds fd then table else set table fd none

-- `brights_vfs2_fd_get`.
unfoldable pub fd_get : Fds → ℤ → Option ℕ
fd_get table (negsuc n) = none
fd_get table (pos fd) = if leb max_fds fd then none else get_or table fd none

find_fd_lem :
    (k : ℕ) (table : Fds) (i : ℕ)
    → find_fd k table ≡ some i
    → (j : ℕ) × (i ≡ k + j)
      × (j < length table)
      × (get_or table j none ≡ none)
      × ((n : ℕ) → n < j → get_or table n none ≢ none)
unfolding find_fd
find_fd_lem k [] i e = absurd (ground arith)
find_fd_lem k (none ∷ table) i e = (0, ground arith, omega arith, refl, λ n h. absurd (omega arith))
find_fd_lem k (some f ∷ table) i e =
    let (j, at, inside, free, least) = find_fd_lem (k + 1) table i e in
    (suc j, omega arith, omega arith, free, before j least)
  where
    before :
        (j : ℕ)
        → ((n : ℕ) → n < j → get_or table n none ≢ none)
        → (n : ℕ) → n < suc j
        → get_or (some f ∷ table) n none ≢ none
    before j least zero h = λ e. some_none e
      where
        some_none : some f ≢ none
        some_none e = ground arith
    before j least (suc n) h = least n (omega arith)

find_fd-none :
    (k : ℕ) (table : Fds) (j : ℕ)
    → find_fd k table ≡ none
    → j < length table
    → get_or table j none ≢ none
unfolding find_fd
find_fd-none k [] j e h = absurd (omega arith)
find_fd-none k (none ∷ table) j e h = absurd (ground arith)
find_fd-none k (some f ∷ table) zero e h = λ e'. some_none e'
  where
    some_none : some f ≢ none
    some_none q = ground arith
find_fd-none k (some f ∷ table) (suc j) e h = find_fd-none (k + 1) table j e (omega arith)

-- In a table of 32 descriptors, brights_vfs2_fd_alloc either fails, and then every descriptor is
-- taken, or gives the least free descriptor, at which brights_vfs2_fd_get finds the file from
-- then on and until brights_vfs2_fd_free, and changes no other.
pub fd_alloc_lem :
    (table : Fds) (f : ℕ)
    → length table ≡ max_fds
    → let (r, t) = fd_alloc table f in
      ((r ≡ minus_one) × (t ≡ table) × ((n : ℕ) → n < max_fds → fd_get table (pos n) ≢ none))
      ⊎ ((i : ℕ) × (r ≡ pos i)
          × (i < max_fds)
          × (fd_get table (pos i) ≡ none)
          × ((n : ℕ) → n < i → fd_get table (pos n) ≢ none)
          × (fd_get t (pos i) ≡ some f)
          × ((n : ℕ) → i ≢ n → fd_get t (pos n) ≡ fd_get table (pos n))
          × (fd_get (fd_free t (pos i)) (pos i) ≡ none)
          × (length t ≡ max_fds))
unfolding fd_alloc fd_get fd_free
fd_alloc_lem table f full = elim (Option-cases (find_fd 0 table)) [
  | inl used_up ↦
      rw (used_up, fd_alloc)
        (inl (refl, refl, λ n h. rw (low n h) (find_fd-none 0 table n used_up (omega arith))))
  | inr (i, e) ↦
      let (j, at, inside, free, least) = find_fd_lem 0 table i e in
      let same : i ≡ j = omega arith in
      let h : i < max_fds = omega arith in
      let h' : i < length (set table i (some f)) = omega (arith, length-set table i (some f)) in
      rw (e, fd_alloc)
        (inr (
          i,
          refl,
          h,
          rw (low i h) (ap (λ k. get_or table k none) same ∙ free),
          λ n hn. rw (low n (omega arith)) (least n (omega arith)),
          rw (low i h) (get_or-set_self table i (some f) none (omega arith)),
          λ n apart.
              ap (λ r. if leb max_fds n then none else r)
                (get_or-set_ne table i n (some f) none apart),
          rw (low i h) (get_or-set_self (set table i (some f)) i none none h'),
          length-set table i (some f) ∙ full,
        ))
]
  where
    low : (n : ℕ) → n < max_fds → leb max_fds n ≡ false
    low n h = ground arith
