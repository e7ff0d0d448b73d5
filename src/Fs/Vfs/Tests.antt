-- ===== src/Fs/Vfs/Tests.antt =====
-- Mounts of kernel/fs/vfs2.c at concrete inputs.
use bright_s.Base.{
  ℕ, ◌≡◌, ◌≢◌, ◌≤◌, ◌<◌, ◌⊎◌, refl, List, [], ◌∷◌, Option, some, none, true, false, arith, length,
  take, replicate, length-replicate, ◌||◌, ◌==◌, ◌^◌,
}
use bright_s.Base.Int.{pos, minus_one}
use bright_s.Word.{has_bit}
use bright_s.Fs.Text.{root, path_eq}
use bright_s.Fs.Path.{
  skip_slashes, read_segment, drop_last, add_segment, scan, put, put_segments, vfs_normalize,
}
use bright_s.Fs.Vfs.{
  Vfs, boot, mount_at, max_mounts, mount, umount, resolve, find_mounted, find_unmounted,
  find_cached, find_best, better, vfs_str_prefix,
}
use bright_s.Fs.Vfs.Files.{
  find_closed, fd_alloc, fd_get, fd_free, fdtable_init, max_fds, fd_alloc_lem, Pool, file_pool_size,
  file_alloc, file_free, fresh_file, open_at, no_file,
}
use bright_s.Fs.Vfs.Pool.{file_alloc_lem, length-file_alloc}
use bright_s.Fs.Vfs.Dispatch.{Ops, System, open_path, lseek}
use bright_s.Fs.Vfs.Open.{open_path-Outcome, Outcome}
use bright_s.Fs.Vfs.Opening.{lseek_twice}
use bright_s.Fs.Vfs.Mounts.{Inv, boot-Inv, mount_lem, umount_lem}
use bright_s.Fs.Vfs.Round.{Serves}
use bright_s.Fs.Vfs.Resolve.{resolve_lem}
use bright_s.Fs.Vfs.Stale.{resolve-umount}

-- "/dev", "/dev/tty" and "/tty".
abbrev dev : List ℕ
dev = 0x2f ∷ 0x64 ∷ 0x65 ∷ 0x76 ∷ []

abbrev dev_tty : List ℕ
dev_tty = 0x2f ∷ 0x64 ∷ 0x65 ∷ 0x76 ∷ 0x2f ∷ 0x74 ∷ 0x74 ∷ 0x79 ∷ []

abbrev tty : List ℕ
tty = 0x2f ∷ 0x74 ∷ 0x74 ∷ 0x79 ∷ []

unfoldable mounted : Vfs
mounted = (mount (mount boot root 1).1 dev 2).1

resolves : (resolve mounted dev_tty).0 ≡ some (1, tty)
unfolding mounted mount boot resolve find_mounted find_unmounted find_cached find_best better
    vfs_str_prefix vfs_normalize skip_slashes read_segment drop_last add_segment scan put
    put_segments path_eq
resolves = refl

normal : vfs_normalize 256 dev_tty ≡ some dev_tty
unfolding vfs_normalize skip_slashes read_segment drop_last add_segment scan put put_segments
normal = refl

not_cached : find_cached mounted.path_cache dev_tty ≡ none
unfolding mounted mount boot find_mounted find_unmounted find_cached path_eq
not_cached = refl

mount_lem_example :
    let (ok, t) = mount boot dev 2 in
    ((ok ≡ false) × (t ≡ boot))
    ⊎ ((i : ℕ) × (ok ≡ true)
        × (i < max_mounts)
        × ((mount_at boot i).active ≡ false)
        × (mount_at t i ≡ record { prefix = dev; sb = 2; active = true })
        × ((j : ℕ) → i ≢ j → mount_at t j ≡ mount_at boot j)
        × Inv t)
mount_lem_example = mount_lem boot dev 2 boot-Inv (omega arith)

umount_lem_example :
    let (ok, t) = umount boot dev in
    ((ok ≡ false)
      × (t ≡ boot)
      × ((j : ℕ)
          → j < max_mounts
          → (mount_at boot j).active ≡ true
          → (mount_at boot j).prefix ≢ dev))
    ⊎ ((i : ℕ) × (ok ≡ true)
        × (i < max_mounts)
        × ((mount_at boot i).active ≡ true)
        × ((mount_at boot i).prefix ≡ dev)
        × ((mount_at t i).active ≡ false)
        × ((j : ℕ) → i ≢ j → mount_at t j ≡ mount_at boot j)
        × Inv t)
umount_lem_example = umount_lem boot dev boot-Inv

resolve_lem_example :
    ((resolve mounted dev_tty ≡ (none, mounted))
      × ((j : ℕ) (rel : List ℕ)
          → j < length mounted.mounts
          → ¬ Serves (mount_at mounted j) dev_tty rel))
    ⊎ ((i : ℕ) × (rel : List ℕ) × ((resolve mounted dev_tty).0 ≡ some (i, rel))
        × (i < length mounted.mounts)
        × Serves (mount_at mounted i) dev_tty rel
        × ((j : ℕ) (other : List ℕ)
            → j < length mounted.mounts
            → Serves (mount_at mounted j) dev_tty other
            → length (mount_at mounted j).prefix ≤ length (mount_at mounted i).prefix))
resolve_lem_example = resolve_lem mounted dev_tty dev_tty normal not_cached

room : mounted.path_cache_next < length mounted.path_cache
unfolding mounted mount boot find_mounted find_unmounted path_eq
room = omega arith

still_mounted :
    find_mounted 0 (resolve mounted dev_tty).1.mount_bitmap (resolve mounted dev_tty).1.mounts dev
    ≡ some 1
unfolding mounted mount boot resolve find_mounted find_unmounted find_cached find_best better
    vfs_str_prefix vfs_normalize skip_slashes read_segment drop_last add_segment scan put
    put_segments path_eq
still_mounted = refl

-- "/dev/tty" still goes to the mount at "/dev" after that was unmounted.
resolve-umount_example :
    let u = (umount (resolve mounted dev_tty).1 dev).1 in
    ((umount (resolve mounted dev_tty).1 dev).0 ≡ true)
    × ((mount_at u 1).active ≡ false)
    × ((resolve u dev_tty).0 ≡ some (1, take 127 tty))
resolve-umount_example =
    resolve-umount mounted dev_tty dev_tty dev 1 tty normal not_cached (omega arith) room resolves
      still_mounted

fd_alloc_lem_example :
    let (r, t) = fd_alloc fdtable_init 9 in
    ((r ≡ minus_one)
      × (t ≡ fdtable_init)
      × ((n : ℕ) → n < max_fds → fd_get fdtable_init (pos n) ≢ none))
    ⊎ ((i : ℕ) × (r ≡ pos i)
        × (i < max_fds)
        × (fd_get fdtable_init (pos i) ≡ none)
        × ((n : ℕ) → n < i → fd_get fdtable_init (pos n) ≢ none)
        × (fd_get t (pos i) ≡ some 9)
        × ((n : ℕ) → i ≢ n → fd_get t (pos n) ≡ fd_get fdtable_init (pos n))
        × (fd_get (fd_free t (pos i)) (pos i) ≡ none)
        × (length t ≡ max_fds))
unfolding fdtable_init
fd_alloc_lem_example = fd_alloc_lem fdtable_init 9 (length-replicate {A = Option ℕ} max_fds none)

unfoldable pool : Pool
pool = record { files = replicate file_pool_size no_file; bitmap = 5 }

pool_full : length pool.files ≡ file_pool_size
unfolding pool
pool_full = length-replicate file_pool_size no_file

pool_word : pool.bitmap < 2 ^ 64
unfolding pool
pool_word = omega arith

file_alloc_lem_example :
    let (r, q) = file_alloc pool in
    ((r ≡ none) × (q ≡ pool) × ((j : ℕ) → j < file_pool_size → has_bit pool.bitmap j ≡ true))
    ⊎ ((i : ℕ) × (r ≡ some i)
        × (i < file_pool_size)
        × (has_bit pool.bitmap i ≡ false)
        × (open_at q i ≡ fresh_file)
        × ((j : ℕ) → has_bit q.bitmap j ≡ (has_bit pool.bitmap j || i == j))
        × ((j : ℕ) → i ≢ j → open_at q j ≡ open_at pool j)
        × (((open_at (file_free q (some i)) i).in_use ≡ false)
            × ((j : ℕ) → has_bit (file_free q (some i)).bitmap j ≡ has_bit pool.bitmap j)))
file_alloc_lem_example = file_alloc_lem pool pool_full pool_word

-- A filesystem with one file of 10 bytes under every path.
abbrev one_file : Ops (Unit {0})
one_file = record {
  dead_array = λ rel world. [];
  lookup = λ sb. some (λ rel inodes world. (some 0, inodes, world));
  make_file = λ sb. none;
  make_dir = λ sb. none;
  remove = λ sb. none;
  default_fops = λ sb. 7;
  read = λ fops. none;
  write = λ fops. none;
  close = λ fops. none;
  lseek = λ fops. none;
}

unfoldable system : System (Unit {0})
system = record {
  vfs = mounted;
  pool = pool;
  inodes = record { mode = 0x8000; size = 10; fs_private = 3 } ∷ [];
  world = tt;
}

open_path-Outcome_example :
    let (r, t) = open_path one_file system dev_tty 0x400 in
    Outcome one_file system dev_tty 0x400 r t
unfolding system
open_path-Outcome_example = open_path-Outcome one_file system dev_tty 0x400 pool_full pool_word

opened_file : System (Unit {0})
opened_file = record system { pool = (file_alloc pool).1 }

in_use : (open_at opened_file.pool 1).in_use ≡ true
unfolding opened_file system pool file_alloc find_closed
in_use = refl

has_file : 1 < length opened_file.pool.files
unfolding opened_file system
has_file = omega (arith, length-file_alloc pool, pool_full)

lseek_twice_example :
    let (r, t) = lseek one_file opened_file 1 5 0 in
    (r ≡ some 5)
    × ((open_at t.pool 1).pos_at ≡ 5)
    × ((lseek one_file t 1 0 1).0 ≡ some 5)
    × ((j : ℕ) → 1 ≢ j → open_at t.pool j ≡ open_at opened_file.pool j)
lseek_twice_example = lseek_twice one_file opened_file 1 5 has_file in_use refl (omega arith)
