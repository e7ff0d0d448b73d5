-- ===== src/Fs/Vfs.antt =====
-- kernel/fs/vfs2.c and kernel/fs/vfs2.h: the table of mounts, the resolution of a path to a mount
-- with its cache, and the calls that go through it. A `vfs_mount_t *` is an index into
-- `mount_table`, and a `vfs_superblock_t *` a number. A NULL path or superblock is refused before
-- anything else happens; the arguments here are not NULL.
pub mod Files
pub mod Pool
pub mod Dispatch
pub mod Metadata
pub mod Opened
pub mod Open
pub mod Opening
pub mod Search
pub mod Mounts
pub mod Round
pub mod Resolve
pub mod Stale
mod Tests
use bright_s.Base.{
  ℕ, zero, suc, ◌+◌, ◌-◌, ◌%◌, List, [], ◌∷◌, Option, none, some, Bool, true, false, ◌==◌, ◌&&◌,
  ◌||◌, not, ltb, leb, if◌then◌else◌, length, take, drop, get_or, set, replicate,
}
use bright_s.Word.{has_bit, set_bit, clear_bit}
use bright_s.Fs.Text.{slash, root, path_eq, char_at}
use bright_s.Fs.Path.{vfs_normalize}

-- `VFS_MAX_MOUNTS` and `PATH_CACHE_SIZE`.
abbrev pub max_mounts : ℕ
max_mounts = 8

abbrev pub path_cache_size : ℕ
path_cache_size = 16

-- `vfs_mount_t`.
pub record Mount : Type 0 where
  pub prefix : List ℕ
  pub sb : ℕ
  pub active : Bool

-- An entry of `path_cache`.
pub record Cached : Type 0 where
  pub path : List ℕ
  pub mount : Option ℕ
  pub rel_path : List ℕ

-- The static variables of mounts and of their cache.
pub record Vfs : Type 0 where
  pub mounts : List Mount
  pub mount_bitmap : ℕ
  pub path_cache : List Cached
  pub path_cache_next : ℕ

abbrev pub no_mount : Mount
no_mount = record { prefix = []; sb = 0; active = false }

abbrev pub mount_at : Vfs → ℕ → Mount
mount_at s i = get_or s.mounts i no_mount

-- The zeroed static variables.
unfoldable pub boot : Vfs
boot = record {
  mounts = replicate max_mounts no_mount;
  mount_bitmap = 0;
  path_cache = replicate path_cache_size (record { path = []; mount = none; rel_path = [] });
  path_cache_next = 0;
}

unfoldable pub init_mounts : List Mount → List Mount
init_mounts [] = []
init_mounts (m ∷ ms) = record m { active = false } ∷ init_mounts ms

-- The part of `brights_vfs2_init` that is about mounts; the cache is not touched.
unfoldable pub init : Vfs → Vfs
init s = record s { mount_bitmap = 0; mounts = init_mounts s.mounts }

-- `vfs_str_prefix`.
unfoldable pub vfs_str_prefix : List ℕ → List ℕ → Bool
vfs_str_prefix [] path = true
vfs_str_prefix (p ∷ ps) [] = false
vfs_str_prefix (p ∷ ps) (c ∷ path) = p == c && vfs_str_prefix ps path

-- `vfs_str_copy` into a buffer of `cap` bytes.
abbrev pub vfs_str_copy : ℕ → List ℕ → List ℕ
vfs_str_copy cap src = take (cap - 1) src

-- The search for a mount in use with a prefix, from entry i on.
unfoldable pub find_mounted : ℕ → ℕ → List Mount → List ℕ → Option ℕ
find_mounted i bitmap [] prefix = none
find_mounted i bitmap (m ∷ ms) prefix =
    let rest = find_mounted (i + 1) bitmap ms prefix in
    if has_bit bitmap i && path_eq m.prefix prefix then some i else rest

-- The search for a free mount, from entry i on.
unfoldable pub find_unmounted : ℕ → ℕ → List Mount → Option ℕ
find_unmounted i bitmap [] = none
find_unmounted i bitmap (m ∷ ms) =
    let rest = find_unmounted (i + 1) bitmap ms in if not (has_bit bitmap i) then some i else rest

-- `brights_vfs2_mount`: whether it succeeds, and the tables.
unfoldable pub mount : Vfs → List ℕ → ℕ → Bool × Vfs
mount s prefix sb = elim (find_mounted 0 s.mount_bitmap s.mounts prefix) [
  | some old ↦ (false, s)
  | none ↦ elim (find_unmounted 0 s.mount_bitmap s.mounts) [
    | none ↦ (false, s)
    | some i ↦ (
      true,
      record s {
        mounts =
            set s.mounts i (record { prefix = vfs_str_copy 128 prefix; sb = sb; active = true });
        mount_bitmap = set_bit s.mount_bitmap i;
      },
    )
  ]
]

-- `brights_vfs2_umount`.
unfoldable pub umount : Vfs → List ℕ → Bool × Vfs
umount s prefix = elim (find_mounted 0 s.mount_bitmap s.mounts prefix) [
  | none ↦ (false, s)
  | some i ↦ (
    true,
    record s {
      mounts = set s.mounts i (record (mount_at s i) { active = false });
      mount_bitmap = clear_bit 8 s.mount_bitmap i;
    },
  )
]

-- The search of the cache, from entry i on: the mount and the relative path.
unfoldable pub find_cached : List Cached → List ℕ → Option (ℕ × List ℕ)
find_cached [] full_path = none
find_cached (c ∷ cs) full_path =
    let rest = find_cached cs full_path in
    elim c.mount [
      | none ↦ rest
      | some i ↦ if path_eq c.path full_path then some (i, c.rel_path) else rest
    ]

-- `best`, `best_len` and `best_rel_path`; without a mount, `best_len` is 0.
pub record Best : Type 0 where
  pub at : Option ℕ
  pub len : ℕ
  pub rel_path : List ℕ

-- What a round of the search does with mount i.
unfoldable pub better : List ℕ → ℕ → Mount → Best → Best
better norm i m best =
    let ml = length m.prefix in
    if not m.active
    then best
    else if ml == 1 && char_at m.prefix 0 == slash
    then (if ltb best.len 1
        then record { at = some i; len = 1; rel_path = vfs_str_copy 256 norm }
        else best)
    else if vfs_str_prefix m.prefix norm
        && (leb (length norm) ml || char_at norm ml == slash)
        && ltb best.len ml
    then record {
      at = some i;
      len = ml;
      rel_path = vfs_str_copy 256 (if leb (length norm) ml then root else drop ml norm);
    }
    else best

-- The search for the mount with the longest prefix, from entry i on.
unfoldable pub find_best : List ℕ → ℕ → List Mount → Best → Best
find_best norm i [] best = best
find_best norm i (m ∷ ms) best = find_best norm (i + 1) ms (better norm i m best)

abbrev pub no_best : Best
no_best = record { at = none; len = 0; rel_path = [] }

-- `brights_vfs2_resolve`: the mount and the relative path, and the tables. The caller gets the
-- relative path by a pointer to the local array `best_rel_path`; the path here is what that array
-- holds on return, and Fs/Vfs/Dispatch says what a caller sees of it then.
unfoldable pub resolve : Vfs → List ℕ → Option (ℕ × List ℕ) × Vfs
resolve s full_path = elim (vfs_normalize 256 full_path) [
  | none ↦ (none, s)
  | some norm ↦ elim (find_cached s.path_cache full_path) [
    | some hit ↦ (some hit, s)
    | none ↦
        let best = find_best norm 0 s.mounts no_best in
        elim best.at [
          | none ↦ (none, s)
          | some i ↦ (
            some (i, best.rel_path),
            record s {
              path_cache = set s.path_cache s.path_cache_next (record {
                path = vfs_str_copy 128 full_path;
                mount = some i;
                rel_path = vfs_str_copy 128 best.rel_path;
              });
              path_cache_next = (s.path_cache_next + 1) % path_cache_size;
            },
          )
        ]
  ]
]
