-- ===== src/Fs/Ramfs.antt =====
-- kernel/fs/ramfs.c and kernel/fs/ramfs.h: files in a table of 32 entries with 4096 bytes of
-- storage each. The functions take the table `ramfs_files` and return it where they change it;
-- -1 is `none`. An entry holds its own storage, since `data` always points to `ramfs_storage[i]`.
pub mod Names
pub mod Access
pub mod Adding
pub mod Listing
pub mod Lookup
pub mod Edit
pub mod Tree
pub mod Children
pub mod Sound
pub mod History
pub mod View
pub mod Refine
pub mod Data
pub mod Limits
mod Tests
use bright_s.Base.{
  ℕ, zero, suc, ◌+◌, ◌-◌, ◌*◌, ◌%◌, ◌^◌, List, [], ◌∷◌, ◌++◌, Option, none, some, Bool, true, false,
  ◌==◌, ◌||◌, ◌&&◌, not, leb, ltb, if◌then◌else◌, length, take, drop, get_or, set, replicate,
  bit_and, bit_or,
}
use bright_s.Base.Int.{ℤ, pos, negsuc}
use bright_s.Fs.Text.{
  slash, root, path_eq, path_len_limited, strncmp_eq, has_char, char_at, ends_at,
}
use bright_s.Fs.Path.{normalize_path, path_parent}

-- `BRIGHTS_RAMFS_MAX_FILES`, `BRIGHTS_RAMFS_MAX_NAME`, `BRIGHTS_RAMFS_MAX_SYMLINK_TARGET` and the
-- size of a row of `ramfs_storage`.
abbrev pub max_files : ℕ
max_files = 32

abbrev pub max_name : ℕ
max_name = 128

abbrev pub max_symlink_target : ℕ
max_symlink_target = 256

abbrev pub storage_size : ℕ
storage_size = 4096

-- `brights_ramfs_file_t`.
pub record File : Type 0 where
  pub name : List ℕ
  pub bytes : List ℕ
  pub size : ℕ
  pub capacity : ℕ
  pub mode : ℕ
  pub uid : ℕ
  pub gid : ℕ
  pub symlink_target : List ℕ
  pub is_dir : Bool
  pub is_symlink : Bool
  pub in_use : Bool

-- `brights_ramfs_stat_t`.
pub record Stat : Type 0 where
  pub path : List ℕ
  pub size : ℕ
  pub mode : ℕ
  pub uid : ℕ
  pub gid : ℕ
  pub is_dir : Bool
  pub is_symlink : Bool

abbrev pub Files : Type 0
Files = List File

-- What `brights_ramfs_init` makes of an entry: the storage keeps its bytes.
abbrev pub init_file : File → File
init_file f = record f {
  name = [];
  size = 0;
  capacity = storage_size;
  mode = 0;
  uid = 0;
  gid = 0;
  symlink_target = [];
  is_dir = false;
  is_symlink = false;
  in_use = false;
}

-- `brights_ramfs_init`.
unfoldable pub init : Files → Files
init [] = []
init (f ∷ files) = init_file f ∷ init files

-- An entry of zeroed static storage; also what a read outside the table is taken to give.
unfoldable pub blank : File
blank = init_file (record {
  name = [];
  bytes = replicate storage_size 0;
  size = 0;
  capacity = storage_size;
  mode = 0;
  uid = 0;
  gid = 0;
  symlink_target = [];
  is_dir = false;
  is_symlink = false;
  in_use = false;
})

abbrev pub file_at : Files → ℕ → File
file_at files i = get_or files i blank

-- `ramfs_find_free`, from entry i on.
unfoldable pub find_free : ℕ → Files → Option ℕ
find_free i [] = none
find_free i (f ∷ files) =
    let rest = find_free (i + 1) files in if not f.in_use then some i else rest

-- `ramfs_find_name`, from entry i on.
unfoldable pub find_name : ℕ → Files → List ℕ → Option ℕ
find_name i [] name = none
find_name i (f ∷ files) name =
    let rest = find_name (i + 1) files name in
    if not f.in_use then rest else if path_eq f.name name then some i else rest

-- `ramfs_parent_exists`.
unfoldable pub parent_exists : Files → List ℕ → Bool
parent_exists files path = elim (path_parent path max_name) [
  | none ↦ false
  | some parent ↦
      if path_eq parent root
      then true
      else elim (find_name 0 files parent) [ none ↦ false | some i ↦ (file_at files i).is_dir ]
]

-- Whether the loop of `ramfs_dir_has_children` finds a child in the entries.
unfoldable pub any_child : Files → List ℕ → ℕ → Bool
any_child [] path plen = false
any_child (f ∷ files) path plen =
    let rest = any_child files path plen in
    if not f.in_use
    then rest
    else if path_eq f.name path
    then rest
    else if path_eq path root
    then (if char_at f.name 0 == slash && not (ends_at f.name 1) then true else rest)
    else if not (strncmp_eq f.name path plen)
    then rest
    else if char_at f.name plen == slash
    then true
    else rest

-- `ramfs_dir_has_children`. The comparison of the first `plen` bytes is that of `strncmp_eq`, since
-- `plen` is the length of the path.
unfoldable pub dir_has_children : Files → List ℕ → Bool
dir_has_children files path = elim (path_len_limited path (max_name - 1) 0) [
  | none ↦ false
  | some plen ↦ any_child files path plen
]

-- `ramfs_init_file_perms`.
abbrev pub init_file_perms : File → Bool → File
init_file_perms f is_dir = record f {
  mode = if is_dir then 0x41ed else 0x81a4;
  uid = 0;
  gid = 0;
  is_symlink = false;
  symlink_target = [];
}
