-- ===== src/Fs/Ramfs/Names.antt =====
-- kernel/fs/ramfs.c: the operations that take a path.
use bright_s.Base.{
  ℕ, ◌-◌, List, [], Option, none, some, Bool, true, false, ◌==◌, ◌&&◌, not, if◌then◌else◌, take,
  set, bit_and, bit_or,
}
use bright_s.Fs.Text.{root, path_eq, path_len_limited}
use bright_s.Fs.Path.{normalize_path}
use bright_s.Fs.Ramfs.{
  File, Files, Stat, max_name, max_symlink_target, file_at, find_free, find_name, parent_exists,
  dir_has_children, init_file_perms,
}

-- The lines that `brights_ramfs_mkdir`, `brights_ramfs_create` and `brights_ramfs_symlink` share:
-- the checks, the search for a free entry, and the copy of the name into it; `fill` is what each
-- then does with the entry.
unfoldable pub add_file : (File → File) → Files → List ℕ → Option ℕ × Files
add_file fill files name = elim (normalize_path max_name max_name name) [
  | none ↦ (none, files)
  | some path ↦
      if path_eq path root
      then (none, files)
      else if not (parent_exists files path)
      then (none, files)
      else elim (find_name 0 files path) [
        | some old ↦ (none, files)
        | none ↦ elim (find_free 0 files) [
          | none ↦ (none, files)
          | some i ↦ elim (path_len_limited path (max_name - 1) 0) [
            | none ↦ (none, files)
            | some nlen ↦ if nlen == 0 then (none, files) else (
              some i,
              set files i (fill (record (file_at files i) { name = take nlen path })),
            )
          ]
        ]
      ]
]

abbrev pub fill_dir : File → File
fill_dir f = init_file_perms (record f { size = 0; is_dir = true; in_use = true }) true

abbrev pub fill_regular : File → File
fill_regular f = init_file_perms (record f { size = 0; is_dir = false; in_use = true }) false

-- The owner is not set here.
abbrev pub fill_symlink : List ℕ → File → File
fill_symlink target f = record f {
  symlink_target = take (max_symlink_target - 1) target;
  size = 0;
  is_dir = false;
  is_symlink = true;
  mode = 0xa1ff;
  in_use = true;
}

-- `brights_ramfs_mkdir`.
unfoldable pub mkdir : Files → List ℕ → Option ℕ × Files
mkdir = add_file fill_dir

-- `brights_ramfs_create`.
unfoldable pub create : Files → List ℕ → Option ℕ × Files
create = add_file fill_regular

-- `brights_ramfs_symlink`.
unfoldable pub symlink : Files → List ℕ → List ℕ → Option ℕ × Files
symlink files target linkpath = add_file (fill_symlink target) files linkpath

-- `brights_ramfs_open`.
unfoldable pub open_file : Files → List ℕ → Option ℕ
open_file files name = elim (normalize_path max_name max_name name) [
  | none ↦ none
  | some path ↦ if path_eq path root then none else find_name 0 files path
]

-- What `brights_ramfs_unlink` leaves of an entry.
abbrev pub unlinked : File → File
unlinked f = record f { in_use = false; is_dir = false; name = []; size = 0 }

-- `brights_ramfs_unlink`: whether it succeeds, and the table.
unfoldable pub unlink : Files → List ℕ → Bool × Files
unlink files name = elim (normalize_path max_name max_name name) [
  | none ↦ (false, files)
  | some path ↦ if path_eq path root then (false, files) else elim (find_name 0 files path) [
    | none ↦ (false, files)
    | some i ↦
        if (file_at files i).is_dir && dir_has_children files path
        then (false, files)
        else (true, set files i (unlinked (file_at files i)))
  ]
]

-- `brights_ramfs_stat`, with room for a result.
unfoldable pub stat : Files → List ℕ → Option Stat
stat files path_in = elim (normalize_path max_name max_name path_in) [
  | none ↦ none
  | some path ↦
      if path_eq path root
      then some (record {
        path = root;
        size = 0;
        mode = 0x41ed;
        uid = 0;
        gid = 0;
        is_dir = true;
        is_symlink = false;
      })
      else elim (find_name 0 files path) [
        | none ↦ none
        | some i ↦
            let f = file_at files i in
            some (record {
              path = f.name;
              size = f.size;
              mode = f.mode;
              uid = f.uid;
              gid = f.gid;
              is_dir = f.is_dir;
              is_symlink = f.is_symlink;
            })
      ]
]

-- `brights_ramfs_readlink` into a buffer of `bufsize` bytes: what it stores before the
-- terminating zero, whose number it returns.
unfoldable pub readlink : Files → List ℕ → ℕ → Option (List ℕ)
readlink files path_in bufsize =
    if bufsize == 0 then none else elim (normalize_path max_name max_name path_in) [
      | none ↦ none
      | some path ↦ elim (find_name 0 files path) [
        | none ↦ none
        | some i ↦
            if not (file_at files i).is_symlink
            then none
            else some (take (bufsize - 1) (file_at files i).symlink_target)
      ]
    ]

-- The lines that `brights_ramfs_chmod` and `brights_ramfs_chown` share: the entry to change.
unfoldable pub find_entry : Files → List ℕ → Option ℕ
find_entry files path_in = elim (normalize_path max_name max_name path_in) [
  | none ↦ none
  | some path ↦ if path_eq path root then none else find_name 0 files path
]

-- `brights_ramfs_chmod`.
unfoldable pub chmod : Files → List ℕ → ℕ → Bool × Files
chmod files path_in mode = elim (find_entry files path_in) [
  | none ↦ (false, files)
  | some i ↦
      let f = file_at files i in
      (true, set files i (record f { mode = bit_or (bit_and f.mode 0xf000) (bit_and mode 0x0fff) }))
]

-- `brights_ramfs_chown`.
unfoldable pub chown : Files → List ℕ → ℕ → ℕ → Bool × Files
chown files path_in uid gid = elim (find_entry files path_in) [
  | none ↦ (false, files)
  | some i ↦ (true, set files i (record (file_at files i) { uid = uid; gid = gid }))
]
