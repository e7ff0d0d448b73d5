-- ===== src/Fs/Ramfs/Access.antt =====
-- kernel/fs/ramfs.c: the operations that take a file descriptor, an index of the table.
use bright_s.Base.{
  ℕ, ◌+◌, ◌-◌, ◌*◌, ◌%◌, ◌^◌, List, [], ◌∷◌, Option, none, some, Bool, false, ◌||◌, not, leb, ltb,
  if◌then◌else◌, take, drop, set,
}
use bright_s.Base.Int.{ℤ, pos, negsuc}
use bright_s.Fs.Ramfs.{File, Files, max_files, storage_size, file_at}

-- `fd < 0 || fd >= BRIGHTS_RAMFS_MAX_FILES`, then the tests on the entry.
abbrev pub valid_fd : ℤ → Option ℕ
valid_fd (negsuc n) = none
valid_fd (pos i) = if leb max_files i then none else some i

-- What an open regular file descriptor names: `!f->in_use || f->is_dir` is refused.
abbrev pub file_of_fd : Files → ℤ → Option ℕ
file_of_fd files fd = elim (valid_fd fd) [
  | none ↦ none
  | some i ↦ if not (file_at files i).in_use || (file_at files i).is_dir then none else some i
]

-- `brights_ramfs_read`: the bytes that it stores, whose number it returns.
unfoldable pub read : Files → ℤ → ℕ → ℕ → Option (List ℕ)
read files fd off len = elim (file_of_fd files fd) [
  | none ↦ none
  | some i ↦
      let f = file_at files i in
      if leb f.size off
      then some []
      else let to_read = f.size - off in
        some (take (if ltb len to_read then len else to_read) (drop off f.bytes))
]

-- `dst[i] = src[i]` for each byte, from an index on, where all of them are inside the storage.
unfoldable pub copy_bytes : List ℕ → ℕ → List ℕ → List ℕ
copy_bytes storage i [] = storage
copy_bytes storage i (b ∷ src) = copy_bytes (set storage i b) (i + 1) src

-- The number of bytes that `brights_ramfs_write` writes; `uint64_t` sums wrap.
abbrev pub write_count : File → ℕ → ℕ → ℕ
write_count f off len = if ltb f.capacity ((off + len) % 2 ^ 64) then f.capacity - off else len

-- What `brights_ramfs_write` makes of the entry when the bytes fit its storage.
abbrev pub written : File → ℕ → List ℕ → ℕ → File
written f off buf n = record f {
  bytes = copy_bytes f.bytes off (take n buf);
  size = if ltb f.size ((off + n) % 2 ^ 64) then (off + n) % 2 ^ 64 else f.size;
}

-- What a copy to an entry's storage that runs behind its end does to the table, by the entry, the
-- offset and the bytes.
abbrev pub Overrun : Type 0
Overrun = ℕ → ℕ → List ℕ → Files → Files

-- `brights_ramfs_write`: the word of the `int64_t` that it returns, the number of bytes, which
-- `(int64_t)to_write` reads as negative from 2^63 on, with `none` for the -1 of a refusal; and the
-- table. A sum of offset and length past 2^64 passes the clamp and makes the copy run behind the
-- storage, with an effect that is the parameter `overrun`.
unfoldable pub write : Overrun → Files → ℤ → ℕ → List ℕ → ℕ → Option ℕ × Files
write overrun files fd off buf len = elim (file_of_fd files fd) [
  | none ↦ (none, files)
  | some i ↦
      let f = file_at files i in
      if leb f.capacity off
      then (none, files)
      else let n = write_count f off len in
        (
          some n,
          if leb (off + n) storage_size
              then set files i (written f off buf n)
              else overrun i off (take n buf) files,
        )
]

-- `brights_ramfs_file_size`.
unfoldable pub file_size : Files → ℤ → ℕ
file_size files fd = elim (valid_fd fd) [
  | none ↦ 0
  | some i ↦ if not (file_at files i).in_use then 0 else (file_at files i).size
]

-- `brights_ramfs_is_dir_fd`.
unfoldable pub is_dir_fd : Files → ℤ → Bool
is_dir_fd files fd = elim (valid_fd fd) [
  | none ↦ false
  | some i ↦ if not (file_at files i).in_use then false else (file_at files i).is_dir
]

-- `brights_ramfs_total_capacity`.
unfoldable pub total_capacity : ℕ
total_capacity = max_files * storage_size

-- `brights_ramfs_count`.
unfoldable pub count : Files → ℕ
count [] = 0
count (f ∷ files) = if f.in_use then count files + 1 else count files

-- `brights_ramfs_name_at`.
unfoldable pub name_at : Files → ℤ → Option (List ℕ)
name_at files fd = elim (valid_fd fd) [
  | none ↦ none
  | some i ↦ if not (file_at files i).in_use then none else some (file_at files i).name
]

-- `brights_ramfs_close`.
unfoldable pub close : ℤ → ℕ
close fd = 0

-- `brights_ramfs_size_at`, which looks at an index as `file_size` does.
unfoldable pub size_at : Files → ℤ → ℕ
size_at files idx = elim (valid_fd idx) [
  | none ↦ 0
  | some i ↦ if not (file_at files i).in_use then 0 else (file_at files i).size
]
