-- ===== src/Fs/Ramfs/Tests.antt =====
-- A file system of kernel/fs/ramfs.c at concrete inputs.
use mathlib.Core.List.{Memᴰ}
use bright_s.Base.{
  ◌≤◌, ℕ, ◌^◌, ◌≡◌, ◌<◌, ◌+◌, ◌-◌, ◌++◌, ◌≢◌, ◌↔◌, ◌⊎◌, refl, ap, List, [], ◌∷◌, some, none, arith,
  length, true, false, replicate, length-replicate, get_or-replicate, take, drop, min, max,
}
use bright_s.Base.Int.{pos}
use bright_s.Fs.Text.{slash, path_eq, path_len_limited, strncmp_eq}
use bright_s.Fs.Path.{
  skip_slashes, read_segment, drop_last, add_segment, scan, put, put_segments, normalize_path,
  path_parent, last_slash,
}
use bright_s.Fs.Ramfs.{
  Files, init, blank, file_at, find_name, find_free, parent_exists, dir_has_children, any_child,
  max_files, storage_size, max_name,
}
use bright_s.Fs.Ramfs.Names.{add_file, mkdir, create, unlink, open_file, fill_regular}
use bright_s.Fs.Ramfs.Access.{Overrun, read, write, file_of_fd}
use bright_s.Fs.Ramfs.Edit.{Names}
use bright_s.Fs.Ramfs.Adding.{Made, Reason, add_file-Made}
use bright_s.Fs.Ramfs.Data.{IsStored, read-write}
use bright_s.Fs.Ramfs.Limits.{length-read, write_wraps, read_gap}
use bright_s.Fs.Ramfs.Listing.{get_dir_entries_lem, get_dir_entries, Lists}
use bright_s.Fs.Ramfs.Sound.{Sound}
use bright_s.Fs.Ramfs.History.{Call, mkdirs, creates, writes, step, run, run-Sound}
use bright_s.Fs.Ramfs.View.{node, view, Updated}
use bright_s.Fs.Ramfs.Refine.{Makes, new_node, create_refines, unlink_refines, write_refines}

-- A copy that runs behind an entry's storage spoils the whole table.
abbrev spoilt : Overrun
spoilt i off src files = []

-- The zeroed table.
unfoldable zeroed : Files
zeroed = replicate max_files blank

full : length zeroed ≡ max_files
unfolding zeroed
full = length-replicate max_files blank

whole : (i : ℕ) → i < length zeroed → length (file_at zeroed i).bytes ≡ storage_size
unfolding zeroed blank
whole i h = rw (get_or-replicate max_files i blank) (length-replicate {A = ℕ} storage_size 0)

-- "/a", "/a/b" and "/ab".
abbrev name_a : List ℕ
name_a = 0x2f ∷ 0x61 ∷ []

abbrev name_b : List ℕ
name_b = 0x2f ∷ 0x61 ∷ 0x2f ∷ 0x62 ∷ []

abbrev name_ab : List ℕ
name_ab = 0x2f ∷ 0x61 ∷ 0x62 ∷ []

abbrev data_bytes : List ℕ
data_bytes = 7 ∷ 8 ∷ 9 ∷ []

abbrev history : List Call
history = mkdirs name_a ∷ creates name_b ∷ writes (pos 1) 0 data_bytes 3 ∷ []

unfoldable used : Files
used = run spoilt (init zeroed) history

run-Sound_example : Sound (run spoilt (init zeroed) history)
run-Sound_example =
    run-Sound spoilt zeroed history full whole (tt, (tt, ((omega arith, omega arith), tt)))

used-Sound : Sound used
unfolding used
used-Sound = run-Sound spoilt zeroed history full whole (tt, (tt, ((omega arith, omega arith), tt)))

open_b : open_file used name_b ≡ some 1
unfolding open_file used zeroed run step init blank mkdir create add_file write find_name find_free
    parent_exists path_eq path_len_limited normalize_path scan skip_slashes read_segment add_segment
    drop_last put put_segments path_parent last_slash
open_b = refl

-- The directory "/a" with "/a/b" in it cannot be removed.
unlink_busy : (unlink used name_a).0 ≡ false
unfolding unlink used zeroed run step init blank mkdir create add_file write find_name find_free
    parent_exists path_eq path_len_limited normalize_path scan skip_slashes read_segment add_segment
    drop_last put put_segments path_parent last_slash dir_has_children any_child strncmp_eq
unlink_busy = refl

-- Neither can anything be made under a file.
create_under_file : (create used (name_b ++ (slash ∷ 0x63 ∷ []))).0 ≡ none
unfolding used zeroed run step init blank mkdir create add_file write find_name find_free
    parent_exists path_eq path_len_limited normalize_path scan skip_slashes read_segment add_segment
    drop_last put put_segments path_parent last_slash
create_under_file = refl

add_file-Made_example :
    Made fill_regular used name_ab (add_file fill_regular used name_ab)
    ⊎ (Reason used name_ab × (add_file fill_regular used name_ab ≡ (none, used)))
add_file-Made_example = add_file-Made fill_regular used name_ab used-Sound.tree.distinct

create_ab : (create used name_ab).0 ≡ some 2
unfolding used zeroed run step init blank mkdir create add_file write find_name find_free
    parent_exists path_eq path_len_limited normalize_path scan skip_slashes read_segment add_segment
    drop_last put put_segments path_parent last_slash
create_ab = refl

create_refines_example : Makes used name_ab (new_node 0x81a4 false) 2 (create used name_ab).1
create_refines_example =
    create_refines used name_ab 2 (create used name_ab).1 used-Sound
      (ap (λ r. (r, (create used name_ab).1)) create_ab)

mkdir_ab : (mkdir used name_ab).0 ≡ some 2
unfolding used zeroed run step init blank mkdir create add_file write find_name find_free
    parent_exists path_eq path_len_limited normalize_path scan skip_slashes read_segment add_segment
    drop_last put put_segments path_parent last_slash
mkdir_ab = refl

unlink_b : (unlink used name_b).0 ≡ true
unfolding unlink used zeroed run step init blank mkdir create add_file write find_name find_free
    parent_exists path_eq path_len_limited normalize_path scan skip_slashes read_segment add_segment
    drop_last put put_segments path_parent last_slash
unlink_b = refl

unlink_refines_example :
    (p : List ℕ) × Names name_b p
    × (view used p ≢ none)
    × Updated used (unlink used name_b).1 p none
    × (open_file (unlink used name_b).1 name_b ≡ none)
unlink_refines_example = unlink_refines used name_b used-Sound unlink_b

fd_b : file_of_fd used (pos 1) ≡ some 1
unfolding used zeroed run step init blank mkdir create add_file write find_name find_free
    parent_exists path_eq path_len_limited normalize_path scan skip_slashes read_segment add_segment
    drop_last put put_segments path_parent last_slash
fd_b = refl

size_b : (file_at used 1).size ≡ 3
unfolding used zeroed run step init blank mkdir create add_file write find_name find_free
    parent_exists path_eq path_len_limited normalize_path scan skip_slashes read_segment add_segment
    drop_last put put_segments path_parent last_slash
size_b = refl

used_full : length used ≡ max_files
used_full = used-Sound.tree.full

b-IsStored : IsStored (file_at used 1)
b-IsStored = used-Sound.stored 1 (omega (arith, used_full))

write_refines_example :
    Updated used (write spoilt used (pos 1) 3 data_bytes 3).1 (file_at used 1).name (
      some (record (node (file_at used 1)) {
        content =
            take 3 (node (file_at used 1)).content
            ++ (take (min 3 (storage_size - 3)) data_bytes
                ++ drop (3 + min 3 (storage_size - 3)) (node (file_at used 1)).content);
      }))
write_refines_example =
    write_refines spoilt used (pos 1) 1 3 3 data_bytes used-Sound fd_b (omega arith)
      (omega (arith, size_b)) (omega arith) (omega arith)

read-write_example :
    let files' = (write spoilt used (pos 1) 1 data_bytes 3).1 in
    let n = min 3 (storage_size - 1) in
    let f = file_at used 1 in
    let g = file_at files' 1 in
    ((write spoilt used (pos 1) 1 data_bytes 3).0 ≡ some n)
    × (read files' (pos 1) 1 n ≡ some (take n data_bytes))
    × (g.bytes ≡ take 1 f.bytes ++ (take n data_bytes ++ drop (1 + n) f.bytes))
    × (g.size ≡ max f.size (1 + n))
    × IsStored g
    × ((g.in_use ≡ f.in_use) × (g.is_dir ≡ f.is_dir) × (g.name ≡ f.name))
    × ((j : ℕ) → 1 ≢ j → file_at files' j ≡ file_at used j)
read-write_example =
    read-write spoilt used (pos 1) 1 1 3 data_bytes used_full fd_b b-IsStored (omega arith)
      (omega arith) (omega arith)

length-read_example :
    (out : List ℕ) × (read used (pos 1) 1 9 ≡ some out)
    × (length out ≡ min 9 ((file_at used 1).size - 1))
length-read_example = length-read used (pos 1) 1 1 9 fd_b b-IsStored

write_wraps_example :
    (write spoilt used (pos 1) 1 data_bytes 0xffffffffffffffff ≡ (some 0xffffffffffffffff, []))
    × (2 ^ 63 ≤ 0xffffffffffffffff)
write_wraps_example =
    write_wraps spoilt used (pos 1) 1 1 0xffffffffffffffff data_bytes fd_b b-IsStored (omega arith)
      (omega arith) (omega arith)

read_gap_example :
    read
      (write spoilt used (pos 1) 9 data_bytes 3).1
      (pos 1)
      (file_at used 1).size
      (9 - (file_at used 1).size)
    ≡ some (take (9 - (file_at used 1).size) (drop (file_at used 1).size (file_at used 1).bytes))
read_gap_example =
    read_gap spoilt used (pos 1) 1 9 3 data_bytes used_full fd_b b-IsStored (omega arith)
      (omega arith) (omega arith) (omega (arith, size_b))

normal_a : normalize_path max_name max_name name_a ≡ some name_a
unfolding normalize_path scan skip_slashes read_segment add_segment drop_last put put_segments
normal_a = refl

get_dir_entries_lem_example :
    (out : List (List ℕ)) × (get_dir_entries used name_a 32 ≡ some out)
    × ((n : List ℕ) → Memᴰ n out ↔ ((i : ℕ) × (i < length used) × Lists (file_at used i) name_a n))
get_dir_entries_lem_example =
    get_dir_entries_lem used name_a name_a 32 normal_a (omega (arith, used_full))
