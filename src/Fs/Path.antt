-- ===== src/Fs/Path.antt =====
-- `normalize_path` and `path_parent` of kernel/fs/ramfs.c, and `vfs_normalize` of
-- kernel/fs/vfs2.c, which runs the same loops over smaller segments. The arrays `segs` and `out`
-- are the lists of what was written to them.
pub mod Describe
pub mod Scan
pub mod Spec
pub mod Canonical
pub mod Parent
mod Tests
use bright_s.Base.{
  ℕ, zero, suc, ◌+◌, ◌-◌, List, [], ◌∷◌, ◌++◌, Option, none, some, Bool, true, false, ◌==◌, ◌||◌,
  leb, ltb, if◌then◌else◌, length, take, ◌&&◌, not,
}
use bright_s.Fs.Text.{slash, root, char_at, ends_at}

-- The segments "." and "..".
abbrev pub dot : List ℕ
dot = 0x2e ∷ []

abbrev pub dotdot : List ℕ
dotdot = 0x2e ∷ 0x2e ∷ []

-- `while (path[i] == '/') ++i;`
unfoldable pub skip_slashes : List ℕ → List ℕ
skip_slashes [] = []
skip_slashes (c ∷ path) = if c == slash then skip_slashes path else c ∷ path

-- The inner loop that copies a segment of at most `max_name - 1` bytes: the segment and what
-- is left of the path.
unfoldable pub read_segment : ℕ → ℕ → List ℕ → Option (List ℕ × List ℕ)
read_segment max_name slen [] = some ([], [])
read_segment max_name slen (c ∷ path) =
    let rest = read_segment max_name (slen + 1) path in
    if c == slash
    then some ([], c ∷ path)
    else if leb (max_name - 1) slen
    then none
    else elim rest [ none ↦ none | some (seg, left) ↦ some (c ∷ seg, left) ]

-- `if (seg_count > 0) --seg_count;`
unfoldable pub drop_last : List (List ℕ) → List (List ℕ)
drop_last [] = []
drop_last (s ∷ []) = []
drop_last (s ∷ t ∷ segs) = s ∷ drop_last (t ∷ segs)

-- What the outer loop does with a segment that it has read.
unfoldable pub add_segment : List ℕ → List (List ℕ) → Option (List (List ℕ))
add_segment seg segs =
    if length seg == 1 && char_at seg 0 == 0x2e
    then some segs
    else if length seg == 2 && char_at seg 0 == 0x2e && char_at seg 1 == 0x2e
    then some (drop_last segs)
    else if leb 16 (length segs)
    then none
    else some (segs ++ (seg ∷ []))

-- The outer loop, with fuel for its rounds. `Scan.scan-eq-resolve` shows that one more than the
-- length of the path is enough, so `none` is the result -1.
unfoldable pub scan : ℕ → ℕ → List ℕ → List (List ℕ) → Option (List (List ℕ))
scan zero max_name path segs = none
scan (suc fuel) max_name path segs = elim (skip_slashes path) [
  | [] ↦ some segs
  | c ∷ rest ↦ elim (read_segment max_name 0 (c ∷ rest)) [
    | none ↦ none
    | some (seg, left) ↦ elim (add_segment seg segs) [
      | none ↦ none
      | some more ↦ scan fuel max_name left more
    ]
  ]
]

-- `if (p >= cap - 1) return -1; out[p++] = c;` for each byte of a text; p is the length of `out`.
unfoldable pub put : ℕ → List ℕ → List ℕ → Option (List ℕ)
put cap out [] = some out
put cap out (c ∷ text) =
    let rest = put cap (out ++ (c ∷ [])) text in if leb (cap - 1) (length out) then none else rest

-- The loop that writes the segments, with a slash after each but the last.
unfoldable pub put_segments : ℕ → List ℕ → List (List ℕ) → Option (List ℕ)
put_segments cap out [] = some out
put_segments cap out (s ∷ []) = put cap out s
put_segments cap out (s ∷ t ∷ segs) = elim (put cap out s) [
  | none ↦ none
  | some more ↦ elim (put cap more root) [
    | none ↦ none
    | some next ↦ put_segments cap next (t ∷ segs)
  ]
]

-- `normalize_path`, with `BRIGHTS_RAMFS_MAX_NAME` as `max_name`.
unfoldable pub normalize_path : ℕ → ℕ → List ℕ → Option (List ℕ)
normalize_path max_name cap path =
    if ltb cap 2 then none else elim (scan (suc (length path)) max_name path []) [
      | none ↦ none
      | some [] ↦ some root
      | some (s ∷ segs) ↦ put_segments cap root (s ∷ segs)
    ]

-- `vfs_normalize` of kernel/fs/vfs2.c: the same loops over segments of at most 63 bytes.
unfoldable pub vfs_normalize : ℕ → List ℕ → Option (List ℕ)
vfs_normalize cap path = elim (scan (suc (length path)) 64 path []) [
  | none ↦ none
  | some segs ↦ put_segments cap root segs
]

-- The search of `path_parent` for the last slash: `last`, or `none` for -1.
unfoldable pub last_slash : ℕ → List ℕ → Option ℕ → Option ℕ
last_slash i [] last = last
last_slash i (c ∷ path) last = last_slash (i + 1) path (if c == slash then some i else last)

-- `path_parent`.
unfoldable pub path_parent : List ℕ → ℕ → Option (List ℕ)
path_parent path cap =
    if ltb cap 2
    then none
    else if not (char_at path 0 == slash) || ends_at path 1
    then some root
    else elim (last_slash 0 path none) [
      | none ↦ some root
      | some last ↦
          if last == 0 then some root else if leb cap last then none else some (take last path)
    ]
