-- ===== src/Fs/Path/Tests.antt =====
-- Paths of kernel/fs/ramfs.c and kernel/fs/vfs2.c at concrete inputs.
use bright_s.Base.{ℕ, ◌≡◌, ◌<◌, refl, List, [], ◌∷◌, some, none, arith, length}
use bright_s.Fs.Text.{root}
use bright_s.Fs.Path.{
  skip_slashes, read_segment, drop_last, add_segment, scan, put, put_segments, normalize_path,
}
use bright_s.Fs.Path.Spec.{normalize_path-eq-resolve}
use bright_s.Fs.Path.Describe.{resolve, split, fit, join}
use bright_s.Fs.Path.Canonical.{normalize_path_canonical, AreNames}

-- "/a/../b/./c//"
abbrev winding : List ℕ
winding =
    0x2f ∷ 0x61 ∷ 0x2f ∷ 0x2e ∷ 0x2e ∷ 0x2f ∷ 0x62 ∷ 0x2f ∷ 0x2e ∷ 0x2f ∷ 0x63 ∷ 0x2f ∷ 0x2f ∷ []

-- "/b/c"
abbrev straight : List ℕ
straight = 0x2f ∷ 0x62 ∷ 0x2f ∷ 0x63 ∷ []

normalize_winding : normalize_path 128 128 winding ≡ some straight
unfolding normalize_path scan skip_slashes read_segment add_segment drop_last put put_segments
normalize_winding = refl

-- "../.." stays at the root.
normalize_above_root : normalize_path 128 128 (0x2e ∷ 0x2e ∷ 0x2f ∷ 0x2e ∷ 0x2e ∷ []) ≡ some root
unfolding normalize_path scan skip_slashes read_segment add_segment drop_last put put_segments
normalize_above_root = refl

-- A segment of three bytes where two fit.
normalize_too_long : normalize_path 3 128 (0x61 ∷ 0x61 ∷ 0x61 ∷ []) ≡ none
unfolding normalize_path scan skip_slashes read_segment add_segment drop_last put put_segments
normalize_too_long = refl

normalize_path-eq-resolve_example :
    normalize_path 128 128 winding
    ≡ (elim (resolve 128 (split winding) []) [ none ↦ none | some segs ↦ fit 128 (join segs) ])
normalize_path-eq-resolve_example =
    normalize_path-eq-resolve 128 128 winding (omega arith) (omega arith)

normalize_path_canonical_example :
    (segs : List (List ℕ)) × (straight ≡ join segs)
    × AreNames 128 segs
    × (length straight < 128)
    × (normalize_path 128 128 straight ≡ some straight)
normalize_path_canonical_example =
    normalize_path_canonical 128 128 winding (omega arith) (omega arith) normalize_winding

abbrev parent : List ℕ
parent = 0x2f ∷ 0x62 ∷ []
