-- ===== src/Fs/Vfs/Search.antt =====
-- kernel/fs/vfs2.c: what the searches of the table of mounts find.
use bright_s.Base.{
  ℕ, zero, suc, ◌+◌, ◌<◌, ◌≡◌, ◌≢◌, ◌⊎◌, inl, inr, sym, ap, ◌∙◌, List, [], ◌∷◌, none, some, true,
  false, length, get_or, arith, Bool-cases, ◌&&◌,
}
use bright_s.Word.{has_bit}
use bright_s.Fs.Text.{path_eq, path_eq_iff}
use bright_s.Fs.Vfs.{Mount, no_mount, find_mounted, find_unmounted}

-- The search of the mounts in use finds one with the prefix.
pub find_mounted_lem :
    (k bitmap : ℕ) (ms : List Mount) (prefix : List ℕ) (i : ℕ)
    → find_mounted k bitmap ms prefix ≡ some i
    → (j : ℕ) × (i ≡ k + j)
      × (j < length ms)
      × (has_bit bitmap i ≡ true)
      × ((get_or ms j no_mount).prefix ≡ prefix)
unfolding find_mounted
find_mounted_lem k bitmap [] prefix i e = absurd (ground arith)
find_mounted_lem k bitmap (m ∷ ms) prefix i e =
    pick (Bool-cases (has_bit bitmap k && path_eq m.prefix prefix))
      (find_mounted_lem (k + 1) bitmap ms prefix i)
  where
    pick :
        ((has_bit bitmap k && path_eq m.prefix prefix) ≡ true)
          ⊎ ((has_bit bitmap k && path_eq m.prefix prefix) ≡ false)
        → (find_mounted (k + 1) bitmap ms prefix ≡ some i
            → (j : ℕ) × (i ≡ k + 1 + j)
              × (j < length ms)
              × (has_bit bitmap i ≡ true)
              × ((get_or ms j no_mount).prefix ≡ prefix))
        → (j : ℕ) × (i ≡ k + j)
          × (j < length (m ∷ ms))
          × (has_bit bitmap i ≡ true)
          × ((get_or (m ∷ ms) j no_mount).prefix ≡ prefix)
    pick (inl here) ih =
        let k_is : k ≡ i = ground arith in
        let bit_k : has_bit bitmap k ≡ true = ground arith in
        (
          0,
          omega arith,
          omega arith,
          rw (← k_is) bit_k,
          (path_eq_iff m.prefix prefix).0 (ground arith),
        )
    pick (inr elsewhere) ih =
        let (j, at, inside, used, named) = ih (ground arith) in
        (suc j, omega arith, omega arith, used, named)

pub find_mounted-none :
    (k bitmap : ℕ) (ms : List Mount) (prefix : List ℕ) (j : ℕ)
    → find_mounted k bitmap ms prefix ≡ none
    → j < length ms
    → has_bit bitmap (k + j) ≡ true
    → (get_or ms j no_mount).prefix ≢ prefix
unfolding find_mounted
find_mounted-none k bitmap [] prefix j e h used same = absurd (omega arith)
find_mounted-none k bitmap (m ∷ ms) prefix zero e h used same =
    let here : k + 0 ≡ k = omega arith in
    let used_k : has_bit bitmap k ≡ true = ap (has_bit bitmap) (sym here) ∙ used in
    let eq : path_eq m.prefix prefix ≡ true = (path_eq_iff m.prefix prefix).1 same in
    absurd (none_some (rw (used_k, eq) at e))
  where
    none_some : {n : ℕ} → some n ≢ none
    none_some q = ground arith
find_mounted-none k bitmap (m ∷ ms) prefix (suc j) e h used same =
    let there : k + suc j ≡ k + 1 + j = omega arith in
    find_mounted-none (k + 1) bitmap ms prefix j (ground arith) (omega arith)
      (ap (has_bit bitmap) (sym there) ∙ used) same

pub find_unmounted_lem :
    (k bitmap : ℕ) (ms : List Mount) (i : ℕ)
    → find_unmounted k bitmap ms ≡ some i
    → (j : ℕ) × (i ≡ k + j) × (j < length ms) × (has_bit bitmap i ≡ false)
unfolding find_unmounted
find_unmounted_lem k bitmap [] i e = absurd (ground arith)
find_unmounted_lem k bitmap (m ∷ ms) i e =
    pick (Bool-cases (has_bit bitmap k)) (find_unmounted_lem (k + 1) bitmap ms i)
  where
    pick :
        (has_bit bitmap k ≡ true) ⊎ (has_bit bitmap k ≡ false)
        → (find_unmounted (k + 1) bitmap ms ≡ some i
            → (j : ℕ) × (i ≡ k + 1 + j) × (j < length ms) × (has_bit bitmap i ≡ false))
        → (j : ℕ) × (i ≡ k + j) × (j < length (m ∷ ms)) × (has_bit bitmap i ≡ false)
    pick (inr free) ih =
        let k_is : k ≡ i = ground arith in (0, omega arith, omega arith, rw (← k_is) free)
    pick (inl used) ih =
        let (j, at, inside, free) = ih (ground arith) in (suc j, omega arith, omega arith, free)
