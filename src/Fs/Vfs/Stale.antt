-- ===== src/Fs/Vfs/Stale.antt =====
-- kernel/fs/vfs2.c: the cache of resolved paths outlives the mounts.
use bright_s.Base.{
  ℕ, zero, suc, ◌<◌, ◌≡◌, ◌≢◌, refl, sym, ap, ◌∙◌, List, [], ◌∷◌, Option, none, some, true, false,
  if◌then◌else◌, length, take, take_all, set, get_or-set_self, arith, Bool-cases, Option-cases, inl,
  inr, ◌⊎◌,
}
use bright_s.Word.{clear_bit}
use bright_s.Fs.Text.{path_eq, path_eq_refl}
use bright_s.Fs.Path.{vfs_normalize}
use bright_s.Fs.Vfs.{
  Cached, Vfs, no_mount, mount_at, find_mounted, umount, find_cached, find_best, no_best, resolve,
}
use bright_s.Fs.Vfs.Search.{find_mounted_lem}

-- What is put into the cache is found there.
find_cached-set :
    (cs : List Cached) (k : ℕ) (path : List ℕ) (i : ℕ) (rel : List ℕ)
    → k < length cs
    → find_cached cs path ≡ none
    → find_cached (set cs k (record { path = path; mount = some i; rel_path = rel })) path
      ≡ some (i, rel)
unfolding find_cached
find_cached-set [] k path i rel h miss = absurd (omega arith)
find_cached-set (c ∷ cs) zero path i rel h miss = rw (path_eq_refl path) refl
find_cached-set (c ∷ cs) (suc k) path i rel h miss =
    pick (Option-cases c.mount) (find_cached-set cs k path i rel (omega arith))
  where
    rest : Option (ℕ × List ℕ)
    rest = find_cached (set cs k (record { path = path; mount = some i; rel_path = rel })) path

    pick :
        (c.mount ≡ none) ⊎ ((m : ℕ) × (c.mount ≡ some m))
        → (find_cached cs path ≡ none → rest ≡ some (i, rel))
        → (elim c.mount [
          | none ↦ rest
          | some m ↦ if path_eq c.path path then some (m, c.rel_path) else rest
        ])
          ≡ some (i, rel)
    pick (inl empty) ih = rw empty (ih (rw empty at miss))
    pick (inr (m, taken)) ih = elim (Bool-cases (path_eq c.path path)) [
      | inl hit ↦ absurd (none_some (rw (taken, hit) at miss))
      | inr other ↦ rw (taken, other) (ih (rw (taken, other) at miss))
    ]
      where
        none_some : {p : ℕ × List ℕ} → some p ≢ none
        none_some e = ground arith

abbrev cached : Vfs → List ℕ → ℕ → List ℕ → List Cached
cached s path i rel =
    set s.path_cache s.path_cache_next
      (record { path = take 127 path; mount = some i; rel_path = take 127 rel })

-- A resolution that was not in the cache is put there.
resolve_caches :
    (s : Vfs) (path norm : List ℕ) (i : ℕ) (rel : List ℕ)
    → vfs_normalize 256 path ≡ some norm
    → find_cached s.path_cache path ≡ none
    → (resolve s path).0 ≡ some (i, rel)
    → (resolve s path).1.path_cache ≡ cached s path i rel
unfolding resolve
resolve_caches s path norm i rel e miss found =
    elim (Option-cases (find_best norm 0 s.mounts no_best).at) [
      | inl nothing ↦
          absurd (none_some (sym (rw (e, resolve) (rw (miss, resolve) (rw nothing refl))) ∙ found))
      | inr (j, at_j) ↦
          let b = find_best norm 0 s.mounts no_best in
          let out : (resolve s path).0 ≡ some (j, b.rel_path) =
            rw (e, resolve) (rw (miss, resolve) (rw at_j refl)) in
          let same = some_inj (j, b.rel_path) (i, rel) (sym out ∙ found) in
          let put : (resolve s path).1.path_cache ≡ cached s path j b.rel_path =
            rw (e, resolve) (rw (miss, resolve) (rw at_j refl)) in
          put ∙ ap (λ p. cached s path p.0 p.1) same
    ]
  where
    none_some : {p : ℕ × List ℕ} → none ≢ some p
    none_some q = ground arith

    some_inj : (a b : ℕ × List ℕ) → some a ≡ some b → a ≡ b
    some_inj a b q = cc

resolve_hit :
    (s : Vfs) (path norm : List ℕ) (hit : ℕ × List ℕ)
    → vfs_normalize 256 path ≡ some norm
    → find_cached s.path_cache path ≡ some hit
    → (resolve s path).0 ≡ some hit
unfolding resolve
resolve_hit s path norm hit e found = rw (e, resolve) (rw (found, resolve) refl)

-- When a path of less than 128 bytes was not in the cache and brights_vfs2_resolve has found a
-- mount for it, with the index of the next cache entry in range, then unmounting this mount by
-- its prefix succeeds and makes it inactive, and resolving the path again still gives it, with
-- the relative path cut to 127 bytes.
pub resolve-umount :
    (s : Vfs) (path norm prefix : List ℕ) (i : ℕ) (rel : List ℕ)
    → vfs_normalize 256 path ≡ some norm
    → find_cached s.path_cache path ≡ none
    → length path < 128
    → s.path_cache_next < length s.path_cache
    → (resolve s path).0 ≡ some (i, rel)
    → let t = (resolve s path).1 in
      find_mounted 0 t.mount_bitmap t.mounts prefix ≡ some i
      → let u = (umount t prefix).1 in
        ((umount t prefix).0 ≡ true)
        × ((mount_at u i).active ≡ false)
        × ((resolve u path).0 ≡ some (i, take 127 rel))
unfolding umount
resolve-umount s path norm prefix i rel e miss short room found mounted =
    let t = (resolve s path).1 in
    let (j, at, inside, used, named) =
      find_mounted_lem 0 t.mount_bitmap t.mounts prefix i mounted in
    let whole : take 127 path ≡ path = take_all 127 path (omega arith) in
    let u = record t {
      mounts = set t.mounts i (record (mount_at t i) { active = false });
      mount_bitmap = clear_bit 8 t.mount_bitmap i;
    } in
    let kept : find_cached u.path_cache path ≡ some (i, take 127 rel) =
      ap (λ cs. find_cached cs path)
        (resolve_caches s path norm i rel e miss found
          ∙ ap
              (λ p.
                set s.path_cache s.path_cache_next
                  (record { path = p; mount = some i; rel_path = take 127 rel }))
              whole)
      ∙ find_cached-set s.path_cache s.path_cache_next path i (take 127 rel) room miss in
    let done : umount t prefix ≡ (true, u) = rw (mounted, umount) refl in
    (
      ap (λ r. r.0) done,
      ap (λ r. (mount_at r.1 i).active) done
          ∙ ap (λ m. m.active) (get_or-set_self t.mounts i _ no_mount (omega (arith, at))),
      ap (λ r. (resolve r.1 path).0) done ∙ resolve_hit u path norm (i, take 127 rel) e kept,
    )
