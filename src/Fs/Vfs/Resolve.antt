-- ===== src/Fs/Vfs/Resolve.antt =====
-- kernel/fs/vfs2.c: a path that is not in the cache goes to the mount with the longest prefix.
use bright_s.Base.{
  ℕ, zero, suc, ◌+◌, ◌≤◌, ◌<◌, ◌≡◌, ◌≢◌, ◌⊎◌, inl, inr, refl, sym, ap, ◌∙◌, List, [], ◌∷◌, none,
  some, ltb, length, get_or, arith, Bool-cases,
}
use bright_s.Fs.Path.{vfs_normalize}
use bright_s.Fs.Path.Spec.{vfs_normalize-eq-normalize_path}
use bright_s.Fs.Path.Canonical.{normalize_path_canonical}
use bright_s.Fs.Vfs.{
  Mount, Vfs, Best, no_mount, mount_at, better, find_best, no_best, resolve, find_cached,
}
use bright_s.Fs.Vfs.Round.{Serves, Round, round}

-- The search over the mounts from entry i on, starting from `best`: what it finds is no shorter
-- than any mount that serves the path, and it is `best` or such a mount.
record Found (norm : List ℕ) (i : ℕ) (ms : List Mount) (best b : Best) : Type 0 where
  longest :
      (j : ℕ) (rel : List ℕ)
      → j < length ms
      → Serves (get_or ms j no_mount) norm rel
      → length (get_or ms j no_mount).prefix ≤ b.len
  grows : best.len ≤ b.len
  found :
      (b ≡ best)
      ⊎ ((j : ℕ) × (rel : List ℕ) × (j < length ms)
          × Serves (get_or ms j no_mount) norm rel
          × (b ≡ record {
            at = some (i + j);
            len = length (get_or ms j no_mount).prefix;
            rel_path = rel;
          }))

find_best-Found :
    (norm : List ℕ) (i : ℕ) (ms : List Mount) (best : Best)
    → length norm < 256
    → Found norm i ms best (find_best norm i ms best)
unfolding find_best Round
find_best-Found norm i [] best fits = record {
  longest = λ j rel h s. absurd (omega arith);
  grows = omega arith;
  found = inl refl;
}
find_best-Found norm i (m ∷ ms) best fits =
    go (round norm i m best fits) (find_best-Found norm (i + 1) ms (better norm i m best) fits)
  where
    b : Best
    b = find_best norm (i + 1) ms (better norm i m best)

    later :
        (c : Best)
        → ((j : ℕ) × (rel : List ℕ) × (j < length ms)
            × Serves (get_or ms j no_mount) norm rel
            × (c ≡ record {
              at = some (i + 1 + j);
              len = length (get_or ms j no_mount).prefix;
              rel_path = rel;
            }))
        → (j : ℕ) × (rel : List ℕ) × (j < length (m ∷ ms))
          × Serves (get_or (m ∷ ms) j no_mount) norm rel
          × (c ≡ record {
            at = some (i + j);
            len = length (get_or (m ∷ ms) j no_mount).prefix;
            rel_path = rel;
          })
    later c (j, rel, h, s, e) =
        let same : i + 1 + j ≡ i + suc j = omega arith in
        (
          suc j,
          rel,
          omega arith,
          s,
          e
              ∙ ap
                  (λ k. record {
                    at = some k;
                    len = length (get_or ms j no_mount).prefix;
                    rel_path = rel;
                  })
                  same,
        )

    mine : Best → List ℕ → Type 0
    mine c rel = c ≡ record { at = some i; len = length m.prefix; rel_path = rel }

    assemble :
        best.len ≤ (better norm i m best).len
        → ((rel : List ℕ) → Serves m norm rel → length m.prefix ≤ (better norm i m best).len)
        → (better norm i m best ≡ best)
          ⊎ ((rel : List ℕ) × Serves m norm rel × mine (better norm i m best) rel)
        → Found norm (i + 1) ms (better norm i m best) b
        → Found norm i (m ∷ ms) best b
    assemble up covered one rest = record {
      longest = reach;
      grows = omega (arith, rest.grows);
      found = elim rest.found [
        | inr more ↦ inr (later b more)
        | inl kept ↦ elim one [
          | inl old ↦ inl (kept ∙ old)
          | inr (rel, s, e) ↦
              let here : i ≡ i + 0 = omega arith in
              inr (
                0,
                rel,
                omega arith,
                s,
                kept
                    ∙ (e
                        ∙ ap (λ k. record { at = some k; len = length m.prefix; rel_path = rel })
                            here),
              )
        ]
      ];
    }
      where
        reach :
            (j : ℕ) (rel : List ℕ)
            → j < length (m ∷ ms)
            → Serves (get_or (m ∷ ms) j no_mount) norm rel
            → length (get_or (m ∷ ms) j no_mount).prefix ≤ b.len
        reach zero rel h s = omega (arith, covered rel s, rest.grows)
        reach (suc j) rel h s = rest.longest j rel (omega arith) s

    go :
        Round norm i m best
        → Found norm (i + 1) ms (better norm i m best) b
        → Found norm i (m ∷ ms) best b
    go (inr (never, e)) rest =
        assemble (omega (arith, ap (λ c. c.len) e)) (λ rel s. absurd (never rel s)) (inl e) rest
    go (inl (rel, s, e)) rest = elim (Bool-cases (ltb best.len (length m.prefix))) [
      | inl longer ↦
          let e' : mine (better norm i m best) rel = e ∙ rw longer refl in
          let l = ap (λ c. c.len) e' in
          assemble (ground (arith, l)) (λ _ _. omega (arith, l)) (inr (rel, s, e')) rest
      | inr shorter ↦
          let e' : better norm i m best ≡ best = e ∙ rw shorter refl in
          let l = ap (λ c. c.len) e' in
          assemble (omega (arith, l)) (λ _ _. ground (arith, l)) (inl e') rest
    ]

nonempty : (p : List ℕ) → p ≢ [] → 0 < length p
nonempty [] h = absurd (h refl)
nonempty (c ∷ p) h = omega arith

vfs_normalize-fits : (path norm : List ℕ) → vfs_normalize 256 path ≡ some norm → length norm < 256
vfs_normalize-fits path norm e =
    let (segs, shape, names, fits, again) =
      normalize_path_canonical 64 256 path (omega arith) (omega arith)
        (sym (vfs_normalize-eq-normalize_path 256 path (omega arith)) ∙ e) in
    fits

-- For a path with a normal form that is not in the cache, brights_vfs2_resolve finds no mount
-- and changes nothing, and then no active mount serves the normal form; or it gives a mount that
-- serves it with the relative path that this leaves, and no active mount that serves it has a
-- longer prefix. The mount at / serves all paths and leaves all of them; another serves its own
-- prefix, leaving /, and what stands below it, leaving the rest from the slash on.
pub resolve_lem :
    (s : Vfs) (path norm : List ℕ)
    → vfs_normalize 256 path ≡ some norm
    → find_cached s.path_cache path ≡ none
    → ((resolve s path ≡ (none, s))
        × ((j : ℕ) (rel : List ℕ) → j < length s.mounts → ¬ Serves (mount_at s j) norm rel))
      ⊎ ((i : ℕ) × (rel : List ℕ) × ((resolve s path).0 ≡ some (i, rel))
          × (i < length s.mounts)
          × Serves (mount_at s i) norm rel
          × ((j : ℕ) (other : List ℕ)
              → j < length s.mounts
              → Serves (mount_at s j) norm other
              → length (mount_at s j).prefix ≤ length (mount_at s i).prefix))
unfolding resolve
resolve_lem s path norm e miss = elim f.found [
  | inl nothing ↦ inl (
    rw (e, resolve) (rw (miss, resolve) (rw nothing refl)),
    λ j rel h serves.
        omega (arith, f.longest j rel h serves, ap (λ c. c.len) nothing, nonempty _ serves.1),
  )
  | inr (j, rel, h, serves, one) ↦
      let here : 0 + j ≡ j = omega arith in
      let at_j : (find_best norm 0 s.mounts no_best).at ≡ some j =
        ap (λ c. c.at) one ∙ ap some here in
      inr (
        j,
        rel,
        rw (e, resolve) (rw (miss, resolve) (rw at_j (ap (λ c. some (j, c.rel_path)) one))),
        h,
        serves,
        λ k other hk also. omega (arith, f.longest k other hk also, ap (λ c. c.len) one),
      )
]
  where
    f : Found norm 0 s.mounts no_best (find_best norm 0 s.mounts no_best)
    f = find_best-Found norm 0 s.mounts no_best (vfs_normalize-fits path norm e)
