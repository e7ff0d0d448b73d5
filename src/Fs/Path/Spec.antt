-- ===== src/Fs/Path/Spec.antt =====
-- `normalize_path` against a description by the components of a path.
use bright_s.Base.{
  ℕ, suc, ◌-◌, ◌≤◌, ◌<◌, ◌≡◌, ◌⊎◌, refl, sym, ap, ◌∙◌, List, [], ◌∷◌, ◌++◌, Option, none, some,
  false, leb, ltb, length, arith, Bool-cases, inl, inr, length-append, append_assoc, append-nil,
}
use bright_s.Fs.Text.{slash, root}
use bright_s.Fs.Path.{put, put_segments, normalize_path, vfs_normalize}
use bright_s.Fs.Path.Describe.{split, resolve, join, fit, between, join-eq-between}
use bright_s.Fs.Path.Scan.{scan-eq-resolve}

put_lem :
    (cap : ℕ) (out text : List ℕ) → length out < cap → put cap out text ≡ fit cap (out ++ text)
unfolding put fit
put_lem cap out [] h = ground (arith, append-nil out)
put_lem cap out (c ∷ text) h = elim (Bool-cases (leb (cap - 1) (length out))) [
  | inl full ↦ ground (arith, length-append out (c ∷ text))
  | inr room ↦ ground (
    arith,
    length-append out (c ∷ []),
    put_lem cap (out ++ (c ∷ [])) text,
    append_assoc out (c ∷ []) text,
  )
]

-- A longer text fits only if its beginning does.
fit_cases :
    (cap : ℕ) (a : List ℕ)
    → ((fit cap a ≡ some a) × (length a < cap))
      ⊎ ((fit cap a ≡ none) × ((b : List ℕ) → fit cap (a ++ b) ≡ none))
unfolding fit
fit_cases cap a = elim (Bool-cases (ltb (length a) cap)) [
  | inl fits ↦ inl (rw fits refl, ground arith)
  | inr big ↦ inr (rw big refl, λ b. ground (arith, length-append a b))
]

put_segments_lem :
    (cap : ℕ) (out : List ℕ) (segs : List (List ℕ))
    → length out < cap
    → put_segments cap out segs ≡ fit cap (out ++ between segs)
unfolding put_segments between
put_segments_lem cap out [] h = unfold fit in ground (arith, append-nil out)
put_segments_lem cap out (s ∷ []) h = put_lem cap out s h
put_segments_lem cap out (s ∷ t ∷ segs) h = elim (fit_cases cap (out ++ s)) [
  | inr big ↦ rw (put_lem cap out s h, big.0, put_segments) (sym (regroup ∙ big.1 _))
  | inl fits ↦ elim (fit_cases cap ((out ++ s) ++ root)) [
    | inr big ↦
        rw (put_lem cap out s h, fits.0, put_segments)
          (rw (put_lem cap (out ++ s) root fits.1, big.0)
            (sym (regroup ∙ ap (fit cap) (sym (append_assoc (out ++ s) root _)) ∙ big.1 _)))
    | inl more ↦
        rw (put_lem cap out s h, fits.0, put_segments)
          (rw (put_lem cap (out ++ s) root fits.1, more.0)
            (put_segments_lem cap ((out ++ s) ++ root) (t ∷ segs) more.1
              ∙ ap (fit cap) (append_assoc (out ++ s) root _)
              ∙ sym regroup))
  ]
]
  where
    regroup :
        fit cap (out ++ (s ++ slash ∷ between (t ∷ segs)))
        ≡ fit cap ((out ++ s) ++ slash ∷ between (t ∷ segs))
    regroup = ap (fit cap) (sym (append_assoc out s (slash ∷ between (t ∷ segs))))

-- What normalize_path computes is the absolute path of the names that the components of its
-- argument leave, if that fits the buffer, for segments of at least two bytes and a buffer of at
-- least two; otherwise it fails.
pub normalize_path-eq-resolve :
    (max_name cap : ℕ) (path : List ℕ)
    → 3 ≤ max_name
    → 2 ≤ cap
    → normalize_path max_name cap path
      ≡ (elim (resolve max_name (split path) []) [ none ↦ none | some segs ↦ fit cap (join segs) ])
unfolding normalize_path
normalize_path-eq-resolve m cap path hm hc =
    let same = scan-eq-resolve (suc (length path)) m path [] hm (omega arith) in
    let cap_ok : ltb cap 2 ≡ false = ground arith in
    rw (cap_ok, same) (finish (resolve m (split path) []))
  where
    finish :
        (r : Option (List (List ℕ)))
        → (elim r [
          | none ↦ none
          | some [] ↦ some root
          | some (s ∷ segs) ↦ put_segments cap root (s ∷ segs)
        ])
          ≡ (elim r [ none ↦ none | some segs ↦ fit cap (join segs) ])
    finish none = refl
    finish (some []) = unfold fit join in ground arith
    finish (some (s ∷ segs)) =
        put_segments_lem cap root (s ∷ segs) (omega arith)
        ∙ ap (fit cap) (sym (join-eq-between s segs))

-- For a buffer of at least two bytes, vfs_normalize is normalize_path with segments of at most
-- 63 bytes.
pub vfs_normalize-eq-normalize_path :
    (cap : ℕ) (path : List ℕ) → 2 ≤ cap → vfs_normalize cap path ≡ normalize_path 64 cap path
unfolding vfs_normalize normalize_path put_segments
vfs_normalize-eq-normalize_path cap path hc = ground arith
