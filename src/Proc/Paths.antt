-- ===== src/Proc/Paths.antt =====
-- kernel/proc.c: brights_proc_resolve_path, which takes a path from the directory of the current
-- process. Its two loops over components are those of `vfs_normalize`.
use bright_s.Base.{
  ℕ, ◌+◌, ◌-◌, ◌≤◌, ◌<◌, ◌≡◌, refl, sym, ap, ◌∙◌, List, [], ◌∷◌, ◌++◌, Option, none, some, true,
  false, not, ◌&&◌, ◌==◌, ltb, if◌then◌else◌, length, length-append, take, take_all, arith,
  append_assoc, Bool-cases, inl, inr,
}
use bright_s.Fs.Text.{slash, root, char_at, ends_at}
use bright_s.Fs.Path.{vfs_normalize}
use bright_s.Fs.Path.Describe.{split, onto_first, resolve, join, fit}
use bright_s.Fs.Path.Spec.{normalize_path-eq-resolve, vfs_normalize-eq-normalize_path}
use bright_s.Proc.Table.{Procs, get_cwd}

-- `for (...; src[i] && ci < 254; ++i) combined[ci++] = src[i];`
abbrev pub append_limited : List ℕ → List ℕ → List ℕ
append_limited out src = out ++ take (254 - length out) src

-- The slash between the directory and the path, if one is needed.
abbrev pub with_slash : List ℕ → List ℕ → List ℕ
with_slash out path =
    if ltb 0 (length out) && (not (char_at out (length out - 1) == slash) && not (ends_at path 0))
    then append_limited out root
    else out

-- `combined`, of the directory and the path.
unfoldable pub combined : List ℕ → List ℕ → List ℕ
combined cwd path = append_limited (with_slash (append_limited [] cwd) path) path

-- `brights_proc_resolve_path`; `none` is the result -1, and otherwise what is stored in `out`.
unfoldable pub resolve_path : Procs → List ℕ → ℕ → Option (List ℕ)
resolve_path s path cap =
    if ltb cap 2
    then none
    else if char_at path 0 == slash
    then vfs_normalize cap path
    else vfs_normalize cap (combined (get_cwd s) path)

onto_first-append :
    (c : ℕ) (xs ys : List (List ℕ))
    → 0 < length xs
    → onto_first c xs ++ ys ≡ onto_first c (xs ++ ys)
unfolding onto_first
onto_first-append c [] ys h = absurd (omega arith)
onto_first-append c (x ∷ xs) ys h = refl

length-onto_first : (c : ℕ) (xs : List (List ℕ)) → 0 < length (onto_first c xs)
unfolding onto_first
length-onto_first c [] = omega arith
length-onto_first c (x ∷ xs) = omega arith

length-split : (a : List ℕ) → 0 < length (split a)
unfolding split
length-split [] = omega arith
length-split (c ∷ a) = elim (Bool-cases (c == slash)) [
  | inl here ↦ rw here (omega arith)
  | inr other ↦ rw other (length-onto_first c (split a))
]

-- The components of two paths with a slash between them.
split-append : (a b : List ℕ) → split (a ++ (slash ∷ b)) ≡ split a ++ split b
unfolding split
split-append [] b = refl
split-append (c ∷ a) b = elim (Bool-cases (c == slash)) [
  | inl here ↦ rw here (ap (λ r. [] ∷ r) (split-append a b))
  | inr other ↦ rw other (
      ap (onto_first c) (split-append a b)
      ∙ sym (onto_first-append c (split a) (split b) (length-split a)))
]

combined_lem :
    (cwd path : List ℕ)
    → 0 < length cwd
    → (char_at cwd (length cwd - 1) == slash) ≡ false
    → 0 < length path
    → length cwd + 1 + length path ≤ 254
    → combined cwd path ≡ cwd ++ (slash ∷ path)
unfolding combined
combined_lem cwd path some_cwd no_slash some_path fits =
    let all : take (254 - 0) cwd ≡ cwd = take_all (254 - 0) cwd (omega arith) in
    let goes : (ltb 0 (length cwd)
          && (not (char_at cwd (length cwd - 1) == slash) && not (ends_at path 0)))
        ≡ true =
      ground arith in
    let room : take (254 - length cwd) root ≡ root =
      take_all (254 - length cwd) root (omega arith) in
    let rest : take (254 - length (cwd ++ root)) path ≡ path =
      take_all (254 - length (cwd ++ root)) path (omega (arith, length-append cwd root)) in
    let joined : with_slash cwd path ≡ cwd ++ root = rw goes (ap (λ r. cwd ++ r) room) in
    ap (λ c. append_limited (with_slash c path) path) all
    ∙ (ap (λ c. append_limited c path) joined
        ∙ (ap (λ r. (cwd ++ root) ++ r) rest ∙ append_assoc cwd root path))

-- For a buffer of at least two bytes, brights_proc_resolve_path of a relative path that is not
-- empty, while the directory of the current process is not empty and does not end in a slash and
-- both fit 254 bytes with a slash between them, computes the absolute path of the names that the
-- components of the directory and then those of the path leave, if that fits the buffer, for
-- segments of at most 63 bytes and 16 names.
pub resolve_path-eq-resolve :
    (s : Procs) (path : List ℕ) (cap : ℕ)
    → 2 ≤ cap
    → 0 < length path
    → (char_at path 0 == slash) ≡ false
    → 0 < length (get_cwd s)
    → (char_at (get_cwd s) (length (get_cwd s) - 1) == slash) ≡ false
    → length (get_cwd s) + 1 + length path ≤ 254
    → resolve_path s path cap ≡ (elim (resolve 64 (split (get_cwd s) ++ split path) []) [
      | none ↦ none
      | some segs ↦ fit cap (join segs)
    ])
unfolding resolve_path
resolve_path-eq-resolve s path cap hc some_path relative some_cwd no_slash fits =
    let cap_ok : ltb cap 2 ≡ false = ground arith in
    let cwd : List ℕ = get_cwd s in
    let done : resolve_path s path cap ≡ vfs_normalize cap (combined cwd path) =
      rw (cap_ok, resolve_path) (rw (relative, resolve_path) refl) in
    done
    ∙ (ap (vfs_normalize cap) (combined_lem cwd path some_cwd no_slash some_path fits)
        ∙ (vfs_normalize-eq-normalize_path cap (cwd ++ (slash ∷ path)) hc
            ∙ (normalize_path-eq-resolve 64 cap (cwd ++ (slash ∷ path)) (omega arith) hc
                ∙ ap
                    (λ cs. elim (resolve 64 cs []) [
                      | none ↦ none
                      | some segs ↦ fit cap (join segs)
                    ])
                    (split-append cwd path))))
