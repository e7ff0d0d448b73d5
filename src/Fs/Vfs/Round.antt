-- ===== src/Fs/Vfs/Round.antt =====
-- kernel/fs/vfs2.c: one round of the search for the mount of a path.
use mathlib.Core.Bool.{false≢true}
use bright_s.Base.{
  ℕ, ◌+◌, ◌≤◌, ◌<◌, ◌≡◌, ◌≢◌, ◌⊎◌, inl, inr, refl, sym, ap, subst, ◌∙◌, List, [], ◌∷◌, ◌++◌, some,
  Bool, true, false, ◌==◌, ◌&&◌, ◌||◌, ltb, leb, if◌then◌else◌, length, drop, arith, Bool-cases,
  take_all, append-nil, length-append,
}
use bright_s.Base.Splice.{drop-append}
use bright_s.Fs.Text.{slash, root, char_at}
use bright_s.Fs.Vfs.{Mount, Best, vfs_str_prefix, vfs_str_copy, better}

-- A mount serves a normal path, leaving a relative path of it: the mount "/" leaves all of it, and
-- any other mount leaves "/" of its own prefix, and of what stands below the prefix the rest.
pub data Left (prefix norm rel : List ℕ) : Type 0 where
  all : prefix ≡ root → rel ≡ norm → Left prefix norm rel
  exact : prefix ≢ root → prefix ≡ norm → rel ≡ root → Left prefix norm rel
  below :
      (r : List ℕ) → prefix ≢ root → norm ≡ prefix ++ rel → rel ≡ slash ∷ r → Left prefix norm rel

abbrev pub Serves : Mount → List ℕ → List ℕ → Type 0
Serves m norm rel = (m.active ≡ true) × (m.prefix ≢ []) × Left m.prefix norm rel

vfs_str_prefix_lem :
    (p path : List ℕ) → vfs_str_prefix p path ≡ true → path ≡ p ++ drop (length p) path
unfolding vfs_str_prefix
vfs_str_prefix_lem [] path e = refl
vfs_str_prefix_lem (c ∷ p) [] e = absurd (ground arith)
vfs_str_prefix_lem (c ∷ p) (d ∷ path) e =
    let same : d ≡ c = ground arith in
    rw same (ap (λ r. c ∷ r) (vfs_str_prefix_lem p path (ground arith)))

vfs_str_prefix-append : (p r : List ℕ) → vfs_str_prefix p (p ++ r) ≡ true
unfolding vfs_str_prefix
vfs_str_prefix-append [] r = refl
vfs_str_prefix-append (c ∷ p) r = ground (arith, vfs_str_prefix-append p r)

char_at-append : (p r : List ℕ) → char_at (p ++ r) (length p) ≡ char_at r 0
char_at-append [] r = refl
char_at-append (c ∷ p) r = char_at-append p r

is_root : (p : List ℕ) → (length p == 1 && char_at p 0 == slash) ≡ true → p ≡ root
is_root [] e = absurd (ground arith)
is_root (c ∷ []) e = let same : c ≡ slash = ground arith in ap (λ d. d ∷ []) same
is_root (c ∷ d ∷ p) e = absurd (ground arith)

not_root : (p : List ℕ) → (length p == 1 && char_at p 0 == slash) ≡ false → p ≢ root
not_root p e same = false≢true (sym e ∙ ap (λ q. length q == 1 && char_at q 0 == slash) same)

-- What a round does, if it knows what the mount leaves.
unfoldable pub Round : List ℕ → ℕ → Mount → Best → Type 0
Round norm i m best =
    ((rel : List ℕ) × Serves m norm rel
      × (better norm i m best ≡ (
          if ltb best.len (length m.prefix)
          then record { at = some i; len = length m.prefix; rel_path = rel }
          else best)))
    ⊎ (((rel : List ℕ) → ¬ Serves m norm rel) × (better norm i m best ≡ best))

module _ (norm : List ℕ) (i : ℕ) (m : Mount) (best : Best) (fits : length norm < 256) where
  copy : (p : List ℕ) → length p ≤ length norm → vfs_str_copy 256 p ≡ p
  copy p h = take_all 255 p (omega arith)

  empty_prefix : (length m.prefix == 0) ≡ true → m.prefix ≡ []
  empty_prefix e = nil_of m.prefix e
    where
      nil_of : (p : List ℕ) → (length p == 0) ≡ true → p ≡ []
      nil_of [] e = refl
      nil_of (c ∷ p) e = absurd (ground arith)

  -- A mount whose prefix is not "/" and is followed by r in the path.
  after_prefix :
      (r : List ℕ)
      → m.active ≡ true
      → (length m.prefix == 1 && char_at m.prefix 0 == slash) ≡ false
      → norm ≡ m.prefix ++ r
      → Round norm i m best
  unfolding better Round
  after_prefix r on other e = elim (Bool-cases (length m.prefix == 0)) [
    | inl none_there ↦
        let never : ltb best.len (length m.prefix) ≡ false = ground arith in
        inr (
          λ rel s. s.1 (empty_prefix none_there),
          rw (on, other, starts)
              (ends _
                (leb (length norm) (length m.prefix) || char_at norm (length m.prefix) == slash)
                never),
        )
    | inr named ↦ pick r refl named
  ]
    where
      starts : vfs_str_prefix m.prefix norm ≡ true
      starts = rw e (vfs_str_prefix-append m.prefix r)

      len : length norm ≡ length m.prefix + length r
      len = ap length e ∙ length-append m.prefix r

      ends :
          (b : Best) (c : Bool)
          → ltb best.len (length m.prefix) ≡ false
          → (if true && c && ltb best.len (length m.prefix) then b else best) ≡ best
      ends b c never = ground arith

      named_prefix : (length m.prefix == 0) ≡ false → m.prefix ≢ []
      named_prefix named none_there = false≢true (sym named ∙ ap (λ p. length p == 0) none_there)

      refused :
          (c : ℕ) (q : List ℕ)
          → drop (length m.prefix) norm ≡ c ∷ q
          → (c == slash) ≡ false
          → leb (length norm) (length m.prefix) ≡ false
          → {rel : List ℕ} → ¬ Left m.prefix norm rel
      refused c q rest in_name long (all top whole) = not_root m.prefix other top
      refused c q rest in_name long (exact apart whole none_left) = ground (arith, ap length whole)
      refused c q rest in_name long {rel} (below t apart split slashed) =
          let same : c ∷ q ≡ slash ∷ t =
            sym rest ∙ (ap (drop (length m.prefix)) split ∙ (drop-append m.prefix rel ∙ slashed)) in
          let c_is : c ≡ slash = ap (λ u. char_at u 0) same in ground arith

      pick : (q : List ℕ) → r ≡ q → (length m.prefix == 0) ≡ false → Round norm i m best
      pick [] same named =
          let short : leb (length norm) (length m.prefix) ≡ true =
            ground (arith, len, ap length same) in
          let whole : norm ≡ m.prefix = e ∙ (ap (λ q. m.prefix ++ q) same ∙ append-nil m.prefix) in
          inl (
            root,
            (on, named_prefix named, exact (not_root m.prefix other) (sym whole) refl),
            rw (on, other, starts, short) refl,
          )
      pick (c ∷ q) same named =
          let long : leb (length norm) (length m.prefix) ≡ false =
            ground (arith, len, ap length same) in
          let head : char_at norm (length m.prefix) ≡ c =
            rw e (char_at-append m.prefix r ∙ ap (λ t. char_at t 0) same) in
          let rest : drop (length m.prefix) norm ≡ c ∷ q = rw e (drop-append m.prefix r ∙ same) in
          elim (Bool-cases (c == slash)) [
            | inl at_slash ↦
                let is_slash : c ≡ slash = ground arith in
                inl (
                  c ∷ q,
                  (
                    on,
                    named_prefix named,
                    below q (not_root m.prefix other) (e ∙ ap (λ t. m.prefix ++ t) same)
                        (ap (λ d. d ∷ q) is_slash),
                  ),
                  rw (on, other, starts, long, head, at_slash, rest)
                      (ap
                        (λ t.
                          if ltb best.len (length m.prefix)
                          then record { at = some i; len = length m.prefix; rel_path = t }
                          else best)
                        (copy (c ∷ q) (omega (arith, len, ap length same)))),
                )
            | inr in_name ↦ inr (
              λ rel s. refused c q (rest) in_name long s.2,
              rw (on, other, starts, long, head, in_name) refl,
            )
          ]

  starts_with :
      (rel : List ℕ)
      → Left m.prefix norm rel
      → m.prefix ≢ root
      → vfs_str_prefix m.prefix norm ≡ true
  starts_with rel (all top whole) apart = absurd (apart top)
  starts_with rel (exact _ whole none_left) apart =
      subst (λ n. vfs_str_prefix m.prefix n ≡ true) (append-nil m.prefix ∙ whole)
        (vfs_str_prefix-append m.prefix [])
  starts_with rel (below t _ split slashed) apart =
      subst (λ n. vfs_str_prefix m.prefix n ≡ true) (sym split) (vfs_str_prefix-append m.prefix rel)

  pub round : Round norm i m best
  unfolding better Round
  round = elim (Bool-cases m.active) [
    | inr off ↦ inr (λ rel s. false≢true (sym off ∙ s.0), rw off refl)
    | inl on ↦ elim (Bool-cases (length m.prefix == 1 && char_at m.prefix 0 == slash)) [
      | inl top ↦
          let p = is_root m.prefix top in
          let one : length m.prefix ≡ 1 = ap length p in
          inl (
            norm,
            (on, λ e. nil_ne_root (sym e ∙ p), all p refl),
            rw (on, top)
                (rw one (
                  ap
                    (λ t.
                      if ltb best.len 1
                      then record { at = some i; len = 1; rel_path = t }
                      else best)
                    (copy norm (omega arith)))),
          )
      | inr other ↦ elim (Bool-cases (vfs_str_prefix m.prefix norm)) [
        | inl starts ↦
            after_prefix (drop (length m.prefix) norm) on other
              (vfs_str_prefix_lem m.prefix norm starts)
        | inr differs ↦ inr (
          λ rel s. false≢true (sym differs ∙ starts_with rel s.2 (not_root m.prefix other)),
          rw (on, other, differs) refl,
        )
      ]
    ]
  ]
    where
      nil_ne_root : [] ≢ root
      nil_ne_root e = ground arith
