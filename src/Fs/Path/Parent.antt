-- ===== src/Fs/Path/Parent.antt =====
-- `path_parent`: everything before the last slash.
use mathlib.Core.Bool.{false≢true}
use bright_s.Base.{
  ℕ, ◌+◌, ◌≤◌, ◌<◌, ◌≡◌, refl, sym, ap, subst, ◌∙◌, List, [], ◌∷◌, ◌++◌, Option, none, some, false,
  ◌==◌, leb, ltb, if◌then◌else◌, length, arith, take-append_self, length-append, append_assoc,
}
use bright_s.Base.Members.{All}
use bright_s.Fs.Text.{slash, root, path_eq, path_eq_iff, path_eq_refl, has_char, char_at}
use bright_s.Fs.Path.{last_slash, path_parent, normalize_path}
use bright_s.Fs.Path.Describe.{join}
use bright_s.Fs.Path.Canonical.{IsName, normalize_path_canonical}

last_slash_none :
    (i : ℕ) (b : List ℕ) (last : Option ℕ) → has_char b slash ≡ false → last_slash i b last ≡ last
unfolding last_slash has_char
last_slash_none i [] last h = refl
last_slash_none i (c ∷ b) last h = ground (arith, last_slash_none (i + 1) b last)

last_slash_lem :
    (i : ℕ) (a b : List ℕ) (last : Option ℕ)
    → has_char b slash ≡ false
    → last_slash i (a ++ (slash ∷ b)) last ≡ some (i + length a)
unfolding last_slash
last_slash_lem i [] b last h = ground (arith, last_slash_none (i + 1) b (some i))
last_slash_lem i (c ∷ a) b last h =
    last_slash_lem (i + 1) a b (if c == slash then some i else last) h ∙ ap some (omega arith)

-- An absolute path that ends in a slash and a name without slashes, not empty, and fits the
-- buffer has what stands before that slash for its parent, or the root if nothing does.
pub path_parent_lem :
    (a b : List ℕ) (cap : ℕ)
    → has_char b slash ≡ false
    → 0 < length b
    → char_at (a ++ (slash ∷ b)) 0 ≡ slash
    → length (a ++ (slash ∷ b)) < cap
    → path_parent (a ++ (slash ∷ b)) cap ≡ some (if length a == 0 then root else a)
unfolding path_parent
path_parent_lem a b size bare pos abs fits =
    let big : ltb size 2 ≡ false = ground (arith, length-append a (slash ∷ b)) in
    let long : leb (length (a ++ (slash ∷ b))) 1 ≡ false =
      ground (arith, length-append a (slash ∷ b)) in
    rw (big, long, abs, last_slash_lem 0 a b none bare)
      (ground (arith, length-append a (slash ∷ b), take-append_self a (slash ∷ b)))

-- A path as the text before its last slash and a bare, non-empty last name.
pub record Cut (p : List ℕ) : Type 0 where
  pub before : List ℕ
  pub last : List ℕ
  pub whole : p ≡ before ++ (slash ∷ last)
  pub bare : has_char last slash ≡ false
  pub named : 0 < length last
  pub absolute : char_at p 0 ≡ slash

Cut-join :
    (m : ℕ) (s : List ℕ) (segs : List (List ℕ)) → All (IsName m) (s ∷ segs) → Cut (join (s ∷ segs))
unfolding join
Cut-join m s [] h = record {
  before = [];
  last = s;
  whole = refl;
  bare = h.0.no_slash;
  named = named_lem s h.0.nonempty;
  absolute = refl;
}
  where
    named_lem : (s : List ℕ) → path_eq s [] ≡ false → 0 < length s
    named_lem [] e = absurd (false≢true (sym e ∙ path_eq_refl []))
    named_lem (c ∷ s) e = omega arith
Cut-join m s (t ∷ segs) h = extend (Cut-join m t segs h.1)
  where
    extend : Cut (join (t ∷ segs)) → Cut ((slash ∷ s) ++ join (t ∷ segs))
    extend c = record {
      before = (slash ∷ s) ++ c.before;
      last = c.last;
      whole =
          ap (λ r. (slash ∷ s) ++ r) c.whole
          ∙ sym (append_assoc (slash ∷ s) c.before (slash ∷ c.last));
      bare = c.bare;
      named = c.named;
      absolute = refl;
    }

-- The names in a directory tree: absolute paths of plain names below the root that fit a buffer.
pub record IsPath (max_name : ℕ) (p : List ℕ) : Type 0 where
  pub cut : Cut p
  pub fits : length p < max_name

-- What `normalize_path` makes is the root or such a path.
pub normalize_path-IsPath :
    (m : ℕ) (text : List ℕ) {p : List ℕ}
    → 3 ≤ m
    → normalize_path m m text ≡ some p
    → path_eq p root ≡ false
    → IsPath m p
normalize_path-IsPath m text {p} hm e below =
    let (segs, shape, names, fits, again) = normalize_path_canonical m m text hm (omega arith) e in
    record { cut = cut_of segs shape names.0; fits = fits }
  where
    cut_of : (segs : List (List ℕ)) → p ≡ join segs → All (IsName m) segs → Cut p
    cut_of [] shape names =
        let is_root : p ≡ root = unfold join in shape in
        absurd (false≢true (sym below ∙ (path_eq_iff p root).1 is_root))
    cut_of (s ∷ segs) shape names = subst Cut (sym shape) (Cut-join m s segs names)

-- The parent of such a path is the root, or the path without its last name.
pub path_parent-IsPath :
    (m : ℕ) (p : List ℕ) (v : IsPath m p)
    → path_parent p m ≡ some (if length v.cut.before == 0 then root else v.cut.before)
path_parent-IsPath m p v =
    let c = v.cut in
    ap (λ q. path_parent q m) c.whole
    ∙ path_parent_lem c.before c.last m c.bare c.named
        (ap (λ q. char_at q 0) (sym c.whole) ∙ c.absolute)
        (omega (arith, ap length c.whole, v.fits))
