-- ===== src/Fs/Text.antt =====
-- C strings as the lists of their bytes before the terminating zero, and the string helpers of
-- kernel/fs/ramfs.c, kernel/fs/vfs2.c and kernel/kernel_util.h.
use bright_s.Base.{
  ℕ, zero, suc, ◌+◌, ◌≤◌, ◌≡◌, ◌↔◌, refl, List, [], ◌∷◌, Option, none, some, Bool, true, false,
  ◌&&◌, ◌==◌, leb, if◌then◌else◌, length, get_or, arith,
}

-- '/'.
abbrev pub slash : ℕ
slash = 0x2f

-- "/".
abbrev pub root : List ℕ
root = slash ∷ []

-- `path_eq`, and `vfs_str_eq`.
unfoldable pub path_eq : List ℕ → List ℕ → Bool
path_eq [] [] = true
path_eq [] (b ∷ bs) = false
path_eq (a ∷ as') [] = false
path_eq (a ∷ as') (b ∷ bs) = a == b && path_eq as' bs

-- `path_len_limited`.
unfoldable pub path_len_limited : List ℕ → ℕ → ℕ → Option ℕ
path_len_limited [] max n = some n
path_len_limited (c ∷ s) max n =
    let rest = path_len_limited s max (n + 1) in if leb max n then none else rest

-- Whether `kutil_strncmp a b n` is 0.
unfoldable pub strncmp_eq : List ℕ → List ℕ → ℕ → Bool
strncmp_eq a b zero = true
strncmp_eq [] [] (suc n) = true
strncmp_eq [] (b ∷ bs) (suc n) = false
strncmp_eq (a ∷ as') [] (suc n) = false
strncmp_eq (a ∷ as') (b ∷ bs) (suc n) = a == b && strncmp_eq as' bs n

-- Whether `kutil_strchr s c` finds something.
unfoldable pub has_char : List ℕ → ℕ → Bool
has_char [] c = false
has_char (x ∷ s) c = if x == c then true else has_char s c

-- The byte at an index, with the terminating zero behind the end.
abbrev pub char_at : List ℕ → ℕ → ℕ
char_at s i = get_or s i 0

-- Whether the byte at an index is the terminating zero; no byte before it is zero.
abbrev pub ends_at : List ℕ → ℕ → Bool
ends_at s i = leb (length s) i

pub path_eq_iff : (a b : List ℕ) → (path_eq a b ≡ true) ↔ (a ≡ b)
unfolding path_eq
path_eq_iff [] [] = (λ h. refl, λ h. refl)
path_eq_iff [] (b ∷ bs) = ground arith
path_eq_iff (a ∷ as') [] = ground arith
path_eq_iff (a ∷ as') (b ∷ bs) = ground (arith, path_eq_iff as' bs)

pub path_eq_refl : (a : List ℕ) → path_eq a a ≡ true
path_eq_refl a = (path_eq_iff a a).1 refl

pub path_len_limited_lem :
    (s : List ℕ) (max n : ℕ) → n + length s ≤ max → path_len_limited s max n ≡ some (n + length s)
unfolding path_len_limited
path_len_limited_lem [] max n h = ground arith
path_len_limited_lem (c ∷ s) max n h = ground (arith, path_len_limited_lem s max (n + 1))
