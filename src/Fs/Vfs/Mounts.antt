-- ===== src/Fs/Vfs/Mounts.antt =====
-- kernel/fs/vfs2.c: the bitmap of mounts and their flags agree, and prefixes are distinct.
use mathlib.Core.Bool.{false≢true}
use native.Mathlib.Decide.{ℕ_discrete}
use bright_s.Base.{
  ℕ, ◌+◌, ◌<◌, ◌^◌, ◌≡◌, ◌≢◌, ◌⊎◌, inl, inr, refl, sym, ap, subst, ◌∙◌, List, none, some, true,
  false, ◌==◌, length, length-set, take_all, set, get_or, get_or-set_self, get_or-set_ne, arith,
  Option-cases, length-replicate, get_or-replicate,
}
use bright_s.Word.{
  bit-zero, has_bit-eq-bit, has_bit, set_bit, clear_bit, has_bit-set_bit, has_bit-clear_bit,
  set_bit-lt, clear_bit-lt,
}
use bright_s.Fs.Vfs.{
  boot, Mount, Vfs, no_mount, mount_at, max_mounts, find_mounted, find_unmounted, mount, umount,
  vfs_str_copy,
}
use bright_s.Fs.Vfs.Search.{find_mounted_lem, find_mounted-none, find_unmounted_lem}

-- A bit of the bitmap says whether its mount is active, and active mounts differ in their prefix.
pub record Inv (s : Vfs) : Type 0 where
  pub full : length s.mounts ≡ max_mounts
  pub word : s.mount_bitmap < 2 ^ 8
  pub agree : (i : ℕ) → i < max_mounts → has_bit s.mount_bitmap i ≡ (mount_at s i).active
  pub distinct :
      (i j : ℕ)
      → i < max_mounts
      → j < max_mounts
      → (mount_at s i).active ≡ true
      → (mount_at s j).active ≡ true
      → (mount_at s i).prefix ≡ (mount_at s j).prefix
      → i ≡ j

pub boot-Inv : Inv boot
unfolding boot
boot-Inv = record {
  full = length-replicate max_mounts no_mount;
  word = omega arith;
  agree = λ i h.
      has_bit-eq-bit 0 i
      ∙ bit-zero i
      ∙ ap (λ m. m.active) (sym (get_or-replicate max_mounts i no_mount));
  distinct = λ i j hi hj vi vj e.
      absurd (false≢true (ap (λ m. m.active) (sym (get_or-replicate max_mounts i no_mount)) ∙ vi));
}

module _ (s : Vfs) (i : ℕ) (m : Mount) (v : Inv s) (h : i < max_mounts) where
  at_changed : get_or (set s.mounts i m) i no_mount ≡ m
  at_changed = get_or-set_self s.mounts i m no_mount (omega (arith, v.full))

  at_other : (j : ℕ) → i ≢ j → get_or (set s.mounts i m) j no_mount ≡ mount_at s j
  at_other j apart = get_or-set_ne s.mounts i j m no_mount apart

  changed-Inv :
      (bitmap : ℕ)
      → bitmap < 2 ^ 8
      → has_bit bitmap i ≡ m.active
      → ((j : ℕ) → j < max_mounts → i ≢ j → has_bit bitmap j ≡ has_bit s.mount_bitmap j)
      → (m.active ≡ true
          → (j : ℕ) → j < max_mounts
          → i ≢ j
          → (mount_at s j).active ≡ true
          → (mount_at s j).prefix ≢ m.prefix)
      → Inv (record s { mounts = set s.mounts i m; mount_bitmap = bitmap })
  changed-Inv bitmap word here others fresh = record {
    full = length-set s.mounts i m ∙ v.full;
    word = word;
    agree = λ j hj. elim (ℕ_discrete i j) [
      | yes same ↦
          subst (λ k. has_bit bitmap k ≡ (get_or (set s.mounts i m) k no_mount).active) same
            (here ∙ ap (λ g. g.active) (sym at_changed))
      | no apart ↦ others j hj apart ∙ (v.agree j hj ∙ ap (λ g. g.active) (sym (at_other j apart)))
    ];
    distinct = λ a b ha hb va vb e. elim (ℕ_discrete i a) [
      | yes ia ↦ elim (ℕ_discrete i b) [
        | yes ib ↦ sym ia ∙ ib
        | no nb ↦
            let at_a : get_or (set s.mounts i m) a no_mount ≡ m =
              subst (λ k. get_or (set s.mounts i m) k no_mount ≡ m) ia at_changed in
            absurd (
              fresh (ap (λ g. g.active) (sym at_a) ∙ va) b hb nb
                (ap (λ g. g.active) (sym (at_other b nb)) ∙ vb)
                (ap (λ g. g.prefix) (sym (at_other b nb)) ∙ (sym e ∙ ap (λ g. g.prefix) at_a)))
      ]
      | no na ↦ elim (ℕ_discrete i b) [
        | yes ib ↦
            let at_b : get_or (set s.mounts i m) b no_mount ≡ m =
              subst (λ k. get_or (set s.mounts i m) k no_mount ≡ m) ib at_changed in
            absurd (
              fresh (ap (λ g. g.active) (sym at_b) ∙ vb) a ha na
                (ap (λ g. g.active) (sym (at_other a na)) ∙ va)
                (ap (λ g. g.prefix) (sym (at_other a na)) ∙ (e ∙ ap (λ g. g.prefix) at_b)))
        | no nb ↦
            v.distinct a b ha hb (ap (λ g. g.active) (sym (at_other a na)) ∙ va)
              (ap (λ g. g.active) (sym (at_other b nb)) ∙ vb)
              (ap (λ g. g.prefix) (sym (at_other a na)) ∙ (e ∙ ap (λ g. g.prefix) (at_other b nb)))
      ]
    ];
  }

zero_add : (j : ℕ) → 0 + j ≡ j
zero_add j = omega arith

-- Where the bitmap of mounts agrees with their flags and active mounts differ in their prefix,
-- brights_vfs2_mount of a prefix of less than 128 bytes either fails and changes nothing, or
-- puts the prefix and the superblock into a mount that was not active, changes no other mount
-- and keeps that invariant.
pub mount_lem :
    (s : Vfs) (prefix : List ℕ) (sb : ℕ)
    → Inv s
    → length prefix < 128
    → let (ok, t) = mount s prefix sb in
      ((ok ≡ false) × (t ≡ s))
      ⊎ ((i : ℕ) × (ok ≡ true)
          × (i < max_mounts)
          × ((mount_at s i).active ≡ false)
          × (mount_at t i ≡ record { prefix = prefix; sb = sb; active = true })
          × ((j : ℕ) → i ≢ j → mount_at t j ≡ mount_at s j)
          × Inv t)
unfolding mount
mount_lem s prefix sb v short =
    elim (Option-cases (find_mounted 0 s.mount_bitmap s.mounts prefix)) [
      | inr (old, e) ↦ inl (ap (λ r. r.0) (refused old e), ap (λ r. r.1) (refused old e))
      | inl new ↦ elim (Option-cases (find_unmounted 0 s.mount_bitmap s.mounts)) [
        | inl used_up ↦
            inl (ap (λ r. r.0) (no_room new used_up), ap (λ r. r.1) (no_room new used_up))
        | inr (i, e) ↦
            let (j, at, inside, free) = find_unmounted_lem 0 s.mount_bitmap s.mounts i e in
            let h : i < max_mounts = omega (arith, v.full) in
            let m : Mount = record { prefix = vfs_str_copy 128 prefix; sb = sb; active = true } in
            let whole : m ≡ record { prefix = prefix; sb = sb; active = true } =
              ap (λ p. record { prefix = p; sb = sb; active = true })
                (take_all 127 prefix (omega arith)) in
            let t = record s {
              mounts = set s.mounts i m;
              mount_bitmap = set_bit s.mount_bitmap i;
            } in
            let done : mount s prefix sb ≡ (true, t) = rw (new, mount) (rw e refl) in
            let self : (i == i) ≡ true = ground arith in
            let here : has_bit (set_bit s.mount_bitmap i) i ≡ true =
              has_bit-set_bit s.mount_bitmap i i ∙ ground (arith, self) in
            let fresh : (j : ℕ)
                → j < max_mounts
                → i ≢ j
                → (mount_at s j).active ≡ true
                → (mount_at s j).prefix ≢ m.prefix =
              λ j hj apart busy same.
                find_mounted-none 0 s.mount_bitmap s.mounts prefix j new (omega (arith, v.full))
                  (ap (has_bit s.mount_bitmap) (zero_add j) ∙ (v.agree j hj ∙ busy))
                  (same ∙ ap (λ g. g.prefix) whole) in
            inr (
              i,
              ap (λ r. r.0) done,
              h,
              sym (v.agree i h) ∙ free,
              ap (λ r. mount_at r.1 i) done ∙ (at_changed s i m v h ∙ whole),
              λ j apart. ap (λ r. mount_at r.1 j) done ∙ at_other s i m v h j apart,
              subst (λ r. Inv r.1) (sym done)
                  (changed-Inv s i m v h (set_bit s.mount_bitmap i)
                    (set_bit-lt 8 s.mount_bitmap i v.word h) here
                    (λ j hj apart. has_bit-set_bit s.mount_bitmap i j ∙ ground arith) (λ _. fresh)),
            )
      ]
    ]
  where
    refused :
        (old : ℕ)
        → find_mounted 0 s.mount_bitmap s.mounts prefix ≡ some old
        → mount s prefix sb ≡ (false, s)
    refused old e = rw (e, mount) refl

    no_room :
        find_mounted 0 s.mount_bitmap s.mounts prefix ≡ none
        → find_unmounted 0 s.mount_bitmap s.mounts ≡ none
        → mount s prefix sb ≡ (false, s)
    no_room new used_up = rw (new, mount) (rw used_up refl)

-- Where the bitmap of mounts agrees with their flags and active mounts differ in their prefix,
-- brights_vfs2_umount either fails and changes nothing, and then no active mount has the prefix;
-- or it makes the active mount with the prefix inactive, changes no other mount and keeps that
-- invariant.
pub umount_lem :
    (s : Vfs) (prefix : List ℕ)
    → Inv s
    → let (ok, t) = umount s prefix in
      ((ok ≡ false)
        × (t ≡ s)
        × ((j : ℕ)
            → j < max_mounts
            → (mount_at s j).active ≡ true
            → (mount_at s j).prefix ≢ prefix))
      ⊎ ((i : ℕ) × (ok ≡ true)
          × (i < max_mounts)
          × ((mount_at s i).active ≡ true)
          × ((mount_at s i).prefix ≡ prefix)
          × ((mount_at t i).active ≡ false)
          × ((j : ℕ) → i ≢ j → mount_at t j ≡ mount_at s j)
          × Inv t)
unfolding umount
umount_lem s prefix v = elim (Option-cases (find_mounted 0 s.mount_bitmap s.mounts prefix)) [
  | inl missing ↦
      let refused : umount s prefix ≡ (false, s) = rw (missing, umount) refl in
      inl (
        ap (λ r. r.0) refused,
        ap (λ r. r.1) refused,
        λ j hj busy.
            find_mounted-none 0 s.mount_bitmap s.mounts prefix j missing (omega (arith, v.full))
              (ap (has_bit s.mount_bitmap) (zero_add j) ∙ (v.agree j hj ∙ busy)),
      )
  | inr (i, e) ↦
      let (j, at, inside, used, named) = find_mounted_lem 0 s.mount_bitmap s.mounts prefix i e in
      let h : i < max_mounts = omega (arith, v.full) in
      let m : Mount = record (mount_at s i) { active = false } in
      let t : Vfs = record s {
        mounts = set s.mounts i m;
        mount_bitmap = clear_bit 8 s.mount_bitmap i;
      } in
      let done : umount s prefix ≡ (true, t) = rw (e, umount) refl in
      let self : (i == i) ≡ true = ground arith in
      let same : j ≡ i = omega arith in
      inr (
        i,
        ap (λ r. r.0) done,
        h,
        sym (v.agree i h) ∙ used,
        ap (λ k. (mount_at s k).prefix) (sym same) ∙ named,
        ap (λ r. (mount_at r.1 i).active) done ∙ ap (λ g. g.active) (at_changed s i m v h),
        λ k apart. ap (λ r. mount_at r.1 k) done ∙ at_other s i m v h k apart,
        subst (λ r. Inv r.1) (sym done)
            (changed-Inv s i m v h (clear_bit 8 s.mount_bitmap i)
              (clear_bit-lt 8 s.mount_bitmap i v.word)
              (has_bit-clear_bit 8 s.mount_bitmap i i v.word h ∙ ground (arith, self))
              (λ k hk apart. has_bit-clear_bit 8 s.mount_bitmap i k v.word h ∙ ground arith)
              (λ off. absurd (false≢true off))),
      )
]
