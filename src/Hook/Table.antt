-- ===== src/Hook/Table.antt =====
-- kernel/syshook.c: the table of hooks stays sound, call by call.
use native.Mathlib.Decide.{dec_lt}
use bright_s.Base.{
  ℕ, zero, suc, ◌+◌, ◌%◌, ◌^◌, ◌<◌, ◌≡◌, refl, ap, sym, subst, ◌∙◌, List, [], ◌∷◌, none, some, set,
  length, arith, Bool-cases, Option-cases, inl, inr, ltb, ◌⊎◌, if◌then◌else◌, not, Bool, true,
  false, ◌==◌, ◌||◌, ◌&&◌,
}
use bright_s.Base.Int.{pos, minus_one}
use bright_s.Hook.{Hook, Hooks, entry, released, syshook_max, ringbuf_size}
use bright_s.Hook.Calls.{
  find_inactive, register, registered, owns, unregister, poll, cleanup_loop, cleanup_pid,
}
use bright_s.Hook.Ring.{IsValid, ringbuf_pop-Popped}
use bright_s.Hook.Delivery.{hook_at, Inv, zeroed-IsValid, set-Inv, released-IsValid, outside}

-- The search of `brights_sys_hook_register` finds a hook that is not active.
pub find_inactive_lem :
    (k : ℕ) (hs : List Hook) (i : ℕ)
    → find_inactive k hs ≡ some i
    → (j : ℕ) × (i ≡ k + j) × (j < length hs) × ((hook_at hs j).active ≡ false)
unfolding find_inactive
find_inactive_lem k [] i e = absurd (ground arith)
find_inactive_lem k (h ∷ hs) i e = pick (Bool-cases h.active) (find_inactive_lem (k + 1) hs i)
  where
    pick :
        (h.active ≡ true) ⊎ (h.active ≡ false)
        → (find_inactive (k + 1) hs ≡ some i
            → (j : ℕ) × (i ≡ k + 1 + j) × (j < length hs) × ((hook_at hs j).active ≡ false))
        → (j : ℕ) × (i ≡ k + j) × (j < length (h ∷ hs)) × ((hook_at (h ∷ hs) j).active ≡ false)
    pick (inr idle) ih = (0, ground arith, omega arith, idle)
    pick (inl busy) ih =
        let (j, at, inside, idle) = ih (ground arith) in (suc j, omega arith, omega arith, idle)

registered-IsValid :
    (pid lo hi flags : ℕ) (h : Hook) → IsValid h → IsValid (registered pid lo hi flags h)
registered-IsValid pid lo hi flags h v = record {
  size = v.size;
  rd_in = omega arith;
  count_in = omega arith;
  wr_at = refl;
}

if_ready : {A : Type 0} (b : Bool) (x y : A) → b ≡ true → (if not b then x else y) ≡ y
if_ready b x y e = rw e refl

-- After brights_syshook_init, brights_sys_hook_register takes a hook that is not active, empties
-- it, and gives it to the process with the masks and flags that it asks for; if there is none,
-- it fails and changes nothing.
pub register_lem :
    (s : Hooks) (pid lo hi flags : ℕ)
    → s.initialized ≡ true
    → ((find_inactive 0 s.table ≡ none) × (register s pid lo hi flags ≡ (minus_one, s)))
      ⊎ ((slot : ℕ) × (slot < length s.table)
          × ((entry s slot).active ≡ false)
          × (register s pid lo hi flags ≡ (
            pos slot,
            record s {
              table = set s.table slot (registered pid lo hi flags (entry s slot));
              hooks_created = (s.hooks_created + 1) % 2 ^ 64;
            },
          )))
unfolding register
register_lem s pid lo hi flags ready = elim (Option-cases (find_inactive 0 s.table)) [
  | inl used_up ↦
      inl (used_up, if_ready s.initialized (minus_one, s) _ ready ∙ rw (used_up, register) refl)
  | inr (slot, found) ↦
      let (j, at, inside, idle) = find_inactive_lem 0 s.table slot found in
      let same : slot ≡ j = omega arith in
      inr (
        slot,
        omega arith,
        ap (λ m. (entry s m).active) same ∙ idle,
        if_ready s.initialized (minus_one, s) _ ready ∙ rw (found, register) refl,
      )
]

pub register-Inv :
    (s : Hooks) (pid lo hi flags : ℕ) → Inv s.table → Inv (register s pid lo hi flags).1.table
unfolding register
register-Inv s pid lo hi flags v = elim (Bool-cases s.initialized) [
  | inr early ↦ rw early v
  | inl ready ↦ elim (register_lem s pid lo hi flags ready) [
    | inl used_up ↦ rw used_up.1 v
    | inr (slot, inside, idle, r) ↦ rw r (
        set-Inv s.table slot _ (omega (arith, v.full)) v
          (registered-IsValid pid lo hi flags (entry s slot) (v.rings slot)))
  ]
]

pub owns_lem :
    (s : Hooks) (pid k : ℕ)
    → owns s pid k ≡ true
    → (s.initialized ≡ true)
      × (k < syshook_max)
      × ((entry s k).active ≡ true)
      × ((entry s k).owner_pid ≡ pid)
unfolding owns
owns_lem s pid k e = (ground arith, ground arith, ground arith, ground arith)

pub unregister-Inv : (s : Hooks) (pid k : ℕ) → Inv s.table → Inv (unregister s pid k).1.table
unfolding unregister
unregister-Inv s pid k v = elim (Bool-cases (owns s pid k)) [
  | inr denied ↦ rw denied v
  | inl own ↦
      rw own
        (set-Inv s.table k _ (owns_lem s pid k own).1 v (released-IsValid (entry s k) (v.rings k)))
]

pub poll-Inv : (s : Hooks) (pid k va n : ℕ) → Inv s.table → Inv (poll s pid k va n).2.table
unfolding poll
poll-Inv s pid k va n v = elim (Bool-cases (va == 0 || n == 0 || not (owns s pid k))) [
  | inl denied ↦ rw denied v
  | inr granted ↦ rw granted (
      set-Inv s.table k _ (owns_lem s pid k (ground arith)).1 v
        (ringbuf_pop-Popped (if ltb ringbuf_size n then ringbuf_size else n) (entry s k)
          (v.rings k)).valid)
]

length-cleanup_loop : (pid : ℕ) (hs : List Hook) → length (cleanup_loop pid hs) ≡ length hs
unfolding cleanup_loop
length-cleanup_loop pid [] = refl
length-cleanup_loop pid (h ∷ hs) = ap suc (length-cleanup_loop pid hs)

-- Exactly the hooks of the process are released.
pub cleanup_loop_lem :
    (pid : ℕ) (hs : List Hook) (i : ℕ)
    → i < length hs
    → hook_at (cleanup_loop pid hs) i ≡ (
        if (hook_at hs i).active && (hook_at hs i).owner_pid == pid
        then released (hook_at hs i)
        else hook_at hs i)
unfolding cleanup_loop
cleanup_loop_lem pid [] i h = absurd (omega arith)
cleanup_loop_lem pid (x ∷ hs) zero h = refl
cleanup_loop_lem pid (x ∷ hs) (suc i) h = cleanup_loop_lem pid hs i (omega arith)

pub cleanup-Inv : (s : Hooks) (pid : ℕ) → Inv s.table → Inv (cleanup_pid s pid).table
unfolding cleanup_pid
cleanup-Inv s pid v = elim (Bool-cases (not s.initialized || pid == 0)) [
  | inl nothing ↦ rw nothing v
  | inr some_pid ↦ rw some_pid (record {
    full = length-cleanup_loop pid s.table ∙ v.full;
    rings = λ i. elim (dec_lt i (length s.table)) [
      | yes inside ↦
          subst IsValid (sym (cleanup_loop_lem pid s.table i inside))
            (elim (Bool-cases
              ((hook_at s.table i).active && (hook_at s.table i).owner_pid == pid)) [
                | inl mine ↦ rw mine (released-IsValid (hook_at s.table i) (v.rings i))
                | inr other ↦ rw other (v.rings i)
              ])
      | no beyond ↦
          subst IsValid
            (sym (
              outside (cleanup_loop pid s.table) i
                (λ k. beyond (omega (arith, length-cleanup_loop pid s.table)))))
            zeroed-IsValid
    ];
  })
]
