-- ===== src/Proc/Sound.antt =====
-- kernel/proc.c: ids are handed out once, and ids that were not handed out have no entry.
use native.Mathlib.Decide.{dec_lt}
use bright_s.Base.{
  ℕ, zero, suc, ◌+◌, ◌%◌, ◌^◌, ◌≤◌, ◌<◌, ◌≡◌, refl, sym, ap, subst, ◌∙◌, List, [], ◌∷◌, map, Bool,
  true, false, not, ◌==◌, if◌then◌else◌, length, get_or, set, replicate, arith, Bool-cases, inl,
  inr, length-set, length-replicate,
}
use bright_s.Base.Members.{get_or-set}
use bright_s.Proc.{ProcInfo, no_proc, proc_at, is_unused}
use bright_s.Proc.Table.{Procs, proc_max, pid_range, init, cleared, set_entry, next_pid_after}

abbrev pub live : ProcInfo → Bool
live p = not (is_unused p.state)

pub record Inv (s : Procs) : Type 0 where
  pub size : length s.table ≡ proc_max
  pub index_size : length s.pid_to_index ≡ pid_range
  pub first : 0 < s.next_pid
  pub fresh :
      (pid : ℕ) → s.next_pid ≤ pid → pid < pid_range → get_or s.pid_to_index pid 0 ≡ proc_max
  pub handed_out :
      (i : ℕ)
      → live (proc_at s.table i) ≡ true
      → (0 < (proc_at s.table i).pid) × ((proc_at s.table i).pid < s.next_pid)
  pub distinct :
      (i j : ℕ)
      → live (proc_at s.table i) ≡ true
      → live (proc_at s.table j) ≡ true
      → (proc_at s.table i).pid ≡ (proc_at s.table j).pid
      → i ≡ j

length-map : (t : List ProcInfo) → length (map cleared t) ≡ length t
length-map [] = refl
length-map (p ∷ t) = ap suc (length-map t)

cleared-idle : (t : List ProcInfo) (i : ℕ) → live (proc_at (map cleared t) i) ≡ false
cleared-idle [] i = refl
cleared-idle (p ∷ t) zero = refl
cleared-idle (p ∷ t) (suc i) = cleared-idle t i

get_or-replicate_in : (n i : ℕ) (v : ℕ) → i < n → get_or (replicate n v) i 0 ≡ v
get_or-replicate_in zero i v h = absurd (omega arith)
get_or-replicate_in (suc n) zero v h = refl
get_or-replicate_in (suc n) (suc i) v h = get_or-replicate_in n i v (omega arith)

clash : {b : Bool} → b ≡ true → b ≡ false → ⊥
clash e h = ground arith

pub init-Inv : (s : Procs) → length s.table ≡ proc_max → Inv (init s)
unfolding init
init-Inv s size = record {
  size = length-map s.table ∙ size;
  index_size = length-replicate pid_range proc_max;
  first = omega arith;
  fresh = λ pid h below. get_or-replicate_in pid_range pid proc_max below;
  handed_out = λ i h. absurd (clash h (cleared-idle s.table i));
  distinct = λ i j h h' e. absurd (clash h (cleared-idle s.table i));
}

-- An entry of which only other fields change, or that goes out of use.
pub record Same (p q : ProcInfo) : Type 0 where
  pub pid : q.pid ≡ p.pid
  pub lives : live q ≡ true → live p ≡ true

module _ (t : List ProcInfo) (i : ℕ) (p : ProcInfo) (same : Same (proc_at t i) p) where
  set_entry-Same : (j : ℕ) → Same (proc_at t j) (proc_at (set t i p) j)
  set_entry-Same j = elim (dec_lt i (length t)) [
    | yes inside ↦ elim (Bool-cases (i == j)) [
      | inl here ↦
          let e : i ≡ j = ground arith in
          subst (Same (proc_at t j))
            (sym (get_or-set t i j p no_proc inside ∙ ap (λ b. if b then p else proc_at t j) here))
            (subst (λ k. Same (proc_at t k) p) e same)
      | inr there ↦
          subst (Same (proc_at t j))
            (sym (get_or-set t i j p no_proc inside ∙ ap (λ b. if b then p else proc_at t j) there))
            (record { pid = refl; lives = λ h. h })
    ]
    | no outside ↦
        subst (λ u. Same (proc_at t j) (proc_at u j)) (sym (set-past t i p (omega arith)))
          (record { pid = refl; lives = λ h. h })
  ]
    where
      set-past : (t : List ProcInfo) (i : ℕ) (p : ProcInfo) → length t ≤ i → set t i p ≡ t
      set-past [] i p h = refl
      set-past (q ∷ t) zero p h = absurd (omega arith)
      set-past (q ∷ t) (suc i) p h = ap (λ u. q ∷ u) (set-past t i p (omega arith))

pub set_entry-Inv :
    (s : Procs) (i : ℕ) (p : ProcInfo) → Inv s → Same (proc_at s.table i) p → Inv (set_entry s i p)
set_entry-Inv s i p inv same =
    let each = set_entry-Same s.table i p same in
    record {
      size = length-set s.table i p ∙ inv.size;
      index_size = inv.index_size;
      first = inv.first;
      fresh = inv.fresh;
      handed_out = λ j h.
          let old = inv.handed_out j ((each j).lives h) in
          (omega (arith, (each j).pid, old.0), omega (arith, (each j).pid, old.1));
      distinct = λ j k h h' e.
          inv.distinct j k ((each j).lives h) ((each k).lives h')
            (sym (each j).pid ∙ (e ∙ (each k).pid));
    }

-- An entry with a new id, in place of whatever was there. The index may change below it.
pub entered-Inv :
    (s : Procs) (i slots : ℕ) (index : List ℕ) (p : ProcInfo)
    → Inv s
    → i < proc_max
    → s.next_pid + 1 < 2 ^ 32
    → p.pid ≡ s.next_pid
    → length index ≡ pid_range
    → ((pid : ℕ) → s.next_pid < pid → get_or index pid 0 ≡ get_or s.pid_to_index pid 0)
    → Inv (record (set_entry (next_pid_after s) i p) {
      pid_to_index = index;
      free_slots_bitmap = slots;
    })
entered-Inv s i slots index p inv inside small new size same =
    let next : (s.next_pid + 1) % 2 ^ 32 ≡ s.next_pid + 1 = omega arith in
    let at = λ (j : ℕ). get_or-set s.table i j p no_proc (omega (arith, inv.size)) in
    record {
      size = length-set s.table i p ∙ inv.size;
      index_size = size;
      first = omega (arith, next);
      fresh =
          λ pid h below. same pid (omega (arith, next)) ∙ inv.fresh pid (omega (arith, next)) below;
      handed_out = λ j h.
          subst
            (λ n. (0 < (proc_at (set s.table i p) j).pid) × ((proc_at (set s.table i p) j).pid < n))
            (sym next) (below j (at j) h);
      distinct = λ j k h h' e. apart j k (at j) (at k) h h' e;
    }
  where
    below :
        (j : ℕ)
        → proc_at (set s.table i p) j ≡ (if i == j then p else proc_at s.table j)
        → live (proc_at (set s.table i p) j) ≡ true
        → (0 < (proc_at (set s.table i p) j).pid)
          × ((proc_at (set s.table i p) j).pid < s.next_pid + 1)
    below j at h = elim (Bool-cases (i == j)) [
      | inl here ↦
          let e : proc_at (set s.table i p) j ≡ p =
            at ∙ ap (λ b. if b then p else proc_at s.table j) here in
          (omega (arith, ap (λ x. x.pid) e, new, inv.first), omega (arith, ap (λ x. x.pid) e, new))
      | inr there ↦
          let e : proc_at (set s.table i p) j ≡ proc_at s.table j =
            at ∙ ap (λ b. if b then p else proc_at s.table j) there in
          let old = inv.handed_out j (ap live (sym e) ∙ h) in
          (omega (arith, ap (λ x. x.pid) e, old.0), omega (arith, ap (λ x. x.pid) e, old.1))
    ]

    apart :
        (j k : ℕ)
        → proc_at (set s.table i p) j ≡ (if i == j then p else proc_at s.table j)
        → proc_at (set s.table i p) k ≡ (if i == k then p else proc_at s.table k)
        → live (proc_at (set s.table i p) j) ≡ true
        → live (proc_at (set s.table i p) k) ≡ true
        → (proc_at (set s.table i p) j).pid ≡ (proc_at (set s.table i p) k).pid
        → j ≡ k
    apart j k aj ak h h' e = elim (Bool-cases (i == j)) [
      | inl here ↦ elim (Bool-cases (i == k)) [
        | inl also ↦ ground arith
        | inr there ↦
            let ej = aj ∙ ap (λ b. if b then p else proc_at s.table j) here in
            let ek = ak ∙ ap (λ b. if b then p else proc_at s.table k) there in
            let old = inv.handed_out k (ap live (sym ek) ∙ h') in
            absurd (omega (arith, ap (λ x. x.pid) ej, ap (λ x. x.pid) ek, new, old.1))
      ]
      | inr there ↦ elim (Bool-cases (i == k)) [
        | inl here ↦
            let ej = aj ∙ ap (λ b. if b then p else proc_at s.table j) there in
            let ek = ak ∙ ap (λ b. if b then p else proc_at s.table k) here in
            let old = inv.handed_out j (ap live (sym ej) ∙ h) in
            absurd (omega (arith, ap (λ x. x.pid) ej, ap (λ x. x.pid) ek, new, old.1))
        | inr both ↦
            let ej = aj ∙ ap (λ b. if b then p else proc_at s.table j) there in
            let ek = ak ∙ ap (λ b. if b then p else proc_at s.table k) both in
            inv.distinct j k (ap live (sym ej) ∙ h) (ap live (sym ek) ∙ h')
              (ap (λ x. x.pid) (sym ej) ∙ (e ∙ ap (λ x. x.pid) ek))
      ]
    ]
