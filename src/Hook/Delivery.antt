-- ===== src/Hook/Delivery.antt =====
-- kernel/syshook.c: sound tables of hooks, and events that are put into every hook that wants them.
use native.Mathlib.Decide.{ℕ_discrete, dec_lt}
use bright_s.Base.{
  ℕ, zero, suc, ◌<◌, ◌≡◌, refl, ap, sym, subst, ◌∙◌, List, [], ◌∷◌, get_or, set, length, length-set,
  length-replicate, get_or-replicate, arith, Bool-cases, inl, inr, if◌then◌else◌, Bool,
  get_or-set_self, get_or-set_ne,
}
use bright_s.Hook.{
  Event, Hook, Hooks, zeroed, no_event, boot, init, init_table, released, ringbuf_push, syshook_max,
  ringbuf_size,
}
use bright_s.Hook.Calls.{deliver}
use bright_s.Hook.Ring.{IsValid, ringbuf_push-IsValid}

abbrev pub hook_at : List Hook → ℕ → Hook
hook_at hs i = get_or hs i zeroed

-- 32 hooks with sound rings.
pub record Inv (hs : List Hook) : Type 0 where
  pub full : length hs ≡ syshook_max
  pub rings : (i : ℕ) → IsValid (hook_at hs i)

pub zeroed-IsValid : IsValid zeroed
unfolding zeroed
zeroed-IsValid = record {
  size = length-replicate {A = Event} ringbuf_size no_event;
  rd_in = omega arith;
  count_in = omega arith;
  wr_at = refl;
}

pub boot-Inv : Inv boot.table
unfolding boot
boot-Inv = record {
  full = length-replicate syshook_max zeroed;
  rings = λ i. rw (get_or-replicate syshook_max i zeroed) zeroed-IsValid;
}

pub set-Inv :
    (hs : List Hook) (k : ℕ) (h : Hook) → k < syshook_max → Inv hs → IsValid h → Inv (set hs k h)
set-Inv hs k h hk v w = record {
  full = length-set hs k h ∙ v.full;
  rings = λ i. elim (ℕ_discrete k i) [
    | yes same ↦
        let here = get_or-set_self hs k h zeroed (omega (arith, v.full)) in
        subst (λ j. IsValid (hook_at (set hs k h) j)) same (subst IsValid (sym here) w)
    | no apart ↦ subst IsValid (sym (get_or-set_ne hs k i h zeroed apart)) (v.rings i)
  ];
}

pub released-IsValid : (h : Hook) → IsValid h → IsValid (released h)
released-IsValid h v = record {
  size = v.size;
  rd_in = omega arith;
  count_in = omega arith;
  wr_at = refl;
}

length-init_table : (hs : List Hook) → length (init_table hs) ≡ length hs
unfolding init_table
length-init_table [] = refl
length-init_table (h ∷ hs) = ap suc (length-init_table hs)

init_table-IsValid :
    (hs : List Hook) (i : ℕ)
    → ((j : ℕ) → IsValid (hook_at hs j))
    → IsValid (hook_at (init_table hs) i)
unfolding init_table
init_table-IsValid [] i v = zeroed-IsValid
init_table-IsValid (h ∷ hs) zero v =
    let w = released-IsValid h (v 0) in
    record { size = w.size; rd_in = w.rd_in; count_in = w.count_in; wr_at = w.wr_at }
init_table-IsValid (h ∷ hs) (suc i) v = init_table-IsValid hs i (λ j. v (suc j))

pub init-Inv : (s : Hooks) → Inv s.table → Inv (init s).table
unfolding init
init-Inv s v = record {
  full = length-init_table s.table ∙ v.full;
  rings = λ i. init_table-IsValid s.table i v.rings;
}

pub length-deliver :
    (wanted : Hook → Bool) (evt : Event) (hs : List Hook)
    → length (deliver wanted evt hs) ≡ length hs
unfolding deliver
length-deliver wanted evt [] = refl
length-deliver wanted evt (h ∷ hs) = ap suc (length-deliver wanted evt hs)

-- Each hook that wants the event gets it.
pub deliver_lem :
    (wanted : Hook → Bool) (evt : Event) (hs : List Hook) (i : ℕ)
    → i < length hs
    → hook_at (deliver wanted evt hs) i
      ≡ (if wanted (hook_at hs i) then ringbuf_push (hook_at hs i) evt else hook_at hs i)
unfolding deliver
deliver_lem wanted evt [] i h = absurd (omega arith)
deliver_lem wanted evt (x ∷ hs) zero h = refl
deliver_lem wanted evt (x ∷ hs) (suc i) h = deliver_lem wanted evt hs i (omega arith)

pub outside : (hs : List Hook) (i : ℕ) → ¬ (i < length hs) → hook_at hs i ≡ zeroed
outside [] i h = refl
outside (x ∷ hs) zero h = absurd (h (omega arith))
outside (x ∷ hs) (suc i) h = outside hs i (λ k. h (omega arith))

pub deliver-Inv :
    (wanted : Hook → Bool) (evt : Event) (hs : List Hook) → Inv hs → Inv (deliver wanted evt hs)
deliver-Inv wanted evt hs v = record {
  full = length-deliver wanted evt hs ∙ v.full;
  rings = λ i. elim (dec_lt i (length hs)) [
    | yes inside ↦
        subst IsValid (sym (deliver_lem wanted evt hs i inside))
          (elim (Bool-cases (wanted (hook_at hs i))) [
            | inl yes_please ↦ rw yes_please (ringbuf_push-IsValid (hook_at hs i) evt (v.rings i))
            | inr no_thanks ↦ rw no_thanks (v.rings i)
          ])
    | no beyond ↦
        subst IsValid
          (sym (
            outside (deliver wanted evt hs) i
              (λ k. beyond (omega (arith, length-deliver wanted evt hs)))))
          zeroed-IsValid
  ];
}
