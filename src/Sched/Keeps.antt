-- ===== src/Sched/Keeps.antt =====
-- kernel/sched.c: the steps of a switch leave the process ids and, but for the dispatch, the
-- scheduler's variables.
use bright_s.Base.{
  ℕ, zero, suc, ◌≡◌, refl, ◌∙◌, List, [], ◌∷◌, Option, none, some, length, set, length-set,
  Bool-cases, Option-cases, inl, inr,
}
use bright_s.Proc.{ProcInfo, TrapFrame, proc_at, is_running}
use bright_s.Sched.{Cpu, get_proc_by_slot}
use bright_s.Sched.Switch.{save_at, save_context, restore_at, restore_context, dispatched, demoted}

-- The same processes at the same places.
pub record SamePids (t u : List ProcInfo) : Type 0 where
  pub size : length u ≡ length t
  pub pids : (i : ℕ) → (proc_at u i).pid ≡ (proc_at t i).pid

pub SamePids-refl : (t : List ProcInfo) → SamePids t t
SamePids-refl t = record { size = refl; pids = λ i. refl }

pub SamePids-trans : (t u v : List ProcInfo) → SamePids t u → SamePids u v → SamePids t v
SamePids-trans t u v a b = record { size = b.size ∙ a.size; pids = λ i. b.pids i ∙ a.pids i }

pub set-SamePids :
    (t : List ProcInfo) (i : ℕ) (p : ProcInfo) → p.pid ≡ (proc_at t i).pid → SamePids t (set t i p)
set-SamePids t i p e = record { size = length-set t i p; pids = pids t i e }
  where
    pids :
        (t : List ProcInfo) (i : ℕ)
        → p.pid ≡ (proc_at t i).pid
        → (j : ℕ) → (proc_at (set t i p) j).pid ≡ (proc_at t j).pid
    pids [] i e j = refl
    pids (q ∷ t) zero e zero = e
    pids (q ∷ t) zero e (suc j) = refl
    pids (q ∷ t) (suc i) e zero = refl
    pids (q ∷ t) (suc i) e (suc j) = pids t i e j

pub record Keeps (k l : Cpu) : Type 0 where
  pub sched : l.sched ≡ k.sched
  pub table : SamePids k.table l.table

pub Keeps-refl : (k : Cpu) → Keeps k k
Keeps-refl k = record { sched = refl; table = SamePids-refl k.table }

pub Keeps-trans : (k l m : Cpu) → Keeps k l → Keeps l m → Keeps k m
Keeps-trans k l m a b = record {
  sched = b.sched ∙ a.sched;
  table = SamePids-trans k.table l.table m.table a.table b.table;
}

save_at-Keeps : (k : Cpu) (i : ℕ) (tf : Option TrapFrame) → Keeps k (save_at k i tf)
save_at-Keeps k i none = Keeps-refl k
save_at-Keeps k i (some tf) = record { sched = refl; table = set-SamePids k.table i _ refl }

pub save_context-Keeps : (k : Cpu) (slot : ℕ) → Keeps k (save_context k slot)
unfolding save_context
save_context-Keeps k slot = elim (Option-cases (get_proc_by_slot k.sched slot)) [
  | inl e ↦ rw (e, save_context) (Keeps-refl k)
  | inr (i, e) ↦ rw (e, save_context) (save_at-Keeps k i k.trap_frame)
]

pub demoted-Keeps : (k : Cpu) (slot : ℕ) → Keeps k (demoted k slot)
unfolding demoted
demoted-Keeps k slot = elim (Option-cases (get_proc_by_slot k.sched slot)) [
  | inl e ↦ rw (e, demoted) (Keeps-refl k)
  | inr (i, e) ↦
      rw (e, demoted)
        (elim (Bool-cases (is_running (proc_at k.table i).state)) [
          | inl runs ↦ rw runs (record { sched = refl; table = set-SamePids k.table i _ refl })
          | inr rests ↦ rw rests (Keeps-refl k)
        ])
]

restore_at-Keeps : (k : Cpu) (p : ProcInfo) (tf : Option TrapFrame) → Keeps k (restore_at k p tf)
unfolding restore_at
restore_at-Keeps k p none = Keeps-refl k
restore_at-Keeps k p (some tf) = record { sched = refl; table = SamePids-refl k.table }

pub restore_context-Keeps : (k : Cpu) (slot : ℕ) → Keeps k (restore_context k slot)
unfolding restore_context
restore_context-Keeps k slot = elim (Option-cases (get_proc_by_slot k.sched slot)) [
  | inl e ↦ rw (e, restore_context) (Keeps-refl k)
  | inr (i, e) ↦ rw (e, restore_context) (restore_at-Keeps k (proc_at k.table i) k.trap_frame)
]

pub dispatched-SamePids : (k : Cpu) (i : ℕ) → SamePids k.table (dispatched k i).table
unfolding dispatched
dispatched-SamePids k i = set-SamePids k.table i _ refl
