-- ===== src/Proc/Search.antt =====
-- kernel/proc.c: what the searches of the table find.
use bright_s.Base.{
  ℕ, suc, ◌+◌, ◌<◌, ◌≡◌, ◌⊎◌, subst, List, [], ◌∷◌, none, some, true, false, not, ◌==◌, ◌&&◌, ◌||◌,
  leb, if◌then◌else◌, length, get_or, arith, Bool-cases, inl, inr,
}
use bright_s.Word.{complement, lowest, lowest_lem}
use bright_s.Proc.{ProcInfo, proc_at, is_unused}
use bright_s.Proc.Table.{Procs, proc_max, pid_range, get_by_pid, find_free_slot, find_live}
use bright_s.Proc.Life.{find_unused}
use bright_s.Proc.Sound.{live}

pub find_live_lem :
    (k : ℕ) (t : List ProcInfo) (pid i : ℕ)
    → find_live k t pid ≡ some i
    → (j : ℕ) × (i ≡ k + j)
      × (j < length t)
      × ((proc_at t j).pid ≡ pid)
      × (live (proc_at t j) ≡ true)
unfolding find_live
find_live_lem k [] pid i e = absurd (ground arith)
find_live_lem k (p ∷ t) pid i e =
    pick (Bool-cases (p.pid == pid && not (is_unused p.state))) (find_live_lem (k + 1) t pid i)
  where
    pick :
        ((p.pid == pid && not (is_unused p.state)) ≡ true)
          ⊎ ((p.pid == pid && not (is_unused p.state)) ≡ false)
        → (find_live (k + 1) t pid ≡ some i
            → (j : ℕ) × (i ≡ k + 1 + j)
              × (j < length t)
              × ((proc_at t j).pid ≡ pid)
              × (live (proc_at t j) ≡ true))
        → (j : ℕ) × (i ≡ k + j)
          × (j < length (p ∷ t))
          × ((proc_at (p ∷ t) j).pid ≡ pid)
          × (live (proc_at (p ∷ t) j) ≡ true)
    pick (inl found) ih = (0, ground arith, omega arith, ground arith, ground arith)
    pick (inr other) ih =
        let (j, at, inside, has, lives) = ih (ground arith) in
        (suc j, omega arith, omega arith, has, lives)

pub find_unused_lem :
    (k : ℕ) (t : List ProcInfo) (i : ℕ)
    → find_unused k t ≡ some i
    → (j : ℕ) × (i ≡ k + j) × (j < length t)
unfolding find_unused
find_unused_lem k [] i e = absurd (ground arith)
find_unused_lem k (p ∷ t) i e = pick (Bool-cases (is_unused p.state)) (find_unused_lem (k + 1) t i)
  where
    pick :
        (is_unused p.state ≡ true) ⊎ (is_unused p.state ≡ false)
        → (find_unused (k + 1) t ≡ some i → (j : ℕ) × (i ≡ k + 1 + j) × (j < length t))
        → (j : ℕ) × (i ≡ k + j) × (j < length (p ∷ t))
    pick (inl found) ih = (0, ground arith, omega arith)
    pick (inr other) ih =
        let (j, at, inside) = ih (ground arith) in (suc j, omega arith, omega arith)

pub get_by_pid_lem :
    (s : Procs) (pid i : ℕ)
    → get_by_pid s pid ≡ some i
    → (i < proc_max) × ((proc_at s.table i).pid ≡ pid) × (live (proc_at s.table i) ≡ true)
unfolding get_by_pid
get_by_pid_lem s pid i e = pick (get_or s.pid_to_index pid 0) e
  where
    pick :
        (idx : ℕ)
        → (if pid == 0 || leb pid_range pid
            then none
            else if leb proc_max idx
            then none
            else if not ((proc_at s.table idx).pid == pid) || is_unused (proc_at s.table idx).state
            then none
            else some idx)
          ≡ some i
        → (i < proc_max) × ((proc_at s.table i).pid ≡ pid) × (live (proc_at s.table i) ≡ true)
    pick idx e =
        let same : idx ≡ i = ground arith in
        subst
          (λ k.
            (k < proc_max) × ((proc_at s.table k).pid ≡ pid) × (live (proc_at s.table k) ≡ true))
          same (ground arith, ground arith, ground arith)

pub find_free_slot_lem : (s : Procs) (slot : ℕ) → find_free_slot s ≡ some slot → slot < proc_max
unfolding find_free_slot
find_free_slot_lem s slot e = elim (Bool-cases (complement 64 s.free_slots_bitmap == 0)) [
  | inl full ↦ absurd (ground arith)
  | inr room ↦
      let l = lowest_lem 64 (complement 64 s.free_slots_bitmap) (omega arith) (ground arith) in
      let at : lowest 64 (complement 64 s.free_slots_bitmap) ≡ slot = ground arith in
      omega (arith, at, l.0)
]
