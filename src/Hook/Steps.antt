-- ===== src/Hook/Steps.antt =====
-- kernel/syshook.c: the calls that change the table of hooks keep it sound.
use bright_s.Base.{ℕ, List, Bool-cases, inl, inr}
use bright_s.Base.Int.{ℤ}
use bright_s.Hook.{Hooks}
use bright_s.Hook.Calls.{notify, broadcast, register, unregister, poll, cleanup_pid}
use bright_s.Hook.Delivery.{Inv, deliver-Inv}
use bright_s.Hook.Table.{register-Inv, unregister-Inv, poll-Inv, cleanup-Inv}

-- The calls that change the table, with the process that makes them.
pub data Call : Type 0 where
  notifies : ℕ → ℕ → List ℕ → ℤ → ℕ → ℕ → Call
  broadcasts : ℕ → ℕ → ℕ → Call
  registers : ℕ → ℕ → ℕ → ℕ → Call
  unregisters : ℕ → ℕ → Call
  polls : ℕ → ℕ → ℕ → ℕ → Call
  cleans_up : ℕ → Call

unfoldable pub step : Hooks → Call → Hooks
step s (notifies phase num args ret pid tsc) = notify s phase num args ret pid tsc
step s (broadcasts pid a b) = broadcast s pid a b
step s (registers pid lo hi flags) = (register s pid lo hi flags).1
step s (unregisters pid k) = (unregister s pid k).1
step s (polls pid k va n) = (poll s pid k va n).2
step s (cleans_up pid) = cleanup_pid s pid

pub step-Inv : (s : Hooks) (c : Call) → Inv s.table → Inv (step s c).table
unfolding step notify broadcast
step-Inv s (notifies phase num args ret pid tsc) v = elim (Bool-cases s.initialized) [
  | inr early ↦ rw early v
  | inl ready ↦ rw ready (deliver-Inv _ _ s.table v)
]
step-Inv s (broadcasts pid a b) v = elim (Bool-cases s.initialized) [
  | inr early ↦ rw early v
  | inl ready ↦ rw ready (deliver-Inv _ _ s.table v)
]
step-Inv s (registers pid lo hi flags) v = register-Inv s pid lo hi flags v
step-Inv s (unregisters pid k) v = unregister-Inv s pid k v
step-Inv s (polls pid k va n) v = poll-Inv s pid k va n v
step-Inv s (cleans_up pid) v = cleanup-Inv s pid v
