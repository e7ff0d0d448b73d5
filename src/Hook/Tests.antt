-- ===== src/Hook/Tests.antt =====
-- Hooks of kernel/syshook.c at concrete inputs.
use bright_s.Base.{
  ℕ, ◌≡◌, ◌≢◌, ◌⊎◌, ◌+◌, ◌/◌, refl, List, [], ◌∷◌, true, arith, length, take, drop, min, not, ◌||◌,
  ◌==◌, replicate,
}
use bright_s.Base.Int.{pos, minus_one}
use bright_s.Base.Window.{window}
use bright_s.Hook.{
  Hooks, boot, init, init_table, entry, zeroed, no_event, ringbuf_push, hook_watches_syscall,
}
use bright_s.Hook.Calls.{
  deliver, dispatched, notify, broadcast, find_inactive, register, owns, unregister, poll, wait,
}
use bright_s.Hook.Ring.{pending}
use bright_s.Hook.Delivery.{Inv, boot-Inv, init-Inv}
use bright_s.Hook.Steps.{Call, notifies, registers, unregisters, polls, step, step-Inv}
use bright_s.Hook.Isolation.{run, all_offered, Grown, run_keeps_hook}
use bright_s.Hook.Wait.{Waited, poll_lem, wait_lem}

unfoldable ready : Hooks
ready = init boot

-- Process 5 watches system call 4 before it runs.
unfoldable watching : Hooks
watching = step ready (registers 5 16 0 1)

watching-Inv : Inv watching.table
unfolding watching ready
watching-Inv = step-Inv (init boot) (registers 5 16 0 1) (init-Inv boot boot-Inv)

is_ready : watching.initialized ≡ true
unfolding watching ready step register init boot zeroed no_event init_table find_inactive
is_ready = refl

is_active : (entry watching 0).active ≡ true
unfolding watching ready step register init boot zeroed no_event init_table find_inactive
is_active = refl

owner : (entry watching 0).owner_pid ≡ 5
unfolding watching ready step register init boot zeroed no_event init_table find_inactive
owner = refl

-- Process 6 makes system calls 4 and 3, tries to take the event and to remove the hook.
abbrev history : List Call
history =
    notifies 0 4 (replicate 6 1) (pos 0) 6 100
    ∷ notifies 0 3 (replicate 6 2) (pos 0) 6 101
    ∷ polls 6 0 1 8
    ∷ unregisters 6 0
    ∷ []

one_event : length (pending (entry (run watching history) 0)) ≡ 1
unfolding watching ready step register init boot zeroed no_event init_table find_inactive run notify
    broadcast deliver dispatched hook_watches_syscall ringbuf_push poll unregister owns window
one_event = refl

run_keeps_hook_example :
    Grown
      (entry watching 0)
      (entry (run watching history) 0)
      (all_offered (entry watching 0) history)
run_keeps_hook_example =
    run_keeps_hook watching 0 history watching-Inv (omega arith) is_ready is_active
      (tt, (tt, (rw owner (λ e. omega arith), (rw owner (λ e. omega arith), tt))))

noticed : Hooks
noticed = run watching history

noticed-Inv : Inv noticed.table
unfolding noticed run
noticed-Inv = step-Inv _ (unregisters 6 0) (
    step-Inv _ (polls 6 0 1 8) (
      step-Inv _ (notifies 0 3 (replicate 6 2) (pos 0) 6 101)
        (step-Inv watching (notifies 0 4 (replicate 6 1) (pos 0) 6 100) watching-Inv)))

poll_lem_example :
    let h = entry noticed 0 in
    let (r, out, t) = poll noticed 5 0 1 8 in
    (((1 == 0 || 8 == 0 || not (owns noticed 5 0)) ≡ true)
      × (r ≡ minus_one)
      × (out ≡ [])
      × (t ≡ noticed))
    ⊎ ((owns noticed 5 0 ≡ true)
        × (r ≡ pos (min (min 8 64) (length (pending h))))
        × (out ≡ take (min 8 64) (pending h))
        × (pending (entry t 0) ≡ drop (min 8 64) (pending h))
        × ((j : ℕ) → 0 ≢ j → entry t j ≡ entry noticed j)
        × Inv t.table)
poll_lem_example = poll_lem noticed 5 0 1 8 noticed-Inv

owns_it : owns watching 5 0 ≡ true
unfolding watching ready step register init boot zeroed no_event init_table find_inactive owns
owns_it = refl

-- While process 5 sleeps, process 6 makes system call 4.
abbrev others : ℕ → Hooks → Hooks
others n s = step s (notifies 0 4 (replicate 6 1) (pos 0) 6 100)

wait_lem_example : Waited others watching 0 50 (wait others (50 / 10 + 2) watching 5 0 1 50)
wait_lem_example =
    wait_lem others watching 5 0 1 50
      (λ n u v. step-Inv u (notifies 0 4 (replicate 6 1) (pos 0) 6 100) v) watching-Inv
      (omega arith) (omega arith) refl owns_it
