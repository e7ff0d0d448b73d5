-- ===== src/Hook/Isolation.antt =====
-- kernel/syshook.c: what other processes do to a hook. They can put events into it, and nothing
-- else.
use mathlib.Core.Bool.{false≢true}
use bright_s.Base.{
  ℕ, ◌<◌, ◌≡◌, ◌≢◌, refl, ap, sym, subst, ◌∙◌, List, [], ◌∷◌, ◌++◌, drop, ◌-◌, set, length, arith,
  Bool-cases, inl, inr, append_assoc, append-nil, if◌then◌else◌, not, Bool, true, false, ◌==◌, ◌||◌,
  ◌&&◌, get_or-set_ne,
}
use bright_s.Base.Members.{All}
use bright_s.Hook.{
  Event, Hook, Hooks, zeroed, entry, released, ringbuf_push, syshook_max, ringbuf_size,
  hook_watches_syscall,
}
use bright_s.Hook.Calls.{
  deliver, notify, broadcast, register, owns, unregister, poll, cleanup_pid, wants_syscall,
  wants_broadcast, syscall_event, broadcast_event,
}
use bright_s.Hook.Ring.{
  IsValid, pending, last_events, pending-ringbuf_push, last_events-append, length-pending,
}
use bright_s.Hook.Delivery.{Inv, hook_at, deliver_lem}
use bright_s.Hook.Table.{owns_lem, register_lem, cleanup_loop_lem}
use bright_s.Hook.Steps.{
  Call, notifies, broadcasts, registers, unregisters, polls, cleans_up, step, step-Inv,
}

-- A call that no owner of the hook makes to take or release it: system calls and broadcasts of
-- any process, and any other call of a process that is not the owner.
abbrev pub IsForeign : ℕ → Call → Type 0
IsForeign owner (unregisters pid k) = pid ≢ owner
IsForeign owner (polls pid k va n) = pid ≢ owner
IsForeign owner (cleans_up pid) = pid ≢ owner
IsForeign owner _ = Unit {0}

-- The event that a call offers to a hook which watches for it.
abbrev pub offered : Hook → Call → List Event
offered h (notifies phase num args ret pid tsc) =
    if wants_syscall phase num h then syscall_event phase num args ret pid tsc ∷ [] else []
offered h (broadcasts pid a b) = if wants_broadcast h then broadcast_event pid a b ∷ [] else []
offered h _ = []

-- A hook after some calls: nothing but its ring has changed, which holds the last 64 of the
-- events that were there or were added.
pub record Grown (h g : Hook) (es : List Event) : Type 0 where
  pub active : g.active ≡ h.active
  pub owner : g.owner_pid ≡ h.owner_pid
  pub low : g.watch_lo ≡ h.watch_lo
  pub high : g.watch_hi ≡ h.watch_hi
  pub flags : g.flags ≡ h.flags
  pub events : pending g ≡ last_events (pending h ++ es)

same : (h : Hook) → IsValid h → Grown h h []
same h v =
    let few : length (pending h ++ []) - ringbuf_size ≡ 0 =
      omega (arith, ap length (append-nil (pending h)), length-pending h, v.count_in) in
    record {
      active = refl;
      owner = refl;
      low = refl;
      high = refl;
      flags = refl;
      events = sym (ap (λ k. drop k (pending h ++ [])) few ∙ append-nil (pending h));
    }

pushed : (h : Hook) (evt : Event) → IsValid h → Grown h (ringbuf_push h evt) (evt ∷ [])
pushed h evt v =
    unfold ringbuf_push in
    record {
      active = refl;
      owner = refl;
      low = refl;
      high = refl;
      flags = refl;
      events = pending-ringbuf_push h evt v;
    }

module _ (s : Hooks) (i : ℕ) (v : Inv s.table) (h : i < syshook_max) where
  at_least : i < length s.table
  at_least = omega (arith, v.full)

  delivered :
      (wanted : Hook → Bool) (evt : Event)
      → Grown
          (entry s i)
          (hook_at (deliver wanted evt s.table) i)
          (if wanted (entry s i) then evt ∷ [] else [])
  delivered wanted evt =
      subst (λ g. Grown (entry s i) g (if wanted (entry s i) then evt ∷ [] else []))
        (sym (deliver_lem wanted evt s.table i at_least))
        (elim (Bool-cases (wanted (entry s i))) [
          | inl yes_please ↦ rw yes_please (pushed (entry s i) evt (v.rings i))
          | inr no_thanks ↦ rw no_thanks (same (entry s i) (v.rings i))
        ])

  -- A change to another hook.
  elsewhere : (k : ℕ) (g : Hook) → k ≢ i → Grown (entry s i) (hook_at (set s.table k g) i) []
  elsewhere k g apart =
      subst (λ x. Grown (entry s i) x []) (sym (get_or-set_ne s.table k i g zeroed apart))
        (same (entry s i) (v.rings i))

  foreign_step :
      (c : Call)
      → s.initialized ≡ true
      → (entry s i).active ≡ true
      → IsForeign (entry s i).owner_pid c
      → Grown (entry s i) (entry (step s c) i) (offered (entry s i) c)
  unfolding step notify broadcast register unregister poll cleanup_pid
  foreign_step (notifies phase num args ret pid tsc) ready busy k =
      rw ready (delivered (wants_syscall phase num) (syscall_event phase num args ret pid tsc))
  foreign_step (broadcasts pid a b) ready busy k =
      rw ready (delivered wants_broadcast (broadcast_event pid a b))
  foreign_step (registers pid lo hi flags) ready busy k =
      elim (register_lem s pid lo hi flags ready) [
        | inl used_up ↦
            subst (λ hs. Grown (entry s i) (hook_at hs i) [])
              (sym (ap (λ t. t.table) (ap (λ r. r.1) used_up.1))) (same (entry s i) (v.rings i))
        | inr (slot, inside, idle, r) ↦
            let apart : slot ≢ i =
              λ e. false≢true (sym idle ∙ (ap (λ m. (entry s m).active) e ∙ busy)) in
            subst (λ hs. Grown (entry s i) (hook_at hs i) [])
              (sym (ap (λ t. t.table) (ap (λ r. r.1) r))) (elsewhere slot _ apart)
      ]
  foreign_step (unregisters pid k) ready busy other = elim (Bool-cases (owns s pid k)) [
    | inr denied ↦ rw (denied, step) (same (entry s i) (v.rings i))
    | inl own ↦
        rw (own, step)
          (elsewhere k _
            (λ e. other (sym (owns_lem s pid k own).3 ∙ ap (λ m. (entry s m).owner_pid) e)))
  ]
  foreign_step (polls pid k va n) ready busy other =
      elim (Bool-cases (va == 0 || n == 0 || not (owns s pid k))) [
        | inl denied ↦ rw (denied, step) (same (entry s i) (v.rings i))
        | inr granted ↦
            let own : owns s pid k ≡ true = ground arith in
            rw (granted, step)
              (elsewhere k _
                (λ e. other (sym (owns_lem s pid k own).3 ∙ ap (λ m. (entry s m).owner_pid) e)))
      ]
  foreign_step (cleans_up pid) ready busy other = elim (Bool-cases (pid == 0)) [
    | inl nobody ↦ rw (ready, nobody) (same (entry s i) (v.rings i))
    | inr some_pid ↦
        let not_mine : ((entry s i).active && (entry s i).owner_pid == pid) ≡ false =
          ground arith in
        rw (ready, some_pid)
          (subst (λ g. Grown (entry s i) g [])
            (sym (
              cleanup_loop_lem pid s.table i at_least
              ∙ ap (λ b. if b then released (entry s i) else entry s i) not_mine))
            (same (entry s i) (v.rings i)))
  ]

unfoldable pub run : Hooks → List Call → Hooks
run s [] = s
run s (c ∷ cs) = run (step s c) cs

-- What the calls of a history offer to a hook.
unfoldable pub all_offered : Hook → List Call → List Event
all_offered h [] = []
all_offered h (c ∷ cs) = offered h c ++ all_offered h cs

-- Two hooks that watch for the same are offered the same.
offered-Grown : (h g : Hook) (es : List Event) (c : Call) → Grown h g es → offered g c ≡ offered h c
unfolding hook_watches_syscall
offered-Grown h g es (notifies phase num args ret pid tsc) w =
    rw (w.active, w.flags, w.low, w.high) refl
offered-Grown h g es (broadcasts pid a b) w = rw (w.active, w.flags) refl
offered-Grown h g es (registers pid lo hi flags) w = refl
offered-Grown h g es (unregisters pid k) w = refl
offered-Grown h g es (polls pid k va n) w = refl
offered-Grown h g es (cleans_up pid) w = refl

all_offered-Grown :
    (h g : Hook) (es : List Event) (cs : List Call)
    → Grown h g es
    → all_offered g cs ≡ all_offered h cs
unfolding all_offered
all_offered-Grown h g es [] w = refl
all_offered-Grown h g es (c ∷ cs) w =
    ap (λ r. r ++ all_offered g cs) (offered-Grown h g es c w)
    ∙ ap (λ r. offered h c ++ r) (all_offered-Grown h g es cs w)

Grown-trans :
    (h g k : Hook) (es fs : List Event) → Grown h g es → Grown g k fs → Grown h k (es ++ fs)
Grown-trans h g k es fs v w = record {
  active = w.active ∙ v.active;
  owner = w.owner ∙ v.owner;
  low = w.low ∙ v.low;
  high = w.high ∙ v.high;
  flags = w.flags ∙ v.flags;
  events =
      w.events
      ∙ ap (λ r. last_events (r ++ fs)) v.events
      ∙ last_events-append (pending h ++ es) fs
      ∙ ap last_events (append_assoc (pending h) es fs);
}

step_ready : (s : Hooks) (c : Call) → s.initialized ≡ true → (step s c).initialized ≡ true
unfolding step notify broadcast register unregister poll cleanup_pid
step_ready s (notifies phase num args ret pid tsc) e = ground arith
step_ready s (broadcasts pid a b) e = ground arith
step_ready s (registers pid lo hi flags) e = elim (register_lem s pid lo hi flags e) [
  | inl used_up ↦ ap (λ r. r.1.initialized) used_up.1 ∙ e
  | inr (slot, inside, idle, r) ↦ ap (λ r. r.1.initialized) r ∙ e
]
step_ready s (unregisters pid k) e = ground arith
step_ready s (polls pid k va n) e = ground arith
step_ready s (cleans_up pid) e = ground arith

-- In a sound table after brights_syshook_init, over any history of system calls and broadcasts
-- of any process, and of registrations, removals, polls and clean-ups of hooks by processes
-- other than the owner of an active hook, that hook stays active with its owner, masks and
-- flags, and holds the last 64 of the events that it held and of those offered to it, in order;
-- a clean-up is one of another process.
pub run_keeps_hook :
    (s : Hooks) (i : ℕ) (cs : List Call)
    → Inv s.table
    → i < syshook_max
    → s.initialized ≡ true
    → (entry s i).active ≡ true
    → All (IsForeign (entry s i).owner_pid) cs
    → Grown (entry s i) (entry (run s cs) i) (all_offered (entry s i) cs)
unfolding run all_offered
run_keeps_hook s i [] v h ready busy ok = same (entry s i) (v.rings i)
run_keeps_hook s i (c ∷ cs) v h ready busy ok =
    let one = foreign_step s i v h c ready busy ok.0 in
    let rest =
      run_keeps_hook (step s c) i cs (step-Inv s c v) h (step_ready s c ready) (one.active ∙ busy)
        (subst (λ o. All (IsForeign o) cs) (sym one.owner) ok.1) in
    Grown-trans (entry s i) (entry (step s c) i) (entry (run (step s c) cs) i) _ _ one (
      subst (Grown (entry (step s c) i) (entry (run (step s c) cs) i))
        (all_offered-Grown (entry s i) (entry (step s c) i) _ cs one) rest)
