-- ===== src/Hook/Wait.antt =====
-- kernel/syshook.c: an owner takes events by polling and by waiting.
use bright_s.Base.{
  ℕ, zero, suc, ◌+◌, ◌*◌, ◌/◌, ◌%◌, ◌^◌, ◌≤◌, ◌<◌, ◌≡◌, ◌≢◌, ◌⊎◌, refl, ap, sym, ◌∙◌, List, [], ◌∷◌,
  Option, some, set, subst, length, arith, Bool-cases, inl, inr, leb, ltb, take, drop, min,
  length-take, if◌then◌else◌, not, Bool, true, false, ◌==◌, ◌||◌, ◌&&◌, get_or-set_self,
  get_or-set_ne,
}
use bright_s.Base.Window.{window}
use bright_s.Base.Int.{ℤ, pos, minus_one}
use bright_s.Hook.{Hook, Event, Hooks, zeroed, entry, syshook_max, ringbuf_size, ringbuf_pop}
use bright_s.Hook.Calls.{owns, poll, wait, wait_loop}
use bright_s.Hook.Ring.{pending, length-pending, ringbuf_pop-Popped}
use bright_s.Hook.Delivery.{Inv, set-Inv}
use bright_s.Hook.Table.{owns_lem}

abbrev pub capped : ℕ → ℕ
capped n = if ltb ringbuf_size n then ringbuf_size else n

-- In a sound table, brights_sys_hook_poll either is refused, for a null buffer, no room or a
-- hook that the process does not own, and then returns -1 and changes nothing; or it stores the
-- oldest events of the hook, in order, as many as there are, were asked for and fit a ring,
-- returns their number, keeps the others and changes no other hook.
pub poll_lem :
    (s : Hooks) (pid k va n : ℕ)
    → Inv s.table
    → let h = entry s k in
      let (r, out, t) = poll s pid k va n in
      (((va == 0 || n == 0 || not (owns s pid k)) ≡ true) × (r ≡ minus_one) × (out ≡ []) × (t ≡ s))
      ⊎ ((owns s pid k ≡ true)
          × (r ≡ pos (min (min n ringbuf_size) (length (pending h))))
          × (out ≡ take (min n ringbuf_size) (pending h))
          × (pending (entry t k) ≡ drop (min n ringbuf_size) (pending h))
          × ((j : ℕ) → k ≢ j → entry t j ≡ entry s j)
          × Inv t.table)
unfolding poll
poll_lem s pid k va n v = elim (Bool-cases (va == 0 || n == 0 || not (owns s pid k))) [
  | inl denied ↦ rw denied (inl (refl, refl, refl, refl))
  | inr granted ↦
      let own : owns s pid k ≡ true = ground arith in
      let inside : k < length s.table = omega (arith, (owns_lem s pid k own).1, v.full) in
      let m : capped n ≡ min n ringbuf_size = ground arith in
      let p = ringbuf_pop-Popped (capped n) (entry s k) (v.rings k) in
      rw granted (
        inr (
          own,
          ap pos (
              ap length p.out
              ∙ (length-take (capped n) (pending (entry s k))
                  ∙ ap (λ c. min c (length (pending (entry s k)))) m)),
          p.out ∙ ap (λ c. take c (pending (entry s k))) m,
          ap pending (get_or-set_self s.table k _ zeroed inside)
              ∙ (p.rest ∙ ap (λ c. drop c (pending (entry s k))) m),
          λ j apart. get_or-set_ne s.table k j _ zeroed apart,
          set-Inv s.table k _ (owns_lem s pid k own).1 v p.valid,
        ))
]

-- The table when n sleeps of 10 milliseconds are over: the one that begins when n * 10 milliseconds
-- have passed lets the others run from what the sleeps before it left.
abbrev pub slept : (ℕ → Hooks → Hooks) → ℕ → Hooks → Hooks
slept others zero s = s
slept others (suc n) s = others (n * 10) (slept others n s)

slept-Inv :
    (others : ℕ → Hooks → Hooks) (n : ℕ) (s : Hooks)
    → ((n : ℕ) (u : Hooks) → Inv u.table → Inv (others n u).table)
    → Inv s.table
    → Inv (slept others n s).table
slept-Inv others zero s keep v = v
slept-Inv others (suc n) s keep v = keep (n * 10) _ (slept-Inv others n s keep v)

-- How the loop of `brights_sys_hook_wait` goes on from the end of the m-th sleep: it stops at the
-- end of the n-th, with or without an event.
record Stops (others : ℕ → Hooks → Hooks) (fuel k timeout : ℕ) (s : Hooks) (m : ℕ) : Type 0 where
  pub n : ℕ
  pub found : Bool
  pub stop :
      wait_loop others fuel k timeout (m * 10) (slept others m s) ≡ some (found, slept others n s)
  pub event : not ((entry (slept others n s) k).count == 0) ≡ found
  pub over : found ≡ false → timeout ≤ n * 10
  pub before :
      (j : ℕ) → m ≤ j → j < n → ((entry (slept others j s) k).count ≡ 0) × (j * 10 < timeout)

loop-Stops :
    (others : ℕ → Hooks → Hooks) (fuel k timeout : ℕ) (s : Hooks) (m : ℕ)
    → 0 < timeout
    → timeout + 10 < 2 ^ 64
    → m * 10 < timeout + 10
    → timeout + 10 ≤ fuel * 10 + m * 10
    → Stops others fuel k timeout s m
loop-Stops others zero k timeout s m some_time small low enough = absurd (omega arith)
loop-Stops others (suc fuel) k timeout s m some_time small low enough =
    elim (Bool-cases (not ((entry (slept others m s) k).count == 0))) [
      | inl event ↦ record {
        n = m;
        found = true;
        stop = unfold wait_loop in rw event refl;
        event = event;
        over = λ q. absurd (ground arith);
        before = λ j a b. absurd (omega arith);
      }
      | inr nothing ↦ elim (Bool-cases (ltb 0 timeout && leb timeout (m * 10))) [
        | inl over ↦ record {
          n = m;
          found = false;
          stop = unfold wait_loop in rw (nothing, over) refl;
          event = nothing;
          over = λ q. ground arith;
          before = λ j a b. absurd (omega arith);
        }
        | inr again ↦
            let in_time : m * 10 < timeout = ground arith in
            go_on nothing again in_time (
              loop-Stops others fuel k timeout s (suc m) some_time small (omega arith)
                (omega arith))
      ]
    ]
  where
    empty :
        not ((entry (slept others m s) k).count == 0) ≡ false
        → (entry (slept others m s) k).count ≡ 0
    empty e = ground arith

    go_on :
        not ((entry (slept others m s) k).count == 0) ≡ false
        → (ltb 0 timeout && leb timeout (m * 10)) ≡ false
        → m * 10 < timeout
        → Stops others fuel k timeout s (suc m)
        → Stops others (suc fuel) k timeout s m
    go_on nothing again in_time r =
        let next : (m * 10 + 10) % 2 ^ 64 ≡ suc m * 10 = omega arith in
        record {
          n = r.n;
          found = r.found;
          stop = unfold wait_loop in rw (nothing, again, next) r.stop;
          event = r.event;
          over = r.over;
          before = λ j a b. elim (Bool-cases (j == m)) [
            | inl here ↦
                let e : m ≡ j = ground arith in
                subst (λ j. ((entry (slept others j s) k).count ≡ 0) × (j * 10 < timeout)) e
                  (empty nothing, in_time)
            | inr later ↦ let d : suc m ≤ j = ground arith in r.before j d b
          ];
        }

first :
    (es : List Event) → 0 < length es → (e : Event) × (take 1 es ≡ e ∷ []) × (es ≡ e ∷ drop 1 es)
first [] h = absurd (omega arith)
first (e ∷ es) h = (e, refl, refl)

-- What a wait gives: n sleeps pass, before each of which the hook was empty and the time not over.
-- Then either the hook is empty still, the time is over, and the result is 0; or the result is 1
-- with the oldest event that the n sleeps left in the hook, and that event alone is taken out.
pub record Waited (others : ℕ → Hooks → Hooks) (s : Hooks) (k timeout : ℕ)
    (r : Option (ℤ × List Event × Hooks)) : Type 0 where
  pub n : ℕ
  pub before : (j : ℕ) → j < n → (pending (entry (slept others j s) k) ≡ []) × (j * 10 < timeout)
  pub result :
      ((r ≡ some (pos 0, [], slept others n s))
        × (pending (entry (slept others n s) k) ≡ [])
        × (timeout ≤ n * 10))
      ⊎ ((e : Event) × (t : Hooks) × (r ≡ some (pos 1, e ∷ [], t))
          × (pending (entry (slept others n s) k) ≡ e ∷ pending (entry t k))
          × ((j : ℕ) → k ≢ j → entry t j ≡ entry (slept others n s) j)
          × Inv t.table)

no_pending : (h : Hook) → h.count ≡ 0 → pending h ≡ []
no_pending h e = unfold window in rw e refl

-- In a sound table, whatever the rest of the system does during the sleeps, if it keeps the
-- table sound: for the owner of a hook, a buffer and a timeout that is not 0 and less than 2^64
-- - 10, timeout / 10 + 2 rounds of the loop of brights_sys_hook_wait are enough. It sleeps n
-- times for 10 milliseconds, the hook being empty and the timeout not over before each sleep;
-- and then it returns 0, with the table as the sleeps left it, the hook empty and the timeout
-- over; or it returns 1 with the oldest event that the sleeps left in the hook, takes that one
-- out and changes no other hook.
pub wait_lem :
    (others : ℕ → Hooks → Hooks) (s : Hooks) (pid k va timeout : ℕ)
    → ((n : ℕ) (u : Hooks) → Inv u.table → Inv (others n u).table)
    → Inv s.table
    → 0 < timeout
    → timeout + 10 < 2 ^ 64
    → (va == 0) ≡ false
    → owns s pid k ≡ true
    → Waited others s k timeout (wait others (timeout / 10 + 2) s pid k va timeout)
unfolding wait
wait_lem others s pid k va timeout keep v some_time small buffer own =
    finish (
      loop-Stops others (timeout / 10 + 2) k timeout s 0 some_time small (omega arith)
        (omega arith))
  where
    inside : k < syshook_max
    inside = (owns_lem s pid k own).1

    open_case : (va == 0 || not (owns s pid k)) ≡ false
    open_case = ground arith

    empty_before :
        (a : Stops others (timeout / 10 + 2) k timeout s 0)
        → (j : ℕ) → j < a.n
        → (pending (entry (slept others j s) k) ≡ []) × (j * 10 < timeout)
    empty_before a j h =
        let b = a.before j (omega arith) h in (no_pending (entry (slept others j s) k) b.0, b.1)

    finish :
        Stops others (timeout / 10 + 2) k timeout s 0
        → Waited others s k timeout (wait others (timeout / 10 + 2) s pid k va timeout)
    finish a = elim (Bool-cases a.found) [
      | inr no_event ↦
          let u = slept others a.n s in
          let e : wait_loop others (timeout / 10 + 2) k timeout 0 s ≡ some (false, u) =
            a.stop ∙ ap (λ b. some (b, u)) no_event in
          let none_left : not ((entry u k).count == 0) ≡ false = a.event ∙ no_event in
          let no_count : (entry u k).count ≡ 0 = ground arith in
          record {
            n = a.n;
            before = empty_before a;
            result = inl (
              rw (open_case, wait) (rw (e, wait) refl),
              no_pending (entry u k) no_count,
              a.over no_event,
            );
          }
      | inl event ↦
          let u = slept others a.n s in
          let e : wait_loop others (timeout / 10 + 2) k timeout 0 s ≡ some (true, u) =
            a.stop ∙ ap (λ b. some (b, u)) event in
          let w : Inv u.table = slept-Inv others a.n s keep v in
          let h = entry u k in
          let some_count : not (h.count == 0) ≡ true = a.event ∙ event in
          let p = ringbuf_pop-Popped 1 h (w.rings k) in
          let (evt, one, split) = first (pending h) (ground (arith, length-pending h)) in
          let g = (ringbuf_pop 1 h).1 in
          let t = record u { table = set u.table k g } in
          let here : entry t k ≡ g =
            get_or-set_self u.table k g zeroed (omega (arith, inside, w.full)) in
          let out : (ringbuf_pop 1 h).0 ≡ evt ∷ [] = p.out ∙ one in
          record {
            n = a.n;
            before = empty_before a;
            result = inr (
              evt,
              t,
              rw (open_case, wait) (rw (e, wait) (rw out refl)),
              split ∙ ap (λ r. evt ∷ r) (sym (ap pending here ∙ p.rest)),
              λ j apart. get_or-set_ne u.table k j g zeroed apart,
              set-Inv u.table k g inside w p.valid,
            );
          }
    ]
