-- ===== src/Hook/Ring.antt =====
-- kernel/syshook.c: one hook's ring against the queue of the last 64 events.
use bright_s.Base.{
  ℕ, zero, suc, ◌+◌, ◌-◌, ◌%◌, ◌^◌, ◌≤◌, ◌<◌, ◌≡◌, refl, ap, sym, ◌∙◌, List, [], ◌∷◌, ◌++◌, get_or,
  set, take, drop, length, length-set, length-append, length-drop, arith, Bool-cases, inl, inr, leb,
  ltb,
}
use bright_s.Base.Window.{window, length-window, window-set, window_of_pos}
use bright_s.Base.Splice.{drop-append_le, drop-drop}
use bright_s.Hook.{Event, Hook, ringbuf_size, no_event, ringbuf_push, drop_event, ringbuf_pop}

-- The indices lie in the ring, and the write index is `count` cells past the read index.
pub record IsValid (h : Hook) : Type 0 where
  pub size : length h.ringbuf ≡ ringbuf_size
  pub rd_in : h.rd < ringbuf_size
  pub count_in : h.count ≤ ringbuf_size
  pub wr_at : h.wr ≡ (h.rd + h.count) % ringbuf_size

-- The events that wait in a hook, oldest first.
abbrev pub pending : Hook → List Event
pending h = window no_event ringbuf_size h.ringbuf h.rd h.count

-- The last 64 events of a sequence.
abbrev pub last_events : List Event → List Event
last_events es = drop (length es - ringbuf_size) es

pub length-pending : (h : Hook) → length (pending h) ≡ h.count
length-pending h = length-window no_event ringbuf_size h.ringbuf h.rd h.count

pub ringbuf_push-IsValid : (h : Hook) (evt : Event) → IsValid h → IsValid (ringbuf_push h evt)
unfolding ringbuf_push
ringbuf_push-IsValid h evt v = elim (Bool-cases (leb ringbuf_size h.count)) [
  | inl full ↦ rw full (record {
    size = length-set h.ringbuf h.wr evt ∙ v.size;
    rd_in = omega arith;
    count_in = v.count_in;
    wr_at = ground (arith, v.wr_at, v.count_in);
  })
  | inr room ↦ rw room (record {
    size = length-set h.ringbuf h.wr evt ∙ v.size;
    rd_in = v.rd_in;
    count_in = ground arith;
    wr_at = ground (arith, v.wr_at, v.count_in);
  })
]

-- A push makes the event the newest, and the oldest of 64 is lost to it.
pub pending-ringbuf_push :
    (h : Hook) (evt : Event)
    → IsValid h
    → pending (ringbuf_push h evt) ≡ last_events (pending h ++ (evt ∷ []))
unfolding ringbuf_push
pending-ringbuf_push h evt v = elim (Bool-cases (leb ringbuf_size h.count)) [
  | inr room ↦
      let fits : h.count < ringbuf_size = ground arith in
      let next : (h.count + 1) % 2 ^ 32 ≡ suc h.count = omega arith in
      let none_lost : length (pending h ++ (evt ∷ [])) - ringbuf_size ≡ 0 =
        omega (arith, length-append (pending h) (evt ∷ []), length-pending h) in
      rw (room, next)
        (window-set no_event ringbuf_size h.ringbuf h.rd h.count h.wr evt (omega (arith, v.size))
            v.rd_in fits v.wr_at
          ∙ sym (ap (λ k. drop k (pending h ++ (evt ∷ []))) none_lost))
  | inl full ↦
      let all : h.count ≡ ringbuf_size = ground (arith, v.count_in) in
      let next : (h.rd + 1) % 2 ^ 32 % ringbuf_size ≡ (h.rd + 1) % ringbuf_size =
        omega (arith, v.rd_in) in
      let one_lost : length (pending h ++ (evt ∷ [])) - ringbuf_size ≡ 1 =
        omega (arith, length-append (pending h) (evt ∷ []), length-pending h) in
      let back : h.wr ≡ ((h.rd + 1) % ringbuf_size + 63) % ringbuf_size =
        omega (arith, v.wr_at, v.rd_in) in
      let first : pending h
          ≡ get_or h.ringbuf h.rd no_event
            ∷ window no_event ringbuf_size h.ringbuf ((h.rd + 1) % ringbuf_size) (h.count - 1) =
        window_of_pos no_event ringbuf_size h.ringbuf h.rd h.count (omega arith) in
      let rest : h.count - 1 ≡ 63 = omega arith in
      let count : h.count ≡ suc 63 = omega arith in
      rw (full, next)
        (ap
            (λ k.
              window no_event ringbuf_size (set h.ringbuf h.wr evt) ((h.rd + 1) % ringbuf_size) k)
            count
          ∙ (window-set no_event ringbuf_size h.ringbuf ((h.rd + 1) % ringbuf_size) 63 h.wr evt
                (omega (arith, v.size)) (omega arith) (omega arith) back
              ∙ (sym (
                    ap (λ r. drop 1 (r ++ (evt ∷ [])))
                      (first
                        ∙ ap
                            (λ k.
                              get_or h.ringbuf h.rd no_event
                              ∷ window no_event ringbuf_size h.ringbuf ((h.rd + 1) % ringbuf_size)
                                  k)
                            rest))
                  ∙ sym (ap (λ k. drop k (pending h ++ (evt ∷ []))) one_lost))))
]

drop_event-IsValid : (h : Hook) → IsValid h → 0 < h.count → IsValid (drop_event h)
drop_event-IsValid h v c = omega arith

-- What a pop of at most n events has done when it stops.
pub record Popped (n : ℕ) (h : Hook) (r : List Event × Hook) : Type 0 where
  pub valid : IsValid r.1
  pub out : r.0 ≡ take n (pending h)
  pub rest : pending r.1 ≡ drop n (pending h)
  pub kind :
      (r.1.active ≡ h.active)
      × (r.1.owner_pid ≡ h.owner_pid)
      × (r.1.watch_lo ≡ h.watch_lo)
      × (r.1.watch_hi ≡ h.watch_hi)
      × (r.1.flags ≡ h.flags)
  pub stats : (r.1.total_events ≡ h.total_events) × (r.1.dropped_events ≡ h.dropped_events)

pub ringbuf_pop-Popped : (n : ℕ) (h : Hook) → IsValid h → Popped n h (ringbuf_pop n h)
unfolding ringbuf_pop
ringbuf_pop-Popped zero h v = record {
  valid = v;
  out = refl;
  rest = refl;
  kind = (refl, refl, refl, refl, refl);
  stats = (refl, refl);
}
ringbuf_pop-Popped (suc n) h v = elim (Bool-cases (ltb 0 h.count)) [
  | inr empty ↦
      let no_count : h.count ≡ 0 = ground arith in
      let nothing : pending h ≡ [] = unfold window in rw no_count refl in
      rw empty (record {
        valid = v;
        out = sym (ap (take (suc n)) nothing);
        rest = nothing ∙ sym (ap (drop (suc n)) nothing);
        kind = (refl, refl, refl, refl, refl);
        stats = (refl, refl);
      })
  | inl more ↦
      let some_left : 0 < h.count = ground arith in
      let ih = ringbuf_pop-Popped n (drop_event h) (drop_event-IsValid h v some_left) in
      let next : (h.rd + 1) % 2 ^ 32 % ringbuf_size ≡ (h.rd + 1) % ringbuf_size =
        omega (arith, v.rd_in) in
      let first : pending h ≡ get_or h.ringbuf h.rd no_event ∷ pending (drop_event h) =
        rw next (window_of_pos no_event ringbuf_size h.ringbuf h.rd h.count some_left) in
      rw more (record {
        valid = ih.valid;
        out = rw first (ap (λ r. get_or h.ringbuf h.rd no_event ∷ r) ih.out);
        rest = rw first ih.rest;
        kind = ih.kind;
        stats = ih.stats;
      })
]

-- What was lost before need not be kept to know the last events.
pub last_events-append :
    (xs ys : List Event) → last_events (last_events xs ++ ys) ≡ last_events (xs ++ ys)
last_events-append xs ys = elim (Bool-cases (leb (length xs) ringbuf_size)) [
  | inl few ↦
      let none_lost : length xs - ringbuf_size ≡ 0 = ground arith in
      ap (λ k. last_events (drop k xs ++ ys)) none_lost
  | inr many ↦
      let a = length xs - ringbuf_size in
      let kept : length (drop a (xs ++ ys)) - ringbuf_size ≡ length ys =
        ground (arith, length-drop a (xs ++ ys), length-append xs ys) in
      let all : a + length ys ≡ length (xs ++ ys) - ringbuf_size =
        ground (arith, length-append xs ys) in
      ap last_events (sym (drop-append_le a xs ys (omega arith)))
      ∙ ap (λ k. drop k (drop a (xs ++ ys))) kept
      ∙ drop-drop a (length ys) (xs ++ ys)
      ∙ ap (λ k. drop k (xs ++ ys)) all
]
