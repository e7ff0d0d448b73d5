-- ===== src/Ipc/Pipe/Table.antt =====
-- kernel/pipe.c: the pipe table. Each operation on every branch, and what it leaves alone.
use bright_s.Base.{
  ℕ, ◌+◌, ◌-◌, ◌≤◌, ◌<◌, min, ◌≡◌, ◌≢◌, ◌⊎◌, refl, sym, ap, ◌∙◌, List, [], ◌++◌, take, drop, length,
  length-set, length-take, take-take, get_or-set_self, length-replicate, get_or-replicate,
  get_or-set_ne, arith, true, false, some, ◌==◌, ==_refl, if◌then◌else◌, Bool-cases, inl, inr, leb,
}
use bright_s.Base.Int.{pos, minus_one}
use bright_s.Base.Window.{window}
use bright_s.Ipc.Pipe.{
  Pipe, Pipes, pipe_buf_size, max_pipes, zeroed, opened, boot, entry, store, create, get, write,
  read, close_read, close_write,
}
use bright_s.Ipc.Pipe.Fifo.{IsValid, contents, length-contents, write_loop-Wrote, read_loop-DidRead}

-- The table has its 16 entries, each a sound ring.
pub record Inv (s : Pipes) : Type 0 where
  pub full : length s.table ≡ max_pipes
  pub counted : s.count ≤ max_pipes
  pub rings : (i : ℕ) → IsValid (entry s i)

-- The table that the kernel starts with is sound.
pub boot-Inv : Inv boot
unfolding boot zeroed
boot-Inv = record {
  full = length-replicate max_pipes zeroed;
  counted = omega arith;
  rings = λ i. rw (get_or-replicate max_pipes i zeroed) zeroed-IsValid;
}
  where
    zeroed-IsValid : IsValid zeroed
    zeroed-IsValid = record {
      size = length-replicate {A = ℕ} pipe_buf_size 0;
      rd_in = omega arith;
      len_in = omega arith;
      wr_at = refl;
    }

pub entry-store :
    (s : Pipes) (i j : ℕ) (p : Pipe)
    → Inv s
    → i < max_pipes
    → entry (store s i p) j ≡ (if i == j then p else entry s j)
entry-store s i j p v h = elim (Bool-cases (i == j)) [
  | inl same ↦
      let e : i ≡ j = ground arith in
      rw (same, ← e) (get_or-set_self s.table i p zeroed (omega (arith, v.full)))
  | inr apart ↦ rw apart (get_or-set_ne s.table i j p zeroed (ground arith))
]

pub store-Inv :
    (s : Pipes) (i : ℕ) (p : Pipe) → Inv s → i < max_pipes → IsValid p → Inv (store s i p)
store-Inv s i p v h w = record {
  full = length-set s.table i p ∙ v.full;
  counted = v.counted;
  rings = λ j. rw (entry-store s i j p v h) (pick j);
}
  where
    pick : (j : ℕ) → IsValid (if i == j then p else entry s j)
    pick j = elim (Bool-cases (i == j)) [ inl e ↦ rw e w | inr e ↦ rw e (v.rings j) ]

-- Storing a pipe with the same contents changes no contents.
pub contents-store :
    (s : Pipes) (i j : ℕ) (p : Pipe)
    → Inv s
    → i < max_pipes
    → contents p ≡ contents (entry s i)
    → contents (entry (store s i p) j) ≡ contents (entry s j)
contents-store s i j p v h e = elim (Bool-cases (i == j)) [
  | inl same ↦ let ij : i ≡ j = ground arith in rw (entry-store s i j p v h, same) (rw (← ij) e)
  | inr apart ↦ rw (entry-store s i j p v h, apart) refl
]

-- A fresh pipe: empty, with both ends open.
pub record IsFresh (p : Pipe) : Type 0 where
  pub empty : contents p ≡ []
  pub reading : p.read_end_open ≡ true
  pub writing : p.write_end_open ≡ true

abbrev pub created : Pipes → Pipes
created s = record (store s s.count (opened (entry s s.count))) { count = s.count + 1 }

entry-created :
    (s : Pipes) (j : ℕ)
    → Inv s
    → s.count < max_pipes
    → entry (created s) j ≡ (if s.count == j then opened (entry s s.count) else entry s j)
entry-created s j v h = entry-store s s.count j (opened (entry s s.count)) v h

opened-IsValid : (p : Pipe) → IsValid p → IsValid (opened p)
opened-IsValid p v = omega arith

opened-IsFresh : (p : Pipe) → IsFresh (opened p)
opened-IsFresh p = record { empty = unfold window in refl; reading = refl; writing = refl }

created-Inv : (s : Pipes) → Inv s → s.count < max_pipes → Inv (created s)
created-Inv s v h =
    let kept =
      store-Inv s s.count (opened (entry s s.count)) v h (opened-IsValid _ (v.rings s.count)) in
    record { full = kept.full; counted = omega arith; rings = kept.rings }

-- In a sound table, while fewer than 16 pipes were made, brights_pipe_create returns the next
-- index, at which brights_pipe_get finds an empty pipe with both ends open, changes no other
-- pipe and keeps the invariant; after that it fails and changes nothing.
pub create_lem :
    (s : Pipes)
    → Inv s
    → let (r, t) = create s in
      ((s.count ≡ max_pipes) × (r ≡ minus_one) × (t ≡ s))
      ⊎ ((r ≡ pos s.count)
          × (get t r ≡ some s.count)
          × IsFresh (entry t s.count)
          × ((j : ℕ) → j ≢ s.count → entry t j ≡ entry s j)
          × Inv t)
unfolding create get
create_lem s v = elim (Bool-cases (leb max_pipes s.count)) [
  | inl used_up ↦ rw used_up (inl (ground arith, refl, refl))
  | inr room ↦
      let h : s.count < max_pipes = ground arith in
      rw room (
        inr (
          refl,
          ground arith,
          rw (entry-created s s.count v h, ==_refl s.count) (opened-IsFresh (entry s s.count)),
          λ j apart. rw (entry-created s j v h) (ground arith),
          created-Inv s v h,
        ))
]

-- brights_pipe_write through a pointer to a made pipe of a sound table whose write end is open
-- takes as many bytes as there is room for, appends exactly those, in order, to what the pipe
-- holds, returns their number, changes no other pipe and keeps the invariant. With the write end
-- closed it returns -1 and changes nothing.
pub write_lem :
    (s : Pipes) (i : ℕ) (src : List ℕ) (n : ℕ)
    → Inv s
    → i < s.count
    → n ≤ length src
    → let p = entry s i in
      let (r, t) = write s (some i) (some src) n in
      let k = min n (pipe_buf_size - length (contents p)) in
      ((p.write_end_open ≡ false) × (r ≡ minus_one) × (t ≡ s))
      ⊎ ((p.write_end_open ≡ true)
          × (r ≡ pos k)
          × (contents (entry t i) ≡ contents p ++ take k src)
          × ((j : ℕ) → j ≢ i → entry t j ≡ entry s j)
          × Inv t)
unfolding write
write_lem s i src n v h len = elim (Bool-cases (entry s i).write_end_open) [
  | inr closed ↦ rw closed (inl (refl, refl, refl))
  | inl open_end ↦
      let p = entry s i in
      let w = write_loop-Wrote (take n src) p 0 (v.rings i) in
      let ih : i < max_pipes = omega (arith, v.counted) in
      rw open_end (
        inr (
          refl,
          ap pos (omega (arith, w.count, length-take n src, length-contents p)),
          rw (entry-store s i i _ v ih, ==_refl i)
              (w.bytes
                ∙ ap (λ r. contents p ++ r)
                    (take-take (pipe_buf_size - p.len) n src
                      ∙ ap (λ k. take (min n (pipe_buf_size - k)) src) (sym (length-contents p)))),
          λ j apart. rw (entry-store s i j _ v ih) (ground arith),
          store-Inv s i _ v ih w.valid,
        ))
]

-- brights_pipe_read through a pointer to a made pipe of a sound table stores the oldest bytes of
-- the pipe, in order, as many as were asked for and no more than there are, returns their
-- number, leaves the others in the pipe, changes no other pipe and keeps the invariant.
pub read_lem :
    (s : Pipes) (i n : ℕ)
    → Inv s
    → i < s.count
    → let p = entry s i in
      let (r, out, t) = read s (some i) true n in
      (r ≡ pos (min n (length (contents p))))
      × (out ≡ take n (contents p))
      × (contents (entry t i) ≡ drop n (contents p))
      × ((j : ℕ) → j ≢ i → entry t j ≡ entry s j)
      × Inv t
unfolding read
read_lem s i n v h =
    let p = entry s i in
    let w = read_loop-DidRead n p (v.rings i) in
    let ih : i < max_pipes = omega (arith, v.counted) in
    (
      ap pos (ap length w.bytes ∙ length-take n (contents p)),
      w.bytes,
      rw (entry-store s i i _ v ih, ==_refl i) w.rest,
      λ j apart. rw (entry-store s i j _ v ih) (ground arith),
      store-Inv s i _ v ih w.valid,
    )

pub close_write-Inv : (s : Pipes) (i : ℕ) → Inv s → i < s.count → Inv (close_write s (some i))
unfolding close_write
close_write-Inv s i v h =
    store-Inv s i _ v (omega (arith, v.counted)) (let w = v.rings i in omega arith)

pub close_read-Inv : (s : Pipes) (i : ℕ) → Inv s → i < s.count → Inv (close_read s (some i))
unfolding close_read
close_read-Inv s i v h =
    store-Inv s i _ v (omega (arith, v.counted)) (let w = v.rings i in omega arith)

-- In a sound table, closing the write end of a made pipe keeps what it holds, makes every later
-- write to it fail, and changes no other pipe.
pub close_write_lem :
    (s : Pipes) (i : ℕ)
    → Inv s
    → i < s.count
    → let t = close_write s (some i) in
      (contents (entry t i) ≡ contents (entry s i))
      × ((src : List ℕ) (n : ℕ) → write t (some i) (some src) n ≡ (minus_one, t))
      × ((j : ℕ) → j ≢ i → entry t j ≡ entry s j)
unfolding close_write write
close_write_lem s i v h =
    let ih : i < max_pipes = omega (arith, v.counted) in
    let q = record (entry s i) { write_end_open = false } in
    let here : entry (store s i q) i ≡ q = rw (entry-store s i i q v ih, ==_refl i) in
    (rw here refl, λ src n. rw here refl, λ j apart. rw (entry-store s i j q v ih) (ground arith))
