-- ===== src/Ipc/Pipe/Stream.antt =====
-- kernel/pipe.c: whole histories of calls. What goes into a pipe comes out of it in that order.
use bright_s.Base.{
  ℕ, ◌≤◌, ◌<◌, ◌≡◌, refl, sym, ap, ap₂, ◌∙◌, List, [], ◌∷◌, ◌++◌, take, length, arith, true, some,
  ◌==◌, if◌then◌else◌, Bool-cases, inl, inr, append-nil, append_assoc, take-append-drop,
}
use bright_s.Base.Int.{ℤ, pos, negsuc}
use bright_s.Ipc.Pipe.{Pipes, entry, create, write, read, close_read, close_write}
use bright_s.Ipc.Pipe.Fifo.{contents}
use bright_s.Ipc.Pipe.Table.{
  Inv, create_lem, write_lem, read_lem, close_write-Inv, close_read-Inv, contents-store,
}

-- The calls that a client makes, with the pipe's index where there is one.
pub data Call : Type 0 where
  creates : Call
  writes : ℕ → List ℕ → ℕ → Call
  reads : ℕ → ℕ → Call
  closes_read closes_write : ℕ → Call

unfoldable pub step : Pipes → Call → Pipes
step s creates = (create s).1
step s (writes i src n) = (write s (some i) (some src) n).1
step s (reads i n) = (read s (some i) true n).2
step s (closes_read i) = close_read s (some i)
step s (closes_write i) = close_write s (some i)

-- A call names a pipe that was made, and a write has the bytes that it offers.
abbrev pub Allowed : Pipes → Call → Type 0
Allowed s creates = Unit {0}
Allowed s (writes i src n) = (i < s.count) × (n ≤ length src)
Allowed s (reads i n) = i < s.count
Allowed s (closes_read i) = i < s.count
Allowed s (closes_write i) = i < s.count

-- The bytes that a write's result says were taken.
abbrev taken : ℤ → List ℕ → List ℕ
taken (pos k) src = take k src
taken (negsuc k) src = []

-- What a call puts into pipe j, and what it brings out of it, as its caller sees it.
unfoldable pub put_in : ℕ → Pipes → Call → List ℕ
put_in j s (writes i src n) = if i == j then taken (write s (some i) (some src) n).0 src else []
put_in j s _ = []

unfoldable pub brought_out : ℕ → Pipes → Call → List ℕ
brought_out j s (reads i n) = if i == j then (read s (some i) true n).1 else []
brought_out j s _ = []

-- One call keeps the order: what pipe j held, then what goes in, is what comes out, then what it
-- holds.
Flows : ℕ → Pipes → Call → Type 0
Flows j s c =
    contents (entry s j) ++ put_in j s c ≡ brought_out j s c ++ contents (entry (step s c) j)

create-Flows : (j : ℕ) (s : Pipes) → Inv s → j < s.count → Flows j s creates
unfolding Flows step put_in brought_out
create-Flows j s v h = append-nil (contents (entry s j)) ∙ elim (create_lem s v) [
  | inl full ↦ ap (λ t. contents (entry t j)) (sym full.2)
  | inr made ↦ ap contents (sym (made.3 j (omega arith)))
]

write-Flows :
    (j : ℕ) (s : Pipes) (i : ℕ) (src : List ℕ) (n : ℕ)
    → Inv s
    → Allowed s (writes i src n)
    → Flows j s (writes i src n)
unfolding Flows step put_in brought_out
write-Flows j s i src n v ok = elim (Bool-cases (i == j)) [
  | inl same ↦
      let e : i ≡ j = ground arith in
      rw (same, ← e)
        (elim (write_lem s i src n v ok.0 ok.1) [
          | inl shut ↦ rw (shut.1, shut.2) (append-nil (contents (entry s i)))
          | inr done ↦ rw done.1 (sym done.2)
        ])
  | inr apart ↦ rw apart (
      append-nil (contents (entry s j)) ∙ elim (write_lem s i src n v ok.0 ok.1) [
        | inl shut ↦ ap (λ t. contents (entry t j)) (sym shut.2)
        | inr done ↦ ap contents (sym (done.3 j (ground arith)))
      ])
]

read-Flows : (j : ℕ) (s : Pipes) (i n : ℕ) → Inv s → i < s.count → Flows j s (reads i n)
unfolding Flows step put_in brought_out
read-Flows j s i n v ok =
    let done = read_lem s i n v ok in
    append-nil (contents (entry s j)) ∙ elim (Bool-cases (i == j)) [
      | inl same ↦
          let e : i ≡ j = ground arith in
          rw (same, ← e) (sym (ap₂ ◌++◌ done.1 done.2 ∙ take-append-drop n (contents (entry s i))))
      | inr apart ↦ rw apart (ap contents (sym (done.3 j (ground arith))))
    ]

close_read-Flows : (j : ℕ) (s : Pipes) (i : ℕ) → Inv s → i < s.count → Flows j s (closes_read i)
unfolding Flows step put_in brought_out close_read
close_read-Flows j s i v h =
    append-nil (contents (entry s j))
    ∙ sym (contents-store s i j _ v (omega (arith, v.counted)) refl)

close_write-Flows : (j : ℕ) (s : Pipes) (i : ℕ) → Inv s → i < s.count → Flows j s (closes_write i)
unfolding Flows step put_in brought_out close_write
close_write-Flows j s i v h =
    append-nil (contents (entry s j))
    ∙ sym (contents-store s i j _ v (omega (arith, v.counted)) refl)

step-Flows : (j : ℕ) (s : Pipes) (c : Call) → Inv s → j < s.count → Allowed s c → Flows j s c
step-Flows j s creates v h ok = create-Flows j s v h
step-Flows j s (writes i src n) v h ok = write-Flows j s i src n v ok
step-Flows j s (reads i n) v h ok = read-Flows j s i n v ok
step-Flows j s (closes_read i) v h ok = close_read-Flows j s i v ok
step-Flows j s (closes_write i) v h ok = close_write-Flows j s i v ok

-- Every call keeps the invariant.
pub step-Inv : (s : Pipes) (c : Call) → Inv s → Allowed s c → Inv (step s c)
unfolding step
step-Inv s creates v ok = elim (create_lem s v) [ inl full ↦ rw full.2 v | inr made ↦ made.4 ]
step-Inv s (writes i src n) v ok = elim (write_lem s i src n v ok.0 ok.1) [
  | inl shut ↦ rw shut.2 v
  | inr done ↦ done.4
]
step-Inv s (reads i n) v ok = (read_lem s i n v ok).4
step-Inv s (closes_read i) v ok = close_read-Inv s i v ok
step-Inv s (closes_write i) v ok = close_write-Inv s i v ok

-- No call forgets a pipe.
count-step : (s : Pipes) (c : Call) → s.count ≤ (step s c).count
unfolding step create write read close_read close_write
count-step s creates = ground arith
count-step s (writes i src n) = ground arith
count-step s (reads i n) = ground arith
count-step s (closes_read i) = omega arith
count-step s (closes_write i) = omega arith

unfoldable pub run : Pipes → List Call → Pipes
run s [] = s
run s (c ∷ cs) = run (step s c) cs

-- Each call of a history is allowed where it is made.
abbrev pub AllAllowed : Pipes → List Call → Type 0
AllAllowed s [] = Unit {0}
AllAllowed s (c ∷ cs) = Allowed s c × AllAllowed (step s c) cs

unfoldable pub all_put_in : ℕ → Pipes → List Call → List ℕ
all_put_in j s [] = []
all_put_in j s (c ∷ cs) = put_in j s c ++ all_put_in j (step s c) cs

unfoldable pub all_brought_out : ℕ → Pipes → List Call → List ℕ
all_brought_out j s [] = []
all_brought_out j s (c ∷ cs) = brought_out j s c ++ all_brought_out j (step s c) cs

-- Over any history of allowed calls on any of the pipes of a sound table, what a made pipe held
-- at the start followed by all bytes that writes to it took is what reads from it brought out
-- followed by what it holds at the end: no byte is lost, doubled or reordered, and no pipe
-- disturbs another.
pub run_keeps_order :
    (j : ℕ) (s : Pipes) (cs : List Call)
    → Inv s
    → j < s.count
    → AllAllowed s cs
    → contents (entry s j) ++ all_put_in j s cs
      ≡ all_brought_out j s cs ++ contents (entry (run s cs) j)
unfolding run all_put_in all_brought_out
run_keeps_order j s [] v h ok = append-nil (contents (entry s j))
run_keeps_order j s (c ∷ cs) v h ok =
    let ih =
      run_keeps_order j (step s c) cs (step-Inv s c v ok.0) (omega (arith, count-step s c)) ok.1 in
    let one : contents (entry s j) ++ put_in j s c
        ≡ brought_out j s c ++ contents (entry (step s c) j) =
      unfold Flows in step-Flows j s c v h ok.0 in
    let held = contents (entry s j) in
    sym (append_assoc held (put_in j s c) (all_put_in j (step s c) cs))
    ∙ ap (λ r. r ++ all_put_in j (step s c) cs) one
    ∙ append_assoc (brought_out j s c) (contents (entry (step s c) j)) _
    ∙ ap (λ r. brought_out j s c ++ r) ih
    ∙ sym (append_assoc (brought_out j s c) (all_brought_out j (step s c) cs) _)
