-- ===== src/Ipc/Pipe/Tests.antt =====
-- Runs of kernel/pipe.c from boot, and its theorems at concrete inputs.
use bright_s.Base.{
  ℕ, ◌<◌, ◌≡◌, ◌≢◌, ◌⊎◌, refl, List, [], ◌∷◌, ◌++◌, take, drop, min, length, arith, some, true,
  false, ◌-◌,
}
use bright_s.Base.Int.{pos, minus_one}
use bright_s.Ipc.Pipe.{
  Pipes, boot, create, write, read, close_write, entry, zeroed, pipe_buf_size, write_loop,
  read_loop,
}
use bright_s.Ipc.Pipe.Fifo.{contents}
use bright_s.Ipc.Pipe.Table.{Inv, boot-Inv, write_lem, read_lem}
use bright_s.Ipc.Pipe.Stream.{
  Call, creates, writes, reads, closes_write, step, run, step-Inv, run_keeps_order, all_put_in,
  all_brought_out, brought_out,
}

one_pipe : Pipes
one_pipe = step boot creates

one_pipe-Inv : Inv one_pipe
unfolding one_pipe
one_pipe-Inv = step-Inv boot creates boot-Inv tt

has_one : 0 < one_pipe.count
unfolding one_pipe step create boot
has_one = omega arith

abbrev history : List Call
history = writes 0 (7 ∷ 8 ∷ 9 ∷ []) 3 ∷ reads 0 2 ∷ closes_write 0 ∷ reads 0 5 ∷ []

brings_out : all_brought_out 0 one_pipe history ≡ 7 ∷ 8 ∷ 9 ∷ []
unfolding all_brought_out brought_out one_pipe step create boot zeroed write read write_loop
    read_loop close_write
brings_out = refl

abbrev offered : List ℕ
offered = 7 ∷ 8 ∷ 9 ∷ []

abbrev after_write : Pipes
after_write = (write one_pipe (some 0) (some offered) 2).1

write_lem_example :
    let p = entry one_pipe 0 in
    let k = min 2 (pipe_buf_size - length (contents p)) in
    ((p.write_end_open ≡ false)
      × ((write one_pipe (some 0) (some offered) 2).0 ≡ minus_one)
      × (after_write ≡ one_pipe))
    ⊎ ((p.write_end_open ≡ true)
        × ((write one_pipe (some 0) (some offered) 2).0 ≡ pos k)
        × (contents (entry after_write 0) ≡ contents p ++ take k offered)
        × ((j : ℕ) → j ≢ 0 → entry after_write j ≡ entry one_pipe j)
        × Inv after_write)
write_lem_example = write_lem one_pipe 0 offered 2 one_pipe-Inv has_one (omega arith)

read_lem_example :
    ((read one_pipe (some 0) true 4).0 ≡ pos (min 4 (length (contents (entry one_pipe 0)))))
    × ((read one_pipe (some 0) true 4).1 ≡ take 4 (contents (entry one_pipe 0)))
    × (contents (entry (read one_pipe (some 0) true 4).2 0) ≡ drop 4 (contents (entry one_pipe 0)))
    × ((j : ℕ) → j ≢ 0 → entry (read one_pipe (some 0) true 4).2 j ≡ entry one_pipe j)
    × Inv (read one_pipe (some 0) true 4).2
read_lem_example = read_lem one_pipe 0 4 one_pipe-Inv has_one

run_keeps_order_example :
    contents (entry one_pipe 0) ++ all_put_in 0 one_pipe history
    ≡ all_brought_out 0 one_pipe history ++ contents (entry (run one_pipe history) 0)
unfolding one_pipe step create boot zeroed write read write_loop read_loop close_write
run_keeps_order_example = run_keeps_order 0 one_pipe history one_pipe-Inv has_one (omega arith)
