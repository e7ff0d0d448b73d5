-- ===== src/Ipc/Pipe.antt =====
-- kernel/pipe.c and kernel/pipe.h: a static table of byte pipes over rings of 4096 bytes.
-- A `brights_pipe_t *` is an index into `pipe_table`, and `none` is the null pointer.
pub mod Fifo
pub mod Stream
pub mod Table
mod Tests
use bright_s.Base.{
  ℕ, zero, suc, ◌+◌, ◌-◌, ◌%◌, ◌^◌, List, [], ◌∷◌, Option, none, some, Bool, true, false, leb, ◌==◌,
  not, if◌then◌else◌, get_or, set, take, replicate, length,
}
use bright_s.Base.Int.{ℤ, pos, negsuc, minus_one}

-- `BRIGHTS_PIPE_BUF_SIZE` and `BRIGHTS_MAX_PIPES`.
abbrev pub pipe_buf_size : ℕ
pipe_buf_size = 4096

abbrev pub max_pipes : ℕ
max_pipes = 16

-- `brights_pipe_t`.
pub record Pipe : Type 0 where
  pub buf : List ℕ
  pub rd : ℕ
  pub wr : ℕ
  pub len : ℕ
  pub read_end_open : Bool
  pub write_end_open : Bool

-- `pipe_table` and `pipe_count`.
pub record Pipes : Type 0 where
  pub table : List Pipe
  pub count : ℕ

-- An entry of static storage, which C fills with zeros.
unfoldable pub zeroed : Pipe
zeroed = record {
  buf = replicate pipe_buf_size 0;
  rd = 0;
  wr = 0;
  len = 0;
  read_end_open = false;
  write_end_open = false;
}

abbrev pub entry : Pipes → ℕ → Pipe
entry s i = get_or s.table i zeroed

abbrev pub store : Pipes → ℕ → Pipe → Pipes
store s i p = record s { table = set s.table i p }

-- The table at boot.
unfoldable pub boot : Pipes
boot = record { table = replicate max_pipes zeroed; count = 0 }

-- What `brights_pipe_create` makes of an entry: the buffer keeps what it held.
abbrev pub opened : Pipe → Pipe
opened p = record p { rd = 0; wr = 0; len = 0; read_end_open = true; write_end_open = true }

-- `brights_pipe_create`.
pub create : Pipes → ℤ × Pipes
create s = if leb max_pipes s.count then (minus_one, s) else (
  pos s.count,
  record s { table = set s.table s.count (opened (entry s s.count)); count = s.count + 1 },
)

-- `brights_pipe_get`.
pub get : Pipes → ℤ → Option ℕ
get s (negsuc n) = none
get s (pos i) = if leb s.count i then none else some i

-- One round of the loop of `brights_pipe_write`: `uint32_t` additions wrap.
abbrev pub put_byte : Pipe → ℕ → Pipe
put_byte p x = record p {
  buf = set p.buf p.wr x;
  wr = (p.wr + 1) % 2 ^ 32 % pipe_buf_size;
  len = (p.len + 1) % 2 ^ 32;
}

-- The loop of `brights_pipe_write` over `src[wrote .. n)`.
pub write_loop : List ℕ → Pipe → ℕ → ℕ × Pipe
write_loop [] p wrote = (wrote, p)
write_loop (x ∷ src) p wrote =
    let rest = write_loop src (put_byte p x) (wrote + 1) in
    if leb pipe_buf_size p.len then (wrote, p) else rest

-- `brights_pipe_write`. The list is what `src` points to; it holds at least n bytes.
pub write : Pipes → Option ℕ → Option (List ℕ) → ℕ → ℤ × Pipes
write s none src n = (minus_one, s)
write s (some i) none n = (minus_one, s)
write s (some i) (some src) n =
    if not (entry s i).write_end_open
    then (minus_one, s)
    else let (wrote, p) = write_loop (take n src) (entry s i) 0 in (pos wrote, store s i p)

-- One round of the loop of `brights_pipe_read`.
abbrev pub drop_byte : Pipe → Pipe
drop_byte p = record p { rd = (p.rd + 1) % 2 ^ 32 % pipe_buf_size; len = p.len - 1 }

-- The loop of `brights_pipe_read` with n rounds left: the bytes that it stores, in order. Both
-- cases of the inner test of `write_end_open` leave the loop.
pub read_loop : ℕ → Pipe → List ℕ × Pipe
read_loop zero p = ([], p)
read_loop (suc n) p =
    let (out, q) = read_loop n (drop_byte p) in
    if p.len == 0 then ([], p) else (get_or p.buf p.rd 0 ∷ out, q)

-- `brights_pipe_read`: the result, what is written to `dst[0 ..]`, and the table. `dst` is false
-- for a null pointer, and else points to room for n bytes.
pub read : Pipes → Option ℕ → Bool → ℕ → ℤ × List ℕ × Pipes
read s none dst n = (minus_one, [], s)
read s (some i) false n = (minus_one, [], s)
read s (some i) true n =
    let (out, p) = read_loop n (entry s i) in (pos (length out), out, store s i p)

-- `brights_pipe_close_read` and `brights_pipe_close_write`.
pub close_read : Pipes → Option ℕ → Pipes
close_read s none = s
close_read s (some i) = store s i (record (entry s i) { read_end_open = false })

pub close_write : Pipes → Option ℕ → Pipes
close_write s none = s
close_write s (some i) = store s i (record (entry s i) { write_end_open = false })
