-- ===== src/Ipc/Pipe/Fifo.antt =====
-- kernel/pipe.c: one pipe against the queue of the bytes that it holds.
use bright_s.Base.{
  ℕ, zero, suc, ◌+◌, ◌-◌, ◌%◌, ◌^◌, ◌≤◌, ◌<◌, min, ◌≡◌, refl, ap, ap₂, sym, ◌∙◌, List, [], ◌∷◌,
  ◌++◌, get_or, take, drop, length, length-set, append-nil, append_assoc, arith, take-nil,
  Bool-cases, inl, inr, leb, ◌==◌,
}
use bright_s.Base.Window.{window, length-window, window-set, window_of_pos}
use bright_s.Ipc.Pipe.{Pipe, pipe_buf_size, put_byte, write_loop, drop_byte, read_loop}

-- The indices lie in the ring, and the write index is `len` cells past the read index.
pub record IsValid (p : Pipe) : Type 0 where
  pub size : length p.buf ≡ pipe_buf_size
  pub rd_in : p.rd < pipe_buf_size
  pub len_in : p.len ≤ pipe_buf_size
  pub wr_at : p.wr ≡ (p.rd + p.len) % pipe_buf_size

-- The bytes in the pipe, oldest first.
abbrev pub contents : Pipe → List ℕ
contents p = window 0 pipe_buf_size p.buf p.rd p.len

pub length-contents : (p : Pipe) → length (contents p) ≡ p.len
length-contents p = length-window 0 pipe_buf_size p.buf p.rd p.len

pub put_byte-IsValid :
    (p : Pipe) (x : ℕ) → IsValid p → p.len < pipe_buf_size → IsValid (put_byte p x)
put_byte-IsValid p x v h = ground (arith, length-set p.buf p.wr x)

pub contents-put_byte :
    (p : Pipe) (x : ℕ)
    → IsValid p
    → p.len < pipe_buf_size
    → contents (put_byte p x) ≡ contents p ++ (x ∷ [])
contents-put_byte p x v h =
    let e : (p.len + 1) % 2 ^ 32 ≡ suc p.len = omega arith in
    rw e (window-set 0 pipe_buf_size p.buf p.rd p.len p.wr x (omega arith) v.rd_in h v.wr_at)

pub drop_byte-IsValid : (p : Pipe) → IsValid p → 0 < p.len → IsValid (drop_byte p)
drop_byte-IsValid p v h = omega arith

pub contents-drop_byte :
    (p : Pipe) → IsValid p → 0 < p.len → contents p ≡ get_or p.buf p.rd 0 ∷ contents (drop_byte p)
contents-drop_byte p v h =
    let e : (p.rd + 1) % 2 ^ 32 % pipe_buf_size ≡ (p.rd + 1) % pipe_buf_size = omega arith in
    rw e (window_of_pos 0 pipe_buf_size p.buf p.rd p.len h)

-- What a write of `src` to `p` that counts from `wrote` has done when it stops.
pub record Wrote (src : List ℕ) (p : Pipe) (wrote : ℕ) (out : ℕ × Pipe) : Type 0 where
  pub valid : IsValid out.1
  pub count : out.0 ≡ wrote + min (length src) (pipe_buf_size - p.len)
  pub bytes : contents out.1 ≡ contents p ++ take (pipe_buf_size - p.len) src
  pub ends : (out.1.write_end_open ≡ p.write_end_open) × (out.1.read_end_open ≡ p.read_end_open)

take-cons_of_pos : (n x : ℕ) (xs : List ℕ) → 0 < n → take n (x ∷ xs) ≡ x ∷ take (n - 1) xs
take-cons_of_pos zero x xs h = absurd (omega arith)
take-cons_of_pos (suc n) x xs h = ap (λ k. x ∷ take k xs) (omega arith)

pub write_loop-Wrote :
    (src : List ℕ) (p : Pipe) (wrote : ℕ) → IsValid p → Wrote src p wrote (write_loop src p wrote)
unfolding write_loop
write_loop-Wrote [] p wrote v = record {
  valid = v;
  count = omega arith;
  bytes = rw (take-nil, append-nil);
  ends = (refl, refl);
}
write_loop-Wrote (x ∷ src) p wrote v = elim (Bool-cases (leb pipe_buf_size p.len)) [
  | inl full ↦
      let none_left : pipe_buf_size - p.len ≡ 0 = ground arith in
      rw full (record {
        valid = v;
        count = rw none_left (omega arith);
        bytes = rw (none_left, append-nil);
        ends = (refl, refl);
      })
  | inr room ↦
      let fits : p.len < pipe_buf_size = ground arith in
      let rest = write_loop-Wrote src (put_byte p x) (wrote + 1) (put_byte-IsValid p x v fits) in
      rw room (record {
        valid = rest.valid;
        count = omega (arith, rest.count);
        bytes =
            let left : pipe_buf_size - (p.len + 1) % 2 ^ 32 ≡ pipe_buf_size - p.len - 1 =
              omega arith in
            rest.bytes
            ∙ ap₂ ◌++◌ (contents-put_byte p x v fits) (ap (λ k. take k src) left)
            ∙ append_assoc (contents p) (x ∷ []) (take (pipe_buf_size - p.len - 1) src)
            ∙ ap (λ r. contents p ++ r) (sym (take-cons_of_pos _ x src (omega arith)));
        ends = rest.ends;
      })
]

-- What a read of at most n bytes from `p` has done when it stops.
pub record DidRead (n : ℕ) (p : Pipe) (out : List ℕ × Pipe) : Type 0 where
  pub valid : IsValid out.1
  pub bytes : out.0 ≡ take n (contents p)
  pub rest : contents out.1 ≡ drop n (contents p)
  pub ends : (out.1.write_end_open ≡ p.write_end_open) × (out.1.read_end_open ≡ p.read_end_open)

pub read_loop-DidRead : (n : ℕ) (p : Pipe) → IsValid p → DidRead n p (read_loop n p)
unfolding read_loop
read_loop-DidRead zero p v = record { valid = v; bytes = refl; rest = refl; ends = (refl, refl) }
read_loop-DidRead (suc n) p v = elim (Bool-cases (p.len == 0)) [
  | inl empty ↦
      let nothing : contents p ≡ [] = unfold window in ground arith in
      rw empty (record {
        valid = v;
        bytes = sym (ap (take (suc n)) nothing);
        rest = nothing ∙ sym (ap (drop (suc n)) nothing);
        ends = (refl, refl);
      })
  | inr some_left ↦
      let more : 0 < p.len = ground arith in
      let ih = read_loop-DidRead n (drop_byte p) (drop_byte-IsValid p v more) in
      let first = contents-drop_byte p v more in
      rw some_left (record {
        valid = ih.valid;
        bytes = rw first (ap (λ r. get_or p.buf p.rd 0 ∷ r) ih.bytes);
        rest = rw first ih.rest;
        ends = ih.ends;
      })
]
