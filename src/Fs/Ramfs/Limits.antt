-- ===== src/Fs/Ramfs/Limits.antt =====
-- kernel/fs/ramfs.c: what the checks of `brights_ramfs_read` and `brights_ramfs_write` do not stop.
use bright_s.Base.{
  ℕ, refl, ◌%◌, ltb, false, ◌+◌, ◌-◌, ◌^◌, ◌≤◌, ◌<◌, ◌≡◌, ap, ◌∙◌, List, some, length, arith,
  Bool-cases, inl, inr, take, drop, leb, min, ◌++◌, length-take, length-drop, append_assoc,
}
use bright_s.Base.Int.{ℤ}
use bright_s.Base.Splice.{take-add}
use bright_s.Fs.Ramfs.{File, Files, storage_size, max_files, file_at}
use bright_s.Fs.Ramfs.Access.{Overrun, file_of_fd, read, write}
use bright_s.Fs.Ramfs.Data.{
  IsStored, read-write, read_entry, read-eq-read_entry, read_entry_lem, file_of_fd_lem,
}

-- A read of a sound regular file in use returns as many bytes as were asked for, or as there are
-- from the offset to the end of the file, and never more.
pub length-read :
    (files : Files) (fd : ℤ) (i off len : ℕ)
    → file_of_fd files fd ≡ some i
    → IsStored (file_at files i)
    → (out : List ℕ) × (read files fd off len ≡ some out)
      × (length out ≡ min len ((file_at files i).size - off))
length-read files fd i off len e v = (
  read_entry (file_at files i) off len,
  read-eq-read_entry files fd i off len e,
  counted (file_at files i) v,
)
  where
    counted : (f : File) → IsStored f → length (read_entry f off len) ≡ min len (f.size - off)
    counted f v = elim (Bool-cases (leb f.size off)) [
      | inl past ↦ unfold read_entry in rw past (ground arith)
      | inr within ↦
          unfold read_entry in
          rw within (
            omega (
              arith,
              length-take (min len (f.size - off)) (drop off f.bytes),
              length-drop off f.bytes,
              v.whole,
              v.cap,
              v.inside,
            ))
    ]

-- Where the sum of offset and length passes 2^64 by less than the offset, for an offset inside
-- the storage of a sound regular file in use, the clamp of brights_ramfs_write is skipped: the
-- copy of the whole length runs behind the storage, with whatever effect that has on the table,
-- and the word that it returns is the length, 2^63 or more and so negative as an int64_t.
pub write_wraps :
    (overrun : Overrun) (files : Files) (fd : ℤ) (i off len : ℕ) (buf : List ℕ)
    → file_of_fd files fd ≡ some i
    → IsStored (file_at files i)
    → off < storage_size
    → len < 2 ^ 64
    → 2 ^ 64 ≤ off + len
    → (write overrun files fd off buf len ≡ (some len, overrun i off (take len buf) files))
      × (2 ^ 63 ≤ len)
unfolding write
write_wraps overrun files fd i off len buf e v h hl over =
    let inside : leb (file_at files i).capacity off ≡ false = ground (arith, v.cap) in
    let unclamped : ltb (file_at files i).capacity ((off + len) % 2 ^ 64) ≡ false =
      ground (arith, v.cap) in
    let behind : leb (off + len) storage_size ≡ false = ground arith in
    (rw (e, write) (rw (inside, unclamped) (rw behind refl)), omega arith)

-- A write that starts behind the end of a sound regular file, and does not overflow, makes what
-- lay in the storage between them part of the file: a read of the gap gives those old bytes.
pub read_gap :
    (overrun : Overrun) (files : Files) (fd : ℤ) (i off len : ℕ) (buf : List ℕ)
    → length files ≡ max_files
    → file_of_fd files fd ≡ some i
    → IsStored (file_at files i)
    → off < storage_size
    → len ≤ length buf
    → off + len < 2 ^ 64
    → (file_at files i).size < off
    → let f = file_at files i in
      let files' = (write overrun files fd off buf len).1 in
      read files' fd f.size (off - f.size) ≡ some (take (off - f.size) (drop f.size f.bytes))
read_gap overrun files fd i off len buf full e v h hl k gap =
    let f = file_at files i in
    let files' = (write overrun files fd off buf len).1 in
    let g = file_at files' i in
    let w = read-write overrun files fd i off len buf full e v h hl k in
    let ok = file_of_fd_lem files fd i e in
    let still : file_of_fd files' fd ≡ some i = ok.3 files' (w.5.0 ∙ ok.1) (w.5.1 ∙ ok.2) in
    let hole = off - f.size in
    let cut : take off f.bytes ≡ take f.size f.bytes ++ take hole (drop f.size f.bytes) =
      let e' : off ≡ f.size + hole = omega arith in
      ap (λ m. take m f.bytes) e' ∙ take-add f.size hole f.bytes in
    let behind =
      take (min len (storage_size - off)) buf
      ++ drop (off + min len (storage_size - off)) f.bytes in
    read-eq-read_entry files' fd i f.size hole still
    ∙ ap some (
        read_entry_lem g f.size hole (take f.size f.bytes) (take hole (drop f.size f.bytes)) behind
          (w.2 ∙ ap (λ r. r ++ behind) cut ∙ append_assoc (take f.size f.bytes) _ behind)
          (omega (arith, length-take f.size f.bytes, v.whole, v.cap, v.inside))
          (omega
            (arith, length-take hole (drop f.size f.bytes), length-drop f.size f.bytes, v.whole))
          (omega (arith, w.3)))
