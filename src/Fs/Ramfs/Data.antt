-- ===== src/Fs/Ramfs/Data.antt =====
-- kernel/fs/ramfs.c: what is written is what is read, inside the storage.
use bright_s.Base.{
  ℕ, suc, ◌+◌, ◌-◌, ◌^◌, ◌≤◌, ◌<◌, ◌≡◌, ◌≢◌, refl, sym, ap, ◌∙◌, List, [], ◌∷◌, ◌++◌, some, true,
  false, not, ◌||◌, if◌then◌else◌, length, length-set, set, arith, Bool-cases, inl, inr, take, drop,
  leb, ltb, min, max, append_assoc, take-append-drop, length-take, take-append_self,
  get_or-set_self, get_or-set_ne,
}
use bright_s.Base.Int.{ℤ, pos, negsuc}
use bright_s.Base.Splice.{take-suc-set, drop-set, drop-append}
use bright_s.Fs.Ramfs.{File, Files, blank, max_files, storage_size, file_at}
use bright_s.Fs.Ramfs.Access.{Overrun, file_of_fd, read, write, write_count, written, copy_bytes}

-- An entry's storage is whole, and its file lies inside.
pub record IsStored (f : File) : Type 0 where
  pub whole : length f.bytes ≡ storage_size
  pub cap : f.capacity ≡ storage_size
  pub inside : f.size ≤ f.capacity

copy_bytes_lem :
    (storage : List ℕ) (i : ℕ) (src : List ℕ)
    → i + length src ≤ length storage
    → copy_bytes storage i src ≡ take i storage ++ (src ++ drop (i + length src) storage)
unfolding copy_bytes
copy_bytes_lem storage i [] h =
    let e : i + 0 ≡ i = omega arith in rw e (sym (take-append-drop i storage))
copy_bytes_lem storage i (b ∷ src) h =
    let e : i + 1 ≡ suc i = omega arith in
    let e' : suc i + length src ≡ i + suc (length src) = omega arith in
    rw e (
      copy_bytes_lem (set storage i b) (suc i) src (omega (arith, length-set storage i b))
      ∙ rw
          (
            take-suc-set storage i b (omega arith),
            drop-set storage i (suc i + length src) b (omega arith),
            e',
          )
          (append_assoc (take i storage) (b ∷ []) (src ++ drop (i + suc (length src)) storage)))

length-copy_bytes :
    (storage : List ℕ) (i : ℕ) (src : List ℕ) → length (copy_bytes storage i src) ≡ length storage
unfolding copy_bytes
length-copy_bytes storage i [] = refl
length-copy_bytes storage i (b ∷ src) =
    length-copy_bytes (set storage i b) (i + 1) src ∙ length-set storage i b

-- Reading back the bytes in the middle.
middle :
    (a b c : List ℕ) (off n : ℕ)
    → length a ≡ off
    → length b ≡ n
    → take n (drop off (a ++ (b ++ c))) ≡ b
middle a b c off n ha hb =
    rw (← ha, ← hb) (ap (take (length b)) (drop-append a (b ++ c)) ∙ take-append_self b c)

-- The number of bytes that a write without overflow takes.
abbrev pub room : ℕ → ℕ → ℕ
room off len = min len (storage_size - off)

written-size :
    (f : File) (off len : ℕ) (buf : List ℕ)
    → IsStored f
    → off < storage_size
    → off + len < 2 ^ 64
    → (write_count f off len ≡ room off len)
      × ((written f off buf (room off len)).size ≡ max f.size (off + room off len))
written-size f off len buf v h k = (ground (arith, v.cap), ground (arith, v.cap, v.inside))

-- The whole of what a write does to its entry.
pub record DidWrite (f g : File) (off n : ℕ) (buf : List ℕ) : Type 0 where
  pub stored : IsStored g
  pub bytes : g.bytes ≡ take off f.bytes ++ (take n buf ++ drop (off + n) f.bytes)
  pub size : g.size ≡ max f.size (off + n)
  pub kind : (g.in_use ≡ f.in_use) × (g.is_dir ≡ f.is_dir) × (g.name ≡ f.name)

pub written-DidWrite :
    (f : File) (off len : ℕ) (buf : List ℕ)
    → IsStored f
    → off < storage_size
    → len ≤ length buf
    → off + len < 2 ^ 64
    → DidWrite f (written f off buf (room off len)) off (room off len) buf
written-DidWrite f off len buf v h hl k =
    let n = room off len in
    let taken : length (take n buf) ≡ n = omega (arith, length-take n buf) in
    let sized = (written-size f off len buf v h k).1 in
    record {
      stored = record {
        whole = length-copy_bytes f.bytes off (take n buf) ∙ v.whole;
        cap = v.cap;
        inside = omega (arith, sized, v.cap, v.inside);
      };
      bytes =
          copy_bytes_lem f.bytes off (take n buf) (omega (arith, taken, v.whole))
          ∙ ap (λ m. take off f.bytes ++ (take n buf ++ drop (off + m) f.bytes)) taken;
      size = sized;
      kind = (refl, refl, refl);
    }

-- What a read gives of an entry.
unfoldable pub read_entry : File → ℕ → ℕ → List ℕ
read_entry f off len =
    if leb f.size off then [] else take (min len (f.size - off)) (drop off f.bytes)

pub read-eq-read_entry :
    (files : Files) (fd : ℤ) (i off len : ℕ)
    → file_of_fd files fd ≡ some i
    → read files fd off len ≡ some (read_entry (file_at files i) off len)
unfolding read read_entry
read-eq-read_entry files fd i off len e = rw (e, read) (clip (file_at files i))
  where
    clip :
        (f : File)
        → (if leb f.size off
            then some []
            else let to_read = f.size - off in
              some (take (if ltb len to_read then len else to_read) (drop off f.bytes)))
          ≡ some (if leb f.size off then [] else take (min len (f.size - off)) (drop off f.bytes))
    clip f =
        let same : (if ltb len (f.size - off) then len else f.size - off) ≡ min len (f.size - off) =
          ground arith in
        rw same (ground arith)

pub write-eq-written :
    (overrun : Overrun) (files : Files) (fd : ℤ) (i off len : ℕ) (buf : List ℕ)
    → file_of_fd files fd ≡ some i
    → IsStored (file_at files i)
    → off < storage_size
    → off + len < 2 ^ 64
    → write overrun files fd off buf len
      ≡ (some (room off len), set files i (written (file_at files i) off buf (room off len)))
unfolding write
write-eq-written overrun files fd i off len buf e v h k =
    let inside : leb (file_at files i).capacity off ≡ false = ground (arith, v.cap) in
    let fits : leb (off + room off len) storage_size ≡ true = ground arith in
    rw (e, write) (rw (inside, (written-size (file_at files i) off len buf v h k).0) (rw fits refl))

-- What a descriptor of a regular file in use names.
pub file_of_fd_lem :
    (files : Files) (fd : ℤ) (i : ℕ)
    → file_of_fd files fd ≡ some i
    → (i < max_files)
      × ((file_at files i).in_use ≡ true)
      × ((file_at files i).is_dir ≡ false)
      × ((g : Files)
          → (file_at g i).in_use ≡ true
          → (file_at g i).is_dir ≡ false
          → file_of_fd g fd ≡ some i)
file_of_fd_lem files (negsuc m) i e = absurd (ground arith)
file_of_fd_lem files (pos k) i e = elim (Bool-cases (leb max_files k)) [
  | inl out ↦ absurd (ground arith)
  | inr inside ↦ elim (Bool-cases (not (file_at files k).in_use || (file_at files k).is_dir)) [
    | inl bad ↦ absurd (ground arith)
    | inr good ↦
        let same : k ≡ i = ground arith in
        rw (← same) (ground arith, ground arith, ground arith, λ g used kind. ground arith)
  ]
]

-- A run of bytes that lies inside the file is read.
pub read_entry_lem :
    (g : File) (off n : ℕ) (before run behind : List ℕ)
    → g.bytes ≡ before ++ (run ++ behind)
    → length before ≡ off
    → length run ≡ n
    → off + n ≤ g.size
    → read_entry g off n ≡ run
unfolding read_entry
read_entry_lem g off n before run behind e hb hr inside = elim (Bool-cases (leb g.size off)) [
  | inl past ↦
      let nothing : length run ≡ 0 = ground arith in rw past (sym (nil_of_length run nothing))
  | inr within ↦
      let all : min n (g.size - off) ≡ n = omega arith in
      rw (within, all, e) (middle before run behind off n hb hr)
]
  where
    nil_of_length : (xs : List ℕ) → length xs ≡ 0 → xs ≡ []
    nil_of_length [] h = refl
    nil_of_length (x ∷ xs) h = absurd (omega arith)

-- A write that does not overflow, through a descriptor of a sound regular file and with room for
-- at least one byte, takes len bytes or as many as there is storage for, and returns their
-- number; reading there then gives these bytes; the storage before and behind them is unchanged;
-- the size is the larger of the old one and the end of the write; the entry stays sound and in
-- use under its name, and no other entry changes.
pub read-write :
    (overrun : Overrun) (files : Files) (fd : ℤ) (i off len : ℕ) (buf : List ℕ)
    → length files ≡ max_files
    → file_of_fd files fd ≡ some i
    → IsStored (file_at files i)
    → off < storage_size
    → len ≤ length buf
    → off + len < 2 ^ 64
    → let n = min len (storage_size - off) in
      let f = file_at files i in
      let (r, files') = write overrun files fd off buf len in
      let g = file_at files' i in
      (r ≡ some n)
      × (read files' fd off n ≡ some (take n buf))
      × (g.bytes ≡ take off f.bytes ++ (take n buf ++ drop (off + n) f.bytes))
      × (g.size ≡ max f.size (off + n))
      × IsStored g
      × ((g.in_use ≡ f.in_use) × (g.is_dir ≡ f.is_dir) × (g.name ≡ f.name))
      × ((j : ℕ) → i ≢ j → file_at files' j ≡ file_at files j)
read-write overrun files fd i off len buf full e v h hl k =
    let n = room off len in
    let f = file_at files i in
    let g = written f off buf n in
    let w = written-DidWrite f off len buf v h hl k in
    let fd_ok = file_of_fd_lem files fd i e in
    let inside : i < length files = omega (arith, fd_ok.0) in
    let here : file_at (set files i g) i ≡ g = get_or-set_self files i g blank inside in
    let taken : length (take n buf) ≡ n = omega (arith, length-take n buf) in
    let start : length (take off f.bytes) ≡ off = omega (arith, length-take off f.bytes, v.whole) in
    let still : file_of_fd (set files i g) fd ≡ some i =
      fd_ok.3 (set files i g) (rw here fd_ok.1) (rw here fd_ok.2) in
    rw (write-eq-written overrun files fd i off len buf e v h k) (
      refl,
      rw (read-eq-read_entry (set files i g) fd i off n still) (
          rw here (
            ap some (
              read_entry_lem g off n (take off f.bytes) (take n buf) _ w.bytes start taken
                (omega (arith, w.size))))),
      rw here w.bytes,
      rw here w.size,
      rw here w.stored,
      rw here w.kind,
      λ j apart. get_or-set_ne files i j g blank apart,
    )
