-- ===== src/Fs/Ramfs/History.antt =====
-- kernel/fs/ramfs.c: the table stays sound over whole histories of calls.
use bright_s.Base.{ℕ, ◌+◌, ◌≤◌, ◌<◌, ◌^◌, ◌≡◌, refl, List, [], ◌∷◌, length}
use bright_s.Base.Int.{ℤ}
use bright_s.Base.Members.{All}
use bright_s.Fs.Ramfs.{File, Files, max_files, storage_size, file_at, init}
use bright_s.Fs.Ramfs.Names.{
  mkdir, create, symlink, unlink, chmod, chown, fill_dir, fill_regular, fill_symlink,
}
use bright_s.Fs.Ramfs.Access.{Overrun, write}
use bright_s.Fs.Ramfs.Sound.{
  Sound, Fills, init-Sound, add_file-Sound, unlink-Sound, write-Sound, chmod-Sound, chown-Sound,
}

-- The calls that change the table.
pub data Call : Type 0 where
  mkdirs creates unlinks : List ℕ → Call
  symlinks : List ℕ → List ℕ → Call
  writes : ℤ → ℕ → List ℕ → ℕ → Call
  chmods : List ℕ → ℕ → Call
  chowns : List ℕ → ℕ → ℕ → Call

unfoldable pub step : Overrun → Files → Call → Files
step overrun files (mkdirs name) = (mkdir files name).1
step overrun files (creates name) = (create files name).1
step overrun files (unlinks name) = (unlink files name).1
step overrun files (symlinks target name) = (symlink files target name).1
step overrun files (writes fd off buf len) = (write overrun files fd off buf len).1
step overrun files (chmods name mode) = (chmod files name mode).1
step overrun files (chowns name uid gid) = (chown files name uid gid).1

-- A write has the bytes that it offers, and its end is below 2^64.
abbrev pub IsCall : Call → Type 0
IsCall (writes fd off buf len) = (len ≤ length buf) × (off + len < 2 ^ 64)
IsCall _ = Unit {0}

filled :
    (fill : File → File)
    → ((f : File)
        → ((fill f).name ≡ f.name)
          × ((fill f).bytes ≡ f.bytes)
          × ((fill f).capacity ≡ f.capacity)
          × ((fill f).size ≡ 0))
    → Fills fill
filled fill all = record {
  names = λ f. (all f).0;
  bytes = λ f. (all f).1;
  cap = λ f. (all f).2;
  size = λ f. (all f).3;
}

-- Each call keeps the table sound.
pub step-Sound :
    (overrun : Overrun) (files : Files) (c : Call)
    → IsCall c
    → Sound files
    → Sound (step overrun files c)
unfolding step mkdir create symlink
step-Sound overrun files (mkdirs name) k v =
    add_file-Sound fill_dir files name (filled fill_dir (λ f. (refl, refl, refl, refl))) v
step-Sound overrun files (creates name) k v =
    add_file-Sound fill_regular files name (filled fill_regular (λ f. (refl, refl, refl, refl))) v
step-Sound overrun files (unlinks name) k v = unlink-Sound files name v
step-Sound overrun files (symlinks target name) k v =
    add_file-Sound (fill_symlink target) files name
      (filled (fill_symlink target) (λ f. (refl, refl, refl, refl))) v
step-Sound overrun files (writes fd off buf len) k v =
    write-Sound overrun files fd off buf len k.0 k.1 v
step-Sound overrun files (chmods name mode) k v = chmod-Sound files name mode v
step-Sound overrun files (chowns name uid gid) k v = chown-Sound files name uid gid v

-- A history of calls.
unfoldable pub run : Overrun → Files → List Call → Files
run overrun files [] = files
run overrun files (c ∷ calls) = run overrun (step overrun files c) calls

run-Sound_from :
    (overrun : Overrun) (files : Files) (calls : List Call)
    → Sound files
    → All IsCall calls
    → Sound (run overrun files calls)
unfolding run
run-Sound_from overrun files [] v ok = v
run-Sound_from overrun files (c ∷ calls) v ok =
    run-Sound_from overrun (step overrun files c) calls (step-Sound overrun files c ok.0 v) ok.1

-- After brights_ramfs_init of a table of 32 entries with their storage, and any calls whose
-- writes have the bytes they offer and do not overflow, the table is sound: names in use are
-- distinct normalised paths whose parents are directories in use or the root, and every file
-- lies inside its 4096 bytes of storage.
pub run-Sound :
    (overrun : Overrun) (files : Files) (calls : List Call)
    → length files ≡ max_files
    → ((i : ℕ) → i < length files → length (file_at files i).bytes ≡ storage_size)
    → All IsCall calls
    → Sound (run overrun (init files) calls)
run-Sound overrun files calls full whole ok =
    run-Sound_from overrun (init files) calls (init-Sound files full whole) ok
