-- ===== src/SafeIo/Files.antt =====
-- safe_write_file and safe_read_file (src/safe_io.cc). The calls on the directory are parameters: the
-- file `file` that is replaced, and `file.tmp` beside it.
use msg.Prelude.{
  ℕ, ◌%◌, ◌≡◌, Bool, true, false, List, [], ◌∷◌, length, ◌==◌, ◌&&◌, if◌then◌else◌, Option, none,
  some,
}
use msg.SafeIo.{Errno, Io, io, io_error, no_end, Readable, Writable, safe_read, safe_write}

-- Whether a call succeeds, and with what.
pub data Opened (A : Type 0) : Type 0 where
  fd : A → Opened A
  not_opened : Errno → Opened A

-- Only rename changes what `file` holds.
pub record FileCalls (r : Readable) (w : Writable) : Type 1 where
  pub Dir : Type 0
  pub file : Dir → Option (List ℕ)
  pub open_file : Dir → Opened (r.Fd) × Dir
  pub open_tmp : Dir → Opened (w.Fd) × Dir
  pub fsync_tmp : w.Fd → Dir → Option Errno × Dir
  pub unlink_tmp : Dir → Dir
  pub rename : Dir → Option Errno × Dir
  pub fsync_dir : Dir → Option Errno × Dir
  pub file-open_file : (d : Dir) → file (open_file d).1 ≡ file d
  pub file-open_tmp : (d : Dir) → file (open_tmp d).1 ≡ file d
  pub file-fsync_tmp : (f : w.Fd) (d : Dir) → file (fsync_tmp f d).1 ≡ file d
  pub file-unlink_tmp : (d : Dir) → file (unlink_tmp d) ≡ file d
  pub file-fsync_dir : (d : Dir) → file (fsync_dir d).1 ≡ file d

-- memcmp(oldval, val, vallen) == 0, of as many bytes; where one is longer, the code reads past the end
abbrev pub same_value : List ℕ → List ℕ → Bool
same_value [] [] = true
same_value [] (y ∷ ys) = false
same_value (x ∷ xs) [] = false
same_value (x ∷ xs) (y ∷ ys) = (x == y) && same_value xs ys

module _ (r : Readable) (w : Writable) (calls : FileCalls r w) (rounds : ℕ) where
  open calls use {Dir, open_file, open_tmp, fsync_tmp, unlink_tmp, rename, fsync_dir}

  unfoldable pub safe_read_file : ℕ → Dir → Io (List ℕ) × Dir
  safe_read_file vallen d = elim (open_file d).0 as (λ o. Io (List ℕ) × Dir) [
    | not_opened e ↦ (io_error e, (open_file d).1)
    | fd f ↦ ((safe_read r rounds vallen f).0, (open_file d).1)
  ]

  -- from rename on; the last fsync and the open of the directory before it are one call
  unfoldable pub replace_file : Dir → Io ℕ × Dir
  replace_file d = elim (rename d).0 as (λ o. Io ℕ × Dir) [
    | some e ↦ (io_error e, unlink_tmp (rename d).1)
    | none ↦ elim (fsync_dir (rename d).1).0 as (λ o. Io ℕ × Dir) [
      | some e ↦ (io_error e, (fsync_dir (rename d).1).1)
      | none ↦ (io 0, (fsync_dir (rename d).1).1)
    ]
  ]

  -- `int ret = safe_write(fd, val, vallen); if (ret) { … return ret; }`, and what follows: of the
  -- count, `ret` has 32 bits
  unfoldable pub write_tmp : List ℕ → w.Fd → Dir → Io ℕ × Dir
  write_tmp val f d =
      let s = safe_write w rounds val f in
      let synced = fsync_tmp s.1 d in
      let rest = elim synced.0 as (λ o. Io ℕ × Dir) [
        | some e ↦ (io_error e, unlink_tmp synced.1)
        | none ↦ replace_file synced.1
      ] in
      elim s.0 as (λ s. Io ℕ × Dir) [
        | io n ↦ (if n % 4294967296 == 0 then rest else (io (n % 4294967296), d))
        | io_error e ↦ (io_error e, d)
        | no_end ↦ (no_end, d)
      ]

  -- `oldval` has 80 bytes, and is compared with `(int) vallen`.
  unfoldable pub safe_write_file : List ℕ → Dir → Io ℕ × Dir
  safe_write_file val d =
      let old = safe_read_file 80 d in
      let fresh = elim (open_tmp old.1).0 as (λ o. Io ℕ × Dir) [
        | not_opened e ↦ (io_error e, (open_tmp old.1).1)
        | fd f ↦ write_tmp val f (open_tmp old.1).1
      ] in
      elim old.0 as (λ r. Io ℕ × Dir) [
        | io bs ↦
            if (length bs == length val % 4294967296) && same_value bs val
            then (io 0, old.1)
            else fresh
        | io_error e ↦ fresh
        | no_end ↦ (no_end, old.1)
      ]
