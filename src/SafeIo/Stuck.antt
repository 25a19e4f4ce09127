-- ===== src/SafeIo/Stuck.antt =====
-- safe_write_file takes the number of the bytes that it wrote for an error (src/safe_io.cc).
use msg.Prelude.{
  ℕ, zero, suc, ◌+◌, ◌%◌, ◌≤◌, ◌<◌, ◌≡◌, refl, ◌∙◌, arith, List, [], ◌∷◌, length, drop, ltb, ◌==◌,
  ◌&&◌, if◌then◌else◌, by_if, length-drop,
}
use msg.Buffers.Substr.{wrap32_lem}
use msg.SafeIo.{
  eintr, eagain, edom, other_errno, WriteResult, wrote, write_error, Io, io, io_error, no_end,
  Readable, Writable, safe_read, safe_write_loop, safe_write,
}
use msg.SafeIo.Files.{
  Opened, fd, not_opened, FileCalls, same_value, safe_read_file, write_tmp, safe_write_file,
}

module _ (w : Writable) where
  open w use {Fd, write, write_some}

  -- A write that has taken something, or has something left, does not return 0, nor more than `most`.
  abbrev Counts : ℕ → Io ℕ × Fd → Type 0
  Counts most (io n, f) = (0 < n) × (n ≤ most)
  Counts most (io_error e, f) = Unit
  Counts most (no_end, f) = Unit

  safe_write_loop-Counts :
      (rounds : ℕ) (left : List ℕ) (cnt most : ℕ) (f : Fd)
      → 0 < cnt + length left
      → cnt + length left ≤ most
      → Counts most (safe_write_loop w rounds left cnt f)
  unfolding safe_write_loop
  safe_write_loop-Counts rounds [] cnt most f p q = (omega arith, omega arith)
  safe_write_loop-Counts zero (b ∷ left) cnt most f p q = tt
  safe_write_loop-Counts (suc rounds) (b ∷ left) cnt most f p q =
      by_write (write (b ∷ left) f).0 refl
        (λ n. safe_write_loop-Counts rounds (drop n (b ∷ left)) (cnt + n) most f')
        (safe_write_loop-Counts rounds (b ∷ left) cnt most f' p q)
    where
      f' : Fd
      f' = (write (b ∷ left) f).1

      by_write :
          (r : WriteResult)
          → (write (b ∷ left) f).0 ≡ r
          → ((n : ℕ)
              → 0 < cnt + n + length (drop n (b ∷ left))
              → cnt + n + length (drop n (b ∷ left)) ≤ most
              → Counts most (safe_write_loop w rounds (drop n (b ∷ left)) (cnt + n) f'))
          → Counts most (safe_write_loop w rounds (b ∷ left) cnt f')
          → Counts most (elim r as (λ r. Io ℕ × Fd) [
            | wrote n ↦ safe_write_loop w rounds (drop n (b ∷ left)) (cnt + n) f'
            | write_error e ↦ elim e as (λ e. Io ℕ × Fd) [
              | eintr ↦ safe_write_loop w rounds (b ∷ left) cnt f'
              | eagain ↦ (if ltb 0 cnt then (io cnt, f') else (io_error eagain, f'))
              | edom ↦ (io_error edom, f')
              | other_errno n ↦ (io_error (other_errno n), f')
            ]
          ])
      by_write (wrote n) h more again =
          let l = (write_some (b ∷ left) f n h).0 in
          more n (omega (arith, length-drop n (b ∷ left), l))
            (omega (arith, length-drop n (b ∷ left), l))
      by_write (write_error eintr) h more again = again
      by_write (write_error eagain) h more again =
          by_if (Counts most) (ltb 0 cnt) (λ t. (ground arith, omega arith)) λ t. tt
      by_write (write_error edom) h more again = tt
      by_write (write_error (other_errno n)) h more again = tt

module _ (r : Readable) (w : Writable) (calls : FileCalls r w) (rounds : ℕ) where
  open calls use {Dir, file, open_file, open_tmp, file-open_file, file-open_tmp}

  -- The file holds what it held.
  abbrev Untouched : Dir → Io ℕ × Dir → Type 0
  Untouched d q = file q.1 ≡ file d

  write_tmp-Untouched :
      (b : ℕ) (bs : List ℕ) (f : w.Fd) (d : Dir)
      → length (b ∷ bs) < 4294967296
      → Untouched d (write_tmp r w calls rounds (b ∷ bs) f d)
  unfolding write_tmp safe_write
  write_tmp-Untouched b bs f d small =
      by_result _ (safe_write_loop w rounds (b ∷ bs) 0 f).0
        (safe_write_loop-Counts w rounds (b ∷ bs) 0 (length (b ∷ bs)) f (omega arith) (omega arith))
    where
      by_result :
          (rest : Io ℕ × Dir) (s : Io ℕ)
          → Counts w (length (b ∷ bs)) (s, (safe_write_loop w rounds (b ∷ bs) 0 f).1)
          → Untouched d (elim s as (λ s. Io ℕ × Dir) [
            | io n ↦ (if n % 4294967296 == 0 then rest else (io (n % 4294967296), d))
            | io_error e ↦ (io_error e, d)
            | no_end ↦ (no_end, d)
          ])
      by_result rest (io n) p =
          by_if (Untouched d) (n % 4294967296 == 0)
            (λ t. absurd (ground (arith, wrap32_lem n (omega (arith, p, small)), p))) λ t. refl
      by_result rest (io_error e) p = refl
      by_result rest no_end p = refl

  file-safe_read_file : (n : ℕ) (d : Dir) → file (safe_read_file r w calls rounds n d).1 ≡ file d
  unfolding safe_read_file
  file-safe_read_file n d = by_open (open_file d).0
    where
      by_open :
          (o : Opened r.Fd)
          → file
              (elim o as (λ o. Io (List ℕ) × Dir) [
                | not_opened e ↦ (io_error e, (open_file d).1)
                | fd f ↦ ((safe_read r rounds n f).0, (open_file d).1)
              ]).1
            ≡ file d
      by_open (not_opened e) = file-open_file d
      by_open (fd f) = file-open_file d

  -- Whatever the calls return, safe_write_file of a value that is not empty and has fewer than 2^32
  -- bytes leaves the file as it was: when safe_write has written the value it returns the number of its bytes, which the code takes for
  -- an error, so that it never comes to the rename.
  pub file-safe_write_file :
      (b : ℕ) (bs : List ℕ) (d : Dir)
      → length (b ∷ bs) < 4294967296
      → Untouched d (safe_write_file r w calls rounds (b ∷ bs) d)
  unfolding safe_write_file
  file-safe_write_file b bs d small = by_old (safe_read_file r w calls rounds 80 d).0
    where
      d1 : Dir
      d1 = (safe_read_file r w calls rounds 80 d).1

      read_keeps : file d1 ≡ file d
      read_keeps = file-safe_read_file 80 d

      fresh : Io ℕ × Dir
      fresh = elim (open_tmp d1).0 as (λ o. Io ℕ × Dir) [
        | not_opened e ↦ (io_error e, (open_tmp d1).1)
        | fd f ↦ write_tmp r w calls rounds (b ∷ bs) f (open_tmp d1).1
      ]

      opened : file (open_tmp d1).1 ≡ file d
      opened = file-open_tmp d1 ∙ read_keeps

      by_open :
          (o : Opened w.Fd)
          → Untouched d (elim o as (λ o. Io ℕ × Dir) [
            | not_opened e ↦ (io_error e, (open_tmp d1).1)
            | fd f ↦ write_tmp r w calls rounds (b ∷ bs) f (open_tmp d1).1
          ])
      by_open (not_opened e) = opened
      by_open (fd f) = write_tmp-Untouched b bs f (open_tmp d1).1 small ∙ opened

      by_old :
          (x : Io (List ℕ))
          → Untouched d (elim x as (λ r. Io ℕ × Dir) [
            | io old ↦
                if (length old == length (b ∷ bs) % 4294967296) && same_value old (b ∷ bs)
                then (io 0, d1)
                else fresh
            | io_error e ↦ fresh
            | no_end ↦ (no_end, d1)
          ])
      by_old (io old) =
          by_if (Untouched d)
            ((length old == length (b ∷ bs) % 4294967296) && same_value old (b ∷ bs))
            (λ t. read_keeps) λ t. by_open (open_tmp d1).0
      by_old (io_error e) = by_open (open_tmp d1).0
      by_old no_end = read_keeps
