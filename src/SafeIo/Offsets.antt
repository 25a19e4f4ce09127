-- ===== src/SafeIo/Offsets.antt =====
-- The calls of src/safe_io.cc at an offset, and safe_splice. pread(2), pwrite(2) and splice(2) are
-- parameters.
use msg.Prelude.{
  ℕ, zero, suc, ◌+◌, ◌-◌, ◌≡◌, refl, List, [], ◌∷◌, ◌++◌, length, drop, ltb, ◌==◌, if◌then◌else◌,
}
use msg.SafeIo.{
  eintr, eagain, edom, other_errno, ReadResult, read_bytes, read_error, WriteResult, wrote,
  write_error, Io, io, io_error, no_end,
}

module _ (Fd : Type 0) where
  -- `pread n off fd` and `pwrite bs off fd`; `splice n fd` moves bytes between the two descriptors of
  -- `fd`, and says how many.
  module _ (pread : ℕ → ℕ → Fd → ReadResult × Fd) where
    unfoldable pub safe_pread_loop : ℕ → ℕ → List ℕ → ℕ → Fd → Io (List ℕ) × Fd
    safe_pread_loop rounds zero buf off fd = (io buf, fd)
    safe_pread_loop zero (suc n) buf off fd = (no_end, fd)
    safe_pread_loop (suc rounds) (suc n) buf off fd =
        let s = pread (suc n) (off + length buf) fd in
        elim s.0 as (λ r. Io (List ℕ) × Fd) [
          | read_bytes bs ↦
              let more = safe_pread_loop rounds (suc n - length bs) (buf ++ bs) off s.1 in
              if length bs == 0 then (io buf, s.1) else more
          | read_error e ↦ elim e as (λ e. Io (List ℕ) × Fd) [
            | eintr ↦ safe_pread_loop rounds (suc n) buf off s.1
            | eagain ↦ (if ltb 0 (length buf) then (io buf, s.1) else (io_error eagain, s.1))
            | edom ↦ (io_error edom, s.1)
            | other_errno n ↦ (io_error (other_errno n), s.1)
          ]
        ]

    unfoldable pub safe_pread : ℕ → ℕ → ℕ → Fd → Io (List ℕ) × Fd
    safe_pread rounds count off fd = safe_pread_loop rounds count [] off fd

    unfoldable pub safe_pread_exact : ℕ → ℕ → ℕ → Fd → Io (List ℕ) × Fd
    safe_pread_exact rounds count off fd =
        let s = safe_pread rounds count off fd in
        elim s.0 as (λ r. Io (List ℕ) × Fd) [
          | io bs ↦ (if length bs == count then (io bs, s.1) else (io_error edom, s.1))
          | io_error e ↦ (io_error e, s.1)
          | no_end ↦ (no_end, s.1)
        ]

  module _ (pwrite : List ℕ → ℕ → Fd → WriteResult × Fd) where
    -- `cnt` is passed on as it is: the code never adds to it.
    unfoldable pub safe_pwrite_loop : ℕ → List ℕ → ℕ → ℕ → Fd → Io ℕ × Fd
    safe_pwrite_loop rounds [] cnt off fd = (io cnt, fd)
    safe_pwrite_loop zero (b ∷ bs) cnt off fd = (no_end, fd)
    safe_pwrite_loop (suc rounds) (b ∷ bs) cnt off fd =
        let s = pwrite (b ∷ bs) off fd in
        elim s.0 as (λ r. Io ℕ × Fd) [
          | wrote n ↦ safe_pwrite_loop rounds (drop n (b ∷ bs)) cnt (off + n) s.1
          | write_error e ↦ elim e as (λ e. Io ℕ × Fd) [
            | eintr ↦ safe_pwrite_loop rounds (b ∷ bs) cnt off s.1
            | eagain ↦ (if ltb 0 cnt then (io cnt, s.1) else (io_error eagain, s.1))
            | edom ↦ (io_error edom, s.1)
            | other_errno n ↦ (io_error (other_errno n), s.1)
          ]
        ]

    unfoldable pub safe_pwrite : ℕ → List ℕ → ℕ → Fd → Io ℕ × Fd
    safe_pwrite rounds bs off fd = safe_pwrite_loop rounds bs 0 off fd

    abbrev Nothing : Io ℕ × Fd → Type 0
    Nothing (io n, fd) = n ≡ 0
    Nothing (io_error e, fd) = Unit
    Nothing (no_end, fd) = Unit

    safe_pwrite_loop-Nothing :
        (rounds : ℕ) (bs : List ℕ) (off : ℕ) (fd : Fd)
        → Nothing (safe_pwrite_loop rounds bs 0 off fd)
    unfolding safe_pwrite_loop
    safe_pwrite_loop-Nothing rounds [] off fd = refl
    safe_pwrite_loop-Nothing zero (b ∷ bs) off fd = tt
    safe_pwrite_loop-Nothing (suc rounds) (b ∷ bs) off fd =
        by_write (pwrite (b ∷ bs) off fd).0
          (λ n. safe_pwrite_loop-Nothing rounds (drop n (b ∷ bs)) (off + n) fd')
          (safe_pwrite_loop-Nothing rounds (b ∷ bs) off fd')
      where
        fd' : Fd
        fd' = (pwrite (b ∷ bs) off fd).1

        by_write :
            (r : WriteResult)
            → ((n : ℕ) → Nothing (safe_pwrite_loop rounds (drop n (b ∷ bs)) 0 (off + n) fd'))
            → Nothing (safe_pwrite_loop rounds (b ∷ bs) 0 off fd')
            → Nothing (elim r as (λ r. Io ℕ × Fd) [
              | wrote n ↦ safe_pwrite_loop rounds (drop n (b ∷ bs)) 0 (off + n) fd'
              | write_error e ↦ elim e as (λ e. Io ℕ × Fd) [
                | eintr ↦ safe_pwrite_loop rounds (b ∷ bs) 0 off fd'
                | eagain ↦ (if ltb 0 0 then (io 0, fd') else (io_error eagain, fd'))
                | edom ↦ (io_error edom, fd')
                | other_errno n ↦ (io_error (other_errno n), fd')
              ]
            ])
        by_write (wrote n) more again = more n
        by_write (write_error eintr) more again = again
        by_write (write_error eagain) more again = tt
        by_write (write_error edom) more again = tt
        by_write (write_error (other_errno n)) more again = tt

    -- However many bytes it writes, safe_pwrite returns 0 when it does not fail.
    pub safe_pwrite-Nothing :
        (rounds : ℕ) (bs : List ℕ) (off : ℕ) (fd : Fd) → Nothing (safe_pwrite rounds bs off fd)
    unfolding safe_pwrite
    safe_pwrite-Nothing rounds bs off fd = safe_pwrite_loop-Nothing rounds bs off fd

  module _ (splice : ℕ → Fd → WriteResult × Fd) where
    unfoldable pub safe_splice_loop : ℕ → ℕ → ℕ → Fd → Io ℕ × Fd
    safe_splice_loop rounds zero cnt fd = (io cnt, fd)
    safe_splice_loop zero (suc n) cnt fd = (no_end, fd)
    safe_splice_loop (suc rounds) (suc n) cnt fd =
        let s = splice (suc n) fd in
        elim s.0 as (λ r. Io ℕ × Fd) [
          | wrote k ↦
              let more = safe_splice_loop rounds (suc n - k) (cnt + k) s.1 in
              if k == 0 then (io cnt, s.1) else more
          | write_error e ↦ elim e as (λ e. Io ℕ × Fd) [
            | eintr ↦ safe_splice_loop rounds (suc n) cnt s.1
            | eagain ↦ (if ltb 0 cnt then (io cnt, s.1) else (io_error eagain, s.1))
            | edom ↦ (io_error edom, s.1)
            | other_errno n ↦ (io_error (other_errno n), s.1)
          ]
        ]

    unfoldable pub safe_splice : ℕ → ℕ → Fd → Io ℕ × Fd
    safe_splice rounds len fd = safe_splice_loop rounds len 0 fd

    unfoldable pub safe_splice_exact : ℕ → ℕ → Fd → Io ℕ × Fd
    safe_splice_exact rounds len fd =
        let s = safe_splice rounds len fd in
        elim s.0 as (λ r. Io ℕ × Fd) [
          | io n ↦ (if n == len then (io 0, s.1) else (io_error edom, s.1))
          | io_error e ↦ (io_error e, s.1)
          | no_end ↦ (no_end, s.1)
        ]
