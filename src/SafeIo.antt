-- ===== src/SafeIo.antt =====
-- Whole reads and writes of a file descriptor, and the files that are written in one go
-- (src/safe_io.cc). read(2), write(2) and the calls on a directory are parameters. A loop takes the
-- number of its rounds, since an interrupted call is made again.
pub mod Streams
pub mod Writes
pub mod Files
pub mod Offsets
pub mod Stuck
mod Examples
use msg.Prelude.{
  ℕ, zero, suc, ◌+◌, ◌-◌, ◌≤◌, ◌<◌, ◌≡◌, Bool, true, false, List, [], ◌∷◌, ◌++◌, length, take, drop,
  ltb, leb, ◌==◌, ◌&&◌, if◌then◌else◌, Option, none, some,
}

-- EINTR, EAGAIN, EDOM, or another errno
pub data Errno : Type 0 where
  eintr eagain edom : Errno
  other_errno : ℕ → Errno

-- What read(2) returns, and write(2): the number of the bytes.
pub data ReadResult : Type 0 where
  read_bytes : List ℕ → ReadResult
  read_error : Errno → ReadResult

pub data WriteResult : Type 0 where
  wrote : ℕ → WriteResult
  write_error : Errno → WriteResult

-- A descriptor that is read from: what is to come, and how often a call is interrupted before it. A
-- read takes no more than it is asked for, and nothing only at the end of the file.
pub record Readable : Type 1 where
  pub Fd : Type 0
  pub rest : Fd → List ℕ
  pub interrupts : Fd → ℕ
  pub read : ℕ → Fd → ReadResult × Fd
  pub read_some :
      (n : ℕ) (fd : Fd) (bs : List ℕ)
      → (read n fd).0 ≡ read_bytes bs
      → (length bs ≤ n)
        × (rest fd ≡ bs ++ rest (read n fd).1)
        × (interrupts (read n fd).1 ≤ interrupts fd)
        × (0 < n → length bs ≡ 0 → rest fd ≡ [])
  pub read_fails :
      (n : ℕ) (fd : Fd) (e : Errno) → (read n fd).0 ≡ read_error e → rest (read n fd).1 ≡ rest fd
  pub read_interrupted :
      (n : ℕ) (fd : Fd)
      → (read n fd).0 ≡ read_error eintr
      → interrupts (read n fd).1 < interrupts fd

-- A descriptor that is written to: what it holds, and how often a call writes nothing.
pub record Writable : Type 1 where
  pub Fd : Type 0
  pub content : Fd → List ℕ
  pub idle : Fd → ℕ
  pub write : List ℕ → Fd → WriteResult × Fd
  pub write_some :
      (bs : List ℕ) (fd : Fd) (n : ℕ)
      → (write bs fd).0 ≡ wrote n
      → (n ≤ length bs)
        × (content (write bs fd).1 ≡ content fd ++ take n bs)
        × (0 < length bs → idle (write bs fd).1 + (if n == 0 then 1 else 0) ≤ idle fd)
  pub write_fails :
      (bs : List ℕ) (fd : Fd) (e : Errno)
      → (write bs fd).0 ≡ write_error e
      → content (write bs fd).1 ≡ content fd
  pub write_interrupted :
      (bs : List ℕ) (fd : Fd) → (write bs fd).0 ≡ write_error eintr → idle (write bs fd).1 < idle fd

-- What a call returns: a value, a negative errno, or no end within the rounds.
pub data Io (A : Type 0) : Type 0 where
  io : A → Io A
  io_error : Errno → Io A
  no_end : Io A

module _ (sys : Readable) where
  open sys use {Fd, read}

  -- the loop of safe_read: `buf` holds the `cnt` bytes so far
  unfoldable pub safe_read_loop : ℕ → ℕ → List ℕ → Fd → Io (List ℕ) × Fd
  safe_read_loop rounds zero buf fd = (io buf, fd)
  safe_read_loop zero (suc n) buf fd = (no_end, fd)
  safe_read_loop (suc rounds) (suc n) buf fd =
      let fd' = (read (suc n) fd).1 in
      elim (read (suc n) fd).0 as (λ r. Io (List ℕ) × Fd) [
        | read_bytes bs ↦
            let more = safe_read_loop rounds (suc n - length bs) (buf ++ bs) fd' in
            if length bs == 0 then (io buf, fd') else more
        | read_error e ↦ elim e as (λ e. Io (List ℕ) × Fd) [
          | eintr ↦ safe_read_loop rounds (suc n) buf fd'
          | eagain ↦ (if ltb 0 (length buf) then (io buf, fd') else (io_error eagain, fd'))
          | edom ↦ (io_error edom, fd')
          | other_errno n ↦ (io_error (other_errno n), fd')
        ]
      ]

  unfoldable pub safe_read : ℕ → ℕ → Fd → Io (List ℕ) × Fd
  safe_read rounds count fd = safe_read_loop rounds count [] fd

  -- Where the code returns 0, the result here is what `buf` holds.
  unfoldable pub safe_read_exact : ℕ → ℕ → Fd → Io (List ℕ) × Fd
  safe_read_exact rounds count fd =
      let (r, fd') = safe_read rounds count fd in
      elim r as (λ r. Io (List ℕ) × Fd) [
        | io bs ↦ (if length bs == count then (io bs, fd') else (io_error edom, fd'))
        | io_error e ↦ (io_error e, fd')
        | no_end ↦ (no_end, fd')
      ]

module _ (sys : Writable) where
  open sys use {Fd, write}

  -- the loop of safe_write: `bs` is still to be written
  unfoldable pub safe_write_loop : ℕ → List ℕ → ℕ → Fd → Io ℕ × Fd
  safe_write_loop rounds [] cnt fd = (io cnt, fd)
  safe_write_loop zero (b ∷ bs) cnt fd = (no_end, fd)
  safe_write_loop (suc rounds) (b ∷ bs) cnt fd =
      let fd' = (write (b ∷ bs) fd).1 in
      elim (write (b ∷ bs) fd).0 as (λ r. Io ℕ × Fd) [
        | wrote n ↦ safe_write_loop rounds (drop n (b ∷ bs)) (cnt + n) fd'
        | write_error e ↦ elim e as (λ e. Io ℕ × Fd) [
          | eintr ↦ safe_write_loop rounds (b ∷ bs) cnt fd'
          | eagain ↦ (if ltb 0 cnt then (io cnt, fd') else (io_error eagain, fd'))
          | edom ↦ (io_error edom, fd')
          | other_errno n ↦ (io_error (other_errno n), fd')
        ]
      ]

  unfoldable pub safe_write : ℕ → List ℕ → Fd → Io ℕ × Fd
  safe_write rounds bs fd = safe_write_loop rounds bs 0 fd
