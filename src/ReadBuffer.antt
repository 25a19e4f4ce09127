-- ===== src/ReadBuffer.antt =====
-- The prefetch buffer of a connection: read_bulk and read_until (src/async/AsyncConnection.cc). The
-- system call read is a parameter. `recv_buf` holds the bytes up to recv_end, and `filled` the bytes
-- that were put at `p` so far, so that state_offset is its length.
pub mod Loops
pub mod Stream
pub mod Examples
use msg.Prelude.{
  ℕ, zero, suc, ◌+◌, ◌-◌, ◌≤◌, ◌<◌, ◌≡◌, Bool, true, false, not, min, List, [], ◌∷◌, ◌++◌, length,
  take, drop, ltb, leb, ◌==◌, if◌then◌else◌,
}

-- What read returns: bytes (none at the end of the stream), EAGAIN or EINTR, or another error.
pub data ReadReturn : Type 0 where
  got : List ℕ → ReadReturn
  again : ReadReturn
  error : ReadReturn

-- read(2) on a stream socket takes at most as many bytes as it is asked for from the front of what
-- the peer sent, and none when it fails.
pub record SysRead : Type 1 where
  pub Socket : Type 0
  pub stream : Socket → List ℕ
  pub read : ℕ → Socket → ReadReturn × Socket
  pub read_some :
      (n : ℕ) (s : Socket) (bs : List ℕ)
      → (read n s).0 ≡ got bs
      → (length bs ≤ n) × (stream s ≡ bs ++ stream (read n s).1)
  pub read_again : (n : ℕ) (s : Socket) → (read n s).0 ≡ again → stream (read n s).1 ≡ stream s
  pub read_error : (n : ℕ) (s : Socket) → (read n s).0 ≡ error → stream (read n s).1 ≡ stream s

pub record Reader : Type 0 where
  pub recv_buf : List ℕ
  pub recv_start : ℕ
  pub filled : List ℕ

-- `finished bs` is 0 with the bytes at `p`, `remaining n` the number that is missing, `failed` is
-- any negative number; `asserts` is a failed assertion, or no fuel.
pub data Outcome : Type 0 where
  finished : List ℕ → Outcome
  remaining : ℕ → Outcome
  failed : Outcome
  asserts : Outcome

-- `bytes []` is the 0 for EAGAIN and EINTR.
pub data Bulk : Type 0 where
  bytes : List ℕ → Bulk
  failure : Bulk

-- `return len - state_offset`: a uint32_t becomes an int, which is negative from 2^31 on.
abbrev pub as_int : ℕ → Outcome
as_int n = if ltb n 2147483648 then remaining n else failed

-- The end of the stream is an error.
unfoldable pub bulk_of : ReadReturn → Bulk
bulk_of (got []) = failure
bulk_of (got (b ∷ bs)) = bytes (b ∷ bs)
bulk_of again = bytes []
bulk_of error = failure

-- recv_start and recv_end are 0.
abbrev pub cleared : List ℕ → Reader
cleared filled = record { recv_buf = []; recv_start = 0; filled = filled }

module _ (sys : SysRead) where
  open sys use {Socket, read}

  unfoldable pub read_bulk : ℕ → Socket → Bulk × Socket
  read_bulk n s = (bulk_of (read n s).0, (read n s).1)

  -- the loop for a read of more than recv_max_prefetch; `left` falls, so it is fuel enough. read(2)
  -- moves at most 0x7ffff000 bytes, so that the casts of `left` and of its result to int change no test.
  unfoldable pub large_loop : ℕ → ℕ → ℕ → List ℕ → Socket → Outcome × Reader × Socket
  large_loop zero len left filled s = (asserts, cleared filled, s)
  large_loop (suc fuel) len left filled s =
      let s' = (read_bulk left s).1 in
      elim (read_bulk left s).0 [
        | failure ↦ (failed, cleared filled, s')
        | bytes bs ↦
            let rest = large_loop fuel len (left - length bs) (filled ++ bs) s' in
            if length bs == left
            then (finished (filled ++ bs), cleared [], s')
            else (if length bs == 0
                then (as_int (len - length filled), cleared filled, s')
                else rest)
      ]

  -- the loop that reads into recv_buf, `buf` being what it has got; `max` is recv_max_prefetch, which is
  -- set from an int, so that `left` is one too
  unfoldable pub prefetch_loop :
      ℕ → ℕ → ℕ → ℕ → List ℕ → List ℕ → Socket → Outcome × Reader × Socket
  prefetch_loop zero max len left filled buf s = (asserts, cleared filled, s)
  prefetch_loop (suc fuel) max len left filled buf s =
      let s' = (read_bulk (max - length buf) s).1 in
      elim (read_bulk (max - length buf) s).0 [
        | failure ↦ (failed, record { recv_buf = buf; recv_start = 0; filled = filled }, s')
        | bytes bs ↦
            let buf' = buf ++ bs in
            let start = len - length filled in
            let rest = prefetch_loop fuel max len (left - length bs) filled buf' s' in
            if leb left (length bs)
            then (
              finished (filled ++ take start buf'),
              record { recv_buf = buf'; recv_start = start; filled = [] },
              s',
            )
            else (if length bs == 0
                then (as_int (len - (length filled + length buf')), cleared (filled ++ buf'), s')
                else rest)
      ]

  -- what follows the copy out of recv_buf
  unfoldable pub read_more : ℕ → ℕ → List ℕ → Socket → Outcome × Reader × Socket
  read_more max len filled s =
      let left = len - length filled in
      let large = large_loop left len left filled s in
      let prefetch = prefetch_loop left max len left filled [] s in
      if ltb max len then large else prefetch

  unfoldable pub read_until : ℕ → ℕ → Reader → Socket → Outcome × Reader × Socket
  read_until max len r s =
      let left = len - length r.filled in
      let to_read = min (length r.recv_buf - r.recv_start) left in
      let copied = r.filled ++ take to_read (drop r.recv_start r.recv_buf) in
      let more = read_more max len copied s in
      if len == 0
      then (asserts, r, s)
      else (if ltb r.recv_start (length r.recv_buf)
          then (if not (length r.filled == 0)
              then (asserts, r, s)
              else (if left - to_read == 0
                  then (
                    finished copied,
                    record r { recv_start = r.recv_start + to_read; filled = [] },
                    s,
                  )
                  else more))
          else (if r.recv_start == length r.recv_buf
              then read_more max len r.filled s
              else (asserts, r, s)))
