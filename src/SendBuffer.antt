-- ===== src/SendBuffer.antt =====
-- What a connection writes to its socket: do_sendmsg and _try_send (src/async/AsyncConnection.cc). The
-- system call sendmsg is a parameter. A list of buffers is an iovec or a bufferlist, each buffer its
-- bytes. Buffers that copy themselves to the socket (can_zero_copy) are left out.
pub mod Drain
pub mod Order
pub mod Ends
mod Examples
use msg.Prelude.{
  ℕ, zero, suc, ◌+◌, ◌-◌, ◌≤◌, ◌≡◌, Bool, true, false, List, [], ◌∷◌, ◌++◌, length, take, drop, ltb,
  leb, ◌==◌, if◌then◌else◌,
}
use msg.Buffers.{wrap32}

pub data SendReturn : Type 0 where
  sent : ℕ → SendReturn
  interrupted : SendReturn
  would_block : SendReturn
  error : SendReturn

-- the bytes of a list of buffers
abbrev pub flat : List (List ℕ) → List ℕ
flat [] = []
flat (b ∷ bs) = b ++ flat bs

-- sendmsg(2) puts as many bytes on the wire as it says, from the front of its message, and none when
-- it fails.
pub record SysSend : Type 1 where
  pub Socket : Type 0
  pub wire : Socket → List ℕ
  pub sendmsg : List (List ℕ) → Socket → SendReturn × Socket
  pub sent_some :
      (iov : List (List ℕ)) (s : Socket) (n : ℕ)
      → (sendmsg iov s).0 ≡ sent n
      → (n ≤ length (flat iov)) × (wire (sendmsg iov s).1 ≡ wire s ++ take n (flat iov))
  pub sent_interrupted :
      (iov : List (List ℕ)) (s : Socket)
      → (sendmsg iov s).0 ≡ interrupted
      → wire (sendmsg iov s).1 ≡ wire s
  pub sent_blocked :
      (iov : List (List ℕ)) (s : Socket)
      → (sendmsg iov s).0 ≡ would_block
      → wire (sendmsg iov s).1 ≡ wire s
  pub sent_error :
      (iov : List (List ℕ)) (s : Socket)
      → (sendmsg iov s).0 ≡ error
      → wire (sendmsg iov s).1 ≡ wire s

-- the inner loop of do_sendmsg: `r` bytes go from the front
unfoldable pub drain : ℕ → List (List ℕ) → List (List ℕ)
drain zero iov = iov
drain (suc r) [] = []
drain (suc r) (b ∷ iov) =
    let rest = drain (suc r - length b) iov in
    if leb (length b) (suc r) then rest else drop (suc r) b ∷ iov

-- outcoming_bl.splice(0, n, NULL): buffers that are used up go
unfoldable pub splice_front : ℕ → List (List ℕ) → List (List ℕ)
splice_front n [] = []
splice_front n (b ∷ bl) =
    let rest = splice_front (n - length b) bl in
    if n == 0 then b ∷ bl else (if leb (length b) n then rest else drop n b ∷ bl)

-- what is left of the message, or the error; `no_end` is for the rounds that the caller allows
pub data Sending : Type 0 where
  left : ℕ → Sending
  failed : Sending
  no_end : Sending

-- a uint32_t less the result of a call; sendmsg(2) moves at most 0x7ffff000 bytes
unfoldable pub minus32 : ℕ → ℕ → ℕ
minus32 n r = if leb r n then n - r else n + 4294967296 - r

-- a uint32_t that is returned as an int: from 2^31 on it is negative, which the callers take for an
-- error
abbrev pub as_int : ℕ → Sending
as_int n = if ltb n 2147483648 then left n else failed

module _ (sys : SysSend) where
  open sys use {Socket, sendmsg}

  -- `len` is the length of the message, a uint32_t. A round may send nothing (EINTR, or 0), so the number of
  -- rounds is a bound that the socket decides.
  unfoldable pub do_sendmsg : ℕ → List (List ℕ) → ℕ → Socket → Sending × Socket
  do_sendmsg zero iov len s = (no_end, s)
  do_sendmsg (suc rounds) iov len s =
      let s' = (sendmsg iov s).1 in
      let round = elim (sendmsg iov s).0 as (λ r. Sending × Socket) [
        | interrupted ↦ do_sendmsg rounds iov len s'
        | would_block ↦ (as_int len, s')
        | error ↦ (failed, s')
        | sent r ↦
            let len' = minus32 len r in
            let more = do_sendmsg rounds (drain r iov) len' s' in
            if len' == 0 then (left 0, s') else more
      ] in
      if len == 0 then (left 0, s) else round

  -- the loop of _try_send, with the buffers in outcoming_bl; `slots` is the size of msgvec
  unfoldable pub send_loop : ℕ → ℕ → List (List ℕ) → Socket → Sending × List (List ℕ) × Socket
  send_loop rounds slots [] s = (left 0, [], s)
  send_loop zero slots (b ∷ bl) s = (no_end, b ∷ bl, s)
  send_loop (suc rounds) slots (b ∷ bl) s =
      let iov = take slots (b ∷ bl) in
      let msglen = wrap32 (length (flat iov)) in
      let (r, s') = do_sendmsg (suc rounds) iov msglen s in
      elim r [
        | failed ↦ (failed, b ∷ bl, s')
        | no_end ↦ (no_end, b ∷ bl, s')
        | left n ↦
            let bl' = splice_front (minus32 msglen n) (b ∷ bl) in
            let rest = send_loop rounds slots bl' s' in
            if ltb 0 n then (as_int (wrap32 (length (flat bl'))), bl', s') else rest
      ]

  -- The result is the length of outcoming_bl, or the error.
  unfoldable pub try_send :
      ℕ → ℕ → Bool → List (List ℕ) → List (List ℕ) → Socket → Sending × List (List ℕ) × Socket
  try_send rounds slots send outcoming_bl send_bl s =
      let bl = outcoming_bl ++ send_bl in
      if send then send_loop rounds slots bl s else (as_int (wrap32 (length (flat bl))), bl, s)
