-- ===== src/Session.antt =====
-- The message queues and sequence numbers of one connection (src/async/AsyncConnection.cc and the
-- inline parts of AsyncConnection.h). Each method returns the new state beside what it hands out.
-- A message is an envelope, of which the queues read `seq` and `priority`, and its bytes.
pub mod Numbering
pub mod Link
pub mod Queued
pub mod Next
pub mod Requeue
pub mod Invariant
pub mod Delivery
pub mod Recovery
pub mod Sending
pub mod ExactlyOnce
pub mod Overtaking
pub mod Wrap
mod Examples
use msg.Prelude.{
  ℕ, ◌+◌, ◌-◌, ◌%◌, ◌^◌, Bool, true, false, ◌||◌, Option, none, some, List, [], ◌∷◌, ◌++◌, reverse,
  bit_and, ltb, leb, ◌==◌, if◌then◌else◌,
}
use msg.StdMap.{lookup, insert, erase}

pub record Msg : Type 0 where
  pub seq : ℕ
  pub priority : ℕ
  pub body : List ℕ

abbrev pub prio_highest : ℕ
prio_highest = 255

-- uint64_t ++n and --n
abbrev pub inc64 : ℕ → ℕ
inc64 n = (n + 1) % 2 ^ 64

abbrev pub dec64 : ℕ → ℕ
dec64 n = (n + (2 ^ 64 - 1)) % 2 ^ 64

abbrev pub OutQueue : Type 0
OutQueue = List (ℕ × List Msg)

pub record Session : Type 0 where
  pub lossy : Bool
  pub connect_seq : ℕ
  pub out_seq : ℕ
  pub in_seq : ℕ
  pub in_seq_acked : ℕ
  pub out_q : OutQueue
  pub sent : List Msg

-- `out_q[p]`, which makes an empty queue where there is none
abbrev pub queue_at : ℕ → OutQueue → List Msg
queue_at p q = elim (lookup p q) [ none ↦ [] | some ms ↦ ms ]

-- the last branch of send_message
unfoldable pub enqueue : Session → Msg → Session
enqueue s m = record s {
  out_q = insert m.priority (queue_at m.priority s.out_q ++ (m ∷ [])) s.out_q;
}

-- `_get_next_outgoing`: queues found empty are dropped on the way.
unfoldable pub next_outgoing : OutQueue → Option Msg × OutQueue
next_outgoing [] = (none, [])
next_outgoing ((p, []) ∷ q) = next_outgoing q
next_outgoing ((p, m ∷ []) ∷ q) = (some m, q)
next_outgoing ((p, m ∷ (n ∷ ms)) ∷ q) = (some m, (p, n ∷ ms) ∷ q)

-- `unsigned get_seq()` and `set_seq(unsigned)` of Message.h: 32 bits of a 64-bit number
abbrev pub unsigned_seq : ℕ → ℕ
unsigned_seq n = n % 2 ^ 32

-- `_send`, up to what it hands to write_message
unfoldable pub send : Session → Msg → Session × Msg
send s m =
    let n = inc64 s.out_seq in
    let m' : Msg = record m { seq = unsigned_seq n } in
    (record s { out_seq = n; sent = if s.lossy then s.sent else s.sent ++ (m' ∷ []) }, m')

-- one round of the loop of handle_write
unfoldable pub pump : Session → Session × Option Msg
pump s =
    let (next, q) = next_outgoing s.out_q in
    elim next [
      | none ↦ (record s { out_q = q }, none)
      | some m ↦ let (s', m') = send (record s { out_q = q }) m in (s', some m')
    ]

-- `sent` from its back
unfoldable pub requeue_loop : List Msg → List Msg → ℕ → List Msg × ℕ
requeue_loop [] rq n = (rq, n)
requeue_loop (m ∷ back) rq n = requeue_loop back (m ∷ rq) (dec64 n)

unfoldable pub requeue_sent : Session → Session
requeue_sent s = elim s.sent [
  | [] ↦ s
  | _ ∷ _ ↦
      let (rq, n) = requeue_loop (reverse s.sent) (queue_at prio_highest s.out_q) s.out_seq in
      record s { out_q = insert prio_highest rq s.out_q; sent = []; out_seq = n }
]

unfoldable pub discard_loop : ℕ → List Msg → ℕ → List Msg × ℕ
discard_loop seq [] n = ([], n)
discard_loop seq (m ∷ rq) n =
    let rest = discard_loop seq rq (inc64 n) in
    if (m.seq == 0) || ltb seq m.seq then (m ∷ rq, n) else rest

abbrev pub set_or_erase : ℕ → List Msg → OutQueue → OutQueue
set_or_erase p [] q = erase p q
set_or_erase p (m ∷ ms) q = insert p (m ∷ ms) q

unfoldable pub discard_requeued_up_to : Session → ℕ → Session
discard_requeued_up_to s seq = elim (lookup prio_highest s.out_q) [
  | none ↦ s
  | some ms ↦
      let (rq, n) = discard_loop seq ms s.out_seq in
      record s { out_q = set_or_erase prio_highest rq s.out_q; out_seq = n }
]

unfoldable pub trim_sent : ℕ → List Msg → List Msg
trim_sent seq [] = []
trim_sent seq (m ∷ ms) = let rest = trim_sent seq ms in if leb m.seq seq then rest else m ∷ ms

unfoldable pub handle_ack : Session → ℕ → Session
handle_ack s seq = record s { sent = trim_sent seq s.sent }

unfoldable pub discard_out_queue : Session → Session
discard_out_queue s = record s { sent = []; out_q = [] }

-- `random` is what get_random_bytes leaves in out_seq; `auth` is the MSG_AUTH feature bit.
unfoldable pub randomize_out_seq : Session → Bool → ℕ → Session
randomize_out_seq s auth random =
    if auth then record s { out_seq = bit_and random 0x7fffffff } else record s { out_seq = 0 }

-- was_session_reset, without the dispatch queue
unfoldable pub was_session_reset : Session → Bool → ℕ → Session
was_session_reset s auth random = record (randomize_out_seq (discard_out_queue s) auth random) {
  in_seq = 0;
  connect_seq = 0;
  in_seq_acked = 0;
}

-- the sequence check of STATE_OPEN_MESSAGE_DISPATCH: whether the message goes on to the dispatcher
unfoldable pub receive : Session → Msg → Session × Bool
receive s m = if leb m.seq s.in_seq then (s, false) else (record s { in_seq = m.seq }, true)

-- the acknowledgement that handle_write sends, if one is due
unfoldable pub write_ack : Session → Session × Option ℕ
write_ack s =
    if ltb s.in_seq_acked s.in_seq
    then (record s { in_seq_acked = s.in_seq }, some s.in_seq)
    else (s, none)
