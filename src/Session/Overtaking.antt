-- ===== src/Session/Overtaking.antt =====
-- send_message takes any priority that fits its 16 bits, but requeue_sent relies on no message
-- standing above the requeued ones (src/async/AsyncConnection.cc).
use msg.Prelude.{ℕ, ◌+◌, ◌^◌, ◌<◌, ◌≡◌, false, some, [], ◌∷◌, arith}
use msg.StdMap.{lookup, insert, erase}
use msg.Session.{
  Session, Msg, prio_highest, enqueue, pump, send, next_outgoing, requeue_sent, requeue_loop,
  discard_requeued_up_to, discard_loop,
}

-- A lossless session that has just requeued `m`, and numbers it next.
abbrev pub requeued : ℕ → Msg → Session
requeued n m = record {
  lossy = false;
  connect_seq = 1;
  out_seq = n;
  in_seq = 0;
  in_seq_acked = 0;
  out_q = (prio_highest, m ∷ []) ∷ [];
  sent = [];
}

-- A new message `h` of a priority above 255 is sent first and takes the number of the requeued
-- message `m`. If the socket breaks again and the peer has `h`, both are dropped: `m` was never
-- sent under a number that the peer did not know already, and is lost.
pub overtaking_loses :
    (n : ℕ) (m h : Msg)
    → m.seq ≡ n + 1
    → n + 1 < 2 ^ 32
    → prio_highest < h.priority
    → let sent = pump (enqueue (requeued n m) h) in
      (sent.1 ≡ some (record h { seq = n + 1 }))
      × ((discard_requeued_up_to (requeue_sent sent.0) (n + 1)).out_q ≡ [])
      × ((discard_requeued_up_to (requeue_sent sent.0) (n + 1)).sent ≡ [])
unfolding pump enqueue send next_outgoing requeue_sent requeue_loop discard_requeued_up_to
    discard_loop lookup insert erase
overtaking_loses n m h e b p = ground arith
