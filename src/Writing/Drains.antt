-- ===== src/Writing/Drains.antt =====
-- handle_write with a socket that takes everything (src/async/AsyncConnection.cc).
use msg.Prelude.{ℕ, suc, ◌+◌, ◌≤◌, ◌≡◌, Option, none, some, List, [], ◌∷◌, length}
use msg.Session.{Session, Msg, OutQueue}
use msg.Frame.{Message, Codec}
use msg.Writing.{Written, keepalive2, keepalive2_ack, ack, message}
use msg.Writing.Handler.{Writer, leaves, Pumped, Wrote, kicks}

-- how many messages are queued
abbrev pub queued : OutQueue → ℕ
queued [] = 0
queued ((p, ms) ∷ q) = length ms + queued q

-- how many messages are among these
abbrev pub messages : List Written → ℕ
messages [] = 0
messages (message m ∷ ws) = suc (messages ws)
messages (keepalive2 ts ∷ ws) = messages ws
messages (keepalive2_ack ts ∷ ws) = messages ws
messages (ack n ∷ ws) = messages ws

-- The next message is taken off the queues; if there is none, no queue is left.
abbrev Counted : ℕ → Option Msg × OutQueue → Type 0
Counted n (none, q) = (n ≡ 0) × (q ≡ [])
Counted n (some m, q) = n ≡ queued q + 1

abbrev PumpCounted : ℕ → Session × Option Msg → Type 0
PumpCounted n (s, none) = (n ≡ 0) × (s.out_q ≡ [])
PumpCounted n (s, some m) = n ≡ queued s.out_q + 1

module _ (codec : Codec) (features : ℕ) (message_of : Msg → Message) where
  -- All went out: as many messages as were queued.
  pub record Emptied (s : Session) (p : Pumped) : Type 0 where
    pub nothing_left : p.session.out_q ≡ []
    pub all_written : messages p.frames ≡ queued s.out_q
    pub answered : p.answer ≡ leaves 0
    pub attempts : p.attempts ≡ []

  -- Nothing is left to write: no message is queued, as many messages as there were are written, all that
  -- was received is acknowledged, and kick_write comes next.
  abbrev pub Drained : Writer → Wrote → Type 0
  Drained w x =
      (x.writer.session.out_q ≡ [])
      × (messages x.frames ≡ queued w.session.out_q)
      × (x.writer.session.in_seq ≤ x.writer.session.in_seq_acked)
      × (x.ending ≡ kicks)
