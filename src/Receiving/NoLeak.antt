-- ===== src/Receiving/NoLeak.antt =====
-- The account of the throttlers over the life of a connection: receipts, faults, new openings and the
-- end of messages (src/async/AsyncConnection.cc, include/msgr/Message.h).
use msg.Prelude.{ℕ, zero, suc, Bool, ◌+◌, ◌<◌, ◌≡◌, false, List, [], ◌∷◌, length, get_or}
use msg.Connection.{
  Conn, messages_put, bytes_put, stop, state_open, closed, is_state, fault, Fault, unchanged,
  stopped, aborted, on_standby, reconnect,
}
use msg.Negotiation.Replace.{moved_over}
use msg.Connection.Held.{Held, has_message}
use msg.Frame.{Codec}
use msg.Receiving.{
  Receiver, Memory, Verdict, goes_on, passes, drops, fails, closes, rests, connects, no_memory,
  advance,
}

abbrev pub remove_at : ℕ → List ℕ → List ℕ
remove_at i [] = []
remove_at zero (x ∷ xs) = xs
remove_at (suc i) (x ∷ xs) = x ∷ remove_at i xs

-- ~Message of a message that is alive
unfoldable pub destroy : ℕ → Receiver → Receiver
destroy i r = record r {
  put_messages = r.put_messages + 1;
  put_bytes = r.put_bytes + get_or r.alive i 0;
  alive = remove_at i r.alive;
}

-- The receiver after its connection has become `c` through release_throttle, with what that has put.
abbrev pub released : Receiver → Conn → Receiver
released r c = record r {
  conn = c;
  put_messages = r.put_messages + messages_put r.conn.state;
  put_bytes = r.put_bytes + bytes_put r.conn.state r.conn;
}

-- the connection that a fault leaves
abbrev pub Leaves : Fault → Conn → Type 0
Leaves unchanged c = ⊥
Leaves aborted c = ⊥
Leaves (stopped d) c = d ≡ c
Leaves (on_standby d) c = d ≡ c
Leaves (reconnect d t) c = d ≡ c

-- the receiver that a verdict goes on with
abbrev pub Next : Verdict → Receiver → Type 0
Next (goes_on r) r' = r ≡ r'
Next (passes r m) r' = r ≡ r'
Next (drops r m) r' = r ≡ r'
Next (fails r) r' = r ≡ r'
Next (closes r) r' = r ≡ r'
Next rests r' = ⊥
Next connects r' = ⊥
Next no_memory r' = ⊥

module _ (codec : Codec) (memory : Memory) where
  -- One step in the life of a connection: a state handles some bytes, a fault, _stop of a connection
  -- that is not closed, do_replace with the socket of another connection, a new opening by the
  -- negotiation, which runs in states that hold nothing and leaves the throttlers alone, or the end of a
  -- message.
  pub data Step : Receiver → Receiver → Type 0 where
    receives :
        {r r' : Receiver} (bs : List ℕ)
        → Next (advance codec memory r.conn.state r bs) r'
        → Step r r'
    breaks :
        {r : Receiver} (initial max : ℕ) (c : Conn)
        → Leaves (fault initial max r.conn) c
        → Step r (released r c)
    stops :
        {r : Receiver} → is_state r.conn.state closed ≡ false → Step r (released r (stop r.conn))
    replaces :
        {r : Receiver} (auth : Bool) (random fd : ℕ)
        → Step r (released r (moved_over auth random fd r.conn))
    opens :
        {r : Receiver} (c : Conn)
        → has_message r.conn.state ≡ false
        → c.state ≡ state_open
        → c.held_messages ≡ r.conn.held_messages
        → c.held_bytes ≡ r.conn.held_bytes
        → c.message_size ≡ r.conn.message_size
        → Step r (record r { conn = c })
    ends : {r : Receiver} (i : ℕ) → i < length r.alive → Step r (destroy i r)

  pub data Lives : Receiver → Receiver → Type 0 where
    here : {r : Receiver} → Lives r r
    then_step : {r s t : Receiver} → Lives r s → Step s t → Lives r t
