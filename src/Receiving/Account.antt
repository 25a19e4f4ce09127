-- ===== src/Receiving/Account.antt =====
-- What the receipt of messages takes of the policy's throttlers, and who gives it back
-- (src/async/AsyncConnection.cc, include/msgr/Message.h).
use msg.Prelude.{ℕ, ◌+◌, ◌≡◌, refl, ap, ◌∙◌, false, List, length, if◌then◌else◌}
use msg.Connection.{State}
use msg.Connection.Held.{has_message, has_bytes}
use msg.Frame.{sum}
use msg.Receiving.{
  message_size, Receiver, Verdict, goes_on, passes, drops, fails, closes, rests, connects,
  no_memory,
}

-- What the account is about: what the connection holds, the size it holds it for and the size of its
-- header, what was taken and put back, and the sizes of the messages that are alive.
pub record Books : Type 0 where
  pub held_messages : ℕ
  pub held_bytes : ℕ
  pub held_for : ℕ
  pub size : ℕ
  pub taken_messages : ℕ
  pub taken_bytes : ℕ
  pub put_messages : ℕ
  pub put_bytes : ℕ
  pub alive : List ℕ

abbrev pub books : Receiver → Books
books r = record {
  held_messages = r.conn.held_messages;
  held_bytes = r.conn.held_bytes;
  held_for = r.conn.message_size;
  size = message_size r.header;
  taken_messages = r.taken_messages;
  taken_bytes = r.taken_bytes;
  put_messages = r.put_messages;
  put_bytes = r.put_bytes;
  alive = r.alive;
}

-- What was taken is what was put back, what the receipt holds in its state and what the messages that are alive
-- hold.
pub record Balanced (s : State) (b : Books) : Type 0 where
  pub held_one : b.held_messages ≡ (if has_message s then 1 else 0)
  pub held_size : b.held_bytes ≡ (if has_bytes s then b.size else 0)
  pub same_size : b.held_for ≡ b.size
  pub messages : b.taken_messages ≡ b.put_messages + b.held_messages + length b.alive
  pub bytes : b.taken_bytes ≡ b.put_bytes + b.held_bytes + sum b.alive

abbrev pub Accounted : Receiver → Type 0
Accounted r = Balanced r.conn.state (books r)

abbrev pub VerdictAccounted : Verdict → Type 0
VerdictAccounted (goes_on r) = Accounted r
VerdictAccounted (passes r m) = Accounted r
VerdictAccounted (drops r m) = Accounted r
VerdictAccounted (fails r) = Accounted r
VerdictAccounted (closes r) = Accounted r
VerdictAccounted rests = Unit
VerdictAccounted connects = Unit
VerdictAccounted no_memory = Unit

-- A change of the state that takes and gives back nothing.
pub moved :
    (s t : State) (b : Books)
    → has_message s ≡ has_message t
    → has_bytes s ≡ has_bytes t
    → Balanced s b
    → Balanced t b
moved s t b m h a = record {
  same_size = a.same_size;
  messages = a.messages;
  bytes = a.bytes;
  held_one = a.held_one ∙ ap (λ q. if q then 1 else 0) m;
  held_size = a.held_size ∙ ap (λ q. if q then b.size else 0) h;
}

-- A header is read while nothing is held.
pub resized :
    (s t : State) (b : Books) (n : ℕ)
    → has_message s ≡ false
    → has_bytes s ≡ false
    → has_message t ≡ false
    → has_bytes t ≡ false
    → Balanced s b
    → Balanced t (record b { held_for = n; size = n })
resized s t b n m h m' h' a = record {
  held_one = rw m' (rw m at a.held_one);
  held_size = rw h' (rw h at a.held_size);
  same_size = refl;
  messages = a.messages;
  bytes = a.bytes;
}
