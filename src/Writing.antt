-- ===== src/Writing.antt =====
-- What an open connection writes: the keepalives of _send_keepalive_or_ack, the acknowledgements of
-- handle_write and the messages of _send (src/async/AsyncConnection.cc). A time is its seconds and
-- nanoseconds.
pub mod Received
pub mod Handler
pub mod Counts
pub mod Numbers
pub mod Drains
mod Examples
use msg.Prelude.{ℕ, List, [], ◌∷◌, ◌++◌}
use msg.Session.{Session, receive, handle_ack}
use msg.Frame.{Message, le_bytes, pack, message_bytes, no_footer, Codec}
use msg.Receiving.{tag_ack, tag_keepalive2, tag_keepalive2_ack}

pub data Written : Type 0 where
  keepalive2 : List ℕ → Written
  keepalive2_ack : List ℕ → Written
  ack : ℕ → Written
  message : Message → Written

-- what is handed to _try_send for one of these
unfoldable pub written_bytes : Written → List ℕ
written_bytes (keepalive2 ts) = tag_keepalive2 ∷ pack (4 ∷ (4 ∷ [])) ts
written_bytes (keepalive2_ack ts) = tag_keepalive2_ack ∷ pack (4 ∷ (4 ∷ [])) ts
written_bytes (ack n) = tag_ack ∷ le_bytes 8 n
written_bytes (message m) = message_bytes m

abbrev pub all_bytes : List Written → List ℕ
all_bytes [] = []
all_bytes (w ∷ ws) = written_bytes w ++ all_bytes ws
