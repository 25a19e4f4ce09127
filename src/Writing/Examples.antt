-- ===== src/Writing/Examples.antt =====
-- The theorems of what a connection writes, at concrete writers and readers.
use msg.Prelude.{◌≡◌, refl, arith, true, false, List, [], ◌∷◌, ◌++◌}
use msg.Session.{Msg}
use msg.Connection.{state_open}
use msg.Frame.{Message, encode, encode_missing, envelope, calc_header_crc}
use msg.Receiving.{Receiver}
use msg.Receiving.Reads.{Reads}
use msg.Receiving.Encoded.{sent_as, encode-Readable}
use msg.Receiving.Examples.{
  open_conn, counting, two_pieces, two_pieces-Enough, ping, receiver, ping-Fitting, ping-Accepted,
}
use msg.Writing.{Written, keepalive2, ack, message, all_bytes}
use msg.Writing.Received.{Sound, arrivals, after_all, written_is_read}
use msg.Writing.Handler.{Writer}

-- A keepalive, a message with the number 5, and an acknowledgement.
abbrev written : List Written
written = keepalive2 (7 ∷ (9 ∷ [])) ∷ (message (sent_as counting 0 ping) ∷ (ack 3 ∷ []))

written-Sound : Sound counting receiver.conn.session.in_seq written
unfolding encode encode_missing envelope calc_header_crc
written-Sound = (
  (omega arith, (omega arith, tt)),
  (encode-Readable counting 0 ping ping-Fitting ping-Accepted, omega arith, (omega arith, tt)),
)

written_is_read_example :
    (t : Receiver) × Reads counting two_pieces receiver
      (all_bytes written ++ (1 ∷ []))
      t
      (1 ∷ [])
      (arrivals counting written)
    × (t.conn.state ≡ state_open)
    × (t.conn.session ≡ after_all counting receiver.conn.session written)
written_is_read_example =
    written_is_read counting two_pieces two_pieces-Enough written (1 ∷ []) receiver refl
      written-Sound

-- Every message is a ping with its number.
abbrev pings : Msg → Message
pings m = ping

abbrev writer : Writer
writer = record {
  session = record open_conn.session {
    out_seq = 4;
    out_q = (127, record { seq = 0; priority = 127; body = [] } ∷ []) ∷ [];
    in_seq = 9;
  };
  state = state_open;
  stopping = false;
  keepalive = true;
  keepalive_ack = false;
  keepalive_ack_stamp = 1 ∷ (2 ∷ []);
  sending = false;
  handle_write_delayed = false;
}
