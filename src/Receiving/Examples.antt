-- ===== src/Receiving/Examples.antt =====
-- The theorems of the receipt of messages on a connection, a message and a socket.
use msg.Prelude.{
  ℕ, ◌+◌, ◌<◌, ◌≡◌, ◌≢◌, refl, arith, true, false, none, some, List, [], ◌∷◌, ◌++◌, length, ◌==◌,
  if◌then◌else◌, inl,
}
use msg.Session.{unsigned_seq, receive}
use msg.Connection.{Conn, state_none, state_open, open_keepalive2}
use msg.Frame.{
  Header, Message, Codec, encode, encode_missing, envelope, calc_header_crc, calc_front_crc,
  header_bytes, message_bytes, le_bytes, pack,
}
use msg.Frame.Intact.{Accepted, parts}
use msg.ReadBuffer.{Reader, cleared}
use msg.ReadBuffer.Loops.{unread}
use msg.ReadBuffer.Examples.{peer}
use msg.Receiving.{Receiver, Memory, message_size, msg_of, wants, advance, read_tag, in_state}
use msg.Receiving.Reads.{Reads}
use msg.Receiving.Parts.{Enough}
use msg.Receiving.Encoded.{sent_as, Fitting, encoded_is_read}
use msg.Receiving.NoLeak.{destroy}
use msg.Receiving.Loop.{do_process, no_fuel}
use msg.Receiving.Process.{Ready, Through, do_process-Through}
use msg.Receiving.Ends.{do_process_ends}

abbrev pub open_conn : Conn
open_conn = record {
  id = 1;
  state = state_open;
  state_after_send = state_none;
  session = record {
    lossy = false;
    connect_seq = 3;
    out_seq = 9;
    in_seq = 4;
    in_seq_acked = 4;
    out_q = [];
    sent = [];
  };
  policy = record {
    server = false;
    standby = false;
    resetcheck = true;
    features_supported = 7;
    features_required = 1;
  };
  global_seq = 5;
  peer_global_seq = 2;
  features = 0;
  got_bad_auth = false;
  queue_reset = false;
  stopping = false;
  sd = some 8;
  recv_buf = [];
  recv_start = 0;
  outcoming_bl = [];
  replacing = 0;
  replacing_reset_session = false;
  is_reset_from_peer = false;
  replacing_sd = none;
  replacing_buf = [];
  replacing_connect = none;
  backoff = 0;
  message_size = 0;
  held_messages = 0;
  held_bytes = 0;
}

-- A checksum that counts; messages of type 42 are known.
abbrev pub counting : Codec
counting = record {
  crc32c = λ bs. length bs;
  crc_header = true;
  crc_data = true;
  make_message = λ t. if t == 42 then some 1 else none;
  decode_payload = λ m. true;
  encode_payload = λ f m. m;
}

abbrev pub two_pieces : Memory
two_pieces = record {
  rx_buffers = λ tid. none;
  allocate_msg_data = λ h. 2 ∷ ((h.data_len + 1) ∷ []);
}

pub two_pieces-Enough : Enough two_pieces
two_pieces-Enough = record {
  posted_pieces = λ tid buffer e. absurd (cc);
  pieces = λ h. (omega arith, (omega arith, tt));
  size = λ h. omega arith;
}

abbrev pub ping : Message
ping = record {
  header = record {
    seq = 5;
    tid = 1;
    type = 42;
    priority = 127;
    version = 1;
    front_len = 0;
    middle_len = 0;
    data_len = 0;
    data_off = 0;
    src_type = 8;
    src_num = 3;
    compat_version = 1;
    reserved = 0;
    crc = 0;
  };
  footer = record { front_crc = 0; middle_crc = 0; data_crc = 0; sig = 0; flags = 0 };
  payload = 1 ∷ (2 ∷ []);
  middle = [];
  data_bl = 7 ∷ (8 ∷ (9 ∷ []));
}

abbrev pub receiver : Receiver
receiver = record {
  conn = open_conn;
  header = ping.header;
  footer = ping.footer;
  front = [];
  middle = [];
  data_bl = [];
  data_blp = [];
  msg_left = 0;
  keepalive_ack = false;
  keepalive_ack_stamp = [];
  last_keepalive_ack = [];
  taken_messages = 0;
  taken_bytes = 0;
  put_messages = 0;
  put_bytes = 0;
  alive = [];
}

pub ping-Fitting : Fitting counting 0 ping
unfolding encode encode_missing envelope calc_header_crc calc_front_crc header_bytes pack le_bytes
ping-Fitting = record {
  payload_len = omega arith;
  middle_len = omega arith;
  data_len = omega arith;
  header_fits = (
    omega arith,
    (
      omega arith,
      (
        omega arith,
        (
          omega arith,
          (
            omega arith,
            (
              omega arith,
              (
                omega arith,
                (
                  omega arith,
                  (
                    omega arith,
                    (omega arith, (omega arith, (omega arith, (omega arith, (omega arith, tt))))),
                  ),
                ),
              ),
            ),
          ),
        ),
      ),
    ),
  );
  footer_fits = (omega arith, (omega arith, (omega arith, (omega arith, (omega arith, tt)))));
}

abbrev pub arrives : Message
arrives =
    parts counting (sent_as counting 0 ping).header (sent_as counting 0 ping).payload
      (sent_as counting 0 ping).middle (sent_as counting 0 ping).data_bl

pub ping-Accepted : Accepted counting arrives
unfolding encode encode_missing envelope calc_header_crc
ping-Accepted = record { version = 1; known = refl; recent = refl; decodes = refl }

later : open_conn.session.in_seq < unsigned_seq (sent_as counting 0 ping).header.seq
unfolding encode encode_missing envelope calc_header_crc
later = omega arith

encoded_is_read_example :
    (t : Receiver) × Reads counting two_pieces receiver
      (message_bytes (sent_as counting 0 ping) ++ (14 ∷ []))
      t
      (14 ∷ [])
      (arrives ∷ [])
    × (t.conn.state ≡ state_open)
    × (t.conn.session ≡ (receive receiver.conn.session (msg_of arrives)).0)
    × (t.alive ≡ message_size (sent_as counting 0 ping).header ∷ [])
encoded_is_read_example =
    encoded_is_read counting 0 ping two_pieces (14 ∷ []) receiver ping-Fitting ping-Accepted
      two_pieces-Enough refl later

-- While a message of five bytes is alive, a tag is read, and the message ends.
abbrev holder : Receiver
holder = record receiver { taken_messages = 1; taken_bytes = 5; alive = 5 ∷ [] }

abbrev after : Receiver
after = destroy 0 (in_state open_keepalive2 holder)

fresh : (n : ℕ) → Ready 4 n (cleared [])
fresh n = record { partial = inl refl; within = omega arith; size = omega arith; apart = inl refl }

-- The message's bytes on a socket that gives three at once, and a recv_buf of four.
abbrev stream_of_ping : List ℕ
stream_of_ping = message_bytes (sent_as counting 0 ping) ++ (15 ∷ [])

do_process-Through_example :
    Through counting two_pieces peer 4 receiver
      (unread peer (cleared []) stream_of_ping)
      (do_process counting two_pieces peer 600 4 100 0 receiver (cleared []) stream_of_ping)
do_process-Through_example =
    do_process-Through counting two_pieces peer 600 4 100 0 receiver (cleared []) stream_of_ping
      (fresh _)

do_process_ends_example :
    (do_process counting two_pieces peer 27 4 100 0 receiver (cleared []) (14 ∷ (1 ∷ []))).ending
    ≢ no_fuel
do_process_ends_example =
    do_process_ends counting two_pieces peer two_pieces-Enough 27 4 100 0 receiver (cleared [])
      (14 ∷ (1 ∷ [])) tt (fresh _) (omega arith)

-- What it passes on, run.
passed_of_ping :
    (do_process counting two_pieces peer 600 4 100 0 receiver (cleared []) stream_of_ping).passed
    ≡ arrives ∷ []
unfolding do_process msg.Receiving.Loop.read_item wants msg.ReadBuffer.read_until
    msg.ReadBuffer.read_more msg.ReadBuffer.prefetch_loop msg.ReadBuffer.read_bulk
    msg.ReadBuffer.bulk_of message_bytes msg.Frame.write_message header_bytes pack le_bytes
    msg.Receiving.Loop.on_verdict advance read_tag msg.ReadBuffer.large_loop msg.Frame.crc_matches
    msg.Frame.decode_message msg.Frame.footer_bytes msg.Frame.le_number msg.Frame.read_footer
    msg.Frame.read_header msg.Frame.unpack msg.Receiving.advance_blp msg.Receiving.dispatch
    message_size msg.Receiving.prepare_data msg.Receiving.read_data
    msg.Receiving.read_message_footer msg.Receiving.read_message_header receive encode
    encode_missing envelope calc_header_crc calc_front_crc
passed_of_ping = refl
