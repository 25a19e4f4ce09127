-- ===== src/Connection/Examples.antt =====
-- The theorems of the connection at concrete states.
use msg.Prelude.{◌≡◌, refl, arith, true, false, none, some, []}
use msg.Connection.{Conn, state_none, connecting, open_message_read_data, rank}
use msg.Connection.Held.{Held}
use msg.Connection.Backoff.{delay, delay-capped}

abbrev client : Conn
client = record {
  id = 1;
  state = connecting;
  state_after_send = state_none;
  session = record {
    lossy = false;
    connect_seq = 3;
    out_seq = 9;
    in_seq = 4;
    in_seq_acked = 4;
    out_q = [];
    sent = [];
  };
  policy = record {
    server = false;
    standby = false;
    resetcheck = true;
    features_supported = 7;
    features_required = 1;
  };
  global_seq = 5;
  peer_global_seq = 2;
  features = 0;
  got_bad_auth = false;
  queue_reset = false;
  stopping = false;
  sd = some 8;
  recv_buf = [];
  recv_start = 0;
  outcoming_bl = [];
  replacing = 0;
  replacing_reset_session = false;
  is_reset_from_peer = false;
  replacing_sd = none;
  replacing_buf = [];
  replacing_connect = none;
  backoff = 0;
  message_size = 0;
  held_messages = 0;
  held_bytes = 0;
}

-- 200 ms, doubled six times, is less than the maximum of 15 s; the seventh time it is not.
delay-capped_example : delay 8 200 15000 client ≡ some 15000
delay-capped_example =
    delay-capped 7 200 15000 client
      (record { at_work = unfold rank in refl; no_standby = refl; not_replaced = refl }) refl
      (omega arith) (omega arith)

-- A server that waits for the data of a message of 40 bytes.
abbrev reading : Conn
reading = record client {
  state = open_message_read_data;
  policy = record client.policy { server = true };
  message_size = 40;
  held_messages = 1;
  held_bytes = 40;
}

reading-Held : Held reading
unfolding rank
reading-Held = record { messages = refl; bytes = refl }
