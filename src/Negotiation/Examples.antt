-- ===== src/Negotiation/Examples.antt =====
-- The theorems of the negotiation at concrete connections.
use msg.Prelude.{ℕ, ◌≡◌, ◌≢◌, refl, arith, true, false, none, some, []}
use msg.Session.{Session, discard_requeued_up_to, was_session_reset}
use msg.StdMap.{lookup}
use msg.Connection.{
  Conn, State, state_open, connecting_send_connect_msg, accepting_wait_connect_msg, accepting_ready,
  connecting, open_message_read_middle, rank,
}
use msg.Negotiation.{
  tag_wait, tag_ready, tag_retry_session, Reply, connect_msg, connected, handle_connect_reply,
  aborts, resolve_existing, resolve, accept_conn, get_global_seq,
}
use msg.Negotiation.Accept.{
  Conf, done, answered, opened, handle_connect_msg, admit, require_features, accept_decision,
  reply_accept, finish_open, open_session, hand_over, handed_over,
}
use msg.Negotiation.Replace.{Completed, do_replace, hand_over-do_replace}
use msg.Connection.Held.{Held}
use msg.Negotiation.Sound.{Sound, handle_connect_msg-Sound}
use msg.Negotiation.Peer.{answered-handle_connect_reply, opened-connected}
use msg.Negotiation.Race.{race_has_one_winner}

abbrev session : ℕ → Session
session cs = record {
  lossy = false;
  connect_seq = cs;
  out_seq = 0;
  in_seq = 0;
  in_seq_acked = 0;
  out_q = [];
  sent = [];
}

abbrev conn : ℕ → State → ℕ → ℕ → ℕ → Conn
conn id state cs gs peer = record {
  id = id;
  state = state;
  state_after_send = state;
  session = session cs;
  policy = record {
    server = false;
    standby = true;
    resetcheck = false;
    features_supported = 7;
    features_required = 1;
  };
  global_seq = gs;
  peer_global_seq = peer;
  features = 0;
  got_bad_auth = false;
  queue_reset = false;
  stopping = false;
  sd = some id;
  recv_buf = [];
  recv_start = 0;
  outcoming_bl = [];
  replacing = 0;
  replacing_reset_session = false;
  is_reset_from_peer = false;
  replacing_sd = none;
  replacing_buf = [];
  replacing_connect = none;
  backoff = 0;
  message_size = 0;
  held_messages = 0;
  held_bytes = 0;
}

abbrev conf : Conf
conf = record {
  my_protocol = 0;
  peer_is_cluster = true;
  require_signatures = false;
  cluster_require_signatures = false;
  service_require_signatures = false;
  auth_msgrx = 1;
  feature_msg_auth = 2;
}

-- a connection that was accepted, one that wants to connect, and an open one
abbrev incoming : Conn
incoming = conn 1 accepting_wait_connect_msg 0 0 0

abbrev caller : Conn
caller = conn 2 connecting_send_connect_msg 0 6 0

abbrev existing : Conn
existing = conn 3 state_open 4 0 6

abbrev racer : Conn
racer = conn 4 connecting 0 3 0

handle_connect_msg-Sound_example : Sound (connect_msg 0 0 caller) done (
    handle_connect_msg conf true true false done 0 incoming
      (connect_msg 0 0 caller)
      (some existing))
unfolding connect_msg
handle_connect_msg-Sound_example =
    handle_connect_msg-Sound conf true true false done 0 incoming (connect_msg 0 0 caller)
      (some existing) refl (omega arith) (omega arith)

race_has_one_winner_example :
    (accept_decision done 0 incoming
        (connect_msg 0 0 caller)
        (some racer)
        (resolve_existing true false incoming (connect_msg 0 0 caller) racer)
      ≡ handed_over
          (hand_over false false incoming (connect_msg 0 0 caller) racer).0
          (hand_over false false incoming (connect_msg 0 0 caller) racer).1)
    × (accept_decision done 0 incoming
          (connect_msg 0 0 caller)
          (some racer)
          (resolve_existing false true incoming (connect_msg 0 0 caller) racer)
        ≡ reply_accept tag_wait 0 0 (connect_msg 0 0 caller) done incoming)
unfolding connect_msg rank
race_has_one_winner_example =
    race_has_one_winner true false done 0 0 incoming incoming racer racer (connect_msg 0 0 caller)
      (connect_msg 0 0 caller) refl refl
      (record {
        no_older = omega arith;
        lossless = refl;
        equal = refl;
        not_server = refl;
        unsettled = refl;
      })
      (record {
        no_older = omega arith;
        lossless = refl;
        equal = refl;
        not_server = refl;
        unsettled = refl;
      })
      refl refl

abbrev late : Conn
late = conn 2 connecting_send_connect_msg 2 6 0

abbrev retry : Reply
retry = record {
  tag = tag_retry_session;
  features = 7;
  global_seq = 0;
  connect_seq = 5;
  lossy = false;
}

retry_answered :
    handle_connect_msg conf true true false done 0 incoming (connect_msg 0 0 late) (some existing)
    ≡ answered incoming retry
unfolding handle_connect_msg admit require_features connect_msg resolve resolve_existing
    accept_decision reply_accept rank
retry_answered = refl

answered-handle_connect_reply_example : handle_connect_reply false 0 6 late retry ≢ aborts
answered-handle_connect_reply_example =
    answered-handle_connect_reply conf true true false done 0 incoming incoming (some existing)
      retry false 0 6 0 0 late refl (omega arith) (omega arith) retry_answered

abbrev ready : Reply
ready = record { tag = tag_ready; features = 7; global_seq = 1; connect_seq = 1; lossy = false }

abbrev accepted : Conn
accepted = record incoming {
  state = accepting_ready;
  session = session 1;
  peer_global_seq = 6;
  features = 7;
  queue_reset = true;
}

ready_opened :
    handle_connect_msg conf true true false done 0 incoming (connect_msg 0 0 caller) none
    ≡ opened accepted ready 1
unfolding handle_connect_msg admit require_features connect_msg resolve accept_decision open_session
    finish_open accept_conn get_global_seq discard_requeued_up_to lookup
ready_opened = refl

opened-connected_example :
    (c : Conn) × ((connected caller (connect_msg 0 0 caller) ready ≡ some c)
      × ((c.session.connect_seq ≡ 1)
          × ((c.session.lossy ≡ false)
              × ((c.features ≡ 7) × ((c.peer_global_seq ≡ 1) × (accepted.peer_global_seq ≡ 6))))))
opened-connected_example =
    opened-connected conf true true false done 0 incoming accepted none ready 1 0 0 caller refl
      (omega arith) tt ready_opened

-- The existing connection has read the front of a message of 40 bytes when it is replaced.
abbrev reading : Conn
reading = record existing {
  state = open_message_read_middle;
  message_size = 40;
  held_messages = 1;
  held_bytes = 40;
}

reading-Held : Held reading
unfolding rank
reading-Held = record { messages = refl; bytes = refl }

hand_over-do_replace_example :
    Completed reading 1 incoming
      (connect_msg 0 0 caller)
      (was_session_reset reading.session false 7)
      (do_replace 200 15000 false 7 0 done
        (hand_over true false incoming (connect_msg 0 0 caller) reading).1)
hand_over-do_replace_example =
    hand_over-do_replace 200 15000 false true false 7 0 1 incoming reading (connect_msg 0 0 caller)
      refl reading-Held
