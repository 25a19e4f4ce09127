-- ===== src/Connection.antt =====
-- One connection beside its queues (src/async/AsyncConnection.h, AsyncConnection.cc): the states, the
-- policy, what the negotiation reads and writes, and what a fault does. Times are in nanoseconds, and
-- `session.lossy` is `policy.lossy`.
pub mod Backoff
pub mod Held
mod Examples
use msg.Prelude.{
  ℕ, ◌+◌, ◌*◌, ◌%◌, ◌^◌, Bool, true, false, not, ◌&&◌, ◌||◌, Option, none, some, List, [], ◌∷◌,
  bit_and, bit_or, ◌-◌, ltb, leb, ◌==◌, if◌then◌else◌,
}
use msg.Session.{Session, Msg, requeue_sent, was_session_reset, discard_out_queue, enqueue}

pub data State : Type 0 where
  state_none : State
  state_open : State
  open_keepalive2 : State
  open_keepalive2_ack : State
  open_tag_ack : State
  open_message_header : State
  open_message_throttle_message : State
  open_message_throttle_bytes : State
  open_message_read_front : State
  open_message_read_middle : State
  open_message_read_data_prepare : State
  open_message_read_data : State
  open_message_read_footer : State
  open_message_throttle_dispatch_size : State
  open_message_dispatch : State
  open_tag_close : State
  wait_send : State
  connecting : State
  connecting_wait_banner : State
  connecting_wait_identify_peer : State
  connecting_send_connect_msg : State
  connecting_wait_connect_reply : State
  connecting_wait_connect_reply_auth : State
  connecting_wait_ack_seq : State
  connecting_ready : State
  accepting : State
  accepting_wait_banner_addr : State
  accepting_wait_connect_msg : State
  accepting_wait_connect_msg_auth : State
  accepting_wait_seq : State
  accepting_ready : State
  standby_state : State
  closed : State
  wait_state : State

-- the number of a state
unfoldable pub rank : State → ℕ
rank state_none = 0
rank state_open = 1
rank open_keepalive2 = 2
rank open_keepalive2_ack = 3
rank open_tag_ack = 4
rank open_message_header = 5
rank open_message_throttle_message = 6
rank open_message_throttle_bytes = 7
rank open_message_read_front = 8
rank open_message_read_middle = 9
rank open_message_read_data_prepare = 10
rank open_message_read_data = 11
rank open_message_read_footer = 12
rank open_message_throttle_dispatch_size = 13
rank open_message_dispatch = 14
rank open_tag_close = 15
rank wait_send = 16
rank connecting = 17
rank connecting_wait_banner = 18
rank connecting_wait_identify_peer = 19
rank connecting_send_connect_msg = 20
rank connecting_wait_connect_reply = 21
rank connecting_wait_connect_reply_auth = 22
rank connecting_wait_ack_seq = 23
rank connecting_ready = 24
rank accepting = 25
rank accepting_wait_banner_addr = 26
rank accepting_wait_connect_msg = 27
rank accepting_wait_connect_msg_auth = 28
rank accepting_wait_seq = 29
rank accepting_ready = 30
rank standby_state = 31
rank closed = 32
rank wait_state = 33

-- `lo <= state && state < hi`
abbrev pub in_states : State → State → State → Bool
in_states lo hi s = leb (rank lo) (rank s) && ltb (rank s) (rank hi)

abbrev pub is_state : State → State → Bool
is_state s t = rank s == rank t

pub record Policy : Type 0 where
  pub server : Bool
  pub standby : Bool
  pub resetcheck : Bool
  pub features_supported : ℕ
  pub features_required : ℕ

pub record Connect : Type 0 where
  pub features : ℕ
  pub global_seq : ℕ
  pub connect_seq : ℕ
  pub protocol_version : ℕ
  pub authorizer_protocol : ℕ

pub record Conn : Type 0 where
  pub id : ℕ
  pub state : State
  pub state_after_send : State
  pub session : Session
  pub policy : Policy
  pub global_seq : ℕ
  pub peer_global_seq : ℕ
  pub features : ℕ
  pub got_bad_auth : Bool
  pub queue_reset : Bool
  pub stopping : Bool
  pub sd : Option ℕ
  -- what was read ahead, up to recv_end; the part from recv_start on is not yet used
  pub recv_buf : List ℕ
  pub recv_start : ℕ
  pub outcoming_bl : List ℕ
  pub replacing : ℕ
  pub replacing_reset_session : Bool
  pub is_reset_from_peer : Bool
  pub replacing_sd : Option ℕ
  pub replacing_buf : List ℕ
  pub replacing_connect : Option Connect
  pub backoff : ℕ
  pub message_size : ℕ
  pub held_messages : ℕ
  pub held_bytes : ℕ

-- uint32_t ++n
abbrev pub inc32 : ℕ → ℕ
inc32 n = (n + 1) % 2 ^ 32

-- `required & ~features`, on 64 bits
abbrev pub missing : ℕ → ℕ → ℕ
missing required features = bit_and required (2 ^ 64 - 1 - features)

abbrev pub is_empty {ℓ} : {A : Type ℓ} → List A → Bool
is_empty [] = true
is_empty (x ∷ xs) = false

unfoldable pub is_queued : Conn → Bool
is_queued c = not (is_empty c.session.out_q) || not (is_empty c.outcoming_bl)

-- what release_throttle puts to the message throttler, and to the byte throttler
abbrev pub messages_put : State → ℕ
messages_put prev =
    if ltb (rank open_message_throttle_message) (rank prev)
      && leb (rank prev) (rank open_message_dispatch)
    then 1
    else 0

abbrev pub bytes_put : State → Conn → ℕ
bytes_put prev c =
    if ltb (rank open_message_throttle_bytes) (rank prev)
      && leb (rank prev) (rank open_message_dispatch)
    then c.message_size
    else 0

-- The read of a message that is not yet dispatched holds one message and its bytes of the policy's
-- throttlers; `prev` tells which of them it has taken.
unfoldable pub release_throttle : State → Conn → Conn
release_throttle prev c = record c {
  held_messages = c.held_messages - messages_put prev;
  held_bytes = c.held_bytes - bytes_put prev c;
}

-- the delay before the next attempt to connect; no delay is 0
unfoldable pub next_backoff : ℕ → ℕ → ℕ → ℕ
next_backoff initial max backoff =
    if backoff == 0
    then initial
    else (if ltb max (backoff + backoff) then max else backoff + backoff)

abbrev pub opening : State → Bool
opening s = in_states connecting connecting_ready s

-- _stop, without the dispatch queue, the registry and the events
unfoldable pub stop : Conn → Conn
stop c = if is_state c.state closed then c else record (release_throttle c.state c) {
  session = discard_out_queue c.session;
  outcoming_bl = [];
  sd = none;
  replacing_sd = none;
  queue_reset = false;
  replacing = 0;
  state = closed;
}

pub data Fault : Type 0 where
  unchanged : Fault
  stopped : Conn → Fault
  aborted : Fault
  on_standby : Conn → Fault
  reconnect : Conn → ℕ → Fault

-- the end of fault: server mode, client mode, or one more attempt to connect
unfoldable pub fault_state : ℕ → ℕ → Conn → Fault
fault_state initial max c =
    if not (opening c.state)
    then (if c.policy.server || in_states accepting accepting_wait_seq c.state
        then on_standby (record c { state = standby_state; backoff = 0 })
        else reconnect
            (record c {
              session = record c.session { connect_seq = inc32 c.session.connect_seq };
              state = connecting;
              backoff = 0;
            })
            0)
    else (let b = next_backoff initial max c.backoff in
        reconnect (record c { state = connecting; backoff = b }) b)

-- what fault resets
abbrev pub cleared : Conn → Conn
cleared c = record (release_throttle c.state c) {
  sd = none;
  replacing = 0;
  session = requeue_sent c.session;
  recv_buf = [];
  recv_start = 0;
  outcoming_bl = [];
}

-- fault, with the configured backoffs; `reconnect c t` schedules an attempt after t
unfoldable pub fault : ℕ → ℕ → Conn → Fault
fault initial max c =
    let d = cleared c in
    if is_state c.state closed
    then unchanged
    else (if c.session.lossy && not (opening c.state)
        then stopped (stop c)
        else (if c.replacing == 1
            then aborted
            else (if d.policy.standby && not (is_queued d)
                then on_standby (record d { state = standby_state })
                else fault_state initial max d)))
