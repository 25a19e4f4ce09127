-- ===== src/Negotiation.antt =====
-- How two connections agree on a session: handle_connect_msg of the side that accepts and
-- handle_connect_reply of the side that connects (src/async/AsyncConnection.cc). `entry` is what
-- AsyncMessenger::conns holds at the peer's address, and `g` is the messenger's global_seq.
pub mod Accept
pub mod Replace
pub mod Answers
pub mod Sound
pub mod Peer
pub mod Converges
pub mod Race
mod Examples
use msg.Prelude.{
  ℕ, ◌+◌, Bool, true, false, not, ◌&&◌, ◌||◌, Option, none, some, List, [], bit_and, bit_or, ltb,
  leb, ◌==◌, if◌then◌else◌,
}
use msg.Session.{Session, discard_requeued_up_to, requeue_sent, was_session_reset}
use msg.Connection.{
  Conn, Connect, Policy, inc32, missing, is_state, state_open, standby_state, closed,
  open_tag_close, connecting_send_connect_msg, connecting_wait_ack_seq, connecting_ready,
  wait_state, wait_send, accepting_wait_connect_msg, accepting_wait_seq, accepting_ready, State,
}

pub data Tag : Type 0 where
  tag_ready : Tag
  tag_reset_session : Tag
  tag_wait : Tag
  tag_retry_session : Tag
  tag_retry_global : Tag
  tag_bad_proto_ver : Tag
  tag_bad_authorizer : Tag
  tag_features : Tag
  tag_seq : Tag
  tag_other : ℕ → Tag

pub record Reply : Type 0 where
  pub tag : Tag
  pub features : ℕ
  pub global_seq : ℕ
  pub connect_seq : ℕ
  pub lossy : Bool

-- AsyncMessenger::get_global_seq: the new number, and what the messenger keeps
unfoldable pub get_global_seq : ℕ → ℕ → ℕ
get_global_seq g old = inc32 (if ltb g old then old else g)

-- The message that the connecting side sends.
unfoldable pub connect_msg : ℕ → ℕ → Conn → Connect
connect_msg version protocol c = record {
  features = c.policy.features_supported;
  global_seq = c.global_seq;
  connect_seq = c.session.connect_seq;
  protocol_version = version;
  authorizer_protocol = protocol;
}

-- `goes c g`: the handler returns 0; `aborts`: its assertion fails.
pub data Handled : Type 0 where
  fails : Handled
  aborts : Handled
  goes : Conn → ℕ → Handled

abbrev pub again : Conn → Conn
again c = record c { state = connecting_send_connect_msg }

-- `auth` and `random` are what randomize_out_seq reads.
unfoldable pub handle_reply : Bool → ℕ → ℕ → Conn → Tag → Reply → Handled
handle_reply auth random g c tag_features r = fails
handle_reply auth random g c tag_bad_proto_ver r = fails
handle_reply auth random g c tag_bad_authorizer r =
    if c.got_bad_auth then fails else goes (again (record c { got_bad_auth = true })) g
handle_reply auth random g c tag_reset_session r =
    goes (again (record c { session = was_session_reset c.session auth random })) g
handle_reply auth random g c tag_retry_global r =
    let n = get_global_seq g r.global_seq in goes (again (record c { global_seq = n })) n
handle_reply auth random g c tag_retry_session r =
    if ltb c.session.connect_seq r.connect_seq
    then goes (again (record c { session = record c.session { connect_seq = r.connect_seq } })) g
    else aborts
handle_reply auth random g c tag_wait r = goes (record c { state = wait_state }) g
handle_reply auth random g c tag_seq r =
    if missing c.policy.features_required r.features == 0
    then goes (record c { state = connecting_wait_ack_seq }) g
    else fails
handle_reply auth random g c tag_ready r =
    if missing c.policy.features_required r.features == 0
    then goes (record c { state = connecting_ready }) g
    else fails
handle_reply auth random g c (tag_other n) r = fails

unfoldable pub handle_connect_reply : Bool → ℕ → ℕ → Conn → Reply → Handled
handle_connect_reply auth random g c r = handle_reply auth random g c r.tag r

abbrev pub now_open : Conn → Connect → Reply → Conn
now_open c k r = record c {
  peer_global_seq = r.global_seq;
  session = record c.session { lossy = r.lossy; connect_seq = inc32 c.session.connect_seq };
  state = state_open;
  backoff = 0;
  features = bit_and r.features k.features;
  queue_reset = true;
}

-- STATE_CONNECTING_READY: `none` is its failed assertion on connect_seq.
unfoldable pub connected : Conn → Connect → Reply → Option Conn
connected c k r =
    if inc32 c.session.connect_seq == r.connect_seq then some (now_open c k r) else none

-- What the accepting side makes of a connect message that it admits. The two numbers of an answer are
-- reply.global_seq and reply.connect_seq.
pub data Decision : Type 0 where
  answers : Tag → ℕ → ℕ → Decision
  replaces : Bool → Bool → Decision
  opens : Decision
  asserts : Decision

-- `existing` is set. `before` is peer_addr < my address, `after` is the converse.
unfoldable pub resolve_existing : Bool → Bool → Conn → Connect → Conn → Decision
resolve_existing before after me k e =
    let mine = e.session.connect_seq in
    let resetcheck = me.policy.resetcheck in
    if ltb k.global_seq e.peer_global_seq
    then answers tag_retry_global e.peer_global_seq 0
    else (if e.session.lossy
        then replaces true false
        else (if (k.connect_seq == 0) && ltb 0 mine
            then replaces resetcheck true
            else (if ltb k.connect_seq mine
                then answers tag_retry_session 0 (inc32 mine)
                else (if k.connect_seq == mine
                    then (if is_state e.state state_open || is_state e.state standby_state
                        then (if resetcheck && (mine == 0)
                            then replaces false false
                            else answers tag_retry_session 0 (inc32 mine))
                        else (if before || e.policy.server
                            then replaces false false
                            else (if after then answers tag_wait 0 0 else asserts)))
                    else (if not (ltb mine k.connect_seq && leb e.peer_global_seq k.global_seq)
                        then asserts
                        else (if resetcheck && (mine == 0)
                            then answers tag_reset_session 0 0
                            else replaces false false))))))

-- `_lookup_conn`, and `existing == this`
abbrev pub lookup_existing : Conn → Option Conn → Option Conn
lookup_existing me none = none
lookup_existing me (some e) = if e.id == me.id then none else some e

unfoldable pub resolve : Bool → Bool → Conn → Connect → Option Conn → Decision
resolve before after me k none =
    if (me.replacing == 0) && ltb 0 k.connect_seq then answers tag_reset_session 0 0 else opens
resolve before after me k (some e) = resolve_existing before after me k e

-- `_accept_conn` at the peer's address: `false` is -1
unfoldable pub accept_conn : Conn → Option Conn → Bool
accept_conn me none = true
accept_conn me (some e) = e.id == me.id
