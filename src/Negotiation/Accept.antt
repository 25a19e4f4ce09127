-- ===== src/Negotiation/Accept.antt =====
-- The whole of handle_connect_msg (src/async/AsyncConnection.cc): its checks, `resolve`, and the three
-- ways on: an answer, the hand-over to the existing connection, and the opening of the session.
use msg.Prelude.{
  ℕ, ◌-◌, length, take, Bool, false, not, ◌&&◌, ◌||◌, Option, none, some, bit_and, bit_or, ◌==◌,
  if◌then◌else◌,
}
use msg.Session.{discard_requeued_up_to}
use msg.Connection.{
  Conn, Connect, Policy, inc32, missing, is_state, stop, closed, open_tag_close, wait_send,
  accepting_wait_connect_msg, accepting_wait_seq, accepting_ready, State,
}
use msg.Negotiation.{
  Tag, tag_ready, tag_retry_session, tag_bad_proto_ver, tag_bad_authorizer, tag_features, tag_seq,
  Reply, Decision, answers, replaces, opens, asserts, get_global_seq, lookup_existing, resolve,
  accept_conn,
}

-- What the checks read of the configuration and of the peer's type; MSGR_AUTH_MSGRX and
-- MSGR_FEATURE_MSG_AUTH are parameters too.
pub record Conf : Type 0 where
  pub my_protocol : ℕ
  pub peer_is_cluster : Bool
  pub require_signatures : Bool
  pub cluster_require_signatures : Bool
  pub service_require_signatures : Bool
  pub auth_msgrx : ℕ
  pub feature_msg_auth : ℕ

unfoldable pub require_features : Conf → Policy → Connect → Policy
require_features conf p k =
    let cluster = conf.require_signatures || conf.cluster_require_signatures in
    let service = conf.require_signatures || conf.service_require_signatures in
    let signed = record p {
      features_required = bit_or p.features_required conf.feature_msg_auth;
    } in
    if k.authorizer_protocol == conf.auth_msgrx
    then (if (if conf.peer_is_cluster then cluster else service) then signed else p)
    else p

-- The checks before `existing`: the policy that they leave, and the tag of a refusal. `valid` is the
-- outcome of verify_authorizer.
unfoldable pub admit : Conf → Bool → Conn → Connect → Policy × Option Tag
admit conf valid me k =
    let p = require_features conf me.policy k in
    if not (k.protocol_version == conf.my_protocol)
    then (me.policy, some tag_bad_proto_ver)
    else (if not (missing p.features_required k.features == 0)
        then (p, some tag_features)
        else (if not valid then (p, some tag_bad_authorizer) else (p, none)))

-- the result of `_try_send`: r < 0, r == 0, and bytes left over
pub data Sent : Type 0 where
  failed : Sent
  done : Sent
  partial : Sent

pub data Accepted : Type 0 where
  refused : Conn → Accepted
  answered : Conn → Reply → Accepted
  handed_over : Conn → Conn → Accepted
  opened : Conn → Reply → ℕ → Accepted
  asserted : Accepted

unfoldable pub reply_accept : Tag → ℕ → ℕ → Connect → Sent → Conn → Accepted
reply_accept tag gs cs k failed me = refused me
reply_accept tag gs cs k _ me =
    answered (record me { state = accepting_wait_connect_msg })
      (record {
        tag = tag;
        features =
            bit_or (bit_and k.features me.policy.features_supported) me.policy.features_required;
        global_seq = gs;
        connect_seq = cs;
        lossy = false;
      })

-- A connection that is being replaced or closed is not replaced again.
abbrev pub busy : Conn → Bool
busy e =
    not (e.replacing == 0)
    || (is_state e.state closed || (e.stopping || is_state e.state open_tag_close))

-- the label `replace`. As many bytes as are unread are copied, but from the front of recv_buf.
unfoldable pub hand_over : Bool → Bool → Conn → Connect → Conn → Conn × Conn
hand_over reset_session reset_from_peer me k e = (
  stop (record me { sd = none }),
  record e {
    replacing = 1;
    replacing_reset_session = reset_session;
    replacing_sd = me.sd;
    is_reset_from_peer = reset_from_peer;
    replacing_connect = some k;
    replacing_buf = take (length me.recv_buf - me.recv_start) me.recv_buf;
  },
)

-- the answer to a peer whose existing connection is busy; if it cannot be sent, the label `fail`
unfoldable pub answer_busy : Connect → Sent → Conn → Accepted
answer_busy k failed me = refused (record me { replacing = 0 })
answer_busy k sent me = reply_accept tag_retry_session 0 (inc32 k.connect_seq) k sent me

-- the label `open`, up to the reply
unfoldable pub open_session : ℕ → Conn → Connect → Conn × (Reply × State)
open_session g me k =
    let cs = inc32 k.connect_seq in
    let resumes = not (me.replacing == 0) && not me.is_reset_from_peer in
    let session = record me.session { connect_seq = cs } in
    let fresh = record (discard_requeued_up_to session 0) { in_seq = 0; in_seq_acked = 0 } in
    let opened_conn : Conn = record me {
      peer_global_seq = k.global_seq;
      session = if resumes then session else fresh;
      is_reset_from_peer = if resumes then me.is_reset_from_peer else false;
      features = bit_and me.policy.features_supported k.features;
    } in
    (
      opened_conn,
      (
        record {
          tag = if resumes then tag_seq else tag_ready;
          features = me.policy.features_supported;
          global_seq = get_global_seq g 0;
          connect_seq = cs;
          lossy = me.session.lossy;
        },
        if resumes then accepting_wait_seq else accepting_ready,
      ),
    )

-- after the registration
unfoldable pub finish_open : Sent → Conn → Reply → State → ℕ → Accepted
finish_open failed me r next g = refused (record me { replacing = 0 })
finish_open done me r next g = opened (record me { replacing = 0; state = next }) r g
finish_open partial me r next g =
    opened (record me { replacing = 0; state = wait_send; state_after_send = next }) r g

unfoldable pub accept_decision : Sent → ℕ → Conn → Connect → Option Conn → Decision → Accepted
accept_decision sent g me k entry (answers tag gs cs) = reply_accept tag gs cs k sent me
accept_decision sent g me k none (replaces reset_session reset_from_peer) = asserted
accept_decision sent g me k (some e) (replaces reset_session reset_from_peer) =
    if busy e
    then answer_busy k sent me
    else (let (me', e') = hand_over reset_session reset_from_peer me k e in handed_over me' e')
accept_decision sent g me k entry opens =
    let (me', opening) = open_session g me k in
    if not (accept_conn me entry)
    then refused (record me' { replacing = 0 })
    else finish_open sent
        (record me' {
          queue_reset = me.queue_reset || ((me.replacing == 0) || (me.replacing == 2));
        })
        opening.0 opening.1 (get_global_seq g 0)
accept_decision sent g me k entry asserts = asserted

unfoldable pub handle_connect_msg :
    Conf → Bool → Bool → Bool → Sent → ℕ → Conn → Connect → Option Conn → Accepted
handle_connect_msg conf valid before after sent g me k entry =
    let (policy, refusal) = admit conf valid me k in
    let me' : Conn = record me { policy = policy } in
    elim refusal [
      | some tag ↦ reply_accept tag 0 0 k sent me'
      | none ↦
          accept_decision sent g me' k entry
            (resolve before after me' k (lookup_existing me' entry))
    ]
