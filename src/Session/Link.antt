-- ===== src/Session/Link.antt =====
-- One direction of a session between two peers: the sending connection, the receiving one, and the
-- frames between them. Breaking and resuming are the calls of src/async/AsyncConnection.cc: fault
-- requeues what was sent, and the sequence number that the peer returns on the new socket (the tags
-- SEQ and the states WAIT_ACK_SEQ and WAIT_SEQ) goes to discard_requeued_up_to.
use msg.Prelude.{
  ℕ, ◌+◌, ◌^◌, ◌≤◌, ◌<◌, ◌≡◌, Bool, true, false, Option, none, some, List, [], ◌∷◌, ◌++◌,
  if◌then◌else◌,
}
use msg.Session.{
  Session, Msg, prio_highest, enqueue, pump, receive, requeue_sent, discard_requeued_up_to,
  handle_ack,
}

-- `delivered` is what the receiver passed to its dispatcher; `submitted` records what send_message
-- was given, oldest first.
pub record Link : Type 0 where
  pub sender : Session
  pub receiver : Session
  pub channel : List Msg
  pub connected : Bool
  pub delivered : List Msg
  pub submitted : List Msg

unfoldable pub submit : Link → Msg → Link
submit l m = record l { sender = enqueue l.sender m; submitted = l.submitted ++ (m ∷ []) }

abbrev pub put_frame : Option Msg → List Msg → List Msg
put_frame none ms = ms
put_frame (some m) ms = ms ++ (m ∷ [])

unfoldable pub transmit : Link → Link
transmit l =
    let (s, frame) = pump l.sender in record l { sender = s; channel = put_frame frame l.channel }

-- The receiver reads one frame.
unfoldable pub deliver : Link → Link
deliver l = elim l.channel [
  | [] ↦ l
  | m ∷ ms ↦
      let (r, accepted) = receive l.receiver m in
      record l {
        receiver = r;
        channel = ms;
        delivered = if accepted then l.delivered ++ (m ∷ []) else l.delivered;
      }
]

unfoldable pub acknowledge : Link → ℕ → Link
acknowledge l q = record l { sender = handle_ack l.sender q }

-- The sender sees a fault. Frames on the old socket can still reach the receiver.
unfoldable pub break_off : Link → Link
break_off l = record l { sender = requeue_sent l.sender; connected = false }

-- A new socket takes over: the old one is closed, and the receiver says where it stands.
unfoldable pub resume : Link → Link
resume l = record l {
  sender = discard_requeued_up_to l.sender l.receiver.in_seq;
  channel = [];
  connected = true;
}

-- What may happen. An acknowledgement is of a number that the receiver has reached; it may come
-- late. A new message has no number and at most the highest priority of msgr.h, and the connection
-- numbers fewer than 2 ^ 32 messages.
pub data Step (l : Link) : Link → Type 0 where
  submits : (m : Msg) → m.seq ≡ 0 → m.priority ≤ prio_highest → Step l (submit l m)
  transmits : l.connected ≡ true → l.sender.out_seq + 1 < 2 ^ 32 → Step l (transmit l)
  delivers : Step l (deliver l)
  acknowledges : (q : ℕ) → l.connected ≡ true → q ≤ l.receiver.in_seq → Step l (acknowledge l q)
  breaks : l.connected ≡ true → Step l (break_off l)
  resumes : l.connected ≡ false → Step l (resume l)

pub data Reach (l : Link) : Link → Type 0 where
  here : Reach l l
  next : {k j : Link} → Reach l k → Step k j → Reach l j

-- A lossless session before its first message.
abbrev pub idle_session : Session
idle_session = record {
  lossy = false;
  connect_seq = 1;
  out_seq = 0;
  in_seq = 0;
  in_seq_acked = 0;
  out_q = [];
  sent = [];
}

abbrev pub start : Link
start = record {
  sender = idle_session;
  receiver = idle_session;
  channel = [];
  connected = true;
  delivered = [];
  submitted = [];
}
