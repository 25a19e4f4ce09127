-- ===== src/Negotiation/Replace.antt =====
-- do_replace (src/async/AsyncConnection.cc): the existing connection goes on on the socket that
-- handle_connect_msg has handed over to it.
use msg.Prelude.{
  ℕ, ◌-◌, ◌≤◌, List, ◌++◌, length, take, take_all, length-append, arith, ◌≡◌, refl, Bool, false,
  none, some, [], ◌==◌, if◌then◌else◌,
}
use msg.Session.{Session, requeue_sent, was_session_reset}
use msg.Connection.{
  Conn, Connect, inc32, release_throttle, accepting_wait_connect_msg, Fault, fault,
}
use msg.Connection.Held.{Held, Released, release_throttle-Released}
use msg.SendBuffer.Order.{take-append_le}
use msg.Negotiation.{Reply, tag_retry_session}
use msg.Negotiation.Accept.{Sent, answered, reply_accept, hand_over}

-- `faulted` is the fault after an answer that cannot be sent, `stuck` a failed assertion.
pub data Replaced : Type 0 where
  replaced : Conn → Reply → Replaced
  faulted : Fault → Replaced
  stuck : Replaced

-- what do_replace does up to the answer, on the socket `fd`; `auth` and `random` are for
-- randomize_out_seq
unfoldable pub moved_over : Bool → ℕ → ℕ → Conn → Conn
moved_over auth random fd c =
    let d = release_throttle c.state c in
    let reset = was_session_reset c.session auth random in
    record d {
      session = requeue_sent (if c.replacing_reset_session then reset else c.session);
      replacing_reset_session = false;
      sd = some fd;
      replacing_sd = none;
      recv_buf = c.replacing_buf;
      recv_start = 0;
      replacing_buf = [];
      outcoming_bl = [];
      replacing = 2;
      state = accepting_wait_connect_msg;
    }

-- `gs` is what the reply has for a global_seq, which do_replace does not set; `sent` is the result of
-- sending it.
unfoldable pub do_replace : ℕ → ℕ → Bool → ℕ → ℕ → Sent → Conn → Replaced
do_replace initial max auth random gs sent c =
    let go_on = elim c.replacing_sd as (λ x. Replaced) [
      | none ↦ stuck
      | some fd ↦ elim c.replacing_connect as (λ x. Replaced) [
        | none ↦ stuck
        | some k ↦
            let d = moved_over auth random fd c in
            elim (reply_accept tag_retry_session gs (inc32 k.connect_seq) k sent d)
              as (λ x. Replaced) [
                | answered e r ↦ replaced e r
                | _ ↦ faulted (fault initial max (record d { replacing = 0 }))
              ]
      ]
    ] in
    if c.replacing == 1 then go_on else stuck

-- The connection `d` and the reply of a replacement by the socket, the bytes and the message of the
-- other connection.
pub record Continues (e : Conn) (fd : ℕ) (me : Conn) (k : Connect) (d : Conn) (r : Reply)
    : Type 0 where
  pub socket : d.sd ≡ some fd
  pub buffered : d.recv_buf ≡ take (length me.recv_buf - me.recv_start) me.recv_buf
  pub all_unread : me.recv_start ≡ 0 → d.recv_buf ≡ me.recv_buf
  pub reread :
      (used unread : List ℕ)
      → me.recv_buf ≡ used ++ unread
      → me.recv_start ≡ length used
      → length unread ≤ length used
      → d.recv_buf ≡ take (length unread) used
  pub start : d.recv_start ≡ 0
  pub state : d.state ≡ accepting_wait_connect_msg
  pub replacing : d.replacing ≡ 2
  pub unsent : d.outcoming_bl ≡ []
  pub released : Released e.message_size d
  pub tag : r.tag ≡ tag_retry_session
  pub connect_seq : r.connect_seq ≡ inc32 k.connect_seq

abbrev pub Completed : Conn → ℕ → Conn → Connect → Session → Replaced → Type 0
Completed e fd me k s (replaced d r) = Continues e fd me k d r × (d.session ≡ requeue_sent s)
Completed e fd me k s (faulted f) = ⊥
Completed e fd me k s stuck = ⊥

-- As many bytes from the front as are unread, when fewer are unread than used.
front_again :
    (used unread : List ℕ)
    → length unread ≤ length used
    → take (length (used ++ unread) - length used) (used ++ unread) ≡ take (length unread) used
front_again used unread short =
    let n : length (used ++ unread) - length used ≡ length unread =
      omega (arith, length-append used unread) in
    rw n (take-append_le (length unread) used unread short)

-- The hand-over is completed by do_replace, when the answer can be sent: the existing connection is then
-- on the socket of the new one, has put its unacknowledged
-- messages back in its queue (after a reset of the session if one was asked for), holds nothing of the
-- throttlers whatever state it was in, and asks the peer to retry with the next connect_seq. It reads
-- on from a copy that has as many bytes as the new one had unread but starts at the front of the new
-- one's recv_buf: these are the unread bytes when the new one had used none of the buffer, but when it
-- had used at least as many as are unread, they are bytes that were read before.
pub hand_over-do_replace :
    (initial max : ℕ) (auth reset from_peer : Bool) (random gs fd : ℕ) (me e : Conn) (k : Connect)
    → me.sd ≡ some fd
    → Held e
    → Completed e fd me k
        (if reset then was_session_reset e.session auth random else e.session)
        (do_replace initial max auth random gs Sent.done (hand_over reset from_peer me k e).1)
unfolding do_replace hand_over moved_over reply_accept release_throttle
hand_over-do_replace initial max auth reset from_peer random gs fd me e k s h = rw s (
  record {
    socket = refl;
    buffered = refl;
    all_unread = λ z. rw z (take_all _ me.recv_buf (omega arith));
    reread = λ used unread split at short. rw (split, at) (front_again used unread short);
    start = refl;
    state = refl;
    replacing = refl;
    unsent = refl;
    released = release_throttle-Released e h;
    tag = refl;
    connect_seq = refl;
  },
  refl,
)
