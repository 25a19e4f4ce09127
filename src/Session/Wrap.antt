-- ===== src/Session/Wrap.antt =====
-- The sequence number of a message has 32 bits (include/msgr/Message.h), the counters of a connection
-- have 64.
use msg.Prelude.{◌-◌, ◌^◌, ◌≡◌, refl, true, false, leb, arith}
use msg.Session.{Session, Msg, unsigned_seq, inc64, send, receive}

-- A receiver whose in_seq has reached 2 ^ 32 - 1 drops every message that the peer's _send numbers from
-- then on, whatever the peer's out_seq, and its state stays as it is: the connection passes on nothing
-- more.
pub receive-send_at_limit :
    (r s : Session) (m : Msg) → r.in_seq ≡ 2 ^ 32 - 1 → receive r (send s m).1 ≡ (r, false)
unfolding receive send
receive-send_at_limit r s m e =
    let old : leb (unsigned_seq (inc64 s.out_seq)) r.in_seq ≡ true = ground arith in rw old refl
