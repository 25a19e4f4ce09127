-- ===== src/Negotiation/Converges.antt =====
-- The connecting side asks again until it is settled (src/async/AsyncConnection.cc).
use msg.Prelude.{
  ℕ, zero, suc, ◌+◌, ◌-◌, ◌<◌, ◌≤◌, ◌^◌, ◌≡◌, Bool, true, false, Option, none, some, ◌||◌,
  if◌then◌else◌, ◌⊎◌,
}
use msg.Connection.{Conn, inc32}
use msg.Negotiation.{
  Tag, tag_wait, tag_retry_session, Reply, fails, goes, aborts, handle_connect_reply, connect_msg,
  Decision, answers, resolve_existing, replaces,
}
use msg.Negotiation.Accept.{busy}
use msg.Negotiation.Answers.{Final}

-- The reply that carries an answer.
abbrev pub reply_of : Tag → ℕ → ℕ → Reply
reply_of tag gs cs = record {
  tag = tag;
  features = 0;
  global_seq = gs;
  connect_seq = cs;
  lossy = false;
}

-- The connecting side `c` sends its message to a node whose existing connection is `e`, follows what
-- it is told and sends again, at most `n` times. An existing connection that is to be replaced but is
-- busy asks for a retry. The result is the decision that is no retry.
unfoldable pub attempts : ℕ → Bool → Bool → Bool → ℕ → ℕ → Conn → Conn → Conn → Option Decision
attempts zero before after auth random g me e c = none
attempts (suc n) before after auth random g me e c =
    elim (resolve_existing before after me (connect_msg 0 0 c) e) [
      | answers tag_wait gs cs ↦ some (answers tag_wait gs cs)
      | answers tag gs cs ↦ (elim (handle_connect_reply auth random g c (reply_of tag gs cs)) [
        | goes c' g' ↦ attempts n before after auth random g' me e c'
        | fails ↦ none
        | aborts ↦ none
      ])
      | replaces reset_session reset_from_peer ↦
          let cs = inc32 c.session.connect_seq in
          let told = handle_connect_reply auth random g c (reply_of tag_retry_session 0 cs) in
          let more = elim told as (λ a. Option Decision) [
            | goes c' g' ↦ attempts n before after auth random g' me e c'
            | fails ↦ none
            | aborts ↦ none
          ] in
          if busy e then more else some (replaces reset_session reset_from_peer)
      | d ↦ some d
    ]

-- A message that is settled at once: it has been told what to send.
data Ready (me e c : Conn) : Type 0 where
  told :
      e.peer_global_seq ≤ c.global_seq
      → c.session.connect_seq ≡ e.session.connect_seq + 1
      → ((me.policy.resetcheck ≡ false) ⊎ (0 < e.session.connect_seq))
      → Ready me e c
  cleared :
      e.peer_global_seq ≤ c.global_seq
      → c.session.connect_seq ≡ 0
      → me.policy.resetcheck ≡ true
      → e.session.connect_seq ≡ 0
      → Ready me e c

module _ (before after auth : Bool) (random : ℕ) (me e : Conn) (differ : (before || after) ≡ true)
    (room : e.session.connect_seq < 2 ^ 32 - 1) (idle : busy e ≡ false) where
  decision : Conn → Decision
  decision c = resolve_existing before after me (connect_msg 0 0 c) e

  Settles : ℕ → ℕ → Conn → Type 0
  Settles n g c = (d : Decision) × (attempts n before after auth random g me e c ≡ some d) × Final d
