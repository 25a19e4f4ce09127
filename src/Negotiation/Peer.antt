-- ===== src/Negotiation/Peer.antt =====
-- The connecting side on the answers of the accepting side (src/async/AsyncConnection.cc).
use msg.Prelude.{
  ℕ, ◌-◌, ◌<◌, ◌^◌, ◌≡◌, Bool, true, Option, none, some, arith, ◌||◌, ◌==◌, ◌≢◌, subst, sym, ltb,
  ◌∙◌, if◌then◌else◌, by_if,
}
use msg.Connection.{Conn, inc32, missing}
use msg.Negotiation.{
  Tag, tag_ready, tag_reset_session, tag_wait, tag_retry_session, tag_retry_global,
  tag_bad_proto_ver, tag_bad_authorizer, tag_features, tag_seq, tag_other, Reply, Handled, fails,
  goes, aborts, handle_reply, handle_connect_reply, connect_msg, connected, now_open,
}
use msg.Negotiation.Accept.{Conf, Sent, answered, opened, handle_connect_msg}
use msg.Negotiation.Sound.{Higher, Sound, NoWrap, handle_connect_msg-Sound}

-- Its assertion is the only way for handle_connect_reply to abort.
Runs : Handled → Type 0
Runs fails = Unit {0}
Runs aborts = ⊥
Runs (goes c g) = Unit {0}

handle_reply-Runs :
    (auth : Bool) (random g : ℕ) (c : Conn) (tag : Tag) (r : Reply)
    → Higher tag c.session.connect_seq r.connect_seq
    → Runs (handle_reply auth random g c tag r)
unfolding handle_reply Runs
handle_reply-Runs auth random g c tag_ready r h =
    by_if Runs (missing c.policy.features_required r.features == 0) (λ h. tt) λ h. tt
handle_reply-Runs auth random g c tag_reset_session r h = tt
handle_reply-Runs auth random g c tag_wait r h = tt
handle_reply-Runs auth random g c tag_retry_session r h =
    by_if Runs (ltb c.session.connect_seq r.connect_seq) (λ h. tt) λ n. absurd (ground arith)
handle_reply-Runs auth random g c tag_retry_global r h = tt
handle_reply-Runs auth random g c tag_bad_proto_ver r h = tt
handle_reply-Runs auth random g c tag_bad_authorizer r h =
    by_if Runs c.got_bad_auth (λ h. tt) λ h. tt
handle_reply-Runs auth random g c tag_features r h = tt
handle_reply-Runs auth random g c tag_seq r h =
    by_if Runs (missing c.policy.features_required r.features == 0) (λ h. tt) λ h. tt
handle_reply-Runs auth random g c (tag_other n) r h = tt

aborts_not-Runs : (h : Handled) → Runs h → h ≢ aborts
aborts_not-Runs h run e = unfold Runs in subst Runs e run

-- Whatever the accepting side answers to the message of a connecting side, the assertion of
-- handle_connect_reply holds there, when the two addresses differ and no connect_seq is at its
-- 32-bit limit.
pub answered-handle_connect_reply :
    (conf : Conf) (valid before after : Bool) (sent : Sent) (g : ℕ) (me me' : Conn)
    (entry : Option Conn) (r : Reply) (auth : Bool) (random g' version protocol : ℕ) (c : Conn)
    → (before || after) ≡ true
    → c.session.connect_seq < 2 ^ 32 - 1
    → NoWrap entry
    → handle_connect_msg conf valid before after sent g me (connect_msg version protocol c) entry
      ≡ answered me' r
    → handle_connect_reply auth random g' c r ≢ aborts
unfolding handle_connect_reply connect_msg
answered-handle_connect_reply conf valid before after sent g me me' entry r auth random g' version
      protocol c differ b w e =
    let k = connect_msg version protocol c in
    let sound = handle_connect_msg-Sound conf valid before after sent g me k entry differ b w in
    aborts_not-Runs _ (handle_reply-Runs auth random g' c r.tag r (subst (Sound k sent) e sound))

equal_then : (m n : ℕ) (c : Conn) → m ≡ n → (if m == n then some c else none) ≡ some c
equal_then m n c e = ground arith

-- When the two addresses differ, no connect_seq is at its 32-bit limit and the accepting side opens
-- the session, the connecting side that reads its reply passes the
-- assertion on connect_seq, and then both sides have the same connect_seq, the same lossiness and the
-- same features, and each knows the global_seq that the other one gave.
pub opened-connected :
    (conf : Conf) (valid before after : Bool) (sent : Sent) (g : ℕ) (me me' : Conn)
    (entry : Option Conn) (r : Reply) (g' version protocol : ℕ) (c : Conn)
    → (before || after) ≡ true
    → c.session.connect_seq < 2 ^ 32 - 1
    → NoWrap entry
    → handle_connect_msg conf valid before after sent g me (connect_msg version protocol c) entry
      ≡ opened me' r g'
    → (c' : Conn) × ((connected c (connect_msg version protocol c) r ≡ some c')
        × ((c'.session.connect_seq ≡ me'.session.connect_seq)
            × ((c'.session.lossy ≡ me'.session.lossy)
                × ((c'.features ≡ me'.features)
                    × ((c'.peer_global_seq ≡ g') × (me'.peer_global_seq ≡ c.global_seq))))))
unfolding connected connect_msg
opened-connected conf valid before after sent g me me' entry r g' version protocol c differ b w e =
    let k = connect_msg version protocol c in
    let sound = handle_connect_msg-Sound conf valid before after sent g me k entry differ b w in
    let (cs, (rc, (lossy, (features, (peer, global))))) = subst (Sound k sent) e sound in
    let same : inc32 c.session.connect_seq ≡ r.connect_seq = sym (rc ∙ cs) in
    (now_open c k r, (equal_then _ _ _ same, (same ∙ rc, (lossy, (features, (global, peer))))))
