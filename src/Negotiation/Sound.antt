-- ===== src/Negotiation/Sound.antt =====
-- What handle_connect_msg returns is what handle_connect_reply and STATE_CONNECTING_READY of the other
-- side expect (src/async/AsyncConnection.cc).
use msg.Prelude.{
  ℕ, ◌-◌, ◌<◌, ◌^◌, ◌≡◌, refl, List, Bool, true, false, Option, none, some, arith, ◌||◌, ◌==◌, not,
  bit_and, ◌&&◌, ltb, sym, if◌then◌else◌, by_if,
}
use msg.Session.{Session, Msg, discard_requeued_up_to, discard_loop, set_or_erase, prio_highest}
use msg.StdMap.{lookup}
use msg.Connection.{Conn, Connect, Policy, inc32, missing, State}
use msg.Negotiation.{
  Tag, tag_retry_session, Reply, Decision, answers, replaces, opens, asserts, lookup_existing,
  resolve, accept_conn, get_global_seq,
}
use msg.Negotiation.Accept.{
  Conf, Sent, failed, done, partial, Accepted, refused, answered, handed_over, opened, asserted,
  answer_busy, admit, require_features, reply_accept, accept_decision, open_session, finish_open,
  hand_over, handle_connect_msg, busy,
}
use msg.Negotiation.Answers.{
  Resolved, final, global, newer, reset, replaced, waits, resolve_existing-Resolved,
}

-- A retry asks for more than the connect_seq that was sent.
abbrev pub Higher : Tag → ℕ → ℕ → Type 0
Higher tag_retry_session sent asked = sent < asked
Higher _ sent asked = Unit {0}

-- The session that was opened, beside the reply that tells of it.
abbrev pub Agreed : Connect → Conn → Reply → ℕ → Type 0
Agreed k me r g =
    (me.session.connect_seq ≡ inc32 k.connect_seq)
    × ((r.connect_seq ≡ me.session.connect_seq)
        × ((r.lossy ≡ me.session.lossy)
            × ((bit_and r.features k.features ≡ me.features)
                × ((me.peer_global_seq ≡ k.global_seq) × (r.global_seq ≡ g)))))

-- What one call of handle_connect_msg returns, `sent` being what became of its reply.
abbrev pub Sound : Connect → Sent → Accepted → Type 0
Sound k sent (refused me) = sent ≡ failed
Sound k sent (answered me r) = Higher r.tag k.connect_seq r.connect_seq
Sound k sent (handed_over me e) = e.replacing ≡ 1
Sound k sent (opened me r g) = Agreed k me r g
Sound k sent asserted = ⊥

abbrev pub NoWrap : Option Conn → Type 0
NoWrap none = Unit {0}
NoWrap (some e) = e.session.connect_seq < 2 ^ 32 - 1

reply_accept-Sound :
    (tag : Tag) (gs cs : ℕ) (k : Connect) (sent : Sent) (me : Conn)
    → Higher tag k.connect_seq cs
    → Sound k sent (reply_accept tag gs cs k sent me)
unfolding reply_accept
reply_accept-Sound tag gs cs k failed me h = refl
reply_accept-Sound tag gs cs k done me h = h
reply_accept-Sound tag gs cs k partial me h = h

answer_busy-Sound :
    (k : Connect) (sent : Sent) (me : Conn)
    → k.connect_seq < 2 ^ 32 - 1
    → Sound k sent (answer_busy k sent me)
unfolding answer_busy
answer_busy-Sound k failed me b = refl
answer_busy-Sound k done me b = reply_accept-Sound tag_retry_session 0 _ k done me (omega arith)
answer_busy-Sound k partial me b =
    reply_accept-Sound tag_retry_session 0 _ k partial me (omega arith)

finish_open-Sound :
    (k : Connect) (sent : Sent) (me : Conn) (r : Reply) (next : State) (g : ℕ)
    → Agreed k me r g
    → Sound k sent (finish_open sent me r next g)
unfolding finish_open
finish_open-Sound k failed me r next g h = refl
finish_open-Sound k done me r next g h = h
finish_open-Sound k partial me r next g h = h

-- Of what the negotiation reads, discard_requeued_up_to changes nothing.
discard_requeued_up_to-rest :
    (s : Session) (n : ℕ)
    → ((discard_requeued_up_to s n).connect_seq ≡ s.connect_seq)
      × ((discard_requeued_up_to s n).lossy ≡ s.lossy)
discard_requeued_up_to-rest s n =
    unfold discard_requeued_up_to in by_queue (lookup prio_highest s.out_q)
  where
    after : Option (List Msg) → Session
    after o = elim o [
      | none ↦ s
      | some ms ↦
          let (rq, n) = discard_loop n ms s.out_seq in
          record s { out_q = set_or_erase prio_highest rq s.out_q; out_seq = n }
    ]

    by_queue :
        (o : Option (List Msg))
        → ((after o).connect_seq ≡ s.connect_seq) × ((after o).lossy ≡ s.lossy)
    by_queue none = (refl, refl)
    by_queue (some ms) = (refl, refl)

open_session-Agreed :
    (g : ℕ) (me : Conn) (k : Connect)
    → Agreed k (open_session g me k).0 (open_session g me k).1.0 (get_global_seq g 0)
unfolding open_session
open_session-Agreed g me k = resumed (not (me.replacing == 0) && not me.is_reset_from_peer)
  where
    seqs : Session
    seqs = record me.session { connect_seq = inc32 k.connect_seq }

    fresh : Session
    fresh = record (discard_requeued_up_to seqs 0) { in_seq = 0; in_seq_acked = 0 }

    resumed :
        (b : Bool)
        → ((if b then seqs else fresh).connect_seq ≡ inc32 k.connect_seq)
          × ((inc32 k.connect_seq ≡ (if b then seqs else fresh).connect_seq)
              × ((me.session.lossy ≡ (if b then seqs else fresh).lossy)
                  × ((bit_and me.policy.features_supported k.features
                        ≡ bit_and me.policy.features_supported k.features)
                      × ((k.global_seq ≡ k.global_seq)
                          × (get_global_seq g 0 ≡ get_global_seq g 0)))))
    resumed true = (refl, (refl, (refl, (refl, (refl, refl)))))
    resumed false =
        let (same, lossy) = discard_requeued_up_to-rest seqs 0 in
        (same, (sym same, (sym lossy, (refl, (refl, refl)))))

open-Sound :
    (sent : Sent) (g : ℕ) (me : Conn) (k : Connect) (entry : Option Conn)
    → accept_conn me entry ≡ true
    → Sound k sent (accept_decision sent g me k entry opens)
unfolding accept_decision
open-Sound sent g me k entry own =
    by_if (Sound k sent) (not (accept_conn me entry)) (λ h. absurd (ground arith))
      λ h. finish_open-Sound k sent _ _ _ _ (open_session-Agreed g me k)

-- What follows the resolution.
Decided : Conn → Connect → Option Conn → Decision → Type 0
Decided me k entry (answers tag gs cs) = Higher tag k.connect_seq cs
Decided me k none (replaces a b) = ⊥
Decided me k (some e) (replaces a b) = Unit {0}
Decided me k entry opens = accept_conn me entry ≡ true
Decided me k entry asserts = ⊥

accept_decision-Sound :
    (sent : Sent) (g : ℕ) (me : Conn) (k : Connect) (entry : Option Conn) (d : Decision)
    → k.connect_seq < 2 ^ 32 - 1
    → Decided me k entry d
    → Sound k sent (accept_decision sent g me k entry d)
unfolding accept_decision Decided hand_over
accept_decision-Sound sent g me k entry (answers tag gs cs) b h =
    reply_accept-Sound tag gs cs k sent me h
accept_decision-Sound sent g me k (some e) (replaces x y) b h =
    by_if (Sound k sent) (busy e) (λ h. answer_busy-Sound k sent me b) λ h. refl
accept_decision-Sound sent g me k none (replaces x y) b h = absurd h
accept_decision-Sound sent g me k entry opens b h = open-Sound sent g me k entry h
accept_decision-Sound sent g me k entry asserts b h = absurd h

Resolved-Decided :
    (me : Conn) (k : Connect) (e x : Conn) (d : Decision)
    → e.session.connect_seq < 2 ^ 32 - 1
    → Resolved me k e d
    → Decided me k (some x) d
unfolding Decided
Resolved-Decided me k e x _ b (final _ (replaced _ _)) = tt
Resolved-Decided me k e x _ b (final _ waits) = tt
Resolved-Decided me k e x _ b (global _) = tt
Resolved-Decided me k e x _ b (newer _ _ le _) = omega arith
Resolved-Decided me k e x _ b (reset _ _ _ _) = tt

new-Decided :
    (before after : Bool) (me : Conn) (k : Connect) (entry : Option Conn)
    → accept_conn me entry ≡ true
    → Decided me k entry (resolve before after me k none)
unfolding resolve Decided
new-Decided before after me k entry own =
    by_if (Decided me k entry) ((me.replacing == 0) && ltb 0 k.connect_seq) (λ h. tt) λ h. own

resolve-Decided :
    (before after : Bool) (me : Conn) (k : Connect) (entry : Option Conn)
    → (before || after) ≡ true
    → NoWrap entry
    → Decided me k entry (resolve before after me k (lookup_existing me entry))
resolve-Decided before after me k none differ b =
    unfold accept_conn in new-Decided before after me k none refl
resolve-Decided before after me k (some e) differ b = found (e.id == me.id) refl
  where
    found :
        (same : Bool)
        → (e.id == me.id) ≡ same
        → Decided me k (some e) (resolve before after me k (if same then none else some e))
    found true h = unfold accept_conn in new-Decided before after me k (some e) h
    found false h =
        unfold resolve in
        Resolved-Decided me k e e _ b (resolve_existing-Resolved before after me k e differ)

-- A refusal is not a retry.
Refusal : Connect → Policy × Option Tag → Type 0
Refusal k (p, none) = Unit {0}
Refusal k (p, some tag) = Higher tag k.connect_seq 0

admit-Refusal :
    (conf : Conf) (valid : Bool) (me : Conn) (k : Connect) → Refusal k (admit conf valid me k)
unfolding admit Refusal
admit-Refusal conf valid me k =
    by_if (Refusal k) (not (k.protocol_version == conf.my_protocol)) (λ h. tt)
      λ h.
        by_if (Refusal k)
          (not (missing (require_features conf me.policy k).features_required k.features == 0))
          (λ h. tt) λ h. by_if (Refusal k) (not valid) (λ h. tt) λ h. tt

-- handle_connect_msg never fails an assertion when the two addresses differ and no connect_seq is at
-- its 32-bit limit; a RETRY_SESSION asks for a higher connect_seq than the peer sent; the existing
-- connection that takes over is at stage 1; and a session that is opened agrees with its reply on
-- connect_seq, lossiness and features. It returns -1 only if its reply could not be sent.
pub handle_connect_msg-Sound :
    (conf : Conf) (valid before after : Bool) (sent : Sent) (g : ℕ) (me : Conn) (k : Connect)
    (entry : Option Conn)
    → (before || after) ≡ true
    → k.connect_seq < 2 ^ 32 - 1
    → NoWrap entry
    → Sound k sent (handle_connect_msg conf valid before after sent g me k entry)
unfolding handle_connect_msg
handle_connect_msg-Sound conf valid before after sent g me k entry differ b w =
    admitted (admit conf valid me k) (admit-Refusal conf valid me k)
  where
    admitted :
        (p : Policy × Option Tag)
        → Refusal k p
        → Sound k sent (elim p.1 [
          | some tag ↦ reply_accept tag 0 0 k sent (record me { policy = p.0 })
          | none ↦
              accept_decision sent g
                (record me { policy = p.0 })
                k
                entry
                (resolve before after
                  (record me { policy = p.0 })
                  k
                  (lookup_existing (record me { policy = p.0 }) entry))
        ])
    admitted (p, some tag) h =
        unfold Refusal in reply_accept-Sound tag 0 0 k sent (record me { policy = p }) h
    admitted (p, none) h =
        let me' : Conn = record me { policy = p } in
        accept_decision-Sound sent g me' k entry _ b
          (resolve-Decided before after me' k entry differ w)
