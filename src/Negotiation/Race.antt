-- ===== src/Negotiation/Race.antt =====
-- Two connections between the same two nodes, each opened from its side
-- (src/async/AsyncConnection.cc, handle_connect_msg, under "connection race?").
use msg.Prelude.{
  ◌≤◌, ◌≡◌, refl, Bool, true, false, arith, ◌||◌, ◌==◌, ltb, ◌&&◌, if◌then◌else◌, by_if, ℕ, some,
}
use msg.Connection.{Conn, Connect, is_state, state_open, standby_state}
use msg.Negotiation.{tag_wait, Decision, answers, replaces, asserts, resolve_existing}
use msg.Negotiation.Accept.{Sent, handed_over, busy, hand_over, reply_accept, accept_decision}

-- The message `k` comes while the own attempt `e` is under way: nothing of it is older, the numbers of
-- the two attempts are equal, and neither end of `e` may drop it.
pub record Racing (k : Connect) (e : Conn) : Type 0 where
  pub no_older : e.peer_global_seq ≤ k.global_seq
  pub lossless : e.session.lossy ≡ false
  pub equal : k.connect_seq ≡ e.session.connect_seq
  pub not_server : e.policy.server ≡ false
  pub unsettled : (is_state e.state state_open || is_state e.state standby_state) ≡ false

-- How a race is decided.
race_lem :
    (before after : Bool) (me : Conn) (k : Connect) (e : Conn)
    → Racing k e
    → (before || after) ≡ true
    → resolve_existing before after me k e
      ≡ (if before then replaces false false else answers tag_wait 0 0)
unfolding resolve_existing
race_lem before after me k e r differ =
    let mine = e.session.connect_seq in
    let P : Decision → Type 0 =
      λ d. d ≡ (if before then replaces false false else answers tag_wait 0 0) in
    let h1 = r.no_older in
    let h2 = r.lossless in
    let h3 = r.equal in
    let h4 = r.not_server in
    let h5 = r.unsettled in
    by_if P (ltb k.global_seq e.peer_global_seq) (λ h. absurd (ground arith))
      λ fresh.
        by_if P e.session.lossy (λ h. absurd (ground arith))
          λ lossless.
            by_if P ((k.connect_seq == 0) && ltb 0 mine) (λ h. absurd (ground arith))
              λ nonzero.
                by_if P (ltb k.connect_seq mine) (λ h. absurd (ground arith))
                  λ up.
                    by_if P (k.connect_seq == mine)
                      (λ same.
                        by_if P (is_state e.state state_open || is_state e.state standby_state)
                          (λ settled. absurd (ground arith))
                          λ racing. decided before after e.policy.server h4 differ)
                      λ above. absurd (ground arith)
  where
    decided :
        (b a s : Bool)
        → s ≡ false
        → (b || a) ≡ true
        → (if b || s then replaces false false else (if a then answers tag_wait 0 0 else asserts))
          ≡ (if b then replaces false false else answers tag_wait 0 0)
    decided true a s h d = refl
    decided false true s h d = rw h
    decided false false s h d = absurd (ground arith)

-- What handle_connect_msg goes on with in a race, when the existing attempt is not being replaced or
-- closed.
raced :
    (before after : Bool) (sent : Sent) (g : ℕ) (me : Conn) (k : Connect) (e : Conn)
    → (before || after) ≡ true
    → Racing k e
    → busy e ≡ false
    → accept_decision sent g me k (some e) (resolve_existing before after me k e) ≡ (
        if before
        then handed_over (hand_over false false me k e).0 (hand_over false false me k e).1
        else reply_accept tag_wait 0 0 k sent me)
unfolding accept_decision
raced true after sent g me k e differ r idle =
    rw (race_lem true after me k e r differ, accept_decision, idle)
raced false after sent g me k e differ r idle = rw (race_lem false after me k e r differ)

-- In a race each node sees its own attempt as existing, with the connect_seq and no older global_seq
-- of the message that comes in; the attempt is lossless, of no server, neither open nor on standby,
-- and not being replaced, closed or stopped. `below` says that the second node's address is below the
-- first node's, `above` that it is above; one of the two holds. The node with the greater address
-- hands the connection that comes in over to its attempt, which is replaced by it. The other node keeps
-- its own attempt and answers WAIT. So of the two connections exactly one goes on, the one that the
-- node with the smaller address has opened.
pub race_has_one_winner :
    (below above : Bool) (sent : Sent) (g h : ℕ) (a b e f : Conn) (k l : Connect)
    → (below || above) ≡ true
    → (below && above) ≡ false
    → Racing k e
    → Racing l f
    → busy e ≡ false
    → busy f ≡ false
    → (accept_decision sent g a k (some e) (resolve_existing below above a k e) ≡ (
        if below
        then handed_over (hand_over false false a k e).0 (hand_over false false a k e).1
        else reply_accept tag_wait 0 0 k sent a))
      × (accept_decision sent h b l (some f) (resolve_existing above below b l f) ≡ (
          if below
          then reply_accept tag_wait 0 0 l sent b
          else handed_over (hand_over false false b l f).0 (hand_over false false b l f).1))
race_has_one_winner true false sent g h a b e f k l differ one p q i j =
    (raced true false sent g a k e refl p i, raced false true sent h b l f refl q j)
race_has_one_winner false true sent g h a b e f k l differ one p q i j =
    (raced false true sent g a k e refl p i, raced true false sent h b l f refl q j)
race_has_one_winner true true sent g h a b e f k l differ one p q i j = absurd (ground arith)
race_has_one_winner false false sent g h a b e f k l differ one p q i j = absurd (ground arith)
