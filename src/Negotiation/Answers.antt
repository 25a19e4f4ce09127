-- ===== src/Negotiation/Answers.antt =====
-- What the accepting side answers (src/async/AsyncConnection.cc, handle_connect_msg).
use msg.Prelude.{
  ℕ, ◌<◌, ◌≤◌, ◌≡◌, refl, Bool, true, false, arith, ◌⊎◌, inl, inr, ◌||◌, ◌==◌, not, leb, ltb, ◌&&◌,
  by_if,
}
use msg.Connection.{Conn, Connect, inc32, is_state, state_open, standby_state}
use msg.Negotiation.{
  tag_wait, tag_reset_session, tag_retry_session, tag_retry_global, Decision, answers, replaces,
  resolve_existing,
}

-- What a decision other than a retry is.
pub data Final : Decision → Type 0 where
  replaced : (a b : Bool) → Final (replaces a b)
  waits : Final (answers tag_wait 0 0)

-- The decisions on an existing connection.
pub data Resolved (me : Conn) (k : Connect) (e : Conn) : Decision → Type 0 where
  final : (d : Decision) → Final d → Resolved me k e d
  global :
      k.global_seq < e.peer_global_seq
      → Resolved me k e (answers tag_retry_global e.peer_global_seq 0)
  newer :
      e.peer_global_seq ≤ k.global_seq
      → e.session.lossy ≡ false
      → k.connect_seq ≤ e.session.connect_seq
      → ((me.policy.resetcheck ≡ false) ⊎ (0 < e.session.connect_seq))
      → Resolved me k e (answers tag_retry_session 0 (inc32 e.session.connect_seq))
  reset :
      e.peer_global_seq ≤ k.global_seq
      → me.policy.resetcheck ≡ true
      → e.session.connect_seq ≡ 0
      → 0 < k.connect_seq
      → Resolved me k e (answers tag_reset_session 0 0)

bumped : (b : Bool) (n : ℕ) → (b && (n == 0)) ≡ false → (b ≡ false) ⊎ (0 < n)
bumped false n h = inl refl
bumped true n h = inr (ground arith)

-- What the accepting side decides on an existing connection, when the two addresses differ: to
-- replace it, to answer WAIT, or one of three retries, each under its own condition. In particular no
-- assertion fails.
pub resolve_existing-Resolved :
    (before after : Bool) (me : Conn) (k : Connect) (e : Conn)
    → (before || after) ≡ true
    → Resolved me k e (resolve_existing before after me k e)
unfolding resolve_existing
resolve_existing-Resolved before after me k e differ =
    let R = Resolved me k e in
    let mine = e.session.connect_seq in
    let resetcheck = me.policy.resetcheck in
    by_if R (ltb k.global_seq e.peer_global_seq) (λ h. global (ground arith))
      λ fresh.
        by_if R e.session.lossy (λ h. final _ (replaced _ _))
          λ lossless.
            by_if R ((k.connect_seq == 0) && ltb 0 mine) (λ h. final _ (replaced _ _))
              λ nonzero.
                by_if R (ltb k.connect_seq mine)
                  (λ h. newer (ground arith) lossless (ground arith) (inr (ground arith)))
                  λ up.
                    by_if R (k.connect_seq == mine)
                      (λ same.
                        by_if R (is_state e.state state_open || is_state e.state standby_state)
                          (λ settled.
                            by_if R (resetcheck && (mine == 0)) (λ h. final _ (replaced _ _))
                              λ h. newer (ground arith) lossless (ground arith) (bumped _ _ h))
                          (λ racing.
                            by_if R (before || e.policy.server) (λ h. final _ (replaced _ _))
                              λ wins.
                                by_if R after (λ h. final _ waits) λ h. absurd (ground arith)))
                      λ above.
                        by_if R (not (ltb mine k.connect_seq && leb e.peer_global_seq k.global_seq))
                          (λ h. absurd (ground arith))
                          λ higher.
                            by_if R (resetcheck && (mine == 0))
                              (λ h.
                                reset (ground arith) (ground arith) (ground arith) (ground arith))
                              λ h. final _ (replaced _ _)
