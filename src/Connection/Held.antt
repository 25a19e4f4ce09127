-- ===== src/Connection/Held.antt =====
-- What a connection holds of the policy's throttlers, by its state (src/async/AsyncConnection.cc).
use msg.Prelude.{
  ℕ, ◌≡◌, refl, Bool, true, false, not, ◌&&◌, ◌||◌, ltb, leb, ◌==◌, if◌then◌else◌, arith, by_if,
}
use msg.Connection.{
  State, Conn, rank, open_message_throttle_message, open_message_throttle_bytes,
  open_message_dispatch, release_throttle, stop, cleared, fault, fault_state, Fault, unchanged,
  stopped, aborted, on_standby, reconnect, closed, connecting, standby_state, is_state, opening,
  is_queued, in_states, accepting, accepting_wait_seq,
}

-- the two tests of release_throttle
abbrev pub has_message : State → Bool
has_message s =
    ltb (rank open_message_throttle_message) (rank s) && leb (rank s) (rank open_message_dispatch)

abbrev pub has_bytes : State → Bool
has_bytes s =
    ltb (rank open_message_throttle_bytes) (rank s) && leb (rank s) (rank open_message_dispatch)

-- A connection holds one message between the two gets and the hand-over, and the bytes of the message.
pub record Held (c : Conn) : Type 0 where
  pub messages : c.held_messages ≡ (if has_message c.state then 1 else 0)
  pub bytes : c.held_bytes ≡ (if has_bytes c.state then c.message_size else 0)

-- Nothing is held, and the size of the last message is `n`.
abbrev pub Released : ℕ → Conn → Type 0
Released n c = (c.held_messages ≡ 0) × (c.held_bytes ≡ 0) × (c.message_size ≡ n)

pub release_throttle-Released :
    (c : Conn) → Held c → Released c.message_size (release_throttle c.state c)
unfolding release_throttle
release_throttle-Released c h = (omega (arith, h.messages), omega (arith, h.bytes), refl)

-- _stop gives back all that the connection holds of the throttlers.
pub stop-Released :
    (c : Conn)
    → Held c
    → is_state c.state closed ≡ false
    → Released c.message_size (stop c) × (is_state (stop c).state closed ≡ true)
unfolding stop rank
stop-Released c h e = rw e (release_throttle-Released c h, refl)

-- What a fault leaves: the connection holds nothing, or it was closed before, or an assertion fails.
abbrev pub FaultReleased : ℕ → Fault → Type 0
FaultReleased n unchanged = Unit
FaultReleased n aborted = Unit
FaultReleased n (stopped c) = Released n c × (is_state c.state closed ≡ true)
FaultReleased n (on_standby c) = Released n c × (is_state c.state standby_state ≡ true)
FaultReleased n (reconnect c t) = Released n c × (is_state c.state connecting ≡ true)

fault_state-FaultReleased :
    (initial max : ℕ) (n : ℕ) (c : Conn)
    → Released n c
    → FaultReleased n (fault_state initial max c)
unfolding fault_state rank
fault_state-FaultReleased initial max n c r =
    by_if (FaultReleased n) (not (opening c.state))
      (λ o.
        by_if (FaultReleased n) (c.policy.server || in_states accepting accepting_wait_seq c.state)
          (λ s. (r, refl)) λ s. (r, refl))
      λ o. (r, refl)

-- A fault gives back all that the connection holds of the throttlers, whichever state it interrupts:
-- a connection that holds what its state says holds nothing when it is stopped, stands by or is to
-- connect again.
pub fault-FaultReleased :
    (initial max : ℕ) (c : Conn) → Held c → FaultReleased c.message_size (fault initial max c)
unfolding fault rank
fault-FaultReleased initial max c h =
    by_if (FaultReleased c.message_size) (is_state c.state closed) (λ e. tt)
      λ e.
        by_if (FaultReleased c.message_size) (c.session.lossy && not (opening c.state))
          (λ l. stop-Released c h e)
          λ l.
            by_if (FaultReleased c.message_size) (c.replacing == 1) (λ a. tt)
              λ a.
                by_if (FaultReleased c.message_size)
                  ((cleared c).policy.standby && not (is_queued (cleared c)))
                  (λ b. (release_throttle-Released c h, refl))
                  λ b.
                    fault_state-FaultReleased initial max c.message_size (cleared c)
                      (release_throttle-Released c h)
