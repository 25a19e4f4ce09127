-- ===== src/Connection/Backoff.antt =====
-- The delays between the attempts of a connection that cannot connect (src/async/AsyncConnection.cc,
-- fault).
use msg.Prelude.{
  ℕ, zero, suc, ◌+◌, ◌*◌, ◌^◌, ◌≤◌, ◌<◌, ◌≡◌, refl, true, false, not, ◌&&◌, Option, none, some,
  arith, ltb, ◌==◌, if◌then◌else◌, ◌∙◌, ap, by_if,
}
use native.Mathlib.Numerals.{unary_clauses}
use msg.Connection.{
  release_throttle, Conn, rank, connecting, closed, opening, is_state, next_backoff, fault,
  fault_state, Fault, unchanged, stopped, aborted, on_standby, reconnect, is_queued, cleared,
}

-- The delays that `n` faults in a row schedule, the last one first.
unfoldable pub delay : ℕ → ℕ → ℕ → Conn → Option ℕ
delay zero initial max c = none
delay (suc zero) initial max c = elim (fault initial max c) [
  | reconnect d t ↦ some t
  | unchanged ↦ none
  | stopped d ↦ none
  | aborted ↦ none
  | on_standby d ↦ none
]
delay (suc (suc n)) initial max c = elim (fault initial max c) [
  | reconnect d t ↦ delay (suc n) initial max d
  | unchanged ↦ none
  | stopped d ↦ none
  | aborted ↦ none
  | on_standby d ↦ none
]

abbrev pub capped : ℕ → ℕ → ℕ
capped max t = if ltb max t then max else t

-- A connection of a client that tries to connect.
pub record Trying (c : Conn) : Type 0 where
  pub at_work : opening c.state ≡ true
  pub no_standby : c.policy.standby ≡ false
  pub not_replaced : (c.replacing == 1) ≡ false

-- A fault while it tries leads to another try, after the next delay.
tries_again :
    (initial max : ℕ) (c : Conn)
    → Trying c
    → (d : Conn) × (fault initial max c ≡ reconnect d (next_backoff initial max c.backoff))
      × Trying d
      × (d.backoff ≡ next_backoff initial max c.backoff)
unfolding fault fault_state rank release_throttle
tries_again initial max c t =
    let at_work = t.at_work in
    let no_standby = t.no_standby in
    let not_replaced = t.not_replaced in
    let b = next_backoff initial max c.backoff in
    let P : Fault → Type 0 = λ f. (d : Conn) × (f ≡ reconnect d b) × Trying d × (d.backoff ≡ b) in
    by_if P (is_state c.state closed) (λ h. absurd (ground arith))
      λ _.
        by_if P (c.session.lossy && not (opening c.state)) (λ h. absurd (ground arith))
          λ _.
            by_if P (c.replacing == 1) (λ h. absurd (ground arith))
              λ _.
                by_if P (c.policy.standby && not (is_queued (cleared c)))
                  (λ h. absurd (ground arith))
                  λ _.
                    by_if P (not (opening c.state)) (λ h. absurd (ground arith))
                      λ _. (
                        record (cleared c) { state = connecting; backoff = b },
                        refl,
                        record { at_work = refl; no_standby = no_standby; not_replaced = refl },
                        refl,
                      )

repeated : ℕ → ℕ → ℕ → ℕ → ℕ
repeated zero initial max b = b
repeated (suc n) initial max b = repeated n initial max (next_backoff initial max b)

delay-repeated :
    (n initial max : ℕ) (c : Conn)
    → Trying c
    → delay (suc n) initial max c ≡ some (repeated (suc n) initial max c.backoff)
unfolding delay repeated
delay-repeated zero initial max c t =
    let (d, e, t', b) = tries_again initial max c t in rw (delay, e)
delay-repeated (suc n) initial max c t =
    let (d, e, t', b) = tries_again initial max c t in
    rw (delay, e)
      (delay-repeated n initial max d t' ∙ ap (λ b. some (repeated (suc n) initial max b)) b)

next_backoff-capped :
    (initial max x : ℕ)
    → 0 < x
    → 0 < max
    → next_backoff initial max (capped max x) ≡ capped max (x + x)
unfolding next_backoff
next_backoff-capped initial max x p q = ground arith

double_pow : (x n : ℕ) → (x + x) * 2 ^ n ≡ x * 2 ^ (suc n)
double_pow x n = simp unary_clauses (omega arith)

repeated-capped :
    (n initial max x : ℕ)
    → 0 < x
    → 0 < max
    → repeated n initial max (capped max x) ≡ capped max (x * 2 ^ n)
unfolding repeated
repeated-capped zero initial max x p q = ap (capped max) (omega arith)
repeated-capped (suc n) initial max x p q =
    ap (repeated n initial max) (next_backoff-capped initial max x p q)
    ∙ repeated-capped n initial max (x + x) (omega arith) q
    ∙ ap (capped max) (double_pow x n)

-- The delay after the n-th fault in a row of a connection that has been connecting without a delay,
-- has no standby policy and is not being replaced is initial * 2^(n-1), until it stays at the maximum;
-- the initial delay is neither 0 nor above the maximum.
pub delay-capped :
    (n initial max : ℕ) (c : Conn)
    → Trying c
    → c.backoff ≡ 0
    → 0 < initial
    → initial ≤ max
    → delay (suc n) initial max c ≡ some (capped max (initial * 2 ^ n))
unfolding repeated next_backoff
delay-capped n initial max c t z p le =
    delay-repeated n initial max c t
    ∙ ap (λ b. some (repeated (suc n) initial max b)) z
    ∙ ap (λ b. some (repeated n initial max b)) first
    ∙ ap some (repeated-capped n initial max initial p (omega arith))
  where
    first : initial ≡ capped max initial
    first = ground arith
