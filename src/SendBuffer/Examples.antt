-- ===== src/SendBuffer/Examples.antt =====
-- The theorems of the output buffer on a socket that takes three bytes at once.
use msg.Prelude.{
  ◌<◌, ◌≢◌, ℕ, ◌≤◌, ◌≡◌, sym, ap, arith, true, List, [], ◌∷◌, ◌++◌, length, take, min,
}
use msg.SendBuffer.{
  SysSend, SendReturn, sent, interrupted, would_block, error, flat, no_end, try_send,
}
use msg.SendBuffer.Ends.{Advances, try_send_ends}
use msg.SendBuffer.Order.{Sendable, try_send-Sendable}

-- A socket is what is on the wire.
abbrev takes : List (List ℕ) → List ℕ → SendReturn × List ℕ
takes iov w = (sent (min (length (flat iov)) 3), w ++ take (min (length (flat iov)) 3) (flat iov))

takes_some :
    (iov : List (List ℕ)) (w : List ℕ) (n : ℕ)
    → (takes iov w).0 ≡ sent n
    → (n ≤ length (flat iov)) × ((takes iov w).1 ≡ w ++ take n (flat iov))
takes_some iov w n e =
    let same : min (length (flat iov)) 3 ≡ n = cc in
    (rw (sym same) (omega arith), ap (λ k. w ++ take k (flat iov)) same)

takes_interrupted :
    (iov : List (List ℕ)) (w : List ℕ) → (takes iov w).0 ≡ interrupted → (takes iov w).1 ≡ w
takes_interrupted iov w e = absurd (cc)

takes_blocked :
    (iov : List (List ℕ)) (w : List ℕ) → (takes iov w).0 ≡ would_block → (takes iov w).1 ≡ w
takes_blocked iov w e = absurd (cc)

takes_error : (iov : List (List ℕ)) (w : List ℕ) → (takes iov w).0 ≡ error → (takes iov w).1 ≡ w
takes_error iov w e = absurd (cc)

abbrev wire3 : SysSend
wire3 = record {
  Socket = List ℕ;
  wire = λ s. s;
  sendmsg = takes;
  sent_some = takes_some;
  sent_interrupted = takes_interrupted;
  sent_blocked = takes_blocked;
  sent_error = takes_error;
}

abbrev queued : List (List ℕ)
queued = (1 ∷ (2 ∷ [])) ∷ ((3 ∷ (4 ∷ (5 ∷ []))) ∷ [])

abbrev added : List (List ℕ)
added = (6 ∷ (7 ∷ [])) ∷ []

try_send-Sendable_example :
    Sendable wire3 (flat queued ++ flat added) [] (try_send wire3 9 2 true queued added [])
try_send-Sendable_example = try_send-Sendable wire3 9 2 true queued added [] (omega arith)

takes-Advances :
    (iov : List (List ℕ)) (w : List ℕ) → 0 < length (flat iov) → Advances (takes iov w).0
takes-Advances iov w h = omega arith

try_send_ends_example : (try_send wire3 9 2 true queued added []).0 ≢ no_end
try_send_ends_example =
    try_send_ends wire3 9 2 true queued added [] takes-Advances (omega arith)
      (omega arith, (omega arith, tt)) (omega arith, tt) (omega arith) (omega arith)
