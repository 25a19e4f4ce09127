-- ===== src/Session/ExactlyOnce.antt =====
-- What a link promises after any history of sends, deliveries, acknowledgements and faults
-- (src/async/AsyncConnection.cc).
use msg.Prelude.{ℕ, ◌≤◌, ◌≡◌, ap, inl, inr, true, none, List, [], arith, length}
use msg.Session.{OutQueue, next_outgoing}
use msg.Session.Numbering.{Consecutive}
use msg.Session.Queued.{tally}
use msg.Session.Next.{Holds-Next}
use msg.Session.Link.{Link, Reach, here, next, start}
use msg.Session.Invariant.{Inv, start-Inv}
use msg.Session.Sending.{Step-Inv}

pub Reach-Inv : {l : Link} → Reach start l → Inv l
Reach-Inv here = start-Inv
Reach-Inv (next r s) = Step-Inv s (Reach-Inv r)

-- On a lossless link whose messages are submitted without a number, at priorities of at most 255, and
-- are fewer than 2 ^ 32: whatever happened to the sockets since its start, the receiver has passed on
-- the messages numbered 1, 2, ... up to its in_seq, in that order, and no body more often than it was
-- submitted.
pub delivered_in_order :
    (l : Link)
    → Reach start l
    → Consecutive 0 l.delivered
      × (length l.delivered ≡ l.receiver.in_seq)
      × ((f : List ℕ → ℕ) → tally f l.delivered ≤ tally f l.submitted)
delivered_in_order l r =
    let v = Reach-Inv r in (v.in_order, v.complete, λ f. omega (arith, v.weight f))

-- On such a link, when it is up, with nothing on the wire and nothing left that the sender would send,
-- every body was delivered exactly as often as it was submitted: lossless, the messages submitted
-- without a number, at priorities of at most 255, and fewer than 2 ^ 32.
pub nothing_lost :
    (l : Link) (q : OutQueue)
    → Reach start l
    → l.connected ≡ true
    → l.channel ≡ []
    → next_outgoing l.sender.out_q ≡ (none, q)
    → (f : List ℕ → ℕ) → tally f l.delivered ≡ tally f l.submitted
nothing_lost l q r up c e f = elim v.place [
  | inr (down, s, o, h) ↦ absurd (cc (down, up))
  | inl (u, s, o, h) ↦ elim (Holds-Next l.sender.out_q v.run v.ns v.low h v.new v.lower) [
    | inl (e', r', w) ↦ omega (arith, v.weight f, w f, ap (tally f) c, ap (tally f) r')
    | inr (m, q', run', ns', low', e', h', n, lo, which, w) ↦ absurd (cc (e, e'))
  ]
]
  where
    v : Inv l
    v = Reach-Inv r
