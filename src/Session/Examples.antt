-- ===== src/Session/Examples.antt =====
-- Concrete links, and the theorems at them.
use msg.Prelude.{ℕ, ◌-◌, ◌^◌, false, ◌≤◌, ◌≡◌, refl, some, List, [], ◌∷◌, arith, length, map}
use msg.StdMap.{lookup, insert, erase}
use msg.Session.{
  Msg, enqueue, pump, send, next_outgoing, requeue_sent, requeue_loop, discard_requeued_up_to,
  discard_loop, receive,
}
use msg.Session.Numbering.{Consecutive}
use msg.Session.Queued.{tally}
use msg.Session.Link.{
  Link, submit, transmit, deliver, break_off, resume, submits, transmits, delivers, breaks, resumes,
  Reach, here, next, start,
}
use msg.Session.ExactlyOnce.{delivered_in_order, nothing_lost}
use msg.Session.Overtaking.{requeued, overtaking_loses}
use msg.Session.Wrap.{receive-send_at_limit}

abbrev ping : Msg
ping = record { seq = 0; priority = 127; body = 1 ∷ [] }

abbrev pong : Msg
pong = record { seq = 0; priority = 196; body = 2 ∷ [] }

-- Two messages are sent, one arrives, the socket breaks, and the other is sent again.
abbrev recovered : Link
recovered = deliver (
    transmit (resume (break_off (deliver (transmit (transmit (submit (submit start ping) pong)))))))

recovered-Reach : Reach start recovered
unfolding submit transmit deliver break_off resume enqueue pump send next_outgoing requeue_sent
    requeue_loop discard_requeued_up_to discard_loop receive lookup insert erase
recovered-Reach =
    next
      (next
        (next
          (next
            (next
              (next
                (next
                  (next (next here (submits ping refl (omega arith)))
                    (submits pong refl (omega arith)))
                  (transmits refl (omega arith)))
                (transmits refl (omega arith)))
              delivers)
            (breaks refl))
          (resumes refl))
        (transmits refl (omega arith)))
      delivers

delivered_in_order_example :
    Consecutive 0 recovered.delivered
    × (length recovered.delivered ≡ recovered.receiver.in_seq)
    × ((f : List ℕ → ℕ) → tally f recovered.delivered ≤ tally f recovered.submitted)
delivered_in_order_example = delivered_in_order recovered recovered-Reach

abbrev one_each : List ℕ → ℕ
one_each body = 1

nothing_lost_example : tally one_each recovered.delivered ≡ tally one_each recovered.submitted
unfolding submit transmit deliver break_off resume enqueue pump send next_outgoing requeue_sent
    requeue_loop discard_requeued_up_to discard_loop receive lookup insert erase
nothing_lost_example = nothing_lost recovered [] recovered-Reach refl refl refl one_each

-- Both bodies arrived, `pong` first since its priority is higher.
recovered_bodies : map (λ (m : Msg). m.body) recovered.delivered ≡ (2 ∷ []) ∷ ((1 ∷ []) ∷ [])
unfolding submit transmit deliver break_off resume enqueue pump send next_outgoing requeue_sent
    requeue_loop discard_requeued_up_to discard_loop receive lookup insert erase
recovered_bodies = refl

abbrev urgent : Msg
urgent = record { seq = 0; priority = 300; body = 3 ∷ [] }

abbrev unlucky : Msg
unlucky = record { seq = 5; priority = 127; body = 4 ∷ [] }

overtaking_loses_example :
    let sent = pump (enqueue (requeued 4 unlucky) urgent) in
    (sent.1 ≡ some (record urgent { seq = 5 }))
    × ((discard_requeued_up_to (requeue_sent sent.0) 5).out_q ≡ [])
    × ((discard_requeued_up_to (requeue_sent sent.0) 5).sent ≡ [])
overtaking_loses_example = overtaking_loses 4 unlucky urgent refl (omega arith) (omega arith)

-- A peer that has had 2 ^ 32 - 1 messages, and a sender at the next number.
receive-send_at_limit_example :
    receive
      (record start.receiver { in_seq = 2 ^ 32 - 1 })
      (send (record start.sender { out_seq = 2 ^ 32 - 1 }) ping).1
    ≡ (record start.receiver { in_seq = 2 ^ 32 - 1 }, false)
receive-send_at_limit_example =
    receive-send_at_limit (record start.receiver { in_seq = 2 ^ 32 - 1 })
      (record start.sender { out_seq = 2 ^ 32 - 1 }) ping refl
