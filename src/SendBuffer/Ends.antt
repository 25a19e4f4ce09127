-- ===== src/SendBuffer/Ends.antt =====
-- The loops of do_sendmsg and _try_send end (src/async/AsyncConnection.cc).
use msg.Prelude.{
  ℕ, zero, suc, ◌+◌, ◌-◌, ◌<◌, ◌≡◌, ◌≢◌, refl, ap, sym, subst, ◌∙◌, Bool, List, [], ◌∷◌, ◌++◌,
  length, take, drop, ltb, leb, ◌==◌, if◌then◌else◌, arith, by_if, length-append, length-drop,
}
use msg.Buffers.{wrap32}
use msg.Buffers.Substr.{wrap32_lem}
use msg.SendBuffer.{
  SysSend, SendReturn, sent, interrupted, would_block, error, flat, drain, splice_front, Sending,
  left, failed, no_end, minus32, as_int, do_sendmsg, send_loop, try_send,
}
use msg.SendBuffer.Drain.{minus32_lem, flat-drain, flat-splice_front}
use msg.SendBuffer.Order.{flat-take-drop}

-- No buffer is empty.
abbrev pub AllFull : List (List ℕ) → Type 0
AllFull [] = Unit {0}
AllFull (b ∷ bs) = (0 < length b) × AllFull bs

AllFull-append : (xs ys : List (List ℕ)) → AllFull xs → AllFull ys → AllFull (xs ++ ys)
AllFull-append [] ys p q = q
AllFull-append (x ∷ xs) ys (a, p) q = (a, AllFull-append xs ys p q)

AllFull-splice_front : (n : ℕ) (bl : List (List ℕ)) → AllFull bl → AllFull (splice_front n bl)
unfolding splice_front
AllFull-splice_front n [] p = tt
AllFull-splice_front n (b ∷ bl) (a, p) =
    by_if AllFull (n == 0) (λ h. (a, p))
      λ h.
        by_if AllFull (leb (length b) n) (λ k. AllFull-splice_front (n - length b) bl p)
          λ k. (ground (arith, length-drop n b), p)

-- A call that takes something, if it does not fail or would block.
abbrev pub Advances : SendReturn → Type 0
Advances (sent n) = 0 < n
Advances interrupted = ⊥
Advances would_block = Unit
Advances error = Unit

module _ (sys : SysSend) where
  open sys use {Socket, sendmsg, sent_some}

  -- what is asked of the socket here: no call on a message with bytes takes none of them, or is
  -- interrupted
  abbrev pub Flows : Type 0
  Flows = (iov : List (List ℕ)) (s : Socket) → 0 < length (flat iov) → Advances (sendmsg iov s).0

  do_sendmsg_ends :
      Flows
      → (rounds : ℕ) (iov : List (List ℕ)) (len : ℕ) (s : Socket) → len ≡ length (flat iov)
      → len < rounds
      → (do_sendmsg sys rounds iov len s).0 ≢ no_end
  unfolding do_sendmsg
  do_sendmsg_ends flows zero iov len s e b = absurd (omega arith)
  do_sendmsg_ends flows (suc rounds) iov len s e b =
      by_if Ended (len == 0) (λ z q. absurd (cc))
        λ z.
          by_return (sendmsg iov s).0 refl (flows iov s (ground arith))
            λ r. do_sendmsg_ends flows rounds (drain r iov) (len - r) s'
    where
      Ended : Sending × Socket → Type 0
      Ended t = t.0 ≢ no_end

      s' : Socket
      s' = (sendmsg iov s).1

      by_return :
          (r : SendReturn)
          → (sendmsg iov s).0 ≡ r
          → Advances r
          → ((r : ℕ)
              → len - r ≡ length (flat (drain r iov))
              → len - r < rounds
              → Ended (do_sendmsg sys rounds (drain r iov) (len - r) s'))
          → Ended (elim r as (λ r. Sending × Socket) [
            | interrupted ↦ do_sendmsg sys rounds iov len s'
            | would_block ↦ (as_int len, s')
            | error ↦ (failed, s')
            | sent r ↦
                let len' = minus32 len r in
                let more = do_sendmsg sys rounds (drain r iov) len' s' in
                if len' == 0 then (left 0, s') else more
          ])
      by_return interrupted h a f = absurd a
      by_return would_block h a f =
          by_if (λ o. Ended (o, s')) (ltb len 2147483648) (λ _ q. absurd (cc)) λ _ q. absurd (cc)
      by_return error h a f = λ q. absurd (cc)
      by_return (sent r) h a f =
          let (le, w) = sent_some iov s r h in
          let next : ℕ → Sending × Socket = λ k.
            let rest = do_sendmsg sys rounds (drain r iov) k s' in
            if k == 0 then (left 0, s') else rest in
          subst (λ k. Ended (next k)) (sym (minus32_lem len r (omega arith)))
            (by_if Ended (len - r == 0) (λ z q. absurd (cc))
              λ z.
                f r (omega (arith, ap length (flat-drain r iov), length-drop r (flat iov)))
                  (ground arith))

  send_loop_ends :
      Flows
      → (rounds slots : ℕ) (bl : List (List ℕ)) (s : Socket) → 0 < slots
      → AllFull bl
      → length (flat bl) < rounds
      → length (flat bl) < 2147483648
      → (send_loop sys rounds slots bl s).0 ≢ no_end
  unfolding send_loop
  send_loop_ends flows zero slots bl s w p b m = absurd (omega arith)
  send_loop_ends flows (suc rounds) slots [] s w p b m = λ q. absurd (cc)
  send_loop_ends flows (suc rounds) zero (b ∷ bl) s w p r m = absurd (omega arith)
  send_loop_ends flows (suc rounds) (suc k) (b ∷ bl) s w (a, p) r m =
      by_sending (do_sendmsg sys (suc rounds) iov msglen s).0
        (do_sendmsg sys (suc rounds) iov msglen s).1
        (do_sendmsg_ends flows (suc rounds) iov msglen s whole_length (omega (arith, front, r)))
        λ n t. send_loop_ends flows rounds (suc k) (splice_front n (b ∷ bl)) t w
    where
      iov : List (List ℕ)
      iov = take (suc k) (b ∷ bl)

      msglen : ℕ
      msglen = wrap32 (length (flat iov))

      parted : length (flat (b ∷ bl)) ≡ length (flat iov) + length (flat (drop (suc k) (b ∷ bl)))
      parted =
          ap length (flat-take-drop (suc k) (b ∷ bl))
          ∙ length-append (flat iov) (flat (drop (suc k) (b ∷ bl)))

      whole_length : msglen ≡ length (flat iov)
      whole_length = wrap32_lem (length (flat iov)) (omega (arith, m, parted))

      front : length (flat (b ∷ bl)) ≡ msglen + length (flat (drop (suc k) (b ∷ bl)))
      front = omega (arith, parted, whole_length)

      some_bytes : 0 < msglen
      some_bytes = omega (arith, a, whole_length, length-append b (flat (take k bl)))

      Ended : Sending × List (List ℕ) × Socket → Type 0
      Ended t = t.0 ≢ no_end

      by_sending :
          (x : Sending) (s' : Socket)
          → x ≢ no_end
          → ((n : ℕ) (u : Socket)
              → AllFull (splice_front n (b ∷ bl))
              → length (flat (splice_front n (b ∷ bl))) < rounds
              → length (flat (splice_front n (b ∷ bl))) < 2147483648
              → Ended (send_loop sys rounds (suc k) (splice_front n (b ∷ bl)) u))
          → Ended (elim x as (λ r. Sending × List (List ℕ) × Socket) [
            | failed ↦ (failed, b ∷ bl, s')
            | no_end ↦ (no_end, b ∷ bl, s')
            | left n ↦
                let bl' = splice_front (minus32 msglen n) (b ∷ bl) in
                let rest = send_loop sys rounds (suc k) bl' s' in
                if ltb 0 n then (as_int (wrap32 (length (flat bl'))), bl', s') else rest
          ])
      by_sending failed s' x f = λ q. absurd (cc)
      by_sending no_end s' x f = absurd (x refl)
      by_sending (left n) s' x f =
          let gone = minus32 msglen n in
          let rest = length (flat (splice_front gone (b ∷ bl))) in
          by_if Ended (ltb 0 n)
            (λ h.
              by_if (λ o. Ended (o, splice_front gone (b ∷ bl), s')) (ltb (wrap32 rest) 2147483648)
                (λ _ q. absurd (cc)) λ _ q. absurd (cc))
            λ h.
              let some_gone : 0 < gone =
                ground (arith, some_bytes, minus32_lem msglen n (ground arith)) in
              f gone s' (AllFull-splice_front gone (b ∷ bl) (a, p)) (shorter gone some_gone) (
                omega (
                  arith,
                  m,
                  ap length (flat-splice_front gone (b ∷ bl)),
                  length-drop gone (flat (b ∷ bl)),
                ))
        where
          shorter : (m : ℕ) → 0 < m → length (flat (splice_front m (b ∷ bl))) < rounds
          shorter m pos = omega (
            arith,
            r,
            front,
            some_bytes,
            ap length (flat-splice_front m (b ∷ bl)),
            length-drop m (flat (b ∷ bl)),
          )

  -- _try_send ends when the socket takes something at each call, would block or fails: as many rounds as
  -- there are bytes, and one more, are enough if no buffer is empty, a message may have a buffer, and the
  -- bytes are fewer than 2^31.
  pub try_send_ends :
      (rounds slots : ℕ) (send : Bool) (outcoming_bl send_bl : List (List ℕ)) (s : Socket)
      → Flows
      → 0 < slots
      → AllFull outcoming_bl
      → AllFull send_bl
      → length (flat (outcoming_bl ++ send_bl)) < rounds
      → length (flat (outcoming_bl ++ send_bl)) < 2147483648
      → (try_send sys rounds slots send outcoming_bl send_bl s).0 ≢ no_end
  unfolding try_send
  try_send_ends rounds slots send outcoming_bl send_bl s flows w p q b m =
      let bl = outcoming_bl ++ send_bl in
      by_if Ended send
        (λ h.
          send_loop_ends flows rounds slots bl s w (AllFull-append outcoming_bl send_bl p q) b m)
        λ h.
          by_if (λ o. Ended (o, bl, s)) (ltb (wrap32 (length (flat bl))) 2147483648)
            (λ _ e. absurd (cc)) λ _ e. absurd (cc)
    where
      Ended : Sending × List (List ℕ) × Socket → Type 0
      Ended t = t.0 ≢ no_end
