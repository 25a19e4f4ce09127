-- ===== src/SendBuffer/Order.antt =====
-- _try_send keeps the order and loses nothing (src/async/AsyncConnection.cc).
use msg.Prelude.{
  ℕ, zero, suc, ◌-◌, ◌<◌, ◌≤◌, length-append, length-drop, ◌≡◌, refl, sym, ap, ◌∙◌, subst, Bool,
  List, [], ◌∷◌, ◌++◌, length, take, drop, ltb, if◌then◌else◌, arith, by_if, append_assoc,
  append-nil, take-append-drop,
}
use msg.Buffers.{wrap32}
use msg.Buffers.Substr.{wrap32_lem}
use msg.SendBuffer.{
  SysSend, flat, splice_front, Sending, left, failed, no_end, minus32, as_int, do_sendmsg,
  send_loop, try_send,
}
use msg.SendBuffer.Drain.{minus32_lem, as_int_lem, flat-splice_front, Sent, do_sendmsg-Sent}

pub flat-take-drop : (n : ℕ) (bl : List (List ℕ)) → flat bl ≡ flat (take n bl) ++ flat (drop n bl)
flat-take-drop zero bl = refl
flat-take-drop (suc n) [] = refl
flat-take-drop (suc n) (b ∷ bl) =
    ap (λ t. b ++ t) (flat-take-drop n bl)
    ∙ sym (append_assoc b (flat (take n bl)) (flat (drop n bl)))

pub take-append_le : (n : ℕ) (xs ys : List ℕ) → n ≤ length xs → take n (xs ++ ys) ≡ take n xs
take-append_le zero xs ys h = refl
take-append_le (suc n) [] ys h = absurd (omega arith)
take-append_le (suc n) (x ∷ xs) ys h = ap (λ t. x ∷ t) (take-append_le n xs ys (omega arith))

module _ (sys : SysSend) where
  open sys use {Socket, wire}

  -- Without an error: what is on the wire and what is in outcoming_bl is together what it was, and the
  -- result is the length of outcoming_bl. After one, a part of outcoming_bl may be on the wire and
  -- still there.
  abbrev pub Sendable : List ℕ → Socket → Sending × List (List ℕ) × Socket → Type 0
  Sendable total s (left n, bl, s') =
      (wire s' ++ flat bl ≡ wire s ++ total) × (n ≡ length (flat bl))
  Sendable total s (failed, bl, s') =
      (k : ℕ) × (done : List ℕ) × (done ++ flat bl ≡ total)
      × (wire s' ≡ wire s ++ (done ++ take k (flat bl)))
  Sendable total s (no_end, bl, s') =
      (k : ℕ) × (done : List ℕ) × (done ++ flat bl ≡ total)
      × (wire s' ≡ wire s ++ (done ++ take k (flat bl)))

  -- The bytes `c` went out before.
  sent_before :
      (c rest total : List ℕ) (s s' : Socket) (t : Sending × List (List ℕ) × Socket)
      → wire s' ≡ wire s ++ c
      → c ++ rest ≡ total
      → Sendable rest s' t
      → Sendable total s t
  sent_before c rest total s s' (left n, bl, u) w e (h, l) =
      (h ∙ ap (λ v. v ++ rest) w ∙ append_assoc (wire s) c rest ∙ ap (λ v. wire s ++ v) e, l)
  sent_before c rest total s s' (failed, bl, u) w e (k, done, h, l) = (
    k,
    c ++ done,
    append_assoc c done (flat bl) ∙ ap (λ v. c ++ v) h ∙ e,
    l
        ∙ ap (λ v. v ++ (done ++ take k (flat bl))) w
        ∙ append_assoc (wire s) c (done ++ take k (flat bl))
        ∙ ap (λ v. wire s ++ v) (sym (append_assoc c done (take k (flat bl)))),
  )
  sent_before c rest total s s' (no_end, bl, u) w e (k, done, h, l) = (
    k,
    c ++ done,
    append_assoc c done (flat bl) ∙ ap (λ v. c ++ v) h ∙ e,
    l
        ∙ ap (λ v. v ++ (done ++ take k (flat bl))) w
        ∙ append_assoc (wire s) c (done ++ take k (flat bl))
        ∙ ap (λ v. wire s ++ v) (sym (append_assoc c done (take k (flat bl)))),
  )

  -- What do_sendmsg put on the wire is the front of all buffers.
  front_written :
      (slots count : ℕ) (bl : List (List ℕ)) (s s' : Socket)
      → count ≤ length (flat (take slots bl))
      → wire s' ≡ wire s ++ take count (flat (take slots bl))
      → wire s' ≡ wire s ++ take count (flat bl)
  front_written slots count bl s s' le w =
      w
      ∙ ap (λ v. wire s ++ v)
          (sym (
            ap (λ f. take count f) (flat-take-drop slots bl)
            ∙ take-append_le count (flat (take slots bl)) (flat (drop slots bl)) le))

  send_loop_lem :
      (rounds slots : ℕ) (bl : List (List ℕ)) (s : Socket)
      → length (flat bl) < 2147483648
      → Sendable (flat bl) s (send_loop sys rounds slots bl s)
  unfolding send_loop
  send_loop_lem zero slots [] s m = (refl, refl)
  send_loop_lem (suc rounds) slots [] s m = (refl, refl)
  send_loop_lem zero slots (b ∷ bl) s m = (0, [], refl, sym (append-nil (wire s)))
  send_loop_lem (suc rounds) slots (b ∷ bl) s m =
      by_sending (do_sendmsg sys (suc rounds) iov msglen s).0
        (do_sendmsg sys (suc rounds) iov msglen s).1
        (do_sendmsg-Sent sys (suc rounds) iov msglen s whole_length)
        λ n s'. send_loop_lem rounds slots (splice_front n (b ∷ bl)) s' (fewer n)
    where
      iov : List (List ℕ)
      iov = take slots (b ∷ bl)

      msglen : ℕ
      msglen = wrap32 (length (flat iov))

      whole_length : msglen ≡ length (flat iov)
      whole_length = wrap32_lem (length (flat iov)) (
          omega (
            arith,
            m,
            ap length (flat-take-drop slots (b ∷ bl)),
            length-append (flat iov) (flat (drop slots (b ∷ bl))),
          ))

      fewer : (n : ℕ) → length (flat (splice_front n (b ∷ bl))) < 2147483648
      fewer n =
          omega (arith, m, ap length (flat-splice_front n (b ∷ bl)), length-drop n (flat (b ∷ bl)))

      by_sending :
          (r : Sending) (s' : Socket)
          → Sent sys iov msglen s (r, s')
          → ((n : ℕ) (u : Socket)
              → Sendable
                  (flat (splice_front n (b ∷ bl)))
                  u
                  (send_loop sys rounds slots (splice_front n (b ∷ bl)) u))
          → Sendable (flat (b ∷ bl)) s (elim r as (λ r. Sending × List (List ℕ) × Socket) [
            | failed ↦ (failed, b ∷ bl, s')
            | no_end ↦ (no_end, b ∷ bl, s')
            | left n ↦
                let bl' = splice_front (minus32 msglen n) (b ∷ bl) in
                let rest = send_loop sys rounds slots bl' s' in
                if ltb 0 n then (as_int (wrap32 (length (flat bl'))), bl', s') else rest
          ])
      by_sending failed s' x ih = (
        x.count,
        [],
        refl,
        front_written slots x.count (b ∷ bl) s s' (omega (arith, x.accounted, whole_length))
            x.written,
      )
      by_sending no_end s' x ih = (
        x.count,
        [],
        refl,
        front_written slots x.count (b ∷ bl) s s' (omega (arith, x.accounted, whole_length))
            x.written,
      )
      by_sending (left n) s' x ih =
          let a = x.accounted in
          let same : x.count ≡ msglen - n = omega arith in
          let w : wire s' ≡ wire s ++ take x.count (flat (b ∷ bl)) =
            front_written slots x.count (b ∷ bl) s s' (omega (arith, a, whole_length)) x.written in
          let w' : wire s' ≡ wire s ++ take (msglen - n) (flat (b ∷ bl)) =
            w ∙ ap (λ k. wire s ++ take k (flat (b ∷ bl))) same in
          let bl' = splice_front (msglen - n) (b ∷ bl) in
          let whole : take (msglen - n) (flat (b ∷ bl)) ++ flat bl' ≡ flat (b ∷ bl) =
            ap (λ v. take (msglen - n) (flat (b ∷ bl)) ++ v)
              (flat-splice_front (msglen - n) (b ∷ bl))
            ∙ take-append-drop (msglen - n) (flat (b ∷ bl)) in
          let t = take (msglen - n) (flat (b ∷ bl)) in
          let next : ℕ → Sending × List (List ℕ) × Socket = λ k.
            let bl' = splice_front k (b ∷ bl) in
            let rest = send_loop sys rounds slots bl' s' in
            if ltb 0 n then (as_int (wrap32 (length (flat bl'))), bl', s') else rest in
          subst (λ k. Sendable (flat (b ∷ bl)) s (next k))
            (sym (minus32_lem msglen n (omega arith)))
            (by_if (Sendable (flat (b ∷ bl)) s) (ltb 0 n)
              (λ more.
                subst (λ o. Sendable (flat (b ∷ bl)) s (o, bl', s'))
                  (sym (as_int_lem (length (flat bl')) (fewer (msglen - n))))
                  (sent_before t (flat bl') (flat (b ∷ bl)) s s' (left (length (flat bl')), bl', s')
                    w' whole (refl, refl)))
              λ none. sent_before t (flat bl') (flat (b ∷ bl)) s s' _ w' whole (ih (msglen - n) s'))

  flat-append : (xs ys : List (List ℕ)) → flat (xs ++ ys) ≡ flat xs ++ flat ys
  flat-append [] ys = refl
  flat-append (x ∷ xs) ys =
      ap (λ t. x ++ t) (flat-append xs ys) ∙ sym (append_assoc x (flat xs) (flat ys))

  -- _try_send puts the buffers behind those of outcoming_bl, and what was on the wire, in outcoming_bl
  -- and in the buffers is afterwards on the wire and in outcoming_bl, in the same order, however the
  -- socket cuts it; the result is the length of outcoming_bl. If the socket fails, a front part of what
  -- is still in outcoming_bl may be on the wire. All these bytes together are fewer than 2^31.
  pub try_send-Sendable :
      (rounds slots : ℕ) (send : Bool) (outcoming_bl send_bl : List (List ℕ)) (s : Socket)
      → length (flat outcoming_bl ++ flat send_bl) < 2147483648
      → Sendable
          (flat outcoming_bl ++ flat send_bl)
          s
          (try_send sys rounds slots send outcoming_bl send_bl s)
  unfolding try_send
  try_send-Sendable rounds slots send outcoming_bl send_bl s m =
      let bl = outcoming_bl ++ send_bl in
      let small : length (flat bl) < 2147483648 =
        omega (arith, m, ap length (flat-append outcoming_bl send_bl)) in
      subst (λ t. Sendable t s (try_send sys rounds slots send outcoming_bl send_bl s))
        (flat-append outcoming_bl send_bl)
        (by_if (Sendable (flat bl) s) send (λ h. send_loop_lem rounds slots bl s small)
          λ h.
            subst (λ o. Sendable (flat bl) s (o, bl, s)) (sym (as_int_lem (length (flat bl)) small))
              (refl, refl))
