-- ===== src/SendBuffer/Drain.antt =====
-- What drain and splice_front leave, and what do_sendmsg puts on the wire
-- (src/async/AsyncConnection.cc).
use msg.Prelude.{
  ℕ, zero, suc, ◌+◌, ◌-◌, ◌<◌, ◌≤◌, subst, true, ltb, ◌≡◌, refl, sym, ap, ◌∙◌, List, [], ◌∷◌, ◌++◌,
  length, take, drop, leb, ◌==◌, if◌then◌else◌, arith, Bool-cases, inl, inr, by_if, append_assoc,
  append-nil, drop-append, length-drop, drop-nil,
}
use msg.Buffers.{wrap32}
use msg.Buffers.Substr.{wrap32_lem}
use msg.SendBuffer.{
  SysSend, SendReturn, sent, interrupted, would_block, error, flat, drain, splice_front, Sending,
  left, failed, no_end, minus32, as_int, do_sendmsg,
}

pub minus32_lem : (n r : ℕ) → r ≤ n → minus32 n r ≡ n - r
unfolding minus32
minus32_lem n r h = ground arith

-- A number below 2^31 stays what it is.
pub as_int_lem : (n : ℕ) → n < 2147483648 → as_int (wrap32 n) ≡ left n
as_int_lem n h =
    let same = wrap32_lem n (omega arith) in
    let small : ltb n 2147483648 ≡ true = ground arith in
    ap as_int same ∙ ap (λ t. if t then left n else failed) small

drop_past : (n : ℕ) (xs ys : List ℕ) → length xs ≤ n → drop n (xs ++ ys) ≡ drop (n - length xs) ys
drop_past n [] ys h = let e : n ≡ n - 0 = omega arith in ap (λ k. drop k ys) e
drop_past zero (x ∷ xs) ys h = absurd (omega arith)
drop_past (suc n) (x ∷ xs) ys h =
    let e : n - length xs ≡ suc n - suc (length xs) = omega arith in
    drop_past n xs ys (omega arith) ∙ ap (λ k. drop k ys) e

pub flat-drain : (r : ℕ) (iov : List (List ℕ)) → flat (drain r iov) ≡ drop r (flat iov)
unfolding drain
flat-drain zero iov = refl
flat-drain (suc r) [] = refl
flat-drain (suc r) (b ∷ iov) = elim (Bool-cases (leb (length b) (suc r))) [
  | inl h ↦
      rw h (flat-drain (suc r - length b) iov ∙ sym (drop_past (suc r) b (flat iov) (ground arith)))
  | inr h ↦ rw h (sym (drop-append (suc r) b (flat iov) (ground arith)))
]

pub flat-splice_front : (n : ℕ) (bl : List (List ℕ)) → flat (splice_front n bl) ≡ drop n (flat bl)
unfolding splice_front
flat-splice_front n [] = sym (drop-nil n)
flat-splice_front n (b ∷ bl) = elim (Bool-cases (n == 0)) [
  | inl z ↦ let e : 0 ≡ n = ground arith in rw z (ap (λ k. drop k (b ++ flat bl)) e)
  | inr z ↦ elim (Bool-cases (leb (length b) n)) [
    | inl h ↦
        rw (z, h)
          (flat-splice_front (n - length b) bl ∙ sym (drop_past n b (flat bl) (ground arith)))
    | inr h ↦ rw (z, h) (sym (drop-append n b (flat bl) (ground arith)))
  ]
]

pub take-take-drop : (m n : ℕ) (xs : List ℕ) → take m xs ++ take n (drop m xs) ≡ take (m + n) xs
take-take-drop zero n xs = let e : n ≡ 0 + n = omega arith in ap (λ k. take k xs) e
take-take-drop (suc m) zero [] =
    let e : suc m ≡ suc m + 0 = omega arith in ap (λ k. take k (let xs : List ℕ = [] in xs)) e
take-take-drop (suc m) (suc n) [] =
    let e : suc (m + suc n) ≡ suc m + suc n = omega arith in
    ap (λ k. take k (let xs : List ℕ = [] in xs)) e
take-take-drop (suc m) n (x ∷ xs) =
    let e : suc (m + n) ≡ suc m + n = omega arith in
    ap (λ t. x ∷ t) (take-take-drop m n xs) ∙ ap (λ k. take k (x ∷ xs)) e

module _ (sys : SysSend) where
  open sys use {Socket, wire, sendmsg, sent_some, sent_interrupted, sent_blocked, sent_error}

  -- `k` bytes of the message went out; when do_sendmsg says what is left, it is the rest.
  abbrev pub Accounted : ℕ → ℕ → Sending → Type 0
  Accounted len k (left n) = k + n ≡ len
  Accounted len k failed = k ≤ len
  Accounted len k no_end = k ≤ len

  pub record Sent (iov : List (List ℕ)) (len : ℕ) (s : Socket) (t : Sending × Socket) : Type 0 where
    pub count : ℕ
    pub accounted : Accounted len count t.0
    pub written : wire t.1 ≡ wire s ++ take count (flat iov)

  -- Nothing of the message went out.
  unsent :
      (iov : List (List ℕ)) (len : ℕ) (s s' : Socket) (r : Sending)
      → Accounted len 0 r
      → wire s' ≡ wire s
      → Sent iov len s (r, s')
  unsent iov len s s' r a e = record {
    count = 0;
    accounted = a;
    written = e ∙ sym (append-nil (wire s));
  }

  -- The same message on another socket with the same wire.
  sent_again :
      (iov : List (List ℕ)) (len : ℕ) (s s' : Socket) (t : Sending × Socket)
      → wire s' ≡ wire s
      → Sent iov len s' t
      → Sent iov len s t
  sent_again iov len s s' t e x = record {
    count = x.count;
    accounted = x.accounted;
    written = x.written ∙ ap (λ w. w ++ take x.count (flat iov)) e;
  }

  later-Accounted :
      (len r k : ℕ) (u : Sending) → r ≤ len → Accounted (len - r) k u → Accounted len (r + k) u
  later-Accounted len r k (left n) le a = omega arith
  later-Accounted len r k failed le a = omega arith
  later-Accounted len r k no_end le a = omega arith

  -- After `r` bytes went out, the message that is left is sent.
  sent_later :
      (iov : List (List ℕ)) (len r : ℕ) (s s' : Socket)
      → len ≡ length (flat iov)
      → r ≤ length (flat iov)
      → wire s' ≡ wire s ++ take r (flat iov)
      → (t : Sending × Socket) → Sent (drain r iov) (len - r) s' t
      → Sent iov len s t
  sent_later iov len r s s' e le w t x = record {
    count = r + x.count;
    accounted = later-Accounted len r x.count t.0 (omega arith) x.accounted;
    written =
        x.written
        ∙ ap (λ f. wire s' ++ take x.count f) (flat-drain r iov)
        ∙ ap (λ v. v ++ take x.count (drop r (flat iov))) w
        ∙ append_assoc (wire s) (take r (flat iov)) (take x.count (drop r (flat iov)))
        ∙ ap (λ v. wire s ++ v) (take-take-drop r x.count (flat iov));
  }

  pub do_sendmsg-Sent :
      (rounds : ℕ) (iov : List (List ℕ)) (len : ℕ) (s : Socket)
      → len ≡ length (flat iov)
      → Sent iov len s (do_sendmsg sys rounds iov len s)
  unfolding do_sendmsg
  do_sendmsg-Sent zero iov len s e = unsent iov len s s no_end (omega arith) refl
  do_sendmsg-Sent (suc rounds) iov len s e =
      by_if (Sent iov len s) (len == 0) (λ z. unsent iov len s s (left 0) (ground arith) refl)
        λ z.
          by_return (sendmsg iov s).0 refl (do_sendmsg-Sent rounds iov len (sendmsg iov s).1 e)
            (λ r. do_sendmsg-Sent rounds (drain r iov) (len - r) (sendmsg iov s).1)
    where
      s' : Socket
      s' = (sendmsg iov s).1

      by_return :
          (r : SendReturn)
          → (sendmsg iov s).0 ≡ r
          → Sent iov len s' (do_sendmsg sys rounds iov len s')
          → ((r : ℕ)
              → len - r ≡ length (flat (drain r iov))
              → Sent (drain r iov) (len - r) s' (do_sendmsg sys rounds (drain r iov) (len - r) s'))
          → Sent iov len s (elim r as (λ r. Sending × Socket) [
            | interrupted ↦ do_sendmsg sys rounds iov len s'
            | would_block ↦ (as_int len, s')
            | error ↦ (failed, s')
            | sent r ↦
                let len' = minus32 len r in
                let more = do_sendmsg sys rounds (drain r iov) len' s' in
                if len' == 0 then (left 0, s') else more
          ])
      by_return interrupted h retry more =
          sent_again iov len s s' _ (sent_interrupted iov s h) retry
      by_return would_block h retry more =
          let same = sent_blocked iov s h in
          by_if (λ o. Sent iov len s (o, s')) (ltb len 2147483648)
            (λ _. unsent iov len s s' (left len) (omega arith) same)
            λ _. unsent iov len s s' failed (omega arith) same
      by_return error h retry more = unsent iov len s s' failed (omega arith) (sent_error iov s h)
      by_return (sent r) h retry more =
          let (le, w) = sent_some iov s r h in
          let next : ℕ → Sending × Socket = λ k.
            let rest = do_sendmsg sys rounds (drain r iov) k s' in
            if k == 0 then (left 0, s') else rest in
          subst (λ k. Sent iov len s (next k)) (sym (minus32_lem len r (omega arith)))
            (by_if (Sent iov len s) (len - r == 0)
              (λ z. record { count = r; accounted = ground arith; written = w })
              λ z.
                let size : len - r ≡ length (flat (drain r iov)) =
                  omega (arith, ap length (flat-drain r iov), length-drop r (flat iov)) in
                sent_later iov len r s s' e le w _ (more r size))
