-- ===== src/Writing/Counts.antt =====
-- What is counted of the frames that handle_write writes (src/async/AsyncConnection.cc): the numbers of
-- the messages, and the acknowledgements.
use msg.Prelude.{
  ℕ, zero, suc, ◌+◌, ◌^◌, ◌<◌, ◌≡◌, ◌⊎◌, inl, inr, refl, ap, ◌∙◌, Option, none, some, List, [], ◌∷◌,
  ◌++◌, ltb, if◌then◌else◌, arith, by_if,
}
use msg.Session.{Session, Msg, OutQueue, pump, send, next_outgoing, write_ack}
use msg.Writing.{Written, keepalive2, keepalive2_ack, ack, message}
use msg.Writing.Handler.{Writer, Wrote, keepalives, ack_frames}

-- the numbers in the headers of the messages, and in the acknowledgements
abbrev pub numbers : List Written → List ℕ
numbers [] = []
numbers (message m ∷ ws) = m.header.seq ∷ numbers ws
numbers (keepalive2 ts ∷ ws) = numbers ws
numbers (keepalive2_ack ts ∷ ws) = numbers ws
numbers (ack n ∷ ws) = numbers ws

abbrev pub acks : List Written → List ℕ
acks [] = []
acks (message m ∷ ws) = acks ws
acks (keepalive2 ts ∷ ws) = acks ws
acks (keepalive2_ack ts ∷ ws) = acks ws
acks (ack n ∷ ws) = n ∷ acks ws

-- the `k` numbers after `n`
abbrev pub counted : ℕ → ℕ → List ℕ
counted n zero = []
counted n (suc k) = (n + 1) ∷ counted (n + 1) k

-- What was written from the session `s` without an acknowledgement: numbers without a gap behind its
-- out_seq, which the session `t` remembers.
pub record Counts (s t : Session) (ws : List Written) : Type 0 where
  pub count : ℕ
  pub consecutive : numbers ws ≡ counted s.out_seq count
  pub remembered : t.out_seq ≡ s.out_seq + count
  pub received : t.in_seq ≡ s.in_seq
  pub no_ack : acks ws ≡ []
  pub acked : t.in_seq_acked ≡ s.in_seq_acked

-- No acknowledgement is written, and none is remembered, or the one that was due.
abbrev pub Acked : Session → Session → List ℕ → Type 0
Acked s t told =
    ((told ≡ []) × (t.in_seq_acked ≡ s.in_seq_acked))
    ⊎ ((told ≡ s.in_seq ∷ []) × (s.in_seq_acked < s.in_seq) × (t.in_seq_acked ≡ s.in_seq))

abbrev pub Told : Session → Session → List Written → Type 0
Told s t ws =
    (k : ℕ) × (numbers ws ≡ counted s.out_seq k) × (t.out_seq ≡ s.out_seq + k) × Acked s t (acks ws)

-- What one call has written and left, from the writer `w`.
abbrev pub ToldBy : Writer → Wrote → Type 0
ToldBy w x = Told w.session x.writer.session x.frames

-- A round takes no message, or one that gets the next number.
abbrev pub Numbered : Session → Session × Option Msg → Type 0
Numbered s (t, none) =
    (t.out_seq ≡ s.out_seq) × (t.in_seq ≡ s.in_seq) × (t.in_seq_acked ≡ s.in_seq_acked)
Numbered s (t, some m) =
    (m.seq ≡ s.out_seq + 1)
    × (t.out_seq ≡ s.out_seq + 1)
    × (t.in_seq ≡ s.in_seq)
    × (t.in_seq_acked ≡ s.in_seq_acked)

pub pump-Numbered : (s : Session) → s.out_seq + 1 < 2 ^ 32 → Numbered s (pump s)
unfolding pump send
pump-Numbered s b = of_next (next_outgoing s.out_q).0 (next_outgoing s.out_q).1
  where
    of_next :
        (o : Option Msg) (q : OutQueue)
        → Numbered s (elim o as (λ x. Session × Option Msg) [
          | none ↦ (record s { out_q = q }, none)
          | some m ↦ let (s', m') = send (record s { out_q = q }) m in (s', some m')
        ])
    of_next none q = (refl, refl, refl)
    of_next (some m) q = (omega arith, omega arith, refl, refl)

numbers_ack : (ws : List Written) (o : Option ℕ) → numbers (ws ++ ack_frames o) ≡ numbers ws
numbers_ack [] none = refl
numbers_ack [] (some n) = refl
numbers_ack (message m ∷ ws) o = ap (λ t. m.header.seq ∷ t) (numbers_ack ws o)
numbers_ack (keepalive2 ts ∷ ws) o = numbers_ack ws o
numbers_ack (keepalive2_ack ts ∷ ws) o = numbers_ack ws o
numbers_ack (ack n ∷ ws) o = numbers_ack ws o

acks-append : (ws vs : List Written) → acks (ws ++ vs) ≡ acks ws ++ acks vs
acks-append [] vs = refl
acks-append (message m ∷ ws) vs = acks-append ws vs
acks-append (keepalive2 ts ∷ ws) vs = acks-append ws vs
acks-append (keepalive2_ack ts ∷ ws) vs = acks-append ws vs
acks-append (ack n ∷ ws) vs = ap (λ t. n ∷ t) (acks-append ws vs)

pub numbers-keepalives :
    (w : Writer) (now : List ℕ) (ws : List Written) → numbers (keepalives w now ++ ws) ≡ numbers ws
numbers-keepalives w now ws = by_if P w.keepalive (λ h. answered) λ h. answered
  where
    answers : List Written
    answers = if w.keepalive_ack then keepalive2_ack w.keepalive_ack_stamp ∷ [] else []

    answered : numbers (answers ++ ws) ≡ numbers ws
    answered = by_if (λ ks. numbers (ks ++ ws) ≡ numbers ws) w.keepalive_ack (λ h. refl) λ h. refl

    P : List Written → Type 0
    P ks = numbers ((ks ++ answers) ++ ws) ≡ numbers ws

pub acks-keepalives :
    (w : Writer) (now : List ℕ) (ws : List Written) → acks (keepalives w now ++ ws) ≡ acks ws
acks-keepalives w now ws = by_if P w.keepalive (λ h. answered) λ h. answered
  where
    answers : List Written
    answers = if w.keepalive_ack then keepalive2_ack w.keepalive_ack_stamp ∷ [] else []

    answered : acks (answers ++ ws) ≡ acks ws
    answered = by_if (λ ks. acks (ks ++ ws) ≡ acks ws) w.keepalive_ack (λ h. refl) λ h. refl

    P : List Written → Type 0
    P ks = acks ((ks ++ answers) ++ ws) ≡ acks ws

-- The acknowledgement that is due goes behind the rest.
pub acknowledged :
    (s t : Session) (ws : List Written)
    → Counts s t ws
    → Told s (write_ack t).0 (ws ++ ack_frames (write_ack t).1)
unfolding write_ack
acknowledged s t ws c =
    by_if P (ltb t.in_seq_acked t.in_seq)
      (λ h. (
        c.count,
        numbers_ack ws (some t.in_seq) ∙ c.consecutive,
        c.remembered,
        inr (
          acks-append ws (ack t.in_seq ∷ [])
              ∙ ap (λ u. u ++ (t.in_seq ∷ [])) c.no_ack
              ∙ ap (λ n. n ∷ []) c.received,
          ground (arith, c.received, c.acked),
          c.received,
        ),
      ))
      λ h. (
        c.count,
        numbers_ack ws none ∙ c.consecutive,
        c.remembered,
        inl (acks-append ws [] ∙ ap (λ u. u ++ []) c.no_ack, c.acked),
      )
  where
    P : Session × Option ℕ → Type 0
    P x = Told s x.0 (ws ++ ack_frames x.1)
