-- ===== src/Writing/Received.antt =====
-- What one side writes is what the other side reads (src/async/AsyncConnection.cc).
use msg.Prelude.{
  ℕ, ◌^◌, ◌<◌, ◌≡◌, refl, sym, ap, subst, ◌∙◌, false, List, [], ◌∷◌, ◌++◌, leb, arith, append_assoc,
}
use msg.Session.{Session, receive, handle_ack, unsigned_seq}
use msg.Connection.{state_open, open_tag_ack, open_keepalive2, open_keepalive2_ack}
use msg.Frame.{Message, Codec, le_bytes, pack}
use msg.Frame.Bytes.{Fits, length-pack, length-le_bytes, le_number-le_bytes}
use msg.Frame.Intact.{parts}
use msg.Receiving.{
  Receiver, Memory, wants, advance, read_tag, in_state, msg_of, tag_ack, tag_keepalive2,
  tag_keepalive2_ack, read_keepalive2, read_keepalive2_ack, read_ack,
}
use msg.Receiving.Reads.{Reads, stops, moves, passes_on, drops_old}
use msg.Receiving.Parts.{Enough, Leads, state_moves}
use msg.Receiving.RoundTrip.{reads_message}
use msg.Receiving.Verdicts.{Readable}
use msg.Writing.{Written, keepalive2, keepalive2_ack, ack, message, written_bytes, all_bytes}

module _ (codec : Codec) where
  -- the message as it arrives
  abbrev pub arrived : Message → Message
  arrived m = parts codec m.header m.payload m.middle m.data_bl

  abbrev pub arrivals : List Written → List Message
  arrivals [] = []
  arrivals (message m ∷ ws) = arrived m ∷ arrivals ws
  arrivals (keepalive2 ts ∷ ws) = arrivals ws
  arrivals (keepalive2_ack ts ∷ ws) = arrivals ws
  arrivals (ack n ∷ ws) = arrivals ws

  -- what becomes of the receiver's session
  abbrev pub after_all : Session → List Written → Session
  after_all s [] = s
  after_all s (message m ∷ ws) = after_all (receive s (msg_of (arrived m))).0 ws
  after_all s (keepalive2 ts ∷ ws) = after_all s ws
  after_all s (keepalive2_ack ts ∷ ws) = after_all s ws
  after_all s (ack n ∷ ws) = after_all (handle_ack s n) ws

  -- Everything fits its fields, the messages can be read, and their numbers rise from above `last`.
  abbrev pub Sound : ℕ → List Written → Type 0
  Sound last [] = Unit {0}
  Sound last (message m ∷ ws) =
      Readable codec m × (last < unsigned_seq m.header.seq) × Sound (unsigned_seq m.header.seq) ws
  Sound last (keepalive2 ts ∷ ws) = Fits (4 ∷ (4 ∷ [])) ts × Sound last ws
  Sound last (keepalive2_ack ts ∷ ws) = Fits (4 ∷ (4 ∷ [])) ts × Sound last ws
  Sound last (ack n ∷ ws) = (n < 2 ^ 64) × Sound last ws

  module _ (memory : Memory) (enough : Enough memory) where
    Reads-append :
        {r s t : Receiver} {bs us cs : List ℕ} {ms ns : List Message}
        → Reads codec memory r bs s us ms
        → Reads codec memory s us t cs ns
        → Reads codec memory r bs t cs (ms ++ ns)
    Reads-append stops y = y
    Reads-append (moves n e x) y = moves n e (Reads-append x y)
    Reads-append (passes_on n e x) y = passes_on n e (Reads-append x y)
    Reads-append (drops_old n e x) y = drops_old n e (Reads-append x y)

    -- A receiver that is open again with this session.
    abbrev Open : Session → Receiver → Type 0
    Open s t = (t.conn.state ≡ state_open) × (t.conn.session ≡ s)

    ack_read :
        (n : ℕ) (rest : List ℕ) (r : Receiver)
        → r.conn.state ≡ state_open
        → n < 2 ^ 64
        → Leads codec memory rest []
            (Open (handle_ack r.conn.session n))
            r
            (written_bytes (ack n) ++ rest)
    unfolding written_bytes wants advance read_tag
    ack_read n rest r o b =
        let one = state_moves codec memory rest [] (Open (handle_ack r.conn.session n)) in
        one r (in_state open_tag_ack r) (tag_ack ∷ []) (le_bytes 8 n ++ rest)
          (sym (ap (λ s. wants codec memory s r) o))
          (ap (λ s. advance codec memory s r (tag_ack ∷ [])) o)
          (one (in_state open_tag_ack r) (read_ack (in_state open_tag_ack r) (le_bytes 8 n))
            (le_bytes 8 n) rest (length-le_bytes 8 n) refl
            (_, stops, (refl, ap (λ k. handle_ack r.conn.session k) (le_number-le_bytes 8 n b))))

    keepalive2_read :
        (ts rest : List ℕ) (r : Receiver)
        → r.conn.state ≡ state_open
        → Fits (4 ∷ (4 ∷ [])) ts
        → Leads codec memory rest [] (Open r.conn.session) r (written_bytes (keepalive2 ts) ++ rest)
    unfolding written_bytes wants advance read_tag
    keepalive2_read ts rest r o b =
        let one = state_moves codec memory rest [] (Open r.conn.session) in
        let bs = pack (4 ∷ (4 ∷ [])) ts in
        one r (in_state open_keepalive2 r) (tag_keepalive2 ∷ []) (bs ++ rest)
          (sym (ap (λ s. wants codec memory s r) o))
          (ap (λ s. advance codec memory s r (tag_keepalive2 ∷ [])) o)
          (one (in_state open_keepalive2 r) (read_keepalive2 (in_state open_keepalive2 r) bs) bs
            rest (length-pack (4 ∷ (4 ∷ [])) ts b) refl (_, stops, (refl, refl)))

    keepalive2_ack_read :
        (ts rest : List ℕ) (r : Receiver)
        → r.conn.state ≡ state_open
        → Fits (4 ∷ (4 ∷ [])) ts
        → Leads codec memory rest []
            (Open r.conn.session)
            r
            (written_bytes (keepalive2_ack ts) ++ rest)
    unfolding written_bytes wants advance read_tag
    keepalive2_ack_read ts rest r o b =
        let one = state_moves codec memory rest [] (Open r.conn.session) in
        let bs = pack (4 ∷ (4 ∷ [])) ts in
        one r (in_state open_keepalive2_ack r) (tag_keepalive2_ack ∷ []) (bs ++ rest)
          (sym (ap (λ s. wants codec memory s r) o))
          (ap (λ s. advance codec memory s r (tag_keepalive2_ack ∷ [])) o)
          (one (in_state open_keepalive2_ack r)
            (read_keepalive2_ack (in_state open_keepalive2_ack r) bs) bs rest
            (length-pack (4 ∷ (4 ∷ [])) ts b) refl (_, stops, (refl, refl)))

    -- One thing that was written, and then the rest.
    then_all :
        (w : Written) (ws : List Written) (rest : List ℕ) (r : Receiver) (ms : List Message)
        (s : Session)
        → Leads codec memory
            (all_bytes ws ++ rest)
            ms
            (Open s)
            r
            (written_bytes w ++ (all_bytes ws ++ rest))
        → ((u : Receiver)
            → u.conn.state ≡ state_open
            → u.conn.session ≡ s
            → Leads codec memory rest
                (arrivals ws)
                (Open (after_all s ws))
                u
                (all_bytes ws ++ rest))
        → Leads codec memory rest
            (ms ++ arrivals ws)
            (Open (after_all s ws))
            r
            (all_bytes (w ∷ ws) ++ rest)
    then_all w ws rest r ms s (u, l, (o, e)) f =
        let (t, k, q) = f u o e in
        let whole = Reads-append l k in
        subst (λ bs. Leads codec memory rest (ms ++ arrivals ws) (Open (after_all s ws)) r bs)
          (sym (append_assoc (written_bytes w) (all_bytes ws) rest)) (t, whole, q)

    in_seq_after :
        (s : Session) (m : Message)
        → s.in_seq < unsigned_seq m.header.seq
        → (receive s (msg_of (arrived m))).0.in_seq ≡ unsigned_seq m.header.seq
    unfolding receive
    in_seq_after s m h =
        let new : leb (unsigned_seq m.header.seq) s.in_seq ≡ false = ground arith in rw new refl

    message_read :
        (m : Message) (rest : List ℕ) (r : Receiver) (s : Session)
        → r.conn.state ≡ state_open
        → r.conn.session ≡ s
        → Readable codec m
        → s.in_seq < unsigned_seq m.header.seq
        → Leads codec memory rest
            (arrived m ∷ [])
            (Open (receive s (msg_of (arrived m))).0)
            r
            (written_bytes (message m) ++ rest)
    unfolding written_bytes
    message_read m rest r s o e x h =
        let h' : r.conn.session.in_seq < unsigned_seq m.header.seq =
          subst (λ q. q.in_seq < unsigned_seq m.header.seq) (sym e) h in
        let (t, l, (u, v, a)) = reads_message codec memory m x enough rest r o h' in
        (t, l, (u, v ∙ ap (λ q. (receive q (msg_of (arrived m))).0) e))

    -- The session of the one that reads is that of the statement.
    known :
        (r : Receiver) (s : Session) (rest bs : List ℕ) (f : Session → Session)
        → r.conn.session ≡ s
        → Leads codec memory rest [] (Open (f r.conn.session)) r bs
        → Leads codec memory rest [] (Open (f s)) r bs
    known r s rest bs f e (t, l, (o, q)) = (t, l, (o, q ∙ ap f e))

    leads :
        (ws : List Written) (rest : List ℕ) (r : Receiver) (s : Session)
        → r.conn.state ≡ state_open
        → r.conn.session ≡ s
        → Sound s.in_seq ws
        → Leads codec memory rest (arrivals ws) (Open (after_all s ws)) r (all_bytes ws ++ rest)
    unfolding handle_ack
    leads [] rest r s o e b = (r, stops, (o, e))
    leads (message m ∷ ws) rest r s o e (x, h, b) =
        let s' = (receive s (msg_of (arrived m))).0 in
        then_all (message m) ws rest r (arrived m ∷ []) s'
          (message_read m (all_bytes ws ++ rest) r s o e x h)
          λ u o' e'. leads ws rest u s' o' e' (subst (λ n. Sound n ws) (sym (in_seq_after s m h)) b)
    leads (keepalive2 ts ∷ ws) rest r s o e (f, b) =
        then_all (keepalive2 ts) ws rest r [] s
          (known r s _ _ (λ q. q) e (keepalive2_read ts (all_bytes ws ++ rest) r o f))
          λ u o' e'. leads ws rest u s o' e' b
    leads (keepalive2_ack ts ∷ ws) rest r s o e (f, b) =
        then_all (keepalive2_ack ts) ws rest r [] s
          (known r s _ _ (λ q. q) e (keepalive2_ack_read ts (all_bytes ws ++ rest) r o f))
          λ u o' e'. leads ws rest u s o' e' b
    leads (ack n ∷ ws) rest r s o e (f, b) =
        then_all (ack n) ws rest r [] (handle_ack s n)
          (known r s _ _ (λ q. handle_ack q n) e (ack_read n (all_bytes ws ++ rest) r o f))
          λ u o' e'. leads ws rest u (handle_ack s n) o' e' b

    -- Keepalives, their answers, acknowledgements and encoded messages, written one behind the other
    -- with other bytes behind them, are read by an open connection one by one: if everything fits its
    -- fields, the messages are in the form in which Message::encode leaves them and of a type, a version and a
    -- content that the decode_message of the reader accepts, their sequence numbers
    -- rise from above the last one received, and the memory is enough, the connection reads just these
    -- bytes, passes on these messages in this order, each with its header and parts, is open again, and
    -- its session is the one that these messages and acknowledgements make of it.
    pub written_is_read :
        (ws : List Written) (rest : List ℕ) (r : Receiver)
        → r.conn.state ≡ state_open
        → Sound r.conn.session.in_seq ws
        → (t : Receiver) × Reads codec memory r (all_bytes ws ++ rest) t rest (arrivals ws)
          × (t.conn.state ≡ state_open)
          × (t.conn.session ≡ after_all r.conn.session ws)
    written_is_read ws rest r o b =
        let (t, l, (e, s)) = leads ws rest r r.conn.session o refl b in (t, l, e, s)
