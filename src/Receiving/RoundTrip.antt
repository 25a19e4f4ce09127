-- ===== src/Receiving/RoundTrip.antt =====
-- The receipt of a message that _send wrote (src/async/AsyncConnection.cc, src/Message.cc).
use msg.Prelude.{
  ℕ, ◌<◌, ◌≡◌, refl, sym, ap, subst, ◌∙◌, true, false, List, [], ◌∷◌, ◌++◌, length, ltb, leb, arith,
  Bool-cases, inl, inr, append_assoc,
}
use msg.Session.{receive, unsigned_seq}
use msg.Connection.{
  state_open, open_message_header, open_message_read_data_prepare, open_message_read_footer,
  open_message_dispatch,
}
use msg.Frame.{Message, Codec, header_bytes, footer_bytes}
use msg.Frame.Layout.{length-header_bytes, length-footer_bytes}
use msg.Receiving.{
  Receiver, Memory, wants, advance, message_size, in_state, throttle_message, throttle_bytes,
  prepare_data, message_holds, msg_of,
}
use msg.Receiving.Reads.{stops, passes_on}
use msg.Receiving.Parts.{Enough, Leads, state_moves, collecting, all_read, data_reads}
use msg.Frame.{message_bytes, write_message, tag_msg}
use msg.Frame.Intact.{parts}
use msg.Receiving.{read_tag}
use msg.Receiving.Verdicts.{
  Readable, headed, header_verdict, footer_verdict, dispatch_verdict, blp_for, memory-Enough,
}

module _ (codec : Codec) (memory : Memory) where
  module _ (m : Message) (x : Readable codec m) (y : Enough memory) (rest : List ℕ)
      (r : Receiver) where
    -- what was decoded
    abbrev pub arrived : Message
    arrived = parts codec m.header m.payload m.middle m.data_bl

    -- The connection is open again, and its session has received the message.
    abbrev pub Received : Receiver → Type 0
    Received t =
        (t.conn.state ≡ state_open)
        × (t.conn.session ≡ (receive r.conn.session (msg_of arrived)).0)
        × (t.alive ≡ message_size m.header ∷ r.alive)

    abbrev On : Receiver → List ℕ → Type 0
    On = Leads codec memory rest (arrived ∷ []) Received

    abbrev r5 : Receiver
    r5 = throttle_bytes (throttle_message (headed codec memory r m.header))

    abbrev after_middle : Receiver
    after_middle = record r5 {
      conn = record r5.conn { state = open_message_read_data_prepare };
      front = m.payload;
      middle = m.middle;
    }

    -- STATE_OPEN_MESSAGE_DISPATCH, after any use of the memory
    abbrev complete_at : List ℕ → Receiver
    complete_at blp =
        in_state open_message_dispatch
          (record (in_state open_message_read_footer (collecting after_middle m.data_bl blp 0)) {
            footer = m.footer;
          })

    dispatches :
        (blp : List ℕ)
        → (receive r.conn.session (msg_of arrived)).1 ≡ true
        → On (complete_at blp) rest
    unfolding wants advance
    dispatches blp fresh =
        let d = message_holds (complete_at blp) in
        (
          record d {
            conn = record d.conn { session = (receive r.conn.session (msg_of arrived)).0 };
          },
          passes_on (omega arith)
              (dispatch_verdict codec memory (complete_at blp) arrived x.decoded fresh) stops,
          (refl, refl, refl),
        )

    reads_footer :
        (blp : List ℕ)
        → (receive r.conn.session (msg_of arrived)).1 ≡ true
        → On
            (in_state open_message_read_footer (collecting after_middle m.data_bl blp 0))
            (footer_bytes m.footer ++ rest)
    unfolding wants advance
    reads_footer blp fresh =
        let c = in_state open_message_read_footer (collecting after_middle m.data_bl blp 0) in
        state_moves codec memory rest _ Received c _ (footer_bytes m.footer) rest
          (length-footer_bytes m.footer x.footer_fits) (footer_verdict codec memory c m x)
          (state_moves codec memory rest _ Received _ (complete_at blp) [] rest refl refl
            (dispatches blp fresh))

    no_len : {a b : ℕ} → ltb 0 a ≡ false → a ≡ b → b ≡ 0
    no_len h e = ground arith

    no_data :
        (blp dat ys : List ℕ)
        → length dat ≡ 0
        → ((blp' : List ℕ)
            → On (in_state open_message_read_footer (collecting after_middle dat blp' 0)) ys)
        → On (collecting after_middle [] blp (length dat)) (dat ++ ys)
    no_data blp [] ys e l = all_read codec memory rest _ Received after_middle [] blp ys (l blp)
    no_data blp (d ∷ dat) ys e l = absurd (omega arith)

    reads_data :
        (receive r.conn.session (msg_of arrived)).1 ≡ true
        → On after_middle (m.data_bl ++ (footer_bytes m.footer ++ rest))
    unfolding wants advance prepare_data
    reads_data fresh = state_moves codec memory rest _ Received after_middle _ [] _ refl refl (
        subst
          (λ n.
            On (collecting after_middle [] (blp_for codec memory after_middle) n)
              (m.data_bl ++ (footer_bytes m.footer ++ rest)))
          (sym x.data_len) (by_length fresh))
      where
        by_length :
            (receive r.conn.session (msg_of arrived)).1 ≡ true
            → On
                (collecting after_middle [] (blp_for codec memory after_middle) (length m.data_bl))
                (m.data_bl ++ (footer_bytes m.footer ++ rest))
        by_length fresh = elim (Bool-cases (ltb 0 m.header.data_len)) [
          | inl h ↦
              let (p, e) = memory-Enough codec memory after_middle y h in
              data_reads codec memory rest _ Received after_middle []
                (blp_for codec memory after_middle) m.data_bl _ p (omega (arith, e, x.data_len))
                λ blp. reads_footer blp fresh
          | inr h ↦
              no_data (blp_for codec memory after_middle) m.data_bl _ (no_len h x.data_len)
                λ blp. reads_footer blp fresh
        ]

    reads_front :
        (receive r.conn.session (msg_of arrived)).1 ≡ true
        → On r5 (m.payload ++ (m.middle ++ (m.data_bl ++ (footer_bytes m.footer ++ rest))))
    unfolding wants advance
    reads_front fresh =
        state_moves codec memory rest _ Received r5 _ m.payload _ (sym x.front_len) refl (
          state_moves codec memory rest _ Received _ _ m.middle _ (sym x.middle_len) refl
            (reads_data fresh))

    reads_envelope :
        (receive r.conn.session (msg_of arrived)).1 ≡ true
        → r.conn.state ≡ state_open
        → (ys : List ℕ) → On r5 ys
        → On r ((tag_msg ∷ header_bytes m.header) ++ ys)
    unfolding wants advance read_tag
    reads_envelope fresh open_now ys l =
        let one = state_moves codec memory rest _ Received in
        one r (in_state open_message_header r) (tag_msg ∷ []) _
          (sym (ap (λ s. wants codec memory s r) open_now))
          (ap (λ s. advance codec memory s r (tag_msg ∷ [])) open_now)
          (one (in_state open_message_header r) (headed codec memory r m.header)
            (header_bytes m.header) _ (length-header_bytes m.header x.header_fits)
            (header_verdict codec memory (in_state open_message_header r) m x)
            (one (headed codec memory r m.header) _ [] _ refl refl (one _ r5 [] _ refl refl l)))

    frame_parts :
        (hb fb : List ℕ)
        → (((tag_msg ∷ hb) ++ (m.payload ++ (m.middle ++ m.data_bl))) ++ fb) ++ rest
          ≡ (tag_msg ∷ hb) ++ (m.payload ++ (m.middle ++ (m.data_bl ++ (fb ++ rest))))
    frame_parts hb fb =
        let blist = m.payload ++ (m.middle ++ m.data_bl) in
        append_assoc ((tag_msg ∷ hb) ++ blist) fb rest
        ∙ append_assoc (tag_msg ∷ hb) blist (fb ++ rest)
        ∙ ap (λ t. (tag_msg ∷ hb) ++ t)
            (append_assoc m.payload (m.middle ++ m.data_bl) (fb ++ rest)
              ∙ ap (λ t. m.payload ++ t) (append_assoc m.middle m.data_bl (fb ++ rest)))

    -- A message in the form in which Message::encode leaves it, as write_message puts it on the wire, with
    -- other bytes behind it: a connection that is open, and whose last sequence number is lower, reads
    -- just these bytes and passes on one message, with the same header and the same parts; it is open
    -- again then, its session has received the message, and the message holds its size of the throttlers.
    pub reads_message :
        r.conn.state ≡ state_open
        → r.conn.session.in_seq < unsigned_seq m.header.seq
        → On r (message_bytes m ++ rest)
    unfolding message_bytes write_message receive
    reads_message open_now later =
        let new : leb (unsigned_seq m.header.seq) r.conn.session.in_seq ≡ false = ground arith in
        let fresh : (receive r.conn.session (msg_of arrived)).1 ≡ true = rw new refl in
        subst (λ bs. On r bs) (sym (frame_parts (header_bytes m.header) (footer_bytes m.footer)))
          (reads_envelope fresh open_now _ (reads_front fresh))
