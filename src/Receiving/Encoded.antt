-- ===== src/Receiving/Encoded.antt =====
-- What Message::encode makes can be received (src/Message.cc, src/async/AsyncConnection.cc).
use msg.Prelude.{
  ℕ, ◌^◌, ◌<◌, ◌≡◌, refl, Bool, true, false, not, ◌&&◌, List, [], ◌∷◌, ◌++◌, length, take, bit_and,
  ◌==◌, if◌then◌else◌, arith, Bool-cases, inl, inr, by_if,
}
use msg.Session.{unsigned_seq, receive}
use msg.Connection.{state_open}
use msg.Frame.{
  Header, Message, Codec, encode, encode_missing, envelope, calc_header_crc, header_bytes,
  footer_complete, message_bytes,
}
use msg.Frame.Layout.{HeaderFits, FooterFits, take-header_bytes}
use msg.Frame.Intact.{Accepted, parts, crc_matches-encode, decode_message-Accepted}
use msg.Receiving.{Receiver, Memory, message_size, msg_of}
use msg.Receiving.Reads.{Reads}
use msg.Receiving.Parts.{Enough}
use msg.Receiving.RoundTrip.{reads_message}
use msg.Receiving.Verdicts.{Readable}

and_if :
    (b : Bool) (test : Header → Bool) (x y : Header)
    → (b ≡ true → test x ≡ false)
    → (b && test (if b then x else y)) ≡ false
and_if true test x y f = f refl
and_if false test x y f = refl

module _ (codec : Codec) (features : ℕ) (m : Message) where
  -- the encoded message
  abbrev pub sent_as : Message
  sent_as = encode codec features m

  -- The parts are shorter than 2 ^ 32 bytes and every field fits its type.
  pub record Fitting : Type 0 where
    pub payload_len : length sent_as.payload < 2 ^ 32
    pub middle_len : length sent_as.middle < 2 ^ 32
    pub data_len : length sent_as.data_bl < 2 ^ 32
    pub header_fits : HeaderFits sent_as.header
    pub footer_fits : FooterFits sent_as.footer

  test_same : (n : ℕ) → (n == n) ≡ true
  test_same n = ground arith

  calc_checked :
      (h : Header)
      → not (
          codec.crc32c (take 49 (header_bytes (calc_header_crc codec h)))
          == (calc_header_crc codec h).crc)
        ≡ false
  unfolding calc_header_crc
  calc_checked h =
      let c = codec.crc32c (take 49 (header_bytes h)) in
      rw (take-header_bytes h c, test_same c) refl

  header_checked :
      (codec.crc_header
        && not (codec.crc32c (take 49 (header_bytes sent_as.header)) == sent_as.header.crc))
      ≡ false
  unfolding encode
  header_checked =
      and_if codec.crc_header (λ h. not (codec.crc32c (take 49 (header_bytes h)) == h.crc)) _ _
        λ t. calc_checked (envelope codec (encode_missing codec features m))

  footer_complete_lem : (bit_and sent_as.footer.flags footer_complete == 0) ≡ false
  unfolding encode
  footer_complete_lem = elim (Bool-cases codec.crc_data) [ inl h ↦ rw h refl | inr h ↦ rw h refl ]

  abbrev LengthsAre : Header → Type 0
  LengthsAre h =
      (h.front_len ≡ length sent_as.payload)
      × (h.middle_len ≡ length sent_as.middle)
      × (h.data_len ≡ length sent_as.data_bl)

  lengths : Fitting → LengthsAre sent_as.header
  unfolding encode calc_header_crc envelope
  lengths f =
      by_if LengthsAre codec.crc_header
        (λ h.
          (omega (arith, f.payload_len), omega (arith, f.middle_len), omega (arith, f.data_len)))
        λ h. (omega (arith, f.payload_len), omega (arith, f.middle_len), omega (arith, f.data_len))

  pub encode-Readable :
      Fitting
      → Accepted codec (parts codec sent_as.header sent_as.payload sent_as.middle sent_as.data_bl)
      → Readable codec sent_as
  encode-Readable f a =
      let (p, q, d) = lengths f in
      record {
        front_len = p;
        middle_len = q;
        data_len = d;
        header_fits = f.header_fits;
        footer_fits = f.footer_fits;
        checked = header_checked;
        complete = footer_complete_lem;
        decoded =
            decode_message-Accepted codec sent_as.header sent_as.footer sent_as.payload
              sent_as.middle sent_as.data_bl (crc_matches-encode codec features m) a;
      }

  -- The round trip of a message. What _send writes of an encoded message is read, with any bytes behind
  -- it, by an open connection of a peer with the same checksum flags: if the parts are shorter than
  -- 2 ^ 32 bytes, the fields fit, the message's class accepts it, the peer's memory is enough, and the
  -- sequence number is higher than the last one, the peer reads just the bytes of the message and passes
  -- on one message, with the encoded header, payload, middle and data. It is open again, its session has
  -- received the message, and the message holds its size of the throttlers.
  pub encoded_is_read :
      (memory : Memory) (rest : List ℕ) (r : Receiver)
      → Fitting
      → Accepted codec (parts codec sent_as.header sent_as.payload sent_as.middle sent_as.data_bl)
      → Enough memory
      → r.conn.state ≡ state_open
      → r.conn.session.in_seq < unsigned_seq sent_as.header.seq
      → let d = parts codec sent_as.header sent_as.payload sent_as.middle sent_as.data_bl in
        (t : Receiver) × Reads codec memory r (message_bytes sent_as ++ rest) t rest (d ∷ [])
        × (t.conn.state ≡ state_open)
        × (t.conn.session ≡ (receive r.conn.session (msg_of d)).0)
        × (t.alive ≡ message_size sent_as.header ∷ r.alive)
  encoded_is_read memory rest r f a y o n =
      let (t, l, (s, e, v)) =
        reads_message codec memory sent_as (encode-Readable f a) y rest r o n in
      (t, l, s, e, v)
