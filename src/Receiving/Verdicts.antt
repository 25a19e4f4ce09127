-- ===== src/Receiving/Verdicts.antt =====
-- What the states of do_process say of the parts of an encoded message, and the memory for its data
-- (src/async/AsyncConnection.cc).
use msg.Prelude.{
  ℕ, ◌+◌, ◌-◌, ◌≤◌, ◌≡◌, refl, true, false, not, ◌&&◌, Option, none, some, List, [], ◌∷◌, ◌++◌,
  length, take, ltb, ◌==◌, arith, by_if, bit_and,
}
use msg.Session.{receive}
use msg.Connection.{open_message_throttle_message, open_message_throttle_dispatch_size}
use msg.Frame.{
  Header, Message, Codec, sum, header_bytes, footer_bytes, decode_message, footer_complete,
}
use msg.Frame.Layout.{HeaderFits, FooterFits, read_header-header_bytes, read_footer-footer_bytes}
use msg.Receiving.{
  Receiver, Memory, goes_on, passes, message_size, in_state, read_message_header, prepare_data,
  read_message_footer, dispatch, message_holds, msg_of, posted,
}
use msg.Receiving.Parts.{AllPositive, Enough}
use msg.Frame.Intact.{parts}

-- A message in the form in which Message::encode leaves it: the lengths in its header are those of its
-- parts, the header's checksum is right, its footer says that it is complete, every field fits its type,
-- and decode_message takes it.
pub record Readable (codec : Codec) (m : Message) : Type 0 where
  pub front_len : m.header.front_len ≡ length m.payload
  pub middle_len : m.header.middle_len ≡ length m.middle
  pub data_len : m.header.data_len ≡ length m.data_bl
  pub header_fits : HeaderFits m.header
  pub footer_fits : FooterFits m.footer
  pub checked :
      (codec.crc_header && not (codec.crc32c (take 49 (header_bytes m.header)) == m.header.crc))
      ≡ false
  pub complete : (bit_and m.footer.flags footer_complete == 0) ≡ false
  pub decoded :
      decode_message codec m.header m.footer m.payload m.middle m.data_bl
      ≡ some (parts codec m.header m.payload m.middle m.data_bl)

module _ (codec : Codec) (memory : Memory) where
  -- the receiver after the header
  abbrev pub headed : Receiver → Header → Receiver
  headed r h = record r {
    conn = record r.conn { state = open_message_throttle_message; message_size = message_size h };
    header = h;
    front = [];
    middle = [];
    data_bl = [];
  }

  pub header_verdict :
      (r : Receiver) (m : Message)
      → Readable codec m
      → read_message_header codec memory r (header_bytes m.header) ≡ goes_on (headed r m.header)
  unfolding read_message_header
  header_verdict r m x = rw (read_header-header_bytes m.header x.header_fits, x.checked) refl

  pub footer_verdict :
      (r : Receiver) (m : Message)
      → Readable codec m
      → read_message_footer r (footer_bytes m.footer)
        ≡ goes_on (in_state open_message_throttle_dispatch_size (record r { footer = m.footer }))
  unfolding read_message_footer
  footer_verdict r m x = rw (read_footer-footer_bytes m.footer x.footer_fits, x.complete) refl

  pub dispatch_verdict :
      (r : Receiver) (d : Message)
      → decode_message codec r.header r.footer r.front r.middle r.data_bl ≡ some d
      → (receive r.conn.session (msg_of d)).1 ≡ true
      → dispatch codec memory r
        ≡ passes
            (record (message_holds r) {
              conn = record (message_holds r).conn {
                session = (receive r.conn.session (msg_of d)).0;
              };
            })
            d
  unfolding dispatch receive message_size
  dispatch_verdict r d e fresh = rw (dispatch, e, fresh) refl

  -- the memory that prepare_data takes for a message
  abbrev pub blp_for : Receiver → List ℕ
  blp_for r = (prepare_data memory r).data_blp

  pub positive-append : (xs ys : List ℕ) → AllPositive xs → AllPositive ys → AllPositive (xs ++ ys)
  positive-append [] ys p q = q
  positive-append (x ∷ xs) ys (a, p) q = (a, positive-append xs ys p q)

  pub sum-append : (xs ys : List ℕ) → sum (xs ++ ys) ≡ sum xs + sum ys
  sum-append [] ys = omega arith
  sum-append (x ∷ xs) ys = omega (arith, sum-append xs ys)

  pub enough_posted :
      (buffer : List ℕ) (n : ℕ)
      → AllPositive buffer
      → AllPositive (posted buffer n) × (n ≤ sum (posted buffer n))
  enough_posted buffer n p =
      by_if (λ b. AllPositive b × (n ≤ sum b)) (ltb (sum buffer) n)
        (λ h. (
          positive-append buffer _ p (ground arith, tt),
          omega (arith, sum-append buffer ((n - sum buffer) ∷ [])),
        ))
        λ h. (p, ground arith)

  abbrev pub EnoughFor : ℕ → List ℕ → Type 0
  EnoughFor n b = AllPositive b × (n ≤ sum b)

  pub memory-Enough :
      (r : Receiver)
      → Enough memory
      → ltb 0 r.header.data_len ≡ true
      → AllPositive (blp_for r) × (r.header.data_len ≤ sum (blp_for r))
  unfolding prepare_data
  memory-Enough r x pos =
      let some_data : (r.header.data_len == 0) ≡ false = ground arith in
      rw some_data (of_buffer (memory.rx_buffers r.header.tid) refl)
    where
      of_buffer :
          (o : Option (List ℕ))
          → memory.rx_buffers r.header.tid ≡ o
          → EnoughFor r.header.data_len (elim o as (λ q. List ℕ) [
            | some buffer ↦ posted buffer r.header.data_len
            | none ↦ memory.allocate_msg_data r.header
          ])
      of_buffer none e = (x.pieces r.header, x.size r.header)
      of_buffer (some buffer) e =
          enough_posted buffer r.header.data_len (x.posted_pieces r.header.tid buffer e)
