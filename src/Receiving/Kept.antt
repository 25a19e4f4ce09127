-- ===== src/Receiving/Kept.antt =====
-- The account of the throttlers through the states of do_process (src/async/AsyncConnection.cc).
use msg.Prelude.{
  ℕ, ◌-◌, ◌≡◌, refl, sym, subst, not, ◌&&◌, Option, none, some, List, [], ◌∷◌, ◌++◌, take, get_or,
  ◌==◌, if◌then◌else◌, arith, by_if, bit_and, min,
}
use msg.Session.{receive}
use msg.Connection.{
  State, rank, state_open, open_keepalive2, open_keepalive2_ack, open_tag_ack, open_message_header,
  open_message_throttle_message, open_message_throttle_bytes, open_message_read_front,
  open_message_read_middle, open_message_read_data_prepare, open_message_read_data,
  open_message_read_footer, open_message_throttle_dispatch_size, open_message_dispatch,
  open_tag_close, connecting_send_connect_msg, wait_state,
}
use msg.Frame.{Message, Codec, read_header, read_footer, decode_message, footer_complete, tag_msg}
use msg.Receiving.{
  tag_close, tag_ack, tag_keepalive2, tag_keepalive2_ack, message_size, read_tag, prepare_data,
  advance_blp, read_data, read_message_footer, msg_of, message_holds, put_last, read_message_header,
  dispatch, advance, Receiver, Memory, Verdict, goes_on, passes, drops, fails, no_memory,
}
use msg.Receiving.Account.{Balanced, books, Accounted, VerdictAccounted, moved, resized}

module _ (codec : Codec) (memory : Memory) where
  tag_read :
      (r : Receiver) (tag : ℕ)
      → r.conn.state ≡ state_open
      → Balanced state_open (books r)
      → VerdictAccounted (read_tag r tag)
  unfolding read_tag rank
  tag_read r tag e a =
      by_if VerdictAccounted (tag == tag_keepalive2)
        (λ h. moved state_open open_keepalive2 (books r) refl refl a)
        λ h.
          by_if VerdictAccounted (tag == tag_keepalive2_ack)
            (λ h. moved state_open open_keepalive2_ack (books r) refl refl a)
            λ h.
              by_if VerdictAccounted (tag == tag_ack)
                (λ h. moved state_open open_tag_ack (books r) refl refl a)
                λ h.
                  by_if VerdictAccounted (tag == tag_msg)
                    (λ h. moved state_open open_message_header (books r) refl refl a)
                    λ h.
                      by_if VerdictAccounted (tag == tag_close)
                        (λ h. moved state_open open_tag_close (books r) refl refl a)
                        λ h. subst (λ u. Balanced u (books r)) (sym e) a

  header_read :
      (r : Receiver) (bs : List ℕ)
      → r.conn.state ≡ open_message_header
      → Balanced open_message_header (books r)
      → VerdictAccounted (read_message_header codec memory r bs)
  unfolding read_message_header rank
  header_read r bs e a =
      by_if VerdictAccounted
        (codec.crc_header && not (codec.crc32c (take 49 bs) == (read_header bs).crc))
        (λ h. subst (λ u. Balanced u (books r)) (sym e) a)
        λ h.
          resized open_message_header open_message_throttle_message (books r)
            (message_size (read_header bs)) refl refl refl refl a

  footer_read :
      (r : Receiver) (bs : List ℕ)
      → r.conn.state ≡ open_message_read_footer
      → Balanced open_message_read_footer (books r)
      → VerdictAccounted (read_message_footer r bs)
  unfolding read_message_footer rank
  footer_read r bs e a =
      by_if VerdictAccounted (bit_and (read_footer bs).flags footer_complete == 0)
        (λ h. subst (λ u. Balanced u (books r)) (sym e) a)
        λ h.
          moved open_message_read_footer open_message_throttle_dispatch_size (books r) refl refl a

  data_read :
      (r : Receiver) (bs : List ℕ)
      → r.conn.state ≡ open_message_read_data
      → Balanced open_message_read_data (books r)
      → VerdictAccounted (read_data r bs)
  unfolding read_data rank
  data_read r bs e a =
      by_if VerdictAccounted (r.msg_left == 0)
        (λ h. moved open_message_read_data open_message_read_footer (books r) refl refl a)
        λ h. round r.data_blp
    where
      round :
          (blp : List ℕ)
          → VerdictAccounted (elim blp as (λ p. Verdict) [
            | [] ↦ no_memory
            | p ∷ ps ↦
                let read = min p r.msg_left in
                let more = goes_on (record r {
                  data_bl = r.data_bl ++ bs;
                  data_blp = advance_blp (p ∷ ps) read;
                  msg_left = r.msg_left - read;
                }) in
                if p == 0 then no_memory else more
          ])
      round [] = tt
      round (p ∷ ps) =
          by_if VerdictAccounted (p == 0) (λ z. tt) λ z. subst (λ u. Balanced u (books r)) (sym e) a

  -- A message that was decoded holds what the receipt held.
  handed_over :
      (r : Receiver)
      → Balanced open_message_dispatch (books r)
      → Balanced state_open (books (message_holds r))
  unfolding rank
  handed_over r a = record {
    held_one = omega (arith, a.held_one);
    held_size = omega (arith, a.held_size);
    same_size = a.same_size;
    messages = omega (arith, a.messages, a.held_one);
    bytes = omega (arith, a.bytes, a.held_size);
  }

  put_back :
      (r : Receiver)
      → Balanced open_message_dispatch (books r)
      → Balanced state_open (books (put_last (message_holds r)))
  unfolding rank
  put_back r a = record {
    held_one = omega (arith, a.held_one);
    held_size = omega (arith, a.held_size);
    same_size = a.same_size;
    messages = omega (arith, a.messages, a.held_one);
    bytes = omega (arith, a.bytes, a.held_size);
  }

  dispatched :
      (r : Receiver)
      → r.conn.state ≡ open_message_dispatch
      → Balanced open_message_dispatch (books r)
      → VerdictAccounted (dispatch codec memory r)
  unfolding dispatch
  dispatched r e a = by_message (decode_message codec r.header r.footer r.front r.middle r.data_bl)
    where
      by_message :
          (o : Option Message)
          → VerdictAccounted (elim o as (λ x. Verdict) [
            | none ↦ fails r
            | some m ↦
                let d = message_holds r in
                let (session, fresh) = receive d.conn.session (msg_of m) in
                if fresh
                then passes (record d { conn = record d.conn { session = session } }) m
                else drops (put_last d) m
          ])
      by_message none = subst (λ u. Balanced u (books r)) (sym e) a
      by_message (some m) =
          by_if VerdictAccounted (receive (message_holds r).conn.session (msg_of m)).1
            (λ h. handed_over r a) λ h. put_back r a

  of_state :
      (s : State) (r : Receiver) (bs : List ℕ)
      → r.conn.state ≡ s
      → Balanced s (books r)
      → VerdictAccounted (advance codec memory s r bs)
  unfolding advance rank prepare_data
  of_state state_open r bs e a = tag_read r (get_or bs 0 0) e a
  of_state open_keepalive2 r bs e a = moved open_keepalive2 state_open (books r) refl refl a
  of_state open_keepalive2_ack r bs e a = moved open_keepalive2_ack state_open (books r) refl refl a
  of_state open_tag_ack r bs e a = moved open_tag_ack state_open (books r) refl refl a
  of_state open_message_header r bs e a = header_read r bs e a
  of_state open_message_throttle_message r bs e a = record {
    held_one = omega (arith, a.held_one);
    held_size = a.held_size;
    same_size = a.same_size;
    messages = omega (arith, a.messages);
    bytes = a.bytes;
  }
  of_state open_message_throttle_bytes r bs e a = record {
    held_one = a.held_one;
    held_size = omega (arith, a.held_size);
    same_size = a.same_size;
    messages = a.messages;
    bytes = omega (arith, a.bytes);
  }
  of_state open_message_read_front r bs e a =
      moved open_message_read_front open_message_read_middle (books r) refl refl a
  of_state open_message_read_middle r bs e a =
      moved open_message_read_middle open_message_read_data_prepare (books r) refl refl a
  of_state open_message_read_data_prepare r bs e a =
      moved open_message_read_data_prepare open_message_read_data (books r) refl refl a
  of_state open_message_read_data r bs e a = data_read r bs e a
  of_state open_message_read_footer r bs e a = footer_read r bs e a
  of_state open_message_throttle_dispatch_size r bs e a =
      moved open_message_throttle_dispatch_size open_message_dispatch (books r) refl refl a
  of_state open_message_dispatch r bs e a = dispatched r e a
  of_state open_tag_close r bs e a = subst (λ u. Balanced u (books r)) (sym e) a
  of_state wait_state r bs e a = moved wait_state connecting_send_connect_msg (books r) refl refl a
  of_state _ r bs e a = tt

  -- Whatever a state does with the bytes it has read, the account of the throttlers stays balanced: what
  -- is taken and not put back is what the receipt holds in the state that follows (one message between
  -- the two gets and the hand-over, with its bytes from the second get on) and what the messages that
  -- were passed on and not destroyed hold. In particular a message that is dropped as old has given back
  -- all, and before a fault the connection holds just what its state says.
  pub advance-VerdictAccounted :
      (s : State) (r : Receiver) (bs : List ℕ)
      → r.conn.state ≡ s
      → Accounted r
      → VerdictAccounted (advance codec memory s r bs)
  advance-VerdictAccounted s r bs e a = of_state s r bs e (subst (λ u. Balanced u (books r)) e a)
