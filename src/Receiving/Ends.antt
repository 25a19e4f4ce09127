-- ===== src/Receiving/Ends.antt =====
-- The loop of do_process ends (src/async/AsyncConnection.cc).
use msg.Prelude.{
  ℕ, zero, suc, ◌+◌, ◌-◌, ◌*◌, ◌%◌, ◌^◌, ◌≤◌, ◌<◌, ◌≡◌, ◌≢◌, refl, ap, not, ◌&&◌, Option, none,
  some, List, [], ◌∷◌, ◌++◌, length, take, min, get_or, ltb, ◌==◌, if◌then◌else◌, arith, by_if,
  length-drop, bit_and,
}
use msg.Session.{receive}
use msg.Connection.{
  State, state_open, open_keepalive2, open_keepalive2_ack, open_tag_ack, open_message_header,
  open_message_throttle_message, open_message_throttle_bytes, open_message_read_front,
  open_message_read_middle, open_message_read_data_prepare, open_message_read_data,
  open_message_read_footer, open_message_throttle_dispatch_size, open_message_dispatch,
  open_tag_close, wait_state,
}
use msg.Frame.{Message, Codec, decode_message, read_footer, read_header, footer_complete, tag_msg}
use msg.ReadBuffer.{SysRead, Reader, Outcome, finished, remaining, failed, asserts}
use msg.ReadBuffer.Loops.{unread}
use msg.Receiving.{
  Receiver, Memory, Verdict, goes_on, passes, drops, fails, closes, rests, connects, no_memory,
  wants, advance, message_size, read_tag, read_message_header, prepare_data, posted, advance_blp,
  read_data, read_message_footer, dispatch, message_holds, msg_of, tag_keepalive2,
  tag_keepalive2_ack, tag_ack, tag_close, put_last,
}
use msg.Receiving.Reads.{next_len}
use msg.Receiving.Parts.{AllPositive, Enough}
use msg.Receiving.Verdicts.{enough_posted}
use msg.Receiving.Loop.{no_fuel, Run, with_message, read_item, on_verdict, on_item, do_process}
use msg.Receiving.Process.{Ready, Idle, Item, read_item-Item, idle_ready}

-- how many states at most follow before one that surely reads something
abbrev pub free : State → ℕ
free open_message_throttle_message = 6
free open_message_throttle_bytes = 5
free open_message_read_front = 4
free open_message_read_middle = 3
free open_message_read_data_prepare = 2
free open_message_read_data = 1
free open_message_throttle_dispatch_size = 2
free open_message_dispatch = 1
free _ = 0

free_le : (s : State) → free s ≤ 6
free_le open_message_throttle_message = omega arith
free_le open_message_throttle_bytes = omega arith
free_le open_message_read_front = omega arith
free_le open_message_read_middle = omega arith
free_le open_message_read_data_prepare = omega arith
free_le open_message_read_data = omega arith
free_le open_message_throttle_dispatch_size = omega arith
free_le open_message_dispatch = omega arith
free_le _ = omega arith

-- Fewer states are left after a verdict than `k`, and no piece of memory is empty.
abbrev pub Less : ℕ → Receiver → Type 0
Less k r = (free r.conn.state < k) × AllPositive r.data_blp

abbrev pub Descends : ℕ → Verdict → Type 0
Descends k (goes_on r) = Less k r
Descends k (passes r m) = Less k r
Descends k (drops r m) = Less k r
Descends k (fails r) = Unit
Descends k (closes r) = Unit
Descends k rests = Unit
Descends k connects = Unit
Descends k no_memory = Unit

-- After at least one byte anything is less.
seven : (n : ℕ) (s t : State) → 0 < n → free t < 7 * n + free s
seven n s t p = omega (arith, free_le t)

module _ (codec : Codec) (memory : Memory) where
  read_tag-Descends :
      (r : Receiver) (tag : ℕ) → AllPositive r.data_blp → Descends 7 (read_tag r tag)
  unfolding read_tag
  read_tag-Descends r tag p =
      by_if (Descends 7) (tag == tag_keepalive2) (λ h. (omega arith, p))
        λ h.
          by_if (Descends 7) (tag == tag_keepalive2_ack) (λ h. (omega arith, p))
            λ h.
              by_if (Descends 7) (tag == tag_ack) (λ h. (omega arith, p))
                λ h.
                  by_if (Descends 7) (tag == tag_msg) (λ h. (omega arith, p))
                    λ h. by_if (Descends 7) (tag == tag_close) (λ h. (omega arith, p)) λ h. tt

  prepare_data-Less :
      (r : Receiver) → Enough memory → AllPositive r.data_blp → Less 2 (prepare_data memory r)
  unfolding prepare_data
  prepare_data-Less r y p = (
    omega arith,
    by_if AllPositive (r.header.data_len == 0) (λ h. p)
        λ h. of_buffer (memory.rx_buffers r.header.tid) refl,
  )
    where
      of_buffer :
          (o : Option (List ℕ))
          → memory.rx_buffers r.header.tid ≡ o
          → AllPositive (elim o as (λ q. List ℕ) [
            | some buffer ↦ posted buffer r.header.data_len
            | none ↦ memory.allocate_msg_data r.header
          ])
      of_buffer none e = y.pieces r.header
      of_buffer (some buffer) e =
          (enough_posted codec memory buffer r.header.data_len
            (y.posted_pieces r.header.tid buffer e)).0

  read_data-Descends :
      (r : Receiver) (bs : List ℕ)
      → AllPositive r.data_blp
      → Descends
          (7 * min (get_or r.data_blp 0 0) r.msg_left + free open_message_read_data)
          (read_data r bs)
  unfolding read_data advance_blp
  read_data-Descends r bs p =
      let k = 7 * min (get_or r.data_blp 0 0) r.msg_left + free open_message_read_data in
      by_if (Descends k) (r.msg_left == 0) (λ h. (omega arith, p))
        λ h. round r.data_blp p (ground arith)
    where
      round :
          (blp : List ℕ)
          → AllPositive blp
          → 0 < r.msg_left
          → Descends
              (7 * min (get_or blp 0 0) r.msg_left + free open_message_read_data)
              (elim blp as (λ p. Verdict) [
                | [] ↦ no_memory
                | p ∷ ps ↦
                    let read = min p r.msg_left in
                    let more = goes_on (record r {
                      data_bl = r.data_bl ++ bs;
                      data_blp = advance_blp (p ∷ ps) read;
                      msg_left = r.msg_left - read;
                    }) in
                    if p == 0 then no_memory else more
              ])
      round [] p l = tt
      round (n ∷ ps) (pos, p) l =
          by_if (Descends (7 * min n r.msg_left + free open_message_read_data)) (n == 0) (λ z. tt)
            λ z. (
              omega (arith, free_le r.conn.state),
              by_if AllPositive (n == min n r.msg_left) (λ h. p) λ h. (ground arith, p),
            )

  dispatch-Descends : (r : Receiver) → AllPositive r.data_blp → Descends 1 (dispatch codec memory r)
  unfolding dispatch
  dispatch-Descends r p =
      of_message (decode_message codec r.header r.footer r.front r.middle r.data_bl)
    where
      of_message :
          (o : Option Message)
          → Descends 1 (elim o as (λ x. Verdict) [
            | none ↦ fails r
            | some m ↦
                let d = message_holds r in
                let (session, fresh) = receive d.conn.session (msg_of m) in
                if fresh
                then passes (record d { conn = record d.conn { session = session } }) m
                else drops (put_last d) m
          ])
      of_message none = tt
      of_message (some m) =
          by_if (Descends 1) (receive (message_holds r).conn.session (msg_of m)).1
            (λ h. (omega arith, p)) λ h. (omega arith, p)

  advance-Descends :
      (s : State) (r : Receiver) (bs : List ℕ)
      → Enough memory
      → AllPositive r.data_blp
      → Descends (7 * wants codec memory s r + free s) (advance codec memory s r bs)
  unfolding advance wants read_message_header read_message_footer
  advance-Descends state_open r bs y p = read_tag-Descends r (get_or bs 0 0) p
  advance-Descends open_keepalive2 r bs y p = (omega arith, p)
  advance-Descends open_keepalive2_ack r bs y p = (omega arith, p)
  advance-Descends open_tag_ack r bs y p = (omega arith, p)
  advance-Descends open_message_header r bs y p =
      by_if (Descends 371)
        (codec.crc_header && not (codec.crc32c (take 49 bs) == (read_header bs).crc)) (λ h. tt)
        λ h. (omega arith, p)
  advance-Descends open_message_throttle_message r bs y p = (omega arith, p)
  advance-Descends open_message_throttle_bytes r bs y p = (omega arith, p)
  advance-Descends open_message_read_front r bs y p = (omega arith, p)
  advance-Descends open_message_read_middle r bs y p = (omega arith, p)
  advance-Descends open_message_read_data_prepare r bs y p = prepare_data-Less r y p
  advance-Descends open_message_read_data r bs y p = read_data-Descends r bs p
  advance-Descends open_message_read_footer r bs y p =
      by_if (Descends 147) (bit_and (read_footer bs).flags footer_complete == 0) (λ h. tt)
        λ h. (omega arith, p)
  advance-Descends open_message_throttle_dispatch_size r bs y p = (omega arith, p)
  advance-Descends open_message_dispatch r bs y p = dispatch-Descends r p
  advance-Descends open_tag_close r bs y p = tt
  advance-Descends wait_state r bs y p = tt
  advance-Descends _ r bs y p = tt

  module _ (sys : SysRead) (y : Enough memory) where
    open sys use {Socket}

    abbrev Finite : Run codec memory sys → Type 0
    Finite run = run.ending ≢ no_fuel

    on_verdict-Finite :
        (limit total k : ℕ) (r : Receiver) (rd : Reader) (s : Socket)
        (next next_message : Receiver → Run codec memory sys) (v : Verdict)
        → Descends k v
        → ((t : Receiver) → Less k t → Finite (next t))
        → ((t : Receiver) → Less k t → Finite (next_message t))
        → Finite (on_verdict codec memory sys limit total r rd s next next_message v)
    unfolding on_verdict
    on_verdict-Finite limit total k r rd s next next_message (goes_on t) d f g = f t d
    on_verdict-Finite limit total k r rd s next next_message (drops t m) d f g = g t d
    on_verdict-Finite limit total k r rd s next next_message (passes t m) d f g =
        by_if (λ run. Finite (with_message codec memory sys m run)) (ltb limit total)
          (λ h e. absurd (cc)) λ h. g t d
    on_verdict-Finite limit total k r rd s next next_message (fails t) d f g = λ e. absurd (cc)
    on_verdict-Finite limit total k r rd s next next_message (closes t) d f g = λ e. absurd (cc)
    on_verdict-Finite limit total k r rd s next next_message rests d f g = λ e. absurd (cc)
    on_verdict-Finite limit total k r rd s next next_message connects d f g = λ e. absurd (cc)
    on_verdict-Finite limit total k r rd s next next_message no_memory d f g = λ e. absurd (cc)

    on_item-Finite :
        (max n : ℕ) (r : Receiver) (bs : List ℕ) (rd : Reader) (s : Socket)
        (handle : List ℕ → Run codec memory sys) (o : Outcome)
        → Item codec memory sys max n bs (o, rd, s)
        → ((xs : List ℕ)
            → length (unread sys rd s) + n ≡ length bs
            → Idle max rd
            → Finite (handle xs))
        → Finite (on_item codec memory sys r rd s handle o)
    on_item-Finite max n r bs rd s handle (finished xs) (e, d, w, i) f =
        f xs (omega (arith, ap length d, length-drop n bs, w)) i
    on_item-Finite max n r bs rd s handle (remaining k) x f = λ e. absurd (cc)
    on_item-Finite max n r bs rd s handle failed x f = λ e. absurd (cc)
    on_item-Finite max n r bs rd s handle asserts x f = λ e. absurd (cc)

    do_process-Finite :
        (fuel max limit total : ℕ) (r : Receiver) (rd : Reader) (s : Socket)
        → AllPositive r.data_blp
        → Ready max (next_len codec memory r) rd
        → 7 * length (unread sys rd s) + free r.conn.state < fuel
        → Finite (do_process codec memory sys fuel max limit total r rd s)
    unfolding do_process
    do_process-Finite zero max limit total r rd s p ready f = absurd (omega arith)
    do_process-Finite (suc fuel) max limit total r rd s p ready f =
        let n = next_len codec memory r in
        let (o, rd', s') = read_item codec memory sys max r rd s in
        let total' = (total + message_size r.header) % 2 ^ 32 in
        on_item-Finite max n r (unread sys rd s) rd' s' _ o
          (read_item-Item codec memory sys max r rd s ready)
          λ xs len i.
            on_verdict-Finite limit total' (7 * n + free r.conn.state) r rd' s' _ _ _
              (advance-Descends r.conn.state r xs y p)
              (λ t (l, q).
                do_process-Finite fuel max limit total t rd' s' q (idle_ready max _ rd' i)
                  (omega (arith, l, len, f)))
              λ t (l, q).
                do_process-Finite fuel max limit total' t rd' s' q (idle_ready max _ rd' i)
                  (omega (arith, l, len, f))

    -- do_process ends: seven rounds for each byte that is still to come, and seven more, are enough,
    -- when the pieces of memory for the data are not empty and the allocator gives enough.
    pub do_process_ends :
        (fuel max limit total : ℕ) (r : Receiver) (rd : Reader) (s : Socket)
        → AllPositive r.data_blp
        → Ready max (next_len codec memory r) rd
        → 7 * length (unread sys rd s) + 6 < fuel
        → (do_process codec memory sys fuel max limit total r rd s).ending ≢ no_fuel
    do_process_ends fuel max limit total r rd s p ready f =
        do_process-Finite fuel max limit total r rd s p ready (omega (arith, free_le r.conn.state))
