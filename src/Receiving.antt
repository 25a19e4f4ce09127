-- ===== src/Receiving.antt =====
-- The receipt of messages in an open connection: the states STATE_OPEN to STATE_OPEN_TAG_CLOSE of
-- do_process and its loop (src/async/AsyncConnection.cc). Memory for a message is the lengths of its
-- pieces: where they come from is a parameter. The blocking of a throttler's get is in Throttle; here a
-- get is what it takes. Time stamps and the wake-up of the writer are left out.
pub mod Account
pub mod Kept
pub mod NoLeak
pub mod Reads
pub mod Parts
pub mod Verdicts
pub mod RoundTrip
pub mod Encoded
pub mod Loop
pub mod Process
pub mod Ends
pub mod Examples
use msg.Prelude.{
  ℕ, zero, suc, ◌+◌, ◌-◌, ◌%◌, ◌^◌, Bool, true, false, not, ◌&&◌, Option, none, some, List, [], ◌∷◌,
  ◌++◌, length, take, min, get_or, bit_and, ltb, ◌==◌, if◌then◌else◌,
}
use msg.Session.{Session, Msg, unsigned_seq, receive, handle_ack}
use msg.Connection.{
  Conn, State, state_open, open_keepalive2, open_keepalive2_ack, open_tag_ack, open_message_header,
  open_message_throttle_message, open_message_throttle_bytes, open_message_read_front,
  open_message_read_middle, open_message_read_data_prepare, open_message_read_data,
  open_message_read_footer, open_message_throttle_dispatch_size, open_message_dispatch,
  open_tag_close, standby_state, closed, wait_state, connecting_send_connect_msg,
}
use msg.Frame.{
  Header, Footer, Message, Codec, header_size, footer_size, footer_complete, read_header,
  read_footer, unpack, le_number, sum, decode_message, tag_msg,
}
use msg.ReadBuffer.{SysRead, Reader, Outcome, finished, remaining, failed, asserts, read_until}

-- the rest of MSGR_MSGR_TAG_*
abbrev pub tag_close : ℕ
tag_close = 6

abbrev pub tag_ack : ℕ
tag_ack = 8

abbrev pub tag_keepalive2 : ℕ
tag_keepalive2 = 14

abbrev pub tag_keepalive2_ack : ℕ
tag_keepalive2_ack = 15

-- The buffers posted for an answer (rx_buffers, by its tid), and those that the allocator gives.
pub record Memory : Type 0 where
  pub rx_buffers : ℕ → Option (List ℕ)
  pub allocate_msg_data : Header → List ℕ

-- What a connection keeps while it receives: `data_blp` is what is left of the data's memory. A time is
-- its seconds and nanoseconds. `taken_messages` and `taken_bytes` count all that was taken of the
-- policy's throttlers with get, `put_messages` and `put_bytes` all that was put back; `alive` has the dispatch_throttle_size of each
-- message that was passed on and is not destroyed.
pub record Receiver : Type 0 where
  pub conn : Conn
  pub header : Header
  pub footer : Footer
  pub front : List ℕ
  pub middle : List ℕ
  pub data_bl : List ℕ
  pub data_blp : List ℕ
  pub msg_left : ℕ
  pub keepalive_ack : Bool
  pub keepalive_ack_stamp : List ℕ
  pub last_keepalive_ack : List ℕ
  pub taken_messages : ℕ
  pub taken_bytes : ℕ
  pub put_messages : ℕ
  pub put_bytes : ℕ
  pub alive : List ℕ

-- What a state leads to. `goes_on` is a state or a round of the loop for the data; `rests` leaves
-- do_process, and `connects` goes to _process_connection.
pub data Verdict : Type 0 where
  goes_on : Receiver → Verdict
  passes : Receiver → Message → Verdict
  drops : Receiver → Message → Verdict
  fails : Receiver → Verdict
  closes : Receiver → Verdict
  rests : Verdict
  connects : Verdict
  no_memory : Verdict

abbrev pub in_state : State → Receiver → Receiver
in_state s r = record r { conn = record r.conn { state = s } }

-- the sum of three uint32_t
unfoldable pub message_size : Header → ℕ
message_size h = (h.front_len + h.middle_len + h.data_len) % 2 ^ 32

unfoldable pub read_tag : Receiver → ℕ → Verdict
read_tag r tag =
    if tag == tag_keepalive2
    then goes_on (in_state open_keepalive2 r)
    else (if tag == tag_keepalive2_ack
        then goes_on (in_state open_keepalive2_ack r)
        else (if tag == tag_ack
            then goes_on (in_state open_tag_ack r)
            else (if tag == tag_msg
                then goes_on (in_state open_message_header r)
                else (if tag == tag_close then goes_on (in_state open_tag_close r) else fails r))))

-- the fields of a msgr_timespec
abbrev pub timespec : List ℕ → List ℕ
timespec bs = unpack (4 ∷ (4 ∷ [])) bs

abbrev pub read_keepalive2 : Receiver → List ℕ → Receiver
read_keepalive2 r bs = record (in_state state_open r) {
  keepalive_ack = true;
  keepalive_ack_stamp = timespec bs;
}

abbrev pub read_keepalive2_ack : Receiver → List ℕ → Receiver
read_keepalive2_ack r bs = record (in_state state_open r) { last_keepalive_ack = timespec bs }

abbrev pub read_ack : Receiver → List ℕ → Receiver
read_ack r bs = record r {
  conn = record r.conn { state = state_open; session = handle_ack r.conn.session (le_number bs) };
}

-- get() of the message throttler
abbrev pub throttle_message : Receiver → Receiver
throttle_message r = record r {
  conn = record r.conn {
    state = open_message_throttle_bytes;
    held_messages = r.conn.held_messages + 1;
  };
  taken_messages = r.taken_messages + 1;
}

-- get(message_size) of the byte throttler
abbrev pub throttle_bytes : Receiver → Receiver
throttle_bytes r =
    let size = message_size r.header in
    record r {
      conn = record r.conn {
        state = open_message_read_front;
        held_bytes = r.conn.held_bytes + size;
      };
      taken_bytes = r.taken_bytes + size;
    }

-- a buffer of rx_buffers, made big enough
abbrev pub posted : List ℕ → ℕ → List ℕ
posted buffer data_len =
    if ltb (sum buffer) data_len then buffer ++ ((data_len - sum buffer) ∷ []) else buffer

unfoldable pub prepare_data : Memory → Receiver → Receiver
prepare_data memory r =
    let left = r.header.data_len in
    record r {
      conn = record r.conn { state = open_message_read_data };
      data_blp = if left == 0 then r.data_blp else elim (memory.rx_buffers r.header.tid) [
        | some buffer ↦ posted buffer left
        | none ↦ memory.allocate_msg_data r.header
      ];
      msg_left = left;
    }

-- data_blp.advance(n)
unfoldable pub advance_blp : List ℕ → ℕ → List ℕ
advance_blp [] n = []
advance_blp (p ∷ ps) n = if p == n then ps else (p - n) ∷ ps

-- the test and one round of `while (msg_left > 0)`; get_current_ptr fails at the end,
-- and for an empty piece read_until asserts that its length is not 0
unfoldable pub read_data : Receiver → List ℕ → Verdict
read_data r bs =
    let round = elim r.data_blp as (λ p. Verdict) [
      | [] ↦ no_memory
      | p ∷ ps ↦
          let read = min p r.msg_left in
          let more = goes_on (record r {
            data_bl = r.data_bl ++ bs;
            data_blp = advance_blp (p ∷ ps) read;
            msg_left = r.msg_left - read;
          }) in
          if p == 0 then no_memory else more
    ] in
    if r.msg_left == 0 then goes_on (in_state open_message_read_footer r) else round

unfoldable pub read_message_footer : Receiver → List ℕ → Verdict
read_message_footer r bs =
    let f = read_footer bs in
    let r' : Receiver = record r { footer = f } in
    if bit_and f.flags footer_complete == 0
    then fails r'
    else goes_on (in_state open_message_throttle_dispatch_size r')

-- what the session checks of a message
abbrev pub msg_of : Message → Msg
msg_of m = record {
  seq = unsigned_seq m.header.seq;
  priority = m.header.priority;
  body = m.payload;
}

-- A decoded message takes over what the receipt holds of the throttlers.
abbrev pub message_holds : Receiver → Receiver
message_holds r = record r {
  conn = record r.conn {
    state = state_open;
    held_messages = r.conn.held_messages - 1;
    held_bytes = r.conn.held_bytes - message_size r.header;
  };
  alive = message_size r.header ∷ r.alive;
}

abbrev pub rest_of : List ℕ → List ℕ
rest_of [] = []
rest_of (x ∷ xs) = xs

-- ~Message of the message that was decoded last
abbrev pub put_last : Receiver → Receiver
put_last r = record r {
  put_messages = r.put_messages + 1;
  put_bytes = r.put_bytes + get_or r.alive 0 0;
  alive = rest_of r.alive;
}

module _ (codec : Codec) (memory : Memory) where
  open codec use {crc32c, crc_header}

  unfoldable pub read_message_header : Receiver → List ℕ → Verdict
  read_message_header r bs =
      let h = read_header bs in
      if crc_header && not (crc32c (take 49 bs) == h.crc)
      then fails r
      else goes_on (record r {
        conn = record r.conn {
          state = open_message_throttle_message;
          message_size = message_size h;
        };
        header = h;
        front = [];
        middle = [];
        data_bl = [];
      })

  -- STATE_OPEN_MESSAGE_DISPATCH
  unfoldable pub dispatch : Receiver → Verdict
  dispatch r = elim (decode_message codec r.header r.footer r.front r.middle r.data_bl) [
    | none ↦ fails r
    | some m ↦
        let d = message_holds r in
        let (session, fresh) = receive d.conn.session (msg_of m) in
        if fresh
        then passes (record d { conn = record d.conn { session = session } }) m
        else drops (put_last d) m
  ]

  -- how many bytes a state reads before it does anything; a part of no bytes is not read
  unfoldable pub wants : State → Receiver → ℕ
  wants state_open r = 1
  wants open_keepalive2 r = 8
  wants open_keepalive2_ack r = 8
  wants open_tag_ack r = 8
  wants open_message_header r = header_size
  wants open_message_read_front r = r.header.front_len
  wants open_message_read_middle r = r.header.middle_len
  wants open_message_read_data r = min (get_or r.data_blp 0 0) r.msg_left
  wants open_message_read_footer r = footer_size
  wants _ r = 0

  -- what a state does with the bytes it has read
  unfoldable pub advance : State → Receiver → List ℕ → Verdict
  advance state_open r bs = read_tag r (get_or bs 0 0)
  advance open_keepalive2 r bs = goes_on (read_keepalive2 r bs)
  advance open_keepalive2_ack r bs = goes_on (read_keepalive2_ack r bs)
  advance open_tag_ack r bs = goes_on (read_ack r bs)
  advance open_message_header r bs = read_message_header r bs
  advance open_message_throttle_message r bs = goes_on (throttle_message r)
  advance open_message_throttle_bytes r bs = goes_on (throttle_bytes r)
  advance open_message_read_front r bs =
      goes_on (record (in_state open_message_read_middle r) { front = bs })
  advance open_message_read_middle r bs =
      goes_on (record (in_state open_message_read_data_prepare r) { middle = bs })
  advance open_message_read_data_prepare r bs = goes_on (prepare_data memory r)
  advance open_message_read_data r bs = read_data r bs
  advance open_message_read_footer r bs = read_message_footer r bs
  advance open_message_throttle_dispatch_size r bs = goes_on (in_state open_message_dispatch r)
  advance open_message_dispatch r bs = dispatch r
  advance open_tag_close r bs = closes r
  advance standby_state r bs = rests
  advance closed r bs = rests
  advance wait_state r bs = fails (in_state connecting_send_connect_msg r)
  advance _ r bs = connects
