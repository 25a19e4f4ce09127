-- ===== src/Receiving/Loop.antt =====
-- The loop of do_process while a connection is open (src/async/AsyncConnection.cc): a state reads its
-- item by read_until and handles it, until nothing more has come. The connection's stopping by another
-- thread is left out.
use msg.Prelude.{ℕ, zero, suc, ◌+◌, ◌%◌, ◌^◌, List, [], ◌∷◌, ltb, ◌==◌, if◌then◌else◌}
use msg.Frame.{Message, Codec}
use msg.ReadBuffer.{SysRead, Reader, Outcome, finished, remaining, failed, asserts, read_until}
use msg.Receiving.{
  Receiver, Memory, Verdict, goes_on, passes, drops, fails, closes, rests, connects, no_memory,
  wants, advance, message_size,
}

-- Why the loop ended: bytes are missing, too much was received at once, read_until failed, an assertion
-- failed, the bound on the rounds was reached, or what a state said.
pub data Ending : Type 0 where
  pending : Ending
  paused : Ending
  read_error : Ending
  assertion : Ending
  no_fuel : Ending
  left_by : Verdict → Ending

module _ (codec : Codec) (memory : Memory) (sys : SysRead) where
  open sys use {Socket}

  -- the end of a call, with the messages it has passed on
  pub record Run : Type 0 where
    pub ending : Ending
    pub receiver : Receiver
    pub reader : Reader
    pub socket : Socket
    pub passed : List Message

  abbrev pub ended : Ending → Receiver → Reader → Socket → Run
  ended e r rd s = record { ending = e; receiver = r; reader = rd; socket = s; passed = [] }

  abbrev pub with_message : Message → Run → Run
  with_message m run = record run { passed = m ∷ run.passed }

  -- the read of a state, where it reads
  unfoldable pub read_item : ℕ → Receiver → Reader → Socket → Outcome × Reader × Socket
  read_item max r rd s =
      let n = wants codec memory r.conn.state r in
      if n == 0 then (finished [], rd, s) else read_until sys max n rd s

  -- What the loop does with the verdict of a state. `limit` is ms_async_max_recv_bytes, `total` is
  -- total_recv_bytes with the message in it, and `next` is the next round, after a message or not.
  unfoldable pub on_verdict :
      ℕ → ℕ → Receiver → Reader → Socket → (Receiver → Run) → (Receiver → Run) → Verdict → Run
  on_verdict limit total r rd s next next_message v = elim v [
    | goes_on r' ↦ next r'
    | drops r' m ↦ next_message r'
    | passes r' m ↦
        let rest = next_message r' in
        with_message m (if ltb limit total then ended paused r' rd s else rest)
    | fails r' ↦ ended (left_by (fails r')) r rd s
    | closes r' ↦ ended (left_by (closes r')) r rd s
    | rests ↦ ended (left_by rests) r rd s
    | connects ↦ ended (left_by connects) r rd s
    | no_memory ↦ ended (left_by no_memory) r rd s
  ]

  -- what it does with the outcome of the read; `handle` is the rest of the round
  abbrev pub on_item : Receiver → Reader → Socket → (List ℕ → Run) → Outcome → Run
  on_item r rd s handle o = elim o [
    | remaining k ↦ ended pending r rd s
    | failed ↦ ended read_error r rd s
    | asserts ↦ ended assertion r rd s
    | finished bs ↦ handle bs
  ]

  -- `max` is the size of recv_buf.
  unfoldable pub do_process : ℕ → ℕ → ℕ → ℕ → Receiver → Reader → Socket → Run
  do_process zero max limit total r rd s = ended no_fuel r rd s
  do_process (suc fuel) max limit total r rd s =
      let (o, rd', s') = read_item max r rd s in
      let total' = (total + message_size r.header) % 2 ^ 32 in
      on_item r rd' s'
        (λ bs.
          on_verdict limit total' r rd' s' (λ r'. do_process fuel max limit total r' rd' s')
            (λ r'. do_process fuel max limit total' r' rd' s')
            (advance codec memory r.conn.state r bs))
        o
