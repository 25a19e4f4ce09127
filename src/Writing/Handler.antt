-- ===== src/Writing/Handler.antt =====
-- handle_write (src/async/AsyncConnection.cc). What it hands to _try_send is a list; the answers of
-- _try_send are an argument. The events that it starts and stops are left out.
use msg.Prelude.{
  ℕ, zero, suc, Bool, true, false, ◌&&◌, ◌||◌, Option, none, some, List, [], ◌∷◌, ◌++◌, leb, ◌==◌,
  if◌then◌else◌,
}
use msg.Session.{Session, Msg, pump, write_ack}
use msg.Connection.{
  State, rank, state_open, open_tag_close, connecting, standby_state, wait_state, wait_send,
  is_state,
}
use msg.Frame.{Message, Codec, encode}
use msg.Writing.{Written, keepalive2, keepalive2_ack, ack, message}

pub record Writer : Type 0 where
  pub session : Session
  pub state : State
  pub stopping : Bool
  pub keepalive : Bool
  pub keepalive_ack : Bool
  pub keepalive_ack_stamp : List ℕ
  pub sending : Bool
  pub handle_write_delayed : Bool

-- what _try_send answers: the bytes that are left, or a failure
pub data Attempt : Type 0 where
  leaves : ℕ → Attempt
  breaks : Attempt

-- `processes` goes on to do_process, `stops` only stops the watcher, and `faulty` goes to do_replace or
-- fault.
pub data WriteEnd : Type 0 where
  kicks : WriteEnd
  processes : WriteEnd
  stops : WriteEnd
  faulty : WriteEnd

pub record Wrote : Type 0 where
  pub writer : Writer
  pub frames : List Written
  pub ending : WriteEnd

-- what the loop for the messages leaves
pub record Pumped : Type 0 where
  pub session : Session
  pub frames : List Written
  pub answer : Attempt
  pub attempts : List Attempt

-- The answer to one more call; where none is given, everything was sent.
abbrev pub first_attempt : List Attempt → Attempt
first_attempt [] = leaves 0
first_attempt (a ∷ rest) = a

abbrev pub more_attempts : List Attempt → List Attempt
more_attempts [] = []
more_attempts (a ∷ rest) = rest

-- the keepalive and the answer to one
abbrev pub keepalives : Writer → List ℕ → List Written
keepalives w now =
    (if w.keepalive then keepalive2 now ∷ [] else [])
    ++ (if w.keepalive_ack then keepalive2_ack w.keepalive_ack_stamp ∷ [] else [])

-- the message that the session has numbered
abbrev pub numbered : (Msg → Message) → Msg → Message
numbered message_of m =
    let f = message_of m in let h = f.header in record f { header = record h { seq = m.seq } }

-- the answer to the last call of _try_send
abbrev pub ends_with : Attempt → WriteEnd → WriteEnd
ends_with (leaves n) e = e
ends_with breaks e = faulty

-- the acknowledgement, if one is due
abbrev pub ack_frames : Option ℕ → List Written
ack_frames none = []
ack_frames (some n) = ack n ∷ []

module _ (codec : Codec) (features : ℕ) (message_of : Msg → Message) where
  -- what _send writes
  abbrev pub sent_message : Msg → Message
  sent_message m = encode codec features (numbered message_of m)

  -- The loop for the messages, for `rounds` of them at most.
  unfoldable pub pump_all : ℕ → List Attempt → Session → Pumped
  pump_all zero ats s = record { session = s; frames = []; answer = leaves 0; attempts = ats }
  pump_all (suc rounds) ats s =
      let (s', next) = pump s in
      elim next [
        | none ↦ record { session = s'; frames = []; answer = leaves 0; attempts = ats }
        | some m ↦
            let rest = pump_all rounds (more_attempts ats) s' in
            let frame = message (sent_message m) in
            elim (first_attempt ats) [
              | breaks ↦ record {
                session = s';
                frames = frame ∷ [];
                answer = breaks;
                attempts = more_attempts ats;
              }
              | leaves n ↦ if n == 0 then record rest { frames = frame ∷ rest.frames } else record {
                session = s';
                frames = frame ∷ [];
                answer = leaves n;
                attempts = more_attempts ats;
              }
            ]
      ]

  -- the branch of the open states; `now` is the time of the keepalive
  unfoldable pub write_open : ℕ → List ℕ → List Attempt → Writer → Wrote
  write_open rounds now ats w =
      let idle : Pumped = record {
        session = w.session;
        frames = [];
        answer = leaves 0;
        attempts = ats;
      } in
      let p = if w.stopping then idle else pump_all rounds ats w.session in
      let before = keepalives w now ++ p.frames in
      let (acked, due) = write_ack p.session in
      let w' : Writer = record w {
        keepalive = false;
        keepalive_ack = false;
        session = p.session;
      } in
      elim p.answer [
        | breaks ↦ record { writer = w'; frames = before; ending = faulty }
        | leaves n ↦ record {
          writer = record w' { session = acked };
          frames = before ++ ack_frames due;
          ending = ends_with (first_attempt p.attempts) kicks;
        }
      ]

  unfoldable pub handle_write : ℕ → List ℕ → List Attempt → Writer → Wrote
  handle_write rounds now ats w =
      if w.sending
      then record { writer = record w { handle_write_delayed = true }; frames = []; ending = stops }
      else (if leb (rank state_open) (rank w.state) && leb (rank w.state) (rank open_tag_close)
          then write_open rounds now ats w
          else (if is_state w.state connecting
                || (is_state w.state standby_state || is_state w.state wait_state)
              then record { writer = w; frames = []; ending = stops }
              else record {
                writer = w;
                frames = [];
                ending =
                    ends_with (first_attempt ats)
                      (if is_state w.state wait_send then processes else kicks);
              }))
