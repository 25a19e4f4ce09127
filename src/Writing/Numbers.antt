-- ===== src/Writing/Numbers.antt =====
-- The numbers that handle_write writes: those of the messages and of the acknowledgement
-- (src/async/AsyncConnection.cc).
use msg.Prelude.{ℕ, ◌≡◌}
use msg.Session.{Session, Msg}
use msg.Frame.{Message, Codec}
use msg.Writing.Handler.{Pumped}
use msg.Writing.Counts.{Counts}

-- What is asked of the virtual encode_payload: it leaves the number in the header alone.
abbrev pub KeepsNumber : Codec → ℕ → Type 0
KeepsNumber codec features =
    (m : Message) → (codec.encode_payload features m).header.seq ≡ m.header.seq

module _ (codec : Codec) (features : ℕ) (message_of : Msg → Message)
    (keeps : KeepsNumber codec features) where
  PumpCounts : Session → Pumped → Type 0
  PumpCounts s p = Counts s p.session p.frames
