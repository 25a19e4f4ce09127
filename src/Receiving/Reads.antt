-- ===== src/Receiving/Reads.antt =====
-- What a receiver makes of the bytes that come, and the receipt of what _send writes
-- (src/async/AsyncConnection.cc).
use msg.Prelude.{ℕ, ◌≤◌, ◌≡◌, List, [], ◌∷◌, length, take, drop}
use msg.Frame.{Message, Codec}
use msg.Receiving.{Receiver, Memory, Verdict, goes_on, passes, drops, wants, advance}

module _ (codec : Codec) (memory : Memory) where
  -- the number of bytes that the state reads
  abbrev pub next_len : Receiver → ℕ
  next_len r = wants codec memory r.conn.state r

  -- the verdict of the state on the next bytes
  abbrev pub verdict : Receiver → List ℕ → Verdict
  verdict r bs = advance codec memory r.conn.state r (take (next_len r) bs)

  -- From one receiver to another over some of the bytes that come, passing on messages.
  pub data Reads : Receiver → List ℕ → Receiver → List ℕ → List Message → Type 0 where
    stops : {r : Receiver} {bs : List ℕ} → Reads r bs r bs []
    moves :
        {r s t : Receiver} {bs cs : List ℕ} {ms : List Message}
        → next_len r ≤ length bs
        → verdict r bs ≡ goes_on s
        → Reads s (drop (next_len r) bs) t cs ms
        → Reads r bs t cs ms
    passes_on :
        {r s t : Receiver} {bs cs : List ℕ} {m : Message} {ms : List Message}
        → next_len r ≤ length bs
        → verdict r bs ≡ passes s m
        → Reads s (drop (next_len r) bs) t cs ms
        → Reads r bs t cs (m ∷ ms)
    drops_old :
        {r s t : Receiver} {bs cs : List ℕ} {m : Message} {ms : List Message}
        → next_len r ≤ length bs
        → verdict r bs ≡ drops s m
        → Reads s (drop (next_len r) bs) t cs ms
        → Reads r bs t cs ms
