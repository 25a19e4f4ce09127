-- ===== src/Session/Invariant.antt =====
-- The invariant of a link: where its messages are.
use msg.Prelude.{
  ℕ, ◌+◌, ◌^◌, ◌<◌, ◌≡◌, refl, ◌⊎◌, inl, inr, true, false, List, [], ◌++◌, append_assoc, arith,
  length,
}
use msg.Session.{Msg, OutQueue, prio_highest}
use msg.Session.Numbering.{Consecutive, Consecutive-split, Fresh}
use msg.Session.Queued.{tally, tally_queue, Low, Holds}
use msg.Session.Link.{Link, start}

-- Where the messages of a link are: `kept` were delivered but may be sent again, the channel comes
-- next in number, then `run`, requeued at the sender; `ns` and `low` are new.
pub record Inv (l : Link) : Type 0 where
  pub base : ℕ
  pub kept : List Msg
  pub run : List Msg
  pub ns : List Msg
  pub low : OutQueue
  pub lossless : l.sender.lossy ≡ false
  pub numbers : Consecutive base (kept ++ (l.channel ++ run))
  pub reached : base + length kept ≡ l.receiver.in_seq
  pub bounded : l.receiver.in_seq + (length l.channel + length run) < 2 ^ 32
  pub new : Fresh ns
  pub lower : Low prio_highest low
  pub place :
      ((l.connected ≡ true)
        × (l.sender.sent ≡ kept ++ l.channel)
        × (l.sender.out_seq ≡ l.receiver.in_seq + length l.channel)
        × Holds l.sender.out_q run ns low)
      ⊎ ((l.connected ≡ false)
          × (l.sender.sent ≡ [])
          × (l.sender.out_seq ≡ base)
          × Holds l.sender.out_q (kept ++ (l.channel ++ run)) ns low)
  pub in_order : Consecutive 0 l.delivered
  pub complete : length l.delivered ≡ l.receiver.in_seq
  pub weight :
      (f : List ℕ → ℕ)
      → tally f l.submitted
        ≡ tally f l.delivered + tally f l.channel + tally f run + tally f ns + tally_queue f low

pub start-Inv : Inv start
start-Inv = record {
  base = 0;
  kept = [];
  run = [];
  ns = [];
  low = [];
  lossless = refl;
  numbers = tt;
  reached = refl;
  bounded = omega arith;
  new = tt;
  lower = tt;
  place = inl (refl, refl, refl, inr (refl, refl, refl));
  in_order = tt;
  complete = refl;
  weight = λ f. refl;
}

pub sent_run : (l : Link) (v : Inv l) → Consecutive v.base (v.kept ++ l.channel)
sent_run l v =
    (Consecutive-split v.base (v.base + length (v.kept ++ l.channel)) (v.kept ++ l.channel) v.run
      refl (rw (append_assoc v.kept l.channel v.run) v.numbers)).0
