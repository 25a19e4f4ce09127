-- ===== src/Session/Requeue.antt =====
-- Recovery after a fault: requeue_sent, then discard_requeued_up_to with the peer's number.
use msg.Prelude.{
  ℕ, ◌+◌, ◌^◌, ◌<◌, ◌≡◌, refl, ap, inl, inr, Bool, none, List, [], ◌∷◌, ◌++◌, append_assoc, reverse,
  arith, length,
}
use msg.StdMap.{lookup, insert, erase}
use msg.Session.{
  Session, Msg, OutQueue, prio_highest, queue_at, requeue_loop, requeue_sent, discard_loop,
  discard_requeued_up_to, set_or_erase,
}
use msg.Session.Numbering.{
  Consecutive, Consecutive-split, Fresh, StopsAt, requeue_loop_lem, discard_loop_lem,
}
use msg.Session.Queued.{Low, Low-lookup, Holds, Holds-queue_at, Holds-insert}

-- A session with nothing sent, at out_seq `n`, whose queue holds the run `rs` before `ns`.
pub record Queues (t : Session) (rs ns : List Msg) (low : OutQueue) (n : ℕ) (flag : Bool)
    : Type 0 where
  pub queue : Holds t.out_q rs ns low
  pub none_sent : t.sent ≡ []
  pub seq : t.out_seq ≡ n
  pub lossy : t.lossy ≡ flag

module _ (s : Session) (rs ns : List Msg) (low : OutQueue) (n : ℕ) (l : Low prio_highest low)
    (h : Holds s.out_q rs ns low) (b : s.out_seq < 2 ^ 64) where
  requeued_queue :
      (ms : List Msg)
      → n + length ms ≡ s.out_seq
      → insert prio_highest
          (requeue_loop (reverse ms) (queue_at prio_highest s.out_q) s.out_seq).0
          s.out_q
        ≡ (prio_highest, (ms ++ rs) ++ ns) ∷ low
  requeued_queue ms k =
      rw
        (
          Holds-queue_at s.out_q rs ns low l h,
          (requeue_loop_lem ms (rs ++ ns) s.out_seq (omega arith) b).0,
          append_assoc ms rs ns,
        )
        (Holds-insert s.out_q rs ns low l _ h)

  requeued_seq :
      (ms : List Msg)
      → n + length ms ≡ s.out_seq
      → (requeue_loop (reverse ms) (queue_at prio_highest s.out_q) s.out_seq).1 ≡ n
  requeued_seq ms k =
      omega
        (arith, (requeue_loop_lem ms (queue_at prio_highest s.out_q) s.out_seq (omega arith) b).1)

  requeue_cases :
      (ms : List Msg)
      → s.sent ≡ ms
      → n + length ms ≡ s.out_seq
      → Queues (requeue_sent s) (ms ++ rs) ns low n s.lossy
  unfolding requeue_sent
  requeue_cases [] e k =
      rw (e, requeue_sent) (record { queue = h; none_sent = e; seq = omega arith; lossy = refl })
  requeue_cases (m ∷ ms) e k =
      rw (e, requeue_sent)
        (record {
          queue = inl (rw e (requeued_queue (m ∷ ms) k));
          none_sent = refl;
          seq = rw e (requeued_seq (m ∷ ms) k);
          lossy = refl;
        })

-- requeue_sent moves what was sent, oldest first, to the front of the queue of highest priority,
-- and sets out_seq back by as much.
pub requeue_sent_lem :
    (s : Session) (rs ns : List Msg) (low : OutQueue) (n : ℕ)
    → Low prio_highest low
    → Holds s.out_q rs ns low
    → s.out_seq < 2 ^ 64
    → n + length s.sent ≡ s.out_seq
    → Queues (requeue_sent s) (s.sent ++ rs) ns low n s.lossy
requeue_sent_lem s rs ns low n l h b k = requeue_cases s rs ns low n l h b s.sent refl k

new_StopsAt : (q : ℕ) (ns : List Msg) → Fresh ns → StopsAt q ns
new_StopsAt q [] f = tt
new_StopsAt q (m ∷ ns) f = inl f.0

run_StopsAt : (q : ℕ) (rs ns : List Msg) → Consecutive q rs → Fresh ns → StopsAt q (rs ++ ns)
run_StopsAt q [] ns c f = new_StopsAt q ns f
run_StopsAt q (m ∷ rs) ns c f = inr (omega arith)

nil_of_append : (xs ys : List Msg) → xs ++ ys ≡ [] → (xs ≡ []) × (ys ≡ [])
nil_of_append [] ys e = (refl, e)
nil_of_append (x ∷ xs) ys e = cc

set_or_erase-Holds :
    (rs ns xs : List Msg) (low : OutQueue)
    → Holds (set_or_erase prio_highest (rs ++ ns) ((prio_highest, xs) ∷ low)) rs ns low
unfolding insert erase
set_or_erase-Holds [] [] xs low = inr (refl, refl, refl)
set_or_erase-Holds [] (n ∷ ns) xs low = inl refl
set_or_erase-Holds (r ∷ rs) ns xs low = inl refl

module _ (s : Session) (ds rs ns : List Msg) (low : OutQueue) (q : ℕ) (l : Low prio_highest low)
    (f : Fresh ns) (b : q < 2 ^ 64) (c : Consecutive s.out_seq (ds ++ rs))
    (e : s.out_seq + length ds ≡ q) where
  discarded : discard_loop q ((ds ++ rs) ++ ns) s.out_seq ≡ (rs ++ ns, q)
  discarded =
      let parts = Consecutive-split s.out_seq q ds rs e c in
      rw (append_assoc ds rs ns)
        (discard_loop_lem q s.out_seq ds (rs ++ ns) parts.0 e b (run_StopsAt q rs ns parts.1 f))

  -- discard_requeued_up_to takes the messages that the peer has off the front of the run, and
  -- leaves out_seq at the peer's number.
  pub discard_requeued_up_to_lem :
      Holds s.out_q (ds ++ rs) ns low
      → s.sent ≡ []
      → Queues (discard_requeued_up_to s q) rs ns low q s.lossy
  unfolding discard_requeued_up_to lookup
  discard_requeued_up_to_lem (inl h) none_sent =
      rw (h, discard_requeued_up_to, lookup, discarded)
        (record {
          queue = rw h (set_or_erase-Holds rs ns _ low);
          none_sent = none_sent;
          seq = refl;
          lossy = refl;
        })
  discard_requeued_up_to_lem (inr (h, r, n)) none_sent =
      let nil = nil_of_append ds rs r in
      let at : s.out_seq ≡ q = omega (arith, ap length nil.0) in
      let none_there : lookup prio_highest s.out_q ≡ none =
        rw h (Low-lookup prio_highest prio_highest low (omega arith) l) in
      rw (none_there, discard_requeued_up_to)
        (record { queue = inr (h, nil.1, n); none_sent = none_sent; seq = at; lossy = refl })
