-- ===== src/Dispatch/Arrivals.antt =====
-- The arrivals of the messages in the dispatch queue (src/DispatchQueue.cc and DispatchQueue.h).
use msg.Prelude.{
  ℕ, ◌≡◌, refl, ap, subst, Bool, true, false, Option, some, List, [], ◌∷◌, ◌==◌, arith,
  if◌then◌else◌,
}
use msg.Dispatch.{
  QueueItem, code, message, SubQueue, FifoQueue, dequeue, DispatchQueue, Delivery, handles,
  dispatches, discards, has, without, remove_arrival, deliver_next,
}
use msg.Dispatch.Order.{contents, Sorted, Dequeued, exhausted, taken, dequeue-Dequeued}

abbrev pub messages : SubQueue → List ℕ
messages [] = []
messages ((cl, code c con) ∷ q) = messages q
messages ((cl, message m) ∷ q) = m ∷ messages q

-- Every message is there once and has its arrival.
abbrev pub Arrived : List ℕ → List ℕ → Type 0
Arrived [] arrived = Unit {0}
Arrived (m ∷ ms) arrived = (has m ms ≡ false) × ((has m arrived ≡ true) × Arrived ms arrived)

pub record Tracked (d : DispatchQueue) : Type 0 where
  pub top : ℕ
  pub sorted : Sorted top d.mqueue.high_queue
  pub arrived : Arrived (messages (contents d.mqueue)) d.marrival

has-without :
    (m k : ℕ) (xs : List ℕ) → (m == k) ≡ false → has k xs ≡ true → has k (without m xs) ≡ true
has-without m k [] n h = h
has-without m k (x ∷ xs) n h = ground (arith, has-without m k xs n)

Arrived-without :
    (m : ℕ) (ms xs : List ℕ) → has m ms ≡ false → Arrived ms xs → Arrived ms (without m xs)
Arrived-without m [] xs n a = tt
Arrived-without m (k ∷ ms) xs n a =
    (a.0, (has-without m k xs (ground arith) a.1.0, Arrived-without m ms xs (ground arith) a.1.1))

-- The item of a delivery.
abbrev pub delivered : Bool → QueueItem → Delivery
delivered stop (code c con) = handles c con
delivered stop (message m) = if stop then discards m else dispatches m

-- A round of entry on a queue that is not empty, whose priorities descend and whose messages are all
-- there once with an arrival each, fails no assertion: it delivers the first of the contents, or discards it if it is a message
-- and the queue is stopping, and leaves such a queue again.
pub deliver_next-Tracked :
    (d : DispatchQueue) (cl : ℕ) (x : QueueItem) (rest : SubQueue)
    → Tracked d
    → contents d.mqueue ≡ (cl, x) ∷ rest
    → (e : DispatchQueue) × (deliver_next d ≡ some (e, delivered d.stop x))
      × (contents e.mqueue ≡ rest)
      × Tracked e
unfolding deliver_next remove_arrival
deliver_next-Tracked d cl x rest t first =
    by_item (dequeue d.mqueue) refl (dequeue-Dequeued t.top d.mqueue t.sorted)
  where
    Goal : Type 0
    Goal =
        (e : DispatchQueue) × (deliver_next d ≡ some (e, delivered d.stop x))
        × (contents e.mqueue ≡ rest)
        × Tracked e

    by_item :
        (o : Option (QueueItem × FifoQueue)) → dequeue d.mqueue ≡ o → Dequeued d.mqueue o → Goal
    by_item _ q (exhausted z) = absurd (cc)
    by_item _ q (taken cl' (code c con) g s n) =
        let e : DispatchQueue = record d { mqueue = g } in
        let item : code c con ≡ x = cc in
        let left : contents g ≡ rest = cc in
        let arrived = subst (λ q. Arrived (messages q) d.marrival) s t.arrived in
        (
          e,
          rw (deliver_next, q) (ap (λ y. some (e, delivered d.stop y)) item),
          left,
          record { top = n.0; sorted = n.1; arrived = arrived },
        )
    by_item _ q (taken cl' (message m) g s n) =
        let e : DispatchQueue = record d { mqueue = g; marrival = without m d.marrival } in
        let item : message m ≡ x = cc in
        let left : contents g ≡ rest = cc in
        let all = subst (λ q. Arrived (messages q) d.marrival) s t.arrived in
        let arrived = Arrived-without m (messages (contents g)) d.marrival all.0 all.1.1 in
        let found = all.1.0 in
        (
          e,
          rw (deliver_next, q, remove_arrival, found) (ap (λ y. some (e, delivered d.stop y)) item),
          left,
          record { top = n.0; sorted = n.1; arrived = arrived },
        )
