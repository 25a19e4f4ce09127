-- ===== src/Dispatch/Queueing.antt =====
-- A message that is queued is tracked (src/DispatchQueue.cc, enqueue).
use msg.Prelude.{
  ℕ, ◌+◌, ◌≤◌, ◌<◌, ◌≡◌, refl, sym, subst, true, false, List, [], ◌∷◌, ◌++◌, ◌==◌, arith,
  Bool-cases, inl, inr, leb, ltb, append_assoc, append-nil,
}
use msg.StdMap.{insert}
use msg.Dispatch.{
  QueueItem, code, message, SubQueue, sub_queue, enqueue_strict, enqueue, DispatchQueue, has,
  add_arrival, queue_message, is_empty, prio_low,
}
use msg.Dispatch.Order.{contents, flatten, before, behind, Sorted, contents-enqueue_strict}
use msg.Dispatch.Arrivals.{messages, Arrived, Tracked}

has-add_arrival : (m k : ℕ) (xs : List ℕ) → has k xs ≡ true → has k (add_arrival m xs) ≡ true
has-add_arrival m k xs h = elim (Bool-cases (has m xs)) [
  | inl e ↦ rw e h
  | inr e ↦ rw e (ground arith)
]

arrives : (m : ℕ) (xs : List ℕ) → has m (add_arrival m xs) ≡ true
arrives m xs = elim (Bool-cases (has m xs)) [ inl e ↦ rw e e | inr e ↦ rw e (ground arith) ]

Arrived-add_arrival : (m : ℕ) (ms xs : List ℕ) → Arrived ms xs → Arrived ms (add_arrival m xs)
Arrived-add_arrival m [] xs a = tt
Arrived-add_arrival m (k ∷ ms) xs a =
    (a.0, (has-add_arrival m k xs a.1.0, Arrived-add_arrival m ms xs a.1.1))

has-between :
    (m k cl : ℕ) (a b : SubQueue)
    → (m == k) ≡ false
    → has k (messages (a ++ b)) ≡ false
    → has k (messages (a ++ ((cl, message m) ∷ b))) ≡ false
has-between m k cl [] b n h = rw n h
has-between m k cl ((c, code x y) ∷ a) b n h = has-between m k cl a b n h
has-between m k cl ((c, message j) ∷ a) b n h = ground (arith, has-between m k cl a b n)

Arrived-between :
    (m cl : ℕ) (a b : SubQueue) (xs : List ℕ)
    → has m (messages (a ++ b)) ≡ false
    → Arrived (messages (a ++ b)) xs
    → Arrived (messages (a ++ ((cl, message m) ∷ b))) (add_arrival m xs)
Arrived-between m cl [] b xs n r = (n, (arrives m xs, Arrived-add_arrival m (messages b) xs r))
Arrived-between m cl ((c, code x y) ∷ a) b xs n r = Arrived-between m cl a b xs n r
Arrived-between m cl ((c, message k) ∷ a) b xs n r = (
  has-between m k cl a b (ground arith) r.0,
  (has-add_arrival m k xs r.1.0, Arrived-between m cl a b xs (ground arith) r.1.1),
)

-- The message stands anywhere in the new contents.
Arrived-added :
    (m cl : ℕ) (a b old now : SubQueue) (xs : List ℕ)
    → old ≡ a ++ b
    → now ≡ a ++ ((cl, message m) ∷ b)
    → has m (messages old) ≡ false
    → Arrived (messages old) xs
    → Arrived (messages now) (add_arrival m xs)
Arrived-added m cl a b old now xs o e n r =
    subst (λ q. Arrived (messages q) (add_arrival m xs)) (sym e)
      (Arrived-between m cl a b xs (subst (λ q. has m (messages q) ≡ false) o n)
        (subst (λ q. Arrived (messages q) xs) o r))

top_can_rise : (n k : ℕ) (hs : List (ℕ × SubQueue)) → n ≤ k → Sorted n hs → Sorted k hs
top_can_rise n k [] le s = tt
top_can_rise n k ((p, q) ∷ hs) le s = let lt = s.0 in (omega arith, s.1)

insert-Sorted :
    (n p : ℕ) (q : SubQueue) (hs : List (ℕ × SubQueue))
    → p < n
    → is_empty q ≡ false
    → Sorted n hs
    → Sorted n (insert p q hs)
unfolding insert
insert-Sorted n p q [] lt e s = (lt, (e, tt))
insert-Sorted n p q ((k, r) ∷ hs) lt e s = elim (Bool-cases (k == p)) [
  | inl h ↦ let same : k ≡ p = ground arith in rw h (lt, (e, subst (λ k. Sorted k hs) same s.1.1))
  | inr h ↦ elim (Bool-cases (ltb k p)) [
    | inl l ↦ let less : k < p = ground arith in rw (h, l) (lt, (e, (less, s.1)))
    | inr l ↦
        let less : p < k = ground arith in
        rw (h, l) (s.0, (s.1.0, insert-Sorted k p q hs less e s.1.1))
  ]
]

is_empty-append : (q : SubQueue) (x : ℕ × QueueItem) → is_empty (q ++ (x ∷ [])) ≡ false
is_empty-append [] x = refl
is_empty-append (y ∷ q) x = refl

append-Tracked :
    (m cl : ℕ) (d : DispatchQueue)
    → has m (messages (contents d.mqueue)) ≡ false
    → Tracked d
    → Tracked
        (record d { marrival = add_arrival m d.marrival; mqueue = enqueue cl (message m) d.mqueue })
unfolding enqueue
append-Tracked m cl d n t =
    let hs = d.mqueue.high_queue in
    let q = d.mqueue.queue in
    record {
      top = t.top;
      sorted = t.sorted;
      arrived =
          Arrived-added m cl (flatten hs ++ q) [] (flatten hs ++ q) _ d.marrival
            (sym (append-nil (flatten hs ++ q)))
            (sym (append_assoc (flatten hs) q ((cl, message m) ∷ []))) n t.arrived;
    }

strict-Tracked :
    (m cl p : ℕ) (d : DispatchQueue)
    → has m (messages (contents d.mqueue)) ≡ false
    → Tracked d
    → Tracked (record d {
      marrival = add_arrival m d.marrival;
      mqueue = enqueue_strict cl p (message m) d.mqueue;
    })
unfolding enqueue_strict
strict-Tracked m cl p d n t =
    let f = d.mqueue in
    let hs = f.high_queue in
    let (now, old) = contents-enqueue_strict t.top cl p (message m) f t.sorted in
    let top = t.top + (p + 1) in
    record {
      top = top;
      sorted =
          insert-Sorted top p _ hs (omega arith) (is_empty-append (sub_queue p hs) (cl, message m))
            (top_can_rise t.top top hs (omega arith) t.sorted);
      arrived =
          Arrived-added m cl (before p hs) (behind p hs ++ f.queue) (contents f) _ d.marrival old
            now n t.arrived;
    }

-- On a dispatch queue whose priorities descend and whose messages are all there once with an arrival
-- each, queueing a message that is not there yet, at any priority, leaves such a queue.
pub queue_message-Tracked :
    (m p id : ℕ) (d : DispatchQueue)
    → has m (messages (contents d.mqueue)) ≡ false
    → Tracked d
    → Tracked (queue_message m p id d)
unfolding queue_message
queue_message-Tracked m p id d n t = elim (Bool-cases (leb prio_low p)) [
  | inl e ↦ rw e (strict-Tracked m id p d n t)
  | inr e ↦ rw e (append-Tracked m id d n t)
]
