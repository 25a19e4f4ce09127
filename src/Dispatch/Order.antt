-- ===== src/Dispatch/Order.antt =====
-- The order in which a queue hands out its items (src/FIFOQueue.h).
use msg.Prelude.{
  ℕ, ◌≤◌, ◌<◌, ◌≡◌, refl, sym, ap, ◌∙◌, true, false, Option, none, some, List, [], ◌∷◌, ◌++◌, leb,
  ltb, ◌==◌, arith, if◌then◌else◌, Bool-cases, append_assoc, append-nil, inl, inr,
}
use msg.StdMap.{lookup, insert}
use msg.Dispatch.{QueueItem, SubQueue, FifoQueue, sub_queue, enqueue_strict, dequeue, is_empty}

abbrev pub flatten : List (ℕ × SubQueue) → SubQueue
flatten [] = []
flatten ((p, q) ∷ hs) = q ++ flatten hs

-- The items with their classes, the next one first.
abbrev pub contents : FifoQueue → SubQueue
contents f = flatten f.high_queue ++ f.queue

-- Keys descend from below `n`, and no sub-queue is empty.
abbrev pub Sorted : ℕ → List (ℕ × SubQueue) → Type 0
Sorted n [] = Unit {0}
Sorted n ((p, q) ∷ hs) = (p < n) × ((is_empty q ≡ false) × Sorted p hs)

-- What stands before an item of priority `p` that comes last of its priority, and what behind.
abbrev pub before : ℕ → List (ℕ × SubQueue) → SubQueue
before p [] = []
before p ((k, q) ∷ hs) = if leb p k then q ++ before p hs else []

abbrev pub behind : ℕ → List (ℕ × SubQueue) → SubQueue
behind p [] = []
behind p ((k, q) ∷ hs) = if leb p k then behind p hs else q ++ flatten hs

-- dequeue hands out the first of the contents and leaves the others; it fails on an empty queue only.
pub data Dequeued (f : FifoQueue) : Option (QueueItem × FifoQueue) → Type 0 where
  exhausted : contents f ≡ [] → Dequeued f none
  taken :
      (cl : ℕ) (x : QueueItem) (g : FifoQueue)
      → contents f ≡ (cl, x) ∷ contents g
      → (n : ℕ) × Sorted n g.high_queue
      → Dequeued f (some (x, g))

-- On a queue whose priorities descend and hold no empty sub-queue, dequeue hands out the first of the
-- contents, leaves the others in their order and keeps the queue so; it fails only when there are no
-- contents.
pub dequeue-Dequeued : (n : ℕ) (f : FifoQueue) → Sorted n f.high_queue → Dequeued f (dequeue f)
unfolding dequeue
dequeue-Dequeued n f s = by_queues f.high_queue f.queue s
  where
    by_queues :
        (hs : List (ℕ × SubQueue)) (q : SubQueue)
        → Sorted n hs
        → Dequeued
            (record { high_queue = hs; queue = q })
            (dequeue (record { high_queue = hs; queue = q }))
    by_queues [] [] s = exhausted refl
    by_queues [] ((cl, x) ∷ q) s = taken cl x (record { high_queue = []; queue = q }) refl (0, tt)
    by_queues ((p, []) ∷ hs) q s = absurd (ground arith)
    by_queues ((p, (cl, x) ∷ []) ∷ hs) q s =
        taken cl x (record { high_queue = hs; queue = q }) refl (p, s.1.1)
    by_queues ((p, (cl, x) ∷ (y ∷ ys)) ∷ hs) q s =
        taken cl x (record { high_queue = (p, y ∷ ys) ∷ hs; queue = q }) refl
          (n, (s.0, (refl, s.1.1)))

-- Below its priority nothing stands before an item, and the map has no entry for it.
low_priorities :
    (n p : ℕ) (hs : List (ℕ × SubQueue))
    → n ≤ p
    → Sorted n hs
    → (before p hs ≡ []) × (behind p hs ≡ flatten hs) × (lookup p hs ≡ none)
unfolding lookup
low_priorities n p [] le s = (refl, refl, refl)
low_priorities n p ((k, q) ∷ hs) le s =
    let lt = s.0 in
    let above : leb p k ≡ false = ground arith in
    let other : (k == p) ≡ false = ground arith in
    let (b, c, d) = low_priorities k p hs (omega arith) s.1.1 in (rw above, rw above, rw other d)

insert_back :
    (n p cl : ℕ) (x : QueueItem) (hs : List (ℕ × SubQueue)) (r : SubQueue)
    → Sorted n hs
    → sub_queue p hs ≡ r
    → flatten (insert p (r ++ ((cl, x) ∷ [])) hs) ≡ before p hs ++ ((cl, x) ∷ behind p hs)
unfolding insert lookup
insert_back n p cl x [] r s h = rw (sym h)
insert_back n p cl x ((k, q) ∷ hs) r s h = elim (Bool-cases (k == p)) [
  | inl e ↦
      let le : leb p k ≡ true = ground arith in
      let (b, c, d) = low_priorities k p hs (ground arith) s.1.1 in
      let h' : q ≡ r = rw (sub_queue, lookup, e) at h in
      rw (e, le, b, c, sym h')
        (append_assoc q ((cl, x) ∷ []) (flatten hs)
          ∙ ap (λ t. t ++ ((cl, x) ∷ flatten hs)) (sym (append-nil q)))
  | inr e ↦ elim (Bool-cases (ltb k p)) [
    | inl lt ↦
        let le : leb p k ≡ false = ground arith in
        let (b, c, d) = low_priorities k p hs (ground arith) s.1.1 in
        let h' : [] ≡ r = rw (sub_queue, lookup, e, d) at h in rw (e, lt, le, sym h')
    | inr ge ↦
        let le : leb p k ≡ true = ground arith in
        let h' : sub_queue p hs ≡ r = rw (sub_queue, lookup, e) at h in
        rw (e, ge, le)
          (ap (λ t. q ++ t) (insert_back k p cl x hs r s.1.1 h')
            ∙ sym (append_assoc q (before p hs) _))
  ]
]

before-behind : (p : ℕ) (hs : List (ℕ × SubQueue)) → flatten hs ≡ before p hs ++ behind p hs
before-behind p [] = refl
before-behind p ((k, q) ∷ hs) = elim (Bool-cases (leb p k)) [
  | inl e ↦ rw e (ap (λ t. q ++ t) (before-behind p hs) ∙ sym (append_assoc q (before p hs) _))
  | inr e ↦ rw e
]

-- On a queue whose priorities descend, an item of a strict priority goes behind all items of that or a higher priority, and before all
-- others.
pub contents-enqueue_strict :
    (n cl p : ℕ) (x : QueueItem) (f : FifoQueue)
    → Sorted n f.high_queue
    → (contents (enqueue_strict cl p x f)
        ≡ before p f.high_queue ++ ((cl, x) ∷ (behind p f.high_queue ++ f.queue)))
      × (contents f ≡ before p f.high_queue ++ (behind p f.high_queue ++ f.queue))
unfolding enqueue_strict
contents-enqueue_strict n cl p x f s = (
  ap (λ t. t ++ f.queue) (insert_back n p cl x f.high_queue _ s refl)
      ∙ append_assoc (before p f.high_queue) _ f.queue,
  ap (λ t. t ++ f.queue) (before-behind p f.high_queue)
      ∙ append_assoc (before p f.high_queue) _ f.queue,
)
