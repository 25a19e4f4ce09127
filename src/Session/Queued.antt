-- ===== src/Session/Queued.antt =====
-- The shape of the output queue of a lossless session: a run of requeued messages stands at the
-- front of the queue of highest priority, and everything behind it is new.
use msg.Prelude.{
  ℕ, ◌+◌, ◌≤◌, ◌<◌, ◌≡◌, refl, ◌⊎◌, inl, inr, none, List, [], ◌∷◌, ◌++◌, append_assoc, arith,
  dec_lt,
}
use msg.StdMap.{lookup, insert}
use msg.Session.{Msg, OutQueue, prio_highest, queue_at}
use msg.Session.Numbering.{Fresh, Fresh-append}

-- The total weight of the bodies. With the indicator of a body it counts that body.
abbrev pub tally : (List ℕ → ℕ) → List Msg → ℕ
tally f [] = 0
tally f (m ∷ ms) = f m.body + tally f ms

abbrev pub tally_queue : (List ℕ → ℕ) → OutQueue → ℕ
tally_queue f [] = 0
tally_queue f ((p, ms) ∷ q) = tally f ms + tally_queue f q

pub tally-append :
    (f : List ℕ → ℕ) (xs ys : List Msg) → tally f (xs ++ ys) ≡ tally f xs + tally f ys
tally-append f [] ys = omega arith
tally-append f (x ∷ xs) ys = omega (arith, tally-append f xs ys)

-- Only new messages, the keys falling and below `n`.
abbrev pub Low : ℕ → OutQueue → Type 0
Low n [] = Unit {0}
Low n ((p, ms) ∷ q) = (p < n) × Fresh ms × Low p q

pub Low-lookup : (n k : ℕ) (q : OutQueue) → n ≤ k → Low n q → lookup k q ≡ none
unfolding lookup
Low-lookup n k [] b h = refl
Low-lookup n k ((p, ms) ∷ q) b h = ground (arith, Low-lookup p k q)

pub Low-queue_at : (n k : ℕ) (q : OutQueue) → n ≤ k → Low n q → queue_at k q ≡ []
Low-queue_at n k q b h = rw (Low-lookup n k q b h, queue_at)

pub Low-insert :
    (n k : ℕ) (xs : List Msg) (q : OutQueue) → n ≤ k → Low n q → insert k xs q ≡ (k, xs) ∷ q
unfolding insert
Low-insert n k xs [] b h = refl
Low-insert n k xs ((p, ms) ∷ q) b h = ground arith

-- The queue holds the run `rs`, the new messages `ns` of highest priority, and `low`.
abbrev pub Holds : OutQueue → List Msg → List Msg → OutQueue → Type 0
Holds q rs ns low = (q ≡ (prio_highest, rs ++ ns) ∷ low) ⊎ ((q ≡ low) × (rs ≡ []) × (ns ≡ []))

module _ (q : OutQueue) (rs ns : List Msg) (low : OutQueue) (l : Low prio_highest low) where
  pub Holds-queue_at : Holds q rs ns low → queue_at prio_highest q ≡ rs ++ ns
  unfolding lookup
  Holds-queue_at (inl e) = rw e
  Holds-queue_at (inr (e, r, n)) = rw (e, r, n) (Low-queue_at prio_highest _ low (omega arith) l)

  pub Holds-insert :
      (xs : List Msg) → Holds q rs ns low → insert prio_highest xs q ≡ (prio_highest, xs) ∷ low
  unfolding insert
  Holds-insert xs (inl e) = rw e
  Holds-insert xs (inr (e, r, n)) = rw e (Low-insert prio_highest _ xs low (omega arith) l)

-- Adding a new message of lower priority.
insert-Low :
    (n : ℕ) (m : Msg) (low : OutQueue)
    → Low n low
    → m.seq ≡ 0
    → m.priority < n
    → Low n (insert m.priority (queue_at m.priority low ++ (m ∷ [])) low)
unfolding insert lookup
insert-Low n m [] h e p = (p, (e, tt), tt)
insert-Low n m ((j, ms) ∷ q) h e p =
    ground (arith, insert-Low j m q h.2 e, Low-queue_at j m.priority q, Fresh-append ms (m ∷ []))

insert_under :
    (m : Msg) (xs : List Msg) (low : OutQueue)
    → m.priority < prio_highest
    → insert m.priority
        (queue_at m.priority ((prio_highest, xs) ∷ low) ++ (m ∷ []))
        ((prio_highest, xs) ∷ low)
      ≡ (prio_highest, xs) ∷ insert m.priority (queue_at m.priority low ++ (m ∷ [])) low
unfolding insert lookup
insert_under m xs low h = ground arith

tally_queue-insert :
    (f : List ℕ → ℕ) (n : ℕ) (m : Msg) (low : OutQueue)
    → Low n low
    → tally_queue f (insert m.priority (queue_at m.priority low ++ (m ∷ [])) low)
      ≡ f m.body + tally_queue f low
unfolding insert lookup
tally_queue-insert f n m [] h = omega arith
tally_queue-insert f n m ((j, ms) ∷ q) h =
    ground (
      arith,
      tally_queue-insert f j m q h.2,
      Low-queue_at j m.priority q,
      tally-append f ms (m ∷ []),
    )

-- What `enqueue` makes of a queue of this shape.
pub Holds-enqueue :
    (q : OutQueue) (rs ns : List Msg) (low : OutQueue) (m : Msg)
    → Holds q rs ns low
    → Fresh ns
    → Low prio_highest low
    → m.seq ≡ 0
    → m.priority ≤ prio_highest
    → (ns' : List Msg) × (low' : OutQueue) × Holds
        (insert m.priority (queue_at m.priority q ++ (m ∷ [])) q)
        rs
        ns'
        low'
      × Fresh ns'
      × Low prio_highest low'
      × ((f : List ℕ → ℕ)
          → tally f ns' + tally_queue f low' ≡ f m.body + (tally f ns + tally_queue f low))
Holds-enqueue q rs ns low m h fr l new p = elim (dec_lt m.priority prio_highest) [
  | yes lt ↦ (
    ns,
    insert m.priority (queue_at m.priority low ++ (m ∷ [])) low,
    below lt h,
    fr,
    insert-Low prio_highest m low l new lt,
    λ f. omega (arith, tally_queue-insert f prio_highest m low l),
  )
  | no ge ↦ (
    ns ++ (m ∷ []),
    low,
    inl (top m.priority (omega arith)),
    Fresh-append ns (m ∷ []) fr (new, tt),
    l,
    λ f. omega (arith, tally-append f ns (m ∷ [])),
  )
]
  where
    below :
        m.priority < prio_highest
        → Holds q rs ns low
        → Holds
            (insert m.priority (queue_at m.priority q ++ (m ∷ [])) q)
            rs
            ns
            (insert m.priority (queue_at m.priority low ++ (m ∷ [])) low)
    below lt (inl e) = inl (rw e (insert_under m (rs ++ ns) low lt))
    below lt (inr (e, r, n)) = inr (rw e, r, n)

    top :
        (p : ℕ)
        → p ≡ prio_highest
        → insert p (queue_at p q ++ (m ∷ [])) q ≡ (prio_highest, rs ++ (ns ++ (m ∷ []))) ∷ low
    top p e =
        rw (e, Holds-queue_at q rs ns low l h, append_assoc rs ns (m ∷ []))
          (Holds-insert q rs ns low l _ h)
