-- ===== src/Session/Next.antt =====
-- `_get_next_outgoing` of src/async/AsyncConnection.h on a queue of the shape of `Holds`.
use msg.Prelude.{
  ℕ, ◌+◌, ◌≤◌, ◌<◌, ◌≡◌, refl, ◌⊎◌, inl, inr, Option, none, some, List, [], ◌∷◌, ◌++◌, arith,
}
use msg.Session.{Msg, OutQueue, prio_highest, next_outgoing}
use msg.Session.Numbering.{Fresh}
use msg.Session.Queued.{tally, tally_queue, Low, Holds}

-- What `next_outgoing` finds among new messages.
abbrev pub LowNext : ℕ → OutQueue → Option Msg × OutQueue → Type 0
LowNext n low r =
    ((r ≡ (none, [])) × ((f : List ℕ → ℕ) → tally_queue f low ≡ 0))
    ⊎ ((m : Msg) × (q : OutQueue) × (r ≡ (some m, q))
        × Low n q
        × ((f : List ℕ → ℕ) → f m.body + tally_queue f q ≡ tally_queue f low))

Low-mono : (i j : ℕ) (q : OutQueue) → i ≤ j → Low i q → Low j q
Low-mono i j [] h l = tt
Low-mono i j ((p, ms) ∷ q) h l = (omega arith, l.1, l.2)

LowNext-skip :
    (n p : ℕ) (low : OutQueue) (r : Option Msg × OutQueue)
    → p < n
    → LowNext p low r
    → LowNext n ((p, []) ∷ low) r
LowNext-skip n p low r h (inl (e, w)) = inl (e, λ f. omega (arith, w f))
LowNext-skip n p low r h (inr (m, q, e, l, w)) =
    inr (m, q, e, Low-mono p n q (omega arith) l, λ f. omega (arith, w f))

pub next_outgoing-LowNext : (n : ℕ) (low : OutQueue) → Low n low → LowNext n low (next_outgoing low)
unfolding next_outgoing
next_outgoing-LowNext n [] l = inl (refl, λ f. refl)
next_outgoing-LowNext n ((p, []) ∷ q) l = LowNext-skip n p q _ l.0 (next_outgoing-LowNext p q l.2)
next_outgoing-LowNext n ((p, m ∷ []) ∷ q) l =
    inr (m, q, refl, Low-mono p n q (omega arith) l.2, λ f. omega arith)
next_outgoing-LowNext n ((p, m ∷ (k ∷ ms)) ∷ q) l =
    inr (m, (p, k ∷ ms) ∷ q, refl, (l.0, l.1.1, l.2), λ f. omega arith)

-- What `next_outgoing` finds in a queue of this shape: the run first.
abbrev pub Next : List Msg → List Msg → OutQueue → Option Msg × OutQueue → Type 0
Next rs ns low r =
    ((r ≡ (none, [])) × (rs ≡ []) × ((f : List ℕ → ℕ) → tally f ns + tally_queue f low ≡ 0))
    ⊎ ((m : Msg) × (q : OutQueue) × (rs' : List Msg) × (ns' : List Msg) × (low' : OutQueue) × (r
          ≡ (some m, q))
        × Holds q rs' ns' low'
        × Fresh ns'
        × Low prio_highest low'
        × ((rs ≡ m ∷ rs') ⊎ ((rs ≡ []) × (rs' ≡ [])))
        × ((f : List ℕ → ℕ)
            → f m.body + (tally f rs' + tally f ns' + tally_queue f low')
              ≡ tally f rs + tally f ns + tally_queue f low))

low_Next :
    (low : OutQueue) (r : Option Msg × OutQueue) → LowNext prio_highest low r → Next [] [] low r
low_Next low r (inl (e, w)) = inl (e, refl, λ f. omega (arith, w f))
low_Next low r (inr (m, q, e, l, w)) =
    inr
      (m, q, [], [], q, e, inr (refl, refl, refl), tt, l, inr (refl, refl), λ f. omega (arith, w f))

-- With the queue of highest priority present.
top_Next :
    (rs ns : List Msg) (low : OutQueue)
    → Fresh ns
    → Low prio_highest low
    → Next rs ns low (next_outgoing ((prio_highest, rs ++ ns) ∷ low))
unfolding next_outgoing
top_Next [] [] low fr l = low_Next low _ (next_outgoing-LowNext prio_highest low l)
top_Next [] (m ∷ []) low fr l =
    inr
      (m, low, [], [], low, refl, inr (refl, refl, refl), tt, l, inr (refl, refl), λ f. omega arith)
top_Next [] (m ∷ (k ∷ ns)) low fr l =
    inr (m, _, [], k ∷ ns, low, refl, inl refl, fr.1, l, inr (refl, refl), λ f. omega arith)
top_Next (m ∷ []) [] low fr l =
    inr (m, low, [], [], low, refl, inr (refl, refl, refl), tt, l, inl refl, λ f. omega arith)
top_Next (m ∷ []) (k ∷ ns) low fr l =
    inr (m, _, [], k ∷ ns, low, refl, inl refl, fr, l, inl refl, λ f. omega arith)
top_Next (m ∷ (k ∷ rs)) ns low fr l =
    inr (m, _, k ∷ rs, ns, low, refl, inl refl, fr, l, inl refl, λ f. omega arith)

pub Holds-Next :
    (q : OutQueue) (rs ns : List Msg) (low : OutQueue)
    → Holds q rs ns low
    → Fresh ns
    → Low prio_highest low
    → Next rs ns low (next_outgoing q)
Holds-Next q rs ns low (inl e) fr l = rw e (top_Next rs ns low fr l)
Holds-Next q rs ns low (inr (e, r, n)) fr l =
    rw (e, r, n) (low_Next low _ (next_outgoing-LowNext prio_highest low l))
