-- ===== src/Throttle/Account.antt =====
-- Where the count of a throttle comes from (src/Throttle.cc).
use mathlib.Core.List.{tail}
use msg.Prelude.{
  ℕ, ◌+◌, ◌-◌, ◌≡◌, refl, ap, subst, inl, inr, true, Option, none, some, List, [], ◌∷◌, ◌++◌, arith,
  Option-cases,
}
use msg.Throttle.{
  Waiter, blocked, callback, Throttle, signal_loop, Reply, unlimited, granted, queued, refused,
  get_begin, get_async, get_or_fail, get_wake, take, put, is_front,
}
use msg.Throttle.Turns.{queued_sum, signal_loop-Passed}

-- What callers have been granted, what they have put back, and what was charged a second time.
pub record Ledger : Type 0 where
  pub granted : ℕ
  pub returned : ℕ
  pub twice : ℕ

pub data Call : Type 0 where
  takes : ℕ → Call
  begins : (id c m : ℕ) → Call
  wakes : (id c : ℕ) → Call
  asyncs : (c arg m : ℕ) → Call
  tries : ℕ → Call
  puts : ℕ → Call

-- A reply entered in the ledger: a grant of `c`, and the callbacks of the pass of signal_first.
abbrev pub book : Ledger → ℕ → Reply → Ledger
book g c r = elim r.outcome [
  | granted ↦ record g { granted = g.granted + c + r.charged; twice = g.twice + r.charged }
  | queued ↦ record g { granted = g.granted + r.charged; twice = g.twice + r.charged }
  | refused ↦ g
  | unlimited ↦ g
]

abbrev pub book_return : Ledger → ℕ → Reply → Ledger
book_return g c r = elim r.outcome [
  | unlimited ↦ g
  | _ ↦ let h = book g 0 r in record h { returned = h.returned + c }
]

pub record Books : Type 0 where
  pub throttle : Throttle
  pub ledger : Ledger

abbrev pub entered : Ledger → ℕ → Reply → Option Books
entered g c r = some (record { throttle = r.state; ledger = book g c r })

-- `none` is a failed assertion.
unfoldable pub step : Books → Call → Option Books
step b (takes c) = entered b.ledger c (take b.throttle c)
step b (begins id c m) = entered b.ledger c (get_begin b.throttle id c m)
step b (wakes id c) = entered b.ledger c (get_wake b.throttle id c)
step b (asyncs c arg m) = entered b.ledger c (get_async b.throttle c arg m)
step b (tries c) = entered b.ledger c (get_or_fail b.throttle c)
step b (puts c) = elim (put b.throttle c) [
  | none ↦ none
  | some r ↦ some (record { throttle = r.state; ledger = book_return b.ledger c r })
]

unfoldable pub run : Books → List Call → Option Books
run b [] = some b
run b (c ∷ cs) = elim (step b c) [ none ↦ none | some b' ↦ run b' cs ]

-- The count is what callers hold, what queued callbacks hold in advance, and what was charged twice.
abbrev pub Balanced : Books → Type 0
Balanced b =
    b.throttle.count + b.ledger.returned
    ≡ b.ledger.granted + (queued_sum b.throttle.wait_queue + b.ledger.twice)

queued_sum-append : (xs ys : List Waiter) → queued_sum (xs ++ ys) ≡ queued_sum xs + queued_sum ys
queued_sum-append [] ys = omega arith
queued_sum-append (blocked id ∷ xs) ys = queued_sum-append xs ys
queued_sum-append (callback c arg ∷ xs) ys = omega (arith, queued_sum-append xs ys)

signal_sums :
    (m cur : ℕ) (q : List Waiter)
    → ((signal_loop m cur q).count ≡ cur + (signal_loop m cur q).charged)
      × (queued_sum (signal_loop m cur q).queue + (signal_loop m cur q).charged ≡ queued_sum q)
signal_sums m cur q =
    let p = signal_loop-Passed m cur q in
    omega (arith, p.count, p.charged, ap queued_sum p.split, queued_sum-append p.front _)

queued_sum-tail :
    (id : ℕ) (q : List Waiter) → is_front id q ≡ true → queued_sum (tail q) ≡ queued_sum q
queued_sum-tail id [] e = refl
queued_sum-tail id (blocked j ∷ q) e = refl
queued_sum-tail id (callback c arg ∷ q) e = cc

step-Balanced : (b b' : Books) (c : Call) → step b c ≡ some b' → Balanced b → Balanced b'
unfolding step
step-Balanced b b' (takes c) e v = unfold take in ground arith
step-Balanced b b' (begins id c m) e v =
    let t = b.throttle in
    let q = (signal_loop m t.count t.wait_queue).queue in
    unfold get_begin in
    ground (
      arith,
      signal_sums m t.count t.wait_queue,
      queued_sum-append t.wait_queue (blocked id ∷ []),
      queued_sum-append q (blocked id ∷ []),
    )
step-Balanced b b' (wakes id c) e v =
    let t = b.throttle in
    unfold get_wake in
    ground (arith, signal_sums t.max t.count (tail t.wait_queue), queued_sum-tail id t.wait_queue)
step-Balanced b b' (asyncs c arg m) e v =
    let t = b.throttle in
    let q = (signal_loop m t.count t.wait_queue).queue in
    unfold get_async in
    ground (
      arith,
      signal_sums m t.count t.wait_queue,
      queued_sum-append t.wait_queue (callback c arg ∷ []),
      queued_sum-append q (callback c arg ∷ []),
    )
step-Balanced b b' (tries c) e v = unfold get_or_fail in ground arith
step-Balanced b b' (puts c) e v =
    unfold put in
    ground (arith, signal_sums b.throttle.max (b.throttle.count - c) b.throttle.wait_queue)

-- Over any calls, the count stays what callers were granted and have not put back, with the amounts
-- of the callbacks in the queue and of every callback that was called out of the queue on top.
pub run-Balanced : (b b' : Books) (cs : List Call) → run b cs ≡ some b' → Balanced b → Balanced b'
unfolding run
run-Balanced b b' [] e v = let e' : b ≡ b' = ground arith in subst Balanced e' v
run-Balanced b b' (c ∷ cs) e v = elim (Option-cases (step b c)) [
  | inl h ↦ absurd (cc (rw (h, run) at e))
  | inr (n, h) ↦ run-Balanced n b' cs (rw (h, run) at e) (step-Balanced b n c h v)
]

abbrev pub fresh : ℕ → Books
fresh m = record {
  throttle = record { count = 0; max = m; wait_queue = [] };
  ledger = record { granted = 0; returned = 0; twice = 0 };
}

-- A new throttle whose callers have put back all that they were granted, and where nobody waits,
-- still counts the amount of every callback that had to wait: those amounts are never given back.
pub waited_callbacks_leak :
    (m : ℕ) (cs : List Call) (b : Books)
    → run (fresh m) cs ≡ some b
    → b.ledger.granted ≡ b.ledger.returned
    → b.throttle.wait_queue ≡ []
    → b.throttle.count ≡ b.ledger.twice
waited_callbacks_leak m cs b e g q =
    omega (arith, run-Balanced (fresh m) b cs e refl, ap queued_sum q)
