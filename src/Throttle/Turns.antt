-- ===== src/Throttle/Turns.antt =====
-- Whose turn it is: signal_first, and newcomers (src/Throttle.cc).
use msg.Prelude.{
  ℕ, ◌+◌, ◌≡◌, refl, ap, ◌≢◌, inl, inr, true, Option, none, some, List, [], ◌∷◌, ◌++◌, arith,
  Bool-cases,
}
use msg.Throttle.{
  Waiter, blocked, callback, Throttle, should_wait, Signals, signal_loop, queued, refused,
  get_begin, get_async, get_or_fail, aborted,
}

-- The amounts of the callbacks in a queue.
abbrev pub queued_sum : List Waiter → ℕ
queued_sum [] = 0
queued_sum (blocked id ∷ q) = queued_sum q
queued_sum (callback c arg ∷ q) = c + queued_sum q

-- Only callbacks.
abbrev pub AllCallbacks : List Waiter → Type 0
AllCallbacks [] = Unit {0}
AllCallbacks (blocked id ∷ q) = ⊥
AllCallbacks (callback c arg ∷ q) = AllCallbacks q

-- The queue is at rest: the first waiter was signalled, or is a callback that must wait.
abbrev pub Settled : ℕ → ℕ → Option ℕ → List Waiter → Type 0
Settled m cur s [] = s ≡ none
Settled m cur s (blocked id ∷ q) = s ≡ some id
Settled m cur s (callback c arg ∷ q) = (should_wait m cur c ≡ true) × (s ≡ none)

pub record Passed (m cur : ℕ) (q : List Waiter) (s : Signals) : Type 0 where
  pub front : List Waiter
  pub split : front ++ s.queue ≡ q
  pub callbacks : AllCallbacks front
  pub calls : s.calls ≡ aborted front
  pub charged : s.charged ≡ queued_sum front
  pub count : s.count ≡ cur + queued_sum front
  pub settled : Settled m s.count s.signalled s.queue

-- signal_first takes the callbacks that fit off the front of the queue, in order, and charges each of
-- them. It stops at the end of the queue, at a callback that has to wait, or at a thread, which it
-- signals.
pub signal_loop-Passed : (m cur : ℕ) (q : List Waiter) → Passed m cur q (signal_loop m cur q)
unfolding signal_loop aborted
signal_loop-Passed m cur [] = record {
  front = [];
  split = refl;
  callbacks = tt;
  calls = refl;
  charged = refl;
  count = omega arith;
  settled = refl;
}
signal_loop-Passed m cur (blocked id ∷ q) = record {
  front = [];
  split = refl;
  callbacks = tt;
  calls = refl;
  charged = refl;
  count = omega arith;
  settled = refl;
}
signal_loop-Passed m cur (callback c arg ∷ q) = elim (Bool-cases (should_wait m cur c)) [
  | inl w ↦ rw w (record {
    front = [];
    split = refl;
    callbacks = tt;
    calls = refl;
    charged = refl;
    count = omega arith;
    settled = (w, refl);
  })
  | inr w ↦
      let p = signal_loop-Passed m (cur + c) q in
      rw w (record {
        front = callback c arg ∷ p.front;
        split = ap (λ xs. callback c arg ∷ xs) p.split;
        callbacks = p.callbacks;
        calls = ap (λ xs. arg ∷ xs) p.calls;
        charged = omega (arith, p.charged);
        count = omega (arith, p.count);
        settled = p.settled;
      })
]

-- While anybody waits, a newcomer is refused by get_or_fail and goes to the end of the queue in get,
-- with a callback or without, whatever it asks for; only the callback is charged at once.
pub newcomers_wait :
    (t : Throttle) (w : Waiter) (q : List Waiter) (id c arg : ℕ)
    → t.max ≢ 0
    → t.wait_queue ≡ w ∷ q
    → ((get_or_fail t c).outcome ≡ refused)
      × ((get_or_fail t c).state ≡ t)
      × ((get_begin t id c 0).outcome ≡ queued)
      × ((get_begin t id c 0).state ≡ record t { wait_queue = t.wait_queue ++ (blocked id ∷ []) })
      × ((get_async t c arg 0).outcome ≡ queued)
      × ((get_async t c arg 0).state
          ≡ record t { wait_queue = t.wait_queue ++ (callback c arg ∷ []); count = t.count + c })
unfolding get_or_fail get_begin get_async
newcomers_wait t w q id c arg m e = ground arith
