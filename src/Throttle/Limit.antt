-- ===== src/Throttle/Limit.antt =====
-- How far the count can go (src/Throttle.cc).
use mathlib.Core.List.{tail}
use msg.Prelude.{
  ℕ, ◌+◌, ◌-◌, ◌≤◌, ◌≡◌, refl, subst, ◌≢◌, inl, inr, some, List, [], ◌∷◌, ◌++◌, arith, Option-cases,
}
use msg.Throttle.{
  Waiter, blocked, callback, Throttle, should_wait, signal_loop, granted, get_begin, get_or_fail,
  get_wake, put,
}
use msg.Throttle.Account.{Books, Call, takes, begins, wakes, asyncs, tries, puts, step, run}

-- Only threads wait.
abbrev pub NoCallbacks : List Waiter → Type 0
NoCallbacks [] = Unit {0}
NoCallbacks (blocked id ∷ q) = NoCallbacks q
NoCallbacks (callback c arg ∷ q) = ⊥

-- A call that blocks, tries or puts, for at most `m`, and does not change the maximum.
abbrev pub IsPlain : ℕ → Call → Type 0
IsPlain m (takes c) = ⊥
IsPlain m (begins id c n) = (c ≤ m) × (n ≡ 0)
IsPlain m (wakes id c) = c ≤ m
IsPlain m (asyncs c arg n) = ⊥
IsPlain m (tries c) = c ≤ m
IsPlain m (puts c) = Unit {0}

abbrev pub ArePlain : ℕ → List Call → Type 0
ArePlain m [] = Unit {0}
ArePlain m (c ∷ cs) = IsPlain m c × ArePlain m cs

pub record Within (m : ℕ) (t : Throttle) : Type 0 where
  pub limit : t.max ≡ m
  pub count : t.count ≤ m
  pub threads : NoCallbacks t.wait_queue

NoCallbacks-push : (q : List Waiter) (id : ℕ) → NoCallbacks q → NoCallbacks (q ++ (blocked id ∷ []))
NoCallbacks-push [] id h = tt
NoCallbacks-push (blocked j ∷ q) id h = NoCallbacks-push q id h
NoCallbacks-push (callback c arg ∷ q) id h = h

NoCallbacks-tail : (q : List Waiter) → NoCallbacks q → NoCallbacks (tail q)
NoCallbacks-tail [] h = tt
NoCallbacks-tail (blocked j ∷ q) h = h
NoCallbacks-tail (callback c arg ∷ q) h = absurd h

-- A pass of signal_first over threads only signals.
signal_threads :
    (m cur : ℕ) (q : List Waiter)
    → NoCallbacks q
    → ((signal_loop m cur q).count ≡ cur) × ((signal_loop m cur q).queue ≡ q)
unfolding signal_loop
signal_threads m cur [] h = (refl, refl)
signal_threads m cur (blocked j ∷ q) h = (refl, refl)
signal_threads m cur (callback c arg ∷ q) h = absurd h

module _ (m : ℕ) (b b' : Books) (w : Within m b.throttle) where
  begins-Within :
      (id c n : ℕ)
      → IsPlain m (begins id c n)
      → step b (begins id c n) ≡ some b'
      → Within m b'.throttle
  unfolding step get_begin should_wait
  begins-Within id c n p e = ground (arith, NoCallbacks-push b.throttle.wait_queue id)

  wakes-Within : (id c : ℕ) → c ≤ m → step b (wakes id c) ≡ some b' → Within m b'.throttle
  unfolding step get_wake should_wait
  wakes-Within id c p e =
      let q = tail b.throttle.wait_queue in
      ground (
        arith,
        NoCallbacks-tail b.throttle.wait_queue,
        signal_threads b.throttle.max b.throttle.count q,
      )

  tries-Within : (c : ℕ) → c ≤ m → step b (tries c) ≡ some b' → Within m b'.throttle
  unfolding step get_or_fail should_wait
  tries-Within c p e = ground arith

  puts-Within : (c : ℕ) → step b (puts c) ≡ some b' → Within m b'.throttle
  unfolding step put
  puts-Within c e =
      let t = b.throttle in ground (arith, signal_threads t.max (t.count - c) t.wait_queue)

step-Within :
    (m : ℕ) (b b' : Books) (c : Call)
    → IsPlain m c
    → step b c ≡ some b'
    → Within m b.throttle
    → Within m b'.throttle
step-Within m b b' (takes c) p e w = absurd p
step-Within m b b' (begins id c n) p e w = begins-Within m b b' w id c n p e
step-Within m b b' (wakes id c) p e w = wakes-Within m b b' w id c p e
step-Within m b b' (asyncs c arg n) p e w = absurd p
step-Within m b b' (tries c) p e w = tries-Within m b b' w c p e
step-Within m b b' (puts c) p e w = puts-Within m b b' w c e

-- As long as only threads wait, nobody takes unasked or asks for more than the maximum at once, and
-- the maximum stays, the count never passes it.
pub run-Within :
    (m : ℕ) (b b' : Books) (cs : List Call)
    → ArePlain m cs
    → run b cs ≡ some b'
    → Within m b.throttle
    → Within m b'.throttle
unfolding run
run-Within m b b' [] p e w = let e' : b ≡ b' = ground arith in subst (λ x. Within m x.throttle) e' w
run-Within m b b' (c ∷ cs) p e w = elim (Option-cases (step b c)) [
  | inl h ↦ absurd (cc (rw (h, run) at e))
  | inr (n, h) ↦ run-Within m n b' cs p.1 (rw (h, run) at e) (step-Within m b n c p.0 h w)
]

-- When a thread leaves the queue, the callback behind it is weighed against a count that misses the
-- thread's own amount: both are granted, whatever their sum.
pub wake_overshoots :
    (t : Throttle) (id c d arg : ℕ)
    → t.max ≢ 0
    → t.wait_queue ≡ blocked id ∷ (callback d arg ∷ [])
    → t.count + c ≤ t.max
    → t.count + d ≤ t.max
    → ((get_wake t id c).outcome ≡ granted)
      × ((get_wake t id c).calls ≡ arg ∷ [])
      × ((get_wake t id c).state.count ≡ t.count + d + c)
unfolding get_wake signal_loop should_wait
wake_overshoots t id c d arg m q h k = ground arith
