-- ===== src/Throttle.antt =====
-- src/Throttle.cc and include/msgr/Throttle.h: a counting throttle with a FIFO of waiters. Each
-- method runs under the lock and is one function; a thread that blocks leaves the lock between
-- `get_begin` and `get_wake`. Requests and counts are non-negative and stay below 2 ^ 63, and a
-- callback does not call its throttle.
pub mod Turns
pub mod Account
pub mod Limit
mod Examples
use mathlib.Core.List.{tail}
use msg.Prelude.{
  ℕ, ◌+◌, ◌-◌, Bool, true, false, ◌&&◌, ◌||◌, not, Option, none, some, List, [], ◌∷◌, ◌++◌, ltb,
  leb, ◌==◌, if◌then◌else◌,
}

-- A waiter with a condition variable, named by its thread, or one with a callback and its argument.
pub data Waiter : Type 0 where
  blocked : ℕ → Waiter
  callback : ℕ → ℕ → Waiter

pub record Throttle : Type 0 where
  pub count : ℕ
  pub max : ℕ
  pub wait_queue : List Waiter

unfoldable pub should_wait : ℕ → ℕ → ℕ → Bool
should_wait m cur c = ltb 0 m && ((leb c m && ltb m (cur + c)) || (leb m c && ltb m cur))

-- What a pass of signal_first leaves and does: the callbacks it makes, with the amounts that it
-- charges for them, and the thread that it signals.
pub record Signals : Type 0 where
  pub count : ℕ
  pub queue : List Waiter
  pub calls : List ℕ
  pub charged : ℕ
  pub signalled : Option ℕ

unfoldable pub signal_loop : ℕ → ℕ → List Waiter → Signals
signal_loop m cur [] = record { count = cur; queue = []; calls = []; charged = 0; signalled = none }
signal_loop m cur (blocked id ∷ q) = record {
  count = cur;
  queue = blocked id ∷ q;
  calls = [];
  charged = 0;
  signalled = some id;
}
signal_loop m cur (callback c arg ∷ q) =
    let rest = signal_loop m (cur + c) q in
    if should_wait m cur c
    then record {
      count = cur;
      queue = callback c arg ∷ q;
      calls = [];
      charged = 0;
      signalled = none;
    }
    else record rest { calls = arg ∷ rest.calls; charged = c + rest.charged }

abbrev pub signal_first : Throttle → Signals
signal_first t = signal_loop t.max t.count t.wait_queue

abbrev pub signalled : Throttle → Signals → Throttle
signalled t s = record t { count = s.count; wait_queue = s.queue }

abbrev pub is_empty : List Waiter → Bool
is_empty [] = true
is_empty (w ∷ q) = false

-- What a call answers, with the pass of signal_first that it made, if any.
pub data Outcome : Type 0 where
  unlimited : Outcome
  granted : Outcome
  queued : Outcome
  refused : Outcome

pub record Reply : Type 0 where
  pub state : Throttle
  pub outcome : Outcome
  pub calls : List ℕ
  pub charged : ℕ
  pub signalled : Option ℕ

abbrev pub quiet : Throttle → Outcome → Reply
quiet t o = record { state = t; outcome = o; calls = []; charged = 0; signalled = none }

-- The throttle and the answer after a pass of signal_first.
abbrev pub after_signal : Throttle → Outcome → Reply
after_signal t o =
    let s = signal_first t in
    record {
      state = signalled t s;
      outcome = o;
      calls = s.calls;
      charged = s.charged;
      signalled = s.signalled;
    }

-- `if (m) _reset_max(m)`
unfoldable pub reset_max : Throttle → ℕ → Reply
reset_max t m = if m == 0 then quiet t granted else after_signal (record t { max = m }) granted

unfoldable pub take : Throttle → ℕ → Reply
take t c =
    if t.max == 0 then quiet t unlimited else quiet (record t { count = t.count + c }) granted

-- A waiter's turn has not come, or others stand before it.
abbrev pub must_queue : Throttle → ℕ → Bool
must_queue t c = should_wait t.max t.count c || not (is_empty t.wait_queue)

abbrev pub push_waiter : Throttle → Waiter → Throttle
push_waiter t w = record t { wait_queue = t.wait_queue ++ (w ∷ []) }

abbrev pub charge : Throttle → ℕ → Throttle
charge t c = record t { count = t.count + c }

-- `get(c, m)` by thread `id`, up to where it blocks or returns; `wait(m)` is the same with c = 0
unfoldable pub get_begin : Throttle → ℕ → ℕ → ℕ → Reply
unfolding reset_max
get_begin t id c m =
    let r = reset_max t m in
    if t.max == 0
    then quiet t unlimited
    else (if must_queue r.state c
        then record r { state = push_waiter r.state (blocked id); outcome = queued }
        else record r { state = charge r.state c })

abbrev pub is_front : ℕ → List Waiter → Bool
is_front id [] = false
is_front id (blocked j ∷ q) = j == id
is_front id (callback c arg ∷ q) = false

abbrev pub pop_front : Throttle → Throttle
pop_front t = record t { wait_queue = tail t.wait_queue }

-- A blocked `get` wakes: it waits on, or leaves the queue, signals the next, and is charged last.
unfoldable pub get_wake : Throttle → ℕ → ℕ → Reply
get_wake t id c =
    let r = after_signal (pop_front t) granted in
    if should_wait t.max t.count c || not (is_front id t.wait_queue)
    then quiet t queued
    else record r { state = charge r.state c }

-- `get(cb, arg, c, m)`
unfoldable pub get_async : Throttle → ℕ → ℕ → ℕ → Reply
unfolding reset_max
get_async t c arg m =
    let r = reset_max t m in
    if t.max == 0
    then quiet t unlimited
    else (if must_queue r.state c
        then record r { state = charge (push_waiter r.state (callback c arg)) c; outcome = queued }
        else record r { state = charge r.state c })

unfoldable pub get_or_fail : Throttle → ℕ → Reply
get_or_fail t c =
    if t.max == 0
    then quiet t unlimited
    else (if must_queue t c then quiet t refused else quiet (charge t c) granted)

-- `none` is the failed assertion that count does not go negative.
unfoldable pub put : Throttle → ℕ → Option Reply
put t c =
    if t.max == 0
    then some (quiet t unlimited)
    else (if c == 0
        then some (quiet t granted)
        else (if leb c t.count
            then some (after_signal (record t { count = t.count - c }) granted)
            else none))

-- The callbacks that the destructor makes, with abort set.
unfoldable pub aborted : List Waiter → List ℕ
aborted [] = []
aborted (blocked id ∷ q) = aborted q
aborted (callback c arg ∷ q) = arg ∷ aborted q
