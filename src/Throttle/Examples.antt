-- ===== src/Throttle/Examples.antt =====
-- The theorems about the throttle at concrete calls.
use msg.Prelude.{◌≡◌, refl, some, List, [], ◌∷◌, arith}
use msg.Throttle.{
  blocked, callback, Throttle, should_wait, signal_loop, granted, get_begin, get_async, get_or_fail,
  get_wake, put,
}
use msg.Throttle.Account.{
  Books, Call, begins, wakes, asyncs, tries, puts, step, run, fresh, Balanced, run-Balanced,
  waited_callbacks_leak,
}
use msg.Throttle.Limit.{Within, run-Within, wake_overshoots}

-- A limit of 10, with 8 in use, and two waiters.
abbrev crowded : Throttle
crowded = record { count = 8; max = 10; wait_queue = blocked 1 ∷ (callback 2 7 ∷ []) }

-- One request is granted, a callback waits for 4, the first is put back, the callback runs and puts.
abbrev waited : List Call
waited = tries 8 ∷ (asyncs 4 7 0 ∷ (puts 8 ∷ (puts 4 ∷ [])))

abbrev leaked : Books
leaked = record {
  throttle = record { count = 4; max = 10; wait_queue = [] };
  ledger = record { granted = 12; returned = 12; twice = 4 };
}

waited_run : run (fresh 10) waited ≡ some leaked
unfolding run step get_or_fail get_async put signal_loop should_wait
waited_run = refl

run-Balanced_example : Balanced leaked
run-Balanced_example = run-Balanced (fresh 10) leaked waited waited_run refl

waited_callbacks_leak_example : leaked.throttle.count ≡ leaked.ledger.twice
waited_callbacks_leak_example = waited_callbacks_leak 10 waited leaked waited_run refl refl

abbrev threads : List Call
threads = begins 1 6 0 ∷ (begins 2 7 0 ∷ (puts 6 ∷ (wakes 2 7 ∷ [])))

abbrev served : Books
served = record {
  throttle = record { count = 7; max = 10; wait_queue = [] };
  ledger = record { granted = 13; returned = 6; twice = 0 };
}

threads_run : run (fresh 10) threads ≡ some served
unfolding run step get_begin get_wake put signal_loop should_wait
threads_run = refl

run-Within_example : Within 10 served.throttle
run-Within_example =
    run-Within 10 (fresh 10) served threads (omega arith) threads_run
      (record { limit = refl; count = omega arith; threads = tt })

wake_overshoots_example :
    ((get_wake crowded 1 2).outcome ≡ granted)
    × ((get_wake crowded 1 2).calls ≡ 7 ∷ [])
    × ((get_wake crowded 1 2).state.count ≡ 12)
wake_overshoots_example =
    wake_overshoots crowded 1 2 2 7 (omega arith) refl (omega arith) (omega arith)
