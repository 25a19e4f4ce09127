-- ===== src/StdMap.antt =====
-- std::map with integer keys, as the program uses it for its queues by priority
-- (src/async/AsyncConnection.h out_q, src/FIFOQueue.h high_queue): the entries from rbegin() to
-- rend(), so the entry with the greatest key is the head.
use msg.Prelude.{ℕ, Option, none, some, List, [], ◌∷◌, ltb, ◌==◌, if◌then◌else◌}

module _ {ℓ} {V : Type ℓ} where
  -- `find(k)`
  unfoldable pub lookup : ℕ → List (ℕ × V) → Option V
  lookup k [] = none
  lookup k (e ∷ m) = if e.0 == k then some e.1 else lookup k m

  -- `m[k] = v`
  unfoldable pub insert : ℕ → V → List (ℕ × V) → List (ℕ × V)
  insert k v [] = (k, v) ∷ []
  insert k v ((j, w) ∷ m) =
      if j == k
      then (k, v) ∷ m
      else (if ltb j k then (k, v) ∷ ((j, w) ∷ m) else (j, w) ∷ insert k v m)

  -- `erase(k)`
  unfoldable pub erase : ℕ → List (ℕ × V) → List (ℕ × V)
  erase k [] = []
  erase k ((j, v) ∷ m) = if j == k then m else (j, v) ∷ erase k m
