-- ===== src/Dispatch.antt =====
-- The queue of what waits for the dispatcher: src/FIFOQueue.h, and src/DispatchQueue.cc with
-- src/DispatchQueue.h on top of it. `high_queue` is a std::map, its highest priority first.
pub mod Order
pub mod Removal
pub mod Arrivals
pub mod Queueing
mod Examples
use msg.Prelude.{
  ℕ, ◌+◌, Bool, true, false, not, ◌&&◌, Option, none, some, List, [], ◌∷◌, ◌++◌, leb, ◌==◌,
  if◌then◌else◌,
}
use msg.StdMap.{lookup, insert}

-- DispatchQueue::QueueItem: a code for a connection, or a message, by their numbers
pub data QueueItem : Type 0 where
  code : ℕ → ℕ → QueueItem
  message : ℕ → QueueItem

-- a SubQueue: each item with its class
abbrev pub SubQueue : Type 0
SubQueue = List (ℕ × QueueItem)

pub record FifoQueue : Type 0 where
  pub high_queue : List (ℕ × SubQueue)
  pub queue : SubQueue

abbrev pub sub_queue : ℕ → List (ℕ × SubQueue) → SubQueue
sub_queue p hs = elim (lookup p hs) [ none ↦ [] | some q ↦ q ]

unfoldable pub enqueue_strict : ℕ → ℕ → QueueItem → FifoQueue → FifoQueue
enqueue_strict cl p x f = record f {
  high_queue = insert p (sub_queue p f.high_queue ++ ((cl, x) ∷ [])) f.high_queue;
}

unfoldable pub enqueue_strict_front : ℕ → ℕ → QueueItem → FifoQueue → FifoQueue
enqueue_strict_front cl p x f = record f {
  high_queue = insert p ((cl, x) ∷ sub_queue p f.high_queue) f.high_queue;
}

unfoldable pub enqueue : ℕ → QueueItem → FifoQueue → FifoQueue
enqueue cl x f = record f { queue = f.queue ++ ((cl, x) ∷ []) }

unfoldable pub enqueue_front : ℕ → QueueItem → FifoQueue → FifoQueue
enqueue_front cl x f = record f { queue = (cl, x) ∷ f.queue }

abbrev pub is_empty {ℓ} : {A : Type ℓ} → List A → Bool
is_empty [] = true
is_empty (x ∷ xs) = false

unfoldable pub empty : FifoQueue → Bool
empty f = is_empty f.queue && is_empty f.high_queue

-- `none`: the assertion of dequeue, or of front, fails.
unfoldable pub dequeue : FifoQueue → Option (QueueItem × FifoQueue)
dequeue f = elim f.high_queue [
  | [] ↦ elim f.queue [ [] ↦ none | (cl, x) ∷ q ↦ some (x, record f { queue = q }) ]
  | (p, []) ∷ hs ↦ none
  | (p, (cl, x) ∷ []) ∷ hs ↦ some (x, record f { high_queue = hs })
  | (p, (cl, x) ∷ (y ∷ q)) ∷ hs ↦ some (x, record f { high_queue = (p, y ∷ q) ∷ hs })
]

-- SubQueue::remove_by_class: what is left, and what goes to the front of `out`
unfoldable pub sub_remove : ℕ → SubQueue → SubQueue
sub_remove k [] = []
sub_remove k ((cl, x) ∷ q) = let rest = sub_remove k q in if cl == k then rest else (cl, x) ∷ rest

unfoldable pub sub_removed : ℕ → SubQueue → List QueueItem
sub_removed k [] = []
sub_removed k ((cl, x) ∷ q) = let rest = sub_removed k q in if cl == k then x ∷ rest else rest

unfoldable pub high_remove : ℕ → List (ℕ × SubQueue) → List (ℕ × SubQueue)
high_remove k [] = []
high_remove k ((p, q) ∷ hs) =
    let rest = high_remove k hs in
    let left = sub_remove k q in if is_empty left then rest else (p, left) ∷ rest

unfoldable pub high_removed : ℕ → List (ℕ × SubQueue) → List QueueItem
high_removed k [] = []
high_removed k ((p, q) ∷ hs) = sub_removed k q ++ high_removed k hs

unfoldable pub remove_by_class : ℕ → FifoQueue → FifoQueue × List QueueItem
remove_by_class k f = (
  record { high_queue = high_remove k f.high_queue; queue = sub_remove k f.queue },
  high_removed k f.high_queue ++ sub_removed k f.queue,
)

-- The messages with an entry in marrival_map_, and the queue.
pub record DispatchQueue : Type 0 where
  pub mqueue : FifoQueue
  pub marrival : List ℕ
  pub stop : Bool

abbrev pub prio_highest : ℕ
prio_highest = 255

abbrev pub prio_low : ℕ
prio_low = 64

abbrev pub has : ℕ → List ℕ → Bool
has m [] = false
has m (x ∷ xs) = if x == m then true else has m xs

abbrev pub add_arrival : ℕ → List ℕ → List ℕ
add_arrival m ms = if has m ms then ms else m ∷ ms

abbrev pub without : ℕ → List ℕ → List ℕ
without m [] = []
without m (x ∷ xs) = let rest = without m xs in if x == m then rest else x ∷ rest

-- `none`: the message has no arrival, and the assertion fails.
unfoldable pub remove_arrival : ℕ → List ℕ → Option (List ℕ)
remove_arrival m ms = if has m ms then some (without m ms) else none

-- DispatchQueue::enqueue
unfoldable pub queue_message : ℕ → ℕ → ℕ → DispatchQueue → DispatchQueue
queue_message m p id d = record d {
  marrival = add_arrival m d.marrival;
  mqueue =
      if leb prio_low p
      then enqueue_strict id p (message m) d.mqueue
      else enqueue id (message m) d.mqueue;
}

-- queue_connect, queue_accept, queue_remote_reset and queue_reset, by their code
unfoldable pub queue_code : ℕ → ℕ → DispatchQueue → DispatchQueue
queue_code c con d =
    if d.stop then d else record d { mqueue = enqueue_strict 0 prio_highest (code c con) d.mqueue }

-- What a round of the loop of entry gives to the messenger.
pub data Delivery : Type 0 where
  handles : ℕ → ℕ → Delivery
  dispatches : ℕ → Delivery
  discards : ℕ → Delivery

-- one round, with `none` for a failed assertion
unfoldable pub deliver_next : DispatchQueue → Option (DispatchQueue × Delivery)
deliver_next d = elim (dequeue d.mqueue) [
  | none ↦ none
  | some (code c con, f) ↦ some (record d { mqueue = f }, handles c con)
  | some (message m, f) ↦ elim (remove_arrival m d.marrival) [
    | none ↦ none
    | some ms ↦
        some (record d { mqueue = f; marrival = ms }, if d.stop then discards m else dispatches m)
  ]
]

-- The removed items are let go one by one.
unfoldable pub release_all : List QueueItem → List ℕ → Option (List ℕ)
release_all [] ms = some ms
release_all (code c con ∷ xs) ms = none
release_all (message m ∷ xs) ms = elim (remove_arrival m ms) [
  | none ↦ none
  | some ms ↦ release_all xs ms
]

unfoldable pub discard_queue : ℕ → DispatchQueue → Option DispatchQueue
discard_queue id d =
    let (f, removed) = remove_by_class id d.mqueue in
    elim (release_all removed d.marrival) [
      | none ↦ none
      | some ms ↦ some (record d { mqueue = f; marrival = ms })
    ]
