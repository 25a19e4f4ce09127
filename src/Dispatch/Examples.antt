-- ===== src/Dispatch/Examples.antt =====
-- The theorems of the dispatch queue at concrete queues.
use msg.Prelude.{◌≡◌, refl, arith, false, some, [], ◌∷◌}
use msg.Dispatch.{
  handles, deliver_next, code, message, FifoQueue, enqueue_strict, sub_remove, sub_removed,
  remove_by_class, DispatchQueue, queue_message, discard_queue, high_remove, high_removed,
  release_all, remove_arrival,
}
use msg.Dispatch.Order.{contents}
use msg.Dispatch.Arrivals.{Tracked, deliver_next-Tracked}
use msg.Dispatch.Queueing.{queue_message-Tracked}
use msg.Dispatch.Removal.{Parted, remove_by_class-Parted}
use msg.StdMap.{insert, lookup}

-- A reset before two messages of connection 7, one of them of low priority.
abbrev busy : FifoQueue
busy = record {
  high_queue = (255, (0, code 4 7) ∷ []) ∷ ((127, (7, message 1) ∷ []) ∷ []);
  queue = (7, message 2) ∷ [];
}

remove_by_class-Parted_example :
    Parted 7 (contents busy) (contents (remove_by_class 7 busy).0) (remove_by_class 7 busy).1
remove_by_class-Parted_example = remove_by_class-Parted 7 busy

abbrev resting : DispatchQueue
resting = record { mqueue = record { high_queue = []; queue = [] }; marrival = []; stop = false }

-- A message that is queued and whose connection is reset is gone, and its arrival with it.
discarded : discard_queue 7 (queue_message 1 127 7 resting) ≡ some resting
unfolding discard_queue queue_message enqueue_strict insert lookup remove_by_class high_remove
    high_removed sub_remove sub_removed release_all remove_arrival
discarded = refl

abbrev loaded : DispatchQueue
loaded = record { mqueue = busy; marrival = 2 ∷ (1 ∷ []); stop = false }

loaded-Tracked : Tracked loaded
loaded-Tracked = record {
  top = 256;
  sorted = (omega arith, (refl, (omega arith, (refl, tt))));
  arrived = (refl, (refl, (refl, (refl, tt))));
}

deliver_next-Tracked_example :
    (e : DispatchQueue) × (deliver_next loaded ≡ some (e, handles 4 7))
    × (contents e.mqueue ≡ (7, message 1) ∷ ((7, message 2) ∷ []))
    × Tracked e
deliver_next-Tracked_example =
    deliver_next-Tracked loaded 0 (code 4 7) ((7, message 1) ∷ ((7, message 2) ∷ [])) loaded-Tracked
      refl

queue_message-Tracked_example : Tracked (queue_message 3 196 8 loaded)
queue_message-Tracked_example = queue_message-Tracked 3 196 8 loaded refl loaded-Tracked
