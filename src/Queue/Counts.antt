-- ===== src/Queue/Counts.antt =====
-- frontend/src/ui.ts: the waiting count that the store's notifications set.
use federated_iot_platform.Prelude.{ℕ, some, List, [], ◌∷◌, ◌++◌, ◌≡◌, refl, last?}
use federated_iot_platform.Js.{Value, undefined, nat, get, number}
use federated_iot_platform.Queue.{Queue, queue_waiting_count, synchronize_waiting_count}

pub last-append :
    (earlier : List Value) (event : Value) → last? (earlier ++ event ∷ []) ≡ some event
last-append [] event = refl
last-append (e ∷ []) event = refl
last-append (e ∷ f ∷ rest) event = last-append (f ∷ rest) event

-- The last event's count becomes the waiting count; where it carries none, the queue keeps its own.
-- But where the task has no events yet, the waiting count becomes zero, whatever the queue holds.
pub synchronize_waiting_count-events :
    (q : Queue) (earlier : List Value) (event : Value) (n : ℕ)
    → (get "queued_count" (get "data" event) ≡ nat n
        → queue_waiting_count (synchronize_waiting_count (earlier ++ event ∷ []) q) ≡ n)
      × (get "queued_count" (get "data" event) ≡ undefined
          → synchronize_waiting_count (earlier ++ event ∷ []) q ≡ q)
      × (queue_waiting_count (synchronize_waiting_count [] q) ≡ 0)
unfolding synchronize_waiting_count queue_waiting_count number
synchronize_waiting_count-events q earlier event n = (
  λ h. rw (synchronize_waiting_count, last-append earlier event, h) refl,
  λ h. rw (synchronize_waiting_count, last-append earlier event, h) refl,
  refl,
)
