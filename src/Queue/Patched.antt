-- ===== src/Queue/Patched.antt =====
-- frontend/src/ui.ts: what the patch of the queue page says of waiting runs that are not loaded.
use federated_iot_platform.Prelude.{
  ℕ, suc, true, false, List, [], ◌∷◌, ◌++◌, ◌==◌, ◌≡◌, refl, arith,
}
use federated_iot_platform.Js.{Value, null, nat, get, number}
use federated_iot_platform.Queue.{
  empty_queue, queue_waiting_count, queue_active_run, synchronize_waiting_count,
}
use federated_iot_platform.Queue.Counts.{last-append}
use federated_iot_platform.Queue.Waiting.{queue_view, patched_view, waiting_runs, sort_waiting}

synchronize_waiting_count-empty :
    (earlier : List Value) (event : Value) (n : ℕ)
    → get "queued_count" (get "data" event) ≡ nat n
    → synchronize_waiting_count (earlier ++ event ∷ []) empty_queue
      ≡ record empty_queue { waiting_count = nat n }
unfolding synchronize_waiting_count number
synchronize_waiting_count-empty earlier event n h =
    rw (synchronize_waiting_count, last-append earlier event, h) refl

-- Where an event says that runs wait before the queue is loaded, the page that is drawn whole does not
-- call the queue empty, and the page that is patched does, although both count the waiting runs.
pub patched_view-is_empty :
    (earlier : List Value) (event : Value) (n : ℕ) (task_run_id : Value)
    → get "queued_count" (get "data" event) ≡ nat (suc n)
    → let q = synchronize_waiting_count (earlier ++ event ∷ []) empty_queue in
      let drawn = queue_view q null task_run_id in
      let patched = patched_view q null task_run_id in
      (drawn.is_empty ≡ false)
      × (patched.is_empty ≡ true)
      × (drawn.waiting_count ≡ suc n)
      × (patched.waiting_count ≡ suc n)
unfolding queue_waiting_count number queue_view patched_view waiting_runs sort_waiting
    queue_active_run get
patched_view-is_empty earlier event n task_run_id h =
    let some_wait : (suc n == 0) ≡ false = ground arith in
    rw (synchronize_waiting_count-empty earlier event (suc n) h) (some_wait, refl, refl, refl)
