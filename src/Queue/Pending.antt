-- ===== src/Queue/Pending.antt =====
-- frontend/src/ui.ts: what `loadQueue` and `cancelQueuedSimulation` leave behind.
use federated_iot_platform.Prelude.{
  suc, ◌≡◌, refl, true, false, not, ◌||◌, List, [], ◌∷◌, ◌++◌, String, ◌===◌, if◌then◌else◌, length,
  filter, arith, eq_iff, eq_refl, Bool-cases, inl, inr, ap, ◌∙◌,
}
use federated_iot_platform.Js.{Value, includes, is_record, is_array, number}
use federated_iot_platform.Queue.{
  Queue, run_is_cancellable, cancel_is_pending, reconcile_items, waiting_items, queue_waiting_count,
}
use federated_iot_platform.Queue.Loading.{
  Answers, ok, begin_load, finish_load, fail_load, add_pending, end_pending, update_cancelled,
  reload_queue, finish_cancel, try_cancel, cancel_queued, asked_run,
}

-- The number shown for a loaded queue is that of the queued runs in its list.
finish_load-count :
    (response : Value) (details : List Value) (q : Queue)
    → queue_waiting_count (finish_load response details q)
      ≡ waiting_items (finish_load response details q).items
unfolding finish_load queue_waiting_count number
finish_load-count response details q = refl

length-reconcile_items :
    (runs details : List Value) → length (reconcile_items runs details) ≡ length runs
unfolding reconcile_items
length-reconcile_items [] ds = refl
length-reconcile_items (r ∷ rs) [] = ap suc (length-reconcile_items rs [])
length-reconcile_items (r ∷ rs) (d ∷ ds) = ap suc (length-reconcile_items rs ds)

-- Adding a pending cancellation and ending it.
includes-end_pending :
    (id other : String) (ids : List String)
    → includes (filter (λ o. not (o === id)) ids) other
      ≡ (if id === other then false else includes ids other)
unfolding includes
includes-end_pending id other [] = ground arith
includes-end_pending id other (i ∷ ids) =
    ground (arith, includes-end_pending id other ids, eq_iff i id, eq_iff i other, eq_iff id other)

includes-append :
    (id other : String) (ids : List String)
    → includes (ids ++ id ∷ []) other ≡ (includes ids other || id === other)
unfolding includes
includes-append id other [] = ground arith
includes-append id other (i ∷ ids) = ground (arith, includes-append id other ids)

add_pending-other :
    (id other : String) (q : Queue)
    → (id === other) ≡ false
    → includes (add_pending id q).cancelling other ≡ includes q.cancelling other
unfolding add_pending
add_pending-other id other q h = ground (arith, includes-append id other q.cancelling)

reload_queue-cancelling : (a : Answers) (q : Queue) → (reload_queue a q).cancelling ≡ q.cancelling
unfolding reload_queue begin_load finish_load fail_load
reload_queue-cancelling a q = ground arith

update_cancelled-cancelling :
    (id : String) (after : Value) (q : Queue)
    → (update_cancelled id after q).cancelling ≡ q.cancelling
unfolding update_cancelled
update_cancelled-cancelling id after q = elim (Bool-cases (is_record after || is_array after)) [
  | inl e ↦ rw e
  | inr e ↦ rw e
]

finish_cancel-cancelling :
    (id : String) (a : Answers) (q : Queue) → (finish_cancel id a q).queue.cancelling ≡ q.cancelling
unfolding finish_cancel
finish_cancel-cancelling id a q =
    grind (arith, reload_queue-cancelling, update_cancelled-cancelling)

try_cancel-cancelling :
    (id : String) (item : Value) (a : Answers) (q : Queue)
    → (try_cancel id item a q).queue.cancelling ≡ q.cancelling
unfolding try_cancel
try_cancel-cancelling id item a q = ground (arith, finish_cancel-cancelling id a q)

-- However a cancellation that was not pending ends, its run is not pending any more, and the pending cancellations of
-- other runs stay as they were.
pub cancel_queued-pending :
    (id other : String) (item : Value) (a : Answers) (q : Queue)
    → (id === "") ≡ false
    → cancel_is_pending id q ≡ false
    → (cancel_is_pending id (cancel_queued id item a q).queue ≡ false)
      × ((id === other) ≡ false
          → cancel_is_pending other (cancel_queued id item a q).queue ≡ cancel_is_pending other q)
unfolding cancel_queued cancel_is_pending end_pending
cancel_queued-pending id other item a q e p =
    rw (e, p, try_cancel-cancelling id item a (add_pending id q))
      (
        includes-end_pending id id (add_pending id q).cancelling ∙ rw (eq_refl id),
        λ h.
            includes-end_pending id other (add_pending id q).cancelling
            ∙ (rw h (add_pending-other id other q h)),
      )

-- The cancellation is sent only for a run that the API or the list calls cancellable and that is
-- not being cancelled, and never while one for the same run is pending.
pub cancel_queued-called :
    (id : String) (item : Value) (a : Answers) (q : Queue)
    → (cancel_queued id item a q).called ≡ true
    → (cancel_is_pending id q ≡ false)
      × ((before : Value) × (a.before ≡ ok before)
          × (run_is_cancellable (asked_run id item before) ≡ true))
unfolding cancel_queued try_cancel
cancel_queued-called id item a q h = ground arith
