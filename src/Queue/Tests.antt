-- ===== src/Queue/Tests.antt =====
-- frontend/src/ui.ts: a queue of two runs.
use federated_iot_platform.Prelude.{
  true, false, some, [], ◌∷◌, ◌++◌, All, filter, String, ◌≡◌, refl, find?, ◌===◌,
}
use federated_iot_platform.Prelude.Int.{pos}
use federated_iot_platform.Js.{
  number, Value, null, undefined, str, nat, bool, obj, arr, cons, nil, end, field, get, lookup,
  includes, upper, text, strict_eq,
}
use federated_iot_platform.Js.Objects.{spread, merge}
use federated_iot_platform.Queue.{
  Queue, empty_queue, has_run_id, synchronize_projection, drop_run, strict_cancellable,
  cancel_is_pending, run_is_cancellable, queue_waiting_count, synchronize_waiting_count,
}
use federated_iot_platform.Queue.Projection.{projection-active}
use mathlib.Core.List.{Perm}
use federated_iot_platform.Queue.Waiting.{queue_view, patched_view, is_queued}
use federated_iot_platform.Queue.Ordered.{HasPlace, IsInOrder, queue_view-waiting}
use federated_iot_platform.Queue.Patched.{patched_view-is_empty}
use federated_iot_platform.Queue.Counts.{synchronize_waiting_count-events}
use federated_iot_platform.Queue.Loading.{
  Answers, ok, err, cancel_queued, asked_run, try_cancel, finish_cancel,
}
use federated_iot_platform.Queue.Pending.{cancel_queued-pending, cancel_queued-called}

abbrev run_of : String → String → Value
run_of id status =
    obj
      (field "run_id" (str id) (field "status" (str status) (field "cancellable" (bool true) end)))

abbrev two_runs : Queue
two_runs = record {
  items = run_of "run_1" "RUNNING" ∷ run_of "run_2" "QUEUED" ∷ [];
  waiting_count = nat 1;
  loading = false;
  error = null;
  next_cursor = null;
  has_more = false;
  total = null;
  cancelling = [];
}

projection-active_example :
    (drop_run "run_2" (synchronize_projection (run_of "run_2" "RUNNING") two_runs).items
      ≡ drop_run "run_2" two_runs.items)
    × ((run : Value) × (find?
            (has_run_id "run_2")
            (synchronize_projection (run_of "run_2" "RUNNING") two_runs).items
          ≡ some run)
        × (get "status" run ≡ str "RUNNING")
        × (get "cancellable" run ≡ strict_cancellable (run_of "run_2" "RUNNING")))
unfolding get lookup includes upper
projection-active_example =
    projection-active "run_2" "RUNNING" (run_of "run_2" "RUNNING") two_runs refl refl refl refl refl

abbrev answers : Answers
answers = record {
  before = ok (run_of "run_2" "QUEUED");
  cancelled = ok null;
  after = ok (run_of "run_2" "CANCELLED");
  reload = err null;
  details = [];
}

none_pending : cancel_is_pending "run_2" two_runs ≡ false
unfolding cancel_is_pending includes
none_pending = refl

cancel_queued-pending_example :
    (cancel_is_pending "run_2"
        (cancel_queued "run_2" (run_of "run_2" "QUEUED") answers two_runs).queue
      ≡ false)
    × (("run_2" === "run_1") ≡ false
        → cancel_is_pending "run_1"
            (cancel_queued "run_2" (run_of "run_2" "QUEUED") answers two_runs).queue
          ≡ cancel_is_pending "run_1" two_runs)
cancel_queued-pending_example =
    cancel_queued-pending "run_2" "run_1" (run_of "run_2" "QUEUED") answers two_runs refl
      none_pending

called : (cancel_queued "run_2" (run_of "run_2" "QUEUED") answers two_runs).called ≡ true
unfolding cancel_queued try_cancel finish_cancel cancel_is_pending includes run_is_cancellable
    strict_eq get lookup spread merge text upper
called = refl

cancel_queued-called_example :
    (cancel_is_pending "run_2" two_runs ≡ false)
    × ((before : Value) × (answers.before ≡ ok before)
        × (run_is_cancellable (asked_run "run_2" (run_of "run_2" "QUEUED") before) ≡ true))
cancel_queued-called_example =
    cancel_queued-called "run_2" (run_of "run_2" "QUEUED") answers two_runs called

abbrev page : Value
page = obj (field "items" (arr (cons (run_of "run_3" "QUEUED") nil)) end)

-- An event that says that four runs wait.
abbrev counted : Value
counted = obj (field "data" (obj (field "queued_count" (nat 4) end)) end)

synchronize_waiting_count-events_example :
    (get "queued_count" (get "data" counted) ≡ nat 4
      → queue_waiting_count (synchronize_waiting_count ([] ++ counted ∷ []) two_runs) ≡ 4)
    × (get "queued_count" (get "data" counted) ≡ undefined
        → synchronize_waiting_count ([] ++ counted ∷ []) two_runs ≡ two_runs)
    × (queue_waiting_count (synchronize_waiting_count [] two_runs) ≡ 0)
synchronize_waiting_count-events_example = synchronize_waiting_count-events two_runs [] counted 4

abbrev third : Value
third = obj (
    field "run_id" (str "run_3")
      (field "status" (str "QUEUED") (field "queue_position" (nat 1) end)))

abbrev second : Value
second = obj (
    field "run_id" (str "run_2")
      (field "status" (str "queued") (field "queue_position" (nat 2) end)))

abbrev waiting_queue : Queue
waiting_queue = record two_runs { items = second ∷ run_of "run_1" "RUNNING" ∷ third ∷ [] }

waiting_queue-HasPlace : All HasPlace (filter is_queued waiting_queue.items)
unfolding get lookup text upper number
waiting_queue-HasPlace = ((pos 2, refl), ((pos 1, refl), tt))

queue_view-waiting_example :
    let shown = (queue_view waiting_queue null null).waiting in
    Perm shown (filter is_queued waiting_queue.items) × IsInOrder shown
queue_view-waiting_example = queue_view-waiting waiting_queue null null waiting_queue-HasPlace

abbrev three_wait : Value
three_wait = obj (field "data" (obj (field "queued_count" (nat 3) end)) end)

patched_view-is_empty_example :
    let q = synchronize_waiting_count (null ∷ three_wait ∷ []) empty_queue in
    let drawn = queue_view q null null in
    let patched = patched_view q null null in
    (drawn.is_empty ≡ false)
    × (patched.is_empty ≡ true)
    × (drawn.waiting_count ≡ 3)
    × (patched.waiting_count ≡ 3)
unfolding get lookup
patched_view-is_empty_example = patched_view-is_empty (null ∷ []) three_wait 2 null refl
