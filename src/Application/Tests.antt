-- ===== src/Application/Tests.antt =====
-- frontend/src/ui.ts: a queued run that the store reports as completed.
use federated_iot_platform.Prelude.{true, false, [], ◌∷◌, ◌≡◌, refl, any}
use federated_iot_platform.Js.{Value, str, obj, end, field, get, lookup, text, upper, includes}
use federated_iot_platform.Queue.{has_run_id, empty_queue}
use federated_iot_platform.History.{empty_history, is_terminal_run}
use federated_iot_platform.Application.{Lists, on_notification}
use federated_iot_platform.Application.Notified.{on_notification-ended}

abbrev run_of : Value → Value
run_of status = obj (field "run_id" (str "run_1") (field "status" status end))

abbrev lists : Lists
lists = record {
  queue = record empty_queue { items = run_of (str "RUNNING") ∷ [] };
  history = empty_history;
}

on_notification-ended_example :
    let next = on_notification [] (run_of (str "COMPLETED")) lists in
    (any (has_run_id "run_1") next.queue.items ≡ false)
    × (any (has_run_id "run_1") next.history.items ≡ true)
unfolding get lookup is_terminal_run includes upper text
on_notification-ended_example =
    on_notification-ended [] (run_of (str "COMPLETED")) "run_1" lists refl refl refl
