-- ===== src/Dataset/Tests.antt =====
-- frontend/src/ui.ts: a dataset that is uploaded and validated.
use federated_iot_platform.Prelude.{true, false, [], ◌∷◌, String, ◌≡◌, refl}
use federated_iot_platform.Js.{
  Value, str, nat, obj, arr, cons, nil, end, field, get, lookup, truthy, text, includes, upper,
  strict_eq, items, items_of, list_of, integer_text,
}
use federated_iot_platform.Contract.{validate_agent_collection, sort, insert_sorted, same_from}
use federated_iot_platform.Poller
use federated_iot_platform.Poller.{start}
use federated_iot_platform.Poller.Invariant.{Inv, run-start-Inv}
use federated_iot_platform.Dataset.{begin_upload, timer_fires}
use federated_iot_platform.Dataset.Alone.{run-begin_upload}
use federated_iot_platform.Js.{null}
use federated_iot_platform.Prelude.{none}
use federated_iot_platform.Poller.{needs_polling, loaded}
use federated_iot_platform.Dataset.{nothing_shown, uploads, opens, answers, poll_settles, run}
use federated_iot_platform.Dataset.Watched.{WatchesShown, run-nothing_shown-WatchesShown}
use federated_iot_platform.Dataset.Preflight.{
  preflight_presentation, can_create, valid, agent_numbers, can_create-settled,
}

abbrev validating : Value
validating = obj (field "dataset_id" (str "ds_1") (field "status" (str "VALIDATING") end))

abbrev validated : Value
validated = obj (field "dataset_id" (str "ds_1") (field "status" (str "VALID") end))

abbrev agent : String → Value → Value
agent key n = obj (field key n end)

abbrev profile : Value
profile = obj (
    field "version_id" (str "v1") (
      field "load_mapping" (obj (field "mapping_type" (str "identity") end)) (
        field "agents"
          (arr (
            cons (agent "agent" (nat 1))
              (cons (agent "agent" (nat 2)) (cons (agent "agent" (nat 3)) nil))))
          end)))

run-nothing_shown-WatchesShown_example : WatchesShown (
    run
      (uploads "a.csv" ∷ answers 1 validating ∷ poll_settles 0 (loaded validated) ∷ opens ∷ [])
      nothing_shown)
run-nothing_shown-WatchesShown_example =
    run-nothing_shown-WatchesShown
      (uploads "a.csv" ∷ answers 1 validating ∷ poll_settles 0 (loaded validated) ∷ opens ∷ [])

is_polled : needs_polling validating ≡ true
unfolding needs_polling get lookup text includes upper
is_polled = refl

creatable : can_create validated profile ≡ true
unfolding can_create validate_agent_collection items list_of items_of same_from sort insert_sorted
    text integer_text strict_eq get lookup
creatable = refl

can_create-settled_example :
    ((preflight_presentation validated).key ≡ valid)
    × ((preflight_presentation validated).complete ≡ true)
    × (needs_polling validated ≡ false)
    × (truthy (get "version_id" profile) ≡ true)
    × (validate_agent_collection (agent_numbers profile) ≡ true)
can_create-settled_example = can_create-settled validated profile creatable

start_fits : Inv start
unfolding Poller.run
start_fits = run-start-Inv []

-- An upload, during which an older request and the timer end.
run-begin_upload_example :
    ((run (answers 0 validating ∷ timer_fires ∷ []) (begin_upload "a.csv" nothing_shown)).dataset
      ≡ null)
    × ((run
          (answers 0 validating ∷ timer_fires ∷ [])
          (begin_upload "a.csv" nothing_shown)).poller.poller.dataset_id
        ≡ none)
run-begin_upload_example =
    run-begin_upload (answers 0 validating ∷ timer_fires ∷ []) "a.csv" nothing_shown start_fits
      (refl, (tt, tt))
