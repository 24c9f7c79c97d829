-- ===== src/History/Tests.antt =====
-- frontend/src/ui.ts: a history of two completed runs.
use federated_iot_platform.Prelude.{suc, true, false, some, [], ◌∷◌, String, ◌≡◌, refl}
use federated_iot_platform.Js.{
  Value, null, str, obj, arr, cons, nil, end, field, get, lookup, includes, upper, text, strict_eq,
  list_of, items,
}
use federated_iot_platform.Queue.{page_items}
use federated_iot_platform.History.{History, empty_history, is_terminal_run}
use federated_iot_platform.History.Loading.{
  Load, begin_load, loaded_items, finish_load, update_filters,
}
use federated_iot_platform.History.Listed.{distinct}
use federated_iot_platform.History.Epochs.{filters_before_finish}
use federated_iot_platform.History.Selection.{
  Task, Selecting, ReplayLoad, Settled, begin_select, after_store, finish_select, fail_select,
  answer_replay, dropped,
}
use federated_iot_platform.History.Shown.{
  selects, select_ends, moves, is_committed, moves-empty_history-committed, select-last_wins, Move,
  move, select_fails, filters_set,
}

abbrev run_of : String → Value
run_of id = obj (field "run_id" (str id) (field "status" (str "COMPLETED") end))

abbrev page : Value
page = obj (field "items" (arr (cons (run_of "run_1") (cons (run_of "run_2") nil))) end)

-- A history with one run, and one with that run and another.
abbrev one_run : History
one_run = record empty_history { items = run_of "run_1" ∷ []; list_epoch = 1 }

abbrev two_runs : History
two_runs = record empty_history { items = run_of "run_1" ∷ run_of "run_2" ∷ [] }

abbrev more : Load
more = record { epoch = 1; appends = true; prior = run_of "run_1" ∷ []; prior_metrics = null }

prior_distinct : distinct more.prior ≡ true
prior_distinct = refl

page-distinct : distinct (page_items page) ≡ true
unfolding get lookup strict_eq list_of items
page-distinct = refl

filters_before_finish_example :
    (now : History) × (next : Load) × (begin_load true false (update_filters "pump" "" "" one_run)
      ≡ some (now, next))
    × (let late = finish_load more page [] now in
        (late.items ≡ loaded_items more page)
        × (late.query ≡ "pump")
        × (late.status ≡ "")
        × (late.mode ≡ "")
        × (late.loading ≡ false)
        × (late.list_epoch ≡ suc (suc one_run.list_epoch)))
filters_before_finish_example = filters_before_finish more page [] one_run "pump" "" "" refl

abbrev first_load : Load
first_load = record { epoch = 1; appends = false; prior = []; prior_metrics = obj end }

abbrev loading : History
loading = record empty_history { list_epoch = 1; loading = true }

first_begins : begin_load true false empty_history ≡ some (loading, first_load)
unfolding begin_load
first_begins = refl

abbrev artifacts : Value
artifacts = obj (field "artifact_state" (str "COMMITTED") (field "items" (arr nil) end))

abbrev task : Task
task = record {
  run_id = str "run_1";
  detail = run_of "run_1";
  error = null;
  artifacts = artifacts;
  artifacts_run_id = str "run_1";
  artifacts_error = null;
  summary_run_id = str "run_1";
  results_run_id = str "run_1";
  results_error = null;
}

abbrev selecting : Selecting
selecting = record { run_id = "run_1"; epoch = 1 }

abbrev first_selected : History
first_selected = record two_runs {
  selection_epoch = 1;
  selected_run_id = str "run_1";
  detail_loading = true;
}

abbrev second_selected : History
second_selected = record two_runs {
  selection_epoch = 2;
  selected_run_id = str "run_2";
  detail_loading = true;
}

moves-empty_history-committed_example :
    is_committed (
      moves
        (selects "run_1" ∷ select_ends selecting (run_of "run_1") artifacts task ∷ [])
        empty_history)
    ≡ true
moves-empty_history-committed_example =
    moves-empty_history-committed
      (selects "run_1" ∷ select_ends selecting (run_of "run_1") artifacts task ∷ [])

first_begun : begin_select "run_1" two_runs ≡ some (first_selected, selecting)
unfolding begin_select is_terminal_run get lookup includes upper text strict_eq
first_begun = refl

abbrev failed_first : Move
failed_first = select_fails selecting (str "RESULT_NOT_READY")

second_begun :
    begin_select "run_2" (moves (failed_first ∷ []) first_selected)
    ≡ some (second_selected, record { run_id = "run_2"; epoch = 2 })
unfolding moves move fail_select begin_select is_terminal_run get lookup includes upper text
    strict_eq
second_begun = refl

select-last_wins_example :
    let now = moves (filters_set "pump" "" "" ∷ []) second_selected in
    ((task : Task) → after_store selecting task now ≡ dropped)
    × ((detail artifacts : Value) (task : Task)
        → finish_select selecting detail artifacts task now ≡ now)
    × ((error : Value) → fail_select selecting error now ≡ now)
    × ((l : ReplayLoad) (x y z : Settled)
        → l.epoch ≡ selecting.epoch
        → answer_replay l x y z now ≡ now)
select-last_wins_example =
    select-last_wins "run_1" "run_2" two_runs first_selected second_selected selecting
      (record { run_id = "run_2"; epoch = 2 }) (failed_first ∷ []) (filters_set "pump" "" "" ∷ [])
      first_begun second_begun
