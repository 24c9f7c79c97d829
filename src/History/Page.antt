-- ===== src/History/Page.antt =====
-- frontend/src/ui.ts: what the history page shows of its list and of the selected run.
use federated_iot_platform.Prelude.{
  Bool, true, false, not, ◌&&◌, List, [], ◌∷◌, ◌===◌, if◌then◌else◌, map, ◌≡◌, arith, eq_iff,
}
use federated_iot_platform.Js.{Value, null, get, truthy, strict_eq, upper_text}
use federated_iot_platform.History.{History, filtered_items, Gate, artifact_gate}

abbrev pub is_nil : List Value → Bool
is_nil [] = true
is_nil (v ∷ vs) = false

-- A row of the list: its run, whether it is the selected one, and the gate of its actions.
pub record Row : Type 0 where
  pub run : Value
  pub selected : Bool
  pub gate : Gate

-- `historyRow`: the artifacts are those of the selected run.
abbrev pub row_of : History → Value → Row
row_of h run =
    let selected = strict_eq h.selected_run_id (get "run_id" run) in
    record {
      run = run;
      selected = selected;
      gate = artifact_gate run (if selected then h.artifacts else null);
    }

-- The button that loads the next page: whether it is there, and whether it is enabled.
pub record More : Type 0 where
  pub shown : Bool
  pub enabled : Bool

-- `historyListContent`.
pub data ListContent : Type 0 where
  loading_text : ListContent
  error_text : Value → ListContent
  empty_text : ListContent
  filter_empty_text : ListContent
  rows : List Row → More → ListContent

unfoldable pub list_content : History → ListContent
list_content h =
    if h.loading && is_nil h.items
    then loading_text
    else if truthy h.error && is_nil h.items
    then error_text h.error
    else if is_nil h.items
    then empty_text
    else if is_nil (filtered_items h)
    then filter_empty_text
    else rows (map (row_of h) (filtered_items h))
        (record { shown = h.has_more; enabled = not h.loading })

-- What stands below the list: that the detail is loading, its error, the selected run, or nothing.
pub data DetailContent : Type 0 where
  detail_loading : DetailContent
  detail_error : Value → DetailContent
  detail_of : Value → Gate → DetailContent
  no_detail : DetailContent

unfoldable pub detail_content : History → DetailContent
detail_content h =
    if h.detail_loading
    then detail_loading
    else if truthy h.detail_error
    then detail_error h.detail_error
    else if strict_eq (get "run_id" h.detail) h.selected_run_id && truthy h.detail
    then detail_of h.detail (artifact_gate h.detail h.artifacts)
    else no_detail

-- Whether the list shows its error below what it has loaded.
abbrev pub shows_error_below : History → Bool
shows_error_below h = truthy h.error && not (is_nil h.items)

-- Every row whose actions are enabled is of a run that the filters match and that has completed.
abbrev pub AllCompleted : List Row → Type 0
AllCompleted [] = Unit
AllCompleted (r ∷ rs) =
    (r.gate.ready ≡ true → upper_text (get "status" r.run) ≡ "COMPLETED") × AllCompleted rs

ready-completed :
    (run artifacts : Value)
    → (artifact_gate run artifacts).ready ≡ true
    → upper_text (get "status" run) ≡ "COMPLETED"
unfolding artifact_gate
ready-completed run artifacts h =
    let completed : (upper_text (get "status" run) === "COMPLETED") ≡ true = ground arith in
    (eq_iff (upper_text (get "status" run)) "COMPLETED").0 completed

map-AllCompleted : (h : History) (runs : List Value) → AllCompleted (map (row_of h) runs)
map-AllCompleted h [] = tt
map-AllCompleted h (run ∷ runs) = (
  ready-completed run
      (if strict_eq h.selected_run_id (get "run_id" run) then h.artifacts else null),
  map-AllCompleted h runs,
)

abbrev pub rows_of : ListContent → List Row
rows_of (rows rs m) = rs
rows_of loading_text = []
rows_of (error_text e) = []
rows_of empty_text = []
rows_of filter_empty_text = []

either-AllCompleted :
    (b : Bool) (x y : ListContent)
    → AllCompleted (rows_of x)
    → AllCompleted (rows_of y)
    → AllCompleted (rows_of (if b then x else y))
either-AllCompleted true x y h k = h
either-AllCompleted false x y h k = k

-- In whatever the list shows, only a row of a completed run has its replay, export and manifest
-- enabled.
pub list_content-AllCompleted : (h : History) → AllCompleted (rows_of (list_content h))
unfolding list_content
list_content-AllCompleted h = either-AllCompleted (h.loading && is_nil h.items) _ _ tt (
    either-AllCompleted (truthy h.error && is_nil h.items) _ _ tt (
      either-AllCompleted (is_nil h.items) _ _ tt (
        either-AllCompleted (is_nil (filtered_items h)) _ _ tt
          (map-AllCompleted h (filtered_items h)))))
