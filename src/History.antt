-- ===== src/History.antt =====
-- frontend/src/ui.ts: the history page. A run in the list is the object that the API sent.
mod Tests
pub mod Page
pub mod Loading
pub mod Selection
pub mod Listed
pub mod Epochs
pub mod Shown
use federated_iot_platform.Prelude.{
  ℕ, zero, suc, ◌+◌, Bool, true, false, not, ◌&&◌, ◌||◌, Option, none, some, List, [], ◌∷◌, ◌++◌,
  String, ◌==◌, ◌===◌, if◌then◌else◌, length, filter, find_idx?, set, get_elem?, map, any, all,
}
use federated_iot_platform.Prelude.Int.{ℤ, pos, negsuc}
use federated_iot_platform.Js
use federated_iot_platform.Js.{
  Value, null, undefined, bool, nat, num, int, infinity, nan, str, get, text, text_or_empty,
  upper_text, upper, lower, trim, contains, number, finite?, truthy, items, is_array, strict_eq,
  includes, ◌or◌, Num, num_text,
}
use federated_iot_platform.Js.Objects.{spread, with_field}

pub record Replay : Type 0 where
  pub agent : ℕ
  pub loading : Bool
  pub error : Value
  pub points : Value
  pub results : Value
  pub alarms : Value

abbrev pub no_replay : Replay
no_replay = record {
  agent = 1;
  loading = false;
  error = null;
  points = null;
  results = null;
  alarms = null;
}

-- `points` of the replay is its `data`.
pub record History : Type 0 where
  pub items : List Value
  pub aggregate_metrics : Value
  pub loading : Bool
  pub error : Value
  pub query : String
  pub status : String
  pub mode : String
  pub next_cursor : Value
  pub has_more : Bool
  pub total : Value
  pub list_epoch : ℕ
  pub selection_epoch : ℕ
  pub selected_run_id : Value
  pub detail : Value
  pub detail_loading : Bool
  pub detail_error : Value
  pub deep_link_notice : Option String
  pub artifacts : Value
  pub replay : Replay

abbrev pub empty_history : History
empty_history = record {
  items = [];
  aggregate_metrics = Js.obj Js.end;
  loading = false;
  error = null;
  query = "";
  status = "";
  mode = "";
  next_cursor = null;
  has_more = false;
  total = null;
  list_epoch = 0;
  selection_epoch = 0;
  selected_run_id = null;
  detail = null;
  detail_loading = false;
  detail_error = null;
  deep_link_notice = none;
  artifacts = null;
  replay = no_replay;
}

abbrev pub terminal_statuses : List String
terminal_statuses = "COMPLETED" ∷ "FAILED" ∷ "FAILED_RECOVERABLE" ∷ "CANCELLED" ∷ []

unfoldable pub is_terminal_run : Value → Bool
is_terminal_run run = includes terminal_statuses (upper_text (get "status" run))

unfoldable pub history_total : History → Num
history_total h = elim (finite? (number h.total)) [
  | none ↦ int (pos (length (filter is_terminal_run h.items)))
  | some n ↦ int n
]

abbrev pub dataset_name : Value → Value
dataset_name run =
    get "display_name" (get "dataset" run) or (get "dataset_display_name" run or str "")

unfoldable pub matches : History → Value → Bool
matches h run =
    let query = lower (trim h.query) in
    let searched =
      lower (Js.◌++◌ (text_or_empty (get "run_id" run)) (Js.◌++◌ " " (text (dataset_name run)))) in
    (query === "" || contains searched query)
    && (upper h.status === "" || upper_text (get "status" run) === upper h.status)
    && (upper h.mode === "" || upper_text (get "run_mode" run or get "mode" run) === upper h.mode)

unfoldable pub filtered_items : History → List Value
filtered_items h = filter (matches h) (filter is_terminal_run h.items)

-- Which of the three notices an artifact gate gives.
pub data GateKey : Type 0 where
  complete terminal incomplete : GateKey

pub record Gate : Type 0 where
  pub ready : Bool
  pub key : GateKey
  pub required_count : Option ℕ

abbrev pub is_required : Value → Bool
is_required item = truthy (get "required" item)

abbrev pub is_text : Value → Bool
is_text (str s) = true
is_text undefined = false
is_text _ = false

-- `Number(v) >= 0`.
abbrev pub is_at_least_zero : Num → Bool
is_at_least_zero (int (pos n)) = true
is_at_least_zero (int (negsuc n)) = false
is_at_least_zero (infinity negative) = not negative
is_at_least_zero nan = false

unfoldable pub is_valid_artifact : Value → Bool
is_valid_artifact item =
    truthy (get "name" item)
    && is_text (get "sha256" item)
    && is_at_least_zero (number (get "size_bytes" item))

unfoldable pub artifact_gate : Value → Value → Gate
artifact_gate run artifacts =
    let completed = upper_text (get "status" run) === "COMPLETED" in
    let state = upper_text (get "artifact_state" artifacts or get "artifact_state" run) in
    let listed = is_array (get "items" artifacts) in
    let required = filter is_required (items (get "items" artifacts)) in
    let ready =
      completed && state === "COMMITTED" && (not listed || all is_valid_artifact required) in
    record {
      ready = ready;
      key = if ready then complete else if not completed then terminal else incomplete;
      required_count = if listed then some (length required) else none;
    }

unfoldable pub history_metric : Value → History → String
history_metric run h =
    let summary_metric = get "summary_metric" run in
    let metrics = get "metrics" (get "summary" run) in
    let candidate =
      get (text (get "run_id" run)) h.aggregate_metrics
      or (get "FusedRMSE" summary_metric
          or (get "fused_rmse" summary_metric
              or (get "FusedRMSE" metrics or (get "fused_rmse" metrics or null)))) in
    elim (finite? (number candidate)) [ none ↦ "—" | some n ↦ text candidate ]

unfoldable pub aggregate_fused_rmse : Value → Option ℤ
aggregate_fused_rmse summary =
    let metrics = get "metrics" summary or get "aggregate_metrics" summary in
    finite? (
      number (
        get "FusedRMSE" metrics
        or (get "fused_rmse" metrics
            or (get "fusedRmse" metrics
                or (get "RMSE" metrics or (get "FusedRMSE" summary or get "fused_rmse" summary))))))

unfoldable pub run_from_detail : Value → Value → Value
run_from_detail detail previous =
    with_field "artifact_state" (get "artifact_state" detail or get "artifact_state" previous) (
      with_field "parameter_version"
        (get "parameter_version" detail
          or (get "version_id" (get "parameter_snapshot" detail)
              or get "parameter_version" previous))
        (with_field "dataset"
          (get "dataset" detail or (get "dataset_snapshot" detail or get "dataset" previous))
          (spread previous detail)))

abbrev pub same_run : Value → Value → Bool
same_run a b = strict_eq (get "run_id" a) (get "run_id" b)

-- `upsertHistoryRun` on the list.
unfoldable pub upsert_items : Value → List Value → List Value
upsert_items detail runs = elim (find_idx? (λ run. same_run run detail) runs) [
  | none ↦ run_from_detail detail null ∷ runs
  | some i ↦ elim (get_elem? runs i) [
    | none ↦ runs
    | some previous ↦ set runs i (run_from_detail detail previous)
  ]
]

unfoldable pub upsert_run : Value → History → History
upsert_run detail h =
    if is_terminal_run detail then record h { items = upsert_items detail h.items } else h
