-- ===== src/Store/Loaded.antt =====
-- frontend/src/state/simulation-store.ts: what `refresh` does with the answers that it awaited.
use federated_iot_platform.Prelude.{
  ℕ, Bool, false, not, ◌&&◌, none, some, String, ◌==◌, if◌then◌else◌,
}
use federated_iot_platform.Js.{Value, null, undefined, nat, str, get, truthy, strict_eq}
use federated_iot_platform.Js.Objects.{with_field}
use federated_iot_platform.Store.{Resource, State, Refresh, Store, emit, is_run, connect}
use federated_iot_platform.Store.Events.{monotonic_event_id}

-- How a request ends; an abort is the error with the name "AbortError".
pub data Failure : Type 0 where
  aborted : Failure
  failure : Value → Failure

pub data Response : Type 0 where
  fulfilled : Value → Response
  rejected : Value → Response

abbrev pub value_of : Response → Value
value_of (fulfilled v) = v
value_of (rejected e) = null

abbrev pub error_of : Response → Value
error_of (fulfilled v) = null
error_of (rejected e) = e

pub record Parts : Type 0 where
  pub summary : Response
  pub results : Response
  pub alarms : Response
  pub artifacts : Response

-- What a run that has not completed shows.
abbrev pub no_parts : Parts
no_parts = record {
  summary = fulfilled null;
  results = fulfilled null;
  alarms = fulfilled null;
  artifacts = fulfilled null;
}

-- The texts of the errors that the code itself throws.
abbrev pub selection_mismatch : Value
selection_mismatch = str "Summary selection does not match the selected Agent."

abbrev pub null_controller : Value
null_controller = str "TypeError: requestController is null"

abbrev pub null_detail : Value
null_detail = str "TypeError: detail is null"

unfoldable pub is_current : Refresh → State → Bool
is_current r t = is_run t.run_id r.run_id && r.agent == t.selected_agent

-- The `catch` block of `refresh`.
unfoldable pub fail_refresh : Refresh → Failure → Store → Store
fail_refresh r aborted s = s
fail_refresh r (failure error) s =
    if is_current r s.state
    then emit (record s.state { loading = false; error = error }) "simulation-refresh" s
    else s

abbrev loaded_resource : Response → String → Resource
loaded_resource response run_id = record {
  value = value_of response;
  run_id = if truthy (value_of response) then some run_id else none;
  error = error_of response;
}

unfoldable pub refreshed : Refresh → Value → Parts → State → State
refreshed r detail parts t =
    let last_event_id = monotonic_event_id t.last_event_id (get "latest_event_id" detail) in
    record t {
      detail =
          if strict_eq last_event_id null
          then detail
          else with_field "latest_event_id" last_event_id detail;
      summary = value_of parts.summary;
      summary_run_id = if truthy (value_of parts.summary) then some r.run_id else none;
      results = loaded_resource parts.results r.run_id;
      alarms = loaded_resource parts.alarms r.run_id;
      artifacts = loaded_resource parts.artifacts r.run_id;
      loading = false;
      error = error_of parts.summary;
      last_event_id = last_event_id;
    }

abbrev pub selected_by : Value → Value
selected_by summary = get "agent" (get "selection" summary)

-- The summary declares another agent than the selected one.
unfoldable pub mismatched : Value → ℕ → Bool
mismatched summary agent =
    not (strict_eq (selected_by summary) undefined)
    && not (strict_eq (selected_by summary) (nat agent))

-- The rest of the `try` block, once all parts have answered.
unfoldable pub apply_refresh : Refresh → Value → Parts → Store → Store
apply_refresh r detail parts s =
    if not (is_current r s.state)
    then s
    else if mismatched (value_of parts.summary) r.agent
    then fail_refresh r (failure selection_mismatch) s
    else emit (refreshed r detail parts s.state) "simulation-refresh" s

-- A `refresh` that returns is followed by `connect` where its caller waits to connect.
abbrev pub ended : Refresh → Store → Store
ended r s = if r.connects then connect s else s
