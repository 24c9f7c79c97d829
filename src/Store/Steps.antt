-- ===== src/Store/Steps.antt =====
-- frontend/src/state/simulation-store.ts: what the store does with answers, with the events of its
-- streams and with its timers, and the steps that all this makes.
use federated_iot_platform.Prelude.{
  ℕ, suc, Bool, true, false, not, ◌||◌, Option, none, some, List, [], ◌∷◌, ◌++◌, String, ◌==◌,
  if◌then◌else◌, take_last, get_elem?,
}
use federated_iot_platform.Js.{
  Value, null, str, obj, end, field, get, truthy, strict_eq, is_nullish, ◌or◌,
}
use federated_iot_platform.Poller.{remove_at}
use federated_iot_platform.Contract.{is_terminal_status}
use federated_iot_platform.Store.{
  Store, State, Refresh, Stage, at_detail, at_parts, Timer, connected, disconnected, emit,
  begin_refresh, select_run, select_agent, close, is_run,
}
use federated_iot_platform.Store.Loaded.{
  Parts, no_parts, Failure, aborted, failure, fail_refresh, apply_refresh, ended, null_controller,
  null_detail,
}
use federated_iot_platform.Store.Events.{is_newer_event_id, project_sse_event}

-- The answers that a `refresh` awaits.
pub data Answer : Type 0 where
  detail_answer : Value → Answer
  parts_answer : Parts → Answer
  failed_answer : Failure → Answer

-- Reading the status of no detail throws. Only a completed run has parts to load, and loading them reads the controller's signal.
unfoldable pub answer_detail : Refresh → Value → Store → Store
answer_detail r detail s =
    if is_nullish detail
    then ended r (fail_refresh r (failure null_detail) s)
    else if strict_eq (get "status" detail) (str "COMPLETED")
    then elim s.request_controller [
      | none ↦ ended r (fail_refresh r (failure null_controller) s)
      | some c ↦ record s { refreshes = record r { stage = at_parts detail } ∷ s.refreshes }
    ]
    else ended r (apply_refresh r detail no_parts s)

-- An answer of the wrong kind does not occur, and changes nothing.
unfoldable pub answer : Refresh → Stage → Answer → Store → Store
answer r at_detail (detail_answer detail) s = answer_detail r detail s
answer r at_detail (failed_answer f) s = ended r (fail_refresh r f s)
answer r at_detail (parts_answer parts) s = s
answer r (at_parts detail) (parts_answer parts) s = ended r (apply_refresh r detail parts s)
answer r (at_parts detail) (failed_answer f) s = ended r (fail_refresh r f s)
answer r (at_parts detail) (detail_answer other) s = s

unfoldable pub on_open : String → Store → Store
on_open run_id s =
    if is_run s.state.run_id run_id
    then emit (record s.state { connection = connected }) "sse" s
    else s

abbrev pub event_record : Value → Value
event_record event = obj (
    field "id" (get "id" event or null) (
      field "type" (get "type" event or str "message")
        (field "data" (get "data" event or obj end) end)))

abbrev pub max_events : ℕ
max_events = 100

unfoldable pub with_event : String → Value → State → State
with_event run_id event t = record t {
  detail = project_sse_event t.detail run_id event;
  last_event_id = get "id" event or t.last_event_id;
  events = take_last max_events (t.events ++ event_record event ∷ []);
  connection = connected;
}

unfoldable pub on_event : String → Value → Store → Store
on_event run_id event s =
    if not (is_run s.state.run_id run_id)
    then s
    else if strict_eq (get "type" event) (str "stream.reset")
    then begin_refresh false (emit (record s.state { connection = connected }) "sse" s)
    else if not (is_newer_event_id s.state.last_event_id (get "id" event))
    then s
    else let status = get "status" (get "data" event) in
      let noted = emit (with_event run_id event s.state) "sse" s in
      if truthy status || is_terminal_status status then begin_refresh false noted else noted

unfoldable pub on_disconnect : String → Store → Store
on_disconnect run_id s =
    if not (is_run s.state.run_id run_id)
    then s
    else let told = emit (record s.state { connection = disconnected }) "sse" s in
      record told {
        reconnect_timer = some s.fresh;
        timers = record { id = s.fresh; run_id = run_id } ∷ s.timers;
        fresh = suc s.fresh;
      }

unfoldable pub reconnect : Timer → Store → Store
reconnect timer s = if is_run s.state.run_id timer.run_id then begin_refresh true s else s

-- `refreshReadiness()` up to its `await`; `has_readiness` says whether the API has `getReadiness`.
unfoldable pub refresh_readiness : Bool → Store → Store
refresh_readiness has_readiness s =
    if s.state.readiness_loading
    then s
    else if not has_readiness
    then emit
        (record s.state {
          readiness = null;
          readiness_loading = false;
          readiness_error = str "Readiness endpoint is unavailable.";
        })
        "readiness" s
    else let told =
        emit (record s.state { readiness = null; readiness_loading = true; readiness_error = null })
          "readiness" s in
      record told {
        readiness_controller = some s.fresh;
        fresh = suc s.fresh;
        readiness_requests = s.fresh ∷ s.readiness_requests;
      }

unfoldable pub start_readiness : Bool → Store → Store
start_readiness has_readiness s =
    if s.readiness_timer
    then s
    else record (refresh_readiness has_readiness s) { readiness_timer = true }

pub data ReadinessAnswer : Type 0 where
  ready : Value → ReadinessAnswer
  not_ready : Failure → ReadinessAnswer

abbrev pub holds : Option ℕ → ℕ → Bool
holds none c = false
holds (some d) c = d == c

unfoldable pub answer_readiness : ℕ → ReadinessAnswer → Store → Store
answer_readiness c (ready v) s =
    if holds s.readiness_controller c
    then record (emit
        (record s.state { readiness = v; readiness_loading = false; readiness_error = null })
        "readiness" s) { readiness_controller = none }
    else s
answer_readiness c (not_ready aborted) s = s
answer_readiness c (not_ready (failure e)) s =
    if holds s.readiness_controller c
    then record (emit
        (record s.state { readiness = null; readiness_loading = false; readiness_error = e })
        "readiness" s) { readiness_controller = none }
    else s

-- Calls of the methods, answers to requests in flight, and what the streams and timers bring. A
-- stream's handlers know the run that it was opened for.
pub data Event : Type 0 where
  selects : String → Event
  selects_agent : ℕ → Event
  asks_refresh : Event
  closes : Event
  answers : ℕ → Answer → Event
  opens : String → Event
  delivers : String → Value → Event
  drops : String → Event
  reconnects : ℕ → Event
  starts_readiness : Bool → Event
  asks_readiness : Bool → Event
  answers_readiness : ℕ → ReadinessAnswer → Event

unfoldable pub step : Event → Store → Store
step (selects run_id) s = select_run run_id s
step (selects_agent agent) s = select_agent agent s
step asks_refresh s = begin_refresh false s
step closes s = close s
step (answers i a) s = elim (get_elem? s.refreshes i) [
  | none ↦ s
  | some r ↦ answer r r.stage a (record s { refreshes = remove_at i s.refreshes })
]
step (opens run_id) s = on_open run_id s
step (delivers run_id event) s = on_event run_id event s
step (drops run_id) s = on_disconnect run_id s
step (reconnects i) s = elim (get_elem? s.timers i) [
  | none ↦ s
  | some t ↦ reconnect t (record s { timers = remove_at i s.timers })
]
step (starts_readiness has_readiness) s = start_readiness has_readiness s
step (asks_readiness has_readiness) s = refresh_readiness has_readiness s
step (answers_readiness i a) s = elim (get_elem? s.readiness_requests i) [
  | none ↦ s
  | some c ↦
      answer_readiness c a (record s { readiness_requests = remove_at i s.readiness_requests })
]

unfoldable pub run : List Event → Store → Store
run [] s = s
run (e ∷ es) s = run es (step e s)
