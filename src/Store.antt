-- ===== src/Store.antt =====
-- frontend/src/state/simulation-store.ts: the class `SimulationStore`.
-- An asynchronous method is split where it awaits. `Store` holds the object and what the platform
-- holds for it: the requests in flight with what their method captured, and the event streams that
-- are open. `notified` lists the sources of the notifications that went to the listeners.
mod Tests
pub mod Events
pub mod Loaded
pub mod Steps
pub mod Invariant
pub mod Order
use federated_iot_platform.Prelude.{
  ℕ, suc, ◌+◌, Bool, true, false, not, ◌&&◌, ◌||◌, Option, none, some, List, [], ◌∷◌, ◌++◌, String,
  ◌==◌, ◌===◌, if◌then◌else◌, take_last, filter, get_elem?,
}
use federated_iot_platform.Js.{
  Value, null, undefined, nat, str, obj, end, field, get, truthy, is_nullish, strict_eq, includes,
  text, ◌or◌,
}
use federated_iot_platform.Js.Objects.{with_field}
use federated_iot_platform.Contract.{is_terminal_status}
use Events.{monotonic_event_id, is_newer_event_id, project_sse_event}

pub data Connection : Type 0 where
  idle connecting connected disconnected : Connection

-- One of the resources of a run: its value, the run that it was loaded for, and its error.
pub record Resource : Type 0 where
  pub value : Value
  pub run_id : Option String
  pub error : Value

abbrev pub no_resource : Resource
no_resource = record { value = null; run_id = none; error = null }

-- The error of the summary is the `error` of the state.
pub record State : Type 0 where
  pub run_id : Option String
  pub detail : Value
  pub summary : Value
  pub summary_run_id : Option String
  pub results : Resource
  pub alarms : Resource
  pub artifacts : Resource
  pub selected_agent : ℕ
  pub readiness : Value
  pub readiness_loading : Bool
  pub readiness_error : Value
  pub last_event_id : Value
  pub events : List Value
  pub connection : Connection
  pub loading : Bool
  pub error : Value

-- Where a `refresh` awaits: its first request, or the four requests of a completed run.
pub data Stage : Type 0 where
  at_detail : Stage
  at_parts : Value → Stage

-- A `refresh` that has not ended, and whether `connect` follows it.
pub record Refresh : Type 0 where
  pub run_id : String
  pub agent : ℕ
  pub stage : Stage
  pub connects : Bool

pub record Stream : Type 0 where
  pub id : ℕ
  pub run_id : String

-- A reconnect timer that has not fired, with the run that its callback captured.
pub record Timer : Type 0 where
  pub id : ℕ
  pub run_id : String

pub record Store : Type 0 where
  pub state : State
  pub subscription : Option ℕ
  pub request_controller : Option ℕ
  pub readiness_controller : Option ℕ
  pub readiness_timer : Bool
  pub reconnect_timer : Option ℕ
  pub fresh : ℕ
  pub refreshes : List Refresh
  pub readiness_requests : List ℕ
  pub streams : List Stream
  pub timers : List Timer
  pub notified : List String

unfoldable pub initial_state : State
initial_state = record {
  run_id = none;
  detail = null;
  summary = null;
  summary_run_id = none;
  results = no_resource;
  alarms = no_resource;
  artifacts = no_resource;
  selected_agent = 1;
  readiness = null;
  readiness_loading = false;
  readiness_error = null;
  last_event_id = null;
  events = [];
  connection = idle;
  loading = false;
  error = null;
}

unfoldable pub new_store : Store
new_store = record {
  state = initial_state;
  subscription = none;
  request_controller = none;
  readiness_controller = none;
  readiness_timer = false;
  reconnect_timer = none;
  fresh = 0;
  refreshes = [];
  readiness_requests = [];
  streams = [];
  timers = [];
  notified = [];
}

unfoldable pub emit : State → String → Store → Store
emit next source s = record s { state = next; notified = source ∷ s.notified }

abbrev pub close_stream : Option ℕ → List Stream → List Stream
close_stream none streams = streams
close_stream (some id) streams = filter (λ (t : Stream). not (t.id == id)) streams

abbrev pub clear_timer : Option ℕ → List Timer → List Timer
clear_timer none timers = timers
clear_timer (some id) timers = filter (λ (t : Timer). not (t.id == id)) timers

-- Aborting a request leaves it in flight: it still ends, with an abort or with its answer.
unfoldable pub close_run_subscription : Store → Store
close_run_subscription s = record s {
  streams = close_stream s.subscription s.streams;
  timers = clear_timer s.reconnect_timer s.timers;
  subscription = none;
  request_controller = none;
  reconnect_timer = none;
}

unfoldable pub close : Store → Store
close s = record (close_run_subscription s) { readiness_controller = none; readiness_timer = false }

-- `runId` where it is truthy.
abbrev pub truthy_id : Option String → Option String
truthy_id none = none
truthy_id (some id) = if id === "" then none else some id

abbrev pub is_run : Option String → String → Bool
is_run none id = false
is_run (some other) id = other === id

-- `refresh()` up to its first `await`.
unfoldable pub begin_refresh : Bool → Store → Store
begin_refresh connects s = elim (truthy_id s.state.run_id) [
  | none ↦ s
  | some id ↦ record s {
    request_controller = some s.fresh;
    fresh = suc s.fresh;
    refreshes =
        record {
          run_id = id;
          agent = s.state.selected_agent;
          stage = at_detail;
          connects = connects;
        }
        ∷ s.refreshes;
  }
]

unfoldable pub connect : Store → Store
connect s = elim (truthy_id s.state.run_id) [
  | none ↦ s
  | some id ↦ record s {
    subscription = some s.fresh;
    fresh = suc s.fresh;
    streams = record { id = s.fresh; run_id = id } ∷ s.streams;
  }
]

-- `selectRun(runId)` up to its first `await`; the `refresh` that it starts is followed by `connect`.
unfoldable pub cleared_for_run : String → State → State
cleared_for_run run_id t = record t {
  run_id = some run_id;
  detail = null;
  summary = null;
  summary_run_id = none;
  results = no_resource;
  alarms = no_resource;
  artifacts = no_resource;
  selected_agent = 1;
  last_event_id = null;
  events = [];
  connection = connecting;
  loading = true;
  error = null;
}

unfoldable pub select_run : String → Store → Store
select_run run_id s =
    let closed = close_run_subscription s in
    begin_refresh true (emit (cleared_for_run run_id closed.state) "run-selection" closed)

abbrev pub is_agent : ℕ → Bool
is_agent n = n == 1 || n == 2 || n == 3

unfoldable pub cleared_for_agent : ℕ → State → State
cleared_for_agent agent t = record t {
  selected_agent = agent;
  summary = null;
  summary_run_id = none;
  results = no_resource;
  alarms = no_resource;
  loading = elim (truthy_id t.run_id) [ none ↦ false | some id ↦ true ];
  error = null;
}

unfoldable pub select_agent : ℕ → Store → Store
select_agent agent s =
    if not (is_agent agent)
    then s
    else if s.state.selected_agent == agent
        && strict_eq (get "agent" (get "selection" s.state.summary)) (nat agent)
    then s
    else begin_refresh false (emit (cleared_for_agent agent s.state) "agent-selection" s)
