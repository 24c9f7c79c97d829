-- ===== src/Poller.antt =====
-- frontend/src/state/dataset-poller.ts: `needsDatasetPolling` and the class `DatasetPoller`.
-- An asynchronous poll is split where it awaits: `begin_poll` runs up to the request, and `resume`
-- runs from its outcome to the end of the `finally` block. `World` holds the object, the requests
-- that have no outcome yet, and the calls of the two handlers, which do not throw.
pub mod Invariant
pub mod Requests
pub mod Safety
pub mod Watched
mod Tests
use federated_iot_platform.Prelude.{
  ℕ, zero, suc, ◌+◌, Bool, true, false, not, ◌&&◌, ◌||◌, Option, none, some, List, [], ◌∷◌, ◌++◌,
  String, ◌==◌, ◌===◌, if◌then◌else◌, get_elem?,
}
use federated_iot_platform.Js.{Value, str, undefined, get, upper_text, includes}

abbrev active_statuses : List String
active_statuses = "VALIDATING" ∷ "QUEUED" ∷ "RUNNING" ∷ []

abbrev terminal_statuses : List String
terminal_statuses = "VALID" ∷ "INVALID" ∷ "FAILED" ∷ []

unfoldable pub needs_polling : Value → Bool
needs_polling dataset =
    let dataset_status = upper_text (get "status" dataset) in
    let preflight_status = upper_text (get "status" (get "preflight" dataset)) in
    if includes terminal_statuses dataset_status || includes terminal_statuses preflight_status
    then false
    else includes active_statuses dataset_status || includes active_statuses preflight_status

-- A request in flight, with what its poll captured.
pub record Request : Type 0 where
  pub generation : ℕ
  pub dataset_id : String
  pub controller : ℕ

pub data Notice : Type 0 where
  on_dataset : Value → Notice
  on_error : String → Value → Notice

-- How `getDataset` ends: with a dataset, with an abort, or with another error.
pub data Outcome : Type 0 where
  loaded : Value → Outcome
  aborted : Outcome
  failed : Value → Outcome

-- The timer is known by the generation that its callback captured.
pub record Poller : Type 0 where
  pub timer : Option ℕ
  pub controller : Option ℕ
  pub dataset_id : Option String
  pub generation : ℕ
  pub request_active : Bool

pub record World : Type 0 where
  pub poller : Poller
  pub next_controller : ℕ
  pub pending : List Request
  pub notices : List Notice

abbrev pub idle : Poller
idle = record {
  timer = none;
  controller = none;
  dataset_id = none;
  generation = 0;
  request_active = false;
}

abbrev pub start : World
start = record { poller = idle; next_controller = 0; pending = []; notices = [] }

-- `dataset?.dataset_id` where it is truthy. Identifiers are texts.
unfoldable pub watched_id : Value → Option String
watched_id dataset = elim (get "dataset_id" dataset) [
  | str s ↦ if s === "" then none else some s
  | _ ↦ none
]

abbrev pub is_watching : Option String → String → Bool
is_watching none id = false
is_watching (some other) id = other === id

abbrev same_controller : Option ℕ → ℕ → Bool
same_controller none c = false
same_controller (some d) c = d == c

-- The poll up to its request, where its guards let it pass.
unfoldable pub launch : ℕ → String → World → World
launch generation id w = record w {
  poller = record w.poller { request_active = true; controller = some w.next_controller };
  next_controller = suc w.next_controller;
  pending =
      record { generation = generation; dataset_id = id; controller = w.next_controller }
      ∷ w.pending;
}

unfoldable pub begin_poll : ℕ → World → World
unfolding launch
begin_poll generation w = elim w.poller.dataset_id [
  | none ↦ w
  | some id ↦
      if not (generation == w.poller.generation) || w.poller.request_active
      then w
      else launch generation id w
]

-- Clearing the timer and aborting the controller leave requests in flight: an aborted request still
-- ends, with an abort or with the answer that was on its way.
unfoldable pub stop : World → World
stop w = record w {
  poller = record {
    timer = none;
    controller = none;
    dataset_id = none;
    generation = suc w.poller.generation;
    request_active = false;
  };
}

unfoldable pub watch : Value → World → World
unfolding stop begin_poll
watch dataset w =
    let stopped = stop w in
    elim (watched_id dataset) [
      | none ↦ stopped
      | some id ↦
          if needs_polling dataset
          then begin_poll stopped.poller.generation
              (record stopped { poller = record stopped.poller { dataset_id = some id } })
          else stopped
    ]

schedule : ℕ → Poller → Poller
schedule generation p = elim p.dataset_id [
  | none ↦ p
  | some id ↦ if generation == p.generation then record p { timer = some generation } else p
]

-- The `finally` block.
finish : Request → Bool → Poller → Poller
unfolding schedule
finish r continue p =
    let other_dataset : Bool = elim p.dataset_id [
      | none ↦ false
      | some id ↦ not (id === r.dataset_id)
    ] in
    if not (r.generation == p.generation) || other_dataset
    then p
    else let released = record p {
      controller = if same_controller p.controller r.controller then none else p.controller;
      request_active = false;
    } in
      if continue then schedule r.generation released else released

abbrev pub is_stale : Request → Poller → Bool
is_stale r p = not (r.generation == p.generation) || not (is_watching p.dataset_id r.dataset_id)

-- The poll from the outcome of its request on.
unfoldable pub resume : Request → Outcome → World → World
unfolding finish
resume r (loaded dataset) w =
    if is_stale r w.poller
    then record w { poller = finish r false w.poller }
    else let continue = needs_polling dataset in
      let p = if continue then w.poller else record w.poller { dataset_id = none } in
      record w { poller = finish r continue p; notices = on_dataset dataset ∷ w.notices }
resume r aborted w = record w { poller = finish r false w.poller }
resume r (failed error) w =
    if is_stale r w.poller then record w { poller = finish r false w.poller } else record w {
      poller = finish r true w.poller;
      notices = on_error r.dataset_id error ∷ w.notices;
    }

unfoldable pub fire : World → World
unfolding begin_poll
fire w = elim w.poller.timer [
  | none ↦ w
  | some generation ↦ begin_poll generation (record w { poller = record w.poller { timer = none } })
]

-- What happens to the object: its methods, its timer, and the end of the i-th request in flight.
pub data Event : Type 0 where
  watches : Value → Event
  stops : Event
  fires : Event
  settles : ℕ → Outcome → Event

unfoldable pub remove_at {ℓ} : {A : Type ℓ} → ℕ → List A → List A
remove_at i [] = []
remove_at zero (x ∷ xs) = xs
remove_at (suc i) (x ∷ xs) = x ∷ remove_at i xs

unfoldable pub step : Event → World → World
unfolding watch stop fire resume remove_at
step (watches dataset) w = watch dataset w
step stops w = stop w
step fires w = fire w
step (settles i outcome) w = elim (get_elem? w.pending i) [
  | none ↦ w
  | some r ↦ resume r outcome (record w { pending = remove_at i w.pending })
]

unfoldable pub run : List Event → World → World
unfolding step
run [] w = w
run (e ∷ es) w = run es (step e w)
