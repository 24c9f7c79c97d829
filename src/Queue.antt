-- ===== src/Queue.antt =====
-- frontend/src/ui.ts: the compact queue of the application state. A run in the list is the object
-- that the API sent. `loadQueue` and `cancelQueuedSimulation` are split where they await.
pub mod Patched
mod Tests
pub mod Projection
pub mod Loading
pub mod Pending
pub mod Counts
pub mod Waiting
pub mod Ordered
use federated_iot_platform.Prelude.{
  ℕ, zero, suc, ◌+◌, Bool, true, false, not, ◌&&◌, ◌||◌, Option, none, some, List, [], ◌∷◌, ◌++◌,
  String, ◌==◌, ◌===◌, if◌then◌else◌, length, filter, find?, find_idx?, set, get_elem?, take, last?,
  map, any,
}
use federated_iot_platform.Js.{
  Value, null, undefined, bool, nat, num, int, str, get, text_or_empty, upper_text, number, finite?,
  clamp_ℕ, truthy, items, is_array, strict_eq, includes, ◌or◌, is_nullish,
}
use federated_iot_platform.Js.Objects.{spread, with_field}

pub record Queue : Type 0 where
  pub items : List Value
  pub waiting_count : Value
  pub loading : Bool
  pub error : Value
  pub next_cursor : Value
  pub has_more : Bool
  pub total : Value
  pub cancelling : List String

abbrev pub empty_queue : Queue
empty_queue = record {
  items = [];
  waiting_count = nat 0;
  loading = false;
  error = null;
  next_cursor = null;
  has_more = false;
  total = null;
  cancelling = [];
}

abbrev pub status_of : Value → String
status_of run = upper_text (get "status" run)

abbrev pub terminal_statuses : List String
terminal_statuses = "COMPLETED" ∷ "CANCELLED" ∷ "FAILED" ∷ "FAILED_RECOVERABLE" ∷ []

abbrev pub running_statuses : List String
running_statuses = "RUNNING" ∷ "CANCELLING" ∷ []

-- `item?.run_id === runId`.
unfoldable pub has_run_id : String → Value → Bool
has_run_id id run = strict_eq (get "run_id" run) (str id)

-- `queueWaitingCount` of a list.
unfoldable pub waiting_items : List Value → ℕ
waiting_items runs = length (filter (λ run. status_of run === "QUEUED") runs)

-- `queueWaitingCount` of a queue.
unfoldable pub queue_waiting_count : Queue → ℕ
queue_waiting_count q = elim (finite? (number q.waiting_count)) [
  | none ↦ waiting_items q.items
  | some n ↦ clamp_ℕ n
]

-- `synchronizeQueueWaitingCount`, over the task's events.
unfoldable pub synchronize_waiting_count : List Value → Queue → Queue
synchronize_waiting_count events q =
    let value : Value = elim (last? events) [
      | none ↦ null
      | some event ↦ get "queued_count" (get "data" event)
    ] in
    elim (finite? (number value)) [
      | none ↦ q
      | some n ↦ record q { waiting_count = nat (clamp_ℕ n) }
    ]

-- `cancellable: detail.cancellable === true`.
abbrev pub strict_cancellable : Value → Value
strict_cancellable run = bool (strict_eq (get "cancellable" run) (bool true))

abbrev pub projected : Value → Value → Value
projected item detail = with_field "cancellable" (strict_cancellable detail) (spread item detail)

unfoldable pub project_into : String → Value → List Value → List Value
project_into id detail runs = elim (find_idx? (has_run_id id) runs) [
  | none ↦ runs ++ projected undefined detail ∷ []
  | some i ↦ elim (get_elem? runs i) [ none ↦ runs | some run ↦ set runs i (projected run detail) ]
]

unfoldable pub drop_run : String → List Value → List Value
drop_run id = filter (λ run. not (has_run_id id run))

-- `synchronizeQueueProjection`, over the task's detail.
unfoldable pub synchronize_projection : Value → Queue → Queue
synchronize_projection detail q =
    let id = text_or_empty (get "run_id" detail) in
    if id === ""
    then q
    else if includes terminal_statuses (status_of detail)
    then if any (has_run_id id) q.items then record q { items = drop_run id q.items } else q
    else if includes ("QUEUED" ∷ "RUNNING" ∷ "CANCELLING" ∷ []) (status_of detail)
    then record q { items = project_into id detail q.items }
    else q

unfoldable pub run_is_cancellable : Value → Bool
run_is_cancellable run =
    strict_eq (get "cancellable" run) (bool true) && not (status_of run === "CANCELLING")

unfoldable pub cancel_is_pending : String → Queue → Bool
cancel_is_pending id q = includes q.cancelling id

-- `queueActiveRun`: the run shown as active. `task_run_id` is the `runId` of the task.
unfoldable pub queue_active_run : List Value → Value → Value → Option Value
queue_active_run runs detail task_run_id =
    let detail_id = get "run_id" detail in
    let ends = includes terminal_statuses (status_of detail) in
    let fallback =
      if not (truthy detail_id) || (truthy task_run_id && not (strict_eq task_run_id detail_id))
      then none
      else if includes running_statuses (status_of detail)
      then some detail
      else none in
    elim (find? (λ run. includes running_statuses (status_of run)) runs) [
      | none ↦ fallback
      | some active ↦
          if strict_eq detail_id (get "run_id" active) && ends then none else some active
    ]

abbrev pub page_items : Value → List Value
page_items response =
    if is_array (get "items" response)
    then items (get "items" response)
    else if is_array (get "data" response)
    then items (get "data" response)
    else items response

pub record PageMeta : Type 0 where
  pub next_cursor : Value
  pub has_more : Bool
  pub total : Value

abbrev pub page_meta : Value → PageMeta
page_meta response =
    let meta = get "meta" response in
    record {
      next_cursor = get "next_cursor" response or (get "next_cursor" meta or null);
      has_more = truthy (get "has_more" response or (get "has_more" meta or bool false));
      total = get "total" response or (get "total" meta or null);
    }

-- One item of `reconcileQueueItems` with the detail that was found for it, if any.
unfoldable pub reconcile_item : Value → Value → Value
reconcile_item item detail =
    if strict_eq (get "run_id" detail) (get "run_id" item)
    then with_field "cancellable" (strict_cancellable detail) (spread item detail)
    else with_field "cancellable" (strict_cancellable item) (spread item undefined)

-- `details` has an answer for each item, undefined where there is none.
unfoldable pub reconcile_items : List Value → List Value → List Value
reconcile_items [] details = []
reconcile_items (item ∷ rest) [] = reconcile_item item undefined ∷ reconcile_items rest []
reconcile_items (item ∷ rest) (d ∷ details) = reconcile_item item d ∷ reconcile_items rest details
