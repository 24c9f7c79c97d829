-- ===== src/Application.antt =====
-- frontend/src/ui.ts: how the application starts, which page an address opens, and what it does when
-- the task store notifies it.
pub mod Notified
mod Tests
use federated_iot_platform.Prelude.{
  ℕ, Bool, true, false, not, ◌&&◌, ◌||◌, Option, none, some, List, [], ◌∷◌, ◌++◌, String, ◌===◌,
  if◌then◌else◌,
}
use federated_iot_platform.Js.{Value, null, str, get, truthy, items, is_array, ◌or◌}
use federated_iot_platform.Queue.{
  Queue, empty_queue, synchronize_waiting_count, synchronize_projection,
}
use federated_iot_platform.History.{History, empty_history, is_terminal_run, upsert_run}

pub data View : Type 0 where
  workspace data_page config queue_page history_page replay_page : View

-- `nextView === "history"`, `nextView === "replay"`, and any other value of the address.
unfoldable pub run_view : Value → Option View
run_view (str s) =
    if s === "history" then some history_page else if s === "replay" then some replay_page else none
run_view null = none
run_view _ = none

-- What the start asks for beside the queue: a run for the task store, a deep link with whether it opens
-- the replay, or the list of the history.
pub data Opening : Type 0 where
  select_run : Value → Opening
  deep_link : Value → Bool → Opening
  load_history : Opening

abbrev pub view_or : Option View → View
view_or none = workspace
view_or (some v) = v

abbrev pub is_replay : View → Bool
is_replay replay_page = true
is_replay workspace = false
is_replay data_page = false
is_replay config = false
is_replay queue_page = false
is_replay history_page = false

-- `historyDeepLink` and the two branches on it, over the view and the run of the address and the run
-- that the API begins with.
unfoldable pub openings : Value → Value → Value → List Opening
unfolding run_view
openings requested_view requested_run initial_run = elim (run_view requested_view) [
  | none ↦
      if truthy requested_run || truthy initial_run
      then select_run (requested_run or initial_run) ∷ []
      else []
  | some v ↦
      if truthy requested_run
      then deep_link requested_run (is_replay v) ∷ []
      else (if truthy initial_run then select_run (requested_run or initial_run) ∷ [] else [])
        ++ (load_history ∷ [])
]

-- The listener of "popstate": the new view and what it asks for, `none` where it returns.
unfoldable pub on_popstate : Value → Value → Option (View × Opening)
unfolding run_view
on_popstate next_view run_id = elim (run_view next_view) [
  | none ↦ none
  | some v ↦ some (v, if truthy run_id then deep_link run_id (is_replay v) else load_history)
]

-- The lists that the listener of the task store changes.
pub record Lists : Type 0 where
  pub queue : Queue
  pub history : History

-- The listener, over the events and the detail of the task.
unfoldable pub on_notification : List Value → Value → Lists → Lists
on_notification events detail l = record {
  queue = synchronize_projection detail (synchronize_waiting_count events l.queue);
  history = if is_terminal_run detail then upsert_run detail l.history else l.history;
}

-- `loadConfiguration`: the profiles, or the error that goes to the task store. `profiles` is `none`
-- where the API has no such request.
pub data ConfigAnswer : Type 0 where
  loaded : Value → ConfigAnswer
  failed : Value → ConfigAnswer

pub record Configuration : Type 0 where
  pub profile : Value
  pub custom_profiles : List Value

abbrev pub profiles_of : Value → List Value
profiles_of response =
    if is_array (get "items" response) then items (get "items" response) else items response

unfoldable pub load_configuration :
    ConfigAnswer → Option ConfigAnswer → Configuration → Configuration × Option Value
load_configuration (failed e) profiles c = (c, some e)
load_configuration (loaded p) none c = (record c { profile = p }, none)
load_configuration (loaded p) (some (failed e)) c = (record c { profile = p }, some e)
load_configuration (loaded p) (some (loaded r)) c =
    (record { profile = p; custom_profiles = profiles_of r }, none)
