-- ===== src/History/Selection.antt =====
-- frontend/src/ui.ts: `selectHistoryRun`, `loadReplayResources`, `selectReplayAgent` and
-- `openHistoryDeepLink`. Each is split where it awaits; the part after an await takes what the task
-- store holds then. The playback and the chart that they reset are left out.
use federated_iot_platform.Prelude.{
  ℕ, zero, suc, Bool, true, false, not, ◌&&◌, ◌||◌, Option, none, some, [], ◌∷◌, String, ◌==◌,
  if◌then◌else◌, find?, leb, is_some,
}
use Prim.Native.Char.{Char, code}
use Prim.Native.String.{[], ◌∷◌}
use federated_iot_platform.Js.{
  Value, null, str, get, truthy, strict_eq, ◌or◌, is_digit, trim, without_prefix,
}
use federated_iot_platform.History.{
  History, Replay, no_replay, is_terminal_run, artifact_gate, upsert_run,
}

-- The part of the task store's state that a selection reads.
pub record Task : Type 0 where
  pub run_id : Value
  pub detail : Value
  pub error : Value
  pub artifacts : Value
  pub artifacts_run_id : Value
  pub artifacts_error : Value
  pub summary_run_id : Value
  pub results_run_id : Value
  pub results_error : Value

-- A selection in progress.
pub record Selecting : Type 0 where
  pub run_id : String
  pub epoch : ℕ

abbrev pub has_id : String → Value → Bool
has_id id run = strict_eq (get "run_id" run) (str id)

-- Up to the store's own selection; `none` where the run is not listed or has not ended.
unfoldable pub begin_select : String → History → Option (History × Selecting)
begin_select id h = elim (find? (has_id id) h.items) [
  | none ↦ none
  | some item ↦
      if is_terminal_run item
      then some (
        record h {
          selection_epoch = suc h.selection_epoch;
          selected_run_id = str id;
          detail = null;
          detail_loading = true;
          detail_error = null;
          artifacts = null;
          replay = no_replay;
        },
        record { run_id = id; epoch = suc h.selection_epoch },
      )
      else none
]

abbrev pub not_ready : Value
not_ready = str "RESULT_NOT_READY"

-- The `catch` block.
unfoldable pub fail_select : Selecting → Value → History → History
fail_select s error h =
    if h.selection_epoch == s.epoch
    then record h { detail_loading = false; detail_error = error }
    else h

-- What follows the store's selection.
pub data Selected : Type 0 where
  dropped : Selected
  refused : Value → Selected
  wants_artifacts : Value → Selected
  has_artifacts : Value → Value → Selected

unfoldable pub after_store : Selecting → Task → History → Selected
after_store s task h =
    if not (h.selection_epoch == s.epoch) || not (strict_eq task.run_id (str s.run_id))
    then dropped
    else if not (truthy task.detail)
        || not (has_id s.run_id task.detail)
        || not (is_terminal_run task.detail)
    then refused (task.error or not_ready)
    else if strict_eq task.artifacts_run_id (str s.run_id)
    then has_artifacts task.detail task.artifacts
    else wants_artifacts task.detail

-- What follows once the artifacts are known; `task` is the store's state by then.
unfoldable pub finish_select : Selecting → Value → Value → Task → History → History
finish_select s detail artifacts task h =
    let ready =
      strict_eq task.summary_run_id (str s.run_id)
      && strict_eq task.results_run_id (str s.run_id)
      && (artifact_gate detail artifacts).ready in
    if not (h.selection_epoch == s.epoch)
    then h
    else if not ready
    then fail_select s (task.error or (task.results_error or (task.artifacts_error or not_ready))) h
    else upsert_run detail (record h {
      detail = detail;
      detail_loading = false;
      detail_error = null;
      artifacts = artifacts;
    })

-- A load of the replay in progress.
pub record ReplayLoad : Type 0 where
  pub run_id : Value
  pub agent : ℕ
  pub epoch : ℕ

abbrev pub loading_replay : ℕ → Replay
loading_replay agent = record {
  agent = agent;
  loading = true;
  error = null;
  points = null;
  results = null;
  alarms = null;
}

unfoldable pub begin_replay : ℕ → History → Option (History × ReplayLoad)
begin_replay epoch h =
    if not (truthy h.selected_run_id)
      || not (truthy h.detail)
      || not (artifact_gate h.detail h.artifacts).ready
    then none
    else some (
      record h { replay = loading_replay h.replay.agent },
      record { run_id = h.selected_run_id; agent = h.replay.agent; epoch = epoch },
    )

-- How one of the three requests ends.
pub data Settled : Type 0 where
  fulfilled : Value → Settled
  rejected : Value → Settled

abbrev pub value_of : Settled → Value
value_of (fulfilled v) = v
value_of (rejected e) = null

abbrev pub reason_of : Settled → Value
reason_of (fulfilled v) = null
reason_of (rejected e) = e

abbrev pub primary_error : Settled → Settled → Value
primary_error (rejected e) results = e
primary_error (fulfilled v) results = reason_of results

unfoldable pub answer_replay : ReplayLoad → Settled → Settled → Settled → History → History
answer_replay l replay results alarms h =
    if not (h.selection_epoch == l.epoch)
      || not (strict_eq h.selected_run_id l.run_id)
      || not (h.replay.agent == l.agent)
    then h
    else record h {
      replay = record h.replay {
        loading = false;
        error = primary_error replay results;
        points = value_of replay;
        results = value_of results;
        alarms = value_of alarms;
      };
    }

-- `selectReplayAgent` up to the store's own selection.
unfoldable pub select_replay_agent : ℕ → History → Option History
select_replay_agent agent h =
    if not (agent == 1 || agent == 2 || agent == 3) || not (truthy h.detail) || h.replay.loading
    then none
    else some (record h { replay = record h.replay { agent = agent } })

abbrev pub is_letter : Char → Bool
is_letter c = (leb 65 (code c) && leb (code c) 90) || (leb 97 (code c) && leb (code c) 122)

-- `[A-Za-z0-9_-]{0,n}$`.
unfoldable pub ends_within : ℕ → String → Bool
ends_within n [] = true
ends_within zero (c ∷ s) = false
ends_within (suc n) (c ∷ s) =
    (is_letter c || is_digit c || code c == b'_' || code c == b'-') && ends_within n s

abbrev pub after_prefix : String → Bool
after_prefix [] = false
after_prefix (c ∷ s) = (is_letter c || is_digit c) && ends_within 255 s

-- `/^run_[A-Za-z0-9][A-Za-z0-9_-]{0,255}$/`.
unfoldable pub is_run_id : String → Bool
is_run_id s = elim (without_prefix s "run_") [ none ↦ false | some r ↦ after_prefix r ]

abbrev pub cleared : Option String → History → History
cleared notice h = record h {
  items = [];
  selected_run_id = null;
  detail = null;
  detail_loading = false;
  detail_error = null;
  deep_link_notice = notice;
  artifacts = null;
  replay = no_replay;
}

-- `openHistoryDeepLink` before its load, with the id to load where there is one; then after a load
-- that failed, and after one that succeeded, with the run to select where there is one.
unfoldable pub begin_deep_link : String → History → History × Option String
begin_deep_link id h =
    if is_run_id (trim id)
    then (cleared none h, some (trim id))
    else (cleared (some "history.deepLinkInvalid") h, none)

unfoldable pub fail_deep_link : History → History
fail_deep_link h = record h { deep_link_notice = some "history.deepLinkLoadFailed" }

unfoldable pub finish_deep_link : String → History → History × Option String
finish_deep_link id h =
    if is_some (find? (λ run. has_id id run && is_terminal_run run) h.items)
    then (h, some id)
    else (
      record h {
        items = [];
        selected_run_id = null;
        detail = null;
        artifacts = null;
        deep_link_notice = some "history.deepLinkUnavailable";
      },
      none,
    )
