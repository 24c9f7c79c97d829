-- ===== src/Replay/View.antt =====
-- frontend/src/ui.ts: what the replay page shows, and what it downloads. The task is the object that
-- the page takes, with its properties by their names in the source.
use federated_iot_platform.Prelude.{
  ℕ, ◌+◌, Bool, true, false, not, ◌&&◌, ◌||◌, Option, none, some, List, String, ◌==◌, ◌===◌, ltb,
  if◌then◌else◌, length, get_elem?, find?, ◌≡◌, arith,
}
use federated_iot_platform.Js.{Value, null, str, nat, get, truthy, strict_eq, text, items, ◌or◌}
use federated_iot_platform.Js.Objects.{with_field, spread}
use federated_iot_platform.Api.Paths.{replay_export_url, artifact_download_url}
use federated_iot_platform.Diagnostics.Alarms.{alarm_type}
use federated_iot_platform.History.{History, artifact_gate}
use federated_iot_platform.Workspace.{resource_for_run}
use federated_iot_platform.Replay.{Playback, maximum, set_position, replay_points, chart_summary}

-- `chartSummaryForView`.
unfoldable pub view_summary : Bool → Value → Value → Value
unfolding chart_summary
view_summary on_replay summary replay = if on_replay then chart_summary summary replay else summary

-- The controls of the playback; drawing them moves a position that is past the end.
pub record Transport : Type 0 where
  pub enabled : Bool
  pub playing : Bool
  pub speed : Value
  pub last : ℕ
  pub position : ℕ
  pub shown_position : ℕ

unfoldable pub transport : ℕ → Bool → Playback → Playback × Transport
unfolding set_position
transport count enabled p =
    let moved =
      if ltb (maximum count) p.position then set_position count (nat (maximum count)) p else p in
    (
      moved,
      record {
        enabled = enabled && not (count == 0);
        playing = moved.playing;
        speed = moved.speed;
        last = maximum count;
        position = moved.position;
        shown_position = if count == 0 then 0 else moved.position + 1;
      },
    )

-- `replayDiagnostic`: the point in focus with what is shown of it.
pub record PointRows : Type 0 where
  pub point : Value
  pub time : Value
  pub load_status : Value
  pub alarm : Value

abbrev dash : Value
dash = str "—"

-- The label of an alarm with its token, or the level where there is no token. `label` is the text of a
-- key.
unfoldable pub alarm_shown : (String → String) → Value → Value
unfolding alarm_type
alarm_shown label focused =
    let (key, token) =
      alarm_type
        (get "alarm_type" focused or (get "AlarmType" focused or get "OverallAlarmType" focused)) in
    if token === "" then get "OverallAlarmLevel" focused or dash else str (label key)

unfoldable pub focused_rows : (String → String) → List Value → Option ℕ → Option PointRows
unfolding alarm_shown
focused_rows label points none = none
focused_rows label points (some i) = elim (get_elem? points i) [
  | none ↦ none
  | some p ↦
      if not (truthy p)
      then none
      else some (record {
        point = get "OriginalRunningIndex" p or dash;
        time = get "Time" p or dash;
        load_status = get "LoadStatus" p or dash;
        alarm = alarm_shown label p;
      })
]

-- What stands below the controls.
pub data Content : Type 0 where
  artifacts_required : Content
  replay_loading : Content
  replay_failed : Value → Content
  replay_unavailable : Content
  replay_shown : Value → List Value → Content

-- The list of the artifacts, empty where the page asks for them.
abbrev pub artifact_rows : Value → List Value
artifact_rows artifacts = items (get "items" artifacts)

pub data ReplayPage : Type 0 where
  nothing_selected : Bool → Option String → ReplayPage
  selected_run : Value → Bool → Bool → Content → List Value → ReplayPage

-- The summary of the store, where it follows the run that is replayed.
unfoldable pub replayed_summary : Value → Value → Value
unfolding resource_for_run
replayed_summary task detail =
    if strict_eq (get "runId" task) (get "run_id" detail)
    then resource_for_run (with_field "detail" detail (spread task null)) "summary"
    else null

unfoldable pub content_of : Bool → Bool → Value → Value → List Value → List Value → Content
content_of ready loading error summary points alarms =
    if not ready
    then artifacts_required
    else if loading
    then replay_loading
    else if truthy error
    then replay_failed error
    else if not (truthy summary) || length points == 0
    then replay_unavailable
    else replay_shown summary alarms

-- `replayReady`.
abbrev pub is_ready : Bool → Bool → Value → Value → List Value → Bool
is_ready ready loading error summary points =
    ready && not loading && not (truthy error) && truthy summary && not (length points == 0)

-- `replayView`.
unfoldable pub replay_page : History → Value → ReplayPage
unfolding content_of chart_summary replayed_summary
replay_page h task =
    let detail = if strict_eq (get "run_id" h.detail) h.selected_run_id then h.detail else null in
    let gate = artifact_gate detail h.artifacts in
    let points = items (replay_points h.replay.points) in
    let summary = chart_summary (replayed_summary task detail) h.replay.points in
    let alarms = items (get "items" h.replay.alarms or get "alarms" h.replay.alarms) in
    if not (truthy detail)
    then nothing_selected h.detail_loading h.deep_link_notice
    else selected_run detail gate.ready
        (is_ready gate.ready h.replay.loading h.replay.error summary points)
        (content_of gate.ready h.replay.loading h.replay.error summary points alarms)
        (artifact_rows h.artifacts)

-- `downloadReplayExport`: the address, none where the function returns.
unfoldable pub export_address : String → History → Option String
unfolding replay_export_url artifact_gate
export_address base_url h =
    if not (truthy h.detail) || not (artifact_gate h.detail h.artifacts).ready
    then none
    else some (replay_export_url base_url (text (get "run_id" h.detail)) (nat h.replay.agent))

-- `downloadManifest`.
unfoldable pub manifest_address : String → History → Option String
unfolding artifact_download_url artifact_gate
manifest_address base_url h =
    let named =
      find? (λ item. strict_eq (get "name" item) (str "artifact_manifest.json"))
        (artifact_rows h.artifacts) in
    if not (truthy h.detail) || not (artifact_gate h.detail h.artifacts).ready
    then none
    else elim named [
      | none ↦ none
      | some item ↦
          if truthy item
          then some (
              artifact_download_url base_url (text (get "run_id" h.detail))
                (text (get "name" item)))
          else none
    ]

abbrev pub shows_replay : Content → Bool
shows_replay (replay_shown s alarms) = true
shows_replay artifacts_required = false
shows_replay replay_loading = false
shows_replay (replay_failed e) = false
shows_replay replay_unavailable = false

-- The playback can be moved exactly where the replay is shown.
pub is_ready-shown :
    (ready loading : Bool) (error summary : Value) (points alarms : List Value)
    → is_ready ready loading error summary points
      ≡ shows_replay (content_of ready loading error summary points alarms)
unfolding content_of
is_ready-shown ready loading error summary points alarms = ground arith
