-- ===== src/Workspace.antt =====
-- frontend/src/ui.ts: what the workspace shows of the task store. A task is the object that the
-- functions take, with its properties by their names in the source.
mod Tests
pub mod Owners
pub mod Elapsed
use federated_iot_platform.Prelude.{
  ℕ, zero, suc, ◌+◌, Bool, true, false, not, ◌&&◌, ◌||◌, Option, none, some, List, [], ◌∷◌, String,
  ◌==◌, ◌===◌, ltb, if◌then◌else◌,
}
use Prim.Native.Nat.{◌/◌, ◌%◌}
use federated_iot_platform.Prelude.Int.{ℤ, pos, negsuc}
use federated_iot_platform.Js
use federated_iot_platform.Js.{
  Value, null, undefined, str, nat, get, has, truthy, strict_eq, includes, ◌or◌, upper_text,
  text_or_empty, lower, Num, number, nan, infinity, int, decimal, text,
}

unfoldable pub shown_run : Value → Value
shown_run task = get "run_id" (get "detail" task) or (get "runId" task or null)

abbrev pub run_key : String → String
run_key resource = Js.◌++◌ resource "RunId"

abbrev pub declared_run : Value → Value
declared_run value = get "run_id" value or (get "run_id" (get "run" value) or null)

-- `workspaceResourceForRun`, and `workspaceSummaryForRun` for the resource `summary`.
unfoldable pub resource_for_run : Value → String → Value
resource_for_run task resource =
    let value = get resource task in
    if not (truthy value) || not (truthy (shown_run task))
    then null
    else if has (run_key resource) task
    then (if strict_eq (get (run_key resource) task) (shown_run task) then value else null)
    else if strict_eq (declared_run value) (shown_run task)
    then value
    else null

pub record ResultFiles : Type 0 where
  pub verified : Bool
  pub incomplete : Bool

abbrev pub good_states : List String
good_states = "COMMITTED" ∷ "VERIFIED" ∷ []

unfoldable pub result_files : Value → Value → ResultFiles
result_files detail summary =
    let completed = upper_text (get "status" detail) === "COMPLETED" in
    let state = upper_text (get "artifact_state" detail or get "artifact_state" summary) in
    let integrity = upper_text (get "status" (get "artifact_integrity" summary)) in
    let verified =
      completed && (state === "" || includes good_states state) && includes good_states integrity in
    record { verified = verified; incomplete = truthy summary && not verified }

-- The key of `readinessDisplay`.
pub data Readiness : Type 0 where
  checking unavailable ready not_observed warning : Readiness

unfoldable pub readiness_of : String → Readiness
readiness_of s =
    if includes ("ok" ∷ "ready" ∷ []) s
    then ready
    else if includes ("not_observed" ∷ "not-observed" ∷ []) s
    then not_observed
    else if includes ("warning" ∷ "warn" ∷ "degraded" ∷ []) s
    then warning
    else unavailable

unfoldable pub readiness_display : Value → String → Readiness
readiness_display task component =
    let raw =
      if component === "web"
      then get "status" (get "readiness" task)
      else get component (get "checks" (get "readiness" task)) in
    if truthy (get "readinessLoading" task)
    then checking
    else if truthy (get "readinessError" task) || not (truthy (get "readiness" task))
    then unavailable
    else readiness_of (lower (text_or_empty raw))

pub record ConnectionDisplay : Type 0 where
  pub class_name : String
  pub label_key : String

unfoldable pub connection_display : Value → ConnectionDisplay
connection_display connection =
    let normalized = lower (text (connection or str "connecting")) in
    if normalized === "connected"
    then record { class_name = ""; label_key = "connection.connected" }
    else if normalized === "connecting"
    then record { class_name = "connecting"; label_key = "connection.connecting" }
    else if normalized === "reconnecting"
    then record { class_name = "connecting"; label_key = "connection.reconnecting" }
    else record {
      class_name = "muted";
      label_key =
          if normalized === "offline" then "connection.offline" else "connection.disconnected";
    }

-- The hours, minutes and seconds of a number of seconds.
unfoldable pub hours_of : ℕ → ℕ
hours_of total = total / 3600

unfoldable pub minutes_of : ℕ → ℕ
minutes_of total = total % 3600 / 60

unfoldable pub seconds_of : ℕ → ℕ
seconds_of total = total % 60

-- `String(n).padStart(2, "0")`.
abbrev pub two_digits : ℕ → String
two_digits n = if ltb n 10 then Js.◌++◌ "0" (decimal n) else decimal n

abbrev pub after_colon : String → String → String
after_colon s t = Js.◌++◌ s (Js.◌++◌ ":" t)

unfoldable pub duration_text : ℕ → String
duration_text total =
    let minutes = minutes_of total in
    let seconds = two_digits (seconds_of total) in
    if hours_of total == 0
    then after_colon (decimal minutes) seconds
    else after_colon (decimal (hours_of total)) (after_colon (two_digits minutes) seconds)

-- `elapsedDuration` of a number of milliseconds.
unfoldable pub elapsed_duration : Value → String
elapsed_duration ms = elim (number (ms or nat 0)) [
  | nan ↦ "NaN:NaN"
  | infinity negative ↦ if negative then "0:00" else "Infinity:NaN:NaN"
  | int n ↦ elim n [ pos m ↦ duration_text (m / 1000) | negsuc m ↦ "0:00" ]
]

-- How `queueStageTimeline` draws a stage.
pub data StageMark : Type 0 where
  complete active upcoming : StageMark

abbrev pub stages : List String
stages =
    "VALIDATING" ∷ "PREPROCESSING" ∷ "LOCAL_TRAINING" ∷ "ANCHOR_AGGREGATING" ∷ "GLOBAL_DISTILLING"
    ∷ "CALIBRATING" ∷ "TESTING" ∷ []

-- The marks of the stages up to the current one, at the end of which the rest is upcoming; where the
-- current stage is none of the list, every stage is.
unfoldable pub marks_from : String → Bool → List String → List StageMark
marks_from current passed [] = []
marks_from current passed (s ∷ ss) =
    (if s === current then active else if passed then upcoming else complete)
    ∷ marks_from current (passed || s === current) ss

unfoldable pub stage_marks : Value → Value → List StageMark
stage_marks run detail =
    let current = get "current_stage" detail or (get "current_stage" run or null) in
    if not (truthy current) then [] else elim current [
      | str s ↦ marks_from s (not (includes stages s)) stages
      | _ ↦ marks_from "" true stages
    ]
