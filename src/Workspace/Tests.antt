-- ===== src/Workspace/Tests.antt =====
-- frontend/src/ui.ts: a task with a summary of the shown run, and an elapsed time.
use federated_iot_platform.Prelude.{true, ◌≡◌, refl}
use federated_iot_platform.Js.{
  Value, str, nat, obj, end, field, get, truthy, strict_eq, decimal, number,
}
use federated_iot_platform.Workspace.{
  resource_for_run, shown_run, hours_of, minutes_of, seconds_of, elapsed_duration, duration_text,
}
use federated_iot_platform.Workspace.Owners.{owner, resource_for_run-owner}

abbrev task : Value
task = obj (
    field "runId" (str "run_1")
      (field "summaryRunId" (str "run_1") (field "summary" (obj (field "agent" (nat 1) end)) end)))

resource_for_run-owner_example :
    (truthy (resource_for_run task "summary") ≡ true
      → (resource_for_run task "summary" ≡ get "summary" task)
        × (strict_eq (owner task "summary") (shown_run task) ≡ true)
        × (truthy (shown_run task) ≡ true))
    × (truthy (get "summary" task) ≡ true
        → truthy (shown_run task) ≡ true
        → strict_eq (owner task "summary") (shown_run task) ≡ true
        → resource_for_run task "summary" ≡ get "summary" task)
resource_for_run-owner_example = resource_for_run-owner task "summary"

elapsed_test : elapsed_duration (nat 3725999) ≡ "1:02:05"
unfolding elapsed_duration duration_text hours_of minutes_of seconds_of decimal number
elapsed_test = refl
