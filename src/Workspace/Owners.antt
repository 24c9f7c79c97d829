-- ===== src/Workspace/Owners.antt =====
-- frontend/src/ui.ts: whose the resources are that the workspace shows.
use federated_iot_platform.Prelude.{true, String, if◌then◌else◌, ◌≡◌, arith}
use federated_iot_platform.Js.{Value, get, has, truthy, strict_eq}
use federated_iot_platform.Workspace.{resource_for_run, shown_run, run_key, declared_run}

-- The run that a resource of the task belongs to: the one that the task keeps with it, or else the
-- one that it declares.
abbrev pub owner : Value → String → Value
owner task resource =
    if has (run_key resource) task
    then get (run_key resource) task
    else declared_run (get resource task)

-- A resource that the workspace shows is the task's, and its run is the shown run; and the resource of
-- the shown run is shown.
pub resource_for_run-owner :
    (task : Value) (resource : String)
    → (truthy (resource_for_run task resource) ≡ true
        → (resource_for_run task resource ≡ get resource task)
          × (strict_eq (owner task resource) (shown_run task) ≡ true)
          × (truthy (shown_run task) ≡ true))
      × (truthy (get resource task) ≡ true
          → truthy (shown_run task) ≡ true
          → strict_eq (owner task resource) (shown_run task) ≡ true
          → resource_for_run task resource ≡ get resource task)
unfolding resource_for_run
resource_for_run-owner task resource = (λ h. ground (arith, h), λ a b c. ground (arith, a, b, c))
