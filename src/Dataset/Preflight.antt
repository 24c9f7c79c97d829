-- ===== src/Dataset/Preflight.antt =====
-- frontend/src/ui.ts: what the page says of a dataset's preflight, and whether a simulation can be
-- created. A presentation keeps its key, its status and whether it is complete; its texts are the
-- translations that the key chooses.
use federated_iot_platform.Prelude.{
  ℕ, Bool, true, false, not, ◌&&◌, ◌||◌, none, some, List, [], ◌∷◌, String, ◌==◌, ◌===◌,
  if◌then◌else◌, find?, map, ◌≡◌, refl, arith, leb,
}
use Prim.Native.Char.{Char, code}
use Prim.Native.String.{[], ◌∷◌}
use federated_iot_platform.Js.{
  Value, undefined, null, bool, nat, num, int, str, obj, arr, end, get, truthy, strict_eq, includes,
  upper_text, ◌or◌, is_digit, items, items_of, is_array, text, is_nullish, number, upper,
}
use federated_iot_platform.Js.Equality.{strict_eq-str}
use federated_iot_platform.Contract.{validate_agent_collection}
use federated_iot_platform.Poller.{needs_polling}

pub data Key : Type 0 where
  valid invalid failed queued running validating : Key

pub record Presentation : Type 0 where
  pub key : Key
  pub status : String
  pub complete : Bool

abbrev pub failures : List String
failures = "INVALID" ∷ "FAILED" ∷ []

abbrev pub unfinished : Key → String → Presentation
unfinished key status = record { key = key; status = status; complete = false }

abbrev pub non_empty : String → String → String
non_empty s t = if s === "" then t else s

abbrev pub failure : String → String → Presentation
failure dataset_status worker_status =
    if "FAILED" === worker_status || "FAILED" === dataset_status
    then unfinished failed "FAILED"
    else unfinished invalid "INVALID"

unfoldable pub present : String → String → Presentation
present dataset_status worker_status =
    if "VALID" === dataset_status
    then record { key = valid; status = "VALID"; complete = true }
    else if includes failures dataset_status || includes failures worker_status
    then failure dataset_status worker_status
    else if "QUEUED" === worker_status
    then unfinished queued "QUEUED"
    else if "RUNNING" === worker_status
    then unfinished running "RUNNING"
    else if "COMPLETED" === worker_status
    then unfinished validating "COMPLETED"
    else unfinished validating (non_empty worker_status (non_empty dataset_status "VALIDATING"))

unfoldable pub preflight_presentation : Value → Presentation
preflight_presentation dataset =
    present (upper_text (get "status" dataset))
      (upper_text (get "status" (get "preflight" dataset)))

abbrev pub is_upper : Char → Bool
is_upper c = leb 65 (code c) && leb (code c) 90

unfoldable pub only_code_chars : String → Bool
only_code_chars [] = true
only_code_chars (c ∷ s) = (is_upper c || is_digit c || code c == 95) && only_code_chars s

-- `/^[A-Z][A-Z0-9_]+$/` on a text, and `typeof candidate === "string"`.
unfoldable pub is_error_code : Value → Bool
is_error_code (str (c ∷ d ∷ s)) = is_upper c && only_code_chars (d ∷ s)
is_error_code undefined = false
is_error_code _ = false

abbrev pub bool_or_null : Value → Value
bool_or_null (bool b) = bool b
bool_or_null undefined = null
bool_or_null _ = null

pub record FailureDisplay : Type 0 where
  pub code : Value
  pub message : String
  pub stage : Value
  pub diagnostic_id : Value
  pub recoverable : Value

-- `preflightFailureDisplay`, where `translate` is the translation `t`.
unfoldable pub failure_display : (String → String) → Value → FailureDisplay
failure_display translate dataset =
    let preflight = get "preflight" dataset or obj end in
    let failure =
      get "error" dataset
      or (get "error" preflight
          or (get "failure" preflight or (get "preflight_error" dataset or obj end))) in
    let candidates : List Value =
      get "code" (get "error" dataset)
      ∷ get "code" (get "error" preflight)
      ∷ get "error_code" preflight
      ∷ get "code" (get "failure" preflight)
      ∷ get "code" (get "preflight_error" dataset)
      ∷ get "preflight_error_code" dataset
      ∷ [] in
    let found = find? is_error_code candidates in
    let fallback = translate "data.preflight.invalid" in
    record {
      code = elim found [ none ↦ null | some c ↦ c ];
      message = elim found [
        | none ↦ fallback
        | some c ↦
            let key = federated_iot_platform.Js.◌++◌ "error." (text c) in
            let translated = translate key in
            if not (translated === "") && not (translated === key) then translated else fallback
      ];
      stage = get "stage" failure or (get "stage" preflight or null);
      diagnostic_id = get "diagnostic_id" failure or (get "diagnostic_id" preflight or null);
      recoverable = bool_or_null (get "recoverable" failure);
    }

-- `profile?.agents?.map(agent => agent.agent)`.
abbrev pub agent_numbers : Value → Value
agent_numbers profile =
    let agents = get "agents" profile in
    if is_array agents then arr (items_of (map (get "agent") (items agents))) else undefined

-- `profile` is the custom profile or else the reference.
unfoldable pub can_create : Value → Value → Bool
can_create dataset profile =
    strict_eq (get "status" dataset) (str "VALID")
    && truthy (get "version_id" profile)
    && strict_eq (get "mapping_type" (get "load_mapping" profile)) (str "identity")
    && validate_agent_collection (agent_numbers profile)

-- The body of `createSimulation`.
pub record Payload : Type 0 where
  pub dataset_id : Value
  pub run_mode : Value
  pub profile_version : Value
  pub mapping_version : Value
  pub override_agents : List ℕ
  pub seed : ℕ
  pub display_name : String

-- Each agent of the payload has no overrides.
unfoldable pub simulation_payload : (String → String) → Value → Value → Payload
simulation_payload translate dataset profile = record {
  dataset_id = get "dataset_id" dataset;
  run_mode = get "mode" profile;
  profile_version = get "version_id" profile;
  mapping_version = get "version_id" (get "load_mapping" profile);
  override_agents = 1 ∷ 2 ∷ 3 ∷ [];
  seed = 2026;
  display_name = translate "run.defaultDisplayName";
}

abbrev pub is_progress : Key → Bool
is_progress valid = false
is_progress invalid = false
is_progress failed = false
is_progress _ = true

-- While a dataset is polled, the page shows it as queued, running or validating: neither as complete
-- nor as failed.
pub polled-unfinished :
    (dataset : Value)
    → needs_polling dataset ≡ true
    → let p = preflight_presentation dataset in (p.complete ≡ false) × (is_progress p.key ≡ true)
unfolding needs_polling preflight_presentation present includes
polled-unfinished dataset e = ground (arith, e)

valid-settled :
    (dataset : Value)
    → get "status" dataset ≡ str "VALID"
    → (needs_polling dataset ≡ false)
      × ((preflight_presentation dataset).key ≡ valid)
      × ((preflight_presentation dataset).complete ≡ true)
unfolding needs_polling preflight_presentation present includes text upper
valid-settled dataset e = rw (needs_polling, preflight_presentation, e) (refl, refl, refl)

-- A simulation can be created only on a dataset whose preflight is shown as complete and that is not
-- polled, with a profile that has a version and agents that pass the contract's check.
pub can_create-settled :
    (dataset profile : Value)
    → can_create dataset profile ≡ true
    → ((preflight_presentation dataset).key ≡ valid)
      × ((preflight_presentation dataset).complete ≡ true)
      × (needs_polling dataset ≡ false)
      × (truthy (get "version_id" profile) ≡ true)
      × (validate_agent_collection (agent_numbers profile) ≡ true)
unfolding can_create
can_create-settled dataset profile e =
    let (settled, presented, complete) =
      valid-settled dataset (strict_eq-str (get "status" dataset) "VALID" (ground (arith, e))) in
    (presented, complete, settled, ground (arith, e), ground (arith, e))
