-- ===== src/Display.antt =====
-- frontend/src/ui.ts: the names, versions and references that the pages show. `translate` is the
-- translation `t`, and a missing fallback is an em dash, as in the source.
use federated_iot_platform.Prelude.{String, ◌===◌, if◌then◌else◌}
use federated_iot_platform.Js
use federated_iot_platform.Js.{
  Value, undefined, null, bool, num, str, arr, obj, nat, Num, nan, infinity, int, get, is_nullish,
  is_record, is_array, text, text_or_empty, trim, lower, upper_text, strict_eq, ◌or◌,
}
use federated_iot_platform.Parameters.{version_reference}

unfoldable pub display_profile_text : Value → String → String
display_profile_text value fallback =
    let raw = trim (text_or_empty value) in if raw === "" then fallback else raw

unfoldable pub display_agent_segment : (String → String) → Value → String
display_agent_segment translate segment =
    let key = Js.◌++◌ "agent.segment." (lower (text_or_empty segment)) in
    if translate key === key then text (segment or str "—") else translate key

unfoldable pub profile_display_name : (String → String) → Value → String
profile_display_name translate profile =
    if strict_eq (get "mode" profile) (str "REFERENCE")
    then translate "profile.referenceCompatible"
    else display_profile_text (get "display_name" profile) (translate "state.loading")

unfoldable pub frozen_primary_text : (String → String) → Value → String → String
frozen_primary_text translate profile fallback =
    if upper_text (get "mode" profile or get "run_mode" profile) === "REFERENCE"
    then translate "profile.referenceCompatible"
    else display_profile_text (get "display_name" profile) fallback

unfoldable pub display_profile_version : Value → String
display_profile_version value =
    let raw = trim (text_or_empty (version_reference value).version_id) in
    if raw === "" then "—" else raw

pub record SnapshotDisplay : Type 0 where
  pub parameter : String
  pub mapping : String
  pub snapshot_hash : Value
  pub parameter_hash : Value
  pub mapping_hash : Value

unfoldable pub run_snapshot_display : Value → SnapshotDisplay
run_snapshot_display detail =
    let parameter =
      version_reference
        (get "parameter_version" detail or get "parameter_profile_version_id" detail) in
    let mapping =
      version_reference (get "mapping_version" detail or get "load_mapping_version_id" detail) in
    record {
      parameter = display_profile_version parameter.version_id;
      mapping = display_profile_text (mapping.display_name or mapping.version_id) "—";
      snapshot_hash =
          get "snapshot_sha256" detail or (get "sha256" (get "snapshot" detail) or null);
      parameter_hash = parameter.hash;
      mapping_hash = mapping.hash;
    }

pub record Constraint : Type 0 where
  pub kind : Value
  pub min : Value
  pub max : Value
  pub allowed_values : Value

-- The type that a value has of itself; every finite number is an integer here.
abbrev pub own_kind : Value → String
own_kind (bool b) = "boolean"
own_kind (num (int n)) = "integer"
own_kind (num nan) = "number"
own_kind (num (infinity s)) = "number"
own_kind undefined = "string"
own_kind _ = "string"

unfoldable pub normalize_constraint : Value → Value → Constraint
normalize_constraint constraint value = record {
  kind = get "type" constraint or str (own_kind value);
  min = get "min" constraint or (get "minimum" constraint or null);
  max = get "max" constraint or (get "maximum" constraint or null);
  allowed_values =
      if is_array (get "allowed_values" constraint)
      then get "allowed_values" constraint
      else if is_array (get "enum" constraint)
      then get "enum" constraint
      else null;
}
