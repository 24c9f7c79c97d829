-- ===== src/Parameters.antt =====
-- frontend/src/ui.ts: the frozen parameters of a run. A record overrides only a record or a parameter
-- that is missing, as the API's profiles have it.
mod Tests
pub mod Merged
use federated_iot_platform.Prelude.{
  Bool, true, false, not, ◌&&◌, ◌||◌, Option, none, some, is_some, List, [], ◌∷◌, ◌++◌, String,
  ◌===◌, if◌then◌else◌, any, map,
}
use federated_iot_platform.Js.{
  Value, undefined, null, str, obj, arr, nil, Items, Fields, end, field, get, lookup, or_undefined,
  is_record, is_array, truthy, ◌or◌, text, trim, text_or_empty, upper_text, join,
}
use federated_iot_platform.Js.Objects.{insert, fields_of, entries, with_field}

pub record Reference : Type 0 where
  pub version_id : Value
  pub display_name : Value
  pub hash : Value

abbrev pub record_or_undefined : Value → Value
record_or_undefined v = if is_record v then v else undefined

unfoldable pub version_reference : Value → Reference
version_reference value =
    let found = record_or_undefined value in
    record {
      version_id = if is_record value then get "version_id" value or null else value or null;
      display_name = get "display_name" found or null;
      hash = get "normalized_sha256" found or (get "sha256" found or null);
    }

-- The parameter `key` of `base` under an override of it.
unfoldable mutual
  pub combine : Value → Value → Value
  combine base (obj fs) = obj (merge_fields (fields_of base) fs)
  combine base undefined = undefined
  combine base v = v

  pub merge_fields : Fields → Fields → Fields
  merge_fields base end = base
  merge_fields base (field k v fs) =
      merge_fields (insert k (combine (or_undefined (lookup k base)) v) base) fs

unfoldable pub merge_parameter_values : Value → Value → Value
merge_parameter_values shared overrides =
    obj (merge_fields (fields_of (shared or obj end)) (fields_of (overrides or obj end)))

unfoldable pub frozen_profile : Value → Value
frozen_profile detail =
    let snapshot = get "snapshot" detail or obj end in
    let candidate =
      get "parameter_snapshot" detail
      or (get "parameter_snapshot" snapshot or (get "parameter_profile" snapshot or null)) in
    let direct =
      version_reference
        (get "parameter_version" detail or get "parameter_profile_version_id" detail) in
    let version =
      get "version_id" candidate
      or (get "parameter_profile_version_id" snapshot or (direct.version_id or null)) in
    let hash =
      get "sha256" candidate
      or (get "normalized_sha256" candidate
          or (get "parameter_profile_sha256" snapshot
              or (direct.hash
                  or (get "snapshot_sha256" detail or (get "sha256" snapshot or null))))) in
    if truthy candidate
      && is_record (get "shared_parameters" candidate)
      && is_array (get "agents" candidate)
    then with_field "normalized_sha256" hash (with_field "version_id" version candidate)
    else null

pub record Admission : Type 0 where
  pub name : Value
  pub mode : Value
  pub version : Value
  pub hash : Value

unfoldable pub admission_for_run : Value → Admission
admission_for_run run =
    let snapshot = get "snapshot" run or obj end in
    let parameter =
      get "parameter_snapshot" run
      or (get "parameter_snapshot" snapshot or (get "parameter_profile" snapshot or obj end)) in
    let of_parameter = version_reference parameter in
    let of_run =
      version_reference (get "parameter_version" run or get "parameter_profile_version_id" run) in
    record {
      name =
          of_parameter.display_name
          or (of_run.display_name
              or (get "parameter_profile_display_name" snapshot
                  or (get "parameter_profile_display_name" run or str "—")));
      mode =
          get "mode" parameter
          or (get "parameter_profile_mode" snapshot
              or (get "parameter_profile_mode" run or (get "run_mode" run or null)));
      version =
          of_parameter.version_id
          or (get "parameter_profile_version_id" snapshot or (of_run.version_id or str "—"));
      hash =
          of_parameter.hash
          or (get "parameter_profile_sha256" snapshot
              or (of_run.hash or (get "parameter_profile_sha256" run or str "—")));
    }

abbrev pub holds_record : (String × Value) → Bool
holds_record (k, v) = is_record v

unfoldable pub parameter_groups : Value → List (String × Value)
parameter_groups profile =
    let shared = get "shared_parameters" profile or obj end in
    let groups = entries (fields_of shared) in
    if any holds_record groups
    then groups
    else elim groups [ [] ↦ [] | e ∷ es ↦ ("local_gp", shared) ∷ [] ]

-- The leaves of a parameter tree by their paths.
unfoldable mutual
  pub flatten_leaves : Value → List String → List (String × Value)
  flatten_leaves (obj end) prefix = (join "." prefix, str "{}") ∷ []
  flatten_leaves (obj (field k v fs)) prefix =
      flatten_leaves v (prefix ++ k ∷ []) ++ flatten_fields fs prefix
  flatten_leaves undefined prefix = (join "." prefix, undefined) ∷ []
  flatten_leaves v prefix = (join "." prefix, v) ∷ []

  pub flatten_fields : Fields → List String → List (String × Value)
  flatten_fields end prefix = []
  flatten_fields (field k v fs) prefix =
      flatten_leaves v (prefix ++ k ∷ []) ++ flatten_fields fs prefix
