-- ===== src/Draft.antt =====
-- frontend/src/ui.ts: custom parameter profiles. `cloneJson` is the identity on the values that the
-- API sends, and `equalJson` compares values with the order of their properties.
pub mod Controls
mod Tests
pub mod Paths
pub mod Json
pub mod Editing
pub mod Saving
pub mod Laws
use Prim.Native.Char.{Char, code}
use Prim.Native.String.{[], ◌∷◌}
use mathlib.Core.List.{List, [], ◌∷◌, map}
use federated_iot_platform.Prelude.{
  ℕ, zero, suc, ◌+◌, Bool, true, false, not, ◌&&◌, ◌||◌, Option, none, some, String, ◌==◌, ◌===◌,
  ltb, leb, if◌then◌else◌, filter, find?, any,
}
use federated_iot_platform.Js.{
  Value, null, undefined, bool, nat, num, int, str, obj, arr, end, get, text_or_empty, trim, truthy,
  is_nullish, is_record, is_array, items, strict_eq, includes, ◌or◌, begins_with, ◌++◌,
}
use federated_iot_platform.Js.Objects.{entries, fields_of, spread, with_field}
use Paths.{has_path, read_path}
use Json.{json_eq, json_eq_list}

pub record DraftAgent : Type 0 where
  pub agent : ℕ
  pub segment : Value
  pub parameters : Value

pub record Draft : Type 0 where
  pub base_profile : Value
  pub base_version_id : Value
  pub display_name : String
  pub shared_parameters : Value
  pub agents : List DraftAgent

abbrev pub is_agent_item : ℕ → Value → Bool
is_agent_item agent item = strict_eq (get "agent" item) (nat agent)

-- `baseProfile?.agents?.find(item => item.agent === agent)`.
unfoldable pub base_agent : Value → ℕ → Value
base_agent profile agent = elim (find? (is_agent_item agent) (items (get "agents" profile))) [
  | none ↦ undefined
  | some item ↦ item
]

abbrev pub base_parameters : Value → ℕ → Value
base_parameters profile agent = get "parameters" (base_agent profile agent) or obj end

abbrev pub draft_agent : Value → ℕ → DraftAgent
draft_agent profile agent = record {
  agent = agent;
  segment = get "segment" (base_agent profile agent);
  parameters = base_parameters profile agent;
}

unfoldable pub create_draft : Value → Draft
create_draft profile = record {
  base_profile = profile;
  base_version_id =
      if strict_eq (get "mode" profile) (str "CUSTOM")
      then get "base_version_id" profile or null
      else get "version_id" profile or null;
  display_name = "";
  shared_parameters = get "shared_parameters" profile or obj end;
  agents = draft_agent profile 1 ∷ draft_agent profile 2 ∷ draft_agent profile 3 ∷ [];
}

unfoldable pub draft_is_dirty : Draft → Bool
draft_is_dirty d =
    if not (truthy d.base_profile)
    then false
    else not (trim d.display_name === "")
      || not (json_eq d.shared_parameters (get "shared_parameters" d.base_profile))
      || not (
          json_eq_list (map (λ (a : DraftAgent). a.parameters) d.agents) (
            base_parameters d.base_profile 1
            ∷ base_parameters d.base_profile 2
            ∷ base_parameters d.base_profile 3
            ∷ []))

abbrev pub is_control : Char → Bool
is_control c = leb (code c) 31 || code c == 127

unfoldable pub has_control : String → Bool
has_control [] = false
has_control (c ∷ s) = is_control c || has_control s

-- `Array.from(s).length`: the number of code points.
unfoldable pub code_points : String → ℕ
code_points [] = 0
code_points (c ∷ s) = suc (code_points s)

pub data NameError : Type 0 where
  alias_required alias_invalid : NameError

pub record NameCheck : Type 0 where
  pub valid : Bool
  pub name : String
  pub error : Option NameError

unfoldable pub validate_name : String → NameCheck
validate_name value =
    let name = trim value in
    if name === ""
    then record { valid = false; name = name; error = some alias_required }
    else if ltb 128 (code_points name) || has_control name
    then record { valid = false; name = name; error = some alias_invalid }
    else record { valid = true; name = name; error = none }
