-- ===== src/Draft/Editing.antt =====
-- frontend/src/ui.ts: the editable paths of a profile, and one edit of a draft. A regular expression
-- `^shared_parameters\.` becomes a test of the text's start. The value of an edit is what
-- `inputValue` reads off the control, undefined for a parameter that is inherited.
use federated_iot_platform.Prelude.{
  Bool, true, false, not, ◌&&◌, Option, none, some, List, [], ◌∷◌, String, ◌===◌, if◌then◌else◌,
  filter, find?, map,
}
use federated_iot_platform.Js.{
  Value, undefined, null, bool, nat, num, int, str, obj, arr, Fields, end, get, text, is_record,
  is_array, items, strict_eq, includes, ◌or◌, num_eq, Num, without_prefix,
}
use federated_iot_platform.Js
use federated_iot_platform.Js.Objects.{entries, fields_of}
use federated_iot_platform.Prelude.Int.{pos}
use federated_iot_platform.Draft.{Draft, DraftAgent}
use federated_iot_platform.Draft.Paths.{path_parts, has_path, write_path, remove_path}

-- An item of `editable_paths`, a text or an object.
pub data Item : Type 0 where
  plain : String → Item
  detailed : Value → Item

-- One that `Object.entries` makes.
abbrev pub entry_item : (String × Value) → Item
entry_item (path, constraint) =
    detailed (obj (Js.field "path" (str path) (Js.field "constraint" constraint end)))

abbrev pub listed_item : Value → Item
listed_item (str s) = plain s
listed_item undefined = detailed undefined
listed_item v = detailed v

abbrev pub source_items : Value → List Item
source_items metadata =
    if is_array metadata
    then map listed_item (items metadata)
    else map entry_item (entries (fields_of metadata))

unfoldable pub profile_constraints : Value → Value
profile_constraints profile =
    get "paths" (get "constraints" profile)
    or (get "constraints" profile
        or (get "paths" (get "parameter_constraints" profile)
            or (get "parameter_constraints" profile or obj end)))

pub record Definition : Type 0 where
  pub path : Value
  pub relative : String
  pub parts : List String
  pub constraint : Value

abbrev pub relative_path : Value → String
relative_path (str s) = elim (without_prefix s "shared_parameters.") [ none ↦ s | some r ↦ r ]
relative_path undefined = ""
relative_path _ = ""

abbrev pub item_path : Item → Value
item_path (plain s) = str s
item_path (detailed v) = get "path" v or get "editable_path" v

abbrev pub item_constraint : Value → Item → String → Value
item_constraint constraints (plain s) relative = get s constraints or get relative constraints
item_constraint constraints (detailed v) relative =
    get "constraint" v
    or (get "constraints" v
        or (get (text (item_path (detailed v))) constraints or (get relative constraints or v)))

unfoldable pub definition : Value → Item → Definition
definition constraints item =
    let relative = relative_path (item_path item) in
    record {
      path = item_path item;
      relative = relative;
      parts = path_parts relative;
      constraint = obj (fields_of (item_constraint constraints item relative));
    }

abbrev pub fixed_paths : List String
fixed_paths = "split.agent_count" ∷ "global_surrogate.leave_one_out" ∷ []

unfoldable pub is_editable : Value → Definition → Bool
is_editable profile d =
    not (d.relative === "")
    && not (includes fixed_paths d.relative)
    && not (strict_eq (get "editable" d.constraint) (bool false))
    && has_path (get "shared_parameters" profile) d.parts

unfoldable pub editable_definitions : Value → List Definition
editable_definitions profile =
    filter (is_editable profile)
      (map (definition (profile_constraints profile)) (source_items (get "editable_paths" profile)))

-- `find(item => item.agent === n)` with the change of what it finds.
unfoldable pub update_agent : Num → (Value → Value) → List DraftAgent → Option (List DraftAgent)
update_agent n change [] = none
update_agent n change (a ∷ rest) =
    let others = update_agent n change rest in
    if num_eq (int (pos a.agent)) n
    then some (record a { parameters = change a.parameters } ∷ rest)
    else elim others [ none ↦ none | some changed ↦ some (a ∷ changed) ]

abbrev pub written : List String → Value → Value → Value
written parts value parameters = obj (write_path (fields_of parameters) parts value)

-- Where the control edits: all agents, or the agent of a number.
pub data Scope : Type 0 where
  shared : Scope
  agent_scope : Num → Scope

abbrev pub is_undefined : Value → Bool
is_undefined undefined = true
is_undefined null = false
is_undefined _ = false

unfoldable pub changed_parameters : List String → Value → Value → Value
changed_parameters parts value parameters =
    if is_undefined value then remove_path parameters parts else written parts value parameters

unfoldable pub edit : Scope → List String → Value → Draft → Option Draft
edit shared parts value d =
    if is_undefined value
    then some d
    else some (record d { shared_parameters = written parts value d.shared_parameters })
edit (agent_scope n) parts value d =
    elim (update_agent n (changed_parameters parts value) d.agents) [
      | none ↦ none
      | some agents ↦ some (record d { agents = agents })
    ]

-- `updateDraftValue` on the draft; `none` where it returns false.
unfoldable pub update_draft : Value → Scope → Value → Draft → Option Draft
update_draft path scope value d =
    elim (find? (λ item. strict_eq (str item.relative) path)
      (editable_definitions d.base_profile)) [
        | none ↦ none
        | some found ↦ edit scope found.parts value d
      ]
