-- ===== src/Draft/Controls.antt =====
-- frontend/src/ui.ts: the controls of a draft's parameters and what is read off them. `reads` is the
-- finite number that `Number` makes of a text, cut to its integer part where that is asked for.
pub mod Shown
pub mod Leaves
use federated_iot_platform.Prelude.{
  ℕ, zero, suc, Bool, true, false, not, ◌&&◌, ◌||◌, Option, none, some, List, [], ◌∷◌, String, ◌==◌,
  ◌===◌, if◌then◌else◌, find?, map, ◌≡◌, refl, arith, is_some,
}
use federated_iot_platform.Js.{
  Value, undefined, null, bool, num, str, obj, arr, Num, Fields, end, truthy, strict_eq, text,
  items, ◌or◌, get,
}
use federated_iot_platform.Display.{Constraint, normalize_constraint, own_kind}
use federated_iot_platform.Draft.{Draft, DraftAgent}
use federated_iot_platform.Draft.Paths.{read_path, has_path, write_path, read-write_path}
use federated_iot_platform.Draft.Editing.{Definition, changed_parameters, written}

-- The control that a change was made on: its `valueType`, whether it is a checkbox, and its state.
pub record Input : Type 0 where
  pub value_type : String
  pub is_checkbox : Bool
  pub checked : Bool
  pub value : String

unfoldable pub input_value : (Bool → String → Option Value) → Input → Value
input_value reads input =
    let number : Value = elim (reads (input.value_type === "integer") input.value) [
      | none ↦ undefined
      | some n ↦ n
    ] in
    if input.value_type === "boolean" && input.is_checkbox
    then bool input.checked
    else if input.value === "__inherit__"
    then undefined
    else if input.value_type === "integer" || input.value_type === "number"
    then (if input.value === "" then undefined else number)
    else str input.value

-- What a control shows: a checkbox; a choice with its selected options, that of inheriting first where
-- it has one; or a field with the value it shows, its bounds, and whether it hints at what it inherits.
pub data Control : Type 0 where
  checkbox : Bool → Control
  boolean_choice : Bool → Bool → Bool → Control
  choice : Option Bool → List (Value × Bool) → Control
  entry : Bool → Option Value → Option Num → Option Num → Bool → Control

abbrev pub bound : Value → Option Num
bound (num n) = some n
bound undefined = none
bound _ = none

-- The own parameters of the agent that is edited, `none` for those that all agents share.
unfoldable pub own_parameters : Option ℕ → Draft → Option Value
own_parameters none d = none
own_parameters (some zero) d = none
own_parameters (some (suc n)) d = elim (find? (λ a. a.agent == suc n) d.agents) [
  | none ↦ some (obj end)
  | some a ↦ some (a.parameters or obj end)
]

-- The control for a path, over the own parameters of the agent and the shared value.
unfoldable pub control_of : Option Value → Value → List String → Value → Control
control_of own shared_value parts constraint =
    let has_override : Bool = elim own [ none ↦ true | some p ↦ has_path p parts ] in
    let value : Value = elim own [ none ↦ shared_value | some p ↦ read_path p parts ] in
    let c = normalize_constraint constraint shared_value in
    let for_agent = is_some own in
    let integral = strict_eq c.kind (str "integer") in
    let numeric = integral || strict_eq c.kind (str "number") in
    if strict_eq c.kind (str "boolean") && not for_agent
    then checkbox (truthy value)
    else if strict_eq c.kind (str "boolean")
    then boolean_choice (not has_override) (strict_eq value (bool true))
        (strict_eq value (bool false))
    else if truthy c.allowed_values
    then choice (if for_agent then some (not has_override) else none)
        (map (λ item. (item, text value === text item)) (items c.allowed_values))
    else entry numeric (if has_override then some value else none) (bound c.min) (bound c.max)
        (for_agent && not has_override)

-- `renderDraftControl`.
unfoldable pub draft_control : Definition → Draft → Option ℕ → Control
unfolding own_parameters control_of
draft_control definition d agent =
    control_of (own_parameters agent d) (read_path d.shared_parameters definition.parts)
      definition.parts definition.constraint
