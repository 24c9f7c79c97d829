-- ===== src/Draft/Controls/Shown.antt =====
-- frontend/src/ui.ts: what a control shows of a boolean that was changed on it.
use federated_iot_platform.Prelude.{
  Bool, true, false, Option, List, ◌∷◌, String, ◌===◌, ◌≡◌, refl, some, none,
}
use federated_iot_platform.Js.{Value, Fields, bool, str, obj, get, strict_eq, ◌or◌}
use federated_iot_platform.Display.{normalize_constraint, own_kind}
use federated_iot_platform.Draft.Paths.{read_path, read-write_path, has-write_path}
use federated_iot_platform.Draft.Editing.{changed_parameters, written}
use federated_iot_platform.Draft.Controls.{Input, input_value, checkbox, boolean_choice, control_of}

-- A change of the checkbox that all agents share, and of the choice that an agent has of its own.
abbrev pub checked_input : Bool → Input
checked_input b = record { value_type = "boolean"; is_checkbox = true; checked = b; value = "on" }

abbrev pub chosen_input : String → Input
chosen_input s = record { value_type = "boolean"; is_checkbox = false; checked = false; value = s }

-- A shared boolean is shown as it was set. A boolean of an agent is not: after a choice other than that
-- of inheriting, what was written is the text of the option, and no option is shown as selected.
pub control_of-changed :
    (reads : Bool → String → Option Value) (fs : Fields) (k : String) (ks : List String)
    (constraint shared : Value) (b : Bool) (s : String)
    → (get "type" constraint or str (own_kind shared)) ≡ str "boolean"
    → (get "type" constraint or str "boolean") ≡ str "boolean"
    → (s === "__inherit__") ≡ false
    → let set = input_value reads (checked_input b) in
      let chosen = input_value reads (chosen_input s) in
      let shared_now = written (k ∷ ks) set (obj fs) in
      let own_now = changed_parameters (k ∷ ks) chosen (obj fs) in
      (control_of none (read_path shared_now (k ∷ ks)) (k ∷ ks) constraint ≡ checkbox b)
      × (read_path own_now (k ∷ ks) ≡ str s)
      × (control_of (some own_now) shared (k ∷ ks) constraint ≡ boolean_choice false false false)
unfolding input_value changed_parameters control_of normalize_constraint strict_eq
control_of-changed reads fs k ks constraint shared b s own_type set_type other =
    let there = has-write_path fs k ks (str s) in
    let text_there = read-write_path fs k ks (str s) in
    (
      rw (read-write_path fs k ks (bool b), set_type) refl,
      rw other text_there,
      rw (other, own_type, there, text_there) refl,
    )
