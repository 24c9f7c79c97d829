-- ===== src/Draft/Controls/Leaves.antt =====
-- frontend/src/ui.ts: the fields of a draft's parameters, those that can be edited and the fixed ones.
use federated_iot_platform.Prelude.{
  ℕ, true, false, Option, none, some, List, [], ◌∷◌, String, ◌===◌, if◌then◌else◌, ◌≡◌, refl, arith,
  Bool-cases, inl, inr, eq_iff, ap, filter, sym, ◌∙◌,
}
use federated_iot_platform.Js
use federated_iot_platform.Js.{Value, includes}
use federated_iot_platform.Parameters.{parameter_groups, flatten_leaves}
use federated_iot_platform.Draft.{Draft}
use federated_iot_platform.Draft.Editing.{
  Definition, editable_definitions, is_editable, fixed_paths,
}
use federated_iot_platform.Draft.Controls.{Control, draft_control}

pub data Field : Type 0 where
  editable_field : Control → Field
  locked_field : Value → Field

-- What `definitionByPath` holds for a path: the last definition of it.
unfoldable pub definition_by_path : String → List Definition → Option Definition
definition_by_path relative [] = none
definition_by_path relative (d ∷ ds) = elim (definition_by_path relative ds) [
  | some later ↦ some later
  | none ↦ if d.relative === relative then some d else none
]

-- The field of a leaf, none for one that is neither editable nor fixed.
unfoldable pub field_of : List Definition → Draft → Option ℕ → String → Value → Option Field
unfolding definition_by_path draft_control
field_of definitions d agent relative value = elim (definition_by_path relative definitions) [
  | some definition ↦ some (editable_field (draft_control definition d agent))
  | none ↦ if includes fixed_paths relative then some (locked_field value) else none
]

unfoldable pub fields_of_leaves :
    List Definition → Draft → Option ℕ → String → List (String × Value) → List (String × Field)
unfolding field_of
fields_of_leaves definitions d agent group [] = []
fields_of_leaves definitions d agent group ((key, value) ∷ leaves) =
    let rest = fields_of_leaves definitions d agent group leaves in
    let relative = Js.◌++◌ group (Js.◌++◌ "." key) in
    elim (field_of definitions d agent relative value) [
      | none ↦ rest
      | some f ↦ (relative, f) ∷ rest
    ]

-- The groups that have a field.
unfoldable pub shown_groups :
    List Definition
    → Draft
    → Option ℕ
    → List (String × Value)
    → List (String × List (String × Field))
unfolding fields_of_leaves flatten_leaves
shown_groups definitions d agent [] = []
shown_groups definitions d agent ((group, values) ∷ groups) =
    let rest = shown_groups definitions d agent groups in
    elim (fields_of_leaves definitions d agent group (flatten_leaves values [])) [
      | [] ↦ rest
      | f ∷ fs ↦ (group, f ∷ fs) ∷ rest
    ]

-- `renderDraftParameterFields`, none where no path is editable.
unfoldable pub draft_fields : Draft → Option ℕ → Option (List (String × List (String × Field)))
unfolding shown_groups editable_definitions parameter_groups
draft_fields d agent = elim (editable_definitions d.base_profile) [
  | [] ↦ none
  | e ∷ es ↦ some (shown_groups (e ∷ es) d agent (parameter_groups d.base_profile))
]

true-false : true ≡ false → ⊥
true-false h = cc

is_editable-not_fixed :
    (profile : Value) (d : Definition)
    → is_editable profile d ≡ true
    → includes fixed_paths d.relative ≡ false
unfolding is_editable
is_editable-not_fixed profile d h = ground arith

definition_by_path-fixed :
    (profile : Value) (relative : String) (ds : List Definition)
    → includes fixed_paths relative ≡ true
    → definition_by_path relative (filter (is_editable profile) ds) ≡ none
unfolding definition_by_path
definition_by_path-fixed profile relative [] fixed = refl
definition_by_path-fixed profile relative (d ∷ ds) fixed =
    elim (Bool-cases (is_editable profile d)) [
      | inr e ↦ rw e (definition_by_path-fixed profile relative ds fixed)
      | inl e ↦ elim (Bool-cases (d.relative === relative)) [
        | inr n ↦ rw (e, definition_by_path-fixed profile relative ds fixed, n) refl
        | inl n ↦
            let same = ap (includes fixed_paths) ((eq_iff d.relative relative).0 n) in
            absurd (true-false (sym fixed ∙ sym same ∙ is_editable-not_fixed profile d e))
      ]
    ]

editable_definitions-fixed :
    (profile : Value) (relative : String)
    → includes fixed_paths relative ≡ true
    → definition_by_path relative (editable_definitions profile) ≡ none
unfolding editable_definitions
editable_definitions-fixed profile relative fixed =
    definition_by_path-fixed profile relative _ fixed

-- Whatever a profile declares as editable, a fixed path of its drafts is shown as locked.
pub field_of-fixed :
    (d : Draft) (agent : Option ℕ) (relative : String) (value : Value)
    → includes fixed_paths relative ≡ true
    → field_of (editable_definitions d.base_profile) d agent relative value
      ≡ some (locked_field value)
unfolding field_of
field_of-fixed d agent relative value fixed =
    rw (field_of, editable_definitions-fixed d.base_profile relative fixed, fixed) refl
