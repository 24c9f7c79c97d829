-- ===== src/Draft/Tests.antt =====
-- frontend/src/ui.ts: a custom profile with one editable path.
use federated_iot_platform.Prelude.{true, false, not, none, some, [], ◌∷◌, ◌≡◌, refl, filter}
use federated_iot_platform.Js.{
  Value, null, str, nat, obj, arr, cons, nil, Fields, end, field, get, lookup, is_nullish, trim,
}
use federated_iot_platform.Draft.Controls.{input_value, control_of, checkbox, boolean_choice}
use federated_iot_platform.Draft.Controls.Shown.{checked_input, chosen_input, control_of-changed}
use federated_iot_platform.Draft.{Draft, draft_is_dirty, validate_name, has_control, code_points}
use federated_iot_platform.Draft.Paths.{read_path, write_path, read-write_path}
use federated_iot_platform.Prelude.{Bool, Option, String}
use federated_iot_platform.Js.{bool}
use federated_iot_platform.Draft.Editing.{written, changed_parameters}
use federated_iot_platform.Draft.Saving.{
  Page, Payload, sent, begin_save, finish_save, build_payload, has_version, no_save, no_rename,
}
use federated_iot_platform.Draft.Laws.{begin_save-sent, finish_save-listed, IsLocked, IsSent}

abbrev parameters : Fields
parameters = field "local_gp" (obj (field "ell" (nat 4) end)) end

abbrev profile : Value
profile = obj (
    field "version_id" (str "v1") (
      field "shared_parameters" (obj parameters)
        (field "editable_paths" (arr (cons (str "local_gp.ell") nil)) end)))

read-write_path_example :
    read_path
      (obj (write_path parameters ("local_gp" ∷ "ell" ∷ []) (nat 9)))
      ("local_gp" ∷ "ell" ∷ [])
    ≡ nat 9
read-write_path_example = read-write_path parameters "local_gp" ("ell" ∷ []) (nat 9)

has_shared : is_nullish (get "shared_parameters" profile) ≡ false
unfolding get lookup
has_shared = refl

-- A draft of the profile that has a name.
abbrev named : Draft
named = record {
  base_profile = profile;
  base_version_id = str "v1";
  display_name = " slow ";
  shared_parameters = obj parameters;
  agents = [];
}

abbrev editing : Page
editing = record {
  profile = profile;
  custom_profile = null;
  custom_profiles = profile ∷ [];
  draft = some named;
  save = no_save;
  rename = no_rename;
  shows_shared = true;
}

abbrev saving : Page
saving = record editing {
  draft = some (record named { display_name = "slow" });
  save = record no_save { pending = true };
}

abbrev payload : Payload
payload = build_payload (record named { display_name = "slow" })

save_begins : begin_save editing ≡ sent saving payload
unfolding begin_save draft_is_dirty trim validate_name code_points has_control
save_begins = refl

begin_save-sent_example :
    IsLocked saving × ((d : Draft) × (saving.draft ≡ some d) × IsSent d payload)
begin_save-sent_example = begin_save-sent editing saving payload save_begins

abbrev made : Value
made = obj (field "version_id" (str "v2") end)

abbrev edited : Draft
edited = record named {
  display_name = "slow";
  shared_parameters = obj (field "local_gp" (obj (field "ell" (nat 9) end)) end);
}

made_version : get "version_id" made ≡ str "v2"
unfolding get lookup
made_version = refl

finish_save-listed_example :
    let q = finish_save made saving in
    (q.custom_profile ≡ made)
    × (q.draft ≡ none)
    × (filter (has_version (str "v2")) q.custom_profiles ≡ made ∷ [])
    × (filter (λ item. not (has_version (str "v2") item)) q.custom_profiles
        ≡ filter (λ item. not (has_version (str "v2") item)) saving.custom_profiles)
finish_save-listed_example = finish_save-listed made "v2" saving made_version

abbrev reads_none : Bool → String → Option Value
reads_none cut s = none

control_of-changed_example :
    let set = input_value reads_none (checked_input true) in
    let chosen = input_value reads_none (chosen_input "true") in
    let shared_now = written ("fusion" ∷ "enabled" ∷ []) set (obj end) in
    let own_now = changed_parameters ("fusion" ∷ "enabled" ∷ []) chosen (obj end) in
    (control_of none
        (read_path shared_now ("fusion" ∷ "enabled" ∷ []))
        ("fusion" ∷ "enabled" ∷ [])
        (obj end)
      ≡ checkbox true)
    × (read_path own_now ("fusion" ∷ "enabled" ∷ []) ≡ str "true")
    × (control_of (some own_now) (bool false) ("fusion" ∷ "enabled" ∷ []) (obj end)
        ≡ boolean_choice false false false)
unfolding get lookup
control_of-changed_example =
    control_of-changed reads_none end "fusion" ("enabled" ∷ []) (obj end) (bool false) true "true"
      refl refl refl
