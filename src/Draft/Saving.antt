-- ===== src/Draft/Saving.antt =====
-- frontend/src/ui.ts: the state of the custom profile page and what changes it. A save and a rename
-- are split at their requests. Notifications and renderings are left out.
use federated_iot_platform.Prelude.{
  ℕ, Bool, true, false, not, ◌||◌, Option, none, some, is_some, List, [], ◌∷◌, String, ◌==◌, ◌===◌,
  if◌then◌else◌, filter, find?, map,
}
use federated_iot_platform.Js.{
  Value, undefined, null, obj, Fields, end, get, trim, truthy, strict_eq, ◌or◌,
}
use federated_iot_platform.Draft.{
  Draft, DraftAgent, create_draft, draft_is_dirty, validate_name, NameCheck, NameError,
}
use federated_iot_platform.Draft.Paths.{has_path, read_path, write_path}
use federated_iot_platform.Draft.Editing.{Definition, Scope, editable_definitions, update_draft}

-- The error that the page shows: of the name, of the base version, or of a call of the API.
pub data Problem : Type 0 where
  bad_name : NameError → Problem
  base_unavailable : Problem
  rename_invalid : Problem
  rename_unavailable : Problem
  api_failed : Value → Problem

pub record Save : Type 0 where
  pub pending : Bool
  pub version_id : Value
  pub problem : Option Problem

pub record Rename : Type 0 where
  pub editing : Bool
  pub pending : Bool
  pub problem : Option Problem

pub record Page : Type 0 where
  pub profile : Value
  pub custom_profile : Value
  pub custom_profiles : List Value
  pub draft : Option Draft
  pub save : Save
  pub rename : Rename
  pub shows_shared : Bool

abbrev pub no_save : Save
no_save = record { pending = false; version_id = null; problem = none }

abbrev pub no_rename : Rename
no_rename = record { editing = false; pending = false; problem = none }

abbrev pub shown_profile : Page → Value
shown_profile p = p.custom_profile or p.profile

-- `beginCustomDraft`; `none` where it returns false, as below.
unfoldable pub begin_draft : Page → Option Page
begin_draft p =
    if not (truthy (shown_profile p)) || p.save.pending
    then none
    else some (record p {
      draft = some (create_draft (shown_profile p));
      shows_shared = true;
      save = no_save;
      rename = no_rename;
    })

abbrev pub has_version : Value → Value → Bool
has_version id profile = strict_eq (get "version_id" profile) id

-- `selectCustomProfile`: the page after it and its result.
unfoldable pub select_profile : Value → Page → Page × Bool
select_profile id p =
    let selected = find? (has_version id) p.custom_profiles in
    let cleared = record p {
      custom_profile = elim selected [ none ↦ null | some found ↦ found ];
      draft = none;
      save = no_save;
      rename = no_rename;
      shows_shared = true;
    } in
    elim selected [
      | none ↦ (cleared, false)
      | some found ↦ elim (begin_draft cleared) [
        | none ↦ (cleared, false)
        | some begun ↦ (begun, true)
      ]
    ]

-- `updateDraftValue`.
unfoldable pub edit_page : Value → Scope → Value → Page → Option Page
edit_page path scope value p = elim p.draft [
  | none ↦ none
  | some d ↦ elim (update_draft path scope value d) [
    | none ↦ none
    | some changed ↦ some (record p { draft = some changed; save = no_save })
  ]
]

-- `resetCustomDraft`.
unfoldable pub reset_draft : Page → Option Page
reset_draft p = elim p.draft [
  | none ↦ none
  | some d ↦
      if p.save.pending
      then none
      else some (record p { draft = some (create_draft d.base_profile); save = no_save })
]

abbrev pub is_agent : ℕ → DraftAgent → Bool
is_agent n a = a.agent == n

abbrev pub segment_of : ℕ → Draft → Value
segment_of n d = elim (find? (is_agent n) d.agents) [ none ↦ undefined | some a ↦ a.segment ]

abbrev pub inherited : Draft → ℕ → DraftAgent
inherited d n = record { agent = n; segment = segment_of n d; parameters = obj end }

-- `restoreCustomDraftDefaults`.
unfoldable pub restore_defaults : Page → Option Page
restore_defaults p = elim p.draft [
  | none ↦ none
  | some d ↦
      if p.save.pending || not (truthy (get "shared_parameters" p.profile))
      then none
      else some (record p {
        draft = some (record d {
          shared_parameters = get "shared_parameters" p.profile;
          agents = inherited d 1 ∷ inherited d 2 ∷ inherited d 3 ∷ [];
        });
        save = no_save;
        shows_shared = true;
      })
]

-- `discardCustomDraft`.
unfoldable pub discard_draft : Page → Option Page
discard_draft p =
    if not (is_some p.draft) || p.save.pending
    then none
    else some (record p { draft = none; save = no_save; shows_shared = true })

-- The body of `createParameterProfile`.
pub record Payload : Type 0 where
  pub display_name : String
  pub base_version_id : Value
  pub shared_parameters : Value
  pub agents : List DraftAgent

-- The parameters of an agent that the draft overrides.
unfoldable pub overrides : List Definition → Value → Fields → Fields
overrides [] current made = made
overrides (d ∷ rest) current made =
    overrides rest current (
      if has_path current d.parts
      then write_path made d.parts (read_path current d.parts)
      else made)

abbrev pub current_parameters : ℕ → Draft → Value
current_parameters n d = elim (find? (is_agent n) d.agents) [
  | none ↦ obj end
  | some a ↦ a.parameters or obj end
]

abbrev pub payload_agent : Draft → ℕ → DraftAgent
payload_agent d n = record {
  agent = n;
  segment = undefined;
  parameters = obj (overrides (editable_definitions d.base_profile) (current_parameters n d) end);
}

-- `buildCustomProfilePayload`; an agent of it has no segment.
unfoldable pub build_payload : Draft → Payload
build_payload d = record {
  display_name = trim d.display_name;
  base_version_id = d.base_version_id or null;
  shared_parameters = d.shared_parameters or obj end;
  agents = payload_agent d 1 ∷ payload_agent d 2 ∷ payload_agent d 3 ∷ [];
}

-- What `saveCustomDraft` does before its request.
pub data Started : Type 0 where
  ignored : Started
  refused : Page → Started
  sent : Page → Payload → Started

abbrev pub problem_of : NameCheck → Option Problem
problem_of c = elim c.error [ none ↦ some base_unavailable | some e ↦ some (bad_name e) ]

unfoldable pub begin_save : Page → Started
begin_save p = elim p.draft [
  | none ↦ ignored
  | some d ↦
      let check = validate_name d.display_name in
      let named = record d { display_name = check.name } in
      if p.save.pending || not (draft_is_dirty d)
      then ignored
      else if not check.valid || not (truthy d.base_version_id)
      then refused (record p {
        save = record { pending = false; version_id = null; problem = problem_of check };
      })
      else sent
          (record p {
            draft = some named;
            save = record { pending = true; version_id = null; problem = none };
          })
          (build_payload named)
]

-- The answer to the request, and its error.
unfoldable pub finish_save : Value → Page → Page
finish_save made p = record p {
  custom_profile = made;
  custom_profiles =
      made ∷ filter (λ item. not (has_version (get "version_id" made) item)) p.custom_profiles;
  draft = none;
  shows_shared = true;
  save = record { pending = false; version_id = get "version_id" made; problem = none };
  rename = no_rename;
}

unfoldable pub fail_save : Value → Page → Page
fail_save error p = record p {
  save = record { pending = false; version_id = null; problem = some (api_failed error) };
}

-- `renameCustomProfile` before its request, which sends the trimmed name, and after it.
pub data RenameStarted : Type 0 where
  rename_ignored : RenameStarted
  rename_refused : Page → RenameStarted
  rename_sent : Page → Value → String → RenameStarted

unfoldable pub begin_rename : String → Page → RenameStarted
begin_rename name p =
    if not (truthy p.custom_profile) || is_some p.draft || p.rename.pending
    then rename_ignored
    else if trim name === ""
    then rename_refused (record p {
      rename = record { editing = true; pending = false; problem = some rename_invalid };
    })
    else rename_sent
        (record p { rename = record { editing = true; pending = true; problem = none } })
        (get "version_id" p.custom_profile) (trim name)

abbrev pub failed_rename : Problem → Page → Page
failed_rename e p = record p {
  rename = record { editing = true; pending = false; problem = some e };
}

unfoldable pub finish_rename : Value → Value → Page → Page
finish_rename id renamed p =
    if not (truthy renamed) || not (has_version id renamed)
    then failed_rename rename_unavailable p
    else record p {
      custom_profile = renamed;
      custom_profiles =
          map (λ item. if has_version id item then renamed else item) p.custom_profiles;
      rename = no_rename;
    }
