-- ===== src/Diagnostics/Traces.antt =====
-- frontend/src/ui.ts: the panel of traces: the split of each agent, the anchors, the preprocessing and
-- the files of a result.
use Prim.Native.String.{[], ◌∷◌}
use mathlib.Core.List.{List, [], ◌∷◌}
use federated_iot_platform.Prelude.{
  ℕ, zero, suc, Bool, true, false, not, ◌||◌, Option, none, some, String, ◌==◌, ◌===◌,
  if◌then◌else◌, length,
}
use federated_iot_platform.Prelude.Int.{ℤ}
use federated_iot_platform.Js.{
  Value, undefined, null, str, obj, Fields, end, field, get, number, finite?, is_nullish, is_record,
  text, truthy, upper, includes, lower, without_prefix, ◌or◌,
}
use federated_iot_platform.Js.Objects.{fields_of}
use federated_iot_platform.Diagnostics.{resource_items}
use federated_iot_platform.Diagnostics.Alarms.{alarm_scalar}

-- `traceNumber` before the number is formatted, `none` for the dash.
abbrev pub trace_number : Value → Option ℤ
trace_number v = finite? (number v)

-- `traceEntryValue`: the first of the keys that has a value.
unfoldable pub first_value : List String → Value → Value
first_value [] entry = undefined
first_value (k ∷ ks) entry =
    let rest = first_value ks entry in if is_nullish (get k entry) then rest else get k entry

unfoldable pub trace_entry_value : Value → List String → Value
unfolding first_value
trace_entry_value entry keys = if is_record entry then first_value keys entry else undefined

abbrev pub train_keys : List String
train_keys =
    "train" ∷ "training" ∷ "training_rows" ∷ "training_samples" ∷ "train_count" ∷ "training_count"
    ∷ "Train" ∷ []

abbrev pub calibration_keys : List String
calibration_keys =
    "calibration" ∷ "calibration_rows" ∷ "calibration_samples" ∷ "calibration_count" ∷ "Calibration"
    ∷ []

abbrev pub test_keys : List String
test_keys =
    "test" ∷ "testing" ∷ "test_rows" ∷ "testing_rows" ∷ "testing_samples" ∷ "test_count"
    ∷ "testing_count" ∷ "Test" ∷ []

-- What a card says of the split of an agent: a value as it is, the three numbers, or a dash.
pub data Split : Type 0 where
  scalar : String → Split
  parts : Option ℤ → Option ℤ → Option ℤ → Split
  unreadable : Split

abbrev pub is_undefined : Value → Bool
is_undefined undefined = true
is_undefined null = false
is_undefined _ = false

unfoldable pub split_of : Value → Split
unfolding trace_entry_value
split_of value =
    let train = trace_entry_value value train_keys in
    let calibration = trace_entry_value value calibration_keys in
    let test = trace_entry_value value test_keys in
    if not (is_record value)
    then scalar (alarm_scalar value)
    else if is_undefined train || is_undefined calibration || is_undefined test
    then unreadable
    else parts (trace_number train) (trace_number calibration) (trace_number test)

-- `replace(/^agent_?/i, "")`, and a dash for what is empty then.
abbrev pub dropped : ℕ → String → String
dropped zero s = s
dropped (suc n) [] = []
dropped (suc n) (c ∷ s) = dropped n s

unfoldable pub agent_label : String → String
agent_label key =
    let rest : String = elim (without_prefix (lower key) "agent_") [
      | some r ↦ dropped 6 key
      | none ↦ elim (without_prefix (lower key) "agent") [ some r ↦ dropped 5 key | none ↦ key ]
    ] in
    if rest === "" then "—" else rest

-- `traceSplitCards`: the agents of the summary with their splits, one dash where there is none.
unfoldable pub split_entries : Fields → List (String × Split)
unfolding agent_label split_of
split_entries end = []
split_entries (field k v fs) = (agent_label k, split_of v) ∷ split_entries fs

abbrev pub or_dash : List (String × Split) → List (String × Split)
or_dash [] = ("—", unreadable) ∷ []
or_dash (c ∷ cs) = c ∷ cs

unfoldable pub split_cards : Value → List (String × Split)
unfolding split_entries
split_cards summary = or_dash (split_entries (fields_of (get "split_summary" summary)))

-- `traceAnchorsCard`: the number of anchors and the two notes beside it.
pub record Anchors : Type 0 where
  pub count : Option ℤ
  pub leave_one_out : Option String
  pub fallbacks : Option (Option ℤ)

unfoldable pub anchors_card : Value → Anchors
unfolding trace_entry_value
anchors_card summary =
    let anchors = get "anchor_summary" summary or obj end in
    let loo = trace_entry_value anchors ("leave_one_out" ∷ "loo" ∷ []) in
    let fallbacks =
      trace_entry_value anchors
        ("support_fallbacks" ∷ "support_fallback_count" ∷ "fallback_count" ∷ []) in
    record {
      count = trace_number (trace_entry_value anchors ("public_anchors" ∷ []));
      leave_one_out = if is_undefined loo then none else some (alarm_scalar loo);
      fallbacks = if is_undefined fallbacks then none else some (trace_number fallbacks);
    }

-- The preprocessing card of `traceabilityPanel`: the rows before and after, and the note below them.
pub data RowNote : Type 0 where
  spikes : Option ℤ → RowNote
  contract : String → RowNote
  nothing : RowNote

pub record Preprocessing : Type 0 where
  pub rows : Option (Option ℤ × Option ℤ)
  pub note : RowNote

-- `v ?? w`, where `w` may be undefined.
unfoldable pub preprocessing_card : Value → Preprocessing
unfolding trace_entry_value
preprocessing_card summary =
    let p = get "preprocessing" summary or obj end in
    let counts = if is_record (get "counts" p) then get "counts" p else obj end in
    let raw = get "raw_rows" p or trace_entry_value counts ("raw_rows" ∷ []) in
    let running = get "running_rows" p or trace_entry_value counts ("running_rows" ∷ []) in
    let spike =
      get "spike_flags" p
      or (get "spike_rows" p or trace_entry_value counts ("spike_rows" ∷ "spike_flags" ∷ [])) in
    let version = get "preprocessing_contract_version" p or (get "contract_version" p or null) in
    record {
      rows =
          if is_undefined raw || is_undefined running
          then none
          else some (trace_number raw, trace_number running);
      note =
          if not (is_undefined spike)
          then spikes (trace_number spike)
          else if truthy version
          then contract (text version)
          else nothing;
    }

-- The files: how many are listed with the integrity of the result, and whether the manifest opens.
abbrev pub integrity_of : Value → Value
integrity_of summary = get "status" (get "artifact_integrity" summary) or str "—"

abbrev pub manifest_hash : Value → Value → Value
manifest_hash summary artifacts =
    get "manifest_sha256" artifacts
    or (get "manifest_sha256" (get "artifact_integrity" summary) or null)

unfoldable pub is_verified : Value → Bool
is_verified summary = includes ("VERIFIED" ∷ "COMMITTED" ∷ []) (upper (text (integrity_of summary)))

unfoldable pub can_open_manifest : Value → Bool
can_open_manifest artifacts = not (length (resource_items artifacts) == 0)
