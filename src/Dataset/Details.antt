-- ===== src/Dataset/Details.antt =====
-- frontend/src/ui.ts: what the data page shows of a dataset beside its preflight. Amounts are given as
-- the values that are formatted.
use federated_iot_platform.Prelude.{
  Bool, true, not, ◌&&◌, Option, none, some, List, [], ◌∷◌, String, ◌==◌, ◌===◌, if◌then◌else◌,
  length, filter, map, ◌≡◌, refl, arith, ◌↔◌,
}
use federated_iot_platform.Js.Equality.{strict_eq-str}
use federated_iot_platform.Js
use federated_iot_platform.Js.{
  Value, undefined, null, bool, num, str, arr, obj, Num, int, nan, infinity, get, truthy,
  is_nullish, is_array, items, items_of, list_of, text, strict_eq, ◌or◌,
}

-- `DATASET_COLUMNS` of frontend/src/api/contract.ts.
abbrev pub dataset_columns : List String
dataset_columns = "Time_base" ∷ "dzdl_1" ∷ "dzdl_2" ∷ "dzdl_3" ∷ "dzdl_4" ∷ "zl" ∷ "sd" ∷ []

unfoldable pub same_columns : List Value → List String → Bool
same_columns [] known = true
same_columns (c ∷ cs) [] = strict_eq c undefined && same_columns cs []
same_columns (c ∷ cs) (k ∷ ks) = strict_eq c (str k) && same_columns cs ks

-- `datasetHeaderMatchesContract`.
unfoldable pub header_matches : Value → Bool
unfolding same_columns
header_matches dataset =
    is_array (get "columns" dataset)
    && (length (items (get "columns" dataset)) == length dataset_columns
        && same_columns (items (get "columns" dataset)) dataset_columns)

abbrev pub preprocessing_of : Value → Value
preprocessing_of dataset = get "algorithm_preprocessing" dataset or null

-- `datasetPreprocessingCounts`, in the order of its properties.
pub record RowCounts : Type 0 where
  pub raw_rows : Value
  pub invalid_numeric_rows : Value
  pub stop_rows : Value
  pub suspicious_rows : Value
  pub running_rows : Value
  pub spike_rows : Value

unfoldable pub preprocessing_counts : Value → RowCounts
preprocessing_counts preprocessing =
    let counts = get "counts" preprocessing in
    record {
      raw_rows = get "raw_rows" counts or null;
      invalid_numeric_rows = get "invalid_numeric_rows" counts or null;
      stop_rows = get "stop_rows" counts or null;
      suspicious_rows = get "suspicious_rows" counts or null;
      running_rows = get "running_rows" counts or null;
      spike_rows = get "spike_rows" counts or null;
    }

-- Whether the file picker waits for an upload, and the name that it shows.
abbrev pub upload_pending : Value → Bool
upload_pending upload = not (is_nullish (get "percent" upload))

unfoldable pub selected_file : Value → Option String
selected_file upload =
    if truthy (get "fileName" upload) then some (text (get "fileName" upload)) else none

abbrev pub numbered : Value → Value
numbered v = if is_nullish v then null else str (Js.◌++◌ "#" (text v))

abbrev pub is_shown : String × Value → Bool
is_shown (k, v) = not (is_nullish v) && not (strict_eq v (str ""))

-- `preflightRows`, each a key and a value; `label` is the label of the preflight, and `diagnostic` and
-- `stage` are those of its failure.
unfoldable pub preflight_rows : Value → String → Value → Value → List (String × Value)
preflight_rows dataset label diagnostic stage =
    let worker = get "preflight" dataset in
    filter is_shown (
      ("data.preflightJob", get "job_id" worker)
      ∷ (
        "data.preflightStatus",
        str (
            if truthy (get "status" worker)
            then Js.◌++◌ label (Js.◌++◌ " · " (text (get "status" worker)))
            else label),
      )
      ∷ ("data.preflightQueuePosition", numbered (get "queue_position" worker))
      ∷ ("data.preflightStage", get "stage" worker)
      ∷ ("data.preflightAttempt", get "attempt_id" worker)
      ∷ ("data.preflightLease", get "lease_state" worker)
      ∷ ("data.preflightEvent", numbered (get "latest_event_id" worker))
      ∷ ("data.validationStarted", get "validation_started_at" dataset)
      ∷ ("data.validationFinished", get "validation_finished_at" dataset)
      ∷ ("data.diagnosticId", diagnostic)
      ∷ ("data.errorStage", stage)
      ∷ [])

-- `preprocessingMetadataValue(preprocessing, "time")`.
unfoldable pub time_range : Value → String
time_range preprocessing =
    let start = get "start" (get "time" preprocessing) or null in
    let finish = get "end" (get "time" preprocessing) or null in
    if truthy start && truthy finish
    then Js.◌++◌ (text start) (Js.◌++◌ " — " (text finish))
    else "—"

-- The numbers of `preprocessingMetadataValue(preprocessing, "sampling")`: the median and the bounds that
-- are numbers, `none` where a dash is shown.
abbrev pub finite_number : Value → Option Value
finite_number (num (int n)) = some (num (int n))
finite_number undefined = none
finite_number _ = none

abbrev pub some_of : List (Option Value) → List Value
some_of [] = []
some_of (none ∷ os) = some_of os
some_of (some v ∷ os) = v ∷ some_of os

unfoldable pub sampling : Value → Option (Value × List Value)
sampling preprocessing =
    let period = get "sampling_period_ms" (get "time" preprocessing) or null in
    elim (finite_number (get "median" period)) [
      | none ↦ none
      | some median ↦ some (
        median,
        some_of (finite_number (get "min" period) ∷ finite_number (get "max" period) ∷ []),
      )
    ]

-- `technicalValue`: a text, or a value that is written as JSON.
pub data Technical : Type 0 where
  plain : String → Technical
  as_json : Value → Technical

unfoldable pub technical_value : Value → Technical
technical_value undefined = plain "—"
technical_value null = plain "—"
technical_value (str s) = plain (if s === "" then "—" else s)
technical_value (num n) = plain (text (num n))
technical_value (bool b) = plain (text (bool b))
technical_value v = as_json v

same_columns-items_of :
    (cs : List Value) (ks : List String)
    → length cs ≡ length ks
    → same_columns cs ks ≡ true
    → cs ≡ map str ks
unfolding same_columns
same_columns-items_of [] [] e h = refl
same_columns-items_of [] (k ∷ ks) e h = absurd (omega arith)
same_columns-items_of (c ∷ cs) [] e h = absurd (omega arith)
same_columns-items_of (c ∷ cs) (k ∷ ks) e h =
    ground (arith, strict_eq-str c k, same_columns-items_of cs ks (omega arith))

-- The header check accepts a dataset exactly if its columns are those of the contract, in their order.
pub header_matches_iff :
    (dataset : Value)
    → (header_matches dataset ≡ true)
      ↔ (is_array (get "columns" dataset) ≡ true)
        × (items (get "columns" dataset) ≡ map str dataset_columns)
unfolding header_matches
header_matches_iff dataset = (
  λ h. (
    ground arith,
    same_columns-items_of (items (get "columns" dataset)) dataset_columns (ground arith)
        (ground arith),
  ),
  λ (a, e). rw (a, e) (unfold strict_eq in refl),
)
