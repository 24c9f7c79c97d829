-- ===== src/Mock.antt =====
-- frontend/src/testing/mock-api.ts: the runs that `MockPlatformApi` lists, page by page. `arrange` is
-- the sort of the runs by `localeCompare`, newest first.
pub mod Cursor
pub mod Enumerated
pub mod Rounds
pub mod Whole
mod Tests
use federated_iot_platform.Prelude.{
  ℕ, zero, suc, ◌+◌, ◌-◌, Bool, true, false, not, ◌&&◌, ◌||◌, Option, none, some, List, [], ◌∷◌,
  String, ◌==◌, ◌===◌, ltb, if◌then◌else◌, length, take, drop, filter, min, max,
}
use federated_iot_platform.Prelude.Int.{ℤ, pos, negsuc}
use federated_iot_platform.Js
use federated_iot_platform.Js.{
  Value, null, bool, nat, num, str, arr, obj, Fields, end, field, get, truthy, strict_eq, items_of,
  text, text_or_empty, upper_text, upper, lower, trim, contains, includes, number, finite?, ◌or◌,
}
use federated_iot_platform.Mock.Cursor.{cursor_text, read_cursor}
use federated_iot_platform.History.{terminal_statuses}

abbrev pub queue_statuses : List String
queue_statuses = "RUNNING" ∷ "CANCELLING" ∷ "QUEUED" ∷ []

abbrev pub dataset_name : Value → Value
dataset_name run =
    get "display_name" (get "dataset" run) or (get "dataset_display_name" run or str "")

-- A filter that is off, or whose value the run has.
abbrev pub unless_equal : Value → Value → Bool
unless_equal wanted actual = not (truthy wanted) || strict_eq actual wanted

-- The test of `listSimulations`; `before` is the order `<=` of texts.
unfoldable pub is_listed : (String → String → Bool) → Value → Value → Bool
is_listed before query run =
    let search = lower (trim (text_or_empty (get "search" query))) in
    let status = upper_text (get "status" query) in
    let mode = upper_text (get "run_mode" query) in
    let run_status = upper_text (get "status" run) in
    let created = text_or_empty (get "created_at" run) in
    (not (strict_eq (get "view" query) (str "history")) || includes terminal_statuses run_status)
    && (not (strict_eq (get "view" query) (str "queue")) || includes queue_statuses run_status)
    && unless_equal (get "run_id" query) (get "run_id" run)
    && (status === "" || run_status === status)
    && (mode === "" || upper_text (get "run_mode" run) === mode)
    && unless_equal (get "dataset_id" query) (get "dataset_id" (get "dataset" run))
    && unless_equal (get "parameter_profile_version_id" query) (get "parameter_version" run)
    && (not (truthy (get "date_from" query)) || before (text (get "date_from" query)) created)
    && (not (truthy (get "date_to" query)) || before created (text (get "date_to" query)))
    && (search === ""
        || contains
            (lower (Js.◌++◌ (text (get "run_id" run)) (Js.◌++◌ " " (text (dataset_name run)))))
            search)

-- `Math.max(1, Math.min(500, Number(query.limit ?? 100) || 100))`, for limits that are finite.
abbrev pub clamped : Option ℤ → ℕ
clamped none = 100
clamped (some (pos zero)) = 100
clamped (some (pos (suc n))) = min 500 (suc n)
clamped (some (negsuc n)) = 1

unfoldable pub page_limit : Value → ℕ
page_limit query = clamped (finite? (number (get "limit" query or nat 100)))

-- One page from an offset of the listed runs.
unfoldable pub page_at : ℕ → ℕ → List Value → Value
page_at offset limit runs =
    let page = take limit (drop offset runs) in
    let next = offset + length page in
    let more = ltb next (length runs) in
    let cursor : Value = if more then str (cursor_text next) else null in
    let total = nat (length runs) in
    obj (
      field "items" (arr (items_of page)) (
        field "next_cursor" cursor (
          field "has_more" (bool more) (
            field "total" total (
              field "meta"
                (obj (
                  field "next_cursor" cursor
                    (field "has_more" (bool more) (field "total" total end))))
                end)))))

unfoldable pub list_runs :
    (String → String → Bool) → (List Value → List Value) → Value → List Value → Value
list_runs before arrange query runs =
    page_at (read_cursor (text_or_empty (get "cursor" query))) (page_limit query)
      (arrange (filter (is_listed before query) runs))
