-- ===== src/Diagnostics.antt =====
-- frontend/src/ui.ts: which point the workspace's diagnostics show.
pub mod Alarms
pub mod Loads
pub mod Selected
pub mod Traces
pub mod Series
mod Tests
use federated_iot_platform.Prelude.{
  ℕ, zero, suc, Bool, true, false, not, ◌&&◌, ◌||◌, Option, none, some, List, [], ◌∷◌, String, ◌==◌,
  ◌===◌, if◌then◌else◌, find?, map, get_elem?, length, ◌or_else◌, filter, any,
}
use federated_iot_platform.Prelude.Int.{ℤ, pos, negsuc, ltb_ℤ, ◌≤ℤ◌}
use federated_iot_platform.Js.{
  Value, undefined, null, str, nat, Num, int, get, is_nullish, is_array, items, number, finite?,
  text, strict_eq, ◌or◌,
}

unfoldable pub resource_items : Value → List Value
resource_items resource =
    if is_array (get "items" resource)
    then items (get "items" resource)
    else if is_array (get "data" resource)
    then items (get "data" resource)
    else items (get "points" resource)

-- The first of the keys that holds a finite number.
unfoldable pub point_value : List String → Value → Option ℤ
point_value [] point = none
point_value (k ∷ ks) point = elim (finite? (number (get k point))) [
  | none ↦ point_value ks point
  | some n ↦ some n
]

unfoldable pub point_values : List String → List Value → List ℤ
point_values keys [] = []
point_values keys (p ∷ ps) =
    let rest = point_values keys ps in elim (point_value keys p) [ none ↦ rest | some n ↦ n ∷ rest ]

abbrev pub running_index : Value → Num
running_index point =
    number (get "OriginalRunningIndex" point or (get "original_running_index" point or nat 0))

-- `left - right > 0`; a difference that is not finite counts as none.
abbrev pub comes_after : Num → Num → Bool
comes_after (int m) (int n) = ltb_ℤ n m
comes_after _ _ = false

unfoldable pub insert_point : Value → List Value → List Value
insert_point p [] = p ∷ []
insert_point p (q ∷ qs) =
    let rest = insert_point p qs in
    if comes_after (running_index p) (running_index q) then q ∷ rest else p ∷ q ∷ qs

-- A stable sort by the running index.
unfoldable pub point_sequence : List Value → List Value
point_sequence [] = []
point_sequence (p ∷ ps) = insert_point p (point_sequence ps)

unfoldable pub point_locator : Value → Option String
point_locator point =
    let value =
      get "OriginalRunningIndex" point
      or (get "original_running_index" point
          or (get "original_running_index" (get "result_locator" point)
              or get "point" (get "result_locator" point))) in
    if is_nullish value || strict_eq value (str "") then none else some (text value)

-- What is asked for: the alarm of an index for the shown run, a point of the chart, or nothing.
pub data Asked : Type 0 where
  alarm_asked : ℕ → Asked
  point_asked : ℕ → Asked
  nothing_asked : Asked

pub record Selection : Type 0 where
  pub requested : Bool
  pub locator : Option String
  pub point : Option Value

abbrev pub has_locator : String → Value → Bool
has_locator id candidate = elim (point_locator candidate) [
  | none ↦ false
  | some other ↦ other === id
]

abbrev pub value_at : List Value → ℕ → Value
value_at vs i = elim (get_elem? vs i) [ none ↦ undefined | some v ↦ v ]

abbrev pub chart_points : Value → List Value
chart_points summary = items (get "points" (get "chart" summary))

abbrev pub asked_value : Value → Value → Asked → Value
asked_value summary alarms (alarm_asked i) = value_at (resource_items alarms) i
asked_value summary alarms (point_asked i) = value_at (chart_points summary) i
asked_value summary alarms nothing_asked = undefined

abbrev pub is_asked : Asked → Bool
is_asked (alarm_asked i) = true
is_asked (point_asked i) = true
is_asked nothing_asked = false

-- `workspaceDiagnosticSelection`: the loaded result page first, then the points of the summary.
unfoldable pub diagnostic_selection : Value → Value → Value → Asked → Selection
diagnostic_selection summary results alarms asked =
    elim (point_locator (asked_value summary alarms asked)) [
      | none ↦ record { requested = is_asked asked; locator = none; point = none }
      | some id ↦ record {
        requested = true;
        locator = some id;
        point =
            find? (has_locator id) (point_sequence (resource_items results))
            or_else find? (has_locator id) (point_sequence (chart_points summary));
      }
    ]
