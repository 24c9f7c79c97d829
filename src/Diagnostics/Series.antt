-- ===== src/Diagnostics/Series.antt =====
-- frontend/src/ui.ts: the two series of the workspace's diagnostics, their windows and captions.
use federated_iot_platform.Prelude.{
  ℕ, zero, suc, ◌-◌, ◌≤◌, Bool, true, false, not, Option, none, some, List, [], ◌∷◌, String,
  if◌then◌else◌, length, take_last, map, ◌≡◌, arith, length-drop,
}
use federated_iot_platform.Prelude.Int.{ℤ, pos, negsuc}
use federated_iot_platform.Js.{
  Value, null, nat, Num, nan, infinity, int, str, num, get, number, truthy_num, Fields, end, field,
  ◌or◌,
}
use federated_iot_platform.Diagnostics.{
  resource_items, point_value, point_values, point_sequence, chart_points, Selection,
}

pub data SeriesKind : Type 0 where
  fusion recent : SeriesKind

pub data SeriesSource : Type 0 where
  from_summary from_results from_nothing : SeriesSource

pub record Series : Type 0 where
  pub label_key : String
  pub keys : List String
  pub values : List ℤ

pub record SeriesData : Type 0 where
  pub source : SeriesSource
  pub window : Option Num
  pub series : List Series

abbrev pub definitions : SeriesKind → List (String × List String)
definitions fusion =
    ("diagnostic.fusionAlpha", "FusionAlpha" ∷ "fusion_alpha" ∷ [])
    ∷ ("diagnostic.globalSupport", "GlobalSupport" ∷ "global_support" ∷ [])
    ∷ []
definitions recent =
    ("diagnostic.localRmse", "RecentLocalRMSE" ∷ "LocalRMSE" ∷ "local_rmse" ∷ [])
    ∷ ("diagnostic.globalRmse", "RecentGlobalRMSE" ∷ "GlobalRMSE" ∷ "global_rmse" ∷ [])
    ∷ (
      "diagnostic.intervalHalfWidth",
      "FusedHalfWidth" ∷ "IntervalHalfWidth" ∷ "interval_half_width" ∷ [],
    )
    ∷ []

unfoldable pub configured_window : Value → Value → Num
configured_window summary results = number (
    get "window_size" results
    or (get "window" results or (get "error_window" (get "diagnostic_summary" summary) or nat 0)))

-- `configuredWindow > 0 ? points.slice(-configuredWindow) : points`.
unfoldable pub in_window : Num → List Value → List Value
in_window (int (pos zero)) ps = ps
in_window (int (pos (suc n))) ps = take_last (suc n) ps
in_window (int (negsuc n)) ps = ps
in_window (infinity negative) ps = ps
in_window nan ps = ps

abbrev pub is_empty : List Value → Bool
is_empty [] = true
is_empty (p ∷ ps) = false

unfoldable pub source_points : SeriesKind → Value → Value → List Value
source_points fusion summary results =
    let shown = point_sequence (chart_points summary) in
    if is_empty shown then point_sequence (resource_items results) else shown
source_points recent summary results = point_sequence (resource_items results)

unfoldable pub series_points : SeriesKind → Value → Value → List Value
unfolding source_points in_window configured_window
series_points fusion summary results = source_points fusion summary results
series_points recent summary results =
    in_window (configured_window summary results) (source_points recent summary results)

abbrev pub series_of : List Value → String × List String → Series
series_of points (label, keys) = record {
  label_key = label;
  keys = keys;
  values = point_values keys points;
}

unfoldable pub series_window : SeriesKind → Num → ℕ → Option Num
series_window fusion w n = none
series_window recent w n = some (if truthy_num w then w else int (pos n))

unfoldable pub series_source : SeriesKind → Bool → Bool → SeriesSource
series_source kind true from_chart = from_nothing
series_source fusion false true = from_summary
series_source fusion false false = from_results
series_source recent false from_chart = from_results

-- `workspaceDiagnosticSeries`.
unfoldable pub diagnostic_series : Value → Value → SeriesKind → SeriesData
unfolding series_points series_window series_source
diagnostic_series summary results kind =
    let points = series_points kind summary results in
    record {
      source =
          series_source kind (is_empty points)
            (not (is_empty (point_sequence (chart_points summary))));
      window = series_window kind (configured_window summary results) (length points);
      series = map (series_of points) (definitions kind);
    }

-- The number of `diagnosticValueText` before it is written with two decimals, `none` for the dash.
abbrev pub last_value : List ℤ → Option ℤ
last_value [] = none
last_value (v ∷ []) = some v
last_value (v ∷ w ∷ vs) = last_value (w ∷ vs)

unfoldable pub diagnostic_value : Series → Selection → Option ℤ
diagnostic_value s selection =
    if selection.requested
    then elim selection.point [ none ↦ none | some p ↦ point_value s.keys p ]
    else last_value s.values

abbrev pub locator_text : Option String → Value
locator_text none = null
locator_text (some s) = str s

abbrev pub window_value : Option Num → Value
window_value none = nat 0
window_value (some n) = num n

-- `diagnosticMetadata`: the key of the caption and its variables.
unfoldable pub diagnostic_metadata : SeriesData → Selection → SeriesKind → String × Fields
diagnostic_metadata d selection kind =
    if selection.requested
    then elim selection.point [
      | none ↦ ("diagnostic.selectedPointUnavailable", end)
      | some p ↦ ("diagnostic.selectedPoint", field "point" (locator_text selection.locator) end)
    ]
    else elim kind [
      | fusion ↦ ("diagnostic.pointSynchronized", end)
      | recent ↦ ("diagnostic.window", field "count" (window_value d.window) end)
    ]

length-point_values :
    (keys : List String) (ps : List Value) → length (point_values keys ps) ≤ length ps
unfolding point_values
length-point_values keys [] = omega arith
length-point_values keys (p ∷ ps) = ground (arith, length-point_values keys ps)

abbrev pub AllAtMost : ℕ → List Series → Type 0
AllAtMost n [] = Unit
AllAtMost n (s ∷ ss) = (length s.values ≤ n) × AllAtMost n ss

-- Where a window of n points is configured, no recent series shows more than n values.
pub diagnostic_series-AllAtMost :
    (summary results : Value) (n : ℕ)
    → configured_window summary results ≡ int (pos (suc n))
    → AllAtMost (suc n) (diagnostic_series summary results recent).series
unfolding diagnostic_series
diagnostic_series-AllAtMost summary results n h =
    let points = take_last (suc n) (point_sequence (resource_items results)) in
    rw h (
      omega (
        arith,
        length-drop (length (point_sequence (resource_items results)) - suc n)
            (point_sequence (resource_items results)),
        length-point_values ("RecentLocalRMSE" ∷ "LocalRMSE" ∷ "local_rmse" ∷ []) points,
        length-point_values ("RecentGlobalRMSE" ∷ "GlobalRMSE" ∷ "global_rmse" ∷ []) points,
        length-point_values ("FusedHalfWidth" ∷ "IntervalHalfWidth" ∷ "interval_half_width" ∷ [])
            points,
      ))
