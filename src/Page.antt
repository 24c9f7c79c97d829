-- ===== src/Page.antt =====
-- frontend/src/ui.ts: the labels of states and parameters, and what is written into markup.
pub mod Labelled
pub mod Escaped
mod Tests
use Prim.Native.Char.{Char, code}
use Prim.Native.String.{[], ◌∷◌}
use mathlib.Core.List.{List, [], ◌∷◌}
use federated_iot_platform.Prelude.{
  ℕ, Bool, true, false, ◌&&◌, ◌||◌, Option, none, some, String, ◌==◌, ◌===◌, if◌then◌else◌, leb,
}
use federated_iot_platform.Js.{Value, text_or_empty, upper}
use federated_iot_platform.Api.{joined}

unfoldable pub status_labels : List (String × String)
status_labels =
    ("INVALID", "status.invalid")
    ∷ ("VALID", "status.valid")
    ∷ ("VALIDATING", "status.validating")
    ∷ ("QUEUED", "status.queued")
    ∷ ("RUNNING", "status.running")
    ∷ ("CANCELLING", "status.cancelling")
    ∷ ("CANCELLED", "status.cancelled")
    ∷ ("FAILED", "status.failed")
    ∷ ("FAILED_RECOVERABLE", "status.failedRecoverable")
    ∷ ("COMPLETED", "status.completed")
    ∷ ("READY", "status.ready")
    ∷ ("CHECKING", "status.checking")
    ∷ ("UNAVAILABLE", "status.unavailable")
    ∷ ("NOT_OBSERVED", "status.notObserved")
    ∷ ("WARNING", "status.warning")
    ∷ []

unfoldable pub group_labels : List (String × String)
group_labels =
    ("feature_state", "param.group.featureState")
    ∷ ("cleaning", "param.group.cleaning")
    ∷ ("split", "param.group.split")
    ∷ ("local_gp", "param.group.localGp")
    ∷ ("trend", "param.group.trend")
    ∷ ("interval", "param.group.interval")
    ∷ ("anchors", "param.group.anchors")
    ∷ ("support", "param.group.support")
    ∷ ("global_surrogate", "param.group.globalSurrogate")
    ∷ ("fusion", "param.group.fusion")
    ∷ ("alarms", "param.group.alarms")
    ∷ []

unfoldable pub leaf_labels : List (String × String)
leaf_labels =
    ("nLag", "param.leaf.nLag")
    ∷ ("speed_threshold", "param.leaf.speedThreshold")
    ∷ ("current_threshold", "param.leaf.currentThreshold")
    ∷ ("median_window", "param.leaf.medianWindow")
    ∷ ("mad_factor", "param.leaf.madFactor")
    ∷ ("smoothing_window", "param.leaf.smoothingWindow")
    ∷ ("training_ratio", "param.leaf.trainingRatio")
    ∷ ("calibration_ratio", "param.leaf.calibrationRatio")
    ∷ ("minimum_training", "param.leaf.minimumTraining")
    ∷ ("minimum_calibration", "param.leaf.minimumCalibration")
    ∷ ("minimum_testing", "param.leaf.minimumTesting")
    ∷ ("agent_count", "param.leaf.agentCount")
    ∷ ("kNN", "param.leaf.kNN")
    ∷ ("adaptive_ratio", "param.leaf.adaptiveRatio")
    ∷ ("ell", "param.leaf.lengthScale")
    ∷ ("sigma_f", "param.leaf.signalScale")
    ∷ ("sigma_n", "param.leaf.noiseScale")
    ∷ ("minimum_regularization", "param.leaf.minimumRegularization")
    ∷ ("threshold", "param.leaf.trendThreshold")
    ∷ ("maximum_mixing", "param.leaf.maximumMixing")
    ∷ ("gain", "param.leaf.trendGain")
    ∷ ("maximum_step_change", "param.leaf.maximumStepChange")
    ∷ ("confidence", "param.leaf.confidence")
    ∷ ("calibration_window", "param.leaf.calibrationWindow")
    ∷ ("minimum_scores", "param.leaf.minimumScores")
    ∷ ("standard_deviation_floor", "param.leaf.standardDeviationFloor")
    ∷ ("std_floor", "param.leaf.stdFloor")
    ∷ ("calibration_scale_min", "param.leaf.calibrationScaleMinimum")
    ∷ ("calibration_scale_max", "param.leaf.calibrationScaleMaximum")
    ∷ ("half_width_min", "param.leaf.halfWidthMinimum")
    ∷ ("half_width_max", "param.leaf.halfWidthMaximum")
    ∷ ("coverage_window", "param.leaf.coverageWindow")
    ∷ ("update_mode", "param.leaf.updateMode")
    ∷ ("variance_floor", "param.leaf.varianceFloor")
    ∷ ("base_centers", "param.leaf.baseCenters")
    ∷ ("transition_centers", "param.leaf.transitionCenters")
    ∷ ("boundary_centers", "param.leaf.boundaryCenters")
    ∷ ("transition_quantile", "param.leaf.transitionQuantile")
    ∷ ("public_anchors", "param.leaf.publicAnchors")
    ∷ ("iterations", "param.leaf.iterations")
    ∷ ("random_seed", "param.leaf.randomSeed")
    ∷ ("scale_multiple", "param.leaf.scaleMultiple")
    ∷ ("minimum_weight", "param.leaf.minimumWeight")
    ∷ ("minimum_query_support", "param.leaf.minimumQuerySupport")
    ∷ ("full_weight_reference", "param.leaf.fullWeightReference")
    ∷ ("noise_ratio", "param.leaf.noiseRatio")
    ∷ ("cholesky_attempts", "param.leaf.choleskyAttempts")
    ∷ ("leave_one_out", "param.leaf.leaveOneOut")
    ∷ ("maximum_global_weight", "param.leaf.maximumGlobalWeight")
    ∷ ("initial_improvement", "param.leaf.initialImprovement")
    ∷ ("error_window", "param.leaf.errorWindow")
    ∷ ("minimum_samples", "param.leaf.minimumSamples")
    ∷ ("win_margin", "param.leaf.winMargin")
    ∷ ("variance_weight", "param.leaf.varianceWeight")
    ∷ ("winsor_quantile", "param.leaf.winsorQuantile")
    ∷ ("global_clear_threshold", "param.leaf.globalClearThreshold")
    ∷ ("neutral_upper_limit", "param.leaf.neutralUpperLimit")
    ∷ ("persistence", "param.leaf.persistence")
    ∷ ("rise_smoothing", "param.leaf.riseSmoothing")
    ∷ ("fall_smoothing", "param.leaf.fallSmoothing")
    ∷ ("disagreement_kappa", "param.leaf.disagreementKappa")
    ∷ ("maximum_variance_ratio", "param.leaf.maximumVarianceRatio")
    ∷ ("imbalance_threshold", "param.leaf.imbalanceThreshold")
    ∷ ("notice_count", "param.leaf.noticeCount")
    ∷ ("warning_count", "param.leaf.warningCount")
    ∷ ("alarm_count", "param.leaf.alarmCount")
    ∷ ("absolute_current_threshold", "param.leaf.absoluteCurrentThreshold")
    ∷ ("absolute_tension_threshold", "param.leaf.absoluteTensionThreshold")
    ∷ ("tension_threshold", "param.leaf.tensionThreshold")
    ∷ ("feature_dimension_formula", "param.leaf.featureDimensionFormula")
    ∷ ("leave_one_out_global_model", "param.leaf.leaveOneOutGlobalModel")
    ∷ ("predict_then_update", "param.leaf.predictThenUpdate")
    ∷ ("agent_override_whitelist", "param.leaf.agentOverrideWhitelist")
    ∷ []

-- `table[key]`, for keys that are no names of properties of every object.
unfoldable pub label_of : String → List (String × String) → Option String
label_of k [] = none
label_of k ((j, v) ∷ t) = let rest = label_of k t in if j === k then some v else rest

-- `replace(/-/g, "_")`.
unfoldable pub with_underscores : String → String
with_underscores [] = []
with_underscores (c ∷ s) =
    let rest = with_underscores s in if code c == b'-' then "_" ∷ rest else c ∷ rest

abbrev pub or_unknown : Option String → String
or_unknown none = "status.unknown"
or_unknown (some k) = k

-- The key that `localizedStatus` translates.
unfoldable pub status_key : Value → String
unfolding label_of with_underscores
status_key status =
    or_unknown (label_of (with_underscores (upper (text_or_empty status))) status_labels)

-- `parameterGroupLabel`: the key that is translated, `none` where the group's own name is shown.
unfoldable pub group_label_key : String → Option String
unfolding label_of
group_label_key key = label_of key group_labels

abbrev pub is_small : Char → Bool
is_small c = leb b'a' (code c) && leb (code c) b'z'

abbrev pub is_capital : Char → Bool
is_capital c = leb b'A' (code c) && leb (code c) b'Z'

abbrev pub starts_capital : String → Bool
starts_capital [] = false
starts_capital (c ∷ s) = is_capital c

-- `replace(/([a-z])([A-Z])/g, "$1 $2").replace(/_/g, " ")`.
unfoldable pub spaced_words : String → String
spaced_words [] = []
spaced_words (c ∷ s) =
    let rest = spaced_words s in
    if code c == b'_'
    then " " ∷ rest
    else if is_small c && starts_capital s
    then c ∷ " " ∷ rest
    else c ∷ rest

-- `parameterLeafLabel`: a key to translate, or the words of the name.
pub data Label : Type 0 where
  translated : String → Label
  words : String → Label

unfoldable pub parameter_leaf_label : String → Label
unfolding label_of spaced_words
parameter_leaf_label key = elim (label_of key leaf_labels) [
  | some k ↦ translated k
  | none ↦ words (spaced_words key)
]

-- `statusClass(status)`: `replace(/[^A-Z_]/g, "")`.
unfoldable pub only_capitals : String → String
only_capitals [] = []
only_capitals (c ∷ s) =
    let rest = only_capitals s in if is_capital c || code c == b'_' then c ∷ rest else rest

unfoldable pub status_class : Value → String
unfolding only_capitals
status_class status = only_capitals (text_or_empty status)

-- `HTML_ESCAPES[character]` for the characters that are replaced.
unfoldable pub html_escape : Char → Option String
html_escape c =
    if code c == b'&'
    then some "&amp;"
    else if code c == b'<'
    then some "&lt;"
    else if code c == b'>'
    then some "&gt;"
    else if code c == 34
    then some "&quot;"
    else if code c == 39
    then some "&#39;"
    else none

abbrev pub escaped_char : Option String → Char → String → String
escaped_char none c rest = c ∷ rest
escaped_char (some e) c rest = joined e rest

unfoldable pub escape_text : String → String
unfolding html_escape
escape_text [] = []
escape_text (c ∷ s) = escaped_char (html_escape c) c (escape_text s)

-- `escapeHtml(value)`.
unfoldable pub escape_html : Value → String
unfolding escape_text
escape_html v = escape_text (text_or_empty v)
