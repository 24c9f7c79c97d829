-- ===== src/Translations/Tables/AdditionalEnglish.antt =====
-- frontend/src/i18n.ts: the first additional tables in English.
use mathlib.Core.List.{List, [], ◌∷◌}
use Prim.Native.String.{String}

unfoldable pub additional_english : List (String × String)
additional_english =
    ("config.title", "Reference and custom parameter profiles")
    ∷ (
      "config.description",
      "Reference is immutable. Custom drafts may change only server-declared paths, and saving creates a new version for future tasks.",
    )
    ∷ ("config.reference", "Reference profile")
    ∷ ("config.custom", "Custom profile")
    ∷ ("config.referenceProfileName", "Reference-compatible profile")
    ∷ ("profile.referenceCompatible", "Reference-compatible")
    ∷ ("agent.segment.early", "Early")
    ∷ ("agent.segment.middle", "Middle")
    ∷ ("agent.segment.late", "Late")
    ∷ ("param.leaf.nLag", "Lag order")
    ∷ ("param.leaf.speedThreshold", "Speed threshold")
    ∷ ("param.leaf.currentThreshold", "Current threshold")
    ∷ ("param.leaf.medianWindow", "Median window")
    ∷ ("param.leaf.madFactor", "MAD factor")
    ∷ ("param.leaf.smoothingWindow", "Smoothing window")
    ∷ ("param.leaf.trainingRatio", "Training ratio")
    ∷ ("param.leaf.calibrationRatio", "Calibration ratio")
    ∷ ("param.leaf.minimumTraining", "Minimum training samples")
    ∷ ("param.leaf.minimumCalibration", "Minimum calibration samples")
    ∷ ("param.leaf.minimumTesting", "Minimum testing samples")
    ∷ ("param.leaf.agentCount", "Agent count")
    ∷ ("param.leaf.kNN", "k-nearest neighbors")
    ∷ ("param.leaf.adaptiveRatio", "Adaptive ratio")
    ∷ ("param.leaf.lengthScale", "Length scale")
    ∷ ("param.leaf.signalScale", "Signal scale")
    ∷ ("param.leaf.noiseScale", "Noise scale")
    ∷ ("param.leaf.minimumRegularization", "Minimum regularization")
    ∷ ("param.leaf.trendThreshold", "Trend threshold")
    ∷ ("param.leaf.maximumMixing", "Maximum mixing")
    ∷ ("param.leaf.trendGain", "Trend gain")
    ∷ ("param.leaf.maximumStepChange", "Maximum step change")
    ∷ ("param.leaf.confidence", "Confidence")
    ∷ ("param.leaf.calibrationWindow", "Calibration window")
    ∷ ("param.leaf.minimumScores", "Minimum scores")
    ∷ ("param.leaf.standardDeviationFloor", "Standard-deviation floor")
    ∷ ("param.leaf.calibrationScaleMinimum", "Minimum calibration scale")
    ∷ ("param.leaf.calibrationScaleMaximum", "Maximum calibration scale")
    ∷ ("param.leaf.halfWidthMinimum", "Minimum half width")
    ∷ ("param.leaf.halfWidthMaximum", "Maximum half width")
    ∷ ("param.leaf.coverageWindow", "Coverage window")
    ∷ ("param.leaf.updateMode", "Update mode")
    ∷ ("param.leaf.varianceFloor", "Variance floor")
    ∷ ("param.leaf.baseCenters", "Base centers")
    ∷ ("param.leaf.transitionCenters", "Transition centers")
    ∷ ("param.leaf.boundaryCenters", "Boundary centers")
    ∷ ("param.leaf.transitionQuantile", "Transition quantile")
    ∷ ("param.leaf.publicAnchors", "Public anchors")
    ∷ ("param.leaf.iterations", "Iterations")
    ∷ ("param.leaf.randomSeed", "Random seed")
    ∷ ("param.leaf.scaleMultiple", "Scale multiple")
    ∷ ("param.leaf.minimumWeight", "Minimum weight")
    ∷ ("param.leaf.minimumQuerySupport", "Minimum query support")
    ∷ ("param.leaf.fullWeightReference", "Full-weight reference")
    ∷ ("param.leaf.noiseRatio", "Noise ratio")
    ∷ ("param.leaf.choleskyAttempts", "Cholesky attempts")
    ∷ ("param.leaf.leaveOneOut", "Leave-one-out")
    ∷ ("param.leaf.maximumGlobalWeight", "Maximum global weight")
    ∷ ("param.leaf.initialImprovement", "Initial improvement")
    ∷ ("param.leaf.errorWindow", "Error window")
    ∷ ("param.leaf.minimumSamples", "Minimum samples")
    ∷ ("param.leaf.winMargin", "Win margin")
    ∷ ("param.leaf.varianceWeight", "Variance weight")
    ∷ ("param.leaf.winsorQuantile", "Winsor quantile")
    ∷ ("param.leaf.globalClearThreshold", "Global clear threshold")
    ∷ ("param.leaf.neutralUpperLimit", "Neutral upper limit")
    ∷ ("param.leaf.persistence", "Persistence")
    ∷ ("param.leaf.riseSmoothing", "Rise smoothing")
    ∷ ("param.leaf.fallSmoothing", "Fall smoothing")
    ∷ ("param.leaf.disagreementKappa", "Disagreement kappa")
    ∷ ("param.leaf.maximumVarianceRatio", "Maximum variance ratio")
    ∷ ("param.leaf.imbalanceThreshold", "Imbalance threshold")
    ∷ ("param.leaf.noticeCount", "Notice count")
    ∷ ("param.leaf.warningCount", "Warning count")
    ∷ ("param.leaf.alarmCount", "Alarm count")
    ∷ ("param.leaf.absoluteCurrentThreshold", "Absolute current threshold")
    ∷ ("param.leaf.tensionThreshold", "Tension threshold")
    ∷ ("param.leaf.featureDimensionFormula", "Feature dimension formula")
    ∷ ("param.leaf.leaveOneOutGlobalModel", "Leave-one-out global model")
    ∷ ("param.leaf.predictThenUpdate", "Predict, then update")
    ∷ ("queue.noWaiting", "No waiting tasks.")
    ∷ ("diagnostic.selectedPoint", "Point #{point}")
    ∷ (
      "diagnostic.selectedPointUnavailable",
      "The selected result point is unavailable for this task.",
    )
    ∷ (
      "aria.chartKeyboard", "Use the left and right arrow keys to select a displayed result point.",
    )
    ∷ []

unfoldable pub create_english : List (String × String)
create_english =
    ("config.creating", "Creating custom default copy…")
    ∷ ("config.created", "Custom default copy {version} created.")
    ∷ ("config.createdReadOnly", "Parameter editing remains locked pending allowlist approval.")
    ∷ []

unfoldable pub terminology_english : List (String × String)
terminology_english =
    (
      "history.description",
      "Inspect real terminal tasks, their frozen admission snapshots, and verified local result files.",
    )
    ∷ ("history.artifacts", "Result files")
    ∷ ("history.artifactsComplete", "Required result files verified")
    ∷ ("history.artifactsIncomplete", "Result files incomplete")
    ∷ ("history.artifactsUnavailable", "Result files unavailable")
    ∷ ("history.artifactsRequired", "Replay and downloads require verified required result files.")
    ∷ ("history.manifest", "Result file manifest")
    ∷ ("history.artifactName", "Result file")
    ∷ ("replay.noSelection", "Select a completed task with verified result files from History.")
    ∷ ("workspace.artifactsIncomplete", "Required result files are incomplete.")
    ∷ ("diagnostic.title", "Result files and preprocessing integrity")
    ∷ ("error.ARTIFACT_WRITE_FAILED", "Worker preflight could not write its required result file.")
    ∷ []
