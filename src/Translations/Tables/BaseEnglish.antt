-- ===== src/Translations/Tables/BaseEnglish.antt =====
-- frontend/src/i18n.ts: `resources.en`.
use mathlib.Core.List.{List, [], ◌∷◌}
use Prim.Native.String.{String}

unfoldable pub base_english : List (String × String)
base_english =
    ("nav.workspace", "Workspace")
    ∷ ("document.title", "zx/federated-iot-platform:latest · Simulation Console")
    ∷ ("nav.data", "Data")
    ∷ ("nav.parameters", "Parameters")
    ∷ ("nav.queue", "Queue")
    ∷ ("nav.history", "History")
    ∷ ("brand.subtitle", "Federated IoT Simulation · Online Alarm Console")
    ∷ ("connection.connected", "SSE connected")
    ∷ ("connection.disconnected", "SSE disconnected")
    ∷ ("action.start", "Start simulation")
    ∷ ("action.cancel", "Cancel current")
    ∷ ("action.save", "Save as new version")
    ∷ ("action.export", "Export JSON")
    ∷ ("action.retry", "Retry")
    ∷ ("action.reset", "Reset")
    ∷ ("action.zoomIn", "Zoom in")
    ∷ ("action.zoomOut", "Zoom out")
    ∷ ("action.close", "Close")
    ∷ ("system.web", "Web/API")
    ∷ ("system.worker", "Algorithm Worker")
    ∷ ("system.database", "Database")
    ∷ ("system.ready", "Ready")
    ∷ ("system.currentRun", "Current run")
    ∷ ("system.stage", "Stage")
    ∷ ("system.queue", "Queue")
    ∷ ("health.checking", "Checking")
    ∷ ("health.ready", "Ready")
    ∷ ("health.notObserved", "Not observed")
    ∷ ("health.warning", "Warning")
    ∷ ("health.unavailable", "Unavailable")
    ∷ ("workspace.eyebrow", "SIMULATION WORKSPACE")
    ∷ ("workspace.title", "Three-Agent Federated GPR Monitoring")
    ∷ (
      "workspace.description",
      "Agent 1, Agent 2, and Agent 3 run inside one Algorithm Worker. This is not real cross-node federation.",
    )
    ∷ ("workspace.snapshot", "Simulation configuration snapshot")
    ∷ ("workspace.frozen", "Frozen")
    ∷ ("workspace.dataset", "Dataset")
    ∷ ("workspace.parameterVersion", "Parameter version")
    ∷ ("workspace.mapping", "Mapping")
    ∷ ("workspace.hash", "Snapshot hash")
    ∷ ("workspace.metrics", "Current-agent test metrics")
    ∷ ("workspace.resultTitle", "Frozen results · Agent {agent}")
    ∷ ("workspace.chart", "Predictions, truth, and dynamic intervals")
    ∷ ("workspace.interaction", "Wheel to zoom · Drag to pan · Hover for details")
    ∷ ("workspace.empty", "No frozen results are selected.")
    ∷ ("metric.rmse", "Fused RMSE")
    ∷ ("metric.mae", "Fused MAE")
    ∷ ("metric.r2", "R²")
    ∷ ("metric.coverage", "Interval coverage")
    ∷ ("metric.bandwidth", "Mean bandwidth")
    ∷ ("metric.weight", "Mean global weight")
    ∷ ("metric.negative", "Negative transfer rate")
    ∷ ("legend.truth", "Truth")
    ∷ ("legend.local", "Local prediction")
    ∷ ("legend.global", "Global prediction")
    ∷ ("legend.fused", "Fused prediction")
    ∷ ("legend.interval", "Fused interval")
    ∷ ("data.eyebrow", "LOCAL DATASET")
    ∷ ("data.title", "Import and validate a CSV dataset")
    ∷ (
      "data.description",
      "Files stay on this local platform. Worker preflight uses the same preprocessing contract as a simulation.",
    )
    ∷ ("data.choose", "Choose a CSV file")
    ∷ ("data.noFileSelected", "No file selected")
    ∷ ("data.requirement", "S1 requires exactly: {columns}")
    ∷ ("data.limit", "Default upload limit: 500 MB")
    ∷ (
      "data.validating",
      "Worker preflight is pending. Complete statistics will appear only after it reaches VALID.",
    )
    ∷ ("data.valid", "Dataset is VALID")
    ∷ ("data.invalid", "Dataset is INVALID")
    ∷ ("data.stats", "Worker preflight statistics")
    ∷ ("data.awaiting", "Awaiting Worker preflight")
    ∷ ("data.preflightNoDataset", "No dataset is available for Worker preflight")
    ∷ ("data.preflightQueued", "Worker preflight is queued")
    ∷ ("data.preflightRunning", "Worker preflight is running")
    ∷ ("data.preflightFinalizing", "Worker preflight is finalizing")
    ∷ ("data.noStats", "No complete preprocessing statistics are available yet.")
    ∷ ("data.warning", "Warnings")
    ∷ ("data.validation", "Validation detail")
    ∷ ("data.uploading", "Uploading {name}")
    ∷ ("data.bytes", "bytes")
    ∷ ("data.preflight.queued", "Worker preflight is queued and has not started validation.")
    ∷ ("data.preflight.running", "Worker preflight is running validation.")
    ∷ ("data.preflight.validating", "Worker preflight is waiting for its current validation state.")
    ∷ (
      "data.preflight.finalizing", "Worker preflight completed and the dataset is being finalized.",
    )
    ∷ ("data.preflight.valid", "Worker preflight completed successfully.")
    ∷ (
      "data.preflight.invalid",
      "Worker preflight did not validate this dataset. A simulation cannot start.",
    )
    ∷ ("config.eyebrow", "VERSIONED CONFIGURATION")
    ∷ ("config.title", "REFERENCE and CUSTOM parameter profiles")
    ∷ (
      "config.description",
      "REFERENCE is immutable. CUSTOM can only create a default-value copy while the shared and Agent allowlists are empty.",
    )
    ∷ ("config.reference", "REFERENCE")
    ∷ ("config.custom", "CUSTOM")
    ∷ ("config.readonly", "Read-only")
    ∷ ("config.locked", "Default parameters are locked pending human approval of the allowlist.")
    ∷ ("config.fixed", "Fixed items")
    ∷ ("config.agents", "Exactly Agent 1 / 2 / 3")
    ∷ ("config.copy", "Create a CUSTOM default copy")
    ∷ ("config.defaultCopyName", "CUSTOM default copy")
    ∷ ("config.saved", "Created immutable CUSTOM version {version}")
    ∷ ("config.mapping", "Load mapping")
    ∷ ("config.noEdits", "No shared or Agent parameter is currently approved for editing.")
    ∷ ("queue.title", "Task queue")
    ∷ ("queue.pending", "Queue status is loading.")
    ∷ ("history.title", "History and replay")
    ∷ ("history.pending", "History is loading.")
    ∷ ("state.loading", "Loading")
    ∷ ("state.error", "Unable to load this resource")
    ∷ ("state.empty", "No data available")
    ∷ ("state.cancelRequested", "Cancellation was requested")
    ∷ ("state.lastEvent", "Last event ID: {id}")
    ∷ ("state.reconnecting", "Reconnecting and correcting state…")
    ∷ (
      "state.disabled",
      "A valid dataset, saved profile, identity mapping, and exactly Agent 1 / 2 / 3 are required.",
    )
    ∷ ("error.unknown", "The service returned an unexpected error.")
    ∷ (
      "error.CSV_HEADER_MISMATCH",
      "The CSV must have the required seven columns in the exact order.",
    )
    ∷ ("error.UPLOAD_TOO_LARGE", "The selected file exceeds the configured upload limit.")
    ∷ ("error.DATASET_NOT_VALID", "The dataset cannot start a simulation until it is VALID.")
    ∷ (
      "error.PREFLIGHT_QUEUE_FULL",
      "The Worker preflight queue is full. Try again after a queued preflight finishes.",
    )
    ∷ ("error.INPUT_INVALID", "Worker preflight rejected the dataset input.")
    ∷ ("error.INSUFFICIENT_SAMPLES", "Worker preflight found too few usable samples.")
    ∷ ("error.NUMERICAL_FAILURE", "Worker preflight encountered a numerical failure.")
    ∷ ("error.RESOURCE_LIMIT", "Worker preflight reached a resource limit.")
    ∷ ("error.ARTIFACT_WRITE_FAILED", "Worker preflight could not write its required artifact.")
    ∷ (
      "error.PARAMETER_NOT_ALLOWED",
      "This parameter is locked until the approved allowlist is available.",
    )
    ∷ ("error.REFERENCE_CONFIG_IMMUTABLE", "REFERENCE cannot be changed.")
    ∷ ("error.MAPPING_TYPE_NOT_APPROVED", "Only identity mapping is approved for S1.")
    ∷ ("error.QUEUE_FULL", "The waiting queue is full.")
    ∷ ("error.RESULT_NOT_READY", "Frozen results are not ready for this task.")
    ∷ ("error.RUN_NOT_CANCELLABLE", "This task can no longer be cancelled.")
    ∷ ("aria.primaryNav", "Primary navigation")
    ∷ ("aria.language", "Interface language")
    ∷ ("aria.series", "Toggle chart series")
    ∷ ("aria.chart", "Interactive prediction and confidence interval chart")
    ∷ ("aria.file", "CSV file upload")
    ∷ ("aria.parameterGroups", "Parameter groups")
    ∷ ("aria.skip", "Skip to content")
    ∷ ("aria.agents", "Logical Agents")
    ∷ ("system.preflight", "Preflight")
    ∷ ("param.localGpr", "Local GPR")
    ∷ ("param.group.featureState", "Feature state")
    ∷ ("param.group.cleaning", "Cleaning")
    ∷ ("param.group.split", "Split")
    ∷ ("param.group.localGp", "Local GP")
    ∷ ("param.group.trend", "Trend")
    ∷ ("param.group.interval", "Interval")
    ∷ ("param.group.anchors", "Anchors")
    ∷ ("param.group.support", "Support")
    ∷ ("param.group.globalSurrogate", "Global surrogate")
    ∷ ("param.group.fusion", "Fusion")
    ∷ ("param.group.alarms", "Alarms")
    ∷ ("workspace.agent", "Agent {agent}")
    ∷ ("diagnostic.eyebrow", "DIAGNOSTICS")
    ∷ ("diagnostic.title", "Artifact and preprocessing integrity")
    ∷ ("diagnostic.runningRows", "Running rows")
    ∷ ("diagnostic.publicAnchors", "Public anchors")
    ∷ ("diagnostic.integrity", "Integrity")
    ∷ ("event.eyebrow", "SERVER-SENT EVENTS")
    ∷ ("event.title", "State synchronization")
    ∷ ("event.rest", "Simulation detail is the authoritative state.")
    ∷ ("data.hash", "SHA-256")
    ∷ ("data.size", "Size")
    ∷ ("data.timezone", "Timezone")
    ∷ ("data.raw", "Raw")
    ∷ ("data.invalidRows", "Invalid")
    ∷ ("data.stopped", "Stopped")
    ∷ ("data.suspicious", "Suspicious")
    ∷ ("data.running", "Running")
    ∷ ("data.spikes", "Spike flags")
    ∷ ("data.worker", "Worker preflight")
    ∷ ("data.status", "Status")
    ∷ ("data.contract", "Contract")
    ∷ ("data.preprocessing", "Algorithm preprocessing")
    ∷ ("config.processing", "Data processing")
    ∷ ("config.splits", "Splits & anchors")
    ∷ ("config.fusion", "Online fusion")
    ∷ ("config.intervals", "Intervals & alarms")
    ∷ ("chart.originalPoints", "{count} points")
    ∷ ("chart.displayPoints", "{count} display points")
    ∷ ("run.defaultDisplayName", "S1 simulation")
    ∷ ("tooltip.weightSupport", "Weight / Support")
    ∷ ("tooltip.loadAlarm", "Load / Alarm")
    ∷ []
