-- ===== src/Translations/Tables/CurrentEnglish.antt =====
-- frontend/src/i18n.ts: the tables of the current pages in English.
use mathlib.Core.List.{List, [], ◌∷◌}
use Prim.Native.String.{String}

unfoldable pub current_english : List (String × String)
current_english =
    ("config.title", "Reference and Custom parameter profiles")
    ∷ ("config.reference", "Reference")
    ∷ ("config.custom", "Custom")
    ∷ ("config.copy", "Create a Custom default copy")
    ∷ ("config.defaultCopyName", "Custom default copy")
    ∷ ("config.saved", "Created immutable Custom version {version}")
    ∷ ("workspace.adjustParameters", "Adjust parameters for a new task")
    ∷ (
      "workspace.adjustParametersHint",
      "The active task is frozen. Saved parameter changes apply only to a new task.",
    )
    ∷ ("diagnostic.fusionEyebrow", "FUSION DIAGNOSTICS")
    ∷ ("diagnostic.fusionTitle", "Fusion weight and global support")
    ∷ ("diagnostic.fusionAlpha", "Fusion weight")
    ∷ ("diagnostic.globalSupport", "Global support")
    ∷ ("diagnostic.recentEyebrow", "RECENT ERROR")
    ∷ ("diagnostic.recentTitle", "Recent RMSE and interval half-width")
    ∷ ("diagnostic.traceEyebrow", "TRACEABILITY")
    ∷ ("diagnostic.traceTitle", "Diagnostics and result-file integrity")
    ∷ ("diagnostic.noSeries", "No frozen diagnostic series is available for this task.")
    ∷ ("diagnostic.latest", "Latest value")
    ∷ ("event.open", "View server-sent events")
    ∷ ("event.close", "Close event panel")
    ∷ ("event.drawerTitle", "Server-sent events")
    ∷ (
      "event.drawerDescription",
      "Run state is corrected from the authoritative simulation detail when the stream reconnects.",
    )
    ∷ ("event.connection", "Connection")
    ∷ ("event.noEvents", "No server-sent events are available for this task.")
    ∷ ("history.deepLinkInvalid", "The requested task link is invalid.")
    ∷ ("history.deepLinkUnavailable", "The requested terminal task is unavailable.")
    ∷ ("history.deepLinkLoadFailed", "Unable to load the requested terminal task.")
    ∷ ("aria.copyHash", "Copy full hash: {value}")
    ∷ ("aria.diagnosticSeries", "Diagnostic series legend")
    ∷ ("hash.copied", "Hash copied.")
    ∷ ("hash.copyFailed", "Unable to copy the hash. Inspect the complete value in this button.")
    ∷ ("param.leaf.absoluteTensionThreshold", "Absolute tension threshold")
    ∷ ("param.leaf.stdFloor", "Standard deviation floor")
    ∷ ("param.leaf.agentOverrideWhitelist", "Agent override whitelist")
    ∷ ("nav.queueWaiting", "Queue ({count} waiting)")
    ∷ ("workspace.runningLive", "Running live")
    ∷ ("workspace.completedRun", "Completed run")
    ∷ ("workspace.elapsed", "Elapsed {value}")
    ∷ ("workspace.openEvents", "View live events")
    ∷ ("workspace.configureNew", "Configure a new run")
    ∷ ("workspace.runConfiguration", "RUN CONFIGURATION")
    ∷ ("workspace.snapshotTitle", "Simulation configuration snapshot")
    ∷ ("workspace.railLocalGpr", "Local GPR")
    ∷ ("workspace.railDataProcessing", "Data processing")
    ∷ ("workspace.railSplitsAnchors", "Splits and anchors")
    ∷ ("workspace.railOnlineFusion", "Online fusion")
    ∷ ("workspace.railIntervalsAlarms", "Intervals and alarms")
    ∷ ("diagnostic.pointSynchronized", "Point-synchronized")
    ∷ ("diagnostic.window", "Window {count}")
    ∷ ("diagnostic.localRmse", "Local RMSE")
    ∷ ("diagnostic.globalRmse", "Global RMSE")
    ∷ ("diagnostic.intervalHalfWidth", "Interval half-width")
    ∷ ("diagnostic.alarmsEyebrow", "ALARM TIMELINE")
    ∷ ("diagnostic.alarmsTitle", "Alarms and load status")
    ∷ ("diagnostic.noAlarms", "No frozen alarms are available for this task.")
    ∷ ("diagnostic.alarmsUnavailable", "Alarm data is unavailable for this task.")
    ∷ ("diagnostic.alarmType", "Type")
    ∷ ("diagnostic.pointLocator", "Agent {agent} · Point #{point}")
    ∷ ("diagnostic.preprocessing", "Preprocessing")
    ∷ ("diagnostic.agentSplit", "Agent {agent} split")
    ∷ ("diagnostic.anchors", "Public anchors")
    ∷ ("diagnostic.resultFiles", "Result files")
    ∷ ("diagnostic.filesUnavailable", "Result-file metadata is unavailable for this task.")
    ∷ ("diagnostic.manifest", "Manifest SHA-256")
    ∷ ("diagnostic.summaryHash", "Preflight summary SHA-256")
    ∷ ("diagnostic.timeRange", "Time range")
    ∷ ("diagnostic.sampling", "Sampling")
    ∷ ("diagnostic.preprocessingSpikes", "Spike flags: {count}")
    ∷ ("diagnostic.trainCalibrationTest", "Train / Calibration / Test")
    ∷ ("diagnostic.loo", "LOO: {value}")
    ∷ ("diagnostic.supportFallbacks", "Support fallbacks: {count}")
    ∷ ("diagnostic.alarmDetails", "Alarm details")
    ∷ ("diagnostic.alarmTime", "Time")
    ∷ ("diagnostic.alarmLevel", "Level")
    ∷ ("diagnostic.alarmAgent", "Agent")
    ∷ ("diagnostic.originalRunningIndex", "Original running index")
    ∷ ("diagnostic.pointLocatorLabel", "Point locator")
    ∷ ("diagnostic.alarmReasons", "Reasons")
    ∷ ("diagnostic.alarmNoReasons", "No reasons were reported for this alarm.")
    ∷ ("alarm.unknownType", "Unspecified alarm type")
    ∷ ("alarm.type.loadImbalance", "Load imbalance")
    ∷ ("alarm.type.heavyLoad", "Heavy load")
    ∷ ("alarm.type.lightLoad", "Light load")
    ∷ ("alarm.type.upperBound", "Above fused upper bound")
    ∷ ("alarm.type.overall", "Overall alarm")
    ∷ (
      "diagnostic.loadDistributionUnavailable",
      "Load-status distribution is unavailable for this task.",
    )
    ∷ ("diagnostic.loadDistributionDisplayed", "Based on {count} displayed points")
    ∷ ("diagnostic.loadDistributionAuthoritative", "Run load-status distribution")
    ∷ ("diagnostic.alarmsLoaded", "{shown} of {total} loaded")
    ∷ ("diagnostic.viewManifest", "View result file manifest and SHA-256")
    ∷ ("diagnostic.manifestDialogTitle", "Result file manifest and SHA-256")
    ∷ ("diagnostic.manifestDialogDescription", "{count} registered result files · {integrity}")
    ∷ ("diagnostic.registeredFiles", "{count} registered result files")
    ∷ ("load.normal", "Normal")
    ∷ ("load.light", "Light")
    ∷ ("load.heavy", "Heavy")
    ∷ ("alarm.notice", "Notice")
    ∷ ("alarm.warning", "Warning")
    ∷ ("alarm.alarm", "Alarm")
    ∷ ("alarm.none", "None")
    ∷ ("alarm.unknown", "Unknown alarm level")
    ∷ ("data.identity", "Dataset identity")
    ∷ ("data.displayName", "Display name")
    ∷ ("data.fileName", "File name")
    ∷ ("data.timeRange", "Time range")
    ∷ ("data.sampling", "Sampling")
    ∷ ("data.eyebrow", "DATASET INTAKE")
    ∷ ("data.title", "Data Import and Strict Validation")
    ∷ (
      "data.description",
      "The source file is stored read-only with SHA-256. S1 accepts exactly seven columns with no field mapping or silent sorting.",
    )
    ∷ ("data.offlineScope", "S1 · Offline CSV")
    ∷ ("data.dropTitle", "Drop a CSV here or click to browse")
    ∷ ("data.dropHint", "Maximum 500 MB · The file never leaves the local system")
    ∷ ("data.requiredHeader", "Required header")
    ∷ ("data.selectedEyebrow", "SELECTED DATASET")
    ∷ ("data.noDatasetSelected", "No dataset selected")
    ∷ ("data.validationEyebrow", "VALIDATION REPORT")
    ∷ ("data.validationTitle", "Import validation and preprocessing boundary")
    ∷ ("data.useDataset", "Use this dataset → Parameters")
    ∷ ("data.check", "Check")
    ∷ ("data.result", "Result")
    ∷ ("data.details", "Details")
    ∷ ("data.record", "Record")
    ∷ ("data.headerCheck", "Required seven-column header")
    ∷ ("data.numericCheck", "Numeric conversion")
    ∷ ("data.timeCheck", "Time range")
    ∷ ("data.integrityCheck", "Source integrity")
    ∷ ("data.preflightCheck", "Worker preflight")
    ∷ ("data.verified", "Verified")
    ∷ ("data.notReported", "Not reported")
    ∷ ("data.sourceRecorded", "Source values preserved")
    ∷ ("data.headerDetails", "Names, order, and case from the dataset record")
    ∷ ("data.numericDetails", "{count} invalid numeric rows recorded")
    ∷ ("data.timeDetails", "Parsed range: {range}")
    ∷ ("data.integrityDetails", "Dataset SHA-256 and preprocessing summary hash")
    ∷ ("data.preflightDetails", "{contract} · summary hash verified")
    ∷ ("data.awaitingDetails", "The dataset record is waiting for authoritative Worker preflight.")
    ∷ ("data.failedDetails", "Worker preflight reported a terminal failure.")
    ∷ ("data.keep", "Retain")
    ∷ ("data.review", "Review")
    ∷ ("data.startBlocked", "Start blocked")
    ∷ ("data.readyForParameters", "Ready for parameters")
    ∷ []

unfoldable pub contract_english : List (String × String)
contract_english =
    ("data.fileName", "Original filename")
    ∷ ("data.preflightJob", "Preflight job")
    ∷ ("data.preflightStatus", "Preflight status")
    ∷ ("data.preflightQueuePosition", "Queue position")
    ∷ ("data.preflightStage", "Worker stage")
    ∷ ("data.preflightAttempt", "Attempt ID")
    ∷ ("data.preflightLease", "Lease state")
    ∷ ("data.preflightEvent", "Latest event ID")
    ∷ ("data.validationStarted", "Validation started")
    ∷ ("data.validationFinished", "Validation finished")
    ∷ ("data.diagnosticId", "Diagnostic ID")
    ∷ ("data.errorStage", "Failure stage")
    ∷ ("data.preprocessingContract", "Preprocessing contract")
    ∷ ("data.preprocessingSchema", "Schema version")
    ∷ ("data.filterPath", "Filter path")
    ∷ ("data.preprocessingParameters", "Preprocessing parameters")
    ∷ ("data.inputHash", "Input SHA-256")
    ∷ []
