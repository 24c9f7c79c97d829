-- ===== src/Translations/Tables/DraftEnglish.antt =====
-- frontend/src/i18n.ts: `additionalDraftEnglishResources`.
use mathlib.Core.List.{List, [], ◌∷◌}
use Prim.Native.String.{String}

unfoldable pub draft_english : List (String × String)
draft_english =
    ("config.title", "Reference and Custom parameter profiles")
    ∷ ("config.description", "Reference is immutable. Custom saves a new version for future tasks.")
    ∷ ("config.reference", "Reference")
    ∷ ("config.custom", "Custom")
    ∷ ("config.defaultCopyName", "Custom parameter version")
    ∷ ("config.saved", "Saved Custom version {version}.")
    ∷ ("config.savedImmutable", "Saved Custom versions are immutable.")
    ∷ ("config.savedImmutableHint", "Create an editable draft to save a new version.")
    ∷ ("config.referenceLocked", "Reference profile is read-only.")
    ∷ ("config.referenceLockedHint", "Reference and fixed S1 constraints cannot be changed.")
    ∷ ("config.editable", "Editable draft")
    ∷ (
      "config.editableHint",
      "Only server-declared parameter paths can be changed. Saving creates a new version for future simulations.",
    )
    ∷ ("config.draft", "Draft")
    ∷ ("config.customDraft", "Custom draft")
    ∷ ("config.editScope", "Edit scope")
    ∷ ("config.shared", "Shared")
    ∷ ("config.noEditablePaths", "No server-declared editable parameter paths are available.")
    ∷ ("config.inherit", "Inherit shared value: {value}")
    ∷ ("config.inheritOption", "Inherit shared value")
    ∷ ("config.inheritPlaceholder", "Inherit: {value}")
    ∷ ("config.saving", "Saving new version…")
    ∷ ("config.draftReady", "Draft matches its base version")
    ∷ ("config.dirty", "Unsaved changes")
    ∷ ("config.fixedHint", "S1 hard constraints remain read-only.")
    ∷ ("config.s1FixedPath", "S1 hard constraint (read-only)")
    ∷ ("config.savedProfiles", "Saved Custom versions")
    ∷ ("config.renameLabel", "Display name")
    ∷ ("config.aliasLabel", "New Custom alias")
    ∷ (
      "config.aliasHelp",
      "Required human-readable alias, 1–128 characters. It does not change the version content or hash.",
    )
    ∷ ("config.aliasRequired", "Enter a Custom alias before saving.")
    ∷ ("config.aliasInvalid", "Use 1–128 characters without control characters.")
    ∷ ("config.baseUnavailable", "The reference base for this Custom draft is unavailable.")
    ∷ ("config.savedAuthoritative", "Saved alias: {name}")
    ∷ ("config.renaming", "Renaming…")
    ∷ ("config.renameSaved", "Saved display name: {name}")
    ∷ ("action.discard", "Discard draft")
    ∷ ("action.resetBase", "Reset to base")
    ∷ ("action.restoreDefaults", "Restore defaults")
    ∷ ("action.editNew", "Edit as new version")
    ∷ ("action.rename", "Rename")
    ∷ ("aria.parameterScope", "Parameter edit scope")
    ∷ ("error.PARAMETER_OUT_OF_RANGE", "The parameter value is outside its allowed range.")
    ∷ ("error.PROFILE_RENAME_UNAVAILABLE", "Renaming is not available from this server yet.")
    ∷ ("error.PROFILE_RENAME_INVALID", "Enter a valid display name.")
    ∷ ("profileSnapshot.title", "Parameter profile")
    ∷ ("profileSnapshot.name", "Admission name")
    ∷ ("profileSnapshot.version", "Version")
    ∷ ("profileSnapshot.hash", "Profile hash")
    ∷ ("profileSnapshot.shared", "Shared values")
    ∷ ("profileSnapshot.overrides", "Agent overrides")
    ∷ ("profileSnapshot.effective", "Effective values")
    ∷ ("profileSnapshot.noOverrides", "No Agent-specific overrides")
    ∷ (
      "profileSnapshot.unavailable",
      "The selected task does not expose the full frozen parameter values.",
    )
    ∷ (
      "profileSnapshot.frozenHint",
      "This is the immutable parameter snapshot bound to this task. It cannot update a queued, running, or completed task.",
    )
    ∷ ("queue.title", "Task queue and live status")
    ∷ (
      "queue.description", "The local platform persists one active run and up to ten waiting runs.",
    )
    ∷ ("queue.activeSlot", "Active slot")
    ∷ ("queue.waiting", "Waiting queue")
    ∷ (
      "queue.capacityHint",
      "An eleventh waiting request is rejected because the waiting capacity is full.",
    )
    ∷ ("queue.activeTask", "Active task")
    ∷ ("queue.noActive", "No task is currently active.")
    ∷ ("queue.waitingRuns", "Waiting runs")
    ∷ (
      "queue.empty",
      "No active or waiting tasks. Import a valid dataset and select a saved parameter profile to start a simulation.",
    )
    ∷ ("queue.fifo", "FIFO · persisted queue")
    ∷ ("queue.position", "Position")
    ∷ ("queue.run", "Run ID")
    ∷ ("queue.parameters", "Mode / parameters")
    ∷ ("queue.dataset", "Dataset")
    ∷ ("queue.created", "Created")
    ∷ ("queue.status", "Status")
    ∷ ("queue.cancel", "Cancel")
    ∷ ("queue.cancelActive", "Cancel current task")
    ∷ ("queue.agents", "Agent 1 / 2 / 3")
    ∷ ("queue.elapsed", "Elapsed")
    ∷ ("queue.stage", "Current stage")
    ∷ ("queue.events", "Recent events")
    ∷ ("queue.eventsEmpty", "No recent event summary is available for this task.")
    ∷ ("queue.noStage", "No stage reported")
    ∷ ("queue.latestEvent", "Latest event ID: {id}")
    ∷ ("queue.cancelled", "Cancellation was requested for {run}.")
    ∷ ("history.selectRun", "Select a task to inspect its frozen parameter snapshot.")
    ∷ ("history.frozenHint", "History details are read-only snapshots.")
    ∷ ("history.run", "Task")
    ∷ (
      "history.rerunHint",
      "A rerun uses this task's original parameter profile by default. Select a new saved version explicitly before creating a new task.",
    )
    ∷ ("replay.title", "Frozen replay")
    ∷ (
      "replay.frozenHint",
      "Replay reads frozen results and the task's immutable parameter snapshot.",
    )
    ∷ ("action.openReplay", "Open replay")
    ∷ ("action.backHistory", "Back to history")
    ∷ ("history.eyebrow", "TASK HISTORY")
    ∷ (
      "history.description",
      "Inspect real terminal tasks, their frozen admission snapshots, and committed local artifacts.",
    )
    ∷ ("history.search", "Search")
    ∷ ("history.searchPlaceholder", "Run ID or dataset")
    ∷ ("history.statusFilter", "Status")
    ∷ ("history.modeFilter", "Mode")
    ∷ ("history.allStatuses", "All terminal states")
    ∷ ("history.allModes", "All modes")
    ∷ ("history.count", "{shown} of {total} terminal tasks")
    ∷ ("history.loading", "Loading terminal task history…")
    ∷ ("history.loadMore", "Load more")
    ∷ (
      "history.empty",
      "No terminal tasks are available for replay yet. Complete a simulation, then return here.",
    )
    ∷ ("history.filterEmpty", "No terminal tasks match the current filters.")
    ∷ ("history.finished", "Finished")
    ∷ ("history.admission", "Mode / parameter profile")
    ∷ ("history.metric", "Fused RMSE")
    ∷ ("history.artifacts", "Artifacts")
    ∷ ("history.artifactsComplete", "Committed required artifacts")
    ∷ ("history.artifactsIncomplete", "Artifacts incomplete")
    ∷ ("history.artifactsUnavailable", "Artifacts unavailable")
    ∷ ("history.terminalOnly", "Replay is available only for completed tasks.")
    ∷ ("history.artifactsRequired", "Replay and downloads require committed required artifacts.")
    ∷ ("history.actions", "Actions")
    ∷ ("history.inspect", "Inspect")
    ∷ ("history.export", "Export")
    ∷ ("history.manifest", "Manifest")
    ∷ ("history.selected", "Selected frozen task")
    ∷ ("history.detailLoading", "Loading the selected frozen task…")
    ∷ ("history.artifactName", "Artifact")
    ∷ ("history.required", "Required")
    ∷ ("history.download", "Download")
    ∷ ("replay.noSelection", "Select a completed task with committed artifacts from History.")
    ∷ ("replay.loading", "Loading frozen replay data…")
    ∷ ("replay.unavailable", "Frozen replay data is unavailable for this task.")
    ∷ ("replay.diagnostics", "POINT DIAGNOSTICS")
    ∷ ("replay.pointDiagnostics", "Current point diagnostics")
    ∷ ("replay.noPoint", "Hover over a replay point to inspect its frozen diagnostics.")
    ∷ ("replay.point", "Point")
    ∷ ("replay.time", "Time")
    ∷ ("replay.loadStatus", "Load status")
    ∷ ("replay.alarm", "Alarm")
    ∷ ("replay.alarms", "ALARMS")
    ∷ ("replay.alarmSummary", "Frozen alarm summary")
    ∷ ("replay.noAlarms", "No frozen alarm rows are available for this selection.")
    ∷ ("replay.points", "{count} frozen replay points")
    ∷ ("replay.speed", "Speed")
    ∷ ("replay.position", "Position")
    ∷ ("replay.positionValue", "Point {current} of {total}")
    ∷ ("replay.playing", "Playing")
    ∷ ("replay.paused", "Paused")
    ∷ ("action.play", "Play")
    ∷ ("action.pause", "Pause")
    ∷ ("event.received", "State event received")
    ∷ ("event.stage", "Stage: {stage}")
    ∷ ("event.queuePosition", "Queue position: {position}")
    ∷ ("event.waitingCount", "Waiting: {count}")
    ∷ ("workspace.notConfigured", "No simulation configured")
    ∷ (
      "workspace.onboarding",
      "Import and validate data, select a saved parameter profile, then start a simulation.",
    )
    ∷ ("workspace.goData", "Go to Data")
    ∷ ("workspace.goParameters", "Go to Parameters")
    ∷ ("workspace.notSelected", "Not selected")
    ∷ (
      "workspace.resultsPending",
      "Frozen results and diagnostics become available only after this task completes.",
    )
    ∷ ("workspace.resultsUnavailable", "Frozen results are not available for this task.")
    ∷ ("workspace.liveTask", "Current task")
    ∷ ("workspace.noTaskEvents", "No task events are available yet.")
    ∷ ("workspace.artifactsIncomplete", "Required result artifacts are incomplete.")
    ∷ ("connection.connecting", "SSE connecting")
    ∷ ("connection.reconnecting", "SSE reconnecting")
    ∷ ("connection.offline", "SSE offline")
    ∷ ("status.invalid", "Invalid")
    ∷ ("status.valid", "Valid")
    ∷ ("status.validating", "Validating")
    ∷ ("status.queued", "Queued")
    ∷ ("status.running", "Running")
    ∷ ("status.cancelling", "Cancelling")
    ∷ ("status.cancelled", "Cancelled")
    ∷ ("status.failed", "Failed")
    ∷ ("status.failedRecoverable", "Failed (recoverable)")
    ∷ ("status.completed", "Completed")
    ∷ ("status.ready", "Ready")
    ∷ ("status.checking", "Checking")
    ∷ ("status.unavailable", "Unavailable")
    ∷ ("status.notObserved", "Not observed")
    ∷ ("status.warning", "Warning")
    ∷ ("status.unknown", "Status unavailable")
    ∷ []
