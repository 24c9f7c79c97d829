-- ===== src/Translations/Tables/DraftChinese.antt =====
-- frontend/src/i18n.ts: `additionalDraftChineseResources`.
use mathlib.Core.List.{List, [], ◌∷◌}
use Prim.Native.String.{String}

unfoldable pub draft_chinese : List (String × String)
draft_chinese =
    ("config.title", "参考与自定义参数方案")
    ∷ ("config.description", "参考方案不可修改。自定义保存为仅供后续任务使用的新版本。")
    ∷ ("config.reference", "参考")
    ∷ ("config.custom", "自定义")
    ∷ ("config.defaultCopyName", "自定义参数版本")
    ∷ ("config.saved", "已保存自定义版本 {version}。")
    ∷ ("config.savedImmutable", "已保存的自定义版本不可修改。")
    ∷ ("config.savedImmutableHint", "请创建可编辑草稿并另存为新版本。")
    ∷ ("config.referenceLocked", "参考方案只读。")
    ∷ ("config.referenceLockedHint", "参考方案和固定的 S1 硬约束不可修改。")
    ∷ ("config.editable", "可编辑草稿")
    ∷ ("config.editableHint", "只能修改服务端已声明的参数路径。保存后会创建仅供新仿真使用的新版本。")
    ∷ ("config.draft", "草稿")
    ∷ ("config.customDraft", "自定义草稿")
    ∷ ("config.editScope", "编辑范围")
    ∷ ("config.shared", "共享参数")
    ∷ ("config.noEditablePaths", "当前没有服务端声明的可编辑参数路径。")
    ∷ ("config.inherit", "继承共享值：{value}")
    ∷ ("config.inheritOption", "继承共享值")
    ∷ ("config.inheritPlaceholder", "继承：{value}")
    ∷ ("config.saving", "正在保存新版本…")
    ∷ ("config.draftReady", "草稿与基础版本一致")
    ∷ ("config.dirty", "存在未保存修改")
    ∷ ("config.fixedHint", "固定的 S1 硬约束保持只读。")
    ∷ ("config.s1FixedPath", "S1 硬约束（只读）")
    ∷ ("config.savedProfiles", "已保存的自定义版本")
    ∷ ("config.renameLabel", "显示名称")
    ∷ ("config.aliasLabel", "新的自定义别名")
    ∷ ("config.aliasHelp", "必填的人类可读别名，长度为 1–128 个字符；不会改变版本内容或哈希。")
    ∷ ("config.aliasRequired", "保存前请输入自定义别名。")
    ∷ ("config.aliasInvalid", "请输入 1–128 个字符，且不得包含控制字符。")
    ∷ ("config.baseUnavailable", "该自定义草稿对应的参考基线不可用。")
    ∷ ("config.savedAuthoritative", "已保存别名：{name}")
    ∷ ("config.renaming", "正在重命名…")
    ∷ ("config.renameSaved", "已保存显示名称：{name}")
    ∷ ("action.discard", "放弃草稿")
    ∷ ("action.resetBase", "重置为基础版本")
    ∷ ("action.restoreDefaults", "恢复默认参数")
    ∷ ("action.editNew", "编辑并另存为新版本")
    ∷ ("action.rename", "重命名")
    ∷ ("aria.parameterScope", "参数编辑范围")
    ∷ ("error.PARAMETER_OUT_OF_RANGE", "参数值超出允许范围。")
    ∷ ("error.PROFILE_RENAME_UNAVAILABLE", "当前服务端尚不支持重命名。")
    ∷ ("error.PROFILE_RENAME_INVALID", "请输入有效的显示名称。")
    ∷ ("profileSnapshot.title", "参数模板")
    ∷ ("profileSnapshot.name", "准入名称")
    ∷ ("profileSnapshot.version", "版本")
    ∷ ("profileSnapshot.hash", "参数模板哈希")
    ∷ ("profileSnapshot.shared", "共享参数值")
    ∷ ("profileSnapshot.overrides", "智能体覆盖值")
    ∷ ("profileSnapshot.effective", "生效参数值")
    ∷ ("profileSnapshot.noOverrides", "没有智能体专属覆盖值")
    ∷ ("profileSnapshot.unavailable", "所选任务未提供完整的冻结参数值。")
    ∷ ("profileSnapshot.frozenHint", "这是绑定到该任务的不可变参数快照。排队、运行中或已完成任务均不会被热更新。")
    ∷ ("history.eyebrow", "任务历史")
    ∷ ("history.description", "查看真实终态任务、其冻结准入快照和已提交的本地制品。")
    ∷ ("history.search", "搜索")
    ∷ ("history.searchPlaceholder", "任务 ID 或数据集")
    ∷ ("history.statusFilter", "状态")
    ∷ ("history.modeFilter", "模式")
    ∷ ("history.allStatuses", "全部终态")
    ∷ ("history.allModes", "全部模式")
    ∷ ("history.count", "共 {total} 个终态任务，显示 {shown} 个")
    ∷ ("history.loading", "正在加载终态任务历史…")
    ∷ ("history.loadMore", "加载更多")
    ∷ ("history.empty", "尚无可回放的终态任务。请先完成一个仿真，再返回此处查看。")
    ∷ ("history.filterEmpty", "没有终态任务符合当前筛选条件。")
    ∷ ("history.finished", "完成时间")
    ∷ ("history.admission", "模式 / 参数模板")
    ∷ ("history.metric", "融合 RMSE")
    ∷ ("history.artifacts", "制品")
    ∷ ("history.artifactsComplete", "必需制品已提交")
    ∷ ("history.artifactsIncomplete", "制品不完整")
    ∷ ("history.artifactsUnavailable", "制品不可用")
    ∷ ("history.terminalOnly", "仅已完成任务可以回放。")
    ∷ ("history.artifactsRequired", "回放和下载需要已提交的必需制品。")
    ∷ ("history.actions", "操作")
    ∷ ("history.inspect", "查看")
    ∷ ("history.export", "导出")
    ∷ ("history.manifest", "清单")
    ∷ ("history.selected", "已选择的冻结任务")
    ∷ ("history.detailLoading", "正在加载所选冻结任务…")
    ∷ ("history.artifactName", "制品")
    ∷ ("history.required", "必需")
    ∷ ("history.download", "下载")
    ∷ ("replay.noSelection", "请在历史记录中选择具有已提交制品的已完成任务。")
    ∷ ("replay.loading", "正在加载冻结回放数据…")
    ∷ ("replay.unavailable", "该任务没有可用的冻结回放数据。")
    ∷ ("replay.diagnostics", "逐点诊断")
    ∷ ("replay.pointDiagnostics", "当前点诊断")
    ∷ ("replay.noPoint", "悬停在回放曲线上即可查看该点的冻结诊断。")
    ∷ ("replay.point", "点")
    ∷ ("replay.time", "时间")
    ∷ ("replay.loadStatus", "负载状态")
    ∷ ("replay.alarm", "告警")
    ∷ ("replay.alarms", "告警")
    ∷ ("replay.alarmSummary", "冻结告警摘要")
    ∷ ("replay.noAlarms", "当前选择没有可用的冻结告警行。")
    ∷ ("replay.points", "{count} 个冻结回放点")
    ∷ ("replay.speed", "倍速")
    ∷ ("replay.position", "位置")
    ∷ ("replay.positionValue", "第 {current} / {total} 点")
    ∷ ("replay.playing", "正在播放")
    ∷ ("replay.paused", "已暂停")
    ∷ ("action.play", "播放")
    ∷ ("action.pause", "暂停")
    ∷ ("event.received", "已收到状态事件")
    ∷ ("event.stage", "阶段：{stage}")
    ∷ ("event.queuePosition", "队列位置：{position}")
    ∷ ("event.waitingCount", "等待数：{count}")
    ∷ ("workspace.notConfigured", "尚未配置仿真")
    ∷ ("workspace.onboarding", "请先导入并校验数据，再选择已保存的参数模板，最后开始仿真。")
    ∷ ("workspace.goData", "前往数据导入")
    ∷ ("workspace.goParameters", "前往参数配置")
    ∷ ("workspace.notSelected", "未选择")
    ∷ ("workspace.resultsPending", "该任务完成后才会提供冻结结果和诊断。")
    ∷ ("workspace.resultsUnavailable", "该任务没有可用的冻结结果。")
    ∷ ("workspace.liveTask", "当前任务")
    ∷ ("workspace.noTaskEvents", "尚无可用的任务事件。")
    ∷ ("workspace.artifactsIncomplete", "必需的结果制品尚未完整。")
    ∷ ("connection.connecting", "SSE 正在连接")
    ∷ ("connection.reconnecting", "SSE 正在重连")
    ∷ ("connection.offline", "SSE 离线")
    ∷ ("queue.title", "任务队列与实时状态")
    ∷ ("queue.description", "本地平台持久化一个运行任务和最多十个等待任务。")
    ∷ ("queue.activeSlot", "运行槽位")
    ∷ ("queue.waiting", "等待队列")
    ∷ ("queue.capacityHint", "第十一个等待请求会因等待容量已满而被拒绝。")
    ∷ ("queue.activeTask", "活动任务")
    ∷ ("queue.noActive", "当前没有活动任务。")
    ∷ ("queue.waitingRuns", "等待任务")
    ∷ ("queue.empty", "当前没有运行或等待任务。请导入有效数据集并选择已保存的参数模板后启动仿真。")
    ∷ ("queue.fifo", "先进先出 · 已持久化队列")
    ∷ ("queue.position", "位置")
    ∷ ("queue.run", "任务 ID")
    ∷ ("queue.parameters", "模式 / 参数模板")
    ∷ ("queue.dataset", "数据集")
    ∷ ("queue.created", "创建时间")
    ∷ ("queue.status", "状态")
    ∷ ("queue.cancel", "取消")
    ∷ ("queue.cancelActive", "取消当前任务")
    ∷ ("queue.agents", "智能体 1 / 2 / 3")
    ∷ ("queue.elapsed", "已用时间")
    ∷ ("queue.stage", "当前阶段")
    ∷ ("queue.events", "近期事件")
    ∷ ("queue.eventsEmpty", "该任务尚无可用的近期事件摘要。")
    ∷ ("queue.noStage", "尚未报告阶段")
    ∷ ("queue.latestEvent", "最新事件 ID：{id}")
    ∷ ("queue.cancelled", "已请求取消任务 {run}。")
    ∷ ("history.selectRun", "请选择一个任务以查看其冻结参数快照。")
    ∷ ("history.frozenHint", "历史详情是只读快照。")
    ∷ ("history.run", "任务")
    ∷ ("history.rerunHint", "重新运行默认使用该任务的原参数模板。只有明确选择新的已保存版本后，创建的新任务才会使用新版本。")
    ∷ ("replay.title", "冻结回放")
    ∷ ("replay.frozenHint", "回放读取冻结结果和任务的不可变参数快照。")
    ∷ ("action.openReplay", "打开回放")
    ∷ ("action.backHistory", "返回历史")
    ∷ ("status.invalid", "无效")
    ∷ ("status.valid", "有效")
    ∷ ("status.validating", "校验中")
    ∷ ("status.queued", "排队中")
    ∷ ("status.running", "运行中")
    ∷ ("status.cancelling", "正在取消")
    ∷ ("status.cancelled", "已取消")
    ∷ ("status.failed", "失败")
    ∷ ("status.failedRecoverable", "失败（可恢复）")
    ∷ ("status.completed", "已完成")
    ∷ ("status.ready", "就绪")
    ∷ ("status.checking", "正在检查")
    ∷ ("status.unavailable", "不可用")
    ∷ ("status.notObserved", "未观测")
    ∷ ("status.warning", "警告")
    ∷ ("status.unknown", "状态不可用")
    ∷ []
