-- ===== src/Translations/Tables/CurrentChinese.antt =====
-- frontend/src/i18n.ts: the tables of the current pages in Chinese.
use mathlib.Core.List.{List, [], ◌∷◌}
use Prim.Native.String.{String}

unfoldable pub current_chinese : List (String × String)
current_chinese =
    ("config.title", "参考与自定义参数方案")
    ∷ ("config.reference", "参考")
    ∷ ("config.custom", "自定义")
    ∷ ("config.copy", "创建自定义默认副本")
    ∷ ("config.defaultCopyName", "自定义默认副本")
    ∷ ("config.saved", "已创建不可变的自定义版本 {version}")
    ∷ ("workspace.adjustParameters", "调整新任务参数")
    ∷ ("workspace.adjustParametersHint", "当前任务已冻结。保存的参数修改只会应用于新任务。")
    ∷ ("diagnostic.fusionEyebrow", "融合诊断")
    ∷ ("diagnostic.fusionTitle", "融合权重与全局支持度")
    ∷ ("diagnostic.fusionAlpha", "融合权重")
    ∷ ("diagnostic.globalSupport", "全局支持度")
    ∷ ("diagnostic.recentEyebrow", "近期误差")
    ∷ ("diagnostic.recentTitle", "近期 RMSE 与区间半宽")
    ∷ ("diagnostic.traceEyebrow", "可追溯性")
    ∷ ("diagnostic.traceTitle", "诊断与结果文件完整性")
    ∷ ("diagnostic.noSeries", "该任务没有可用的冻结诊断序列。")
    ∷ ("diagnostic.latest", "最新值")
    ∷ ("event.open", "查看服务器推送事件")
    ∷ ("event.close", "关闭事件面板")
    ∷ ("event.drawerTitle", "服务器推送事件")
    ∷ ("event.drawerDescription", "重连后会依据权威仿真详情校正任务状态。")
    ∷ ("event.connection", "连接")
    ∷ ("event.noEvents", "该任务没有可用的服务器推送事件。")
    ∷ ("history.deepLinkInvalid", "请求的任务链接无效。")
    ∷ ("history.deepLinkUnavailable", "请求的终态任务不可用。")
    ∷ ("history.deepLinkLoadFailed", "无法加载请求的终态任务。")
    ∷ ("aria.copyHash", "复制完整哈希：{value}")
    ∷ ("aria.diagnosticSeries", "诊断序列图例")
    ∷ ("hash.copied", "哈希已复制。")
    ∷ ("hash.copyFailed", "无法复制哈希，请在此按钮中查看完整值。")
    ∷ ("param.leaf.absoluteTensionThreshold", "绝对张力阈值")
    ∷ ("param.leaf.stdFloor", "标准差下限")
    ∷ ("param.leaf.agentOverrideWhitelist", "智能体覆盖白名单")
    ∷ ("nav.queueWaiting", "队列（{count} 个等待）")
    ∷ ("workspace.runningLive", "实时运行中")
    ∷ ("workspace.completedRun", "已完成任务")
    ∷ ("workspace.elapsed", "已用 {value}")
    ∷ ("workspace.openEvents", "查看实时事件")
    ∷ ("workspace.configureNew", "配置新任务")
    ∷ ("workspace.runConfiguration", "任务配置")
    ∷ ("workspace.snapshotTitle", "仿真配置快照")
    ∷ ("workspace.railLocalGpr", "本地 GPR")
    ∷ ("workspace.railDataProcessing", "数据处理")
    ∷ ("workspace.railSplitsAnchors", "切分与锚点")
    ∷ ("workspace.railOnlineFusion", "在线融合")
    ∷ ("workspace.railIntervalsAlarms", "区间与告警")
    ∷ ("diagnostic.pointSynchronized", "按点同步")
    ∷ ("diagnostic.window", "窗口 {count}")
    ∷ ("diagnostic.localRmse", "本地 RMSE")
    ∷ ("diagnostic.globalRmse", "全局 RMSE")
    ∷ ("diagnostic.intervalHalfWidth", "区间半宽")
    ∷ ("diagnostic.alarmsEyebrow", "告警时间线")
    ∷ ("diagnostic.alarmsTitle", "告警与负载状态")
    ∷ ("diagnostic.noAlarms", "该任务没有可用的冻结告警。")
    ∷ ("diagnostic.alarmsUnavailable", "该任务的告警数据不可用。")
    ∷ ("diagnostic.alarmType", "类型")
    ∷ ("diagnostic.pointLocator", "智能体 {agent} · 点 #{point}")
    ∷ ("diagnostic.preprocessing", "预处理")
    ∷ ("diagnostic.agentSplit", "智能体 {agent} 切分")
    ∷ ("diagnostic.anchors", "公共锚点")
    ∷ ("diagnostic.resultFiles", "结果文件")
    ∷ ("diagnostic.filesUnavailable", "该任务的结果文件元数据不可用。")
    ∷ ("diagnostic.manifest", "清单 SHA-256")
    ∷ ("diagnostic.summaryHash", "预检摘要 SHA-256")
    ∷ ("diagnostic.timeRange", "时间范围")
    ∷ ("diagnostic.sampling", "采样")
    ∷ ("diagnostic.preprocessingSpikes", "尖峰标记：{count}")
    ∷ ("diagnostic.trainCalibrationTest", "训练 / 校准 / 测试")
    ∷ ("diagnostic.loo", "留一法：{value}")
    ∷ ("diagnostic.supportFallbacks", "支持度回退：{count}")
    ∷ ("diagnostic.alarmDetails", "告警详情")
    ∷ ("diagnostic.alarmTime", "时间")
    ∷ ("diagnostic.alarmLevel", "级别")
    ∷ ("diagnostic.alarmAgent", "智能体")
    ∷ ("diagnostic.originalRunningIndex", "原始运行索引")
    ∷ ("diagnostic.pointLocatorLabel", "点定位")
    ∷ ("diagnostic.alarmReasons", "原因")
    ∷ ("diagnostic.alarmNoReasons", "该告警没有已报告原因。")
    ∷ ("alarm.unknownType", "未指定告警类型")
    ∷ ("alarm.type.loadImbalance", "负载不平衡")
    ∷ ("alarm.type.heavyLoad", "重负载")
    ∷ ("alarm.type.lightLoad", "轻负载")
    ∷ ("alarm.type.upperBound", "超过融合上界")
    ∷ ("alarm.type.overall", "整体告警")
    ∷ ("diagnostic.loadDistributionUnavailable", "该任务没有可用的负载状态分布。")
    ∷ ("diagnostic.loadDistributionDisplayed", "基于 {count} 个已显示点")
    ∷ ("diagnostic.loadDistributionAuthoritative", "任务负载状态分布")
    ∷ ("diagnostic.alarmsLoaded", "已加载 {shown} / {total}")
    ∷ ("diagnostic.viewManifest", "查看结果文件清单与 SHA-256")
    ∷ ("diagnostic.manifestDialogTitle", "结果文件清单与 SHA-256")
    ∷ ("diagnostic.manifestDialogDescription", "已登记 {count} 个结果文件 · {integrity}")
    ∷ ("diagnostic.registeredFiles", "已登记 {count} 个结果文件")
    ∷ ("load.normal", "正常")
    ∷ ("load.light", "轻负载")
    ∷ ("load.heavy", "重负载")
    ∷ ("alarm.notice", "提示")
    ∷ ("alarm.warning", "警告")
    ∷ ("alarm.alarm", "告警")
    ∷ ("alarm.none", "无")
    ∷ ("alarm.unknown", "未知告警级别")
    ∷ ("data.identity", "数据集标识")
    ∷ ("data.displayName", "显示名称")
    ∷ ("data.fileName", "文件名")
    ∷ ("data.timeRange", "时间范围")
    ∷ ("data.sampling", "采样")
    ∷ ("data.eyebrow", "数据集导入")
    ∷ ("data.title", "数据导入与严格校验")
    ∷ ("data.offlineScope", "S1 · 离线 CSV")
    ∷ ("data.dropTitle", "拖放 CSV 文件到此处，或点击浏览")
    ∷ ("data.dropHint", "最大 500 MB · 文件不会离开本地系统")
    ∷ ("data.requiredHeader", "必需表头")
    ∷ ("data.selectedEyebrow", "已选数据集")
    ∷ ("data.noDatasetSelected", "尚未选择数据集")
    ∷ ("data.validationEyebrow", "校验报告")
    ∷ ("data.validationTitle", "导入校验与预处理边界")
    ∷ ("data.useDataset", "使用此数据集 → 参数配置")
    ∷ ("data.check", "检查项")
    ∷ ("data.result", "结果")
    ∷ ("data.details", "详情")
    ∷ ("data.record", "记录")
    ∷ ("data.headerCheck", "必需七列表头")
    ∷ ("data.numericCheck", "数值转换")
    ∷ ("data.timeCheck", "时间范围")
    ∷ ("data.integrityCheck", "源文件完整性")
    ∷ ("data.preflightCheck", "算法工作器预检")
    ∷ ("data.verified", "已校验")
    ∷ ("data.notReported", "未报告")
    ∷ ("data.sourceRecorded", "源值已保留")
    ∷ ("data.headerDetails", "来自数据集记录的名称、顺序和大小写")
    ∷ ("data.numericDetails", "已记录 {count} 条无效数值行")
    ∷ ("data.timeDetails", "解析范围：{range}")
    ∷ ("data.integrityDetails", "数据集 SHA-256 与预处理摘要哈希")
    ∷ ("data.preflightDetails", "{contract} · 摘要哈希已校验")
    ∷ ("data.awaitingDetails", "数据集记录正在等待权威算法工作器预检。")
    ∷ ("data.failedDetails", "算法工作器预检报告了终态失败。")
    ∷ ("data.keep", "保留")
    ∷ ("data.review", "检查")
    ∷ ("data.startBlocked", "禁止启动")
    ∷ ("data.readyForParameters", "可配置参数")
    ∷ []

unfoldable pub preflight_chinese : List (String × String)
preflight_chinese =
    ("data.description", "源文件按 SHA-256 只读保存；S1 严格接受七列，不进行字段映射或静默排序。")
    ∷ ("data.validating", "算法工作器预检尚未完成。数据集校验通过后才显示完整统计。")
    ∷ ("data.valid", "数据集校验通过")
    ∷ ("data.invalid", "数据集校验未通过")
    ∷ ("data.stats", "算法工作器预检统计")
    ∷ ("data.awaiting", "等待算法工作器预检")
    ∷ ("data.preflightNoDataset", "尚无数据集可进行算法工作器预检。")
    ∷ ("data.preflightQueued", "算法工作器预检已排队")
    ∷ ("data.preflightRunning", "算法工作器预检正在运行")
    ∷ ("data.preflightFinalizing", "算法工作器预检已完成，正在提交数据集记录")
    ∷ ("data.preflight.queued", "算法工作器预检已排队，尚未开始校验。")
    ∷ ("data.preflight.running", "算法工作器预检正在校验。")
    ∷ ("data.preflight.validating", "算法工作器预检正在等待当前校验状态。")
    ∷ ("data.preflight.finalizing", "算法工作器预检已完成，正在提交数据集记录。")
    ∷ ("data.preflight.valid", "算法工作器预检已完成，数据集校验通过。")
    ∷ ("data.preflight.invalid", "算法工作器预检未通过，数据集校验失败，无法开始仿真。")
    ∷ []

unfoldable pub contract_chinese : List (String × String)
contract_chinese =
    ("data.fileName", "原始文件名")
    ∷ ("data.preflightJob", "预检作业")
    ∷ ("data.preflightStatus", "预检状态")
    ∷ ("data.preflightQueuePosition", "队列位置")
    ∷ ("data.preflightStage", "算法工作器阶段")
    ∷ ("data.preflightAttempt", "尝试 ID")
    ∷ ("data.preflightLease", "租约状态")
    ∷ ("data.preflightEvent", "最新事件 ID")
    ∷ ("data.validationStarted", "校验开始时间")
    ∷ ("data.validationFinished", "校验完成时间")
    ∷ ("data.diagnosticId", "诊断 ID")
    ∷ ("data.errorStage", "失败阶段")
    ∷ ("data.preprocessingContract", "预处理契约")
    ∷ ("data.preprocessingSchema", "结构版本")
    ∷ ("data.filterPath", "过滤路径")
    ∷ ("data.preprocessingParameters", "预处理参数")
    ∷ ("data.inputHash", "输入 SHA-256")
    ∷ []
