-- ===== src/Translations/Tables/BaseChinese.antt =====
-- frontend/src/i18n.ts: `resources["zh-CN"]`.
use mathlib.Core.List.{List, [], ◌∷◌}
use Prim.Native.String.{String}

unfoldable pub base_chinese : List (String × String)
base_chinese =
    ("nav.workspace", "工作台")
    ∷ ("document.title", "zx/federated-iot-platform:latest · 仿真控制台")
    ∷ ("nav.data", "数据导入")
    ∷ ("nav.parameters", "参数配置")
    ∷ ("nav.queue", "任务队列")
    ∷ ("nav.history", "历史回放")
    ∷ ("brand.subtitle", "联邦 IoT 仿真 · 在线告警控制台")
    ∷ ("connection.connected", "SSE 已连接")
    ∷ ("connection.disconnected", "SSE 已断开")
    ∷ ("action.start", "开始仿真")
    ∷ ("action.cancel", "取消当前任务")
    ∷ ("action.save", "保存为新版本")
    ∷ ("action.export", "导出 JSON")
    ∷ ("action.retry", "重试")
    ∷ ("action.reset", "还原")
    ∷ ("action.zoomIn", "放大")
    ∷ ("action.zoomOut", "缩小")
    ∷ ("action.close", "关闭")
    ∷ ("system.web", "Web/API")
    ∷ ("system.worker", "算法 Worker")
    ∷ ("system.database", "数据库")
    ∷ ("system.ready", "就绪")
    ∷ ("system.currentRun", "当前任务")
    ∷ ("system.stage", "阶段")
    ∷ ("system.queue", "队列")
    ∷ ("health.checking", "正在检查")
    ∷ ("health.ready", "就绪")
    ∷ ("health.notObserved", "未观测")
    ∷ ("health.warning", "警告")
    ∷ ("health.unavailable", "不可用")
    ∷ ("workspace.eyebrow", "仿真工作台")
    ∷ ("workspace.title", "三 Agent 联邦 GPR 监控")
    ∷ ("workspace.description", "Agent 1、Agent 2 和 Agent 3 在一个 Algorithm Worker 中运行。这不是真实的跨节点联邦。")
    ∷ ("workspace.snapshot", "仿真配置快照")
    ∷ ("workspace.frozen", "已冻结")
    ∷ ("workspace.dataset", "数据集")
    ∷ ("workspace.parameterVersion", "参数版本")
    ∷ ("workspace.mapping", "映射")
    ∷ ("workspace.hash", "快照哈希")
    ∷ ("workspace.metrics", "当前 Agent 测试集指标")
    ∷ ("workspace.resultTitle", "冻结结果 · Agent {agent}")
    ∷ ("workspace.chart", "预测、真值和动态区间")
    ∷ ("workspace.interaction", "滚轮缩放 · 拖动平移 · 悬停查看详情")
    ∷ ("workspace.empty", "未选择冻结结果。")
    ∷ ("metric.rmse", "融合 RMSE")
    ∷ ("metric.mae", "融合 MAE")
    ∷ ("metric.r2", "R²")
    ∷ ("metric.coverage", "区间覆盖率")
    ∷ ("metric.bandwidth", "平均带宽")
    ∷ ("metric.weight", "平均全局权重")
    ∷ ("metric.negative", "负迁移率")
    ∷ ("legend.truth", "真值")
    ∷ ("legend.local", "本地预测")
    ∷ ("legend.global", "全局预测")
    ∷ ("legend.fused", "融合预测")
    ∷ ("legend.interval", "融合区间")
    ∷ ("data.eyebrow", "本地数据集")
    ∷ ("data.title", "导入并校验 CSV 数据集")
    ∷ ("data.description", "文件仅保留在本地平台。Worker 预检与仿真使用同一预处理契约。")
    ∷ ("data.choose", "选择 CSV 文件")
    ∷ ("data.noFileSelected", "未选择文件")
    ∷ ("data.requirement", "S1 要求严格为：{columns}")
    ∷ ("data.limit", "默认上传上限：500 MB")
    ∷ ("data.validating", "Worker 预检尚未完成。仅在数据集进入 VALID 后展示完整统计。")
    ∷ ("data.valid", "数据集为 VALID")
    ∷ ("data.invalid", "数据集为 INVALID")
    ∷ ("data.stats", "Worker 预检统计")
    ∷ ("data.awaiting", "等待 Worker 预检")
    ∷ ("data.preflightNoDataset", "没有可供 Worker 预检的数据集")
    ∷ ("data.preflightQueued", "Worker 预检已排队")
    ∷ ("data.preflightRunning", "Worker 预检正在运行")
    ∷ ("data.preflightFinalizing", "Worker 预检正在完成提交")
    ∷ ("data.noStats", "尚无完整预处理统计。")
    ∷ ("data.warning", "警告")
    ∷ ("data.validation", "校验详情")
    ∷ ("data.uploading", "正在上传 {name}")
    ∷ ("data.bytes", "字节")
    ∷ ("data.preflight.queued", "Worker 预检已排队，尚未开始校验。")
    ∷ ("data.preflight.running", "Worker 预检正在校验。")
    ∷ ("data.preflight.validating", "Worker 预检正在等待当前校验状态。")
    ∷ ("data.preflight.finalizing", "Worker 预检已完成，数据集正在完成提交。")
    ∷ ("data.preflight.valid", "Worker 预检已成功完成。")
    ∷ ("data.preflight.invalid", "Worker 预检未能校验该数据集，无法开始仿真。")
    ∷ ("config.eyebrow", "版本化配置")
    ∷ ("config.title", "REFERENCE 和 CUSTOM 参数方案")
    ∷ ("config.description", "REFERENCE 不可修改。在共享与 Agent 白名单为空时，CUSTOM 只能创建默认参数副本。")
    ∷ ("config.reference", "REFERENCE")
    ∷ ("config.custom", "CUSTOM")
    ∷ ("config.readonly", "只读")
    ∷ ("config.locked", "默认参数已锁定，等待人工批准可编辑白名单。")
    ∷ ("config.fixed", "固定项")
    ∷ ("config.agents", "严格为 Agent 1 / 2 / 3")
    ∷ ("config.copy", "创建 CUSTOM 默认副本")
    ∷ ("config.defaultCopyName", "CUSTOM 默认副本")
    ∷ ("config.saved", "已创建不可变 CUSTOM 版本 {version}")
    ∷ ("config.mapping", "负载映射")
    ∷ ("config.noEdits", "当前没有任何共享参数或 Agent 参数获准编辑。")
    ∷ ("queue.title", "任务队列")
    ∷ ("queue.pending", "正在加载队列状态。")
    ∷ ("history.title", "历史与回放")
    ∷ ("history.pending", "正在加载历史记录。")
    ∷ ("state.loading", "加载中")
    ∷ ("state.error", "无法加载此资源")
    ∷ ("state.empty", "暂无数据")
    ∷ ("state.cancelRequested", "已请求取消")
    ∷ ("state.lastEvent", "最新事件 ID：{id}")
    ∷ ("state.reconnecting", "正在重连并校正状态…")
    ∷ ("state.disabled", "需要有效数据集、已保存参数方案、identity 映射以及严格的 Agent 1 / 2 / 3。")
    ∷ ("error.unknown", "服务返回了意外错误。")
    ∷ ("error.CSV_HEADER_MISMATCH", "CSV 必须按精确顺序包含七个必需列。")
    ∷ ("error.UPLOAD_TOO_LARGE", "所选文件超过已配置的上传上限。")
    ∷ ("error.DATASET_NOT_VALID", "数据集必须处于 VALID 才能创建仿真。")
    ∷ ("error.PREFLIGHT_QUEUE_FULL", "Worker 预检队列已满，请在已有预检完成后重试。")
    ∷ ("error.INPUT_INVALID", "Worker 预检拒绝了数据集输入。")
    ∷ ("error.INSUFFICIENT_SAMPLES", "Worker 预检发现可用样本不足。")
    ∷ ("error.NUMERICAL_FAILURE", "Worker 预检遇到数值计算失败。")
    ∷ ("error.RESOURCE_LIMIT", "Worker 预检达到资源限制。")
    ∷ ("error.ARTIFACT_WRITE_FAILED", "Worker 预检无法写入必需制品。")
    ∷ ("error.PARAMETER_NOT_ALLOWED", "此参数在批准白名单前保持锁定。")
    ∷ ("error.REFERENCE_CONFIG_IMMUTABLE", "REFERENCE 不可修改。")
    ∷ ("error.MAPPING_TYPE_NOT_APPROVED", "S1 仅批准 identity 映射。")
    ∷ ("error.QUEUE_FULL", "等待队列已满。")
    ∷ ("error.RESULT_NOT_READY", "此任务的冻结结果尚未就绪。")
    ∷ ("error.RUN_NOT_CANCELLABLE", "此任务已不能取消。")
    ∷ ("aria.primaryNav", "主导航")
    ∷ ("aria.language", "界面语言")
    ∷ ("aria.series", "切换图表序列")
    ∷ ("aria.chart", "交互式预测和置信区间图")
    ∷ ("aria.file", "CSV 文件上传")
    ∷ ("aria.parameterGroups", "参数分组")
    ∷ ("aria.skip", "跳至内容")
    ∷ ("aria.agents", "逻辑 Agent")
    ∷ ("system.preflight", "预检")
    ∷ ("param.localGpr", "本地 GPR")
    ∷ ("param.group.featureState", "特征与状态")
    ∷ ("param.group.cleaning", "清洗")
    ∷ ("param.group.split", "切分")
    ∷ ("param.group.localGp", "本地 GP")
    ∷ ("param.group.trend", "趋势")
    ∷ ("param.group.interval", "区间")
    ∷ ("param.group.anchors", "锚点")
    ∷ ("param.group.support", "支持度")
    ∷ ("param.group.globalSurrogate", "全局代理")
    ∷ ("param.group.fusion", "融合")
    ∷ ("param.group.alarms", "告警")
    ∷ ("workspace.agent", "Agent {agent}")
    ∷ ("diagnostic.eyebrow", "诊断")
    ∷ ("diagnostic.title", "制品和预处理完整性")
    ∷ ("diagnostic.runningRows", "运行行")
    ∷ ("diagnostic.publicAnchors", "公共锚点")
    ∷ ("diagnostic.integrity", "完整性")
    ∷ ("event.eyebrow", "服务器推送事件")
    ∷ ("event.title", "状态同步")
    ∷ ("event.rest", "仿真详情是权威状态。")
    ∷ ("data.hash", "SHA-256")
    ∷ ("data.size", "大小")
    ∷ ("data.timezone", "时区")
    ∷ ("data.raw", "原始")
    ∷ ("data.invalidRows", "无效")
    ∷ ("data.stopped", "停机")
    ∷ ("data.suspicious", "可疑")
    ∷ ("data.running", "运行")
    ∷ ("data.spikes", "尖峰标记")
    ∷ ("data.worker", "Worker 预检")
    ∷ ("data.status", "状态")
    ∷ ("data.contract", "契约")
    ∷ ("data.preprocessing", "算法预处理")
    ∷ ("config.processing", "数据处理")
    ∷ ("config.splits", "切分与锚点")
    ∷ ("config.fusion", "在线融合")
    ∷ ("config.intervals", "区间与告警")
    ∷ ("chart.originalPoints", "{count} 个原始点")
    ∷ ("chart.displayPoints", "{count} 个显示点")
    ∷ ("run.defaultDisplayName", "S1 仿真")
    ∷ ("tooltip.weightSupport", "权重 / 支持度")
    ∷ ("tooltip.loadAlarm", "负载 / 告警")
    ∷ []
