-- ===== src/Translations/Tables/AdditionalChinese.antt =====
-- frontend/src/i18n.ts: the first additional tables in Chinese.
use mathlib.Core.List.{List, [], ◌∷◌}
use Prim.Native.String.{String}

unfoldable pub additional_chinese : List (String × String)
additional_chinese =
    ("config.title", "参考与自定义参数方案")
    ∷ ("config.description", "参考方案不可修改。自定义草稿只能修改服务端已声明路径，保存后创建仅供后续任务使用的新版本。")
    ∷ ("config.reference", "参考方案")
    ∷ ("config.custom", "自定义方案")
    ∷ ("config.referenceProfileName", "参考兼容配置")
    ∷ ("profile.referenceCompatible", "参考兼容")
    ∷ ("agent.segment.early", "早期")
    ∷ ("agent.segment.middle", "中期")
    ∷ ("agent.segment.late", "后期")
    ∷ ("param.leaf.nLag", "滞后阶数")
    ∷ ("param.leaf.speedThreshold", "速度阈值")
    ∷ ("param.leaf.currentThreshold", "电流阈值")
    ∷ ("param.leaf.medianWindow", "中位数窗口")
    ∷ ("param.leaf.madFactor", "MAD 系数")
    ∷ ("param.leaf.smoothingWindow", "平滑窗口")
    ∷ ("param.leaf.trainingRatio", "训练比例")
    ∷ ("param.leaf.calibrationRatio", "校准比例")
    ∷ ("param.leaf.minimumTraining", "最少训练样本")
    ∷ ("param.leaf.minimumCalibration", "最少校准样本")
    ∷ ("param.leaf.minimumTesting", "最少测试样本")
    ∷ ("param.leaf.agentCount", "智能体数量")
    ∷ ("param.leaf.kNN", "近邻数量")
    ∷ ("param.leaf.adaptiveRatio", "自适应比例")
    ∷ ("param.leaf.lengthScale", "长度尺度")
    ∷ ("param.leaf.signalScale", "信号尺度")
    ∷ ("param.leaf.noiseScale", "噪声尺度")
    ∷ ("param.leaf.minimumRegularization", "最小正则化")
    ∷ ("param.leaf.trendThreshold", "趋势阈值")
    ∷ ("param.leaf.maximumMixing", "最大混合比例")
    ∷ ("param.leaf.trendGain", "趋势增益")
    ∷ ("param.leaf.maximumStepChange", "最大阶跃变化")
    ∷ ("param.leaf.confidence", "置信度")
    ∷ ("param.leaf.calibrationWindow", "校准窗口")
    ∷ ("param.leaf.minimumScores", "最少评分数")
    ∷ ("param.leaf.standardDeviationFloor", "标准差下限")
    ∷ ("param.leaf.calibrationScaleMinimum", "最小校准尺度")
    ∷ ("param.leaf.calibrationScaleMaximum", "最大校准尺度")
    ∷ ("param.leaf.halfWidthMinimum", "最小半宽")
    ∷ ("param.leaf.halfWidthMaximum", "最大半宽")
    ∷ ("param.leaf.coverageWindow", "覆盖率窗口")
    ∷ ("param.leaf.updateMode", "更新模式")
    ∷ ("param.leaf.varianceFloor", "方差下限")
    ∷ ("param.leaf.baseCenters", "基础中心")
    ∷ ("param.leaf.transitionCenters", "过渡中心")
    ∷ ("param.leaf.boundaryCenters", "边界中心")
    ∷ ("param.leaf.transitionQuantile", "过渡分位数")
    ∷ ("param.leaf.publicAnchors", "公共锚点")
    ∷ ("param.leaf.iterations", "迭代次数")
    ∷ ("param.leaf.randomSeed", "随机种子")
    ∷ ("param.leaf.scaleMultiple", "尺度倍数")
    ∷ ("param.leaf.minimumWeight", "最小权重")
    ∷ ("param.leaf.minimumQuerySupport", "最小查询支持度")
    ∷ ("param.leaf.fullWeightReference", "满权重参考")
    ∷ ("param.leaf.noiseRatio", "噪声比例")
    ∷ ("param.leaf.choleskyAttempts", "Cholesky 尝试次数")
    ∷ ("param.leaf.leaveOneOut", "留一法")
    ∷ ("param.leaf.maximumGlobalWeight", "最大全局权重")
    ∷ ("param.leaf.initialImprovement", "初始改进量")
    ∷ ("param.leaf.errorWindow", "误差窗口")
    ∷ ("param.leaf.minimumSamples", "最少样本")
    ∷ ("param.leaf.winMargin", "胜出裕量")
    ∷ ("param.leaf.varianceWeight", "方差权重")
    ∷ ("param.leaf.winsorQuantile", "Winsor 分位数")
    ∷ ("param.leaf.globalClearThreshold", "全局清除阈值")
    ∷ ("param.leaf.neutralUpperLimit", "中性上限")
    ∷ ("param.leaf.persistence", "持续次数")
    ∷ ("param.leaf.riseSmoothing", "上升平滑")
    ∷ ("param.leaf.fallSmoothing", "下降平滑")
    ∷ ("param.leaf.disagreementKappa", "分歧系数 Kappa")
    ∷ ("param.leaf.maximumVarianceRatio", "最大方差比")
    ∷ ("param.leaf.imbalanceThreshold", "不平衡阈值")
    ∷ ("param.leaf.noticeCount", "提示计数")
    ∷ ("param.leaf.warningCount", "警告计数")
    ∷ ("param.leaf.alarmCount", "告警计数")
    ∷ ("param.leaf.absoluteCurrentThreshold", "绝对电流阈值")
    ∷ ("param.leaf.tensionThreshold", "张力阈值")
    ∷ ("param.leaf.featureDimensionFormula", "特征维度公式")
    ∷ ("param.leaf.leaveOneOutGlobalModel", "留一法全局模型")
    ∷ ("param.leaf.predictThenUpdate", "先预测，再更新")
    ∷ ("queue.noWaiting", "暂无等待任务。")
    ∷ ("diagnostic.selectedPoint", "点 #{point}")
    ∷ ("diagnostic.selectedPointUnavailable", "当前所选结果点在该任务中不可用。")
    ∷ ("aria.chartKeyboard", "使用左右方向键选择已显示的结果点。")
    ∷ ("system.worker", "算法工作器")
    ∷ ("workspace.title", "三智能体联邦 GPR 监控")
    ∷ ("workspace.description", "智能体 1、智能体 2 和智能体 3 在同一个算法工作器中运行。这不是真实的跨节点联邦。")
    ∷ ("workspace.agent", "智能体 {agent}")
    ∷ ("workspace.metrics", "当前智能体测试集指标")
    ∷ ("workspace.resultTitle", "冻结结果 · 智能体 {agent}")
    ∷ ("data.description", "文件仅保留在本地平台。算法工作器预检与仿真使用同一预处理契约。")
    ∷ ("data.worker", "算法工作器预检")
    ∷ ("data.validating", "算法工作器预检尚未完成。仅在数据集进入 VALID 后展示完整统计。")
    ∷ ("data.stats", "算法工作器预检统计")
    ∷ ("data.awaiting", "等待算法工作器预检")
    ∷ ("data.preflightQueued", "算法工作器预检已排队")
    ∷ ("data.preflightRunning", "算法工作器预检正在运行")
    ∷ ("data.preflightFinalizing", "算法工作器预检正在完成提交")
    ∷ ("data.preflight.queued", "算法工作器预检已排队，尚未开始校验。")
    ∷ ("data.preflight.running", "算法工作器预检正在校验。")
    ∷ ("data.preflight.validating", "算法工作器预检正在等待当前校验状态。")
    ∷ ("data.preflight.finalizing", "算法工作器预检已完成，数据集正在完成提交。")
    ∷ ("data.preflight.valid", "算法工作器预检已成功完成。")
    ∷ ("data.preflight.invalid", "算法工作器预检未能校验该数据集，无法开始仿真。")
    ∷ ("config.agents", "严格为智能体 1 / 2 / 3")
    ∷ ("config.noEdits", "当前没有任何共享参数或智能体参数获准编辑。")
    ∷ ("config.copy", "创建自定义默认副本")
    ∷ ("config.defaultCopyName", "自定义默认副本")
    ∷ ("config.saved", "已创建不可变自定义版本 {version}")
    ∷ ("state.disabled", "需要有效数据集、已保存参数方案、identity 映射以及严格的智能体 1 / 2 / 3。")
    ∷ ("aria.agents", "逻辑智能体")
    ∷ ("error.PREFLIGHT_QUEUE_FULL", "算法工作器预检队列已满，请在已有预检完成后重试。")
    ∷ ("error.INPUT_INVALID", "算法工作器预检拒绝了数据集输入。")
    ∷ ("error.INSUFFICIENT_SAMPLES", "算法工作器预检发现可用样本不足。")
    ∷ ("error.NUMERICAL_FAILURE", "算法工作器预检遇到数值计算失败。")
    ∷ ("error.RESOURCE_LIMIT", "算法工作器预检达到资源限制。")
    ∷ ("error.ARTIFACT_WRITE_FAILED", "算法工作器预检无法写入必需制品。")
    ∷ []

unfoldable pub create_chinese : List (String × String)
create_chinese =
    ("config.creating", "正在创建自定义默认副本…")
    ∷ ("config.created", "已创建自定义默认副本 {version}。")
    ∷ ("config.createdReadOnly", "参数编辑仍需等待白名单批准。")
    ∷ []

unfoldable pub terminology_chinese : List (String × String)
terminology_chinese =
    ("history.description", "查看真实终态任务、其冻结准入快照和已校验的本地结果文件。")
    ∷ ("history.artifacts", "结果文件")
    ∷ ("history.artifactsComplete", "必需结果文件已生成并校验")
    ∷ ("history.artifactsIncomplete", "结果文件不完整")
    ∷ ("history.artifactsUnavailable", "结果文件不可用")
    ∷ ("history.artifactsRequired", "回放和下载需要已生成并校验的必需结果文件。")
    ∷ ("history.manifest", "结果文件清单")
    ∷ ("history.artifactName", "结果文件")
    ∷ ("replay.noSelection", "请在历史记录中选择具有已校验结果文件的已完成任务。")
    ∷ ("workspace.artifactsIncomplete", "必需结果文件不完整。")
    ∷ ("diagnostic.title", "结果文件与预处理完整性")
    ∷ ("error.ARTIFACT_WRITE_FAILED", "算法工作器预检无法写入必需结果文件。")
    ∷ []
