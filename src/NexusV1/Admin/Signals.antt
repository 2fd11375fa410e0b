-- ===== src/NexusV1/Admin/Signals.antt =====
-- The words of a request that tell its intent, its difficulty and its equipment.
use nexus_ai_team.Prelude.{
  ℕ, ◌+◌, ltb, leb, String, ◌&&◌, ◌||◌, ◌==◌, Option, none, some, List, [], ◌∷◌, any, if◌then◌else◌,
}
use nexus_ai_team.Prelude.Text.{strip, lower, contains, len_text}
use nexus_ai_team.Prelude.Dict.{Dict}

abbrev pub equipment_keywords : Dict (List String)
equipment_keywords =
    (
      "health_check",
      "health" ∷ "健康" ∷ "cpu" ∷ "ram" ∷ "memory" ∷ "disk" ∷ "gpu" ∷ "usage" ∷ "系统状态" ∷ "健康检查"
          ∷ "健康状态" ∷ "system health" ∷ [],
    )
    ∷ (
      "log_rotate",
      "log rotate" ∷ "log rotation" ∷ "日志轮转" ∷ "日志清理" ∷ "rotate log" ∷ "clean log" ∷ "log clean"
          ∷ "日志" ∷ [],
    )
    ∷ ("backup", "backup" ∷ "备份" ∷ "back up" ∷ [])
    ∷ (
      "cost_report",
      "cost report" ∷ "token cost" ∷ "成本报告" ∷ "费用报告" ∷ "token usage" ∷ "cost summary" ∷ "成本" ∷ [],
    )
    ∷ []

first_match : String → Dict (List String) → Option String
unfolding contains
first_match lowered [] = none
first_match lowered ((name, keywords) ∷ rest) =
    let later = first_match lowered rest in
    if any (λ kw. contains kw lowered) keywords then some name else later

unfoldable pub detect_equipment : String → Option String
unfolding first_match lower
detect_equipment request = first_match (lower request) equipment_keywords

unfoldable pub infer_intent : String → String
unfolding lower contains
infer_intent request =
    let lowered = lower request in
    let mentions = any (λ k. contains k lowered) in
    if mentions ("bug" ∷ "debug" ∷ "error" ∷ "fix" ∷ "报错" ∷ "修复" ∷ [])
    then "debug"
    else if mentions ("deploy" ∷ "docker" ∷ "k8s" ∷ "ops" ∷ "上线" ∷ "部署" ∷ [])
    then "ops"
    else if mentions ("doc" ∷ "readme" ∷ "文档" ∷ "说明" ∷ [])
    then "documentation"
    else if mentions ("build" ∷ "implement" ∷ "create" ∷ "新增" ∷ "实现" ∷ "搭建" ∷ [])
    then "build_feature"
    else "general_request"

abbrev pub unclear_signals : List String
unclear_signals = "不知道" ∷ "随便" ∷ "你看着办" ∷ "unclear" ∷ "not sure" ∷ "whatever" ∷ []

abbrev pub complex_signals : List String
complex_signals =
    "architecture" ∷ "refactor" ∷ "migration" ∷ "database" ∷ "security" ∷ "performance"
    ∷ "langgraph" ∷ "redis" ∷ "postgres" ∷ "docker" ∷ "kubernetes" ∷ "架构" ∷ "重构" ∷ "迁移" ∷ "数据库"
    ∷ "性能" ∷ "安全" ∷ []

abbrev pub trivial_signals : List String
trivial_signals =
    "typo" ∷ "format" ∷ "translate" ∷ "rename" ∷ "small" ∷ "quick" ∷ "改个字" ∷ "翻译" ∷ "润色" ∷ "一句话"
    ∷ []

hits : String → List String → ℕ
unfolding contains
hits lowered [] = 0
hits lowered (token ∷ tokens) = (if contains token lowered then 1 else 0) + hits lowered tokens

unfoldable pub infer_difficulty : (lowered raw_text : String) → String
unfolding hits strip len_text contains
infer_difficulty lowered raw_text =
    if ltb (len_text (strip raw_text)) 8
    then "unclear"
    else if any (λ token. contains token lowered) unclear_signals
    then "unclear"
    else if leb 2 (hits lowered complex_signals) || ltb 900 (len_text raw_text)
    then "complex"
    else if ltb (len_text raw_text) 140 && any (λ token. contains token lowered) trivial_signals
    then "trivial"
    else "normal"

unfoldable pub default_qa : String → String
default_qa intent =
    if intent == "debug"
    then "Reproduce the issue, apply fix, and verify the failure no longer occurs."
    else if intent == "build_feature"
    then "Feature must run without errors and include a local verification step."
    else if intent == "ops"
    then "Changes must include rollback notes and a post-change health check."
    else "Must run without errors."
