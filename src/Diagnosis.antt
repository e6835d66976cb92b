-- ===== src/Diagnosis.antt =====
-- domain/diagnostics.py, domain/knowledge.py, adapters/rule_based_diagnosis.py and
-- application/diagnostic_assistant_service.py: a diagnosis by a language model, with rules for where
-- the model fails. Retrieval is application/hybrid_retrieval_service.py.
pub mod Retrieval
pub mod Fallback
use Prim.Native.String.{◌++◌}
use aiops_control_lab.Base.{
  String, Bool, true, false, not, ◌||◌, List, [], ◌∷◌, map, take, Result, ok, err, Float,
  if◌then◌else◌,
}
use aiops_control_lab.Results.{◌>>=◌}
use aiops_control_lab.Texts.{joined_by}
use aiops_control_lab.Diagnosis.Retrieval.{KnowledgeDocument, RetrievalHit}

pub record GeneratedDiagnosis : Type 0 where
  pub summary : String
  pub root_cause : String
  pub recommended_action : String
  pub confidence : Float

-- `RuleBasedDiagnosticModel.diagnose`, where `mentions` says whether a word is in the lower-case text.
-- The confidences are 0.55, 0.5 and 0.2.
unfoldable pub diagnose_by_rules : (String → String → Bool) → String → String → GeneratedDiagnosis
diagnose_by_rules mentions question trusted_context =
    let combined = question ++ (" " ++ trusted_context) in
    if mentions "redis" combined || mentions "连接" combined
    then record {
      summary = "依赖服务连接异常";
      root_cause = "Redis 不可用、连接超时或连接池耗尽";
      recommended_action = "先检查 Redis 容器状态和连接数，再执行健康检查";
      confidence = 0x3fe1_9999_9999_999a;
    }
    else if mentions "cpu" combined || mentions "负载" combined
    then record {
      summary = "计算资源使用异常";
      root_cause = "目标进程 CPU 占用突增或容器配额不足";
      recommended_action = "检查进程与容器指标，确认影响后再重启实验容器";
      confidence = 0x3fe0_0000_0000_0000;
    }
    else record {
      summary = "证据不足，无法确定单一根因";
      root_cause = "需要补充指标、日志和最近变更信息";
      recommended_action = "保持只读并扩大证据时间窗口";
      confidence = 0x3fc9_9999_9999_999a;
    }

pub record DiagnosticAnswer : Type 0 where
  pub diagnosis : GeneratedDiagnosis
  pub citations : List String
  pub degraded : Bool

-- A language model, given a question and a context
abbrev pub Model : Type 0
Model = String → String → Result GeneratedDiagnosis

-- `DiagnosticAssistantService`. `search` is the retrieval with the limit 4, and `first_2000` takes
-- the first characters of a text.
pub record Assistant : Type 0 where
  pub search : String → Result (List RetrievalHit)
  pub primary_model : Model
  pub fallback_model : Model
  pub primary_enabled : Bool
  pub first_2000 : String → String

module _ (a : Assistant) where
  -- `_build_context`
  unfoldable pub build_context : List String → List RetrievalHit → String
  build_context evidence hits =
      "【运行证据】\n"
      ++ (joined_by "\n" (map (λ item. "- " ++ item) (take 20 evidence))
          ++ ("\n\n【知识库】\n"
              ++ joined_by "\n\n" (
                  map
                    (λ (hit : RetrievalHit).
                      "来源：" ++ (hit.citation ++ ("\n" ++ a.first_2000 hit.document.body)))
                    hits)))

  abbrev pub answer : List RetrievalHit → Bool → GeneratedDiagnosis → DiagnosticAnswer
  answer hits degraded diagnosis = record {
    diagnosis = diagnosis;
    citations = map (λ (hit : RetrievalHit). hit.citation) hits;
    degraded = degraded;
  }

  -- the fallback sees the question and the evidence only
  unfoldable pub fall_back : String → List String → List RetrievalHit → Result DiagnosticAnswer
  fall_back question evidence hits =
      a.fallback_model question (joined_by "\n" evidence) >>= λ diagnosis.
      ok (answer hits true diagnosis)

  -- the `try` statement
  abbrev pub or_fall_back :
      String → List String → List RetrievalHit → Result GeneratedDiagnosis → Result DiagnosticAnswer
  or_fall_back question evidence hits (ok diagnosis) = ok (answer hits false diagnosis)
  or_fall_back question evidence hits (err e) = fall_back question evidence hits

  unfoldable pub diagnose : String → List String → Result DiagnosticAnswer
  unfolding build_context fall_back
  diagnose question evidence = a.search question >>= λ hits.
      if not a.primary_enabled
      then fall_back question evidence hits
      else or_fall_back question evidence hits
          (a.primary_model question (build_context evidence hits))
