-- ===== src/Signals.antt =====
-- application/incident_service.py: from the value of a metric to an incident and a plan.
pub mod Observing
use Prim.Native.String.{◌++◌}
use aiops_control_lab.Base.{
  ℕ, String, Bool, true, false, not, ◌&&◌, ◌==◌, Option, none, some, List, [], ◌∷◌,
  ◌++◌ as list_append, all, keep, contains, map, Float, FloatOps, float_min, float_le, Exec, Result,
  pure, lift, gets, ◌>>=◌, ◌>>◌, if◌then◌else◌,
}
use aiops_control_lab.Domain.Enums.{IncidentStatus, PlanStatus, RiskLevel}
use aiops_control_lab.Domain.Models.{
  Time, Signal, EvidenceRef, Hypothesis, Incident, RemediationStep, RemediationPlan,
}
use aiops_control_lab.Domain.Monitoring.{TopologyEdge, DetectionResult}
use aiops_control_lab.Domain.Lifecycle.{wait_for_approval}
use aiops_control_lab.Repository.{
  list_incidents, list_change_events, save_incident, save_plan, get_plan_by_incident,
}
use aiops_control_lab.App.{App, Platform, new_id, utc_now, earlier, later, seconds, store}
use aiops_control_lab.Policy.{is_real_asset}
use aiops_control_lab.Correlation.{CorrelationMatch, change_evidence, find_match}
use aiops_control_lab.Remediation.{transition}

pub record EvaluationOutcome : Type 0 where
  pub detection : DetectionResult
  pub incident : Option Incident
  pub plan : Option RemediationPlan

-- What `IncidentApplicationService` is constructed with, the repositories aside: the detector, whether
-- there are a correlation service and a repository of changes, the edges and the mode.
pub record Signals : Type 0 where
  pub platform : Platform
  pub detect : List Float → Float → Result DetectionResult
  pub correlates : Bool
  pub knows_changes : Bool
  pub topology_edges : List TopologyEdge
  pub real_actions_mode : String

-- `item for item in change_evidence if item.query not in existing_queries`
abbrev pub new_evidence : List EvidenceRef → List EvidenceRef → List EvidenceRef
new_evidence evidence changes =
    keep (λ item. not (contains item.query (map (λ (e : EvidenceRef). e.query) evidence))) changes

module _ (v : Signals) where
  -- `min(detection.score / 10.0, 1.0)`
  abbrev pub hypothesis_score : DetectionResult → Float
  hypothesis_score detection =
      float_min (v.platform.floats.div detection.score 0x4024_0000_0000_0000) 0x3ff0_0000_0000_0000

  unfoldable pub metric_evidence : Signal → DetectionResult → Exec App EvidenceRef
  metric_evidence signal detection = do
    id ← new_id v.platform "evi"
    started_at ← lift (earlier signal.occurred_at (seconds 300))
    pure (record {
      id = id;
      source = "prometheus";
      query = signal.name ++ "{asset_id=\"" ++ signal.asset_id ++ "\"}";
      started_at = started_at;
      ended_at = signal.occurred_at;
      summary = detection.reason;
    })

  unfoldable pub related_changes : Signal → Exec App (List EvidenceRef)
  related_changes signal s =
      (if v.correlates
          then change_evidence v.platform signal (
              if v.knows_changes
              then list_change_events (some signal.asset_id) s.repository
              else [])
          else pure [])
        s

  unfoldable pub related_incident : Signal → App → Option CorrelationMatch
  related_incident signal s =
      if v.correlates
      then find_match signal (list_incidents s.repository) v.topology_edges
      else none

  -- the incident of the match with the new evidence, and a hypothesis if its asset is new
  unfoldable pub extend :
      Signal → DetectionResult → CorrelationMatch → EvidenceRef → List EvidenceRef → Time → Incident
  extend signal detection found evidence changes now =
      let incident = found.incident in
      let hypothesis : Hypothesis = record {
        asset_id = signal.asset_id;
        reason = found.reason ++ "：" ++ signal.name ++ " 同时异常";
        score = v.platform.floats.mul (hypothesis_score detection) found.score;
        evidence_ids = evidence.id ∷ [];
      } in
      record incident {
        updated_at = now;
        evidence =
            list_append (list_append incident.evidence (evidence ∷ []))
              (new_evidence incident.evidence changes);
        hypotheses =
            if all (λ (item : Hypothesis). not (item.asset_id == signal.asset_id))
              incident.hypotheses
            then list_append incident.hypotheses (hypothesis ∷ [])
            else incident.hypotheses;
      }

  -- the branch of a match: the incident is changed and saved
  unfoldable pub join_incident :
      Signal
      → DetectionResult
      → CorrelationMatch
      → EvidenceRef
      → List EvidenceRef
      → Time
      → Exec App EvaluationOutcome
  unfolding extend
  join_incident signal detection found evidence changes now = do
    let incident = extend signal detection found evidence changes now
    store (save_incident incident)
    plan ← gets (λ s. get_plan_by_incident incident.id s.repository)
    pure (record { detection = detection; incident = some incident; plan = plan })

  abbrev pub new_incident :
      String → Signal → DetectionResult → EvidenceRef → List EvidenceRef → Time → Incident
  new_incident id signal detection evidence changes now = record {
    id = id;
    title = signal.asset_id ++ " 出现 " ++ signal.name ++ " 异常";
    asset_id = signal.asset_id;
    severity = if float_le 0x4014_0000_0000_0000 detection.score then "high" else "medium";
    status = IncidentStatus.opened;
    created_at = now;
    updated_at = now;
    evidence = evidence ∷ changes;
    hypotheses =
        (record {
          asset_id = signal.asset_id;
          reason = "资产 " ++ signal.asset_id ++ " 的 " ++ signal.name ++ " 指标异常";
          score = hypothesis_score detection;
          evidence_ids = evidence.id ∷ [];
        })
        ∷ [];
  }

  abbrev pub restart_steps : String → List RemediationStep
  restart_steps asset_id =
      (record {
        action_type = "restart_container";
        target = asset_id;
        arguments = ("grace_seconds", "10") ∷ [];
        expected_result = "容器恢复运行且 HTTP 健康检查通过";
        rollback_action = none;
        rollback_arguments = [];
      })
      ∷ (record {
        action_type = "health_check";
        target = asset_id;
        arguments = [];
        expected_result = "容器状态为 running";
        rollback_action = none;
        rollback_arguments = [];
      })
      ∷ []

  -- the end of the method: the plan and the incident that waits for its approval
  unfoldable pub propose_plan :
      Signal → DetectionResult → Incident → Time → Exec App EvaluationOutcome
  propose_plan signal detection incident now = do
    id ← new_id v.platform "plan"
    expires_at ← lift (later now (seconds 600))
    waiting ← transition v.platform wait_for_approval incident
    store (save_incident waiting)
    let plan : RemediationPlan = record {
      id = id;
      incident_id = incident.id;
      summary = "重启 " ++ signal.asset_id ++ " 并验证健康状态";
      risk = RiskLevel.medium;
      steps = restart_steps signal.asset_id;
      created_at = now;
      expires_at = expires_at;
      status = PlanStatus.pending_approval;
    }
    store (save_plan plan)
    pure (record { detection = detection; incident = some waiting; plan = some plan })

  -- a signal that belongs to no incident
  unfoldable pub create_incident :
      Signal → DetectionResult → EvidenceRef → List EvidenceRef → Time → Exec App EvaluationOutcome
  unfolding propose_plan
  create_incident signal detection evidence changes now = do
    id ← new_id v.platform "inc"
    let incident = new_incident id signal detection evidence changes now
    if is_real_asset signal.asset_id && v.real_actions_mode == "observe_only"
        then store (save_incident incident)
          >> pure (record { detection = detection; incident = some incident; plan = none })
        else propose_plan signal detection incident now

  -- `if match is not None`
  unfoldable pub file_anomaly :
      Signal
      → DetectionResult
      → EvidenceRef
      → List EvidenceRef
      → Time
      → Option CorrelationMatch
      → Exec App EvaluationOutcome
  unfolding join_incident create_incident
  file_anomaly signal detection evidence changes now none =
      create_incident signal detection evidence changes now
  file_anomaly signal detection evidence changes now (some m) =
      join_incident signal detection m evidence changes now

  unfoldable pub record_anomaly : Signal → DetectionResult → Exec App EvaluationOutcome
  unfolding metric_evidence related_changes related_incident file_anomaly
  record_anomaly signal detection = do
    now ← utc_now v.platform
    evidence ← metric_evidence signal detection
    changes ← related_changes signal
    found ← gets (related_incident signal)
    file_anomaly signal detection evidence changes now found

  unfoldable pub evaluate_signal : Signal → List Float → Exec App EvaluationOutcome
  unfolding record_anomaly
  evaluate_signal signal history = do
    detection ← lift (v.detect history signal.value)
    if detection.anomalous
        then record_anomaly signal detection
        else pure (record { detection = detection; incident = none; plan = none })
