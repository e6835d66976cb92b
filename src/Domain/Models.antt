-- ===== src/Domain/Models.antt =====
-- domain/models.py and domain/changes.py. A time is a number of microseconds since the first moment
-- of year 1, in UTC.
use aiops_control_lab.Base.{ℕ, String, Option, List, Dict, Float, Bool}
use aiops_control_lab.Domain.Enums.{IncidentStatus, PlanStatus, ActionStatus, RiskLevel}

abbrev pub Time : Type 0
Time = ℕ

pub record Signal : Type 0 where
  pub asset_id : String
  pub name : String
  pub value : Float
  pub occurred_at : Time
  pub labels : Dict String

pub record EvidenceRef : Type 0 where
  pub id : String
  pub source : String
  pub query : String
  pub started_at : Time
  pub ended_at : Time
  pub summary : String

pub record Hypothesis : Type 0 where
  pub asset_id : String
  pub reason : String
  pub score : Float
  pub evidence_ids : List String

pub record Incident : Type 0 where
  pub id : String
  pub title : String
  pub asset_id : String
  pub severity : String
  pub status : IncidentStatus
  pub created_at : Time
  pub updated_at : Time
  pub evidence : List EvidenceRef
  pub hypotheses : List Hypothesis

pub record RemediationStep : Type 0 where
  pub action_type : String
  pub target : String
  pub arguments : Dict String
  pub expected_result : String
  pub rollback_action : Option String
  pub rollback_arguments : Dict String

pub record RemediationPlan : Type 0 where
  pub id : String
  pub incident_id : String
  pub summary : String
  pub risk : RiskLevel
  pub steps : List RemediationStep
  pub created_at : Time
  pub expires_at : Time
  pub status : PlanStatus

pub record Approval : Type 0 where
  pub id : String
  pub plan_id : String
  pub approver : String
  pub approved_hash : String
  pub approved_at : Time

-- One entry of the lists in `ActionRun.output`.
pub record StepOutput : Type 0 where
  pub action_type : String
  pub target : String
  pub succeeded : Bool
  pub message : String

-- What `RecoveryVerifier.verify` returns (the dictionary of `HttpLabHealthProbe.verify`).
pub record Verification : Type 0 where
  pub source : String
  pub target : String
  pub probe_target : String
  pub healthy : Bool
  pub status_code : ℕ
  pub latency_ms : Float
  pub observed_at : Time

pub record Output : Type 0 where
  pub steps : List StepOutput
  pub rollback : List StepOutput
  pub verification : Option Verification

-- The empty dictionary that `output` starts as is `none`.
pub record ActionRun : Type 0 where
  pub id : String
  pub plan_id : String
  pub incident_id : String
  pub idempotency_key : String
  pub approved_hash : String
  pub status : ActionStatus
  pub created_at : Time
  pub started_at : Option Time
  pub finished_at : Option Time
  pub output : Option Output

pub record ChangeEvent : Type 0 where
  pub id : String
  pub provider : String
  pub event_type : String
  pub service : String
  pub revision : String
  pub status : String
  pub occurred_at : Time
  pub attributes : Dict String
