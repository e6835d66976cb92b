-- ===== src/Domain/Monitoring.antt =====
-- domain/monitoring.py, domain/topology.py and the result of a detector (ports/detectors.py).
use aiops_control_lab.Base.{ℕ, String, Dict, Float, Bool}
use aiops_control_lab.Domain.Models.{Time}

pub record AgentNode : Type 0 where
  pub id : String
  pub version : String
  pub instance_id : String
  pub certificate_identity : String
  pub status : String
  pub connected_at : Time
  pub last_heartbeat_at : Time

pub record MonitoredAsset : Type 0 where
  pub id : String
  pub node_id : String
  pub kind : String
  pub name : String
  pub status : String
  pub environment : String
  pub source : String
  pub last_seen_at : Time
  pub attributes : Dict String

pub record MonitoredTopologyEdge : Type 0 where
  pub source_asset_id : String
  pub target_asset_id : String
  pub relation : String
  pub weight : Float
  pub source : String
  pub last_seen_at : Time

pub record MonitorRule : Type 0 where
  pub id : String
  pub name : String
  pub metric_name : String
  pub asset_selector : String
  pub operator : String
  pub threshold : Float
  pub consecutive_cycles : ℕ
  pub recovery_cycles : ℕ
  pub severity : String
  pub window_seconds : ℕ
  pub enabled : Bool

pub record MonitorEvaluation : Type 0 where
  pub id : String
  pub rule_id : String
  pub asset_id : String
  pub value : Float
  pub state : String
  pub breach_streak : ℕ
  pub recovery_streak : ℕ
  pub message : String
  pub evaluated_at : Time

pub record LatestMetric : Type 0 where
  pub name : String
  pub value : Float
  pub labels : Dict String
  pub collected_at : Time

pub record TopologyEdge : Type 0 where
  pub source_asset_id : String
  pub target_asset_id : String
  pub relation : String

pub record ObservedAnomaly : Type 0 where
  pub asset_id : String
  pub score : Float
  pub occurred_at : Time
  pub evidence_id : String

pub record DetectionResult : Type 0 where
  pub anomalous : Bool
  pub score : Float
  pub reason : String
