-- ===== src/Ingestion.antt =====
-- application/agent_ingestion_service.py: the connection of an agent, and its batches.
pub mod Safety
use aiops_control_lab.Base.{
  ℕ, String, Bool, true, false, not, ◌==◌, Option, none, some, List, [], ◌∷◌, Dict, lookup, Exec,
  pure, raise, raise_if, ◌>>=◌, ◌>>◌, agent_identity, for_each, if◌then◌else◌,
}
use aiops_control_lab.Domain.Models.{Time}
use aiops_control_lab.Domain.Monitoring.{
  AgentNode, MonitoredAsset, MonitoredTopologyEdge, LatestMetric,
}
use aiops_control_lab.Repository.{save_agent_node, save_monitored_asset, save_monitored_topology}
use aiops_control_lab.MetricStore.{accept_batch}
use aiops_control_lab.App.{App, Platform, utc_now, store}

-- `expected is None or expected != certificate_identity`
abbrev pub mismatches : Option String → String → Bool
mismatches none certificate_identity = true
mismatches (some expected) certificate_identity = not (expected == certificate_identity)

-- `AgentIngestionService.connect`, of a service with the identities `allowed_identities`
unfoldable pub connect :
    Platform → Dict String → String → String → String → String → Exec App AgentNode
connect p allowed_identities node_id version instance_id certificate_identity = do
  raise_if (mismatches (lookup node_id allowed_identities) certificate_identity) agent_identity
  now ← utc_now p
  let node : AgentNode = record {
    id = node_id;
    version = version;
    instance_id = instance_id;
    certificate_identity = certificate_identity;
    status = "online";
    connected_at = now;
    last_heartbeat_at = now;
  }
  store (save_agent_node node)
  pure node

-- `self._metric_store.accept_batch`
unfoldable pub accept_metrics : AgentNode → ℕ → List LatestMetric → Exec App Bool
accept_metrics node sequence metrics s =
    let (accepted, m) = accept_batch node.id node.instance_id sequence metrics s.metric_store in
    pure accepted (record s { metric_store = m })

abbrev pub heartbeat : AgentNode → Time → AgentNode
heartbeat node now = record node { status = "online"; last_heartbeat_at = now }

-- the body of the loop over the assets
unfoldable pub save_asset : AgentNode → MonitoredAsset → Exec App (Unit {0})
save_asset node asset = do
  raise_if (not (asset.node_id == node.id)) agent_identity
  store (save_monitored_asset asset)

-- from the heartbeat on
unfoldable pub save_telemetry :
    Platform → AgentNode → List MonitoredAsset → List MonitoredTopologyEdge → Exec App Bool
unfolding save_asset
save_telemetry p node assets topology = do
  now ← utc_now p
  store (save_agent_node (heartbeat node now))
  for_each (save_asset node) assets
  for_each (λ edge. store (save_monitored_topology edge)) topology
  pure true

-- `AgentIngestionService.ingest`
unfoldable pub ingest :
    Platform
    → AgentNode
    → ℕ
    → List LatestMetric
    → List MonitoredAsset
    → List MonitoredTopologyEdge
    → Exec App Bool
unfolding accept_metrics save_telemetry
ingest p node sequence metrics assets topology = do
  accepted ← accept_metrics node sequence metrics
  if accepted then save_telemetry p node assets topology else pure false
