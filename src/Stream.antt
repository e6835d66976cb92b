-- ===== src/Stream.antt =====
-- adapters/grpc_agent_gateway.py: the frames of an agent's connection. What `context.abort` raises is
-- an error like any other.
pub mod Bound
use aiops_control_lab.Base.{
  ℕ, String, Option, none, some, List, [], ◌∷◌, map, Dict, lookup, Float, Exec, Result, ok, err,
  Error, pure, raise, lift, ◌>>=◌, ◌>>◌, agent_identity, grpc_failed_precondition,
  grpc_permission_denied,
}
use aiops_control_lab.Domain.Models.{Time}
use aiops_control_lab.Domain.Monitoring.{
  AgentNode, MonitoredAsset, MonitoredTopologyEdge, LatestMetric,
}
use aiops_control_lab.App.{App, Platform}
use aiops_control_lab.Ingestion.{connect, ingest}

-- The messages of agent/v1. A time is the bit pattern of an int64 of milliseconds.
pub record MetricItem : Type 0 where
  pub name : String
  pub value : Float
  pub labels : Dict String
  pub collected_unix_ms : ℕ

pub record AssetItem : Type 0 where
  pub asset_id : String
  pub node_id : String
  pub kind : String
  pub name : String
  pub status : String
  pub attributes : Dict String

pub record EdgeItem : Type 0 where
  pub source_asset_id : String
  pub target_asset_id : String
  pub relation : String
  pub weight : Float
  pub source : String

pub record TelemetryBatch : Type 0 where
  pub sequence : ℕ
  pub collected_unix_ms : ℕ
  pub metrics : List MetricItem
  pub assets : List AssetItem
  pub topology : List EdgeItem

pub data Frame : Type 0 where
  hello : String → String → String → Frame
  telemetry : TelemetryBatch → Frame
  -- neither of the two
  blank : Frame

-- The process, and of the connection the node that said hello and the acknowledged sequences, the
-- last one first.
pub record Connection : Type 0 where
  pub app : App
  pub node : Option AgentNode
  pub acknowledged : List ℕ

-- The gateway's ingestion service, the identity of the peer's certificate, and
-- `datetime.fromtimestamp(ms / 1000, UTC)`
pub record Peer : Type 0 where
  pub platform : Platform
  pub allowed_identities : Dict String
  pub certificate_identity : String
  pub from_unix_ms : ℕ → Result Time

-- `_certificate_identity`, with the decoded values under `x509_common_name`
unfoldable pub identity_of : List String → String
identity_of [] = ""
identity_of (value ∷ values) = value

-- `attributes.get(key, default)`
abbrev pub get_or : Option String → String → String
get_or none fallback = fallback
get_or (some value) fallback = value

-- A method of the ingestion service.
abbrev pub on_app : {A : Type 0} → Exec App A → Exec Connection A
on_app m c = let (r, app) = m c.app in (r, record c { app = app })

module _ (p : Peer) where
  unfoldable pub metrics_of : List MetricItem → Exec Connection (List LatestMetric)
  metrics_of [] = pure []
  metrics_of (item ∷ items) = do
    collected_at ← lift (p.from_unix_ms item.collected_unix_ms)
    metrics ← metrics_of items
    pure (
        record {
          name = item.name;
          value = item.value;
          labels = item.labels;
          collected_at = collected_at;
        }
        ∷ metrics)

  unfoldable pub asset_of : Time → AssetItem → MonitoredAsset
  asset_of observed_at item = record {
    id = item.asset_id;
    node_id = item.node_id;
    kind = item.kind;
    name = item.name;
    status = item.status;
    environment = get_or (lookup "environment" item.attributes) "real";
    source = get_or (lookup "source" item.attributes) "agent";
    last_seen_at = observed_at;
    attributes = item.attributes;
  }

  unfoldable pub edge_of : Time → EdgeItem → MonitoredTopologyEdge
  edge_of observed_at item = record {
    source_asset_id = item.source_asset_id;
    target_asset_id = item.target_asset_id;
    relation = item.relation;
    weight = item.weight;
    source = item.source;
    last_seen_at = observed_at;
  }

  unfoldable pub accept_hello : AgentNode → Exec Connection (Unit {0})
  accept_hello node c = (ok tt, record c { node = some node })

  unfoldable pub acknowledge : ℕ → Exec Connection (Unit {0})
  acknowledge sequence c = (ok tt, record c { acknowledged = sequence ∷ c.acknowledged })

  -- `except AgentIdentityError`
  abbrev pub denied : Error → Error
  denied agent_identity = grpc_permission_denied
  denied e = e

  abbrev pub or_denied : Result AgentNode → Result AgentNode
  or_denied (ok node) = ok node
  or_denied (err e) = err (denied e)

  -- `self._ingestion.connect` in its `try`
  unfoldable pub try_connect : String → String → String → Exec Connection AgentNode
  try_connect node_id version instance_id c =
      let (r, app) =
        connect p.platform p.allowed_identities node_id version instance_id p.certificate_identity
          c.app in
      (or_denied r, record c { app = app })

  unfoldable pub take_hello :
      Option AgentNode → String → String → String → Exec Connection (Unit {0})
  unfolding try_connect accept_hello
  take_hello (some node) node_id version instance_id = raise grpc_failed_precondition
  take_hello none node_id version instance_id =
      try_connect node_id version instance_id >>= accept_hello

  -- the block of a telemetry message
  unfoldable pub take_batch : AgentNode → TelemetryBatch → Exec Connection (Unit {0})
  unfolding metrics_of asset_of edge_of acknowledge
  take_batch node batch = do
    observed_at ← lift (p.from_unix_ms batch.collected_unix_ms)
    metrics ← metrics_of batch.metrics
    accepted ← on_app (
        ingest p.platform node batch.sequence metrics (map (asset_of observed_at) batch.assets)
          (map (edge_of observed_at) batch.topology))
    acknowledge batch.sequence

  -- the body of the loop over the messages
  unfoldable pub take_frame : Frame → Option AgentNode → Exec Connection (Unit {0})
  unfolding take_hello take_batch
  take_frame (hello node_id version instance_id) node = take_hello node node_id version instance_id
  take_frame (telemetry batch) none = raise grpc_failed_precondition
  take_frame (telemetry batch) (some node) = take_batch node batch
  take_frame blank none = raise grpc_failed_precondition
  take_frame blank (some node) = pure tt

  -- `Connect`: the loop ends with the messages or with the first error.
  unfoldable pub serve_frames : List Frame → Exec Connection (Unit {0})
  unfolding take_frame
  serve_frames [] = pure tt
  serve_frames (frame ∷ frames) = (λ c. take_frame frame c.node c) >> serve_frames frames
