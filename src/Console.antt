-- ===== src/Console.antt =====
-- application/console_query_service.py and domain/console.py: the views of the console. A dictionary
-- of `asdict` is the record itself.
pub mod Counts
use Prim.Native.String.{◌++◌}
use aiops_control_lab.Base.{
  ℕ, String, Bool, true, false, not, ◌==◌, starts_with, Option, none, some, List, [], ◌∷◌, map,
  keep, count, length, is_empty, contains, Dict, lookup, if◌then◌else◌,
}
use aiops_control_lab.Domain.Enums.{IncidentStatus, ActionStatus}
use aiops_control_lab.Domain.Models.{Incident, RemediationPlan, ActionRun}
use aiops_control_lab.Domain.Monitoring.{MonitoredAsset, MonitoredTopologyEdge, TopologyEdge}
use aiops_control_lab.Domain.Hash.{Digest, content_hash}
use aiops_control_lab.Repository.{
  Repository, list_incidents, list_action_runs, list_monitored_assets, list_monitored_topology,
  get_plan_by_incident,
}

pub record ManagedAssetView : Type 0 where
  pub id : String
  pub name : String
  pub kind : String
  pub node_id : String
  pub status : String
  pub address : String
  pub responsibilities : List String

pub record CapabilityView : Type 0 where
  pub id : String
  pub name : String
  pub category : String
  pub state : String
  pub description : String

pub record ConsoleOverview : Type 0 where
  pub incident_count : ℕ
  pub active_incident_count : ℕ
  pub resolved_incident_count : ℕ
  pub execution_count : ℕ
  pub successful_execution_count : ℕ
  pub asset_count : ℕ
  pub plugin_count : ℕ
  pub access_mode : String

-- `item.status in active_states`
abbrev pub is_open : IncidentStatus → Bool
is_open IncidentStatus.resolved = false
is_open IncidentStatus.failed = false
is_open _ = true

abbrev pub is_resolved : IncidentStatus → Bool
is_resolved IncidentStatus.resolved = true
is_resolved _ = false

abbrev pub has_succeeded : ActionStatus → Bool
has_succeeded ActionStatus.succeeded = true
has_succeeded _ = false

-- `attributes.get("service", source)`
abbrev pub or_source : Option String → String → String
or_source none source = source
or_source (some service) source = service

unfoldable pub discovered_view : MonitoredAsset → ManagedAssetView
discovered_view item = record {
  id = item.id;
  name = item.name;
  kind = item.kind;
  node_id = item.node_id;
  status = if item.status == "running" then "healthy" else "degraded";
  address = or_source (lookup "service" item.attributes) item.source;
  responsibilities = "真实环境持续监测" ∷ ("数据来源：" ++ item.source) ∷ [];
}

-- the assets of the incidents that are neither resolved nor failed
unfoldable pub unhealthy_assets : List Incident → List String
unhealthy_assets incidents =
    map (λ (i : Incident). i.asset_id) (keep (λ i. is_open i.status) incidents)

-- an entry of `definitions`, with the entry of `responsibilities` for its kind
unfoldable pub lab_view :
    List String → String → String → String → String → String → List String → ManagedAssetView
lab_view unhealthy id name kind node_id address responsibilities = record {
  id = id;
  name = name;
  kind = kind;
  node_id = node_id;
  status = if contains id unhealthy then "degraded" else "healthy";
  address = address;
  responsibilities = responsibilities;
}

unfoldable pub lab_assets : List String → List ManagedAssetView
unfolding lab_view
lab_assets unhealthy =
    lab_view unhealthy "tencent-lab-01" "腾讯云实验节点" "linux_host" "local" "127.0.0.1"
      ("承载控制面与实验环境" ∷ "提供主机指标" ∷ [])
    ∷ lab_view unhealthy "aiops-agent" "节点执行 Agent" "agent" "tencent-lab-01" "agent:9105"
        ("资产发现" ∷ "受控动作执行" ∷ "幂等与签名校验" ∷ [])
    ∷ lab_view unhealthy "lab-gateway" "实验 Nginx 网关" "gateway" "tencent-lab-01" "lab-gateway:8080"
        ("HTTP 流量入口" ∷ "健康状态传播" ∷ [])
    ∷ lab_view unhealthy "lab-api" "实验 API 服务" "service" "tencent-lab-01" "lab-api:8080"
        ("实验业务接口" ∷ "故障注入目标" ∷ [])
    ∷ lab_view unhealthy "lab-redis" "实验 Redis 依赖" "datastore" "tencent-lab-01" "lab-redis:6379"
        ("API 依赖" ∷ "依赖故障实验" ∷ [])
    ∷ []

unfoldable pub assets : Repository → List ManagedAssetView
unfolding discovered_view unhealthy_assets lab_assets
assets r =
    let discovered = list_monitored_assets r in
    if is_empty discovered
    then lab_assets (unhealthy_assets (list_incidents r))
    else map discovered_view discovered

unfoldable pub overview : Repository → String → ℕ → ConsoleOverview
unfolding assets
overview r access_mode plugin_count =
    let incidents = list_incidents r in
    let executions = list_action_runs r in
    record {
      incident_count = length incidents;
      active_incident_count = count (λ item. is_open item.status) incidents;
      resolved_incident_count = count (λ item. is_resolved item.status) incidents;
      execution_count = length executions;
      successful_execution_count = count (λ item. has_succeeded item.status) executions;
      asset_count = length (assets r);
      plugin_count = plugin_count;
      access_mode = access_mode;
    }

-- The edges are those that agents found, or those of the configuration.
pub data Edges : Type 0 where
  discovered : List MonitoredTopologyEdge → Edges
  configured : List TopologyEdge → Edges

unfoldable pub topology : Repository → List TopologyEdge → List ManagedAssetView × Edges
unfolding assets
topology r topology_edges =
    let discovered_edges = list_monitored_topology r in
    if is_empty discovered_edges
    then (keep (λ item. starts_with item.id "lab-") (assets r), configured topology_edges)
    else (assets r, discovered discovered_edges)

pub record IncidentContext : Type 0 where
  pub incident : Incident
  -- with its content hash
  pub plan : Option (RemediationPlan × String)
  pub executions : List ActionRun

abbrev pub with_hash : Digest → Option RemediationPlan → Option (RemediationPlan × String)
with_hash d none = none
with_hash d (some plan) = some (plan, content_hash d plan)

unfoldable pub incident_context : Digest → Repository → Incident → IncidentContext
incident_context d r incident = record {
  incident = incident;
  plan = with_hash d (get_plan_by_incident incident.id r);
  executions = keep (λ item. item.incident_id == incident.id) (list_action_runs r);
}

unfoldable pub incident_contexts : Digest → Repository → List IncidentContext
unfolding incident_context
incident_contexts d r = map (incident_context d r) (list_incidents r)

abbrev pub capability : String → String → String → String → String → CapabilityView
capability id name category state description = record {
  id = id;
  name = name;
  category = category;
  state = state;
  description = description;
}

unfoldable pub capabilities : Bool → Bool → List CapabilityView
capabilities llm_enabled loki_enabled =
    capability "rolling-zscore" "滚动 Z-Score" "异常检测" "online" "当前在线默认检测器"
    ∷ capability "ewma" "EWMA" "异常检测" "experiment" "已实现并进入离线算法评测"
    ∷ capability "seasonal" "季节性基线" "异常检测" "experiment" "已实现同季节位置比较"
    ∷ capability "isolation-forest" "Isolation Forest" "异常检测" "experiment" "轻量一维无监督检测器"
    ∷ capability "prometheus" "Prometheus" "可观测性" "online" "指标证据查询数据源"
    ∷ capability "loki" "Loki" "可观测性" (if loki_enabled then "online" else "disabled")
        "日志证据数据源；轻量云部署默认关闭"
    ∷ capability "llm" "OpenAI-compatible LLM" "AI 诊断"
        (if llm_enabled then "online" else "degraded") "未配置云模型时自动使用确定性规则诊断"
    ∷ capability "rag" "关键词与哈希向量混合 RAG" "AI 诊断" "online" "Runbook 检索并返回稳定引用"
    ∷ capability "autoencoder" "时序自编码器" "离线实验" "experiment" "仅用于 Notebook 和算法对比，不进入在线依赖"
    ∷ []
