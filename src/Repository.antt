-- ===== src/Repository.antt =====
-- adapters/memory_repository.py: the dictionaries of `InMemoryRepository` and its methods. The
-- repository hands out the objects that it holds, so a service that assigns to a field of one
-- changes what the repository holds at once.
pub mod Laws
use Prim.Native.Nat.{Ordering}
use Prim.Native.String.{compare}
use aiops_control_lab.Base.{
  ℕ, String, Bool, true, false, ◌&&◌, ◌==◌, Option, none, some, List, [], ◌∷◌, Dict, lookup, insert,
  values, keep, take, sorted, best, ltb, if◌then◌else◌,
}
use aiops_control_lab.Domain.Models.{Incident, RemediationPlan, Approval, ActionRun, ChangeEvent}
use aiops_control_lab.Domain.Monitoring.{
  AgentNode, MonitoredAsset, MonitoredTopologyEdge, MonitorRule, MonitorEvaluation,
}

pub record Repository : Type 0 where
  pub incidents : Dict Incident
  pub plans : Dict RemediationPlan
  pub approvals : Dict Approval
  pub action_runs : Dict ActionRun
  pub action_keys : Dict String
  pub change_events : Dict ChangeEvent
  pub agent_nodes : Dict AgentNode
  pub monitored_assets : Dict MonitoredAsset
  pub monitored_topology : List MonitoredTopologyEdge
  pub monitor_rules : Dict MonitorRule
  pub monitor_evaluations : Dict MonitorEvaluation

abbrev pub empty : Repository
empty = record {
  incidents = [];
  plans = [];
  approvals = [];
  action_runs = [];
  action_keys = [];
  change_events = [];
  agent_nodes = [];
  monitored_assets = [];
  monitored_topology = [];
  monitor_rules = [];
  monitor_evaluations = [];
}

unfoldable pub save_incident : Incident → Repository → Repository
save_incident i r = record r { incidents = insert i.id i r.incidents }

unfoldable pub get_incident : String → Repository → Option Incident
get_incident incident_id r = lookup incident_id r.incidents

unfoldable pub list_incidents : Repository → List Incident
list_incidents r = sorted (λ a b. ltb b.created_at a.created_at) (values r.incidents)

unfoldable pub save_plan : RemediationPlan → Repository → Repository
save_plan p r = record r { plans = insert p.id p r.plans }

unfoldable pub get_plan : String → Repository → Option RemediationPlan
get_plan plan_id r = lookup plan_id r.plans

-- The plan that was created last, and of several the first.
unfoldable pub get_plan_by_incident : String → Repository → Option RemediationPlan
get_plan_by_incident incident_id r =
    best (λ a b. ltb b.created_at a.created_at)
      (keep (λ plan. plan.incident_id == incident_id) (values r.plans))

unfoldable pub save_approval : Approval → Repository → Repository
save_approval a r = record r { approvals = insert a.id a r.approvals }

unfoldable pub save_action_run : ActionRun → Repository → Repository
save_action_run run r = record r {
  action_runs = insert run.id run r.action_runs;
  action_keys = insert run.idempotency_key run.id r.action_keys;
}

-- `if action_id` is false for the empty text too.
unfoldable pub get_action_run_by_key : String → Repository → Option ActionRun
get_action_run_by_key key r = elim (lookup key r.action_keys) [
  | none ↦ none
  | some action_id ↦ if action_id == "" then none else lookup action_id r.action_runs
]

unfoldable pub list_action_runs : Repository → List ActionRun
list_action_runs r = sorted (λ a b. ltb b.created_at a.created_at) (values r.action_runs)

unfoldable pub save_change_event : ChangeEvent → Repository → Repository
save_change_event e r = record r { change_events = insert e.id e r.change_events }

unfoldable pub list_change_events : Option String → Repository → List ChangeEvent
list_change_events service r =
    let events = values r.change_events in
    sorted (λ a b. ltb b.occurred_at a.occurred_at)
      (elim service [ none ↦ events | some name ↦ keep (λ event. event.service == name) events ])

unfoldable pub save_agent_node : AgentNode → Repository → Repository
save_agent_node node r = record r { agent_nodes = insert node.id node r.agent_nodes }

unfoldable pub list_agent_nodes : Repository → List AgentNode
list_agent_nodes r =
    sorted (λ a b. ltb b.last_heartbeat_at a.last_heartbeat_at) (values r.agent_nodes)

unfoldable pub save_monitored_asset : MonitoredAsset → Repository → Repository
save_monitored_asset asset r = record r {
  monitored_assets = insert asset.id asset r.monitored_assets;
}

unfoldable pub get_monitored_asset : String → Repository → Option MonitoredAsset
get_monitored_asset asset_id r = lookup asset_id r.monitored_assets

-- Texts in code point order.
abbrev pub text_lt : String → String → Bool
text_lt a b = elim (compare a b) [ Ordering.lt ↦ true | _ ↦ false ]

unfoldable pub list_monitored_assets : Repository → List MonitoredAsset
list_monitored_assets r = sorted (λ a b. text_lt a.id b.id) (values r.monitored_assets)

-- The key is the triple of the two ends and the relation.
abbrev pub same_edge : MonitoredTopologyEdge → MonitoredTopologyEdge → Bool
same_edge a b =
    a.source_asset_id == b.source_asset_id
    && (a.target_asset_id == b.target_asset_id && a.relation == b.relation)

unfoldable pub insert_edge :
    MonitoredTopologyEdge → List MonitoredTopologyEdge → List MonitoredTopologyEdge
insert_edge edge [] = edge ∷ []
insert_edge edge (e ∷ edges) = if same_edge e edge then edge ∷ edges else e ∷ insert_edge edge edges

unfoldable pub save_monitored_topology : MonitoredTopologyEdge → Repository → Repository
unfolding insert_edge
save_monitored_topology edge r = record r {
  monitored_topology = insert_edge edge r.monitored_topology;
}

unfoldable pub list_monitored_topology : Repository → List MonitoredTopologyEdge
list_monitored_topology r = r.monitored_topology

unfoldable pub save_monitor_rule : MonitorRule → Repository → Repository
save_monitor_rule rule r = record r { monitor_rules = insert rule.id rule r.monitor_rules }

unfoldable pub list_monitor_rules : Repository → List MonitorRule
list_monitor_rules r = sorted (λ a b. text_lt a.id b.id) (values r.monitor_rules)

unfoldable pub save_monitor_evaluation : MonitorEvaluation → Repository → Repository
save_monitor_evaluation e r = record r { monitor_evaluations = insert e.id e r.monitor_evaluations }

unfoldable pub list_monitor_evaluations : Option String → ℕ → Repository → List MonitorEvaluation
list_monitor_evaluations asset_id limit r =
    let evaluations = values r.monitor_evaluations in
    let chosen : List MonitorEvaluation = elim asset_id [
      | none ↦ evaluations
      | some name ↦ keep (λ item. item.asset_id == name) evaluations
    ] in
    take limit (sorted (λ a b. ltb b.evaluated_at a.evaluated_at) chosen)
