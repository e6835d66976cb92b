-- ===== src/Ingestion/Safety.antt =====
-- A batch that is sent again changes nothing, and an agent writes its own assets only.
use aiops_control_lab.Base.{
  ◌≡◌, refl, sym, ◌∙◌, subst, ℕ, ◌≤◌, String, Bool-cases, true, false, ◌==◌, eq_iff, inl, inr, ◌⊎◌,
  some, List, [], ◌∷◌, lookup, lookup-insert, ok, Exec, ◌>>◌, for_each, bind_rule, pure, le→leb,
  arith,
}
use aiops_control_lab.Domain.Monitoring.{
  AgentNode, MonitoredAsset, MonitoredTopologyEdge, LatestMetric,
}
use aiops_control_lab.Repository.{save_agent_node, save_monitored_asset, save_monitored_topology}
use aiops_control_lab.MetricStore.{accept_batch, last_sequence}
use aiops_control_lab.MetricStore.Dedup.{accept_batch_cases}
use aiops_control_lab.App.{App, MetricStore, Platform, utc_now, store}
use aiops_control_lab.Ingestion.{save_asset, save_telemetry, accept_metrics, ingest}

-- Every asset in the repository was there before or belongs to the node.
unfoldable IsOwn : App → AgentNode → App → Type 0
IsOwn s node t =
    (asset_id : String) (asset : MonitoredAsset)
    → lookup asset_id t.repository.monitored_assets ≡ some asset
    → (lookup asset_id s.repository.monitored_assets ≡ some asset) ⊎ (asset.node_id ≡ node.id)

-- What the part after the acceptance does, also where it raises.
record Telemetry (s : App) (node : AgentNode) (t : App) : Type 0 where
  same_metrics : t.metric_store ≡ s.metric_store
  own : IsOwn s node t

save_asset-Telemetry :
    (s : App) (node : AgentNode) (asset : MonitoredAsset) (t : App)
    → Telemetry s node t
    → Telemetry s node (save_asset node asset t).1
unfolding save_asset save_monitored_asset IsOwn
save_asset-Telemetry s node asset t h = elim (Bool-cases (asset.node_id == node.id)) [
  | inr other ↦ rw other h
  | inl same ↦ rw same (record {
    same_metrics = h.same_metrics;
    own = λ asset_id found e. elim (Bool-cases (asset.id == asset_id)) [
      | inl hit ↦
          let known = lookup-insert asset.id asset_id asset t.repository.monitored_assets in
          inr (ground (arith, known, hit, same, e, eq_iff asset.node_id node.id))
      | inr miss ↦
          let known = lookup-insert asset.id asset_id asset t.repository.monitored_assets in
          h.own asset_id found (sym (rw miss at known) ∙ e)
    ];
  })
]

for_each-Telemetry :
    {A : Type 0} (s : App) (node : AgentNode) (f : A → Exec App (Unit {0}))
    → ((a : A) (t : App) → Telemetry s node t → Telemetry s node (f a t).1)
    → (xs : List A) (t : App) → Telemetry s node t
    → Telemetry s node (for_each f xs t).1
unfolding for_each
for_each-Telemetry s node f step [] t h = h
for_each-Telemetry s node f step (x ∷ xs) t h =
    bind_rule (λ out. Telemetry s node out.1) (λ out. Telemetry s node out.1) (λ _. for_each f xs)
      (f x t) (step x t h) (λ a u k. for_each-Telemetry s node f step xs u k) (λ e u k. k)

save_topology-Telemetry :
    (s : App) (node : AgentNode) (edge : MonitoredTopologyEdge) (t : App)
    → Telemetry s node t
    → Telemetry s node (store (save_monitored_topology edge) t).1
unfolding save_monitored_topology IsOwn
save_topology-Telemetry s node edge t h = record { same_metrics = h.same_metrics; own = h.own }

save_telemetry-Telemetry :
    (p : Platform) (node : AgentNode) (assets : List MonitoredAsset)
    (topology : List MonitoredTopologyEdge) (s : App)
    → Telemetry s node (save_telemetry p node assets topology s).1
unfolding save_telemetry utc_now save_agent_node IsOwn
save_telemetry-Telemetry p node assets topology s =
    bind_rule (λ out. Telemetry s node out.1) (λ out. Telemetry s node out.1)
      (λ _. for_each (λ edge. store (save_monitored_topology edge)) topology >> pure true)
      (for_each (save_asset node) assets _)
      (for_each-Telemetry s node (save_asset node) (save_asset-Telemetry s node) assets _
        (record { same_metrics = refl; own = λ asset_id asset e. inl e }))
      (λ a u k.
        bind_rule (λ out. Telemetry s node out.1) (λ out. Telemetry s node out.1) (λ _. pure true)
          (for_each (λ edge. store (save_monitored_topology edge)) topology u)
          (for_each-Telemetry s node _ (save_topology-Telemetry s node) topology u k) (λ b w j. j)
          (λ e w j. j))
      (λ e u k. k)

-- The state between the acceptance and the heartbeat.
unfoldable accepted_state : AgentNode → ℕ → List LatestMetric → App → App
accepted_state node sequence metrics s = record s {
  metric_store = (accept_batch node.id node.instance_id sequence metrics s.metric_store).1;
}

ingest-Telemetry :
    (p : Platform) (node : AgentNode) (sequence : ℕ) (metrics : List LatestMetric)
    (assets : List MonitoredAsset) (topology : List MonitoredTopologyEdge) (s : App)
    → Telemetry
        (accepted_state node sequence metrics s)
        node
        (ingest p node sequence metrics assets topology s).1
unfolding ingest accept_metrics accepted_state IsOwn
ingest-Telemetry p node sequence metrics assets topology s =
    elim (Bool-cases (accept_batch node.id node.instance_id sequence metrics s.metric_store).0) [
      | inl taken ↦
          rw taken (
            save_telemetry-Telemetry p node assets topology
              (accepted_state node sequence metrics s))
      | inr refused ↦ rw refused (record { same_metrics = refl; own = λ asset_id asset e. inl e })
    ]

sequence_reached :
    (node_id instance_id : String) (k : ℕ) (metrics : List LatestMetric) (m : MetricStore)
    → k ≤ last_sequence node_id instance_id (accept_batch node_id instance_id k metrics m).1
sequence_reached node_id instance_id k metrics m = ground (
  arith,
  accept_batch_cases node_id instance_id k metrics m node_id instance_id,
  eq_iff node_id node_id,
  eq_iff instance_id instance_id,
)

refused :
    (p : Platform) (node : AgentNode) (j : ℕ) (resent : List LatestMetric)
    (more : List MonitoredAsset) (edges : List MonitoredTopologyEdge) (t : App)
    → j ≤ last_sequence node.id node.instance_id t.metric_store
    → ingest p node j resent more edges t ≡ (ok false, t)
unfolding ingest accept_metrics accept_batch
refused p node j resent more edges t old =
    rw (le→leb j (last_sequence node.id node.instance_id t.metric_store) old) refl

-- Once a batch of an agent was handled, whether it was taken, refused or raised in the middle, a batch
-- of the same agent instance with the same or an earlier sequence is refused and changes nothing.
pub ingest_again :
    (p : Platform) (node : AgentNode) (k j : ℕ) (metrics resent : List LatestMetric)
    (assets more : List MonitoredAsset) (topology edges : List MonitoredTopologyEdge) (s : App)
    → j ≤ k
    → let s' = (ingest p node k metrics assets topology s).1 in
      ingest p node j resent more edges s' ≡ (ok false, s')
unfolding accepted_state
ingest_again p node k j metrics resent assets more topology edges s le =
    let s' = (ingest p node k metrics assets topology s).1 in
    let known = (ingest-Telemetry p node k metrics assets topology s).same_metrics in
    let reached : k ≤ last_sequence node.id node.instance_id s'.metric_store =
      subst (λ m. k ≤ last_sequence node.id node.instance_id m) (sym known)
        (sequence_reached node.id node.instance_id k metrics s.metric_store) in
    refused p node j resent more edges s' (omega arith)

-- Whatever an agent sends, every asset that is stored afterwards was stored before or names the
-- agent's node as its own; this is so even if the call raises.
pub ingest_own_assets :
    (p : Platform) (node : AgentNode) (sequence : ℕ) (metrics : List LatestMetric)
    (assets : List MonitoredAsset) (topology : List MonitoredTopologyEdge) (s : App)
    (asset_id : String) (asset : MonitoredAsset)
    → lookup asset_id
        (ingest p node sequence metrics assets topology s).1.repository.monitored_assets
      ≡ some asset
    → (lookup asset_id s.repository.monitored_assets ≡ some asset) ⊎ (asset.node_id ≡ node.id)
unfolding IsOwn accepted_state
ingest_own_assets p node sequence metrics assets topology s =
    (ingest-Telemetry p node sequence metrics assets topology s).own
