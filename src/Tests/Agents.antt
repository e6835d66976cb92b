-- ===== src/Tests/Agents.antt =====
-- The batches of an agent on two hosts, and the requests of a visitor.
use Prim.Native.String.{◌++◌}
use aiops_control_lab.Base.{
  ◌≡◌, refl, arith, ◌≤◌, ◌&&◌, ◌==◌, not, leb, true, false, ◌⊎◌, some, [], ◌∷◌, ok, lookup, insert,
  lookup_pair, for_each, count, if◌then◌else◌,
}
use aiops_control_lab.Domain.Monitoring.{AgentNode, MonitoredAsset, LatestMetric}
use aiops_control_lab.Repository.{save_agent_node, save_monitored_asset}
use aiops_control_lab.MetricStore.{accept_batch, last_sequence}
use aiops_control_lab.MetricStore.Dedup.{Batch, after_batches, accept_batch_cases, accepted_once}
use aiops_control_lab.MetricStore.Escape.{escape_label, read_value, read_value-escape_label}
use aiops_control_lab.App.{MetricStore, utc_now}
use aiops_control_lab.Ingestion.{ingest, accept_metrics, save_telemetry, save_asset}
use aiops_control_lab.Ingestion.Safety.{ingest_again, ingest_own_assets}
use aiops_control_lab.RateLimit.{Limiter}
use aiops_control_lab.RateLimit.Window.{Calls, Ordered, serve, in_window, window_limit}
use aiops_control_lab.Tests.{platform, app}

abbrev load : LatestMetric
load = record {
  name = "aiops_host_load1";
  value = 0x3ff0_0000_0000_0000;
  labels = ("asset_id", "host/web") ∷ [];
  collected_at = 0;
}

abbrev no_metrics : MetricStore
no_metrics = record { metrics = []; sequences = [] }

accept_batch_cases_example :
    let (accepted, m') = accept_batch "web" "boot_1" 1 (load ∷ []) no_metrics in
    (accepted ≡ not (leb 1 (last_sequence "web" "boot_1" no_metrics)))
    × (m' ≡ (if accepted then m' else no_metrics))
    × (last_sequence "db" "boot_1" m' ≡ (
        if accepted && ("web" == "db" && "boot_1" == "boot_1")
        then 1
        else last_sequence "db" "boot_1" no_metrics))
accept_batch_cases_example =
    accept_batch_cases "web" "boot_1" 1 (load ∷ []) no_metrics "db" "boot_1"

abbrev one_batch : MetricStore
one_batch = (accept_batch "web" "boot_1" 1 (load ∷ []) no_metrics).1

is_accepted : accept_batch "web" "boot_1" 1 (load ∷ []) no_metrics ≡ (true, one_batch)
unfolding accept_batch last_sequence lookup_pair
is_accepted = refl

abbrev other_batch : Batch
other_batch = record { node_id = "db"; instance_id = "boot_9"; sequence = 7; metrics = load ∷ [] }

accepted_once_example :
    accept_batch "web" "boot_1" 1 (load ∷ load ∷ []) (after_batches (other_batch ∷ []) one_batch)
    ≡ (false, after_batches (other_batch ∷ []) one_batch)
accepted_once_example =
    accepted_once "web" "boot_1" 1 1 (load ∷ []) (load ∷ load ∷ []) no_metrics one_batch
      (other_batch ∷ []) is_accepted (ground arith)

abbrev node : AgentNode
node = record {
  id = "web";
  version = "1";
  instance_id = "boot_1";
  certificate_identity = "agent-web";
  status = "online";
  connected_at = 0;
  last_heartbeat_at = 0;
}

abbrev own_asset : MonitoredAsset
own_asset = record {
  id = "host/web";
  node_id = "web";
  kind = "host";
  name = "web";
  status = "up";
  environment = "lab";
  source = "agent";
  last_seen_at = 0;
  attributes = [];
}

abbrev foreign_asset : MonitoredAsset
foreign_asset = record own_asset { id = "host/db"; node_id = "db" }

-- The second asset belongs to another node, so the first call raises; the second one is refused.
ingest_again_example :
    let s = (ingest platform node 1 (load ∷ []) (own_asset ∷ foreign_asset ∷ []) [] app).1 in
    ingest platform node 1 (load ∷ []) (own_asset ∷ []) [] s ≡ (ok false, s)
ingest_again_example =
    ingest_again platform node 1 1 (load ∷ []) (load ∷ []) (own_asset ∷ foreign_asset ∷ [])
      (own_asset ∷ []) [] [] app (ground arith)

is_stored :
    lookup "host/web"
      (ingest platform node 1 [] (own_asset ∷ []) [] app).1.repository.monitored_assets
    ≡ some own_asset
unfolding ingest accept_metrics accept_batch last_sequence lookup_pair save_telemetry save_asset
    save_agent_node save_monitored_asset utc_now for_each insert lookup
is_stored = refl

ingest_own_assets_example :
    (lookup "host/web" app.repository.monitored_assets ≡ some own_asset) ⊎ (node.id ≡ node.id)
ingest_own_assets_example =
    ingest_own_assets platform node 1 [] (own_asset ∷ []) [] app "host/web" own_asset is_stored

-- Two requests in a window of 100 ticks, which is as many as are allowed, and two more.
abbrev limiter : Limiter
limiter = record { limit = 2; window = 100; requests = [] }

abbrev requests : Calls
requests = ("visitor", 170) ∷ ("visitor", 90) ∷ ("visitor", 80) ∷ ("visitor", 60) ∷ []

requests-Ordered : Ordered 200 requests
unfolding Ordered
requests-Ordered = (ground arith, (ground arith, (ground arith, (ground arith, tt))))

window_limit_example : count (in_window 100 "visitor" 170) (serve requests limiter).0 ≤ 2
window_limit_example = window_limit "visitor" 170 200 requests limiter refl requests-Ordered

read_value-escape_label_example :
    read_value false (escape_label "C:\\new \"disk\"\n" ++ "\"} 1.0")
    ≡ some ("C:\\new \"disk\"\n", "} 1.0")
read_value-escape_label_example = read_value-escape_label "C:\\new \"disk\"\n" "} 1.0"
