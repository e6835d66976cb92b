-- ===== src/Tests/RootCause.antt =====
-- A web service that depends on an API, which depends on a database.
use aiops_control_lab.Base.{
  ◌≡◌, refl, ◌↔◌, insert, lookup, String, true, some, List, [], ◌∷◌, contains,
}
use aiops_control_lab.Domain.Monitoring.{TopologyEdge, ObservedAnomaly}
use aiops_control_lab.RootCause.Dependents.{reachable_dependents, dependents_of, add_to, next}
use aiops_control_lab.RootCause.{rank}
use aiops_control_lab.RootCause.Reach.{Affected, reachable_dependents-Affected}
use aiops_control_lab.RootCause.Ranking.{Ranked, rank_returns}
use aiops_control_lab.Tests.{floats}

abbrev depends : String → String → TopologyEdge
depends a b = record { source_asset_id = a; target_asset_id = b; relation = "depends_on" }

abbrev edges : List TopologyEdge
edges =
    depends "web" "api"
    ∷ depends "api" "db"
    ∷ depends "db" "api"
    ∷ record { source_asset_id = "db"; target_asset_id = "host"; relation = "runs_on" }
    ∷ []

abbrev anomalies : List ObservedAnomaly
anomalies =
    record {
      asset_id = "web";
      score = 0x4010_0000_0000_0000;
      occurred_at = 30;
      evidence_id = "evi_1";
    }
    ∷ record {
      asset_id = "db";
      score = 0x4000_0000_0000_0000;
      occurred_at = 10;
      evidence_id = "evi_2";
    }
    ∷ []

from_db : reachable_dependents "db" (dependents_of edges) ≡ some ("web" ∷ "db" ∷ "api" ∷ [])
unfolding reachable_dependents dependents_of insert lookup add_to next
from_db = refl

reachable_dependents-Affected_example :
    (found : List String) × (reachable_dependents "db" (dependents_of edges) ≡ some found)
    × ((v : String) → (contains v found ≡ true) ↔ Affected edges "db" v)
reachable_dependents-Affected_example = reachable_dependents-Affected edges "db"

rank_returns_example : Ranked floats edges anomalies 1 (rank floats edges anomalies 1)
rank_returns_example = rank_returns floats edges anomalies 1
