-- ===== src/Correlation.antt =====
-- application/incident_correlation_service.py: which open incident a signal belongs to, and which
-- changes came before it.
pub mod Matching
use Prim.Native.String.{◌++◌}
use aiops_control_lab.Base.{
  ℕ, ◌-◌, String, Bool, true, false, not, ◌&&◌, ◌||◌, ◌==◌, Option, none, some, List, [], ◌∷◌, any,
  best, keep, leb, ltb, sorted, take, Float, float_eq, float_lt, Exec, pure, ◌>>=◌, if◌then◌else◌,
}
use aiops_control_lab.Domain.Enums.{IncidentStatus}
use aiops_control_lab.Domain.Models.{Time, Signal, EvidenceRef, Incident, ChangeEvent}
use aiops_control_lab.Domain.Monitoring.{TopologyEdge}
use aiops_control_lab.App.{App, Platform, new_id, seconds}

abbrev pub correlation_window : Time
correlation_window = seconds 300

abbrev pub change_window : Time
change_window = seconds 1800

-- `incident.status in ACTIVE_STATUSES`
abbrev pub is_active : IncidentStatus → Bool
is_active IncidentStatus.opened = true
is_active IncidentStatus.investigating = true
is_active IncidentStatus.waiting_approval = true
is_active _ = false

pub record CorrelationMatch : Type 0 where
  pub incident : Incident
  pub score : Float
  pub reason : String

-- `1.0` and `0.7`
abbrev pub same_asset_score : Float
same_asset_score = 0x3ff0_0000_0000_0000

abbrev pub adjacent_score : Float
adjacent_score = 0x3fe6_6666_6666_6666

-- `abs(a - b) > CORRELATION_WINDOW`
abbrev pub is_far : Time → Time → Bool
is_far a b = ltb correlation_window (a - b) || ltb correlation_window (b - a)

-- `frozenset((a, b)) in adjacent_pairs`, for two different assets
unfoldable pub is_adjacent : String → String → List TopologyEdge → Bool
is_adjacent a b = any (λ edge.
    edge.relation == "depends_on"
    && (edge.source_asset_id == a && edge.target_asset_id == b
        || edge.source_asset_id == b && edge.target_asset_id == a))

-- the body of the loop of `find_match`: the candidate that an incident gives, if it gives one
unfoldable pub candidate : Signal → List TopologyEdge → Incident → Option CorrelationMatch
unfolding is_adjacent
candidate signal edges incident =
    if not (is_active incident.status)
    then none
    else if is_far signal.occurred_at incident.updated_at
    then none
    else if incident.asset_id == signal.asset_id
    then some (record { incident = incident; score = same_asset_score; reason = "同资产时间窗口去重" })
    else if is_adjacent incident.asset_id signal.asset_id edges
    then some (record { incident = incident; score = adjacent_score; reason = "直接依赖拓扑关联" })
    else none

abbrev pub prepend : Option CorrelationMatch → List CorrelationMatch → List CorrelationMatch
prepend none ms = ms
prepend (some m) ms = m ∷ ms

unfoldable pub candidates : Signal → List TopologyEdge → List Incident → List CorrelationMatch
unfolding candidate
candidates signal edges [] = []
candidates signal edges (i ∷ incidents) =
    prepend (candidate signal edges i) (candidates signal edges incidents)

-- The order of the pairs of the score and the time of the last update.
abbrev pub is_better : CorrelationMatch → CorrelationMatch → Bool
is_better a b =
    float_lt b.score a.score
    || (float_eq a.score b.score && ltb b.incident.updated_at a.incident.updated_at)

unfoldable pub find_match : Signal → List Incident → List TopologyEdge → Option CorrelationMatch
unfolding candidates
find_match signal incidents edges = best is_better (candidates signal edges incidents)

-- `event.service == signal.asset_id and timedelta(0) <= age <= CHANGE_WINDOW`
abbrev pub is_recent_change : Signal → ChangeEvent → Bool
is_recent_change signal event =
    event.service == signal.asset_id
    && (leb event.occurred_at signal.occurred_at
        && leb (signal.occurred_at - event.occurred_at) change_window)

unfoldable pub recent_changes : Signal → List ChangeEvent → List ChangeEvent
recent_changes signal events =
    take 3 (sorted (λ a b. ltb b.occurred_at a.occurred_at) (keep (is_recent_change signal) events))

unfoldable pub evidence_of_changes :
    Platform → Signal → List ChangeEvent → Exec App (List EvidenceRef)
evidence_of_changes p signal [] = pure []
evidence_of_changes p signal (event ∷ events) = do
  id ← new_id p "evi"
  more ← evidence_of_changes p signal events
  pure (
      record {
        id = id;
        source = "change_event";
        query = "change_event_id=" ++ event.id;
        started_at = event.occurred_at;
        ended_at = signal.occurred_at;
        summary =
            "故障前变更：" ++ event.provider ++ "/" ++ event.event_type ++ "，revision=" ++ event.revision
            ++ "，status=" ++ event.status;
      }
      ∷ more)

unfoldable pub change_evidence : Platform → Signal → List ChangeEvent → Exec App (List EvidenceRef)
unfolding evidence_of_changes recent_changes
change_evidence p signal events = evidence_of_changes p signal (recent_changes signal events)
