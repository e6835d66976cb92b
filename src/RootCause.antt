-- ===== src/RootCause.antt =====
-- application/root_cause_service.py: the ranking of the assets that may have caused an incident.
pub mod Dependents
pub mod Reach
pub mod Times
pub mod Ranking
use Prim.Native.String.{◌++◌}
use mathlib.Core.Option
use aiops_control_lab.Base.{
  ℕ, zero, suc, ◌+◌, ◌-◌, min, max, String, Bool, true, false, ◌==◌, Option, none, some, List, [],
  ◌∷◌, length, take, keep, any, is_empty, contains, Dict, lookup, insert, sorted, nat_eq, Float,
  FloatOps, float_lt, float_max, float_min, float_one, ◌||◌, if◌then◌else◌,
}
use aiops_control_lab.RootCause.Dependents.{dependents_of, reachable_dependents}
use aiops_control_lab.Domain.Models.{Time, Hypothesis}
use aiops_control_lab.Domain.Monitoring.{TopologyEdge, ObservedAnomaly}

-- `min` and `max` of the times of the anomalies
unfoldable pub earliest : Time → List ObservedAnomaly → Time
earliest t [] = t
earliest t (a ∷ anomalies) = min a.occurred_at (earliest t anomalies)

unfoldable pub latest : Time → List ObservedAnomaly → Time
latest t [] = t
latest t (a ∷ anomalies) = max a.occurred_at (latest t anomalies)

-- `len(reachable.intersection(anomaly_by_asset))`
unfoldable pub explained : List ObservedAnomaly → List String → ℕ
explained anomalies found = length (keep (λ x. any (λ a. a.asset_id == x) anomalies) found)

-- `0.0`, `5.0`, `0.45`, `0.30` and `0.25`
abbrev pub float_zero : Float
float_zero = 0

abbrev pub float_five : Float
float_five = 0x4014_0000_0000_0000

abbrev pub severity_weight : Float
severity_weight = 0x3fdc_cccc_cccc_cccd

abbrev pub temporal_weight : Float
temporal_weight = 0x3fd3_3333_3333_3333

abbrev pub propagation_weight : Float
propagation_weight = 0x3fd0_0000_0000_0000

module _ (o : FloatOps) where
  -- `timedelta.total_seconds()` of a number of microseconds
  unfoldable pub total_seconds : ℕ → Float
  total_seconds t = o.quotient t 1_000_000

  unfoldable pub severity_score : Float → Float
  severity_score score = float_min (o.div (float_max score float_zero) float_five) float_one

  unfoldable pub temporal_score : Time → Time → Time → Float
  unfolding total_seconds
  temporal_score from to at =
      let span = float_max (total_seconds (to - from)) float_one in
      o.sub float_one
        (float_min (float_max (o.div (total_seconds (at - from)) span) float_zero) float_one)

  unfoldable pub propagation_score : ℕ → ℕ → Float
  propagation_score covered anomalies = o.quotient covered (max (anomalies - 1) 1)

  -- the end of the body of the loop over the anomalies, once the reachable assets are known
  unfoldable pub hypothesis : List ObservedAnomaly → ObservedAnomaly → List String → Hypothesis
  unfolding severity_score temporal_score propagation_score explained earliest latest
  hypothesis all anomaly found =
      let severity = severity_score anomaly.score in
      let temporal =
        temporal_score (earliest anomaly.occurred_at all) (latest anomaly.occurred_at all)
          anomaly.occurred_at in
      let propagation = propagation_score (explained all found) (length all) in
      record {
        asset_id = anomaly.asset_id;
        reason =
            "异常强度="
            ++ o.two_places severity
            ++ "，时间领先="
            ++ o.two_places temporal
            ++ "，传播覆盖="
            ++ o.two_places propagation;
        score =
            o.add (o.add (o.mul severity_weight severity) (o.mul temporal_weight temporal))
              (o.mul propagation_weight propagation);
        evidence_ids = anomaly.evidence_id ∷ [];
      }

  abbrev pub and_then : Option Hypothesis → Option (List Hypothesis) → Option (List Hypothesis)
  and_then none rest = none
  and_then (some h) none = none
  and_then (some h) (some hs) = some (h ∷ hs)

  -- the loop over the anomalies
  unfoldable pub hypotheses :
      Dict (List String) → List ObservedAnomaly → List ObservedAnomaly → Option (List Hypothesis)
  unfolding hypothesis reachable_dependents
  hypotheses d all [] = some []
  hypotheses d all (a ∷ anomalies) =
      and_then (Option.map (hypothesis all a) (reachable_dependents a.asset_id d))
        (hypotheses d all anomalies)

  -- `sorted(results, key=lambda item: item.score, reverse=True)[:limit]`, for scores that are numbers
  abbrev pub by_score : ℕ → List Hypothesis → List Hypothesis
  by_score limit hs = take limit (sorted (λ a b. float_lt b.score a.score) hs)

  unfoldable pub rank : List TopologyEdge → List ObservedAnomaly → ℕ → Option (List Hypothesis)
  unfolding hypotheses dependents_of
  rank edges anomalies limit =
      if is_empty anomalies || nat_eq limit 0
      then some []
      else Option.map (by_score limit) (hypotheses (dependents_of edges) anomalies anomalies)
