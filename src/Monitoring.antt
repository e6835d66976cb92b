-- ===== src/Monitoring.antt =====
-- application/monitoring_service.py: the evaluation of the rules, their hysteresis, and the incidents
-- of observation.
pub mod Hysteresis
pub mod Incidents
pub mod Frame
pub mod Defaults
use Prim.Native.String.{◌++◌}
use aiops_control_lab.Base.{
  ℕ, suc, ◌+◌, String, Bool, true, false, not, ◌&&◌, ◌||◌, ◌==◌, Option, none, some, List, [], ◌∷◌,
  ◌++◌ as list_append, Dict, lookup, Pairs, lookup_pair, insert_pair, first, any, is_empty, leb,
  ltb, min, Float, FloatOps, float_lt, float_le, Exec, Result, ok, err, pure, raise, lift, gets,
  modify, continue, ◌>>=◌, ◌>>◌, for_each, if◌then◌else◌,
}
use aiops_control_lab.Domain.Enums.{IncidentStatus}
use aiops_control_lab.Domain.Models.{Time, EvidenceRef, Hypothesis, Incident}
use aiops_control_lab.Domain.Monitoring.{MonitorRule, MonitorEvaluation, LatestMetric}
use aiops_control_lab.Domain.Lifecycle.{resolve_observation}
use aiops_control_lab.Repository.{
  list_monitor_rules, save_monitor_rule, save_monitor_evaluation, list_incidents, save_incident,
}
use aiops_control_lab.MetricStore.{list_metrics}
use aiops_control_lab.App.{App, Platform, RuleState, new_id, utc_now, earlier, seconds, store}
use aiops_control_lab.Remediation.{transition}

-- `_compare`: an operator that is not on the list never fires.
unfoldable pub compare_value : Float → String → Float → Bool
compare_value value operator threshold =
    if operator == "gt"
    then float_lt threshold value
    else if operator == "increase_gte"
    then float_le threshold value
    else if operator == "gte"
    then float_le threshold value
    else if operator == "lt"
    then float_lt value threshold
    else false

-- `_RuleState()`
abbrev pub fresh_state : RuleState
fresh_state = record { breach_streak = 0; recovery_streak = 0; alerting = false }

-- The change of the hysteresis state in `_evaluate_one`.
unfoldable pub advance : ℕ → ℕ → Bool → RuleState → RuleState
advance consecutive_cycles recovery_cycles true state = record state {
  breach_streak = suc state.breach_streak;
  recovery_streak = 0;
  alerting = leb consecutive_cycles (suc state.breach_streak) || state.alerting;
}
advance consecutive_cycles recovery_cycles false state =
    if state.alerting
    then record state {
      breach_streak = 0;
      recovery_streak = suc state.recovery_streak;
      alerting = not (leb recovery_cycles (suc state.recovery_streak));
    }
    else record state {
      breach_streak = 0;
      recovery_streak = min (suc state.recovery_streak) recovery_cycles;
    }

abbrev pub state_name : RuleState → Bool → String
state_name state breached =
    if state.alerting then "alerting" else if breached then "pending" else "healthy"

abbrev pub state_or_fresh : Option RuleState → RuleState
state_or_fresh none = fresh_state
state_or_fresh (some state) = state

abbrev pub samples_or_none : Option (List (Time × Float)) → List (Time × Float)
samples_or_none none = []
samples_or_none (some samples) = samples

-- `while len(history) > 1 and history[0][0] < boundary: history.popleft()`
unfoldable pub trim : Time → List (Time × Float) → List (Time × Float)
trim boundary [] = []
trim boundary (x ∷ []) = x ∷ []
trim boundary (x ∷ y ∷ samples) =
    if ltb x.0 boundary then trim boundary (y ∷ samples) else x ∷ y ∷ samples

-- `history[0][1]`; the history is never empty there, the sample of the cycle has been appended.
abbrev pub oldest : Float → List (Time × Float) → Float
oldest value [] = value
oldest value (x ∷ samples) = x.1

abbrev pub asset_of : LatestMetric → String
asset_of metric = elim (lookup "asset_id" metric.labels) [ none ↦ "" | some asset_id ↦ asset_id ]

-- What the service takes from outside of the repository: the platform, and `fnmatch.fnmatch`.
pub record MonitorEnv : Type 0 where
  pub platform : Platform
  pub fnmatch : String → String → Bool

abbrev pub write_history : String → String → List (Time × Float) → Exec App (Unit {0})
write_history rule_id asset_id samples =
    modify (λ s. record s { history = insert_pair rule_id asset_id samples s.history })

abbrev pub query_of : MonitorRule → String
query_of rule = "registered://monitor-rules/" ++ rule.id

abbrev pub is_closed : IncidentStatus → Bool
is_closed IncidentStatus.resolved = true
is_closed IncidentStatus.failed = true
is_closed _ = false

-- an incident of the rule and the asset that is not closed
abbrev pub is_active_for : MonitorRule → String → Incident → Bool
is_active_for rule asset_id item =
    item.asset_id == asset_id
    && (not (is_closed item.status)
        && any (λ (evidence : EvidenceRef). evidence.query == query_of rule) item.evidence)

unfoldable pub find_active : MonitorRule → String → App → Option Incident
find_active rule asset_id s = first (is_active_for rule asset_id) (list_incidents s.repository)

module _ (env : MonitorEnv) where
  -- `_rule_value`
  unfoldable pub rule_value : MonitorRule → LatestMetric → Time → Exec App Float
  unfolding trim
  rule_value rule metric now =
      if rule.operator == "increase_gte"
      then (λ s.
          let asset_id = asset_of metric in
          let samples =
            list_append (samples_or_none (lookup_pair rule.id asset_id s.history))
              ((now, metric.value) ∷ []) in
          (write_history rule.id asset_id samples
              >> (lift (earlier now (seconds rule.window_seconds)) >>= λ boundary.
                  let kept = trim boundary samples in
                  write_history rule.id asset_id kept
                  >> pure (env.platform.floats.sub metric.value (oldest metric.value kept))))
            s)
      else pure metric.value

  -- `_evaluate_one`
  unfoldable pub evaluate_one : MonitorRule → String → Float → Time → Exec App MonitorEvaluation
  unfolding advance compare_value
  evaluate_one rule asset_id value now s =
      let breached = compare_value value rule.operator rule.threshold in
      let state =
        advance rule.consecutive_cycles rule.recovery_cycles breached
          (state_or_fresh (lookup_pair rule.id asset_id s.rule_states)) in
      let s' = record s { rule_states = insert_pair rule.id asset_id state s.rule_states } in
      (new_id env.platform "eval" >>= λ id. pure (record {
        id = id;
        rule_id = rule.id;
        asset_id = asset_id;
        value = value;
        state = state_name state breached;
        breach_streak = state.breach_streak;
        recovery_streak = state.recovery_streak;
        message =
            rule.name
            ++ "：当前值 "
            ++ env.platform.floats.two_places value
            ++ "，阈值 "
            ++ rule.operator
            ++ " "
            ++ env.platform.floats.two_places rule.threshold;
        evaluated_at = now;
      }))
        s'

  -- the incident that an alert opens
  unfoldable pub open_incident : MonitorRule → MonitorEvaluation → Time → Exec App (Unit {0})
  open_incident rule evaluation now = do
    evidence_id ← new_id env.platform "evi"
    started_at ← lift (earlier now (seconds rule.window_seconds))
    incident_id ← new_id env.platform "inc"
    store (
        save_incident (record {
          id = incident_id;
          title = evaluation.asset_id ++ " 触发 " ++ rule.name;
          asset_id = evaluation.asset_id;
          severity = rule.severity;
          status = IncidentStatus.opened;
          created_at = now;
          updated_at = now;
          evidence =
              (record {
                id = evidence_id;
                source = "monitor-rule";
                query = query_of rule;
                started_at = started_at;
                ended_at = now;
                summary = evaluation.message;
              })
              ∷ [];
          hypotheses =
              (record {
                asset_id = evaluation.asset_id;
                reason = "规则 " ++ rule.name ++ " 连续命中，优先检查该资产及其上游依赖";
                score = 0x3fe9_9999_9999_999a;
                evidence_ids = evidence_id ∷ [];
              })
              ∷ [];
        }))

  unfoldable pub close_incident : Incident → Exec App (Unit {0})
  close_incident active = transition env.platform resolve_observation active >>= λ resolved.
      store (save_incident resolved)

  -- `_update_incident`
  unfoldable pub update_incident : MonitorRule → MonitorEvaluation → Time → Exec App (Unit {0})
  unfolding open_incident close_incident find_active
  update_incident rule evaluation now = gets (find_active rule evaluation.asset_id) >>= λ active.
      elim active [
        | none ↦
            if evaluation.state == "alerting" then open_incident rule evaluation now else pure tt
        | some incident ↦
            if evaluation.state == "healthy" && leb rule.recovery_cycles evaluation.recovery_streak
            then close_incident incident
            else pure tt
      ]

  -- the body of the inner loop of `evaluate_all`
  unfoldable pub evaluate_metric :
      MonitorRule → Time → LatestMetric → Exec App (List MonitorEvaluation)
  unfolding rule_value evaluate_one update_incident
  evaluate_metric rule now metric =
      let asset_id = asset_of metric in
      if env.fnmatch asset_id rule.asset_selector
      then (do
        value ← rule_value rule metric now
        evaluation ← evaluate_one rule asset_id value now
        store (save_monitor_evaluation evaluation)
        update_incident rule evaluation now
        pure (evaluation ∷ []))
      else pure []

  unfoldable pub evaluate_metrics :
      MonitorRule → Time → List LatestMetric → Exec App (List MonitorEvaluation)
  unfolding evaluate_metric
  evaluate_metrics rule now [] = pure []
  evaluate_metrics rule now (m ∷ ms) = do
    one ← evaluate_metric rule now m
    more ← evaluate_metrics rule now ms
    pure (list_append one more)

  -- the outer loop; the metrics are listed anew for each rule
  unfoldable pub evaluate_rules : Time → List MonitorRule → Exec App (List MonitorEvaluation)
  unfolding evaluate_metrics
  evaluate_rules now [] = pure []
  evaluate_rules now (rule ∷ rules) = do
    one ←
        (if rule.enabled
          then (λ s.
              evaluate_metrics rule now (list_metrics none (some rule.metric_name) s.metric_store)
                s)
          else pure [])
    more ← evaluate_rules now rules
    pure (list_append one more)

  unfoldable pub evaluate_all : Exec App (List MonitorEvaluation)
  unfolding evaluate_rules
  evaluate_all = do
    now ← utc_now env.platform
    rules ← gets (λ s. list_monitor_rules s.repository)
    evaluate_rules now rules
