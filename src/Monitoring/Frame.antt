-- ===== src/Monitoring/Frame.antt =====
-- What an evaluation of all rules leaves alone: the plans, the approvals, the executions and the hosts.
use aiops_control_lab.Base.{
  ◌≡◌, refl, sym, ap, subst, ◌∙◌, String, Bool, Bool-cases, true, false, ◌&&◌, ◌==◌, inl, inr,
  Option-cases, none, some, List, [], ◌∷◌, ◌++◌ as list_append, Result-cases, bind_rule, Exec,
  ◌>>=◌, pure, leb, if◌then◌else◌, Float, ℕ,
}
use aiops_control_lab.Domain.Models.{Incident, Time}
use aiops_control_lab.Domain.Monitoring.{MonitorRule, MonitorEvaluation, LatestMetric}
use aiops_control_lab.Domain.Lifecycle.{resolve_observation}
use aiops_control_lab.Repository.{
  Repository, save_incident, save_monitor_evaluation, list_monitor_rules,
}
use aiops_control_lab.MetricStore.{list_metrics}
use aiops_control_lab.App.{App, Platform, new_id, utc_now, earlier, seconds, store}
use aiops_control_lab.Remediation.{transition}
use aiops_control_lab.Monitoring.{
  asset_of, find_active, MonitorEnv, rule_value, evaluate_one, open_incident, close_incident,
  update_incident, evaluate_metric, evaluate_metrics, evaluate_rules, evaluate_all,
}
use aiops_control_lab.Monitoring.Incidents.{IsUnique, update_incident-IsUnique}

-- The plans, the approvals, the executions, their keys and the calls of the dispatcher are what they
-- were.
pub record Frame (s t : App) : Type 0 where
  pub same_plans : t.repository.plans ≡ s.repository.plans
  pub same_approvals : t.repository.approvals ≡ s.repository.approvals
  pub same_runs : t.repository.action_runs ≡ s.repository.action_runs
  pub same_keys : t.repository.action_keys ≡ s.repository.action_keys
  pub same_calls : t.dispatched ≡ s.dispatched

-- And if at most one open incident belonged to each rule and asset, this is so still.
abbrev pub Observes : App → App → Type 0
Observes s t = Frame s t × (IsUnique s.repository → IsUnique t.repository)

same_state : {s t : App} → t.repository ≡ s.repository → t.dispatched ≡ s.dispatched → Observes s t
same_state r d = (
  record {
    same_plans = ap (λ (x : Repository). x.plans) r;
    same_approvals = ap (λ (x : Repository). x.approvals) r;
    same_runs = ap (λ (x : Repository). x.action_runs) r;
    same_keys = ap (λ (x : Repository). x.action_keys) r;
    same_calls = d;
  },
  λ h. subst IsUnique (sym r) h,
)

Observes-refl : (s : App) → Observes s s
Observes-refl s = same_state refl refl

Frame-trans : {s t u : App} → Frame s t → Frame t u → Frame s u
Frame-trans a b = record {
  same_plans = b.same_plans ∙ a.same_plans;
  same_approvals = b.same_approvals ∙ a.same_approvals;
  same_runs = b.same_runs ∙ a.same_runs;
  same_keys = b.same_keys ∙ a.same_keys;
  same_calls = b.same_calls ∙ a.same_calls;
}

Observes-trans : {s t u : App} → Observes s t → Observes t u → Observes s u
Observes-trans a b = (Frame-trans a.0 b.0, λ h. b.1 (a.1 h))

-- A method that observes only, from every state and on every outcome.
record OnlyObserves {A : Type 0} (m : Exec App A) : Type 0 where
  observes : (s : App) → Observes s (m s).1

pure-Observes : {A : Type 0} (a : A) → OnlyObserves (pure a)
pure-Observes a = record { observes = Observes-refl }

bind-Observes :
    {A B : Type 0} (m : Exec App A) (f : A → Exec App B)
    → OnlyObserves m
    → ((a : A) → OnlyObserves (f a))
    → OnlyObserves (m >>= f)
bind-Observes m f first rest = record {
  observes = λ s.
      bind_rule (λ out. Observes s out.1) (λ out. Observes s out.1) f (m s) (first.observes s)
        (λ a t h. Observes-trans h ((rest a).observes t)) (λ e t h. h);
}

if-Observes :
    {A : Type 0} (b : Bool) (m n : Exec App A)
    → OnlyObserves m
    → OnlyObserves n
    → OnlyObserves (if b then m else n)
if-Observes true m n hm hn = hm
if-Observes false m n hm hn = hn

new_id-Observes : (p : Platform) (prefix : String) → OnlyObserves (new_id p prefix)
unfolding new_id
new_id-Observes p prefix = record { observes = λ s. same_state refl refl }

utc_now-Observes : (p : Platform) → OnlyObserves (utc_now p)
unfolding utc_now
utc_now-Observes p = record { observes = λ s. same_state refl refl }

store-Frame :
    {r : Repository} (s : App)
    → r.plans ≡ s.repository.plans
    → r.approvals ≡ s.repository.approvals
    → r.action_runs ≡ s.repository.action_runs
    → r.action_keys ≡ s.repository.action_keys
    → {drawn ticks : ℕ} → Frame s (record s { repository = r; drawn = drawn; ticks = ticks })
store-Frame s p a r k = record {
  same_plans = p;
  same_approvals = a;
  same_runs = r;
  same_keys = k;
  same_calls = refl;
}

save_monitor_evaluation-Observes :
    (e : MonitorEvaluation) → OnlyObserves (store (save_monitor_evaluation e))
unfolding save_monitor_evaluation IsUnique
save_monitor_evaluation-Observes e = record {
  observes = λ s. (store-Frame s refl refl refl refl, λ h. h);
}

rule_value-Observes :
    (env : MonitorEnv) (rule : MonitorRule) (metric : LatestMetric) (now : Time)
    → OnlyObserves (rule_value env rule metric now)
unfolding rule_value
rule_value-Observes env rule metric now =
    if-Observes (rule.operator == "increase_gte") _ _
      (record {
        observes = λ s. elim (Result-cases (earlier now (seconds rule.window_seconds))) [
          | inl (boundary, e) ↦ rw e (same_state refl refl)
          | inr (e, f) ↦ rw f (same_state refl refl)
        ];
      })
      (pure-Observes _)

evaluate_one-Observes :
    (env : MonitorEnv) (rule : MonitorRule) (asset_id : String) (value : Float) (now : Time)
    → OnlyObserves (evaluate_one env rule asset_id value now)
unfolding evaluate_one new_id
evaluate_one-Observes env rule asset_id value now = record { observes = λ s. same_state refl refl }

open_incident-Frame :
    (env : MonitorEnv) (rule : MonitorRule) (evaluation : MonitorEvaluation) (now : Time) (s : App)
    → Frame s (open_incident env rule evaluation now s).1
unfolding open_incident new_id save_incident
open_incident-Frame env rule evaluation now s =
    elim (Result-cases (earlier now (seconds rule.window_seconds))) [
      | inl (boundary, e) ↦ rw e (store-Frame s refl refl refl refl)
      | inr (e, f) ↦ rw f (store-Frame s refl refl refl refl)
    ]

close_incident-Frame :
    (env : MonitorEnv) (i : Incident) (s : App) → Frame s (close_incident env i s).1
unfolding close_incident transition save_incident
close_incident-Frame env i s =
    elim (Result-cases (resolve_observation (env.platform.clock s.ticks) i)) [
      | inl (j, e) ↦ rw (e, transition) (store-Frame s refl refl refl refl)
      | inr (e, f) ↦ rw (f, transition) (store-Frame s refl refl refl refl)
    ]

update_incident-Frame :
    (env : MonitorEnv) (rule : MonitorRule) (evaluation : MonitorEvaluation) (now : Time) (s : App)
    → Frame s (update_incident env rule evaluation now s).1
unfolding update_incident
update_incident-Frame env rule evaluation now s =
    elim (Option-cases (find_active rule evaluation.asset_id s)) [
      | inl none_active ↦ elim (Bool-cases (evaluation.state == "alerting")) [
        | inl alerting ↦ rw (none_active, alerting) (open_incident-Frame env rule evaluation now s)
        | inr quiet ↦ rw (none_active, quiet) (Observes-refl s).0
      ]
      | inr (i, active) ↦
          elim (Bool-cases (
            evaluation.state == "healthy" && leb rule.recovery_cycles evaluation.recovery_streak)) [
              | inl recovered ↦ rw (active, recovered) (close_incident-Frame env i s)
              | inr waits ↦ rw (active, waits) (Observes-refl s).0
            ]
    ]

update_incident-Observes :
    (env : MonitorEnv) (rule : MonitorRule) (evaluation : MonitorEvaluation) (now : Time)
    → OnlyObserves (update_incident env rule evaluation now)
update_incident-Observes env rule evaluation now = record {
  observes = λ s. (
    update_incident-Frame env rule evaluation now s,
    update_incident-IsUnique env rule evaluation now s,
  );
}

evaluate_metric-Observes :
    (env : MonitorEnv) (rule : MonitorRule) (now : Time) (metric : LatestMetric)
    → OnlyObserves (evaluate_metric env rule now metric)
unfolding evaluate_metric
evaluate_metric-Observes env rule now metric =
    if-Observes (env.fnmatch (asset_of metric) rule.asset_selector) _ _
      (bind-Observes (rule_value env rule metric now) _ (rule_value-Observes env rule metric now)
        (λ value.
          bind-Observes (evaluate_one env rule (asset_of metric) value now) _
            (evaluate_one-Observes env rule (asset_of metric) value now)
            (λ evaluation.
              bind-Observes (store (save_monitor_evaluation evaluation)) _
                (save_monitor_evaluation-Observes evaluation)
                (λ _.
                  bind-Observes (update_incident env rule evaluation now) _
                    (update_incident-Observes env rule evaluation now)
                    (λ _. pure-Observes (evaluation ∷ []))))))
      (pure-Observes [])

evaluate_metrics-Observes :
    (env : MonitorEnv) (rule : MonitorRule) (now : Time) (metrics : List LatestMetric)
    → OnlyObserves (evaluate_metrics env rule now metrics)
unfolding evaluate_metrics
evaluate_metrics-Observes env rule now [] = pure-Observes []
evaluate_metrics-Observes env rule now (m ∷ ms) =
    bind-Observes (evaluate_metric env rule now m) _ (evaluate_metric-Observes env rule now m)
      (λ one.
        bind-Observes (evaluate_metrics env rule now ms) _
          (evaluate_metrics-Observes env rule now ms)
          (λ more. pure-Observes (list_append one more)))

evaluate_rules-Observes :
    (env : MonitorEnv) (now : Time) (rules : List MonitorRule)
    → OnlyObserves (evaluate_rules env now rules)
unfolding evaluate_rules
evaluate_rules-Observes env now [] = pure-Observes []
evaluate_rules-Observes env now (rule ∷ rules) =
    bind-Observes _ _
      (if-Observes rule.enabled _ _
        (record {
          observes = λ s.
              (evaluate_metrics-Observes env rule now
                  (list_metrics none (some rule.metric_name) s.metric_store)).observes
                s;
        })
        (pure-Observes []))
      (λ one.
        bind-Observes (evaluate_rules env now rules) _ (evaluate_rules-Observes env now rules)
          (λ more. pure-Observes (list_append one more)))

evaluate_all-Observes : (env : MonitorEnv) (s : App) → Observes s (evaluate_all env s).1
unfolding evaluate_all
evaluate_all-Observes env =
    (bind-Observes (utc_now env.platform) _ (utc_now-Observes env.platform) (λ now. record {
      observes =
          λ t. (evaluate_rules-Observes env now (list_monitor_rules t.repository)).observes t;
    })).observes

-- An evaluation of all rules, whether it returns or raises, leaves the plans, the approvals, the
-- executions, their keys and the calls of the dispatcher as they were.
pub evaluate_all-Frame : (env : MonitorEnv) (s : App) → Frame s (evaluate_all env s).1
evaluate_all-Frame env s = (evaluate_all-Observes env s).0

-- If at most one incident that is not closed belongs to each rule and asset, then this is so after an
-- evaluation of all rules too, also if it raises.
pub evaluate_all-IsUnique :
    (env : MonitorEnv) (s : App)
    → IsUnique s.repository
    → IsUnique (evaluate_all env s).1.repository
evaluate_all-IsUnique env s = (evaluate_all-Observes env s).1
