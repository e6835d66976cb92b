-- ===== src/Tests/Monitoring.antt =====
-- A rule on the load of a host, with three cycles to alert and two to recover.
use aiops_control_lab.Base.{
  ◌≡◌, refl, arith, ◌==◌, true, false, ◌↔◌, some, List, [], ◌∷◌, ok, values, Float, lookup_pair,
}
use aiops_control_lab.Domain.Models.{Signal, Time}
use aiops_control_lab.Domain.Monitoring.{MonitorRule, MonitorEvaluation}
use aiops_control_lab.App.{App}
use aiops_control_lab.Policy.{is_real_asset}
use aiops_control_lab.Monitoring.{MonitorEnv, update_incident, evaluate_all}
use aiops_control_lab.Monitoring.Hysteresis.{state_in, feed, breaches, Raised, alerting_iff_Raised}
use aiops_control_lab.Monitoring.Incidents.{IsUnique, Serves, update_incident-Serves}
use aiops_control_lab.Monitoring.Frame.{Frame, evaluate_all-Frame}
use aiops_control_lab.Scheduler.{Locked, run}
use aiops_control_lab.Scheduler.Rounds.{IsSettled, run-IsSettled}
use aiops_control_lab.Correlation.{
  CorrelationMatch, find_match, candidates, candidate, is_adjacent, same_asset_score,
}
use aiops_control_lab.Correlation.Matching.{Candidate, find_match-Candidate}
use aiops_control_lab.Signals.{Signals, evaluate_signal}
use aiops_control_lab.Signals.Observing.{evaluate_signal_observes}
use aiops_control_lab.Tests.{platform, incident, app}

abbrev env : MonitorEnv
env = record { platform = platform; fnmatch = λ name pattern. name == pattern }

abbrev rule : MonitorRule
rule = record {
  id = "host-load";
  name = "load";
  metric_name = "aiops_host_load1";
  asset_selector = "host/web";
  operator = "gt";
  threshold = 0x4014_0000_0000_0000;
  consecutive_cycles = 3;
  recovery_cycles = 2;
  severity = "high";
  window_seconds = 60;
  enabled = true;
}

-- Four high values and then one that is normal, the last one first.
abbrev samples : List (Float × Time)
samples =
    (0x3ff0_0000_0000_0000, 5)
    ∷ (0x4024_0000_0000_0000, 4)
    ∷ (0x4024_0000_0000_0000, 3)
    ∷ (0x4024_0000_0000_0000, 2)
    ∷ (0x4024_0000_0000_0000, 1)
    ∷ []

no_state : state_in rule "host/web" app ≡ aiops_control_lab.Monitoring.fresh_state
unfolding state_in lookup_pair
no_state = refl

alerting_iff_Raised_example :
    ((state_in rule "host/web" (feed env rule "host/web" samples app)).alerting ≡ true)
    ↔ Raised 3 2 (breaches rule samples)
alerting_iff_Raised_example =
    alerting_iff_Raised env rule "host/web" samples app no_state (ground arith) (ground arith)

abbrev evaluation : MonitorEvaluation
evaluation = record {
  id = "eval_1";
  rule_id = "host-load";
  asset_id = "host/web";
  value = 0x4024_0000_0000_0000;
  state = "alerting";
  breach_streak = 3;
  recovery_streak = 0;
  message = "high";
  evaluated_at = 1_000_000_000;
}

update_incident-Serves_example :
    Serves rule "host/web" (update_incident env rule evaluation 1_000_000_000 app)
update_incident-Serves_example = update_incident-Serves env rule evaluation 1_000_000_000 app refl

abbrev watched : App
watched = record app {
  repository = record (app.repository) { monitor_rules = ("host-load", rule) ∷ [] };
  metric_store = record {
    metrics =
        (record {
          name = "aiops_host_load1";
          value = 0x4024_0000_0000_0000;
          labels = ("asset_id", "host/web") ∷ [];
          collected_at = 0;
        })
        ∷ [];
    sequences = [];
  };
}

evaluate_all-Frame_example : Frame watched (evaluate_all env watched).1
evaluate_all-Frame_example = evaluate_all-Frame env watched

-- The only incident has no evidence from a rule.
watched-IsUnique : IsUnique watched.repository
unfolding IsUnique values
watched-IsUnique other asset_id = ground arith

abbrev locked : Locked
locked = record { app = watched; is_locked = false }

run-IsSettled_example : IsSettled (run env 3 locked)
run-IsSettled_example =
    run-IsSettled env 3 locked (record { unlocked = refl; unique = watched-IsUnique })

abbrev signal : Signal
signal = record {
  asset_id = "host/web";
  name = "load";
  value = 0x4024_0000_0000_0000;
  occurred_at = 1_000_000_000;
  labels = [];
}

abbrev signals : Signals
signals = record {
  platform = platform;
  detect = λ history value. ok (record { anomalous = true; score = value; reason = "high" });
  correlates = true;
  knows_changes = true;
  topology_edges = [];
  real_actions_mode = "observe_only";
}

is_real : is_real_asset "host/web" ≡ true
unfolding is_real_asset
is_real = refl

evaluate_signal_observes_example :
    ((evaluate_signal signals signal [] app).1.repository.plans ≡ app.repository.plans)
    × ((evaluate_signal signals signal [] app).1.dispatched ≡ app.dispatched)
evaluate_signal_observes_example = evaluate_signal_observes signals signal [] app is_real refl

abbrev lab_signal : Signal
lab_signal = record signal { asset_id = "lab-web" }

abbrev lab_match : CorrelationMatch
lab_match = record { incident = incident; score = same_asset_score; reason = "同资产时间窗口去重" }

is_matched : find_match lab_signal (incident ∷ []) [] ≡ some lab_match
unfolding find_match candidates candidate is_adjacent
is_matched = refl

find_match-Candidate_example : Candidate lab_signal [] (incident ∷ []) lab_match
find_match-Candidate_example =
    find_match-Candidate lab_signal [] (incident ∷ []) lab_match is_matched
