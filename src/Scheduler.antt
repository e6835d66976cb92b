-- ===== src/Scheduler.antt =====
-- application/monitoring_scheduler.py and `run_monitoring_cycle_once` of
-- adapters/memory_repository.py: evaluations of the rules, one at a time.
pub mod Rounds
use aiops_control_lab.Base.{
  ℕ, zero, suc, max, Bool, true, false, Exec, Result, ok, err, pure, ◌>>=◌, if◌then◌else◌,
}
use aiops_control_lab.App.{App}
use aiops_control_lab.Monitoring.{MonitorEnv, evaluate_all}
use aiops_control_lab.Monitoring.Defaults.{ensure_default_rules}

-- The process with `_monitoring_cycle_lock`.
pub record Locked : Type 0 where
  pub app : App
  pub is_locked : Bool

-- `MonitoringScheduler._interval_seconds`
unfoldable pub interval : ℕ → ℕ
interval interval_seconds = max interval_seconds 10

-- what `try` and `finally` make of the callback's outcome
unfoldable pub release : Result (Unit {0}) × Locked → Result Bool × Locked
release (ok u, s) = (ok true, record s { is_locked = false })
release (err e, s) = (err e, record s { is_locked = false })

-- `run_monitoring_cycle_once`
unfoldable pub run_monitoring_cycle_once : Exec Locked (Unit {0}) → Exec Locked Bool
unfolding release
run_monitoring_cycle_once callback s =
    if s.is_locked then (ok false, s) else release (callback (record s { is_locked = true }))

-- `_evaluate_cycle`
unfoldable pub evaluate_cycle : MonitorEnv → Exec Locked (Unit {0})
evaluate_cycle env s =
    let (r, app) = evaluate_all env s.app in
    (elim r [ ok evaluations ↦ ok tt | err e ↦ err e ], record s { app = app })

-- one round of the loop: an exception is logged and dropped.
unfoldable pub run_round : MonitorEnv → Locked → Locked
unfolding run_monitoring_cycle_once evaluate_cycle
run_round env s = (run_monitoring_cycle_once (evaluate_cycle env) s).1

unfoldable pub rounds : MonitorEnv → ℕ → Locked → Locked
unfolding run_round
rounds env zero s = s
rounds env (suc n) s = rounds env n (run_round env s)

-- `run`, until so many rounds are over
unfoldable pub run : MonitorEnv → ℕ → Locked → Locked
unfolding rounds
run env n s =
    rounds env n
      (record s { app = record s.app { repository = ensure_default_rules s.app.repository } })
