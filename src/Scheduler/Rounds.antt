-- ===== src/Scheduler/Rounds.antt =====
-- What holds after any number of rounds.
use aiops_control_lab.Base.{
  ◌≡◌, refl, inl, inr, Bool-cases, is_empty, List, [], ◌∷◌, ℕ, zero, suc, true, false, Result, ok,
  err,
}
use aiops_control_lab.Domain.Monitoring.{MonitorRule}
use aiops_control_lab.Repository.{Repository, save_monitor_rule, list_monitor_rules}
use aiops_control_lab.Monitoring.{MonitorEnv}
use aiops_control_lab.Monitoring.Incidents.{IsUnique}
use aiops_control_lab.Monitoring.Frame.{evaluate_all-IsUnique}
use aiops_control_lab.Monitoring.Defaults.{ensure_default_rules, default_monitor_rules, save_all}
use aiops_control_lab.Scheduler.{
  Locked, release, run_monitoring_cycle_once, evaluate_cycle, run_round, rounds, run,
}

-- The lock is free, and at most one incident that is not closed belongs to each rule and asset.
pub record IsSettled (s : Locked) : Type 0 where
  pub unlocked : s.is_locked ≡ false
  pub unique : IsUnique s.app.repository

release-unlocked : (out : Result (Unit {0}) × Locked) → (release out).1.is_locked ≡ false
unfolding release
release-unlocked (ok u, s) = refl
release-unlocked (err e, s) = refl

release-app : (out : Result (Unit {0}) × Locked) → (release out).1.app ≡ out.1.app
unfolding release
release-app (ok u, s) = refl
release-app (err e, s) = refl

run_round-IsSettled : (env : MonitorEnv) (s : Locked) → IsSettled s → IsSettled (run_round env s)
unfolding run_round run_monitoring_cycle_once
run_round-IsSettled env s h =
    let busy = record s { is_locked = true } in
    rw h.unlocked (record {
      unlocked = release-unlocked (evaluate_cycle env busy);
      unique = rw (release-app (evaluate_cycle env busy)) (cycle busy h.unique);
    })
  where
    cycle :
        (t : Locked) → IsUnique t.app.repository → IsUnique (evaluate_cycle env t).1.app.repository
    cycle t u = unfold evaluate_cycle in evaluate_all-IsUnique env t.app u

rounds-IsSettled :
    (env : MonitorEnv) (n : ℕ) (s : Locked) → IsSettled s → IsSettled (rounds env n s)
unfolding rounds
rounds-IsSettled env zero s h = h
rounds-IsSettled env (suc n) s h =
    rounds-IsSettled env n (run_round env s) (run_round-IsSettled env s h)

save_all-incidents :
    (rules : List MonitorRule) (r : Repository) → (save_all rules r).incidents ≡ r.incidents
unfolding save_all save_monitor_rule
save_all-incidents [] r = refl
save_all-incidents (rule ∷ rules) r = save_all-incidents rules (save_monitor_rule rule r)

ensure-incidents : (r : Repository) → (ensure_default_rules r).incidents ≡ r.incidents
unfolding ensure_default_rules
ensure-incidents r = elim (Bool-cases (is_empty (list_monitor_rules r))) [
  | inl fresh ↦ rw fresh (save_all-incidents default_monitor_rules r)
  | inr old ↦ rw old refl
]

IsUnique-incidents : (r t : Repository) → r.incidents ≡ t.incidents → IsUnique t → IsUnique r
unfolding IsUnique
IsUnique-incidents r t e u = rw e u

-- If the lock is free and at most one incident that is not closed belongs to each rule and asset, then
-- this is so again after any number of rounds of the scheduler, whatever the rounds raise.
pub run-IsSettled : (env : MonitorEnv) (n : ℕ) (s : Locked) → IsSettled s → IsSettled (run env n s)
unfolding run
run-IsSettled env n s h =
    rounds-IsSettled env n
      (record s { app = record s.app { repository = ensure_default_rules s.app.repository } })
      (record {
        unlocked = h.unlocked;
        unique =
            IsUnique-incidents (ensure_default_rules s.app.repository) s.app.repository
              (ensure-incidents s.app.repository) h.unique;
      })
