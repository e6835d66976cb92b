-- ===== src/Monitoring/Incidents.antt =====
-- `_update_incident` keeps at most one open incident for a rule and an asset.
use aiops_control_lab.Base.{
  ◌≡◌, refl, sym, ap, ap₂, subst, ◌∙◌, ◌≤◌, String, Bool, Bool-cases, true, false, not, ◌&&◌, ◌==◌,
  eq_iff, inl, inr, Option-cases, none, [], ◌∷◌, any, count, count-first-none, count-sorted,
  count-insert-le, count-insert-pos, first-some-count, eq_refl, values, Result, Result-cases, ok,
  err, arith, ltb, leb,
}
use aiops_control_lab.Domain.Models.{Incident, EvidenceRef, Time}
use aiops_control_lab.Domain.Monitoring.{MonitorRule, MonitorEvaluation}
use aiops_control_lab.Domain.Lifecycle.{resolve_observation, may_resolve}
use aiops_control_lab.Repository.{Repository, save_incident, list_incidents}
use aiops_control_lab.App.{App, Platform, new_id, earlier, seconds}
use aiops_control_lab.Remediation.{transition}
use aiops_control_lab.Monitoring.{
  is_active_for, is_closed, query_of, MonitorEnv, find_active, open_incident, close_incident,
  update_incident,
}

-- For no rule and asset the repository holds two incidents that are not closed.
unfoldable pub IsUnique : Repository → Type 0
IsUnique r =
    (rule : MonitorRule) (asset_id : String)
    → count (is_active_for rule asset_id) (values r.incidents) ≤ 1

save_incident-closed :
    (i : Incident) (r : Repository)
    → is_closed i.status ≡ true
    → IsUnique r
    → IsUnique (save_incident i r)
unfolding IsUnique save_incident
save_incident-closed i r closed h rule asset_id =
    let known = count-insert-le (is_active_for rule asset_id) i.id i r.incidents in
    let before = h rule asset_id in
    let inactive : is_active_for rule asset_id i ≡ false = ground (arith, closed) in
    omega (arith, rw inactive at known)

-- Two rules and assets that a fresh incident belongs to find the same incidents.
save_incident-fresh :
    (i : Incident) (rule : MonitorRule) (r : Repository) (e : EvidenceRef)
    → i.evidence ≡ e ∷ []
    → e.query ≡ query_of rule
    → count (is_active_for rule i.asset_id) (values r.incidents) ≡ 0
    → IsUnique r
    → IsUnique (save_incident i r)
unfolding IsUnique save_incident
save_incident-fresh i rule r e one query none_active h other asset_id =
    let known = count-insert-le (is_active_for other asset_id) i.id i r.incidents in
    elim (Bool-cases (is_active_for other asset_id i)) [
      | inr inactive ↦ let before = h other asset_id in omega (arith, rw inactive at known)
      | inl active ↦
          let same_asset : i.asset_id ≡ asset_id = ground (arith, eq_iff i.asset_id asset_id) in
          let seen : any (λ (x : EvidenceRef). x.query == query_of other) (e ∷ []) ≡ true =
            subst (λ l. any (λ (x : EvidenceRef). x.query == query_of other) l ≡ true) one
              (ground arith) in
          let same_query : e.query ≡ query_of other =
            ground (arith, eq_iff e.query (query_of other)) in
          let same : is_active_for other asset_id ≡ is_active_for rule i.asset_id =
            ap₂
              (λ q a (item : Incident).
                item.asset_id == a
                && (not (is_closed item.status)
                    && any (λ (x : EvidenceRef). x.query == q) item.evidence))
              (sym same_query ∙ query) (sym same_asset) in
          let zero : count (is_active_for other asset_id) (values r.incidents) ≡ 0 =
            rw same none_active in
          omega (arith, rw active at known)
    ]

transition-keeps :
    (p : Platform) (method : Time → Incident → Result Incident) (i : Incident) (s : App)
    → (transition p method i s).1.repository ≡ s.repository
unfolding transition
transition-keeps p method i s = elim (Result-cases (method (p.clock s.ticks) i)) [
  | inl (j, e) ↦ rw (e, transition) refl
  | inr (e, f) ↦ rw (f, transition) refl
]

unfoldable closed_if_ok : Result Incident → Bool
closed_if_ok (ok i) = is_closed i.status
closed_if_ok (err e) = true

resolve_observation-closed_if_ok :
    (now : Time) (i : Incident) → closed_if_ok (resolve_observation now i) ≡ true
unfolding resolve_observation closed_if_ok
resolve_observation-closed_if_ok now i = elim (Bool-cases (may_resolve i.status)) [
  | inl may ↦ rw may refl
  | inr not_may ↦ rw not_may refl
]

resolve_observation-closed :
    (now : Time) (i j : Incident) → resolve_observation now i ≡ ok j → is_closed j.status ≡ true
unfolding closed_if_ok
resolve_observation-closed now i j h =
    sym (ap closed_if_ok h) ∙ resolve_observation-closed_if_ok now i

close_incident-IsUnique :
    (env : MonitorEnv) (i : Incident) (s : App)
    → IsUnique s.repository
    → IsUnique (close_incident env i s).1.repository
unfolding close_incident transition
close_incident-IsUnique env i s h =
    elim (Result-cases (resolve_observation (env.platform.clock s.ticks) i)) [
      | inl (j, e) ↦
          rw (e, transition)
            (save_incident-closed j s.repository
              (resolve_observation-closed (env.platform.clock s.ticks) i j e) h)
      | inr (e, f) ↦ rw (f, transition) h
    ]

find_active-none :
    (rule : MonitorRule) (asset_id : String) (s : App)
    → find_active rule asset_id s ≡ none
    → count (is_active_for rule asset_id) (values s.repository.incidents) ≡ 0
unfolding find_active list_incidents
find_active-none rule asset_id s h =
    sym (count-sorted _ (is_active_for rule asset_id) (values s.repository.incidents))
    ∙ count-first-none (is_active_for rule asset_id) _ h

open_incident-IsUnique :
    (env : MonitorEnv) (rule : MonitorRule) (evaluation : MonitorEvaluation) (now : Time) (s : App)
    → find_active rule evaluation.asset_id s ≡ none
    → IsUnique s.repository
    → IsUnique (open_incident env rule evaluation now s).1.repository
unfolding open_incident new_id find_active list_incidents
open_incident-IsUnique env rule evaluation now s none_active h =
    elim (Result-cases (earlier now (seconds rule.window_seconds))) [
      | inl (boundary, e) ↦ rw e (
          save_incident-fresh _ rule s.repository _ refl refl
            (find_active-none rule evaluation.asset_id s none_active) h)
      | inr (e, f) ↦ rw f h
    ]

-- If at most one open incident belongs to each rule and asset, then after `_update_incident` this is
-- so still, also if it raises.
pub update_incident-IsUnique :
    (env : MonitorEnv) (rule : MonitorRule) (evaluation : MonitorEvaluation) (now : Time) (s : App)
    → IsUnique s.repository
    → IsUnique (update_incident env rule evaluation now s).1.repository
unfolding update_incident
update_incident-IsUnique env rule evaluation now s h =
    elim (Option-cases (find_active rule evaluation.asset_id s)) [
      | inl none_active ↦ elim (Bool-cases (evaluation.state == "alerting")) [
        | inl alerting ↦
            rw (none_active, alerting)
              (open_incident-IsUnique env rule evaluation now s none_active h)
        | inr quiet ↦ rw (none_active, quiet) h
      ]
      | inr (i, active) ↦
          elim (Bool-cases (
            evaluation.state == "healthy" && leb rule.recovery_cycles evaluation.recovery_streak)) [
              | inl recovered ↦ rw (active, recovered) (close_incident-IsUnique env i s h)
              | inr waits ↦ rw (active, waits) h
            ]
    ]

-- `Serves out`: if the call returns, an incident of the rule and the asset is open.
unfoldable pub Serves : MonitorRule → String → Result (Unit {0}) × App → Type 0
Serves rule asset_id (ok _, t) =
    1 ≤ count (is_active_for rule asset_id) (values t.repository.incidents)
Serves rule asset_id (err e, t) = Unit

open_incident-Serves :
    (env : MonitorEnv) (rule : MonitorRule) (evaluation : MonitorEvaluation) (now : Time) (s : App)
    → Serves rule evaluation.asset_id (open_incident env rule evaluation now s)
unfolding open_incident new_id save_incident Serves
open_incident-Serves env rule evaluation now s =
    elim (Result-cases (earlier now (seconds rule.window_seconds))) [
      | inl (boundary, e) ↦ rw e (
          count-insert-pos (is_active_for rule evaluation.asset_id) _ _ s.repository.incidents
            (rw (eq_refl evaluation.asset_id, eq_refl (query_of rule)) refl))
      | inr (e, f) ↦ rw f tt
    ]

-- If an alerting evaluation is handled without an error, an incident of its rule and asset is open
-- afterwards.
pub update_incident-Serves :
    (env : MonitorEnv) (rule : MonitorRule) (evaluation : MonitorEvaluation) (now : Time) (s : App)
    → evaluation.state ≡ "alerting"
    → Serves rule evaluation.asset_id (update_incident env rule evaluation now s)
unfolding update_incident Serves find_active list_incidents
update_incident-Serves env rule evaluation now s alerting =
    let is_alerting : (evaluation.state == "alerting") ≡ true =
      (eq_iff evaluation.state "alerting").1 alerting in
    let not_healthy : (evaluation.state == "healthy") ≡ false = rw alerting refl in
    elim (Option-cases (find_active rule evaluation.asset_id s)) [
      | inl none_active ↦
          rw (none_active, is_alerting) (open_incident-Serves env rule evaluation now s)
      | inr (i, active) ↦
          rw (active, not_healthy)
            (rw
              (sym (
                count-sorted (λ a b. ltb b.created_at a.created_at)
                  (is_active_for rule evaluation.asset_id) (values s.repository.incidents)))
              (first-some-count (is_active_for rule evaluation.asset_id) _ i active))
    ]
