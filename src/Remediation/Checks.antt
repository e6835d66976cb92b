-- ===== src/Remediation/Checks.antt =====
-- What an approval has to meet before anything is dispatched, and what it leaves behind if it does
-- not.
use aiops_control_lab.Base.{
  suc, some, ◌+◌, ◌≡◌, refl, sym, Bool-cases, true, false, ◌==◌, eq_iff, ◌≤◌, ltb, ltb-false→le,
  le→ltb-false, ◌↔◌, String, inl, inr, Option-cases, Result, ok, err, Result-cases,
  invalid_state_transition,
}
use aiops_control_lab.Domain.Enums.{IncidentStatus, PlanStatus}
use aiops_control_lab.Domain.Models.{Incident, RemediationPlan}
use aiops_control_lab.Domain.Lifecycle.{start_remediation, moved, is_waiting}
use aiops_control_lab.Domain.Hash.{content_hash}
use aiops_control_lab.Repository.{
  get_plan, get_incident, save_plan, save_approval, save_incident, save_action_run,
}
use aiops_control_lab.App.{App, Platform, utc_now, new_id, run_id-nonempty}
use aiops_control_lab.Policy.{validate}
use aiops_control_lab.Remediation.{Service, Authorized, transition, authorize, is_pending}

-- An approval of the plan `p` for the incident `i` is admissible: both are in the repository, every
-- step passes the gate of the mode, the plan is pending and has not expired, the hash that was
-- approved is the one of the plan, and the incident waits for an approval.
pub record IsAdmissible (v : Service) (plan_id approved_hash : String) (s : App)
    (p : RemediationPlan) (i : Incident) : Type 0 where
  pub plan : get_plan plan_id s.repository ≡ some p
  pub incident : get_incident p.incident_id s.repository ≡ some i
  pub gated : validate v.real_actions_mode p ≡ ok tt
  pub pending : is_pending p.status ≡ true
  pub in_time : v.platform.clock s.ticks ≤ p.expires_at
  pub same_hash : approved_hash ≡ content_hash v.platform.digest p
  pub waiting : is_waiting i.status ≡ true

-- What the checks end with: what the execution goes on from, for an admissible approval; or an
-- error, with no run and no call of the dispatcher made.
abbrev pub Authorizes : Service → String → String → String → App → Result Authorized × App → Type 0
Authorizes v plan_id approved_hash key s (ok a, t) =
    (p : RemediationPlan) × (i : Incident) × IsAdmissible v plan_id approved_hash s p i
    × (a.plan ≡ record p { status = PlanStatus.executing })
    × (a.incident ≡ moved IncidentStatus.remediating (v.platform.clock (s.ticks + 1)) i)
    × (a.action_run.approved_hash ≡ approved_hash)
    × (a.action_run.idempotency_key ≡ key)
    × ((a.action_run.id == "") ≡ false)
    × (t.dispatched ≡ s.dispatched)
Authorizes v plan_id approved_hash key s (err e, t) =
    (t.dispatched ≡ s.dispatched)
    × (t.repository.action_runs ≡ s.repository.action_runs)
    × (t.repository.action_keys ≡ s.repository.action_keys)

start-waiting :
    (p : Platform) (i : Incident) (s : App)
    → is_waiting i.status ≡ true
    → transition p start_remediation i s ≡ (
      ok (moved IncidentStatus.remediating (p.clock s.ticks) i),
      record s { ticks = suc s.ticks },
    )
unfolding transition start_remediation
start-waiting p i s h = rw (h, transition)

start-busy :
    (p : Platform) (i : Incident) (s : App)
    → is_waiting i.status ≡ false
    → transition p start_remediation i s ≡ (err invalid_state_transition, s)
unfolding transition start_remediation
start-busy p i s h = rw (h, transition)

module _ (v : Service) (plan_id approver approved_hash key : String) where
  pub authorize-Authorizes :
      (s : App)
      → Authorizes v plan_id approved_hash key s (authorize v plan_id approver approved_hash key s)
  unfolding authorize utc_now new_id save_plan save_approval save_incident save_action_run
  authorize-Authorizes s = elim (Option-cases (get_plan plan_id s.repository)) [
    | inl missing ↦ rw missing (refl, refl, refl)
    | inr (p, hp) ↦ elim (Option-cases (get_incident p.incident_id s.repository)) [
      | inl missing ↦ rw (hp, missing) (refl, refl, refl)
      | inr (i, hi) ↦ elim (Result-cases (validate v.real_actions_mode p)) [
        | inr (e, denied) ↦ rw (hp, hi, denied) (refl, refl, refl)
        | inl (u, gated) ↦ elim (Bool-cases (is_pending p.status)) [
          | inr settled ↦ rw (hp, hi, gated, settled) (refl, refl, refl)
          | inl pending ↦ elim (Bool-cases (ltb p.expires_at (v.platform.clock s.ticks))) [
            | inl late ↦ rw (hp, hi, gated, pending, late) (refl, refl, refl)
            | inr in_time ↦ elim (Bool-cases (approved_hash == content_hash v.platform.digest p)) [
              | inr other ↦ rw (hp, hi, gated, pending, in_time, other) (refl, refl, refl)
              | inl same ↦ elim (Bool-cases (is_waiting i.status)) [
                | inr busy ↦
                    rw (hp, hi, gated, pending, in_time, same, start-busy v.platform i _ busy)
                      (refl, refl, refl)
                | inl waiting ↦
                    rw (hp, hi, gated, pending, in_time, same, start-waiting v.platform i _ waiting)
                      (
                        p,
                        i,
                        (record {
                          plan = hp;
                          incident = hi;
                          gated = gated;
                          pending = pending;
                          in_time = ltb-false→le _ _ in_time;
                          same_hash = (eq_iff _ _).0 same;
                          waiting = waiting;
                        }),
                        refl,
                        refl,
                        sym ((eq_iff _ _).0 same),
                        refl,
                        run_id-nonempty _,
                        refl,
                      )
              ]
            ]
          ]
        ]
      ]
    ]
  ]

-- The call returned and did not raise.
abbrev pub Returns : {A : Type 0} → Result A × App → Type 0
Returns (ok a, t) = Unit
Returns (err e, t) = ⊥

module _ (v : Service) (plan_id approver approved_hash key : String) where
  Returns-of_IsAdmissible :
      (s : App) (p : RemediationPlan) (i : Incident)
      → IsAdmissible v plan_id approved_hash s p i
      → Returns (authorize v plan_id approver approved_hash key s)
  unfolding authorize utc_now new_id save_plan save_approval save_incident save_action_run
  Returns-of_IsAdmissible s p i a =
      rw
        (
          a.plan,
          a.incident,
          a.gated,
          a.pending,
          le→ltb-false p.expires_at _ a.in_time,
          (eq_iff _ _).1 a.same_hash,
          start-waiting v.platform i _ a.waiting,
        )
        tt

  IsAdmissible-of_Authorizes :
      (s : App) (out : Result Authorized × App)
      → Authorizes v plan_id approved_hash key s out
      → Returns out
      → (p : RemediationPlan) × (i : Incident) × IsAdmissible v plan_id approved_hash s p i
  IsAdmissible-of_Authorizes s (ok a, t) h r = (h.0, h.1, h.2)
  IsAdmissible-of_Authorizes s (err e, t) h r = absurd r

  -- The checks of an approval pass exactly if it is admissible for some plan and incident.
  pub authorize_iff_IsAdmissible :
      (s : App)
      → Returns (authorize v plan_id approver approved_hash key s)
        ↔ ((p : RemediationPlan) × (i : Incident) × IsAdmissible v plan_id approved_hash s p i)
  authorize_iff_IsAdmissible s = (
    IsAdmissible-of_Authorizes s _ (authorize-Authorizes v plan_id approver approved_hash key s),
    λ (p, i, a). Returns-of_IsAdmissible s p i a,
  )
