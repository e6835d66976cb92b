-- ===== src/Domain/Lifecycle.antt =====
-- The transitions of `Incident` in domain/models.py: each checks the status, writes the new one and
-- the time at which it did, or raises `InvalidStateTransitionError`.
pub mod Diagram
use aiops_control_lab.Base.{
  Bool, true, false, Result, ok, err, invalid_state_transition, if◌then◌else◌,
}
use aiops_control_lab.Domain.Enums.{IncidentStatus}
use aiops_control_lab.Domain.Models.{Incident, Time}

-- `self.status = status; self.updated_at = utc_now()`
abbrev pub moved : IncidentStatus → Time → Incident → Incident
moved status now i = record i { status = status; updated_at = now }

-- `allowed` of `wait_for_approval`
abbrev pub may_wait : IncidentStatus → Bool
may_wait IncidentStatus.opened = true
may_wait IncidentStatus.investigating = true
may_wait _ = false

unfoldable pub wait_for_approval : Time → Incident → Result Incident
wait_for_approval now i =
    if may_wait i.status
    then ok (moved IncidentStatus.waiting_approval now i)
    else err invalid_state_transition

abbrev pub is_waiting : IncidentStatus → Bool
is_waiting IncidentStatus.waiting_approval = true
is_waiting _ = false

unfoldable pub start_remediation : Time → Incident → Result Incident
start_remediation now i =
    if is_waiting i.status
    then ok (moved IncidentStatus.remediating now i)
    else err invalid_state_transition

abbrev pub is_remediating : IncidentStatus → Bool
is_remediating IncidentStatus.remediating = true
is_remediating _ = false

unfoldable pub finish : Bool → Time → Incident → Result Incident
finish succeeded now i =
    if is_remediating i.status
    then ok (moved (if succeeded then IncidentStatus.resolved else IncidentStatus.failed) now i)
    else err invalid_state_transition

-- `allowed` of `resolve_observation`
abbrev pub may_resolve : IncidentStatus → Bool
may_resolve IncidentStatus.opened = true
may_resolve IncidentStatus.investigating = true
may_resolve IncidentStatus.waiting_approval = true
may_resolve _ = false

unfoldable pub resolve_observation : Time → Incident → Result Incident
resolve_observation now i =
    if may_resolve i.status
    then ok (moved IncidentStatus.resolved now i)
    else err invalid_state_transition
