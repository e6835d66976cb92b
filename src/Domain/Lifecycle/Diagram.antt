-- ===== src/Domain/Lifecycle/Diagram.antt =====
-- The life of an incident as a relation between statuses, which the four methods of `Incident`
-- implement, and what follows for every sequence of calls.
use aiops_control_lab.Base.{
  ◌≡◌, refl, ◌⊎◌, inl, inr, Bool, true, false, List, [], ◌∷◌, Result, ok, err,
  invalid_state_transition, arith, Bool-cases,
}
use aiops_control_lab.Domain.Enums.{
  IncidentStatus, opened, investigating, waiting_approval, remediating, resolved, failed,
}
use aiops_control_lab.Domain.Models.{Incident, Time}
use aiops_control_lab.Domain.Lifecycle.{
  wait_for_approval, start_remediation, finish, resolve_observation, moved, may_wait, is_waiting,
  is_remediating, may_resolve,
}

pub data Event : Type 0 where
  wait start observe : Event
  end : Bool → Event

-- The arrows of the diagram.
pub data Arrow : Event → IncidentStatus → IncidentStatus → Type 0 where
  wait_opened : Arrow wait opened waiting_approval
  wait_investigating : Arrow wait investigating waiting_approval
  start_waiting : Arrow start waiting_approval remediating
  end_well : Arrow (end true) remediating resolved
  end_badly : Arrow (end false) remediating failed
  observe_opened : Arrow observe opened resolved
  observe_investigating : Arrow observe investigating resolved
  observe_waiting : Arrow observe waiting_approval resolved

-- The call of the method that an event stands for.
unfoldable pub attempt : Event → Time → Incident → Result Incident
unfolding wait_for_approval start_remediation finish resolve_observation
attempt wait now i = wait_for_approval now i
attempt start now i = start_remediation now i
attempt observe now i = resolve_observation now i
attempt (end succeeded) now i = finish succeeded now i

-- What a method answers, by the diagram: along an arrow it moves the incident and touches nothing
-- but the status and the time of the last change; where there is no arrow it raises.
abbrev pub Follows : Event → Time → Incident → Type 0
Follows e now i =
    ((t : IncidentStatus) × Arrow e i.status t × (attempt e now i ≡ ok (moved t now i)))
    ⊎ (((t : IncidentStatus) → ¬ Arrow e i.status t)
        × (attempt e now i ≡ err invalid_state_transition))

abbrev test_of : Event → IncidentStatus → Bool
test_of wait s = may_wait s
test_of start s = is_waiting s
test_of (end b) s = is_remediating s
test_of observe s = may_resolve s

Arrow-of_test :
    (e : Event) (s : IncidentStatus) → test_of e s ≡ true → (t : IncidentStatus) × Arrow e s t
Arrow-of_test wait opened h = (waiting_approval, wait_opened)
Arrow-of_test wait investigating h = (waiting_approval, wait_investigating)
Arrow-of_test start waiting_approval h = (remediating, start_waiting)
Arrow-of_test (end true) remediating h = (resolved, end_well)
Arrow-of_test (end false) remediating h = (failed, end_badly)
Arrow-of_test observe opened h = (resolved, observe_opened)
Arrow-of_test observe investigating h = (resolved, observe_investigating)
Arrow-of_test observe waiting_approval h = (resolved, observe_waiting)
Arrow-of_test e s h = cc

test_of-Arrow : {e : Event} {s t : IncidentStatus} → Arrow e s t → test_of e s ≡ true
test_of-Arrow wait_opened = refl
test_of-Arrow _ = refl

attempt_along :
    {e : Event} {s t : IncidentStatus} (now : Time) (i : Incident)
    → Arrow e s t
    → i.status ≡ s
    → attempt e now i ≡ ok (moved t now i)
unfolding attempt
attempt_along now i wait_opened h = ground arith
attempt_along now i _ h = ground arith

attempt_blocked :
    (e : Event) (now : Time) (i : Incident)
    → test_of e i.status ≡ false
    → attempt e now i ≡ err invalid_state_transition
unfolding attempt
attempt_blocked wait now i h = ground arith
attempt_blocked _ now i h = ground arith

-- Each of the four methods of an incident follows the diagram: where it has an arrow from the
-- incident's status, the method writes the status at its end and the time and changes nothing else;
-- where it has none, the method raises `InvalidStateTransitionError`.
pub attempt-Follows : (e : Event) (now : Time) (i : Incident) → Follows e now i
attempt-Follows e now i = elim (Bool-cases (test_of e i.status)) [
  | inl h ↦ let (t, a) = Arrow-of_test e i.status h in inl (t, a, attempt_along now i a refl)
  | inr h ↦ inr ((λ t a. absurd (cc (h, test_of-Arrow a))), attempt_blocked e now i h)
]

-- A run of method calls, each with the time that it reads; a call that raises changes nothing.
unfoldable pub after : Incident → List (Event × Time) → Incident
after i [] = i
after i ((e, now) ∷ calls) = elim (attempt e now i) [ ok j ↦ after j calls | err _ ↦ after i calls ]

abbrev pub IsClosed : IncidentStatus → Type 0
IsClosed s = (s ≡ resolved) ⊎ (s ≡ failed)

closed_blocks : (e : Event) (s : IncidentStatus) → IsClosed s → test_of e s ≡ false
closed_blocks wait s h = ground arith
closed_blocks _ s h = ground arith

-- A resolved or failed incident stays as it is, whatever methods are called on it.
pub after-IsClosed :
    (i : Incident) (calls : List (Event × Time)) → IsClosed i.status → after i calls ≡ i
unfolding after
after-IsClosed i [] h = refl
after-IsClosed i ((e, now) ∷ calls) h =
    rw (attempt_blocked e now i (closed_blocks e i.status h), after) (after-IsClosed i calls h)
