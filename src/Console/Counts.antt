-- ===== src/Console/Counts.antt =====
-- The numbers of the overview.
use aiops_control_lab.Base.{
  ◌≡◌, refl, ap, arith, ℕ, ◌+◌, suc, if◌then◌else◌, ltb, Bool, true, false, String, List, [], ◌∷◌,
  map, length, length-sorted, count, count-sorted, values,
}
use aiops_control_lab.Domain.Enums.{
  IncidentStatus, opened, investigating, waiting_approval, remediating, resolved, failed,
}
use aiops_control_lab.Domain.Models.{Incident}
use aiops_control_lab.Domain.Hash.{Digest}
use aiops_control_lab.Repository.{Repository, list_incidents}
use aiops_control_lab.Console.{is_open, is_resolved, overview, incident_contexts, incident_context}

abbrev pub has_failed : IncidentStatus → Bool
has_failed failed = true
has_failed _ = false

one_status :
    (s : IncidentStatus) (a b c n : ℕ)
    → a + b + c ≡ n
    → (if is_open s then suc a else a)
        + (if is_resolved s then suc b else b)
        + (if has_failed s then suc c else c)
      ≡ suc n
one_status opened a b c n h = omega arith
one_status investigating a b c n h = omega arith
one_status waiting_approval a b c n h = omega arith
one_status remediating a b c n h = omega arith
one_status resolved a b c n h = omega arith
one_status failed a b c n h = omega arith

by_status :
    (incidents : List Incident)
    → count (λ i. is_open i.status) incidents
        + count (λ i. is_resolved i.status) incidents
        + count (λ i. has_failed i.status) incidents
      ≡ length incidents
by_status [] = refl
by_status (i ∷ incidents) = one_status i.status _ _ _ _ (by_status incidents)

length-map : {A B : Type 0} (f : A → B) (xs : List A) → length (map f xs) ≡ length xs
length-map f [] = refl
length-map f (x ∷ xs) = ap suc (length-map f xs)

-- The overview counts the incidents that are stored, each once: the open ones, the resolved ones and
-- those that failed make up the total, and there are as many contexts as incidents.
overview_partition :
    (r : Repository) (access_mode : String) (plugin_count : ℕ) (d : Digest)
    → let o = overview r access_mode plugin_count in
      (o.incident_count ≡ length (values r.incidents))
      × (o.active_incident_count ≡ count (λ i. is_open i.status) (values r.incidents))
      × (o.resolved_incident_count ≡ count (λ i. is_resolved i.status) (values r.incidents))
      × (o.active_incident_count
            + o.resolved_incident_count
            + count (λ i. has_failed i.status) (values r.incidents)
          ≡ o.incident_count)
      × (length (incident_contexts d r) ≡ o.incident_count)
unfolding overview list_incidents incident_contexts
overview_partition r access_mode plugin_count d =
    let stored = values r.incidents in
    let before = λ (a b : Incident). ltb b.created_at a.created_at in
    let total = length-sorted before stored in
    let active = count-sorted before (λ i. is_open i.status) stored in
    let done = count-sorted before (λ i. is_resolved i.status) stored in
    (
      total,
      active,
      done,
      omega (arith, total, active, done, by_status stored),
      length-map (incident_context d r) (list_incidents r),
    )
