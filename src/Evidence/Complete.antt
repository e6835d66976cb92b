-- ===== src/Evidence/Complete.antt =====
-- Evidence is attached as a whole, or not at all.
use Prim.Native.String.{count}
use aiops_control_lab.Base.{
  ◌≡◌, refl, inl, inr, ◌⊎◌, Bool-cases, Option-cases, ℕ, ◌-◌, ◌≤◌, ◌<◌, String, Bool, true, false,
  not, ◌||◌, Option, some, [], ◌∷◌, ◌++◌, Result, ok, err, lift, ◌>>=◌, ◌>>◌, external_source, leb,
  ltb, leb-false→lt, ltb-false→le,
}
use aiops_control_lab.Domain.Models.{Incident, EvidenceRef}
use aiops_control_lab.Repository.{save_incident, get_incident}
use aiops_control_lab.App.{App, new_id}
use aiops_control_lab.Evidence.{
  Moment, Evidence, max_window, max_query_length, configured, validate_query, metric_summary,
  log_summary, attach, record_evidence, get_known_incident, attach_metric_evidence,
  attach_log_evidence,
}

-- The query is no blank text and not too long; the window has time zones, does not end before it
-- starts, and is no longer than six hours.
pub record IsValid (v : Evidence) (query : String) (started_at ended_at : Moment) : Type 0 where
  pub text : v.is_blank query ≡ false
  pub short : count query ≤ max_query_length
  pub aware : (started_at.aware ≡ true) × (ended_at.aware ≡ true)
  pub order : started_at.time < ended_at.time
  pub within : ended_at.time - started_at.time ≤ max_window

or-false : (a b : Bool) → (a || b) ≡ false → (a ≡ false) × (b ≡ false)
or-false true b h = cc
or-false false b h = (refl, h)

not-false : (a b : Bool) → (not a || not b) ≡ false → (a ≡ true) × (b ≡ true)
not-false true true h = (refl, refl)
not-false true false h = cc
not-false false b h = cc

validate_query_cases :
    (v : Evidence) (query : String) (a b : Moment) (s : App)
    → (validate_query v query a b s ≡ (err external_source, s))
      ⊎ ((validate_query v query a b s ≡ (ok tt, s)) × IsValid v query a b)
unfolding validate_query
validate_query_cases v query a b s =
    elim (Bool-cases (v.is_blank query || ltb max_query_length (count query))) [
      | inl bad ↦ rw bad (inl refl)
      | inr sized ↦ elim (Bool-cases (not a.aware || not b.aware)) [
        | inl naive ↦ rw (sized, naive) (inl refl)
        | inr zoned ↦ elim (Bool-cases (leb b.time a.time)) [
          | inl reversed ↦ rw (sized, zoned, reversed) (inl refl)
          | inr ordered ↦ elim (Bool-cases (ltb max_window (b.time - a.time))) [
            | inl long ↦ rw (sized, zoned, ordered, long) (inl refl)
            | inr fits ↦
                rw (sized, zoned, ordered, fits)
                  (inr (
                    refl,
                    record {
                      text = (or-false _ _ sized).0;
                      short = ltb-false→le max_query_length (count query) (or-false _ _ sized).1;
                      aware = not-false a.aware b.aware zoned;
                      order = leb-false→lt b.time a.time ordered;
                      within = ltb-false→le max_window (b.time - a.time) fits;
                    },
                  ))
          ]
        ]
      ]
    ]

-- The incident is known and now ends with the evidence, which is about the query and the window, and
-- these are valid.
pub record Attached (v : Evidence) (incident_id query : String) (a b : Moment) (s : App)
    (evidence : EvidenceRef) (t : App) : Type 0 where
  pub valid : IsValid v query a b
  pub incident : Incident
  pub known : get_incident incident_id s.repository ≡ some incident
  pub saved :
      t.repository
      ≡ save_incident
          (record incident { evidence = incident.evidence ++ evidence ∷ [] })
          s.repository
  pub about :
      (evidence.query ≡ query) × (evidence.started_at ≡ a.time) × (evidence.ended_at ≡ b.time)

-- What a method returns is attached; if it raises, the repository is as it was.
unfoldable pub Whole :
    Evidence → String → String → Moment → Moment → App → Result EvidenceRef × App → Type 0
Whole v incident_id query a b s (ok evidence, t) = Attached v incident_id query a b s evidence t
Whole v incident_id query a b s (err e, t) = t.repository ≡ s.repository

module _ (v : Evidence) (incident_id query : String) (a b : Moment) (s : App) where
  record-Whole :
      {Y : Type 0} (source : String) (answer : Result Y) (summary : Y → String)
      (incident : Incident)
      → IsValid v query a b
      → get_incident incident_id s.repository ≡ some incident
      → Whole v incident_id query a b s
          ((lift answer >>= λ xs. record_evidence v incident source query a b (summary xs)) s)
  unfolding Whole record_evidence attach new_id
  record-Whole source (err e) summary incident valid known = refl
  record-Whole source (ok xs) summary incident valid known = record {
    valid = valid;
    incident = incident;
    known = known;
    saved = refl;
    about = (refl, refl, refl);
  }

  collect-Whole :
      {X Y : Type 0} (source : String) (port : Option X) (ask : X → Result Y) (summary : Y → String)
      → Whole v incident_id query a b s (
          (validate_query v query a b
              >> (configured port >>= λ f. get_known_incident v incident_id >>= λ incident.
                  lift (ask f) >>= λ xs. record_evidence v incident source query a b (summary xs)))
            s)
  unfolding Whole get_known_incident
  collect-Whole source port ask summary = elim (validate_query_cases v query a b s) [
    | inl refused ↦ rw refused refl
    | inr (passed, valid) ↦ elim (Option-cases port) [
      | inl absent ↦ rw (passed, absent) refl
      | inr (f, there_is) ↦ elim (Option-cases (get_incident incident_id s.repository)) [
        | inl unknown ↦ rw (passed, there_is) (rw unknown refl)
        | inr (incident, known) ↦
            rw (passed, there_is)
              (rw known (record-Whole source (ask f) summary incident valid known))
      ]
    ]
  ]

-- Attaching metrics or logs either raises and leaves the repository as it was, or returns evidence
-- for the query and the window that now stands last in the incident, with nothing else changed in
-- the repository; then the query and the window are valid.
pub attach_evidence-Whole :
    (v : Evidence) (incident_id query : String) (a b : Moment) (n : ℕ) (s : App)
    → Whole v incident_id query a b s (attach_metric_evidence v incident_id query a b n s)
      × Whole v incident_id query a b s (attach_log_evidence v incident_id query a b n s)
unfolding attach_metric_evidence attach_log_evidence
attach_evidence-Whole v incident_id query a b n s = (
  collect-Whole v incident_id query a b s "prometheus" v.metric_query (λ f. f query a.time b.time n)
      (metric_summary v),
  collect-Whole v incident_id query a b s "loki" v.log_query (λ f. f query a.time b.time n)
      (log_summary v),
)
