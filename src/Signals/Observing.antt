-- ===== src/Signals/Observing.antt =====
-- While real assets are only observed, a signal of one never leads to a plan.
use aiops_control_lab.Base.{
  ◌≡◌, refl, ◌∙◌, String, Bool, Bool-cases, true, false, ◌==◌, eq_iff, inl, inr, Option, none, some,
  List, [], ◌∷◌, Result, Exec, bind_rule, pure, lift, gets, ◌>>=◌, Float, if◌then◌else◌,
}
use aiops_control_lab.Domain.Models.{Signal, EvidenceRef, Time, Incident, ChangeEvent}
use aiops_control_lab.Domain.Monitoring.{DetectionResult}
use aiops_control_lab.Repository.{save_incident}
use aiops_control_lab.App.{App, Platform, new_id, utc_now, earlier, seconds, store}
use aiops_control_lab.Policy.{is_real_asset}
use aiops_control_lab.Correlation.{CorrelationMatch, change_evidence, evidence_of_changes}
use aiops_control_lab.Signals.{
  Signals, metric_evidence, related_changes, related_incident, join_incident, create_incident,
  file_anomaly, record_anomaly, evaluate_signal,
}

-- From every state and on every outcome, the plans and the calls of the dispatcher are what they were.
record KeepsPlans {A : Type 0} (m : Exec App A) : Type 0 where
  same_plans : (s : App) → (m s).1.repository.plans ≡ s.repository.plans
  same_calls : (s : App) → (m s).1.dispatched ≡ s.dispatched

pure-KeepsPlans : {A : Type 0} (a : A) → KeepsPlans (pure a)
pure-KeepsPlans a = record { same_plans = λ s. refl; same_calls = λ s. refl }

bind-KeepsPlans :
    {A B : Type 0} (m : Exec App A) (f : A → Exec App B)
    → KeepsPlans m
    → ((a : A) → KeepsPlans (f a))
    → KeepsPlans (m >>= f)
bind-KeepsPlans m f first rest = record {
  same_plans = λ s.
      bind_rule (λ out. out.1.repository.plans ≡ s.repository.plans)
        (λ out. out.1.repository.plans ≡ s.repository.plans) f (m s) (first.same_plans s)
        (λ a t h. (rest a).same_plans t ∙ h) (λ e t h. h);
  same_calls = λ s.
      bind_rule (λ out. out.1.dispatched ≡ s.dispatched) (λ out. out.1.dispatched ≡ s.dispatched) f
        (m s) (first.same_calls s) (λ a t h. (rest a).same_calls t ∙ h) (λ e t h. h);
}

if-KeepsPlans :
    {A : Type 0} (b : Bool) (m n : Exec App A)
    → KeepsPlans m
    → KeepsPlans n
    → KeepsPlans (if b then m else n)
if-KeepsPlans true m n hm hn = hm
if-KeepsPlans false m n hm hn = hn

new_id-KeepsPlans : (p : Platform) (prefix : String) → KeepsPlans (new_id p prefix)
unfolding new_id
new_id-KeepsPlans p prefix = record { same_plans = λ s. refl; same_calls = λ s. refl }

utc_now-KeepsPlans : (p : Platform) → KeepsPlans (utc_now p)
unfolding utc_now
utc_now-KeepsPlans p = record { same_plans = λ s. refl; same_calls = λ s. refl }

lift-KeepsPlans : {A : Type 0} (r : Result A) → KeepsPlans (lift r)
lift-KeepsPlans r = record { same_plans = λ s. refl; same_calls = λ s. refl }

gets-KeepsPlans : {A : Type 0} (f : App → A) → KeepsPlans (gets f)
gets-KeepsPlans f = record { same_plans = λ s. refl; same_calls = λ s. refl }

save_incident-KeepsPlans : (i : Incident) → KeepsPlans (store (save_incident i))
unfolding save_incident
save_incident-KeepsPlans i = record { same_plans = λ s. refl; same_calls = λ s. refl }

evidence_of_changes-KeepsPlans :
    (p : Platform) (signal : Signal) (events : List ChangeEvent)
    → KeepsPlans (evidence_of_changes p signal events)
unfolding evidence_of_changes
evidence_of_changes-KeepsPlans p signal [] = pure-KeepsPlans []
evidence_of_changes-KeepsPlans p signal (event ∷ events) =
    bind-KeepsPlans (new_id p "evi") _ (new_id-KeepsPlans p "evi") (λ id.
      bind-KeepsPlans (evidence_of_changes p signal events) _
        (evidence_of_changes-KeepsPlans p signal events)
        (λ more. record { same_plans = λ s. refl; same_calls = λ s. refl }))

module _ (v : Signals) (signal : Signal) where
  metric_evidence-KeepsPlans :
      (detection : DetectionResult) → KeepsPlans (metric_evidence v signal detection)
  unfolding metric_evidence
  metric_evidence-KeepsPlans detection =
      bind-KeepsPlans (new_id v.platform "evi") _ (new_id-KeepsPlans v.platform "evi") (λ id.
        bind-KeepsPlans (lift (earlier signal.occurred_at (seconds 300))) _
          (lift-KeepsPlans (earlier signal.occurred_at (seconds 300)))
          (λ started_at. record { same_plans = λ s. refl; same_calls = λ s. refl }))

  related_changes-KeepsPlans : KeepsPlans (related_changes v signal)
  unfolding related_changes change_evidence
  related_changes-KeepsPlans = elim (Bool-cases v.correlates) [
    | inl on ↦ record {
      same_plans = λ s. rw on ((evidence_of_changes-KeepsPlans v.platform signal _).same_plans s);
      same_calls = λ s. rw on ((evidence_of_changes-KeepsPlans v.platform signal _).same_calls s);
    }
    | inr off ↦ record { same_plans = λ s. rw off refl; same_calls = λ s. rw off refl }
  ]

  join_incident-KeepsPlans :
      (detection : DetectionResult) (m : CorrelationMatch) (evidence : EvidenceRef)
      (changes : List EvidenceRef) (now : Time)
      → KeepsPlans (join_incident v signal detection m evidence changes now)
  unfolding join_incident save_incident
  join_incident-KeepsPlans detection m evidence changes now = record {
    same_plans = λ s. refl;
    same_calls = λ s. refl;
  }

  create_incident-KeepsPlans :
      (detection : DetectionResult) (evidence : EvidenceRef) (changes : List EvidenceRef)
      (now : Time)
      → is_real_asset signal.asset_id ≡ true
      → v.real_actions_mode ≡ "observe_only"
      → KeepsPlans (create_incident v signal detection evidence changes now)
  unfolding create_incident save_incident new_id
  create_incident-KeepsPlans detection evidence changes now real observing =
      let mode : (v.real_actions_mode == "observe_only") ≡ true = (eq_iff _ _).1 observing in
      record { same_plans = λ s. rw (real, mode) refl; same_calls = λ s. rw (real, mode) refl }

  file_anomaly-KeepsPlans :
      (detection : DetectionResult) (evidence : EvidenceRef) (changes : List EvidenceRef)
      (now : Time)
      → is_real_asset signal.asset_id ≡ true
      → v.real_actions_mode ≡ "observe_only"
      → (found : Option CorrelationMatch)
      → KeepsPlans (file_anomaly v signal detection evidence changes now found)
  unfolding file_anomaly
  file_anomaly-KeepsPlans detection evidence changes now real observing none =
      create_incident-KeepsPlans detection evidence changes now real observing
  file_anomaly-KeepsPlans detection evidence changes now real observing (some m) =
      join_incident-KeepsPlans detection m evidence changes now

  record_anomaly-KeepsPlans :
      (detection : DetectionResult)
      → is_real_asset signal.asset_id ≡ true
      → v.real_actions_mode ≡ "observe_only"
      → KeepsPlans (record_anomaly v signal detection)
  unfolding record_anomaly
  record_anomaly-KeepsPlans detection real observing =
      bind-KeepsPlans (utc_now v.platform) _ (utc_now-KeepsPlans v.platform) (λ now.
        bind-KeepsPlans (metric_evidence v signal detection) _
          (metric_evidence-KeepsPlans detection)
          (λ evidence.
            bind-KeepsPlans (related_changes v signal) _ related_changes-KeepsPlans (λ changes.
              bind-KeepsPlans (gets (related_incident v signal)) _
                (gets-KeepsPlans (related_incident v signal))
                (λ found.
                  file_anomaly-KeepsPlans detection evidence changes now real observing found))))

-- In `observe_only`, a signal of a real asset leaves the plans as they are and makes no call of the
-- dispatcher, whatever the detector says and also if the call raises.
pub evaluate_signal_observes :
    (v : Signals) (signal : Signal) (history : List Float) (s : App)
    → is_real_asset signal.asset_id ≡ true
    → v.real_actions_mode ≡ "observe_only"
    → ((evaluate_signal v signal history s).1.repository.plans ≡ s.repository.plans)
      × ((evaluate_signal v signal history s).1.dispatched ≡ s.dispatched)
unfolding evaluate_signal
evaluate_signal_observes v signal history s real observing =
    let known =
      bind-KeepsPlans (lift (v.detect history signal.value)) _
        (lift-KeepsPlans (v.detect history signal.value))
        (λ detection.
          if-KeepsPlans detection.anomalous _ _
            (record_anomaly-KeepsPlans v signal detection real observing)
            (pure-KeepsPlans (record { detection = detection; incident = none; plan = none }))) in
    (known.same_plans s, known.same_calls s)
