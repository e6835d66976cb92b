-- ===== src/MetricStore/Export/Complete.antt =====
-- The export of the metrics does not fail.
use aiops_control_lab.Base.{
  ◌≡◌, refl, arith, inl, inr, Bool-cases, String, true, ◌==◌, some, List, [], ◌∷◌, map, first,
  contains, sorted, sorted-All, Float, Dict, Entries, insert-Entries, Result, ok,
}
use aiops_control_lab.Results.{◌>>=◌}
use aiops_control_lab.Domain.Monitoring.{LatestMetric}
use aiops_control_lab.App.{MetricStore}
use aiops_control_lab.MetricStore.{is_registered, list_metrics, metric_lt}
use aiops_control_lab.MetricStore.Dedup.{
  Batch, after_batches, IsRegistered, after_batches-IsRegistered,
}
use aiops_control_lab.MetricStore.Export.{
  MetricDefinition, metric_definitions, definition_of, group, group_lines, prometheus_text,
}

abbrev Returns : {A : Type 0} → Result A → Type 0
Returns {A} m = (a : A) × (m ≡ ok a)

bind-Returns :
    {A B : Type 0} (m : Result A) (f : A → Result B)
    → Returns m
    → ((a : A) → Returns (f a))
    → Returns (m >>= f)
bind-Returns m f (a, e) rest = rw e (rest a)

first-some :
    (name : String) (ds : List MetricDefinition)
    → contains name (map (λ (d : MetricDefinition). d.name) ds) ≡ true
    → (d : MetricDefinition) × (first (λ d. d.name == name) ds ≡ some d)
first-some name [] h = cc
first-some name (d ∷ ds) h = elim (Bool-cases (d.name == name)) [
  | inl this ↦ (d, rw this refl)
  | inr other ↦ rw other (first-some name ds (ground (arith, other)))
]

-- The registered names are those of the definitions.
definition_of-Returns : (name : String) → is_registered name ≡ true → Returns (definition_of name)
unfolding definition_of is_registered
definition_of-Returns name h = let (d, e) = first-some name metric_definitions h in (d, rw e refl)

group_lines-Returns :
    (show : Float → String) (d : Dict (List LatestMetric))
    → Entries (λ name metrics. is_registered name ≡ true) d
    → Returns (group_lines show d)
unfolding group_lines
group_lines-Returns show [] h = ([], refl)
group_lines-Returns show ((name, metrics) ∷ d) h =
    bind-Returns (definition_of name) _ (definition_of-Returns name h.0) λ definition.
      bind-Returns (group_lines show d) _ (group_lines-Returns show d h.1) λ ls. (_, refl)

group-Entries :
    (metrics : List LatestMetric) (d : Dict (List LatestMetric))
    → IsRegistered metrics
    → Entries (λ name ms. is_registered name ≡ true) d
    → Entries (λ name ms. is_registered name ≡ true) (group metrics d)
unfolding group
group-Entries [] d r h = h
group-Entries (m ∷ metrics) d r h =
    group-Entries metrics _ r.1
      (insert-Entries (λ name ms. is_registered name ≡ true) m.name _ d r.0 h)

-- Whatever batches arrive at an empty store, the text for Prometheus is made: no metric of the store
-- lacks a definition.
prometheus_text_returns :
    (show : Float → String) (bs : List Batch) (m : MetricStore)
    → m.metrics ≡ []
    → (t : String) × (prometheus_text show (after_batches bs m) ≡ ok t)
unfolding prometheus_text list_metrics
prometheus_text_returns show bs m start =
    let stored = (after_batches bs m).metrics in
    let registered : IsRegistered stored = after_batches-IsRegistered bs m (rw start tt) in
    bind-Returns (group_lines show (group (sorted metric_lt stored) [])) _
      (group_lines-Returns show (group (sorted metric_lt stored) []) (
        group-Entries (sorted metric_lt stored) []
          (sorted-All metric_lt (λ m. is_registered m.name ≡ true) stored registered) tt))
      λ ls. (_, refl)
