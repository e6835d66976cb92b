-- ===== src/Correlation/Matching.antt =====
-- What `find_match` returns.
use aiops_control_lab.Base.{
  ◌≡◌, refl, sym, subst, Bool-cases, true, false, ◌==◌, eq_iff, inl, inr, ◌⊎◌, Option, none, some,
  List, [], ◌∷◌, Has, here, there, best_from-Has, best, best_from, is_empty, arith,
}
use aiops_control_lab.Domain.Models.{Signal, Incident}
use aiops_control_lab.Domain.Monitoring.{TopologyEdge}
use aiops_control_lab.Correlation.{
  CorrelationMatch, candidate, candidates, prepend, find_match, is_active, is_adjacent, is_far,
  is_better, same_asset_score, adjacent_score,
}

-- The incident is active and was updated within five minutes of the signal, and it is about the
-- signal's asset, or about one that depends on it or that it depends on; the score says which.
pub record Fits (signal : Signal) (edges : List TopologyEdge) (m : CorrelationMatch) : Type 0 where
  active : is_active m.incident.status ≡ true
  near : is_far signal.occurred_at m.incident.updated_at ≡ false
  related :
      ((m.incident.asset_id ≡ signal.asset_id) × (m.score ≡ same_asset_score))
      ⊎ ((is_adjacent m.incident.asset_id signal.asset_id edges ≡ true)
          × (m.score ≡ adjacent_score))

unfoldable FitsIf : Signal → List TopologyEdge → Option CorrelationMatch → Incident → Type 0
FitsIf signal edges none i = Unit
FitsIf signal edges (some m) i = Fits signal edges m × (m.incident ≡ i)

candidate-FitsIf :
    (signal : Signal) (edges : List TopologyEdge) (i : Incident)
    → FitsIf signal edges (candidate signal edges i) i
unfolding candidate FitsIf
candidate-FitsIf signal edges i = elim (Bool-cases (is_active i.status)) [
  | inr closed ↦ rw closed tt
  | inl active ↦ elim (Bool-cases (is_far signal.occurred_at i.updated_at)) [
    | inl far ↦ rw (active, far) tt
    | inr near ↦ elim (Bool-cases (i.asset_id == signal.asset_id)) [
      | inl same ↦
          rw (active, near, same)
            (
              record { active = active; near = near; related = inl ((eq_iff _ _).0 same, refl) },
              refl,
            )
      | inr other ↦ elim (Bool-cases (is_adjacent i.asset_id signal.asset_id edges)) [
        | inl next ↦
            rw (active, near, other, next)
              (record { active = active; near = near; related = inr (next, refl) }, refl)
        | inr apart ↦ rw (active, near, other, apart) tt
      ]
    ]
  ]
]

-- A candidate fits, and its incident is on the list.
unfoldable pub Candidate : Signal → List TopologyEdge → List Incident → CorrelationMatch → Type 0
Candidate signal edges incidents m = Fits signal edges m × Has m.incident incidents

prepend-Has :
    (o : Option CorrelationMatch) (ms : List CorrelationMatch) (m : CorrelationMatch)
    → Has m (prepend o ms)
    → (o ≡ some m) ⊎ Has m ms
prepend-Has none ms m h = inr h
prepend-Has (some x) ms m here = inl refl
prepend-Has (some x) ms m (there h) = inr h

Has-is_empty : {m : CorrelationMatch} {ms : List CorrelationMatch} → Has m ms → is_empty ms ≡ false
Has-is_empty here = refl
Has-is_empty (there h) = refl

candidates-Candidate :
    (signal : Signal) (edges : List TopologyEdge) (incidents : List Incident) (m : CorrelationMatch)
    → Has m (candidates signal edges incidents)
    → Candidate signal edges incidents m
unfolding candidates FitsIf Candidate
candidates-Candidate signal edges [] m h = absurd (cc (Has-is_empty h))
candidates-Candidate signal edges (i ∷ incidents) m h =
    elim (prepend-Has (candidate signal edges i) (candidates signal edges incidents) m h) [
      | inl first ↦
          let (fits, same) =
            subst (λ o. FitsIf signal edges o i) first (candidate-FitsIf signal edges i) in
          (fits, subst (λ j. Has j (i ∷ incidents)) (sym same) here)
      | inr later ↦
          let (fits, on_list) = candidates-Candidate signal edges incidents m later in
          (fits, there on_list)
    ]

best-Has :
    (ms : List CorrelationMatch) (m : CorrelationMatch) → best is_better ms ≡ some m → Has m ms
best-Has [] m h = absurd (ground arith)
best-Has (x ∷ xs) m h =
    let same : best_from is_better x xs ≡ m = ground arith in
    subst (λ y. Has y (x ∷ xs)) same (best_from-Has is_better x xs)

-- What is matched is an incident of the list that is active, was updated within five minutes of the
-- signal, and is about the signal's asset, with the higher score, or about a direct neighbour of it by
-- a `depends_on` edge, with the lower one.
pub find_match-Candidate :
    (signal : Signal) (edges : List TopologyEdge) (incidents : List Incident) (m : CorrelationMatch)
    → find_match signal incidents edges ≡ some m
    → Candidate signal edges incidents m
unfolding find_match
find_match-Candidate signal edges incidents m h =
    candidates-Candidate signal edges incidents m (best-Has (candidates signal edges incidents) m h)
