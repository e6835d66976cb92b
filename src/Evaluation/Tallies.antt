-- ===== src/Evaluation/Tallies.antt =====
-- What an evaluation counts: the detector's answers on the windows before the values.
use aiops_control_lab.Base.{
  refl, sym, ap, false, ◌∙◌, map, keep, length-append, not, ◌&&◌, float_eq, ◌≤◌, if◌then◌else◌, ◌≡◌,
  ℕ, ◌+◌, ◌-◌, Bool, Bool-cases, true, inl, inr, List, [], ◌∷◌, ◌++◌, length, take, drop, take-drop,
  length-drop, Float, arith, Result, Result-cases, ok, err,
}
use mathlib.Core.List.{append_assoc, append-nil}
use aiops_control_lab.Domain.Monitoring.{DetectionResult}
use aiops_control_lab.Evaluation.{Tally, add_score, tally_one, tally_all}

-- The detector's answers for values in turn: for each, on the last `size` values before it.
module _ (detect : List Float → Float → Result DetectionResult) (size : ℕ) where
  pub data Judged : List Float → List Float → List Bool → List DetectionResult → Type 0 where
    finished : {before : List Float} → Judged before [] [] []
    judged :
        {before xs : List Float} {labels : List Bool} {results : List DetectionResult} {x : Float}
        {truth : Bool} (older window : List Float) (result : DetectionResult)
        → older ++ window ≡ before
        → length window ≡ size
        → detect window x ≡ ok result
        → Judged (before ++ (x ∷ [])) xs labels results
        → Judged before (x ∷ xs) (truth ∷ labels) (result ∷ results)

abbrev agrees : Bool → Bool → Bool
agrees true b = b
agrees false b = not b

-- How many values have a verdict and a label: one cell of the confusion matrix.
abbrev pub cell : Bool → Bool → List DetectionResult → List Bool → ℕ
cell verdict label [] labels = 0
cell verdict label (result ∷ results) [] = 0
cell verdict label (result ∷ results) (truth ∷ labels) =
    (if agrees verdict result.anomalous && agrees label truth then 1 else 0)
    + cell verdict label results labels

-- The scores that are not infinite.
abbrev pub finite_scores : List DetectionResult → List Float
finite_scores results =
    keep (λ score. not (float_eq score 0x7ff0_0000_0000_0000))
      (map (λ result. result.score) results)

abbrev one_if : Bool → ℕ
one_if b = if b then 1 else 0

-- A value raises the counter of its cell, and its score is kept unless it is infinite.
tally_one_cells :
    (result : DetectionResult) (truth : Bool) (t : Tally)
    → ((tally_one result truth t).tp ≡ t.tp + one_if (result.anomalous && truth))
      × ((tally_one result truth t).fp ≡ t.fp + one_if (result.anomalous && not truth))
      × ((tally_one result truth t).tn ≡ t.tn + one_if (not result.anomalous && not truth))
      × ((tally_one result truth t).fn ≡ t.fn + one_if (not result.anomalous && truth))
      × ((tally_one result truth t).scores ≡ add_score result.score t.scores)
unfolding tally_one
tally_one_cells result truth t = elim (Bool-cases result.anomalous) [
  | inl odd ↦ elim (Bool-cases truth) [
    | inl yes_truth ↦ rw (odd, yes_truth) (omega arith, omega arith, omega arith, omega arith, refl)
    | inr no_truth ↦ rw (odd, no_truth) (omega arith, omega arith, omega arith, omega arith, refl)
  ]
  | inr normal ↦ elim (Bool-cases truth) [
    | inl yes_truth ↦
        rw (normal, yes_truth) (omega arith, omega arith, omega arith, omega arith, refl)
    | inr no_truth ↦
        rw (normal, no_truth) (omega arith, omega arith, omega arith, omega arith, refl)
  ]
]

finite_scores-cons :
    (result : DetectionResult) (results : List DetectionResult) (scores : List Float)
    → add_score result.score scores ++ finite_scores results
      ≡ scores ++ finite_scores (result ∷ results)
finite_scores-cons result results scores =
    elim (Bool-cases (float_eq result.score 0x7ff0_0000_0000_0000)) [
      | inl infinite ↦ rw infinite refl
      | inr finite ↦ rw finite (append_assoc scores (result.score ∷ []) (finite_scores results))
    ]

module _ (detect : List Float → Float → Result DetectionResult) (size : ℕ) where
  pub record Tallied (before xs : List Float) (labels : List Bool) (t u : Tally) : Type 0 where
    pub results : List DetectionResult
    pub answers : Judged detect size before xs labels results
    pub tp : u.tp ≡ t.tp + cell true true results labels
    pub fp : u.fp ≡ t.fp + cell true false results labels
    pub tn : u.tn ≡ t.tn + cell false false results labels
    pub fn : u.fn ≡ t.fn + cell false true results labels
    pub scores : u.scores ≡ t.scores ++ finite_scores results

  -- The loop has counted the detector's answers, or the detector has raised.
  unfoldable pub Tallies : List Float → List Float → List Bool → Tally → Result Tally → Type 0
  Tallies before xs labels t (ok u) = Tallied before xs labels t u
  Tallies before xs labels t (err e) =
      (window : List Float) × (x : Float) × (detect window x ≡ err e)

  Tallies-cons :
      (before xs : List Float) (labels : List Bool) (x : Float) (truth : Bool) (t : Tally)
      (result : DetectionResult)
      → size ≤ length before
      → detect (drop (length before - size) before) x ≡ ok result
      → (out : Result Tally) → Tallies (before ++ (x ∷ [])) xs labels (tally_one result truth t) out
      → Tallies before (x ∷ xs) (truth ∷ labels) t out
  unfolding Tallies tally_one
  Tallies-cons before xs labels x truth t result enough answered (ok u) h = record {
    results = result ∷ h.results;
    answers =
        judged (take (length before - size) before) (drop (length before - size) before) result
          (take-drop (length before - size) before)
          (omega (arith, length-drop (length before - size) before, enough)) answered h.answers;
    tp = omega (arith, h.tp, (tally_one_cells result truth t).0);
    fp = omega (arith, h.fp, (tally_one_cells result truth t).1);
    tn = omega (arith, h.tn, (tally_one_cells result truth t).2);
    fn = omega (arith, h.fn, (tally_one_cells result truth t).3);
    scores =
        h.scores
        ∙ ap (λ l. l ++ finite_scores h.results) (tally_one_cells result truth t).4
        ∙ finite_scores-cons result h.results t.scores;
  }
  Tallies-cons before xs labels x truth t result enough answered (err e) h = h

  pub tally_all-Tallies :
      (before xs : List Float) (labels : List Bool) (t : Tally)
      → size ≤ length before
      → length xs ≡ length labels
      → Tallies before xs labels t (tally_all detect size before xs labels t)
  unfolding tally_all Tallies
  tally_all-Tallies before [] [] t enough same = record {
    results = [];
    answers = finished;
    tp = omega arith;
    fp = omega arith;
    tn = omega arith;
    fn = omega arith;
    scores = sym (append-nil t.scores);
  }
  tally_all-Tallies before [] (truth ∷ labels) t enough same = absurd (omega (arith, same))
  tally_all-Tallies before (x ∷ xs) [] t enough same = absurd (omega (arith, same))
  tally_all-Tallies before (x ∷ xs) (truth ∷ labels) t enough same =
      elim (Result-cases (detect (drop (length before - size) before) x)) [
        | inl (result, answered) ↦
            rw (answered, tally_all)
              (Tallies-cons before xs labels x truth t result enough answered _ (
                tally_all-Tallies (before ++ (x ∷ [])) xs labels (tally_one result truth t)
                  (omega (arith, enough, length-append before (x ∷ []))) (omega (arith, same))))
        | inr (e, raised) ↦ rw (raised, tally_all) (drop (length before - size) before, x, raised)
      ]
