-- ===== src/Evaluation/Totals.antt =====
-- What an evaluation reports, from the input to the quotients.
use aiops_control_lab.Base.{
  refl, ap, Error, value_error, max, length-take, ◌≢◌, ◌⊎◌, ◌<◌, false, ◌≤◌, ◌≡◌, ℕ, ◌+◌, ltb, leb,
  nat_eq, Bool, Bool-cases, true, ◌||◌, String, inl, inr, List, ◌++◌, length, take, drop, take-drop,
  length-drop, Float, FloatOps, arith, Result, ok, err,
}
use aiops_control_lab.Domain.Monitoring.{DetectionResult}
use aiops_control_lab.Evaluation.{DetectorEvaluation, Tally, no_tally, report, metrics_of, evaluate}
use aiops_control_lab.Evaluation.Tallies.{Judged, cell, finite_scores, Tallies, tally_all-Tallies}

module _ (o : FloatOps) (detect : List Float → Float → Result DetectionResult) where
  -- What an evaluation reports: `history` are the first values, and `rest` those that were judged.
  pub record Evaluated (values : List Float) (labels : List Bool) (size : ℕ)
      (e : DetectorEvaluation) : Type 0 where
    pub history : List Float
    pub rest : List Float
    pub values_parts : history ++ rest ≡ values
    pub history_long : length history ≡ size
    pub unused : List Bool
    pub truths : List Bool
    pub labels_parts : unused ++ truths ≡ labels
    pub unused_long : length unused ≡ size
    pub results : List DetectionResult
    pub answers : Judged detect size history rest truths results
    pub true_positive : e.metrics.true_positive ≡ cell true true results truths
    pub false_positive : e.metrics.false_positive ≡ cell true false results truths
    pub true_negative : e.metrics.true_negative ≡ cell false false results truths
    pub false_negative : e.metrics.false_negative ≡ cell false true results truths
    pub precision :
        e.metrics.precision
        ≡ o.div
            (o.of_int e.metrics.true_positive)
            (o.of_int (max (e.metrics.true_positive + e.metrics.false_positive) 1))
    pub recall :
        e.metrics.recall
        ≡ o.div
            (o.of_int e.metrics.true_positive)
            (o.of_int (max (e.metrics.true_positive + e.metrics.false_negative) 1))
    pub false_positive_rate :
        e.metrics.false_positive_rate
        ≡ o.div
            (o.of_int e.metrics.false_positive)
            (o.of_int (max (e.metrics.false_positive + e.metrics.true_negative) 1))
    pub average :
        e.average_score
        ≡ o.div (o.sum (finite_scores results)) (o.of_int (max (length (finite_scores results)) 1))

  -- The input is unusable, or the detector has raised.
  abbrev pub Fails : List Float → List Bool → ℕ → Error → Type 0
  Fails values labels size e =
      ((e ≡ value_error)
        × ((length values ≢ length labels) ⊎ ((size < 2) ⊎ (length values ≤ size))))
      ⊎ ((window : List Float) × (x : Float) × (detect window x ≡ err e))

  unfoldable pub Accounts : List Float → List Bool → ℕ → Result DetectorEvaluation → Type 0
  Accounts values labels size (ok e) = Evaluated values labels size e
  Accounts values labels size (err e) = Fails values labels size e

  report-Accounts :
      (name version : String) (values : List Float) (labels : List Bool) (size : ℕ)
      (r : Result Tally)
      → size ≤ length values
      → length values ≡ length labels
      → Tallies detect size (take size values) (drop size values) (drop size labels) no_tally r
      → Accounts values labels size (report o name version r)
  unfolding report metrics_of Tallies Accounts
  report-Accounts name version values labels size (ok t) enough same h = record {
    history = take size values;
    rest = drop size values;
    values_parts = take-drop size values;
    history_long = ground (arith, length-take size values, enough);
    unused = take size labels;
    truths = drop size labels;
    labels_parts = take-drop size labels;
    unused_long = ground (arith, length-take size labels, enough, same);
    results = h.results;
    answers = h.answers;
    true_positive = omega (arith, h.tp);
    false_positive = omega (arith, h.fp);
    true_negative = omega (arith, h.tn);
    false_negative = omega (arith, h.fn);
    precision = refl;
    recall = refl;
    false_positive_rate = refl;
    average = ap (λ l. o.div (o.sum l) (o.of_int (max (length l) 1))) h.scores;
  }
  report-Accounts name version values labels size (err e) enough same h = inr h

  -- An evaluation that returns has asked the detector about every value after the first `size`, each
  -- with exactly the `size` values before it. Each cell of its confusion matrix is the number of these
  -- values with the cell's verdict and label; precision, recall and false positive rate are the quotients
  -- of the cells, and the average is over the finite scores. It raises only
  -- if there are not as many labels as values, if the window or the values are too few, or if the
  -- detector raises.
  pub evaluate-Accounts :
      (name : String) (values : List Float) (labels : List Bool) (size : ℕ) (version : String)
      → Accounts values labels size (evaluate o name detect values labels size version)
  unfolding evaluate Accounts
  evaluate-Accounts name values labels size version =
      elim (Bool-cases (nat_eq (length values) (length labels))) [
        | inr unlike ↦ rw unlike (inl (refl, inl (λ same. ground (arith, unlike, same))))
        | inl alike ↦ elim (Bool-cases (ltb size 2 || leb (length values) size)) [
          | inl short ↦ rw (alike, short) (inl (refl, inr (ground (arith, short))))
          | inr long ↦
              let enough : size ≤ length values = ground (arith, long) in
              let same : length values ≡ length labels = ground (arith, alike) in
              rw (alike, long)
                (report-Accounts name version values labels size _ enough same (
                  tally_all-Tallies detect size (take size values) (drop size values)
                    (drop size labels) no_tally (ground (arith, length-take size values, enough))
                    (omega (arith, same, length-drop size values, length-drop size labels))))
        ]
      ]
