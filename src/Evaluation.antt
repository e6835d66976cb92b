-- ===== src/Evaluation.antt =====
-- application/evaluation_service.py: a detector against labelled values.
pub mod Tallies
pub mod Totals
use aiops_control_lab.Base.{
  ◌≡◌, refl, sym, ap, ◌∙◌, ℕ, zero, suc, ◌+◌, ◌-◌, ◌≤◌, max, String, Bool, Bool-cases, true, false,
  not, ◌&&◌, ◌||◌, inl, inr, Option, none, some, List, [], ◌∷◌, ◌++◌, length, take, drop, leb, ltb,
  nat_eq, Float, FloatOps, float_eq, arith, Result, Result-cases, ok, err, value_error,
  if◌then◌else◌,
}
use aiops_control_lab.Domain.Monitoring.{DetectionResult}

pub record DetectorMetrics : Type 0 where
  pub true_positive : ℕ
  pub false_positive : ℕ
  pub true_negative : ℕ
  pub false_negative : ℕ
  pub precision : Float
  pub recall : Float
  pub false_positive_rate : Float

pub record DetectorEvaluation : Type 0 where
  pub detector_name : String
  pub dataset_version : String
  pub metrics : DetectorMetrics
  pub average_score : Float

-- The four counters and the scores of the loop.
pub record Tally : Type 0 where
  pub tp : ℕ
  pub fp : ℕ
  pub tn : ℕ
  pub fn : ℕ
  pub scores : List Float

abbrev pub no_tally : Tally
no_tally = record { tp = 0; fp = 0; tn = 0; fn = 0; scores = [] }

-- `scores.append(result.score)` unless the score is infinite
abbrev pub add_score : Float → List Float → List Float
add_score score scores =
    if not (float_eq score 0x7ff0_0000_0000_0000) then scores ++ (score ∷ []) else scores

-- the body of the loop, once the detector has answered
unfoldable pub tally_one : DetectionResult → Bool → Tally → Tally
tally_one result truth t =
    let u = record t { scores = add_score result.score t.scores } in
    if result.anomalous && truth
    then record u { tp = suc t.tp }
    else if result.anomalous && not truth
    then record u { fp = suc t.fp }
    else if not result.anomalous && truth
    then record u { fn = suc t.fn }
    else record u { tn = suc t.tn }

-- The loop: `before` are the values up to the current index, of which the last ones are the window.
unfoldable pub tally_all :
    (List Float → Float → Result DetectionResult)
    → ℕ
    → List Float
    → List Float
    → List Bool
    → Tally
    → Result Tally
unfolding tally_one
tally_all detect history_size before [] labels t = ok t
tally_all detect history_size before (x ∷ xs) [] t = ok t
tally_all detect history_size before (x ∷ xs) (truth ∷ labels) t =
    elim (detect (drop (length before - history_size) before) x) [
      | ok result ↦
          tally_all detect history_size (before ++ (x ∷ [])) xs labels (tally_one result truth t)
      | err e ↦ err e
    ]

module _ (o : FloatOps) where
  -- `a / b` of two integers
  abbrev pub ratio : ℕ → ℕ → Float
  ratio a b = o.div (o.of_int a) (o.of_int b)

  unfoldable pub metrics_of : Tally → DetectorMetrics
  metrics_of t = record {
    true_positive = t.tp;
    false_positive = t.fp;
    true_negative = t.tn;
    false_negative = t.fn;
    precision = ratio t.tp (max (t.tp + t.fp) 1);
    recall = ratio t.tp (max (t.tp + t.fn) 1);
    false_positive_rate = ratio t.fp (max (t.fp + t.tn) 1);
  }

  unfoldable pub report : String → String → Result Tally → Result DetectorEvaluation
  unfolding metrics_of
  report detector_name dataset_version (err e) = err e
  report detector_name dataset_version (ok t) = ok (record {
    detector_name = detector_name;
    dataset_version = dataset_version;
    metrics = metrics_of t;
    average_score = o.div (o.sum t.scores) (o.of_int (max (length t.scores) 1));
  })

  -- `DetectorEvaluationService.evaluate`
  unfoldable pub evaluate :
      String
      → (List Float → Float → Result DetectionResult)
      → List Float
      → List Bool
      → ℕ
      → String
      → Result DetectorEvaluation
  unfolding tally_all report
  evaluate detector_name detect values labels history_size dataset_version =
      if not (nat_eq (length values) (length labels))
      then err value_error
      else if ltb history_size 2 || leb (length values) history_size
      then err value_error
      else report detector_name dataset_version (
          tally_all detect history_size (take history_size values) (drop history_size values)
            (drop history_size labels) no_tally)
