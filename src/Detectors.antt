-- ===== src/Detectors.antt =====
-- adapters/rolling_zscore.py, adapters/ewma_detector.py and adapters/seasonal_detector.py: a value
-- against the mean and the deviation of its history.
pub mod Samples
use Prim.Native.String.{◌++◌}
use aiops_control_lab.Base.{
  ℕ, String, Bool, true, false, not, ◌&&◌, List, [], ◌∷◌, map, length, is_empty, ltb, leb, Result,
  ok, err, value_error, zero_division, index_error, Float, FloatOps, float_lt, float_le, float_eq,
  float_max, infinity, magnitude, if◌then◌else◌,
}
use aiops_control_lab.Results.{◌>>=◌}
use aiops_control_lab.Domain.Monitoring.{DetectionResult}

-- The arithmetic, with `math.fsum`, which raises for infinite parts that cancel, `x ** 2` and
-- `math.sqrt`, of a number that is not negative.
pub record Statistics : Type 0 where
  pub floats : FloatOps
  pub fsum : List Float → Result Float
  pub square : Float → Float
  pub sqrt : Float → Float

-- What the detectors are constructed with. `SeasonalBaselineDetector` has no checks.
pub record Settings : Type 0 where
  pub threshold : Float
  pub minimum_samples : ℕ

unfoldable pub rolling_settings : Float → ℕ → Result Settings
rolling_settings threshold minimum_samples =
    if float_le threshold 0
    then err value_error
    else if ltb minimum_samples 2
    then err value_error
    else ok (record { threshold = threshold; minimum_samples = minimum_samples })

pub record EwmaSettings : Type 0 where
  pub alpha : Float
  pub threshold : Float
  pub minimum_samples : ℕ

unfoldable pub ewma_settings : Float → Float → ℕ → Result EwmaSettings
ewma_settings alpha threshold minimum_samples =
    if not (float_lt 0 alpha && float_le alpha 0x3ff0_0000_0000_0000)
    then err value_error
    else if float_le threshold 0
    then err value_error
    else ok (record { alpha = alpha; threshold = threshold; minimum_samples = minimum_samples })

abbrev pub detection : Bool → Float → String → DetectionResult
detection anomalous score reason = record { anomalous = anomalous; score = score; reason = reason }

-- Where the deviation is zero, any other value than the mean is an anomaly.
unfoldable pub against_stable : Float → Float → String → String → DetectionResult
against_stable mean current changed same =
    if float_eq current mean then detection false 0 same else detection true infinity changed

module _ (o : Statistics) where
  -- `fsum(values) / len(values)`, where the sum of no values is 0.0
  unfoldable pub mean_of : List Float → Result Float
  mean_of values =
      if is_empty values
      then err zero_division
      else o.fsum values >>= λ total. ok (o.floats.div total (o.floats.of_int (length values)))

  -- `fsum((value - mean) ** 2 for value in history) / len(history)`
  unfoldable pub variance_of : Float → List Float → Result Float
  unfolding mean_of
  variance_of mean values = mean_of (map (λ value. o.square (o.floats.sub value mean)) values)

  -- `abs(current - mean) / deviation`; `abs` clears the sign.
  unfoldable pub score_of : Float → Float → Float → Float
  score_of current mean deviation = o.floats.div (magnitude (o.floats.sub current mean)) deviation

  abbrev pub direction : Float → Float → String
  direction current mean = if float_lt mean current then "高于" else "低于"

  unfoldable pub rolling_result : Settings → Float → Float → Float → DetectionResult
  unfolding against_stable score_of
  rolling_result c current mean deviation =
      if float_eq deviation 0
      then against_stable mean current "稳定基线发生变化" "当前值与稳定基线一致"
      else detection (float_le c.threshold (score_of current mean deviation))
          (score_of current mean deviation)
          ("当前值"
            ++ (direction current mean
                ++ ("历史均值，Z-Score=" ++ o.floats.two_places (score_of current mean deviation))))

  -- `RollingZScoreDetector.detect`
  unfoldable pub detect_rolling : Settings → List Float → Float → Result DetectionResult
  unfolding mean_of variance_of rolling_result
  detect_rolling c history current =
      if ltb (length history) c.minimum_samples
      then ok (detection false 0 "历史样本不足，暂不进行异常判断")
      else mean_of history >>= λ mean. variance_of mean history >>= λ variance.
          ok (rolling_result c current mean (o.sqrt variance))

  unfoldable pub seasonal_result : Settings → Float → Float → Float → DetectionResult
  unfolding against_stable score_of
  seasonal_result c current mean deviation =
      if float_eq deviation 0
      then against_stable mean current "同季节稳定基线发生变化" "当前值符合季节基线"
      else detection (float_le c.threshold (score_of current mean deviation))
          (score_of current mean deviation)
          ("当前值相对同季节基线偏离 " ++ (o.floats.two_places (score_of current mean deviation) ++ " 个标准差"))

  -- `SeasonalBaselineDetector.detect`
  unfoldable pub detect_seasonal : Settings → List Float → Float → Result DetectionResult
  unfolding mean_of variance_of seasonal_result
  detect_seasonal c history current =
      if ltb (length history) c.minimum_samples
      then ok (detection false 0 "同季节样本不足")
      else mean_of history >>= λ mean. variance_of mean history >>= λ variance.
          ok (seasonal_result c current mean (o.sqrt variance))

  -- the loop over `history[1:]`, with the mean and the variance so far
  unfoldable pub ewma_baseline : Float → Float → Float → List Float → Float × Float
  ewma_baseline alpha mean variance [] = (mean, variance)
  ewma_baseline alpha mean variance (value ∷ values) =
      let f = o.floats in
      let residual = f.sub value mean in
      ewma_baseline alpha (f.add mean (f.mul alpha residual))
        (f.mul (f.sub 0x3ff0_0000_0000_0000 alpha)
          (f.add variance (f.mul (f.mul alpha residual) residual)))
        values

  unfoldable pub ewma_result : EwmaSettings → Float → Float → Float → DetectionResult
  unfolding against_stable score_of
  ewma_result c current mean deviation =
      if float_eq deviation 0
      then against_stable mean current "EWMA 稳定基线发生变化" "当前值与 EWMA 基线一致"
      else detection (float_le c.threshold (score_of current mean deviation))
          (score_of current mean deviation)
          ("当前值"
            ++ (direction current mean
                ++ (" EWMA 基线，标准化残差=" ++ o.floats.two_places (score_of current mean deviation))))

  -- from the first sample on; `history[0]` of an empty history raises `IndexError`.
  unfoldable pub ewma_from : EwmaSettings → List Float → Float → Result DetectionResult
  unfolding ewma_baseline ewma_result
  ewma_from c [] current = err index_error
  ewma_from c (x ∷ values) current =
      let (mean, variance) = ewma_baseline c.alpha x 0 values in
      ok (ewma_result c current mean (o.sqrt (float_max variance 0)))

  -- `EWMADetector.detect`
  unfoldable pub detect_ewma : EwmaSettings → List Float → Float → Result DetectionResult
  unfolding ewma_from
  detect_ewma c history current =
      if ltb (length history) c.minimum_samples
      then ok (detection false 0 "历史样本不足，暂不进行 EWMA 判断")
      else ewma_from c history current
