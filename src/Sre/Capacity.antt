-- ===== src/Sre/Capacity.antt =====
-- application/capacity_forecast_service.py: the linear trend of a resource.
use aiops_control_lab.Base.{
  ◌-◌, String, Option, none, some, List, [], ◌∷◌, map, length, ltb, sorted, Result, ok, err,
  value_error, zero_division, Float, FloatOps, float_lt, float_le, float_eq, float_max, float_min,
  float_one, if◌then◌else◌,
}
use aiops_control_lab.Results.{◌>>=◌}
use aiops_control_lab.Domain.Models.{Time}
use aiops_control_lab.Sre.{CapacityPoint, CapacityForecast}

-- The arithmetic, with `fsum`, `x ** 2`, and the addition of `timedelta(hours=x)`, which may raise.
pub record Trend : Type 0 where
  pub floats : FloatOps
  pub fsum : List Float → Result Float
  pub square : Float → Float
  pub add_hours : Time → Float → Result Time

-- `[f(x, y) for x, y in zip(xs, ys)]`, of lists of one length
unfoldable pub zip_with : (Float → Float → Float) → List Float → List Float → List Float
zip_with f [] ys = []
zip_with f (x ∷ xs) [] = []
zip_with f (x ∷ xs) (y ∷ ys) = f x y ∷ zip_with f xs ys

-- `points[-1]` of a list that starts with `x`
unfoldable pub last_of : CapacityPoint → List CapacityPoint → CapacityPoint
last_of x [] = x
last_of x (y ∷ points) = last_of y points

module _ (o : Trend) where
  -- a quotient of floats, which raises for a zero
  abbrev pub over : Float → Float → Result Float
  over a b = if float_eq b 0 then err zero_division else ok (o.floats.div a b)

  -- `fsum(values) / len(values)`, of some values
  unfoldable pub average : List Float → Result Float
  average values =
      o.fsum values >>= λ total. ok (o.floats.div total (o.floats.of_int (length values)))

  -- `(occurred_at - origin).total_seconds() / 3600`
  unfoldable pub hours_since : Time → CapacityPoint → Float
  hours_since origin item =
      o.floats.div (o.floats.quotient (item.occurred_at - origin) 1_000_000) 0x40ac_2000_0000_0000

  -- `fsum((value - mean) ** 2 for value in values)`
  unfoldable pub spread : Float → List Float → Result Float
  spread mean values = o.fsum (map (λ value. o.square (o.floats.sub value mean)) values)

  unfoldable pub slope_of : Float → Float → List Float → List Float → Float → Result Float
  unfolding zip_with
  slope_of x_mean y_mean x_values y_values denominator =
      o.fsum (
        zip_with (λ x y. o.floats.mul (o.floats.sub x x_mean) (o.floats.sub y y_mean)) x_values
          y_values)
      >>= λ total. over total denominator

  -- `fsum((actual - predicted) ** 2 ...)`
  unfoldable pub residuals : Float → Float → List Float → List Float → Result Float
  unfolding zip_with
  residuals intercept slope x_values y_values = o.fsum (
      zip_with
        (λ actual x. o.square (o.floats.sub actual (o.floats.add intercept (o.floats.mul slope x))))
        y_values x_values)

  abbrev pub fit : Float → Float → Result Float
  fit residual_sum total_sum =
      if float_lt 0 total_sum
      then ok (o.floats.sub float_one (o.floats.div residual_sum total_sum))
      else ok float_one

  abbrev pub result : Float → Float → Float → Option Time → String → CapacityForecast
  result slope r_squared threshold exhaustion_at state = record {
    slope_per_hour = slope;
    r_squared = float_max (float_min r_squared float_one) 0;
    threshold = threshold;
    estimated_exhaustion_at = exhaustion_at;
    state = state;
  }

  -- from `latest` on; 0.6 is the least fit of a forecast.
  unfoldable pub outcome :
      Time → CapacityPoint → Float → Float → Float → Float → Result CapacityForecast
  outcome origin latest threshold slope intercept r_squared =
      if float_le threshold latest.value
      then ok (result slope r_squared threshold (some latest.occurred_at) "exhausted")
      else if float_le slope 0
      then ok (result slope r_squared threshold none "stable")
      else over (o.floats.sub threshold intercept) slope >>= λ threshold_hour.
          o.add_hours origin threshold_hour >>= λ exhaustion_at. ok (
            result slope r_squared threshold (some exhaustion_at)
              (if float_le 0x3fe3_3333_3333_3333 r_squared then "forecast" else "low_confidence"))

  unfoldable pub fit_points : CapacityPoint → List CapacityPoint → Float → Result CapacityForecast
  unfolding average hours_since spread slope_of residuals outcome last_of
  fit_points first_point others threshold =
      let ordered = first_point ∷ others in
      let origin = first_point.occurred_at in
      let x_values = map (hours_since origin) ordered in
      let y_values = map (λ (item : CapacityPoint). item.value) ordered in
      average x_values >>= λ x_mean. average y_values >>= λ y_mean.
      spread x_mean x_values >>= λ denominator.
      if float_eq denominator 0
      then err value_error
      else slope_of x_mean y_mean x_values y_values denominator >>= λ slope.
          let intercept = o.floats.sub y_mean (o.floats.mul slope x_mean) in
          residuals intercept slope x_values y_values >>= λ residual_sum.
          spread y_mean y_values >>= λ total_sum. fit residual_sum total_sum >>= λ r_squared.
          outcome origin (last_of first_point others) threshold slope intercept r_squared

  abbrev pub forecast_ordered : List CapacityPoint → Float → Result CapacityForecast
  forecast_ordered [] threshold = err value_error
  forecast_ordered (first_point ∷ others) threshold = fit_points first_point others threshold

  -- `CapacityForecastService.forecast`
  unfoldable pub forecast : List CapacityPoint → Float → Result CapacityForecast
  unfolding fit_points
  forecast points threshold =
      if ltb (length points) 3
      then err value_error
      else forecast_ordered (sorted (λ a b. ltb a.occurred_at b.occurred_at) points) threshold
