-- ===== src/Detectors/Samples.antt =====
-- With checked settings the rolling detector has samples enough to divide by their number.
use aiops_control_lab.Base.{
  ◌≡◌, refl, arith, inl, inr, Bool-cases, ℕ, ◌≤◌, List, [], ◌∷◌, map, length, is_empty, ltb, ok,
  false, Float, float_le,
}
use aiops_control_lab.Domain.Monitoring.{DetectionResult}
use aiops_control_lab.Detectors.{
  Statistics, Settings, rolling_settings, mean_of, variance_of, rolling_result, detect_rolling,
}

minimum :
    (threshold : Float) (n : ℕ) (c : Settings)
    → rolling_settings threshold n ≡ ok c
    → 2 ≤ c.minimum_samples
unfolding rolling_settings
minimum threshold n c h = elim (Bool-cases (float_le threshold 0)) [
  | inl low ↦ absurd (ground (arith, low))
  | inr fine ↦ ground (arith, fine)
]

is_empty-map : {A B : Type 0} (f : A → B) (xs : List A) → is_empty (map f xs) ≡ is_empty xs
is_empty-map f [] = refl
is_empty-map f (x ∷ xs) = refl

enough : (n : ℕ) (xs : List Float) → 2 ≤ n → ltb (length xs) n ≡ false → is_empty xs ≡ false
enough n [] h e = ground arith
enough n (x ∷ xs) h e = refl

mean_of_returns :
    (o : Statistics) (xs : List Float)
    → is_empty xs ≡ false
    → ((ys : List Float) → (total : Float) × (o.fsum ys ≡ ok total))
    → (mean : Float) × (mean_of o xs ≡ ok mean)
unfolding mean_of
mean_of_returns o xs some_x sums =
    let (total, e) = sums xs in
    (o.floats.div total (o.floats.of_int (length xs)), rw (some_x, e) refl)

-- A rolling detector that was constructed returns a result for every history and value, if `fsum`
-- returns.
detect_rolling_returns :
    (o : Statistics) (threshold : Float) (n : ℕ) (c : Settings) (history : List Float)
    (current : Float)
    → rolling_settings threshold n ≡ ok c
    → ((ys : List Float) → (total : Float) × (o.fsum ys ≡ ok total))
    → (r : DetectionResult) × (detect_rolling o c history current ≡ ok r)
unfolding detect_rolling variance_of
detect_rolling_returns o threshold n c history current built sums =
    elim (Bool-cases (ltb (length history) c.minimum_samples)) [
      | inl few ↦ (record { anomalous = false; score = 0; reason = "历史样本不足，暂不进行异常判断" }, rw few refl)
      | inr many ↦
          let filled = enough c.minimum_samples history (minimum threshold n c built) many in
          let (mean, e) = mean_of_returns o history filled sums in
          let (variance, k) =
            mean_of_returns o (map (λ value. o.square (o.floats.sub value mean)) history)
              (rw (is_empty-map (λ value. o.square (o.floats.sub value mean)) history) filled)
              sums in
          (rolling_result o c current mean (o.sqrt variance), rw (many, e) (rw k refl))
    ]
