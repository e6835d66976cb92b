-- ===== src/Sre.antt =====
-- application/slo_service.py, application/change_risk_service.py and domain/sre.py: the error budget
-- of a service, and the risk of a change. Event and component counts are not negative.
pub mod Capacity
use aiops_control_lab.Base.{
  ℕ, ◌-◌, String, Bool, true, false, not, ◌&&◌, ◌||◌, Option, List, [], ◌∷◌, ◌++◌, is_empty, leb,
  ltb, nat_eq, Result, ok, err, value_error, zero_division, Float, FloatOps, float_lt, float_le,
  float_eq, float_max, float_min, float_one, if◌then◌else◌,
}
use aiops_control_lab.Results.{◌>>=◌}
use aiops_control_lab.Domain.Models.{Time}

pub record SloDefinition : Type 0 where
  pub id : String
  pub name : String
  pub objective : Float
  pub window_days : ℕ

pub record ErrorBudgetStatus : Type 0 where
  pub sli : Float
  pub bad_events : ℕ
  pub allowed_bad_events : Float
  pub remaining_ratio : Float
  pub burn_rate : Float
  pub state : String

pub record CapacityPoint : Type 0 where
  pub occurred_at : Time
  pub value : Float

pub record CapacityForecast : Type 0 where
  pub slope_per_hour : Float
  pub r_squared : Float
  pub threshold : Float
  pub estimated_exhaustion_at : Option Time
  pub state : String

pub record ChangeRiskInput : Type 0 where
  pub blast_radius : Float
  pub recent_incident_rate : Float
  pub changed_components : ℕ
  pub rollback_ready : Bool

pub record ChangeRiskAssessment : Type 0 where
  pub score : Float
  pub level : String
  pub reasons : List String

-- at least 14.4, at least 6, more than 1
unfoldable pub budget_state : Float → String
budget_state burn_rate =
    if float_le 0x402c_cccc_cccc_cccd burn_rate
    then "critical"
    else if float_le 0x4018_0000_0000_0000 burn_rate
    then "fast_burn"
    else if float_lt float_one burn_rate
    then "over_budget_rate"
    else "healthy"

-- `0 <= x <= 1`
abbrev pub is_share : Float → Bool
is_share x = float_le 0 x && float_le x float_one

unfoldable pub reasons_of : ChangeRiskInput → List String
reasons_of change =
    (if float_le 0x3fe3_3333_3333_3333 change.blast_radius then "变更影响范围较大" ∷ [] else [])
    ++ ((if float_le 0x3fd9_9999_9999_999a change.recent_incident_rate
          then "相关服务近期故障率较高" ∷ []
          else [])
        ++ ((if leb 5 change.changed_components then "单次变更涉及多个组件" ∷ [] else [])
            ++ (if not change.rollback_ready then "缺少已验证回滚方案" ∷ [] else [])))

unfoldable pub level_of : Float → String
level_of score =
    if float_le 0x3fe6_6666_6666_6666 score
    then "high"
    else if float_le 0x3fd9_9999_9999_999a score
    then "medium"
    else "low"

module _ (o : FloatOps) where
  -- a quotient of floats, which raises for a zero
  abbrev pub over : Float → Float → Result Float
  over a b = if float_eq b 0 then err zero_division else ok (o.div a b)

  unfoldable pub budget : SloDefinition → ℕ → ℕ → Float → Float → ErrorBudgetStatus
  unfolding budget_state
  budget definition good_events total_events consumed_ratio burn_rate = record {
    sli = o.quotient good_events total_events;
    bad_events = total_events - good_events;
    allowed_bad_events = o.mul (o.of_int total_events) (o.sub float_one definition.objective);
    remaining_ratio = float_max (o.sub float_one consumed_ratio) 0;
    burn_rate = burn_rate;
    state = budget_state burn_rate;
  }

  -- `SLOService.calculate`
  unfoldable pub calculate : SloDefinition → ℕ → ℕ → Result ErrorBudgetStatus
  unfolding budget
  calculate definition good_events total_events =
      if not (float_lt 0 definition.objective && float_lt definition.objective float_one)
      then err value_error
      else if nat_eq total_events 0 || ltb total_events good_events
      then err value_error
      else over (o.of_int (total_events - good_events))
          (o.mul (o.of_int total_events) (o.sub float_one definition.objective))
        >>= λ consumed_ratio.
            over (o.quotient (total_events - good_events) total_events)
              (o.sub float_one definition.objective)
            >>= λ burn_rate.
                ok (budget definition good_events total_events consumed_ratio burn_rate)

  -- 0.35, 0.25, 0.20 and 0.20
  unfoldable pub risk_score : ChangeRiskInput → Float
  risk_score change =
      let scope_score = float_min (o.quotient change.changed_components 10) float_one in
      let rollback_score : Float = if change.rollback_ready then 0 else float_one in
      o.add
        (o.add
          (o.add (o.mul 0x3fd6_6666_6666_6666 change.blast_radius)
            (o.mul 0x3fd0_0000_0000_0000 change.recent_incident_rate))
          (o.mul 0x3fc9_9999_9999_999a scope_score))
        (o.mul 0x3fc9_9999_9999_999a rollback_score)

  abbrev pub or_none_found : List String → List String
  or_none_found reasons = if is_empty reasons then "未发现显著风险特征" ∷ [] else reasons

  -- `ChangeRiskService.assess`
  unfoldable pub assess : ChangeRiskInput → Result ChangeRiskAssessment
  unfolding risk_score level_of reasons_of
  assess change =
      if not (is_share change.blast_radius)
      then err value_error
      else if not (is_share change.recent_incident_rate)
      then err value_error
      else if ltb change.changed_components 1
      then err value_error
      else ok (record {
        score = risk_score change;
        level = level_of (risk_score change);
        reasons = or_none_found (reasons_of change);
      })
