-- ===== src/App.antt =====
-- The state of the control-plane process, as its services share it (api/container.py), and what it
-- draws from the platform: random identifiers, the clock, the digest and the float arithmetic.
use aiops_control_lab.Base.{
  ◌==◌, eq_iff, Bool-cases, inl, inr, arith, ℕ, ◌+◌, ◌-◌, ◌*◌, String, Bool, List, Pairs, Float,
  FloatOps, Exec, Result, ok, err, date_overflow, ltb, if◌then◌else◌,
}
use Prim.Native.String.{◌++◌}
use mathlib.Core.Bool.{false}
use mathlib.Core.Path.{◌≡◌}
use text.Mathlib.TextLemmas.{append-eq-nil_iff}
use aiops_control_lab.Domain.Hash.{Digest}
use aiops_control_lab.Domain.Models.{Time, RemediationStep}
use aiops_control_lab.Domain.Monitoring.{LatestMetric}
use aiops_control_lab.Repository.{Repository}

-- The n-th `uuid4().hex`, and what the n-th reading of the UTC clock gives.
pub record Platform : Type 0 where
  pub uuid : ℕ → String
  pub clock : ℕ → Time
  pub digest : Digest
  pub floats : FloatOps

-- One call of `ActionDispatcher.execute`.
pub record Dispatched : Type 0 where
  pub step : RemediationStep
  pub approved_hash : String

-- `_RuleState` of application/monitoring_service.py
pub record RuleState : Type 0 where
  pub breach_streak : ℕ
  pub recovery_streak : ℕ
  pub alerting : Bool

-- `AgentMetricStore`: the latest value of each label set, and the last sequence of each instance.
pub record MetricStore : Type 0 where
  pub metrics : List LatestMetric
  pub sequences : Pairs ℕ

pub record App : Type 0 where
  pub repository : Repository
  pub metric_store : MetricStore
  pub rule_states : Pairs RuleState
  pub history : Pairs (List (Time × Float))
  -- how many identifiers were drawn and how often the clock was read
  pub drawn : ℕ
  pub ticks : ℕ
  -- the calls of the dispatcher so far, the last one first
  pub dispatched : List Dispatched

-- `new_id(prefix)`
unfoldable pub new_id : Platform → String → Exec App String
new_id p prefix s = (ok (prefix ++ "_" ++ p.uuid s.drawn), record s { drawn = s.drawn + 1 })

-- `utc_now()`
unfoldable pub utc_now : Platform → Exec App Time
utc_now p s = (ok (p.clock s.ticks), record s { ticks = s.ticks + 1 })

-- `datetime.max`
abbrev pub last_moment : Time
last_moment = 315_537_897_599_999_999

abbrev pub seconds : ℕ → ℕ
seconds n = n * 1_000_000

-- `t - timedelta` and `t + timedelta` raise `OverflowError` outside of the years 1 to 9999.
unfoldable pub earlier : Time → ℕ → Result Time
earlier t d = if ltb t d then err date_overflow else ok (t - d)

unfoldable pub later : Time → ℕ → Result Time
later t d = if ltb last_moment (t + d) then err date_overflow else ok (t + d)

-- A write to the repository.
abbrev pub store : (Repository → Repository) → Exec App (Unit {0})
store f s = (ok tt, record s { repository = f s.repository })

-- A new identifier is no empty text.
pub run_id-nonempty : (u : String) → (("run" ++ "_" ++ u) == "") ≡ false
run_id-nonempty u = elim (Bool-cases (("run" ++ "_" ++ u) == "")) [
  | inl blank ↦
      let start : String = "run" in
      let gone : start ≡ "" = (append-eq-nil_iff.0 ((eq_iff _ _).0 blank)).0 in
      absurd (ground (arith, eq_iff start "", gone))
  | inr text ↦ text
]
