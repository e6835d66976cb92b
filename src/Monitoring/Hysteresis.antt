-- ===== src/Monitoring/Hysteresis.antt =====
-- When a rule alerts: the state that `_evaluate_one` keeps, against the samples that led to it.
use aiops_control_lab.Base.{
  ◌≡◌, refl, sym, ap, ◌∙◌, subst, ℕ, suc, ◌≤◌, ◌<◌, min, max, String, Bool, Bool-cases, true, false,
  not, inl, inr, ◌↔◌, List, [], ◌∷◌, ◌++◌, map, eq_refl, leb, le→leb, leb→le, arith, lookup_pair,
  lookup_pair-insert_pair, Float,
}
use aiops_control_lab.Domain.Models.{Time}
use aiops_control_lab.Domain.Monitoring.{MonitorRule}
use aiops_control_lab.App.{App, RuleState, new_id}
use aiops_control_lab.Monitoring.{
  MonitorEnv, advance, compare_value, evaluate_one, fresh_state, state_or_fresh,
}

-- How many of the latest samples agree with `b`, the latest one first.
abbrev pub streak : Bool → List Bool → ℕ
streak true (true ∷ bs) = suc (streak true bs)
streak false (false ∷ bs) = suc (streak false bs)
streak _ _ = 0

-- The longest run of normal samples.
abbrev pub longest_normal : List Bool → ℕ
longest_normal [] = 0
longest_normal (true ∷ bs) = longest_normal bs
longest_normal (false ∷ bs) = max (suc (streak false bs)) (longest_normal bs)

-- The state after some samples, the latest one first.
unfoldable pub state_of : ℕ → ℕ → List Bool → RuleState
unfolding advance
state_of c r [] = fresh_state
state_of c r (b ∷ bs) = advance c r b (state_of c r bs)

breach_streak-state_of :
    (c r : ℕ) (bs : List Bool) → (state_of c r bs).breach_streak ≡ streak true bs
unfolding state_of advance
breach_streak-state_of c r [] = refl
breach_streak-state_of c r (true ∷ bs) = ap suc (breach_streak-state_of c r bs)
breach_streak-state_of c r (false ∷ bs) = elim (Bool-cases (state_of c r bs).alerting) [
  | inl a ↦ rw a refl
  | inr a ↦ rw a refl
]

not-leb→lt : (r n : ℕ) → not (leb r n) ≡ true → n < r
not-leb→lt r n h = ground arith

lt→not-leb : (r n : ℕ) → n < r → not (leb r n) ≡ true
lt→not-leb r n h = ground arith

-- A normal sample leaves a rule alerting exactly if it alerted and has not recovered now.
alerting-normal :
    (c r : ℕ) (state : RuleState)
    → ((advance c r false state).alerting ≡ true)
      ↔ ((state.alerting ≡ true) × (suc state.recovery_streak < r))
unfolding advance
alerting-normal c r state = elim (Bool-cases state.alerting) [
  | inl a ↦ rw a (
    λ h. (refl, not-leb→lt r (suc state.recovery_streak) h),
    λ h. lt→not-leb r (suc state.recovery_streak) h.1,
  )
  | inr a ↦ rw a (λ h. absurd (cc h), λ h. absurd (cc (h.0)))
]

-- While a rule alerts, it has seen fewer normal samples in a row than it needs to recover.
abbrev Recovers : ℕ → RuleState → List Bool → Type 0
Recovers r state bs =
    (state.recovery_streak ≡ min (streak false bs) r)
    × (state.alerting ≡ true → state.recovery_streak < r)

state_of-Recovers : (c r : ℕ) (bs : List Bool) → 1 ≤ r → Recovers r (state_of c r bs) bs
unfolding state_of advance
state_of-Recovers c r [] pos = (ground arith, λ h. omega arith)
state_of-Recovers c r (true ∷ bs) pos = (ground arith, λ h. omega arith)
state_of-Recovers c r (false ∷ bs) pos =
    let (known, fewer) = state_of-Recovers c r bs pos in
    elim (Bool-cases (state_of c r bs).alerting) [
      | inl a ↦
          let less = fewer a in
          rw a (omega arith, λ h. not-leb→lt r (suc (state_of c r bs).recovery_streak) h)
      | inr a ↦ rw a (omega arith, λ h. absurd (ground arith))
    ]

-- Some samples before the last ones were a run of `c` breaches, and since then there was no run of `r`
-- normal samples.
abbrev pub Raised : ℕ → ℕ → List Bool → Type 0
Raised c r bs =
    (newer older : List Bool) × (bs ≡ newer ++ older)
    × (c ≤ streak true older)
    × (longest_normal newer < r)

normal_since :
    (c : ℕ) (newer older : List Bool)
    → 1 ≤ c
    → c ≤ streak true older
    → streak false (newer ++ older) ≡ streak false newer
normal_since c [] [] pos run = refl
normal_since c [] (true ∷ bs) pos run = refl
normal_since c [] (false ∷ bs) pos run = absurd (omega arith)
normal_since c (true ∷ bs) older pos run = refl
normal_since c (false ∷ bs) older pos run = ap suc (normal_since c bs older pos run)

streak-longest_normal : (bs : List Bool) → streak false bs ≤ longest_normal bs
streak-longest_normal [] = omega arith
streak-longest_normal (true ∷ bs) = omega arith
streak-longest_normal (false ∷ bs) = omega arith

Raised-alerting :
    (c r : ℕ) (newer older : List Bool)
    → 1 ≤ c
    → 1 ≤ r
    → c ≤ streak true older
    → longest_normal newer < r
    → (state_of c r (newer ++ older)).alerting ≡ true
unfolding state_of advance
Raised-alerting c r [] [] pos one run less = absurd (omega arith)
Raised-alerting c r [] (false ∷ bs) pos one run less = absurd (omega arith)
Raised-alerting c r [] (true ∷ bs) pos one run less =
    let known = breach_streak-state_of c r bs in
    rw (le→leb c (suc (state_of c r bs).breach_streak) (omega arith)) refl
Raised-alerting c r (true ∷ bs) older pos one run less =
    let known = Raised-alerting c r bs older pos one run less in ground (arith, known)
Raised-alerting c r (false ∷ bs) older pos one run less =
    let known = Raised-alerting c r bs older pos one run (omega arith) in
    let (count, fewer) = state_of-Recovers c r (bs ++ older) one in
    let since = normal_since c bs older pos run in
    (alerting-normal c r (state_of c r (bs ++ older))).1 (known, omega arith)

alerting-Raised :
    (c r : ℕ) (bs : List Bool) → 1 ≤ c → 1 ≤ r → (state_of c r bs).alerting ≡ true → Raised c r bs
unfolding state_of advance
alerting-Raised c r [] pos one h = absurd (ground arith)
alerting-Raised c r (true ∷ bs) pos one h =
    let known = breach_streak-state_of c r bs in
    elim (Bool-cases (leb c (suc (state_of c r bs).breach_streak))) [
      | inl enough ↦
          let le = leb→le c (suc (state_of c r bs).breach_streak) enough in
          ([], true ∷ bs, refl, omega arith, omega arith)
      | inr few ↦
          let (newer, older, split, run, less) = alerting-Raised c r bs pos one (ground arith) in
          (true ∷ newer, older, ap (λ l. true ∷ l) split, run, less)
    ]
alerting-Raised c r (false ∷ bs) pos one h =
    let (count, fewer) = state_of-Recovers c r bs one in
    let (was, less_now) = (alerting-normal c r (state_of c r bs)).0 h in
    let (newer, older, split, run, less) = alerting-Raised c r bs pos one was in
    let since = normal_since c newer older pos run in
    let same : streak false bs ≡ streak false newer = ap (streak false) split ∙ since in
    (false ∷ newer, older, ap (λ l. false ∷ l) split, run, omega arith)

-- What the service keeps for a rule and an asset.
unfoldable pub state_in : MonitorRule → String → App → RuleState
state_in rule asset_id s = state_or_fresh (lookup_pair rule.id asset_id s.rule_states)

-- The calls of `_evaluate_one` for the samples of an asset, the latest one first.
unfoldable pub feed : MonitorEnv → MonitorRule → String → List (Float × Time) → App → App
feed env rule asset_id [] s = s
feed env rule asset_id (x ∷ xs) s =
    (evaluate_one env rule asset_id x.0 x.1 (feed env rule asset_id xs s)).1

unfoldable pub breaches : MonitorRule → List (Float × Time) → List Bool
breaches rule = map (λ x. compare_value x.0 rule.operator rule.threshold)

evaluate_one-state_in :
    (env : MonitorEnv) (rule : MonitorRule) (asset_id : String) (value : Float) (now : Time)
    (s : App)
    → state_in rule asset_id (evaluate_one env rule asset_id value now s).1
      ≡ advance rule.consecutive_cycles rule.recovery_cycles
          (compare_value value rule.operator rule.threshold)
          (state_in rule asset_id s)
unfolding state_in evaluate_one new_id
evaluate_one-state_in env rule asset_id value now s =
    rw
      (
        lookup_pair-insert_pair rule.id asset_id rule.id asset_id _ s.rule_states,
        eq_refl rule.id,
        eq_refl asset_id,
      )
      refl

feed-state_in :
    (env : MonitorEnv) (rule : MonitorRule) (asset_id : String) (xs : List (Float × Time)) (s : App)
    → state_in rule asset_id s ≡ fresh_state
    → state_in rule asset_id (feed env rule asset_id xs s)
      ≡ state_of rule.consecutive_cycles rule.recovery_cycles (breaches rule xs)
unfolding feed state_of breaches
feed-state_in env rule asset_id [] s fresh = fresh
feed-state_in env rule asset_id (x ∷ xs) s fresh =
    evaluate_one-state_in env rule asset_id x.0 x.1 (feed env rule asset_id xs s)
    ∙ ap
        (advance rule.consecutive_cycles rule.recovery_cycles
          (compare_value x.0 rule.operator rule.threshold))
        (feed-state_in env rule asset_id xs s fresh)

-- After the samples of an asset, from a fresh state and with both numbers of cycles at least one, the
-- rule alerts exactly if at some time its last `consecutive_cycles` samples were all breaches and since
-- then there was no run of `recovery_cycles` normal samples.
pub alerting_iff_Raised :
    (env : MonitorEnv) (rule : MonitorRule) (asset_id : String) (xs : List (Float × Time)) (s : App)
    → state_in rule asset_id s ≡ fresh_state
    → 1 ≤ rule.consecutive_cycles
    → 1 ≤ rule.recovery_cycles
    → ((state_in rule asset_id (feed env rule asset_id xs s)).alerting ≡ true)
      ↔ Raised rule.consecutive_cycles rule.recovery_cycles (breaches rule xs)
alerting_iff_Raised env rule asset_id xs s fresh pos one =
    rw (feed-state_in env rule asset_id xs s fresh) (
      λ h.
          alerting-Raised rule.consecutive_cycles rule.recovery_cycles (breaches rule xs) pos one h,
      λ (newer, older, split, run, less).
          subst (λ bs. (state_of rule.consecutive_cycles rule.recovery_cycles bs).alerting ≡ true)
            (sym split)
            (Raised-alerting rule.consecutive_cycles rule.recovery_cycles newer older pos one run
              less),
    )

-- After the samples of an asset, from a fresh state and with at least one cycle to recover, the breach
-- streak is the number of the latest samples that are all breaches, and the recovery streak that of the
-- latest normal ones, cut off at `recovery_cycles`.
feed_streaks :
    (env : MonitorEnv) (rule : MonitorRule) (asset_id : String) (xs : List (Float × Time)) (s : App)
    → state_in rule asset_id s ≡ fresh_state
    → 1 ≤ rule.recovery_cycles
    → ((state_in rule asset_id (feed env rule asset_id xs s)).breach_streak
        ≡ streak true (breaches rule xs))
      × ((state_in rule asset_id (feed env rule asset_id xs s)).recovery_streak
          ≡ min (streak false (breaches rule xs)) rule.recovery_cycles)
feed_streaks env rule asset_id xs s fresh one = rw (feed-state_in env rule asset_id xs s fresh) (
  breach_streak-state_of rule.consecutive_cycles rule.recovery_cycles (breaches rule xs),
  (state_of-Recovers rule.consecutive_cycles rule.recovery_cycles (breaches rule xs) one).0,
)
