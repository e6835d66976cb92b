-- ===== src/Policy.antt =====
-- application/real_action_policy.py: what may be run on a real asset.
pub mod Gate
use aiops_control_lab.Base.{
  String, Bool, true, false, not, ◌&&◌, ◌||◌, ◌==◌, starts_with, List, [], ◌∷◌, keep, any, is_empty,
  contains, Result, ok, err, integrity_violation, if◌then◌else◌,
}
use aiops_control_lab.Domain.Models.{RemediationStep, RemediationPlan}

-- `target.startswith(REAL_ASSET_PREFIXES)`
unfoldable pub is_real_asset : String → Bool
is_real_asset target = starts_with target "host/" || starts_with target "docker/devops-lab/"

-- `action in FIRST_GATE_READ_ONLY_ACTIONS`
unfoldable pub is_read_only : String → Bool
is_read_only action = contains action ("health_check" ∷ "collect_logs" ∷ "inspect_container" ∷ [])

-- `RealActionPolicy(mode).validate(plan)`
unfoldable pub validate : String → RemediationPlan → Result (Unit {0})
validate mode plan =
    let real_steps = keep (λ step. is_real_asset step.target) plan.steps in
    let denied = keep (λ step. not (is_read_only step.action_type)) real_steps in
    if is_empty real_steps
    then ok tt
    else if mode == "observe_only"
    then err integrity_violation
    else if is_empty denied
    then ok tt
    else err integrity_violation
