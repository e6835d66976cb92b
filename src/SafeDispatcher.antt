-- ===== src/SafeDispatcher.antt =====
-- adapters/safe_dispatcher.py: the dispatcher of the demonstration, which touches no host.
use Prim.Native.String.{◌++◌}
use aiops_control_lab.Base.{
  String, Bool, true, false, not, [], ◌∷◌, contains, Result, ok, err, if◌then◌else◌,
}
use aiops_control_lab.Domain.Models.{RemediationStep}
use aiops_control_lab.Remediation.{StepExecutionResult}

-- `step.action_type in self._allowed_actions`
unfoldable pub is_allowed : String → Bool
is_allowed action =
    contains action
      ("restart_container" ∷ "restart_service" ∷ "health_check" ∷ "collect_logs" ∷ "cleanup" ∷ [])

-- `SafeDemoDispatcher.execute`; `compare_digest` raises for texts beyond ASCII.
unfoldable pub execute_demo :
    (String → String → Result Bool) → RemediationStep → String → Result StepExecutionResult
unfolding is_allowed
execute_demo compare_digest step approved_hash = elim (compare_digest approved_hash "") [
  | err e ↦ err e
  | ok true ↦ ok (record { succeeded = false; message = "缺少批准内容哈希" })
  | ok false ↦
      if not (is_allowed step.action_type)
      then ok (record { succeeded = false; message = "动作 " ++ step.action_type ++ " 未注册" })
      else ok (record {
        succeeded = true;
        message = "沙箱已执行 " ++ step.action_type ++ "，目标为 " ++ step.target;
      })
]
