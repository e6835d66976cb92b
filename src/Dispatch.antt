-- ===== src/Dispatch.antt =====
-- adapters/http_agent_dispatcher.py: a step of an approved plan as a signed task for the agent.
pub mod Tasks
use Prim.Native.String.{◌++◌}
use aiops_control_lab.Base.{
  ℕ, ◌+◌, ◌*◌, ◌/◌, String, Bool, true, false, ◌==◌, List, [], ◌∷◌, Result, ok, err, value_error,
  if◌then◌else◌,
}
use aiops_control_lab.Results.{◌>>=◌}
use aiops_control_lab.Domain.Models.{Time, RemediationStep}
use aiops_control_lab.Domain.Hash.{Digest}
use aiops_control_lab.App.{later, seconds}
use aiops_control_lab.Remediation.{StepExecutionResult}
use aiops_control_lab.Signing.{Payload, Hmac, text, mapping, sign_task_payload}

-- What the agent's answer comes to: the two entries of its JSON as a truth value and a text, the body
-- of an HTTP error, or the text of a failed connection.
pub data Reply : Type 0 where
  answered : Bool → String → Reply
  rejected unavailable : String → Reply

-- `HttpAgentDispatcher`: its secret, the digest and the HMAC, `isoformat` of whole seconds with the
-- suffix Z, and what a request gives.
pub record Link : Type 0 where
  pub shared_secret : String
  pub digest : Digest
  pub hmac : Hmac
  pub iso_seconds : Time → String
  pub post : Payload → Result Reply

-- What one call draws: the clock, a new identifier and a random text.
pub record Draw : Type 0 where
  pub now : Time
  pub id : String
  pub token : String

-- the check of `__init__`
unfoldable pub check_secret : String → Result (Unit {0})
check_secret shared_secret = if shared_secret == "" then err value_error else ok tt

unfoldable pub task_of : Link → Draw → RemediationStep → String → Time → Payload
task_of l d step approved_hash expires_at =
    ("id", text d.id)
    ∷ (
      "idempotency_key",
      text (approved_hash ++ (":" ++ (step.action_type ++ (":" ++ step.target)))),
    )
    ∷ ("approved_hash", text approved_hash)
    ∷ ("action_type", text step.action_type)
    ∷ ("target", text step.target)
    ∷ ("arguments", mapping step.arguments)
    ∷ ("expires_at", text (l.iso_seconds expires_at))
    ∷ []

-- the time in two minutes, without microseconds
unfoldable pub expiry : Time → Result Time
expiry now = later now (seconds 120) >>= λ t. ok (t / 1_000_000 * 1_000_000)

unfoldable pub signed_task : Link → Draw → RemediationStep → String → Result Payload
unfolding task_of expiry
signed_task l d step approved_hash = expiry d.now >>= λ expires_at.
    sign_task_payload l.digest l.hmac d.token (task_of l d step approved_hash expires_at)
      l.shared_secret

unfoldable pub result_of : Reply → StepExecutionResult
result_of (answered succeeded message) = record { succeeded = succeeded; message = message }
result_of (rejected body) = record { succeeded = false; message = "Agent 拒绝动作: " ++ body }
result_of (unavailable error) = record { succeeded = false; message = "Agent 不可用: " ++ error }

-- `execute`
unfoldable pub execute_remote : Link → Draw → RemediationStep → String → Result StepExecutionResult
unfolding signed_task result_of
execute_remote l d step approved_hash = signed_task l d step approved_hash >>= λ payload.
    l.post payload >>= λ reply. ok (result_of reply)
