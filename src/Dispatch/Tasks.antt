-- ===== src/Dispatch/Tasks.antt =====
-- The task that is sent for a step.
use aiops_control_lab.Base.{
  ◌≡◌, subst, arith, inl, inr, ◌+◌, ◌*◌, ◌/◌, ◌≤◌, ◌<◌, String, Bool-cases, some, lookup, ok, ltb,
}
use Prim.Native.String.{◌++◌}
use aiops_control_lab.Results.{>>=-eq-ok}
use aiops_control_lab.Domain.Models.{Time, RemediationStep}
use aiops_control_lab.App.{later, seconds, last_moment}
use aiops_control_lab.Signing.{Payload, text, mapping, calculate_signature}
use aiops_control_lab.Signing.Verified.{IsSigned, sign_task_payload_cases}
use aiops_control_lab.Dispatch.{Link, Draw, task_of, expiry, signed_task}

-- The task is signed and carries the approved hash, the step's action, target and arguments, and an
-- end in at most two minutes; its idempotency key is the same for the same hash, action and target.
pub record IsTask (l : Link) (d : Draw) (step : RemediationStep) (approved_hash : String)
    (task : Payload) : Type 0 where
  pub signature : String
  pub verified : calculate_signature l.digest l.hmac task l.shared_secret ≡ ok signature
  pub carried : lookup "signature" task ≡ some (text signature)
  pub approved : lookup "approved_hash" task ≡ some (text approved_hash)
  pub action : lookup "action_type" task ≡ some (text step.action_type)
  pub target : lookup "target" task ≡ some (text step.target)
  pub arguments : lookup "arguments" task ≡ some (mapping step.arguments)
  pub key :
      lookup "idempotency_key" task
      ≡ some (text (approved_hash ++ (":" ++ (step.action_type ++ (":" ++ step.target)))))
  pub end : Time
  pub ends : lookup "expires_at" task ≡ some (text (l.iso_seconds end))
  pub soon : end ≤ d.now + seconds 120
  pub ahead : d.now + seconds 119 < end

expiry_bounds :
    (now end : Time) → expiry now ≡ ok end → (end ≤ now + seconds 120) × (now + seconds 119 < end)
unfolding expiry later
expiry_bounds now end h = elim (Bool-cases (ltb last_moment (now + seconds 120))) [
  | inl over ↦ absurd (ground (arith, over))
  | inr fine ↦
      let e : (now + seconds 120) / 1_000_000 * 1_000_000 ≡ end = ground (arith, fine) in
      omega (arith, e)
]

signed-IsTask :
    (l : Link) (d : Draw) (step : RemediationStep) (approved_hash : String) (end : Time)
    (task : Payload)
    → (end ≤ d.now + seconds 120) × (d.now + seconds 119 < end)
    → IsSigned l.digest l.hmac d.token (task_of l d step approved_hash end) l.shared_secret task
    → IsTask l d step approved_hash task
unfolding task_of lookup
signed-IsTask l d step approved_hash end task when s = record {
  signature = s.signature;
  verified = s.verified;
  carried = s.fields "signature";
  approved = s.fields "approved_hash";
  action = s.fields "action_type";
  target = s.fields "target";
  arguments = s.fields "arguments";
  key = s.fields "idempotency_key";
  end = end;
  ends = s.fields "expires_at";
  soon = when.0;
  ahead = when.1;
}

-- Every task that is made for a step is signed, names exactly the approved hash and the step's
-- action, target and arguments, and ends in between 119 and 120 seconds.
pub signed_task-IsTask :
    (l : Link) (d : Draw) (step : RemediationStep) (approved_hash : String) (task : Payload)
    → signed_task l d step approved_hash ≡ ok task
    → IsTask l d step approved_hash task
unfolding signed_task
signed_task-IsTask l d step approved_hash task h =
    let (end, ended, rest) = >>=-eq-ok (expiry d.now) _ task h in
    elim (sign_task_payload_cases l.digest l.hmac d.token (task_of l d step approved_hash end)
      l.shared_secret) [
        | inr (unready, e) ↦ absurd (ground (arith, e, rest))
        | inl (ready, signed, e, done) ↦
            let same : signed ≡ task = ground (arith, e, rest) in
            signed-IsTask l d step approved_hash end task (expiry_bounds d.now end ended) (
              subst
                (IsSigned l.digest l.hmac d.token (task_of l d step approved_hash end)
                  l.shared_secret)
                same done)
      ]
