-- ===== src/Gateway.antt =====
-- api/routers/incidents.py and api/security.py: who may approve which plan.
pub mod Visitors
use Prim.Native.String.{slice, len}
use aiops_control_lab.Base.{
  String, Bool, true, false, not, ◌&&◌, ◌||◌, ◌==◌, starts_with, Option, none, some, List, any,
  Exec, Result, ok, err, http_unauthorized, http_unavailable, pure, raise_if, lift, gets, ◌>>=◌,
  ◌>>◌, http_forbidden, if◌then◌else◌,
}
use aiops_control_lab.Domain.Models.{RemediationStep, RemediationPlan, ActionRun}
use aiops_control_lab.Repository.{get_plan}
use aiops_control_lab.App.{App}
use aiops_control_lab.Policy.{is_real_asset}
use aiops_control_lab.Remediation.{Service, found, approve_and_execute}

-- The container's token, and `hmac.compare_digest`, which raises for texts beyond ASCII.
pub record Gateway : Type 0 where
  pub service : Service
  pub admin_token : Option String
  pub compare_digest : String → String → Result Bool

abbrev pub text_or_empty : Option String → String
text_or_empty none = ""
text_or_empty (some text) = text

-- `authorization[len("Bearer "):] if authorization.startswith("Bearer ") else ""`
unfoldable pub supplied_token : Option String → String
supplied_token header =
    let authorization = text_or_empty header in
    if starts_with authorization "Bearer " then slice authorization 7 (len authorization) else ""

-- `is_admin`, with the `Authorization` header of the request
unfoldable pub is_admin : Gateway → Option String → Result Bool
unfolding supplied_token
is_admin g header =
    let token = text_or_empty g.admin_token in
    if token == "" then ok false else g.compare_digest (supplied_token header) token

-- what `is_admin` answers, as the end of `require_admin`
abbrev pub admin_or_unauthorized : Result Bool → Result (Unit {0})
admin_or_unauthorized (ok true) = ok tt
admin_or_unauthorized (ok false) = err http_unauthorized
admin_or_unauthorized (err e) = err e

-- `require_admin`, with `container.admin_actions_enabled`
unfoldable pub require_admin : Gateway → Bool → Option String → Result (Unit {0})
unfolding is_admin
require_admin g admin_actions_enabled header =
    if not admin_actions_enabled
    then err http_forbidden
    else if text_or_empty g.admin_token == ""
    then err http_unavailable
    else admin_or_unauthorized (is_admin g header)

-- a step that is not about the laboratory
abbrev pub is_outside : RemediationStep → Bool
is_outside step = not (starts_with step.target "lab-")

unfoldable pub must_be_admin : Gateway → Option String → RemediationPlan → Result Bool
unfolding is_admin
must_be_admin g header plan = if any is_outside plan.steps then is_admin g header else ok true

-- `POST /plans/{plan_id}/approve`
unfoldable pub approve_plan :
    Gateway → Option String → String → String → String → String → Exec App ActionRun
unfolding must_be_admin
approve_plan g header plan_id approver approved_hash idempotency_key = do
  plan ← gets (λ s. get_plan plan_id s.repository) >>= found
  raise_if
      (any (λ step. is_real_asset step.target) plan.steps
        && g.service.real_actions_mode == "observe_only")
      http_forbidden
  permitted ← lift (must_be_admin g header plan)
  raise_if (not permitted) http_forbidden
  approve_and_execute g.service plan_id approver approved_hash idempotency_key
