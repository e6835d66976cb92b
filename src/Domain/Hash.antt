-- ===== src/Domain/Hash.antt =====
-- `RemediationPlan.content_hash` of domain/models.py. `json.dumps` and SHA-256 are the platform's:
-- `print_json` prints a value whose keys are in the order in which it is given, with the compact
-- separators, and `sha256_hex` is the digest of the text's UTF-8 bytes in hexadecimal.
pub mod Binding
use aiops_control_lab.Base.{String, List, [], ◌∷◌, Dict}
use aiops_control_lab.Domain.Enums.{value}
use aiops_control_lab.Domain.Models.{RemediationStep, RemediationPlan}
use aiops_control_lab.Domain.Json.{
  Json, text, arr, obj, Items, nil, cons, end, field, sort_keys, dict_fields, optional_text,
}

pub record Digest : Type 0 where
  pub print_json : Json → String
  pub sha256_hex : String → String

unfoldable pub step_json : RemediationStep → Json
unfolding dict_fields optional_text
step_json step = obj (
    field "action_type" (text step.action_type) (
      field "target" (text step.target) (
        field "arguments" (obj (dict_fields step.arguments)) (
          field "expected_result" (text step.expected_result) (
            field "rollback_action" (optional_text step.rollback_action)
              (field "rollback_arguments" (obj (dict_fields step.rollback_arguments)) end))))))

unfoldable pub steps_json : List RemediationStep → Items
steps_json [] = nil
steps_json (step ∷ steps) = cons (step_json step) (steps_json steps)

unfoldable pub plan_json : RemediationPlan → Json
plan_json plan = obj (
    field "incident_id" (text plan.incident_id) (
      field "summary" (text plan.summary)
        (field "risk" (text (value plan.risk)) (field "steps" (arr (steps_json plan.steps)) end))))

-- `json.dumps(…, sort_keys=True)`
unfoldable pub canonical : Digest → RemediationPlan → String
canonical d plan = d.print_json (sort_keys (plan_json plan))

unfoldable pub content_hash : Digest → RemediationPlan → String
content_hash d plan = d.sha256_hex (canonical d plan)
