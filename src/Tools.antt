-- ===== src/Tools.antt =====
-- application/tool_registry.py: which proposals of a language model become a planned call. A proposal
-- is a dictionary of JSON, of which the three entries that are read are given: the texts that `str`
-- makes of the first two, empty where they are missing, and the arguments, `none` where they are no
-- object.
use aiops_control_lab.Base.{
  ◌≡◌, refl, sym, subst, String, Bool, Bool-cases, true, not, inl, inr, Option, Option-cases, none,
  some, List, [], ◌∷◌, Dict, lookup, insert, any, all, contains, starts_with, map, Result, ok, err,
  value_error, if◌then◌else◌,
}
use aiops_control_lab.Domain.Enums.{RiskLevel}

pub record ToolDefinition : Type 0 where
  pub name : String
  pub description : String
  pub required_arguments : List String
  pub allowed_arguments : List String
  pub risk : RiskLevel

pub record PlannedToolCall : Type 0 where
  pub tool_name : String
  pub target : String
  pub arguments : Dict String
  pub risk : RiskLevel

pub record RawCall : Type 0 where
  pub tool_name : String
  pub target : String
  pub arguments : Option (Dict String)

-- `ConstrainedToolRegistry`
pub record Registry : Type 0 where
  pub definitions : Dict ToolDefinition
  pub target_prefixes : List String

-- `{definition.name: definition for definition in definitions}`
unfoldable pub by_name : List ToolDefinition → Dict ToolDefinition → Dict ToolDefinition
by_name [] d = d
by_name (definition ∷ definitions) d = by_name definitions (insert definition.name definition d)

unfoldable pub new_registry : List ToolDefinition → List String → Registry
unfolding by_name
new_registry definitions target_prefixes = record {
  definitions = by_name definitions [];
  target_prefixes = target_prefixes;
}

abbrev pub names_of : Dict String → List String
names_of = map (λ (entry : String × String). entry.0)

abbrev pub is_subset : List String → List String → Bool
is_subset xs ys = all (λ x. contains x ys) xs

abbrev pub in_scope : String → List String → Bool
in_scope target prefixes = any (λ prefix. starts_with target prefix) prefixes

-- the checks of the arguments
unfoldable pub validate_arguments : ToolDefinition → RawCall → Dict String → Result PlannedToolCall
validate_arguments definition raw arguments =
    if not (is_subset definition.required_arguments (names_of arguments))
    then err value_error
    else if not (is_subset (names_of arguments) definition.allowed_arguments)
    then err value_error
    else ok (record {
      tool_name = raw.tool_name;
      target = raw.target;
      arguments = arguments;
      risk = definition.risk;
    })

abbrev pub with_arguments : ToolDefinition → RawCall → Option (Dict String) → Result PlannedToolCall
with_arguments definition raw none = err value_error
with_arguments definition raw (some arguments) = validate_arguments definition raw arguments

abbrev pub with_definition : Registry → RawCall → Option ToolDefinition → Result PlannedToolCall
with_definition registry raw none = err value_error
with_definition registry raw (some definition) =
    if not (in_scope raw.target registry.target_prefixes)
    then err value_error
    else with_arguments definition raw raw.arguments

-- `ConstrainedToolRegistry.validate`
unfoldable pub validate_call : Registry → RawCall → Result PlannedToolCall
unfolding validate_arguments
validate_call registry raw =
    with_definition registry raw (lookup raw.tool_name registry.definitions)

-- A planned call is what was proposed, for a tool that is registered, with its risk, on a target within
-- the scope, and with arguments between the required and the allowed ones.
pub record IsPlanned (registry : Registry) (raw : RawCall) (call : PlannedToolCall) : Type 0 where
  pub definition : ToolDefinition
  pub known : lookup call.tool_name registry.definitions ≡ some definition
  pub same_risk : call.risk ≡ definition.risk
  pub same_target : call.target ≡ raw.target
  pub same_arguments : raw.arguments ≡ some call.arguments
  pub scope : in_scope call.target registry.target_prefixes ≡ true
  pub complete : is_subset definition.required_arguments (names_of call.arguments) ≡ true
  pub declared : is_subset (names_of call.arguments) definition.allowed_arguments ≡ true

unfoldable pub Plans : Registry → RawCall → Result PlannedToolCall → Type 0
Plans registry raw (ok call) = IsPlanned registry raw call
Plans registry raw (err e) = Unit

-- If a proposal is accepted, then the planned call is what was proposed, for a registered tool with its
-- risk, on a target within the scope, with all required and no undeclared arguments.
pub validate_call-Plans :
    (registry : Registry) (raw : RawCall) → Plans registry raw (validate_call registry raw)
unfolding validate_call validate_arguments Plans
validate_call-Plans registry raw = elim (Option-cases (lookup raw.tool_name registry.definitions)) [
  | inl missing ↦ rw missing tt
  | inr (definition, known) ↦ elim (Bool-cases (in_scope raw.target registry.target_prefixes)) [
    | inr outside ↦ rw (known, outside) tt
    | inl inside ↦ elim (Option-cases raw.arguments) [
      | inl no_object ↦ rw (known, inside, no_object) tt
      | inr (arguments, given) ↦
          elim (Bool-cases (is_subset definition.required_arguments (names_of arguments))) [
            | inr incomplete ↦ rw (known, inside, given, incomplete) tt
            | inl complete ↦
                elim (Bool-cases (is_subset (names_of arguments) definition.allowed_arguments)) [
                  | inr unknown ↦ rw (known, inside, given, complete, unknown) tt
                  | inl declared ↦
                      let accepted : validate_call registry raw
                          ≡ ok (record {
                            tool_name = raw.tool_name;
                            target = raw.target;
                            arguments = arguments;
                            risk = definition.risk;
                          }) =
                        rw (known, inside, given, complete, declared) refl in
                      subst (Plans registry raw) (sym accepted) (record {
                        definition = definition;
                        known = known;
                        same_risk = refl;
                        same_target = refl;
                        same_arguments = given;
                        scope = inside;
                        complete = complete;
                        declared = declared;
                      })
                ]
          ]
    ]
  ]
]
