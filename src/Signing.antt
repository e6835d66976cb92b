-- ===== src/Signing.antt =====
-- security/task_signing.py: the signature of a task for an agent. The digest, the printer of JSON and
-- the HMAC are the platform's; the texts are taken to be encodable as UTF-8.
pub mod Binding
pub mod Verified
use Prim.Native.String.{◌++◌}
use aiops_control_lab.Base.{
  String, ◌==◌, Option, none, some, List, [], ◌∷◌, Dict, lookup, insert, Result, ok, err,
  value_error, if◌then◌else◌,
}
use aiops_control_lab.Results.{◌>>=◌}
use aiops_control_lab.Domain.Json.{Json, obj, sort_keys, dict_fields}
use aiops_control_lab.Domain.Hash.{Digest}

-- A value of a task: a text, a dictionary from texts to texts, or anything else.
pub data Value : Type 0 where
  text : String → Value
  mapping : Dict String → Value
  other : Value

abbrev pub Payload : Type 0
Payload = Dict Value

-- `hmac.new(secret, message, sha256).hexdigest()`
abbrev pub Hmac : Type 0
Hmac = String → String → String

abbrev pub required_string_fields : List String
required_string_fields =
    "id" ∷ "idempotency_key" ∷ "approved_hash" ∷ "action_type" ∷ "target" ∷ "expires_at" ∷ "nonce"
    ∷ []

-- `payload.get(field_name)`, which must be a text that is not empty
abbrev pub nonempty_text : Option Value → Result String
nonempty_text (some (text t)) = if t == "" then err value_error else ok t
nonempty_text (some (mapping d)) = err value_error
nonempty_text (some other) = err value_error
nonempty_text none = err value_error

-- `payload.get("arguments")`, which must be a dictionary from texts to texts
abbrev pub text_mapping : Option Value → Result (Dict String)
text_mapping (some (mapping d)) = ok d
text_mapping (some (text t)) = err value_error
text_mapping (some other) = err value_error
text_mapping none = err value_error

-- `json.dumps(arguments, ensure_ascii=False, sort_keys=True, separators=(",", ":"))`
abbrev pub arguments_json : Digest → Dict String → String
arguments_json d arguments = d.print_json (sort_keys (obj (dict_fields arguments)))

-- the loop over the required fields
unfoldable pub field_digests : Digest → Payload → List String → Result (List String)
field_digests d payload [] = ok []
field_digests d payload (name ∷ names) = do
  value ← nonempty_text (lookup name payload)
  values ← field_digests d payload names
  ok (d.sha256_hex value ∷ values)

abbrev pub signature_version : String
signature_version = "aiops-action-v1"

-- `"\n" + "\n".join(values + [last])`
unfoldable pub lines : List String → String → String
lines [] last = "\n" ++ last
lines (v ∷ values) last = "\n" ++ (v ++ lines values last)

-- `_canonical_message`
unfoldable pub canonical_message : Digest → Payload → Result String
unfolding field_digests lines
canonical_message d payload = do
  values ← field_digests d payload required_string_fields
  arguments ← text_mapping (lookup "arguments" payload)
  ok (signature_version ++ lines values (d.sha256_hex (arguments_json d arguments)))

-- `_calculate_signature`
unfoldable pub calculate_signature : Digest → Hmac → Payload → String → Result String
unfolding canonical_message
calculate_signature d hmac payload shared_secret = do
  canonical ← canonical_message d payload
  ok (hmac shared_secret canonical)

-- `sign_task_payload`, with what `secrets.token_hex(16)` returns
unfoldable pub sign_task_payload : Digest → Hmac → String → Payload → String → Result Payload
unfolding calculate_signature
sign_task_payload d hmac token payload shared_secret =
    if shared_secret == "" then err value_error else do
      let signed_payload = insert "nonce" (text token) payload
      signature ← calculate_signature d hmac signed_payload shared_secret
      ok (insert "signature" (text signature) signed_payload)
