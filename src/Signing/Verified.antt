-- ===== src/Signing/Verified.antt =====
-- When a task is signed, and that its signature verifies.
use aiops_control_lab.Base.{
  ◌≡◌, refl, arith, ◌⊎◌, inl, inr, ◌≢◌, Bool-cases, eq_iff, String, Bool, true, false, not, ◌&&◌,
  ◌==◌, Option, none, some, List, [], ◌∷◌, all, contains, lookup, insert, lookup-insert,
  lookup-insert_ne, Result, ok, err, value_error, if◌then◌else◌,
}
use aiops_control_lab.Results.{◌>>=◌}
use aiops_control_lab.Domain.Hash.{Digest}
use aiops_control_lab.Signing.{
  Value, text, mapping, other, Payload, Hmac, required_string_fields, nonempty_text, text_mapping,
  field_digests, canonical_message, calculate_signature, sign_task_payload,
}

abbrev pub is_text : Option Value → Bool
is_text (some (text t)) = not (t == "")
is_text (some (mapping d)) = false
is_text (some other) = false
is_text none = false

abbrev pub is_mapping : Option Value → Bool
is_mapping (some (mapping d)) = true
is_mapping (some (text t)) = false
is_mapping (some other) = false
is_mapping none = false

-- A secret, a nonce and the six other fields that are no empty texts, and text arguments.
unfoldable pub is_ready : String → String → Payload → Bool
is_ready shared_secret token payload =
    not (shared_secret == "")
    && (not (token == "")
        && (is_mapping (lookup "arguments" payload)
            && all (λ name. is_text (lookup name payload))
                ("id" ∷ "idempotency_key" ∷ "approved_hash" ∷ "action_type" ∷ "target"
                  ∷ "expires_at" ∷ [])))

-- What `m` returns, and only if `test` says so; otherwise it raises `ValueError`.
unfoldable pub OkIf : {A : Type 0} → Bool → Result A → Type 0
OkIf {A} test m = ((test ≡ true) × (a : A) × (m ≡ ok a)) ⊎ ((test ≡ false) × (m ≡ err value_error))

nonempty_text-OkIf : (v : Option Value) → OkIf (is_text v) (nonempty_text v)
unfolding OkIf
nonempty_text-OkIf none = inr (refl, refl)
nonempty_text-OkIf (some other) = inr (refl, refl)
nonempty_text-OkIf (some (mapping d)) = inr (refl, refl)
nonempty_text-OkIf (some (text t)) = elim (Bool-cases (t == "")) [
  | inl blank ↦ rw blank (inr (refl, refl))
  | inr full ↦ rw full (inl (refl, t, refl))
]

text_mapping-OkIf : (v : Option Value) → OkIf (is_mapping v) (text_mapping v)
unfolding OkIf
text_mapping-OkIf none = inr (refl, refl)
text_mapping-OkIf (some other) = inr (refl, refl)
text_mapping-OkIf (some (mapping d)) = inl (refl, d, refl)
text_mapping-OkIf (some (text t)) = inr (refl, refl)

bind-OkIf :
    {A B : Type 0} (p q : Bool) (m : Result A) (f : A → Result B)
    → OkIf p m
    → ((a : A) → OkIf q (f a))
    → OkIf (p && q) (m >>= f)
unfolding OkIf
bind-OkIf p q m f (inl (yes_p, a, e)) rest = rw (yes_p, e) (rest a)
bind-OkIf p q m f (inr (no_p, e)) rest = rw (no_p, e) (inr (refl, refl))

pure-OkIf : {A : Type 0} (a : A) → OkIf true (ok a)
unfolding OkIf
pure-OkIf a = inl (refl, a, refl)

map-OkIf :
    {A B : Type 0} (q : Bool) (m : Result A) (f : A → B) → OkIf q m → OkIf q (m >>= λ a. ok (f a))
unfolding OkIf
map-OkIf q m f (inl (yes_q, a, e)) = rw e (inl (yes_q, f a, refl))
map-OkIf q m f (inr (no_q, e)) = rw e (inr (no_q, refl))

field_digests-OkIf :
    (d : Digest) (p : Payload) (names : List String)
    → OkIf (all (λ name. is_text (lookup name p)) names) (field_digests d p names)
unfolding field_digests
field_digests-OkIf d p [] = pure-OkIf []
field_digests-OkIf d p (name ∷ names) =
    bind-OkIf (is_text (lookup name p)) (all (λ other_name. is_text (lookup other_name p)) names)
      (nonempty_text (lookup name p))
      (λ value. field_digests d p names >>= λ values. ok (d.sha256_hex value ∷ values))
      (nonempty_text-OkIf (lookup name p))
      (λ value.
        map-OkIf (all (λ other_name. is_text (lookup other_name p)) names) (field_digests d p names)
          (λ values. d.sha256_hex value ∷ values) (field_digests-OkIf d p names))

abbrev is_complete : Payload → Bool
is_complete p =
    all (λ name. is_text (lookup name p)) required_string_fields
    && is_mapping (lookup "arguments" p)

canonical_message-OkIf : (d : Digest) (p : Payload) → OkIf (is_complete p) (canonical_message d p)
unfolding canonical_message
canonical_message-OkIf d p =
    bind-OkIf (all (λ name. is_text (lookup name p)) required_string_fields)
      (is_mapping (lookup "arguments" p)) (field_digests d p required_string_fields) _
      (field_digests-OkIf d p required_string_fields)
      (λ values.
        map-OkIf (is_mapping (lookup "arguments" p)) (text_mapping (lookup "arguments" p)) _
          (text_mapping-OkIf (lookup "arguments" p)))

shuffle :
    (s n m a b c d e f : Bool)
    → (s && (n && (m && (a && (b && (c && (d && (e && (f && true)))))))))
      ≡ (s && ((a && (b && (c && (d && (e && (f && (n && true))))))) && m))
shuffle s n m a b c d e f = ground arith

-- The nonce is one of the required fields.
is_complete-nonce :
    (secret token : String) (p : Payload)
    → is_ready secret token p ≡ (not (secret == "") && is_complete (insert "nonce" (text token) p))
unfolding is_ready
is_complete-nonce secret token p =
    let new = λ (name : String). lookup-insert "nonce" name (text token) p in
    rw
      (
        new "id",
        new "idempotency_key",
        new "approved_hash",
        new "action_type",
        new "target",
        new "expires_at",
        new "nonce",
        new "arguments",
      )
      (shuffle (not (secret == "")) (not (token == "")) (is_mapping (lookup "arguments" p))
        (is_text (lookup "id" p)) (is_text (lookup "idempotency_key" p))
        (is_text (lookup "approved_hash" p)) (is_text (lookup "action_type" p))
        (is_text (lookup "target" p)) (is_text (lookup "expires_at" p)))

-- A field that the message does not name does not change it.
field_digests-insert :
    (d : Digest) (p : Payload) (k : String) (v : Value) (names : List String)
    → contains k names ≡ false
    → field_digests d (insert k v p) names ≡ field_digests d p names
unfolding field_digests
field_digests-insert d p k v [] h = refl
field_digests-insert d p k v (name ∷ names) h =
    let fresh : k ≢ name = ground (arith, eq_iff name k) in
    rw (lookup-insert_ne k name v p fresh, field_digests-insert d p k v names (ground arith))

canonical_message-signature :
    (d : Digest) (p : Payload) (v : Value)
    → canonical_message d (insert "signature" v p) ≡ canonical_message d p
unfolding canonical_message
canonical_message-signature d p v = rw (
  field_digests-insert d p "signature" v required_string_fields refl,
  lookup-insert "signature" "arguments" v p,
)

-- The task with the nonce and its own signature, the one that an agent calculates from it; its other
-- fields are those of the payload.
pub record IsSigned (d : Digest) (hmac : Hmac) (token : String) (payload : Payload)
    (secret : String) (signed : Payload) : Type 0 where
  pub signature : String
  pub verified : calculate_signature d hmac signed secret ≡ ok signature
  pub fields :
      (name : String)
      → lookup name signed ≡ (
          if "signature" == name
          then some (text signature)
          else if "nonce" == name
          then some (text token)
          else lookup name payload)

-- A task is signed if there is a secret, a nonce, the six other required fields are texts that are
-- not empty, and the arguments are texts; otherwise `ValueError` is raised. What is signed carries
-- the nonce, and its own signature is the one that an agent calculates from it; its other fields are
-- those of the task.
pub sign_task_payload_cases :
    (d : Digest) (hmac : Hmac) (token : String) (payload : Payload) (secret : String)
    → ((is_ready secret token payload ≡ true)
        × (signed : Payload) × (sign_task_payload d hmac token payload secret ≡ ok signed)
        × IsSigned d hmac token payload secret signed)
      ⊎ ((is_ready secret token payload ≡ false)
          × (sign_task_payload d hmac token payload secret ≡ err value_error))
unfolding sign_task_payload calculate_signature OkIf
sign_task_payload_cases d hmac token payload secret =
    let p = insert "nonce" (text token) payload in
    rw (is_complete-nonce secret token payload) (elim (Bool-cases (secret == "")) [
      | inl blank ↦ rw blank (inr (refl, refl))
      | inr known ↦ elim (canonical_message-OkIf d p) [
        | inr (unready, e) ↦ rw (known, unready, e) (inr (refl, refl))
        | inl (ready, message, e) ↦
            let signature = hmac secret message in
            rw (known, ready, e)
              (inl (
                refl,
                insert "signature" (text signature) p,
                refl,
                record {
                  signature = signature;
                  verified = rw (canonical_message-signature d p (text signature), e) refl;
                  fields = λ name.
                      rw
                        (
                          lookup-insert "signature" name (text signature) p,
                          lookup-insert "nonce" name (text token) payload,
                        )
                        refl;
                },
              ))
      ]
    ])
