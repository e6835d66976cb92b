-- ===== src/Signing/Binding.antt =====
-- What a signature binds.
use package.text.Mathlib.TextLemmas.{append_inj, append_cancel_left}
use Prim.Native.String.{◌++◌, count}
use aiops_control_lab.Base.{
  ◌≡◌, refl, sym, ap, ◌∙◌, arith, String, Option, none, some, List, [], ◌∷◌, All, Dict, lookup, ok,
}
use aiops_control_lab.Results.{>>=-eq-ok}
use aiops_control_lab.Domain.Hash.{Digest}
use aiops_control_lab.Signing.{
  Value, text, mapping, other, Payload, required_string_fields, nonempty_text, text_mapping,
  arguments_json, field_digests, lines, canonical_message, signature_version,
}

-- The digests of two texts are equally long, and equal only if the texts are.
pub record IsDistinct (d : Digest) (s t : String) : Type 0 where
  pub same_length : count (d.sha256_hex s) ≡ count (d.sha256_hex t)
  pub no_collision : d.sha256_hex s ≡ d.sha256_hex t → s ≡ t

-- The texts that the loop digests.
unfoldable pub field_text : Option Value → String
field_text (some (text t)) = t
field_text (some (mapping d)) = ""
field_text (some other) = ""
field_text none = ""

unfoldable pub arguments_of : Option Value → Dict String
arguments_of (some (mapping d)) = d
arguments_of (some (text t)) = []
arguments_of (some other) = []
arguments_of none = []

abbrev pub name_text : Payload → String → String
name_text p name = field_text (lookup name p)

nonempty_text-eq-ok :
    (v : Option Value) (t : String)
    → nonempty_text v ≡ ok t
    → (v ≡ some (text (field_text v))) × (t ≡ field_text v)
unfolding field_text
nonempty_text-eq-ok none t h = absurd (ground arith)
nonempty_text-eq-ok (some other) t h = absurd (ground arith)
nonempty_text-eq-ok (some (mapping d)) t h = absurd (ground arith)
nonempty_text-eq-ok (some (text s)) t h = (refl, ground arith)

text_mapping-eq-ok :
    (v : Option Value) (d : Dict String) → text_mapping v ≡ ok d → d ≡ arguments_of v
unfolding arguments_of
text_mapping-eq-ok none t h = absurd (ground arith)
text_mapping-eq-ok (some other) t h = absurd (ground arith)
text_mapping-eq-ok (some (text s)) t h = absurd (ground arith)
text_mapping-eq-ok (some (mapping d)) t h = ground arith

-- The digests of the fields that are named, once they are all texts.
abbrev digests : Digest → Payload → List String → List String
digests d p [] = []
digests d p (name ∷ names) = d.sha256_hex (name_text p name) ∷ digests d p names

field_digests-eq-ok :
    (d : Digest) (p : Payload) (names values : List String)
    → field_digests d p names ≡ ok values
    → (values ≡ digests d p names)
      × All (λ name. lookup name p ≡ some (text (name_text p name))) names
unfolding field_digests
field_digests-eq-ok d p [] values h = (ground arith, tt)
field_digests-eq-ok d p (name ∷ names) values h =
    let (t, one, rest) = >>=-eq-ok (nonempty_text (lookup name p)) _ values h in
    let (ts, more, last) = >>=-eq-ok (field_digests d p names) _ values rest in
    let (is, same) = nonempty_text-eq-ok (lookup name p) t one in
    let (sames, are) = field_digests-eq-ok d p names ts more in (cc (last, same, sames), (is, are))

-- The message of a task whose fields are texts.
abbrev message : Digest → Payload → String
message d p =
    signature_version
    ++ lines (digests d p required_string_fields)
        (d.sha256_hex (arguments_json d (arguments_of (lookup "arguments" p))))

canonical_message-eq-ok :
    (d : Digest) (p : Payload) (m : String)
    → canonical_message d p ≡ ok m
    → (m ≡ message d p)
      × All (λ name. lookup name p ≡ some (text (name_text p name))) required_string_fields
unfolding canonical_message
canonical_message-eq-ok d p m h =
    let (values, one, rest) = >>=-eq-ok (field_digests d p required_string_fields) _ m h in
    let (arguments, two, last) = >>=-eq-ok (text_mapping (lookup "arguments" p)) _ m rest in
    let (same, are) = field_digests-eq-ok d p required_string_fields values one in
    let mapped = text_mapping-eq-ok (lookup "arguments" p) arguments two in
    (cc (last, same, mapped), are)

lines_injective :
    (d : Digest) (p q : Payload) (names : List String) (s t : String)
    → All (λ name. IsDistinct d (name_text p name) (name_text q name)) names
    → lines (digests d p names) s ≡ lines (digests d q names) t
    → All (λ name. name_text p name ≡ name_text q name) names × (s ≡ t)
unfolding lines
lines_injective d p q [] s t h e = (tt, append_cancel_left "\n" s t e)
lines_injective d p q (name ∷ names) s t h e =
    let (one, rest) = append_inj (append_cancel_left "\n" _ _ e) h.0.same_length in
    let (more, last) = lines_injective d p q names s t h.1 rest in
    ((h.0.no_collision one, more), last)

same_fields :
    (p q : Payload) (names : List String)
    → All (λ name. lookup name p ≡ some (text (name_text p name))) names
    → All (λ name. lookup name q ≡ some (text (name_text q name))) names
    → All (λ name. name_text p name ≡ name_text q name) names
    → All (λ name. lookup name p ≡ lookup name q) names
same_fields p q [] x y z = tt
same_fields p q (name ∷ names) x y z =
    (x.0 ∙ ap (λ t. some (text t)) z.0 ∙ sym y.0, same_fields p q names x.1 y.1 z.1)

-- If two tasks give the same message to sign, then each required field of one is that of the other,
-- and the JSON of their arguments with sorted keys is printed alike. It is assumed that the digests
-- of the texts at the same place are equally long and are no collision.
pub canonical_message_binding :
    (d : Digest) (p q : Payload) (m : String)
    → canonical_message d p ≡ ok m
    → canonical_message d q ≡ ok m
    → All (λ name. IsDistinct d (name_text p name) (name_text q name)) required_string_fields
    → IsDistinct d
        (arguments_json d (arguments_of (lookup "arguments" p)))
        (arguments_json d (arguments_of (lookup "arguments" q)))
    → All (λ name. lookup name p ≡ lookup name q) required_string_fields
      × (arguments_json d (arguments_of (lookup "arguments" p))
          ≡ arguments_json d (arguments_of (lookup "arguments" q)))
canonical_message_binding d p q m hp hq fields arguments =
    let (is_p, texts_p) = canonical_message-eq-ok d p m hp in
    let (is_q, texts_q) = canonical_message-eq-ok d q m hq in
    let same : message d p ≡ message d q = sym is_p ∙ is_q in
    let (names, last) =
      lines_injective d p q required_string_fields _ _ fields
        (append_cancel_left signature_version _ _ same) in
    (same_fields p q required_string_fields texts_p texts_q names, arguments.no_collision last)
