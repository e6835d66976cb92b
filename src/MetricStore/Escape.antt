-- ===== src/MetricStore/Escape.antt =====
-- `_escape_label` of adapters/agent_metric_store.py, and how Prometheus reads a label back.
use Prim.Native.Nat.{ℕ}
use Prim.Native.Char.{Char, code}
use Prim.Native.String.{String, [], ◌∷◌, ◌++◌}
use text.Mathlib.TextLemmas.{append_assoc, append-nil, nil-append, cons-append}
use text.Mathlib.TextEquality.{Char-path}
use aiops_control_lab.Base.{
  ◌≡◌, refl, sym, ap, ◌∙◌, arith, inl, inr, Bool, Bool-cases, true, false, ◌||◌, Option, none, some,
  nat_eq, if◌then◌else◌,
}

abbrev backslash : Char
backslash = "\\"

abbrev newline : Char
newline = "\n"

abbrev quote : Char
quote = "\""

-- `t.replace(c, new)` for a single character
unfoldable pub replace_char : Char → String → String → String
replace_char c new [] = []
replace_char c new (x ∷ t) =
    (if nat_eq (code x) (code c) then new else x ∷ []) ++ replace_char c new t

unfoldable pub escape_label : String → String
unfolding replace_char
escape_label v =
    replace_char quote "\\\"" (replace_char newline "\\n" (replace_char backslash "\\\\" v))

-- Puts a character in front of the value that was read.
abbrev push : Char → Option (String × String) → Option (String × String)
push x none = none
push x (some (value, rest)) = some (x ∷ value, rest)

-- How the text format of Prometheus reads a label's value, from after the opening quote: up to the
-- first quote that no backslash escapes, with what stands behind it. A backslash stands only before a
-- backslash, a quote, or an `n` for a line's end; a line that ends within the value, or a text that
-- does, is an error. The first argument says whether a backslash came just before.
unfoldable pub read_value : Bool → String → Option (String × String)
read_value escaped [] = none
read_value true (x ∷ t) =
    let rest = read_value false t in
    if nat_eq (code x) 110
    then push newline rest
    else if nat_eq (code x) (code backslash) || nat_eq (code x) (code quote)
    then push x rest
    else none
read_value false (x ∷ t) =
    let hidden = read_value true t in
    let shown = read_value false t in
    if nat_eq (code x) (code backslash)
    then hidden
    else if nat_eq (code x) (code quote)
    then some ([], t)
    else if nat_eq (code x) (code newline)
    then none
    else push x shown

replace_char-append :
    (c : Char) (new s t : String)
    → replace_char c new (s ++ t) ≡ replace_char c new s ++ replace_char c new t
unfolding replace_char
replace_char-append c new [] t =
    ap (replace_char c new) (nil-append t) ∙ sym (nil-append (replace_char c new t))
replace_char-append c new (x ∷ s) t = rw (cons-append x s t) (
    ap (λ (r : String). (if nat_eq (code x) (code c) then new else x ∷ []) ++ r)
      (replace_char-append c new s t)
    ∙ sym (
        append_assoc (if nat_eq (code x) (code c) then new else x ∷ []) (replace_char c new s)
          (replace_char c new t)))

-- What one character becomes.
abbrev escape_char : Char → String
escape_char x =
    if nat_eq (code x) (code backslash)
    then "\\\\"
    else if nat_eq (code x) (code newline)
    then "\\n"
    else if nat_eq (code x) (code quote)
    then "\\\""
    else x ∷ []

-- A single character that is none of the three is kept.
replace_char-one :
    (c x : Char) (new : String)
    → nat_eq (code x) (code c) ≡ false
    → replace_char c new (x ∷ []) ≡ x ∷ []
unfolding replace_char
replace_char-one c x new other = rw other (append-nil (x ∷ []))

replace_char-same :
    (c x : Char) (new : String)
    → nat_eq (code x) (code c) ≡ true
    → replace_char c new (x ∷ []) ≡ new
unfolding replace_char
replace_char-same c x new same = rw same (append-nil new)

escape_label-one : (x : Char) → escape_label (x ∷ []) ≡ escape_char x
unfolding escape_label
escape_label-one x = elim (Bool-cases (nat_eq (code x) (code backslash))) [
  | inl b ↦ rw (replace_char-same backslash x "\\\\" b, b) refl
  | inr not_b ↦ elim (Bool-cases (nat_eq (code x) (code newline))) [
    | inl n ↦
        rw
          (replace_char-one backslash x "\\\\" not_b, replace_char-same newline x "\\n" n, not_b, n)
          refl
    | inr not_n ↦ elim (Bool-cases (nat_eq (code x) (code quote))) [
      | inl q ↦
          rw
            (
              replace_char-one backslash x "\\\\" not_b,
              replace_char-one newline x "\\n" not_n,
              replace_char-same quote x "\\\"" q,
              not_b,
              not_n,
              q,
            )
            refl
      | inr not_q ↦
          rw
            (
              replace_char-one backslash x "\\\\" not_b,
              replace_char-one newline x "\\n" not_n,
              replace_char-one quote x "\\\"" not_q,
              not_b,
              not_n,
              not_q,
            )
            refl
    ]
  ]
]

escape_label-append : (s t : String) → escape_label (s ++ t) ≡ escape_label s ++ escape_label t
unfolding escape_label
escape_label-append s t = rw (replace_char-append backslash "\\\\" s t) (
    rw
      (replace_char-append newline "\\n" (replace_char backslash "\\\\" s)
        (replace_char backslash "\\\\" t))
      (replace_char-append quote "\\\"" _ _))

escape_label-cons : (x : Char) (t : String) → escape_label (x ∷ t) ≡ escape_char x ++ escape_label t
escape_label-cons x t =
    ap escape_label (sym (cons-append x [] t ∙ ap (x ∷◌) (nil-append t)))
    ∙ escape_label-append (x ∷ []) t
    ∙ ap (λ (r : String). r ++ escape_label t) (escape_label-one x)

two-append : (a b : Char) (r : String) → (a ∷ b ∷ []) ++ r ≡ a ∷ b ∷ r
two-append a b r =
    cons-append a (b ∷ []) r ∙ ap (a ∷◌) (cons-append b [] r ∙ ap (b ∷◌) (nil-append r))

same_char : (x c : Char) → nat_eq (code x) (code c) ≡ true → x ≡ c
same_char x c h = Char-path x c (nat_eq→eq (code x) (code c) h)
  where
    nat_eq→eq : (m n : ℕ) → nat_eq m n ≡ true → m ≡ n
    nat_eq→eq m n e = ground arith

read_value-escape_char :
    (x : Char) (r : String) → read_value false (escape_char x ++ r) ≡ push x (read_value false r)
unfolding read_value
read_value-escape_char x r = elim (Bool-cases (nat_eq (code x) (code backslash))) [
  | inl b ↦ rw b (
      ap (read_value false) (two-append backslash backslash r)
      ∙ ap (λ (c : Char). push c (read_value false r)) (sym (same_char x backslash b)))
  | inr not_b ↦ elim (Bool-cases (nat_eq (code x) (code newline))) [
    | inl n ↦
        rw (not_b, n)
          (ap (read_value false) (two-append backslash "n" r)
            ∙ ap (λ (c : Char). push c (read_value false r)) (sym (same_char x newline n)))
    | inr not_n ↦ elim (Bool-cases (nat_eq (code x) (code quote))) [
      | inl q ↦
          rw (not_b, not_n, q)
            (ap (read_value false) (two-append backslash quote r)
              ∙ ap (λ (c : Char). push c (read_value false r)) (sym (same_char x quote q)))
      | inr not_q ↦
          rw (not_b, not_n, not_q)
            (ap (read_value false) (cons-append x [] r ∙ ap (x ∷◌) (nil-append r))
              ∙ rw (not_b, not_q, not_n) refl)
    ]
  ]
]

-- Between quotes, the escaped form of any value is read back as the value itself, and the value ends
-- at the closing quote, whatever follows.
pub read_value-escape_label :
    (v rest : String) → read_value false (escape_label v ++ (quote ∷ rest)) ≡ some (v, rest)
unfolding escape_label read_value
read_value-escape_label [] rest = ap (read_value false) (nil-append (quote ∷ rest))
read_value-escape_label (x ∷ t) rest =
    ap (λ (e : String). read_value false (e ++ (quote ∷ rest))) (escape_label-cons x t)
    ∙ ap (read_value false) (append_assoc (escape_char x) (escape_label t) (quote ∷ rest))
    ∙ read_value-escape_char x (escape_label t ++ (quote ∷ rest))
    ∙ ap (push x) (read_value-escape_label t rest)
