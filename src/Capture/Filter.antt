-- ===== src/Capture/Filter.antt =====
-- `TrafficFilter` of src/capture/store.rs: the text `key:value key:value …` as a list of
-- conditions, all of which an entry has to meet. Durations are numbers of nanoseconds.
pub mod Join
use tlscope_rs.Base.{
  ℕ, ◌*◌, Bool, true, false, not, ◌||◌, List, [], ◌∷◌, ◌++◌, Option, none, some, ltb, leb, ◌==◌,
  if◌then◌else◌, Result, ok, err, ◌>>=◌, ok_or, every, is_empty, u16_mod, u64_mod,
}
use tlscope_rs.Text.{
  Text, text, text_eq, split_whitespace, split_once, to_ascii_lowercase, to_ascii_uppercase,
  eq_ignore_ascii_case, contains, strip_prefix, strip_suffix,
}
use tlscope_rs.Text.Number.{parse_uint}
use tlscope_rs.Capture.Body.{CapturedBody}
use tlscope_rs.Capture.Entry.{TrafficEntry}

pub data Operator : Type 0 where
  eq gt gte lt lte : Operator

pub record Comparison : Type 0 where
  pub op : Operator
  pub value : ℕ

pub data Condition : Type 0 where
  method host path content_type : Text → Condition
  status duration : Comparison → Condition
  has_request_body has_response_body : Condition
  error tls : Bool → Condition

compare_by : Operator → ℕ → ℕ → Bool
compare_by eq actual value = actual == value
compare_by gt actual value = ltb value actual
compare_by gte actual value = leb value actual
compare_by lt actual value = ltb actual value
compare_by lte actual value = leb actual value

unfoldable pub comparison_matches : Comparison → ℕ → Bool
unfolding compare_by
comparison_matches c actual = compare_by c.op actual c.value

abbrev pub is_some {ℓ} : {A : Type ℓ} → Option A → Bool
is_some none = false
is_some (some a) = true

abbrev same_bool : Bool → Bool → Bool
same_bool true b = b
same_bool false b = not b

abbrev or_empty : Option Text → Text
or_empty none = []
or_empty (some t) = t

unfoldable pub condition_matches : Condition → TrafficEntry → Bool
unfolding comparison_matches to_ascii_lowercase eq_ignore_ascii_case contains
condition_matches (method m) e = eq_ignore_ascii_case e.method m
condition_matches (host h) e = contains (to_ascii_lowercase e.host) h
condition_matches (path p) e = contains e.path p
condition_matches (status c) e = elim e.response_status [
  | none ↦ false
  | some s ↦ comparison_matches c s
]
condition_matches (content_type kind) e =
    contains (to_ascii_lowercase (or_empty e.request_body.content_type)) kind
    || contains (to_ascii_lowercase (or_empty e.response_body.content_type)) kind
condition_matches has_request_body e = ltb 0 e.request_body.original_size
condition_matches has_response_body e = ltb 0 e.response_body.original_size
condition_matches (error expected) e = same_bool (is_some e.error) expected
condition_matches (tls expected) e = same_bool (is_some e.tls) expected
condition_matches (duration c) e = comparison_matches c e.duration

pub record TrafficFilter : Type 0 where
  pub conditions : List Condition

unfoldable pub matches : TrafficFilter → TrafficEntry → Bool
unfolding condition_matches
matches f e = every (λ c. condition_matches c e) f.conditions

abbrev quoted : Text → Text
quoted t = b'\'' ∷ [] ++ t ++ b'\'' ∷ []

unfoldable pub non_empty : Text → Text → Result Text Text
unfolding text
non_empty value key =
    if is_empty value then err (text "empty value for " ++ quoted key) else ok value

unfoldable pub parse_bool : Text → Result Text Bool
unfolding text
parse_bool value =
    if text_eq value (text "true")
    then ok true
    else if text_eq value (text "false")
    then ok false
    else err (text "expected true or false, got " ++ quoted value)

strip_first : Text → List (Text × Operator) → Operator × Text
strip_first value [] = (eq, value)
strip_first value ((sign, op) ∷ rest) = elim (strip_prefix value sign) [
  | some raw ↦ (op, raw)
  | none ↦ strip_first value rest
]

unfoldable pub parse_operator : Text → Operator × Text
unfolding strip_first text
parse_operator value =
    strip_first value
      ((text ">=", gte) ∷ (text "<=", lte) ∷ (text ">", gt) ∷ (text "<", lt) ∷ (text "=", eq) ∷ [])

unfoldable pub parse_comparison_u16 : Text → Result Text Comparison
unfolding text parse_operator parse_uint
parse_comparison_u16 value =
    let (op, raw) = parse_operator value in
    do
      n ← ok_or (parse_uint u16_mod raw) (text "invalid status code " ++ quoted raw)
      ok (record { op = op; value = n })

-- A number of units of so many nanoseconds each.
parse_units : Text → Text → ℕ → Result Text ℕ
unfolding text parse_uint
parse_units raw digits unit = do
  n ← ok_or (parse_uint u64_mod digits) (text "invalid duration " ++ quoted raw)
  ok (n * unit)

abbrev pub millisecond : ℕ
millisecond = 1_000_000

abbrev pub second : ℕ
second = 1_000_000_000

parse_duration : Text → Result Text ℕ
unfolding parse_units strip_suffix text
parse_duration raw = elim (strip_suffix raw (text "ms")) [
  | some ms ↦ parse_units raw ms millisecond
  | none ↦ elim (strip_suffix raw (text "s")) [
    | some seconds ↦ parse_units raw seconds second
    | none ↦ parse_units raw raw millisecond
  ]
]

unfoldable pub parse_comparison_duration : Text → Result Text Comparison
unfolding parse_operator parse_duration
parse_comparison_duration value =
    let (op, raw) = parse_operator value in
    do n ← parse_duration raw; ok (record { op = op; value = n })

unfoldable pub parse_has : Text → Result Text Condition
unfolding text
parse_has value =
    if text_eq value (text "request-body")
    then ok has_request_body
    else if text_eq value (text "response-body")
    then ok has_response_body
    else err (text "unsupported has:" ++ value)

-- `match key`.
unfoldable pub parse_value : Text → Text → Result Text Condition
unfolding text non_empty parse_bool parse_comparison_u16 parse_comparison_duration parse_has
    to_ascii_lowercase to_ascii_uppercase
parse_value key value =
    if text_eq key (text "method")
    then (do v ← non_empty value key; ok (method (to_ascii_uppercase v)))
    else if text_eq key (text "host")
    then (do v ← non_empty value key; ok (host (to_ascii_lowercase v)))
    else if text_eq key (text "path")
    then (do v ← non_empty value key; ok (path v))
    else if text_eq key (text "status")
    then (do c ← parse_comparison_u16 value; ok (status c))
    else if text_eq key (text "type")
    then (do v ← non_empty value key; ok (content_type (to_ascii_lowercase v)))
    else if text_eq key (text "has")
    then parse_has value
    else if text_eq key (text "error")
    then (do b ← parse_bool value; ok (error b))
    else if text_eq key (text "tls")
    then (do b ← parse_bool value; ok (tls b))
    else if text_eq key (text "duration")
    then (do c ← parse_comparison_duration value; ok (duration c))
    else err (text "unsupported filter key " ++ quoted key)

-- One round of the loop.
unfoldable pub parse_token : Text → Result Text Condition
unfolding text split_once parse_value
parse_token token = do
  parts ← ok_or (split_once token b':') (text "invalid filter token " ++ quoted token)
  parse_value parts.0 parts.1

unfoldable pub parse_tokens : List Text → Result Text (List Condition)
unfolding parse_token
parse_tokens [] = ok []
parse_tokens (t ∷ ts) = do c ← parse_token t; cs ← parse_tokens ts; ok (c ∷ cs)

unfoldable pub parse : Text → Result Text TrafficFilter
unfolding split_whitespace parse_tokens
parse input = do cs ← parse_tokens (split_whitespace input); ok (record { conditions = cs })
