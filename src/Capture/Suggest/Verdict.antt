-- ===== src/Capture/Suggest/Verdict.antt =====
-- src/capture/filter_suggestions.rs: whether a filter text parses, or is a beginning.
use tlscope_rs.Base.{
  Bool, false, not, ◌&&◌, ◌||◌, List, none, some, if◌then◌else◌, Result, ok, err, some_of, is_empty,
}
use tlscope_rs.Text.{
  Text, text, text_eq, to_ascii_lowercase, eq_ignore_ascii_case, starts_with, split_once,
  split_whitespace, trim,
}
use tlscope_rs.Capture.Filter.{parse, TrafficFilter}
use tlscope_rs.Capture.Suggest.{
  filter_keys, methods, booleans, has_values, FilterParseState, valid, incomplete, invalid,
}

unfoldable pub prefixed_by : Text → List Text → Bool
unfolding to_ascii_lowercase eq_ignore_ascii_case
prefixed_by value candidates =
    let lower = to_ascii_lowercase value in
    not (some_of (λ c. eq_ignore_ascii_case c lower) candidates)
    && some_of (λ c. starts_with (to_ascii_lowercase c) lower) candidates

is_operator_prefix : Text → Bool
unfolding text
is_operator_prefix value =
    is_empty value
    || text_eq value (text "<")
    || text_eq value (text "<=")
    || text_eq value (text ">")
    || text_eq value (text ">=")
    || text_eq value (text "=")

is_incomplete_value : Text → Text → Bool
unfolding text prefixed_by is_operator_prefix
is_incomplete_value k value =
    if text_eq k (text "method")
    then is_empty value || prefixed_by value methods
    else if text_eq k (text "host") || text_eq k (text "path") || text_eq k (text "type")
    then is_empty value
    else if text_eq k (text "status") || text_eq k (text "duration")
    then is_operator_prefix value
    else if text_eq k (text "has")
    then is_empty value || prefixed_by value has_values
    else if text_eq k (text "error") || text_eq k (text "tls")
    then is_empty value || prefixed_by value booleans
    else false

unfoldable pub is_incomplete_token : Text → Bool
unfolding is_incomplete_value split_once to_ascii_lowercase text
is_incomplete_token token = elim (split_once token b':') [
  | none ↦
      not (is_empty (to_ascii_lowercase token))
      && some_of (λ k. starts_with k (to_ascii_lowercase token)) filter_keys
  | some (k, value) ↦ is_incomplete_value k value
]

unfoldable pub state_of : Result Text TrafficFilter → FilterParseState
state_of (ok f) = valid
state_of (err e) = invalid e

unfoldable pub filter_parse_state : Text → FilterParseState
unfolding trim split_whitespace is_incomplete_token parse state_of
filter_parse_state s =
    if is_empty (trim s)
    then valid
    else if some_of is_incomplete_token (split_whitespace s)
    then incomplete
    else state_of (parse s)
