-- ===== src/Capture/Suggest.antt =====
-- src/capture/filter_suggestions.rs: what the filter editor knows of the language, and the token at
-- the cursor.
pub mod Build
pub mod Verdict
pub mod Token
pub mod Prefix
pub mod State
use Prim.Native.Nat.{Ordering}
use tlscope_rs.Base.{
  ℕ, zero, suc, ◌+◌, ◌-◌, min, Bool, true, false, not, ◌&&◌, ◌||◌, List, [], ◌∷◌, ◌++◌, Option,
  none, some, ltb, leb, ◌==◌, if◌then◌else◌, Result, ok, err, keep, each, take, drop, take_while,
  some_of, is_empty,
}
use tlscope_rs.Base.Order.{compare_text}
use tlscope_rs.Text.{
  Text, text, text_eq, is_whitespace, to_ascii_lowercase, eq_ignore_ascii_case, starts_with,
  strip_prefix, split_once, split_whitespace, trim, byte_len, len_utf8,
}
use tlscope_rs.Text.Number.{show_uint}
use tlscope_rs.Text.Offset.{take_bytes, drop_bytes, clamp_to_char_boundary}
use tlscope_rs.Capture.SortedVec.{partition_point}
use tlscope_rs.Capture.Store.{FilterIndex}
use tlscope_rs.Capture.Filter.{parse, TrafficFilter}

abbrev pub filter_keys : List Text
unfolding text
filter_keys =
    text "duration:"
    ∷ text "error:"
    ∷ text "has:"
    ∷ text "host:"
    ∷ text "method:"
    ∷ text "path:"
    ∷ text "status:"
    ∷ text "tls:"
    ∷ text "type:"
    ∷ []

abbrev pub methods : List Text
unfolding text
methods =
    text "CONNECT"
    ∷ text "DELETE"
    ∷ text "GET"
    ∷ text "HEAD"
    ∷ text "OPTIONS"
    ∷ text "PATCH"
    ∷ text "POST"
    ∷ text "PUT"
    ∷ text "TRACE"
    ∷ []

abbrev pub booleans : List Text
unfolding text
booleans = text "false" ∷ text "true" ∷ []

abbrev pub has_values : List Text
unfolding text
has_values = text "request-body" ∷ text "response-body" ∷ []

abbrev pub operators : List Text
unfolding text
operators = text "<" ∷ text "<=" ∷ text "=" ∷ text ">" ∷ text ">=" ∷ []

abbrev pub duration_presets : List Text
unfolding text
duration_presets =
    text "100ms" ∷ text "250ms" ∷ text "500ms" ∷ text "1s" ∷ text "2s" ∷ text "5s" ∷ text "10s" ∷ []

abbrev pub content_type_aliases : List Text
unfolding text
content_type_aliases = text "html" ∷ text "json" ∷ text "text" ∷ text "xml" ∷ []

abbrev pub common_status_buckets : List ℕ
common_status_buckets = 200 ∷ 300 ∷ 400 ∷ 500 ∷ []

pub data SuggestionKind : Type 0 where
  key method host status content_type boolean has_value duration : SuggestionKind

pub record FilterSuggestion : Type 0 where
  pub replacement : Text
  pub display : Text
  pub kind : SuggestionKind

pub data FilterParseState : Type 0 where
  valid incomplete : FilterParseState
  invalid : Text → FilterParseState

pub record TokenRange : Type 0 where
  pub start : ℕ
  pub stop : ℕ

-- Behind the last white space; the arguments are the offset of what is left and the answer so far.
unfoldable pub after_last_space : Text → ℕ → ℕ → ℕ
after_last_space [] pos start = start
after_last_space (c ∷ s) pos start =
    after_last_space s (pos + len_utf8 c) (if is_whitespace c then pos + len_utf8 c else start)

-- The bytes before the first white space.
unfoldable pub until_space : Text → ℕ
until_space [] = 0
until_space (c ∷ s) = if is_whitespace c then 0 else len_utf8 c + until_space s

unfoldable pub current_token : Text → ℕ → TokenRange
unfolding after_last_space until_space take_bytes drop_bytes clamp_to_char_boundary byte_len
    is_whitespace
current_token s at =
    let cursor = clamp_to_char_boundary s (min at (byte_len s)) in
    record {
      start = after_last_space (take_bytes cursor s) 0 0;
      stop = cursor + until_space (drop_bytes cursor s);
    }
