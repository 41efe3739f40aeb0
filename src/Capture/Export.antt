-- ===== src/Capture/Export.antt =====
-- src/capture/export.rs: an exchange as a curl command, a text report, and sizes for people. base64 is
-- the argument `base64`; the JSON and HAR files are made by serde_json.
pub mod Shell
pub mod Quote
pub mod Curl
pub mod Tests
use tlscope_rs.Base.{
  ℕ, zero, suc, ◌+◌, ◌-◌, ◌*◌, ◌/◌, ◌%◌, ◌^◌, Bool, true, false, ◌&&◌, ◌||◌, List, [], ◌∷◌, ◌++◌,
  Option, none, some, ltb, leb, ◌==◌, if◌then◌else◌, every, is_empty,
}
use tlscope_rs.Text.{Text, text, contains_char, join, eq_ignore_ascii_case}
use tlscope_rs.Text.Number.{show_uint}
use tlscope_rs.Text.Utf8.{Bytes, from_utf8}
use tlscope_rs.Capture.Entry.{TrafficEntry, Headers, url, status_label}
use tlscope_rs.Capture.Redact.{RedactionConfig, Codecs, redact_headers, redacted_entry}

abbrev pub is_ascii_alphanumeric : ℕ → Bool
is_ascii_alphanumeric c =
    (leb b'0' c && leb c b'9') || (leb b'A' c && leb c b'Z') || (leb b'a' c && leb c b'z')

abbrev plain_marks : Text
unfolding text
plain_marks = text "-_./:=?&%+"

unfoldable pub is_plain : ℕ → Bool
unfolding plain_marks contains_char
is_plain c = is_ascii_alphanumeric c || contains_char plain_marks c

-- `replace('\'', "'\\''")`.
unfoldable pub escape_quotes : Text → Text
escape_quotes [] = []
escape_quotes (c ∷ s) =
    let rest = escape_quotes s in if c == 39 then 39 ∷ 92 ∷ 39 ∷ 39 ∷ rest else c ∷ rest

unfoldable pub shell_quote : Text → Text
shell_quote value = if every is_plain value then value else 39 ∷ (escape_quotes value ++ 39 ∷ [])

-- The options for the headers; curl sets `Host` itself.
unfoldable pub header_parts : Headers → List Text
header_parts [] = []
header_parts ((name, value) ∷ headers) =
    let rest = header_parts headers in
    if eq_ignore_ascii_case name (text "host")
    then rest
    else text "-H" ∷ shell_quote (name ++ text ": " ++ value) ∷ rest

module _ (base64 : Bytes → Text) where
  unfoldable pub body_argument : Bytes → Text
  body_argument bytes = elim (from_utf8 bytes) [
    | some body ↦ body
    | none ↦ text "@<(base64 -d <<<'" ++ base64 bytes ++ text "')"
  ]

  unfoldable pub body_parts : Bytes → List Text
  body_parts [] = []
  body_parts (b ∷ bytes) = text "--data-binary" ∷ shell_quote (body_argument (b ∷ bytes)) ∷ []

  unfoldable pub export_curl : TrafficEntry → RedactionConfig → Text
  export_curl e redaction =
      join
        (text "curl"
          ∷ text "-X"
          ∷ shell_quote e.method
          ∷ shell_quote (url e)
          ∷ (header_parts (redact_headers e.request_headers redaction)
              ++ body_parts e.request_body.bytes))
        (text " ")

-- `n` as a multiple of `unit`, the nearest one, and of two as near the even one.
unfoldable pub round_even : ℕ → ℕ → ℕ
round_even n unit =
    let q = n / unit in
    let twice = 2 * (n % unit) in
    if ltb unit twice || (twice == unit && q % 2 == 1) then q + 1 else q

-- `size as f64`: 53 bits are kept. A `u64` loses eleven at most.
unfoldable pub as_f64 : ℕ → ℕ → ℕ → ℕ
unfolding round_even
as_f64 zero unit n = round_even n unit * unit
as_f64 (suc left) unit n =
    let coarser = as_f64 left (2 * unit) n in
    if ltb n (unit * 9007199254740992) then round_even n unit * unit else coarser

-- `{:.1}` of a number of units of 2^10 or 2^20 bytes, which a float divides exactly.
unfoldable pub one_decimal : ℕ → ℕ → Text
unfolding text show_uint round_even
one_decimal size unit =
    let tenths = round_even (size * 10) unit in
    show_uint (tenths / 10) ++ text "." ++ show_uint (tenths % 10)

unfoldable pub format_size : ℕ → Text
unfolding text show_uint one_decimal as_f64
format_size size =
    if ltb size 1024
    then show_uint size ++ text " B"
    else if ltb (as_f64 11 1 size) 1048576
    then one_decimal (as_f64 11 1 size) 1024 ++ text " KB"
    else one_decimal (as_f64 11 1 size) 1048576 ++ text " MB"

module _ (codecs : Codecs) where
  unfoldable pub report_entry : TrafficEntry → RedactionConfig → Text
  unfolding text show_uint url status_label format_size redacted_entry
  report_entry entry redaction =
      let e = redacted_entry codecs entry redaction in
      text "#"
      ++ show_uint e.id
      ++ text " "
      ++ e.method
      ++ text " "
      ++ url e
      ++ text " "
      ++ status_label e
      ++ text " "
      ++ format_size e.response_size
      ++ text "\n"
      ++ elim e.error [ none ↦ [] | some error ↦ text "error: " ++ error ++ text "\n" ]
      ++ text "\n"

  unfoldable pub text_report : List TrafficEntry → RedactionConfig → Text
  unfolding report_entry
  text_report [] redaction = []
  text_report (e ∷ entries) redaction = report_entry e redaction ++ text_report entries redaction
