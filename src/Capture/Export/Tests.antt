-- ===== src/Capture/Export/Tests.antt =====
-- The export at concrete inputs.
use tlscope_rs.Base.{◌≡◌, refl, false, [], ◌∷◌, none, some, if◌then◌else◌, is_empty}
use tlscope_rs.Text.{Text, text, contains_char, eq_ignore_ascii_case}
use tlscope_rs.Text.Utf8.{Bytes, from_utf8}
use tlscope_rs.Capture.Body.{empty}
use tlscope_rs.Capture.Entry.{TrafficEntry, url}
use tlscope_rs.Capture.Redact.{new, redact_headers}
use tlscope_rs.Capture.Export.{
  shell_quote, escape_quotes, is_plain, header_parts, body_argument, body_parts, export_curl,
  format_size,
}
use tlscope_rs.Capture.Export.Shell.{shell_words}
use tlscope_rs.Capture.Export.Quote.{reads_back, shell_words-shell_quote}

abbrev exchange : TrafficEntry
unfolding text empty
exchange = record {
  id = 1;
  started_at = 0;
  duration = 0;
  process_id = none;
  scheme = text "http";
  host = text "example.com";
  port = 80;
  method = text "POST";
  path = text "/it's";
  http_version = text "HTTP/1.1";
  request_headers = (text "Host", text "example.com") ∷ (text "Cookie", text "secret") ∷ [];
  request_body = record empty { bytes = text "a b" };
  response_status = none;
  response_headers = [];
  response_body = empty;
  request_size = 3;
  response_size = 0;
  tls = none;
  error = none;
}

abbrev no_base64 : Bytes → Text
no_base64 = λ bytes. []

printed :
    export_curl no_base64 exchange (new false false)
    ≡ text "curl -X POST 'http://example.com/it'\\''s' -H 'Cookie: <redacted>' --data-binary 'a b'"
unfolding export_curl exchange text shell_quote is_plain escape_quotes contains_char url
    header_parts body_parts body_argument redact_headers new from_utf8 eq_ignore_ascii_case empty
printed = refl

-- An `&` or a `?` alone is not quoted.
unquoted : shell_quote (text "a=1&b=2") ≡ text "a=1&b=2"
unfolding shell_quote is_plain contains_char text
unquoted = refl

sizes :
    (format_size 1536 ≡ text "1.5 KB")
    × (format_size 1088 ≡ text "1.1 KB")
    × (format_size 1048575 ≡ text "1024.0 KB")
unfolding format_size text
sizes = (refl, refl, refl)

shell_words-shell_quote_example : shell_words (shell_quote (text "it's a&b")) ≡ (
    if reads_back (text "it's a&b")
    then some (text "it's a&b" ∷ [])
    else if is_empty (text "it's a&b")
    then some []
    else none)
unfolding text
shell_words-shell_quote_example = shell_words-shell_quote (text "it's a&b")
