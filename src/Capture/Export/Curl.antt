-- ===== src/Capture/Export/Curl.antt =====
-- The command that `export_curl` prints, as a shell reads it.
use tlscope_rs.Base.{◌≡◌, true, List, [], ◌∷◌, ◌++◌, if◌then◌else◌}
use tlscope_rs.Text.{Text, text, eq_ignore_ascii_case}
use tlscope_rs.Text.Utf8.{Bytes}
use tlscope_rs.Capture.Entry.{TrafficEntry, Headers, url}
use tlscope_rs.Capture.Redact.{RedactionConfig, redact_headers}
use tlscope_rs.Capture.Export.{body_argument}
use tlscope_rs.Capture.Export.Quote.{reads_back}

abbrev pub ReadsBack : Text → Type 0
ReadsBack v = reads_back v ≡ true

-- The arguments that curl is to get.
unfoldable pub header_arguments : Headers → List Text
header_arguments [] = []
header_arguments ((name, value) ∷ headers) =
    let rest = header_arguments headers in
    if eq_ignore_ascii_case name (text "host")
    then rest
    else text "-H" ∷ (name ++ text ": " ++ value) ∷ rest

-- Words, each behind a blank.
spaced : List Text → Text
spaced [] = []
spaced (a ∷ args) = 32 ∷ (a ++ spaced args)

module _ (base64 : Bytes → Text) where
  unfoldable pub body_arguments : Bytes → List Text
  body_arguments [] = []
  body_arguments (b ∷ bytes) = text "--data-binary" ∷ body_argument base64 (b ∷ bytes) ∷ []

  unfoldable pub curl_arguments : TrafficEntry → RedactionConfig → List Text
  curl_arguments e redaction =
      text "-X"
      ∷ e.method
      ∷ url e
      ∷ (header_arguments (redact_headers e.request_headers redaction)
          ++ body_arguments e.request_body.bytes)
