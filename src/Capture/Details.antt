-- ===== src/Capture/Details.antt =====
-- src/capture/details.rs: the texts of the details tabs. Arguments stand for other code: the decompressors,
-- the JSON codec (its pretty form of a text, if it parses), the pairs of a URL's query, and how a time of
-- the system prints.
pub mod Tests
use tlscope_rs.Base.{
  ℕ, ◌+◌, ◌*◌, ◌/◌, ◌%◌, Bool, true, false, not, ◌&&◌, List, [], ◌∷◌, ◌++◌, Option, none, some, ltb,
  ◌==◌, if◌then◌else◌, length, take, is_empty, each, find,
}
use tlscope_rs.Text.{Text, text, eq_ignore_ascii_case, contains, join}
use tlscope_rs.Text.Number.{show_uint}
use tlscope_rs.Text.Utf8.{Bytes, from_utf8}
use tlscope_rs.Capture.Body.{CapturedBody, text_preview}
use tlscope_rs.Capture.Entry.{
  TrafficEntry, TlsInformation, CertificateInformation, Headers, url, status_label,
}
use tlscope_rs.Capture.Decode.{Inflate}
use tlscope_rs.Capture.Decode.Preview.{decode_body_for_preview_with_limit, decode_body_for_preview}
use tlscope_rs.Capture.Export.{format_size}

abbrev not_available : Text
unfolding text
not_available = text "N/A"

abbrev or_na : Option Text → Text
unfolding not_available
or_na none = not_available
or_na (some t) = t

unfoldable pub header : Headers → Text → Option Text
unfolding eq_ignore_ascii_case
header headers name = elim (find (λ (p : Text × Text). eq_ignore_ascii_case p.0 name) headers) [
  | none ↦ none
  | some p ↦ some p.1
]

abbrev hex_digit : ℕ → ℕ
hex_digit n = if ltb n 10 then n + 48 else n + 55

-- `{:02X}`.
unfoldable pub hex_byte : ℕ → Text
hex_byte b = hex_digit (b / 16) ∷ hex_digit (b % 16) ∷ []

-- The bytes from an index on.
unfoldable pub hex_from : ℕ → Bytes → Text
unfolding hex_byte
hex_from index [] = []
hex_from index (byte ∷ bytes) =
    let rest = hex_from (index + 1) bytes in
    if ltb 0 index && (index % 16) == 0
    then (10 ∷ hex_byte byte) ++ rest
    else (hex_byte byte ++ b' ' ∷ []) ++ rest

unfoldable pub hex_preview : Bytes → Text
unfolding hex_from
hex_preview bytes = hex_from 0 (take 512 bytes)

unfoldable pub header_lines : Headers → Text
unfolding text
header_lines [] = []
header_lines ((name, value) ∷ headers) = name ++ text ": " ++ value ++ 10 ∷ header_lines headers

-- `Duration::as_millis` of a number of nanoseconds.
abbrev as_millis : ℕ → ℕ
as_millis nanos = nanos / 1000000

abbrev or_header : Option Text → Option Text → Option Text
or_header none b = b
or_header (some a) b = some a

abbrev shown_pid : Option ℕ → Text
unfolding show_uint not_available
shown_pid none = not_available
shown_pid (some pid) = show_uint pid

abbrev of_certificate : (CertificateInformation → Text) → Option CertificateInformation → Text
unfolding not_available
of_certificate field none = not_available
of_certificate field (some c) = field c

unfoldable pub tls_text : TrafficEntry → Text
unfolding text or_na of_certificate
tls_text entry = elim entry.tls [
  | none ↦ text "No decrypted TLS information. CONNECT may be tunneled or this was plain HTTP."
  | some tls ↦
      text "Host: "
      ++ tls.host
      ++ text "\nTLS: "
      ++ or_na tls.tls_version
      ++ text "\nALPN: "
      ++ or_na tls.alpn
      ++ text "\nSubject: "
      ++ of_certificate (λ (c : CertificateInformation). c.subject) tls.certificate
      ++ text "\nIssuer: "
      ++ of_certificate (λ (c : CertificateInformation). c.issuer) tls.certificate
      ++ text "\nSAN: "
      ++ of_certificate (λ (c : CertificateInformation). join c.san (text ", ")) tls.certificate
      ++ text "\nValid from: "
      ++ of_certificate (λ (c : CertificateInformation). c.valid_from) tls.certificate
      ++ text "\nValid until: "
      ++ of_certificate (λ (c : CertificateInformation). c.valid_until) tls.certificate
      ++ text "\nSHA-256: "
      ++ of_certificate (λ (c : CertificateInformation). c.sha256_fingerprint) tls.certificate
      ++ text "\nVerification: "
      ++ tls.verification
      ++ text "\n\n"
      ++ tls.child_certificate_note
]

unfoldable pub timing_text : TrafficEntry → Text
unfolding text show_uint
timing_text entry =
    text "Local proxy connection: N/A\nDNS: N/A\nTCP connect: N/A\nTLS handshake: N/A\n"
    ++ text "Request send: N/A\nFirst byte wait: N/A\nResponse download: N/A\nTotal: "
    ++ show_uint (as_millis entry.duration)
    ++ text "ms"

-- A body as its text, or as bytes.
abbrev raw_body : CapturedBody → Text
unfolding text_preview hex_preview
raw_body body = elim (text_preview body) [ none ↦ hex_preview body.bytes | some t ↦ t ]

unfoldable pub raw_text : TrafficEntry → Text
unfolding text header_lines raw_body status_label
raw_text entry =
    entry.method
    ++ text " "
    ++ entry.path
    ++ text " "
    ++ entry.http_version
    ++ text "\n"
    ++ header_lines entry.request_headers
    ++ text "\n"
    ++ raw_body entry.request_body
    ++ text "\n\n--- response ---\nStatus: "
    ++ status_label entry
    ++ text "\n"
    ++ header_lines entry.response_headers
    ++ text "\n"
    ++ raw_body entry.response_body

abbrev shown_bool : Bool → Text
unfolding text
shown_bool true = text "true"
shown_bool false = text "false"

abbrev encoding_of : Option Text → Text
unfolding text
encoding_of none = text "identity"
encoding_of (some e) = e

abbrev warning_lines : List Text → Text
unfolding text
warning_lines [] = []
warning_lines (w ∷ ws) = text "decode warning: " ++ w ++ text "\n" ++ warning_lines ws

abbrev says_json : Option Text → Bool
unfolding text contains
says_json none = false
says_json (some kind) = contains kind (text "json")

-- The pretty form of a body that is said to be JSON and parses.
abbrev pretty_or_text : Option Text → Text → Text
pretty_or_text none t = t
pretty_or_text (some pretty) t = pretty

module _ (inflate : Inflate) (pretty_json : Text → Option Text) where
  abbrev decoded_body : CapturedBody → Bytes → Text
  unfolding from_utf8 hex_preview says_json
  decoded_body body bytes = elim (from_utf8 bytes) [
    | none ↦ hex_preview bytes
    | some t ↦ if says_json body.content_type then pretty_or_text (pretty_json t) t else t
  ]

  unfoldable pub body_preview : CapturedBody → Text
  unfolding text format_size decode_body_for_preview_with_limit decoded_body warning_lines
  body_preview body =
      let decoded = decode_body_for_preview inflate body in
      if body.original_size == 0
      then text "N/A"
      else text "stored="
        ++ format_size (length body.bytes)
        ++ text " original="
        ++ format_size body.original_size
        ++ text " decoded="
        ++ format_size (length decoded.bytes)
        ++ text " truncated="
        ++ shown_bool body.truncated
        ++ text " transfer="
        ++ encoding_of body.transfer_encoding
        ++ text " encoding="
        ++ encoding_of body.content_encoding
        ++ text "\n"
        ++ warning_lines decoded.warnings
        ++ decoded_body body decoded.bytes

  unfoldable pub response_text : TrafficEntry → Text
  unfolding text status_label header_lines header or_na body_preview
  response_text entry =
      text "Status: "
      ++ status_label entry
      ++ text "\n\nHeaders:\n"
      ++ header_lines entry.response_headers
      ++ text "\nCookies:\n"
      ++ or_na (header entry.response_headers (text "set-cookie"))
      ++ text "\n\nBody:\n"
      ++ body_preview entry.response_body

  module _ (query_pairs : Text → Option (List (Text × Text))) where
    unfoldable pub query_params : TrafficEntry → Text
    unfolding text url not_available
    query_params entry = elim (query_pairs (url entry)) [
      | none ↦ not_available
      | some [] ↦ not_available
      | some (p ∷ pairs) ↦
          join (each (λ (q : Text × Text). q.0 ++ text "=" ++ q.1) (p ∷ pairs)) (text "\n")
    ]

    unfoldable pub request_text : TrafficEntry → Text
    unfolding text header_lines query_params header or_na body_preview
    request_text entry =
        text "Headers:\n"
        ++ header_lines entry.request_headers
        ++ text "\nQuery parameters:\n"
        ++ query_params entry
        ++ text "\nCookies:\n"
        ++ or_na (header entry.request_headers (text "cookie"))
        ++ text "\n\nBody:\n"
        ++ body_preview entry.request_body

module _ (show_time : ℕ → Text) where
  unfoldable pub overview_text : TrafficEntry → Text
  unfolding text url status_label format_size header or_na shown_pid show_uint
  overview_text entry =
      join
        ((text "URL: " ++ url entry)
          ∷ (text "Method: " ++ entry.method)
          ∷ (text "Status: " ++ status_label entry)
          ∷ (text "Duration: " ++ show_uint (as_millis entry.duration) ++ text "ms")
          ∷ (text "Request size: " ++ format_size entry.request_size)
          ∷ (text "Response size: " ++ format_size entry.response_size)
          ∷ (text "Content-Type: "
              ++ or_na (
                  or_header (header entry.response_headers (text "content-type"))
                    (header entry.request_headers (text "content-type"))))
          ∷ text "Remote IP: N/A"
          ∷ (text "PID: " ++ shown_pid entry.process_id)
          ∷ (text "Started: " ++ show_time entry.started_at)
          ∷ (text "Completed: " ++ show_time (entry.started_at + entry.duration))
          ∷ (text "Error: " ++ or_na entry.error)
          ∷ [])
        (text "\n")
