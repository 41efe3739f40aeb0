-- ===== src/Capture/Entry.antt =====
-- `TrafficEntry` of src/capture/model.rs, and the texts that name an entry. Times are numbers of
-- nanoseconds, `started_at` since the epoch.
use tlscope_rs.Base.{
  ℕ, Bool, true, false, ◌&&◌, ◌||◌, not, List, ◌++◌, Option, none, some, ltb, leb, ◌==◌,
  if◌then◌else◌,
}
use tlscope_rs.Text.{Text, text, text_eq, eq_ignore_ascii_case, contains_char}
use tlscope_rs.Text.Number.{show_uint}
use tlscope_rs.Text.Ip.{is_ip}
use tlscope_rs.Capture.Body.{CapturedBody}

pub record CertificateInformation : Type 0 where
  pub issuer : Text
  pub subject : Text
  pub san : List Text
  pub valid_from : Text
  pub valid_until : Text
  pub sha256_fingerprint : Text

pub record TlsInformation : Type 0 where
  pub host : Text
  pub tls_version : Option Text
  pub alpn : Option Text
  pub certificate : Option CertificateInformation
  pub verification : Text
  pub child_certificate_note : Text

abbrev pub Headers : Type 0
Headers = List (Text × Text)

pub record TrafficEntry : Type 0 where
  pub id : ℕ
  pub started_at : ℕ
  pub duration : ℕ
  pub process_id : Option ℕ
  pub scheme : Text
  pub host : Text
  pub port : ℕ
  pub method : Text
  pub path : Text
  pub http_version : Text
  pub request_headers : Headers
  pub request_body : CapturedBody
  pub response_status : Option ℕ
  pub response_headers : Headers
  pub response_body : CapturedBody
  pub request_size : ℕ
  pub response_size : ℕ
  pub tls : Option TlsInformation
  pub error : Option Text

unfoldable pub is_connect : TrafficEntry → Bool
unfolding text eq_ignore_ascii_case
is_connect e = eq_ignore_ascii_case e.method (text "CONNECT")

unfoldable pub is_default_port : Text → ℕ → Bool
unfolding text
is_default_port scheme port =
    (text_eq scheme (text "http") && port == 80) || (text_eq scheme (text "https") && port == 443)

unfoldable pub bracketed : Text → Text
unfolding text is_ip contains_char
bracketed host =
    if is_ip host && contains_char host b':' then text "[" ++ host ++ text "]" else host

unfoldable pub authority : TrafficEntry → Bool → Text
unfolding text is_default_port bracketed show_uint
authority e include_default_port =
    if include_default_port || not (is_default_port e.scheme e.port)
    then bracketed e.host ++ text ":" ++ show_uint e.port
    else bracketed e.host

unfoldable pub url : TrafficEntry → Text
unfolding text is_connect authority
url e =
    if is_connect e
    then e.scheme ++ text "://" ++ authority e true
    else e.scheme ++ text "://" ++ authority e false ++ e.path

unfoldable pub display_target : TrafficEntry → Text
unfolding is_connect authority
display_target e = if is_connect e then authority e true else e.host ++ e.path

status_class : Option ℕ → Text
unfolding text show_uint
status_class none = text "OPEN"
status_class (some status) =
    if leb 200 status && ltb status 300
    then text "OK " ++ show_uint status
    else if leb 300 status && ltb status 400
    then text "REDIR " ++ show_uint status
    else if leb 400 status && ltb status 500
    then text "CLIENT " ++ show_uint status
    else if leb 500 status
    then text "SERVER " ++ show_uint status
    else show_uint status

unfoldable pub status_label : TrafficEntry → Text
unfolding text status_class
status_label e = elim e.error [
  | some error ↦ text "ERR " ++ error
  | none ↦ status_class e.response_status
]
