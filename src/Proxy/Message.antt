-- ===== src/Proxy/Message.antt =====
-- src/proxy/http.rs: the parsed head of a message, its headers, and the answers of the proxy itself. The
-- parser of httparse is the argument `Httparse`. An error is the text that anyhow shows for it.
use tlscope_rs.Base.{
  ℕ, Bool, false, ◌&&◌, List, [], ◌++◌, Option, none, some, Result, ok, err, ok_or, ◌==◌, ◌>>=◌,
  some_of, find, each, u64_mod,
}
use tlscope_rs.Text.{Text, text, split, trim, eq_ignore_ascii_case, byte_len}
use tlscope_rs.Text.Number.{parse_uint, show_uint}
use tlscope_rs.Text.Utf8.{Bytes, from_utf8_lossy, as_bytes}
use tlscope_rs.Capture.Entry.{Headers}
use tlscope_rs.Proxy.Stream.{Writer, write_all}

pub record ParsedRequest : Type 0 where
  pub method : Text
  pub path : Text
  pub version : Text
  pub headers : Headers
  pub content_length : Option ℕ
  pub content_type : Option Text
  pub content_encoding : Option Text
  pub transfer_encoding : Option Text

pub record ParsedResponse : Type 0 where
  pub status : ℕ
  pub version : Text
  pub headers : Headers
  pub content_length : Option ℕ
  pub content_type : Option Text
  pub content_encoding : Option Text
  pub transfer_encoding : Option Text

-- What httparse finds in a head: `none` is a head that is not complete.
pub record RawRequest : Type 0 where
  pub method : Option Text
  pub path : Option Text
  pub version : Option ℕ
  pub headers : List (Text × Bytes)

pub record RawResponse : Type 0 where
  pub code : Option ℕ
  pub version : Option ℕ
  pub headers : List (Text × Bytes)

pub record Httparse : Type 0 where
  pub request : Bytes → Result Text (Option RawRequest)
  pub response : Bytes → Result Text (Option RawResponse)

abbrev pub context {ℓ} : {A : Type ℓ} → Result Text A → Text → Result Text A
context (ok a) message = ok a
context (err e) message = err message

abbrev or_default : Option Text → Text
or_default none = []
or_default (some t) = t

unfoldable pub header_value : Headers → Text → Option Text
unfolding eq_ignore_ascii_case
header_value headers name =
    elim (find (λ (p : Text × Text). eq_ignore_ascii_case p.0 name) headers) [
      | none ↦ none
      | some p ↦ some p.1
    ]

unfoldable pub header_tokens_contain : Option Text → Text → Bool
unfolding split trim eq_ignore_ascii_case
header_tokens_contain value needle =
    some_of (λ part. eq_ignore_ascii_case (trim part) needle) (split (or_default value) b',')

unfoldable pub has_chunked_transfer : Option Text → Bool
unfolding text split trim eq_ignore_ascii_case
has_chunked_transfer value =
    some_of (λ part. eq_ignore_ascii_case (trim part) (text "chunked"))
      (split (or_default value) b',')

abbrev pub is_trimmed_some : Option Text → Text → Bool
unfolding trim eq_ignore_ascii_case
is_trimmed_some none t = false
is_trimmed_some (some value) t = eq_ignore_ascii_case (trim value) t

unfoldable pub is_websocket_upgrade_request : ParsedRequest → Bool
unfolding text header_value header_tokens_contain eq_ignore_ascii_case
is_websocket_upgrade_request r =
    eq_ignore_ascii_case r.method (text "GET")
    && is_trimmed_some (header_value r.headers (text "upgrade")) (text "websocket")
    && header_tokens_contain (header_value r.headers (text "connection")) (text "upgrade")

unfoldable pub is_websocket_upgrade_response : ParsedResponse → Bool
unfolding text header_value header_tokens_contain
is_websocket_upgrade_response r =
    (r.status == 101)
    && is_trimmed_some (header_value r.headers (text "upgrade")) (text "websocket")
    && header_tokens_contain (header_value r.headers (text "connection")) (text "upgrade")

unfoldable pub content_length : Headers → Option ℕ
unfolding text header_value trim parse_uint
content_length headers = elim (header_value headers (text "content-length")) [
  | none ↦ none
  | some value ↦ parse_uint u64_mod (trim value)
]

abbrev pub copy_headers : List (Text × Bytes) → Headers
unfolding from_utf8_lossy
copy_headers headers = each (λ (h : Text × Bytes). (h.0, from_utf8_lossy h.1)) headers

abbrev pub version_text : Option ℕ → Text
unfolding text show_uint
version_text none = text "HTTP/1.1"
version_text (some v) = text "HTTP/1." ++ show_uint v

abbrev complete {ℓ} : {A : Type ℓ} → Option A → Text → Result Text A
complete o message = ok_or o message

module _ (httparse : Httparse) where
  unfoldable pub parse_request : Bytes → Result Text ParsedRequest
  unfolding text content_length header_value
  parse_request header = do
    found ← context (httparse.request header) (text "failed to parse HTTP request")
    raw ← complete found (text "incomplete HTTP request header")
    method ← ok_or raw.method (text "HTTP request has no method")
    path ← ok_or raw.path (text "HTTP request has no path")
    let headers = copy_headers raw.headers in
        ok (record {
          method = method;
          path = path;
          version = version_text raw.version;
          headers = headers;
          content_length = content_length headers;
          content_type = header_value headers (text "content-type");
          content_encoding = header_value headers (text "content-encoding");
          transfer_encoding = header_value headers (text "transfer-encoding");
        })

  unfoldable pub parse_response : Bytes → Result Text ParsedResponse
  unfolding text content_length header_value
  parse_response header = do
    found ← context (httparse.response header) (text "failed to parse HTTP response")
    raw ← complete found (text "incomplete HTTP response header")
    status ← ok_or raw.code (text "HTTP response has no status")
    let headers = copy_headers raw.headers in
        ok (record {
          status = status;
          version = version_text raw.version;
          headers = headers;
          content_length = content_length headers;
          content_type = header_value headers (text "content-type");
          content_encoding = header_value headers (text "content-encoding");
          transfer_encoding = header_value headers (text "transfer-encoding");
        })

unfoldable pub write_simple_response : Writer → ℕ → Text → Text → Result Text Writer
unfolding text show_uint byte_len as_bytes write_all
write_simple_response w status reason body =
    context
      (write_all w (
        as_bytes (
          text "HTTP/1.1 "
          ++ show_uint status
          ++ text " "
          ++ reason
          ++ text "\r\nContent-Type: text/plain; charset=utf-8\r\nContent-Length: "
          ++ show_uint (byte_len body)
          ++ text "\r\nConnection: close\r\n\r\n"
          ++ body)))
      (text "failed to write proxy error response")
