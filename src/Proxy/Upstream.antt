-- ===== src/Proxy/Upstream.antt =====
-- src/proxy/upstream.rs: where a request goes, and the head that is sent there. The parser of the url
-- crate is the argument `url_parse`.
pub mod Authority
pub mod Header
use tlscope_rs.Base.{
  ℕ, Bool, true, false, not, ◌&&◌, ◌||◌, List, [], ◌∷◌, ◌++◌, Option, none, some, Result, ok, err,
  ok_or, ◌==◌, if◌then◌else◌, ◌>>=◌, is_empty, u16_mod,
}
use tlscope_rs.Text.{
  Text, text, text_eq, trim, split_once, rsplit_once, strip_prefix, starts_with, contains_char,
  to_ascii_lowercase,
}
use tlscope_rs.Text.Number.{parse_uint, show_uint}
use tlscope_rs.Text.Ip.{is_ip}
use tlscope_rs.Text.Utf8.{Bytes, as_bytes}
use tlscope_rs.Capture.Entry.{Headers, is_default_port}
use tlscope_rs.Proxy.Message.{ParsedRequest, header_value}

pub record UpstreamTarget : Type 0 where
  pub scheme : Text
  pub host : Text
  pub port : ℕ
  pub path : Text

unfoldable pub authority : UpstreamTarget → Text
authority t =
    if is_default_port t.scheme t.port
    then t.host
    else if is_ip t.host && contains_char t.host b':'
    then text "[" ++ t.host ++ text "]:" ++ show_uint t.port
    else t.host ++ text ":" ++ show_uint t.port

unfoldable pub parse_port : Text → Text → Result Text ℕ
parse_port value port =
    ok_or (parse_uint u16_mod port) (text "invalid port in authority '" ++ value ++ text "'")

-- What follows the bracket of an address.
unfoldable pub bracketed_port : Text → Text → ℕ → Result Text ℕ
bracketed_port value [] default_port = ok default_port
bracketed_port value (c ∷ after) default_port =
    if c == b':' then parse_port value after else ok default_port

-- A trimmed text that is not in brackets.
unfoldable pub split_plain : Text → ℕ → Result Text (Text × ℕ)
split_plain value default_port = elim (rsplit_once value b':') [
  | none ↦ ok (value, default_port)
  | some (host, port) ↦ elim (contains_char host b':') [
    | true ↦ ok (value, default_port)
    | false ↦ do n ← parse_port value port; ok (host, n)
  ]
]

unfoldable pub split_trimmed : Text → ℕ → Result Text (Text × ℕ)
split_trimmed [] default_port = err (text "empty host")
split_trimmed (c ∷ rest) default_port =
    if c == b'['
    then (do
      (host, after) ←
          ok_or (split_once rest b']')
            (text "invalid bracketed IPv6 host '" ++ (c ∷ rest) ++ text "'")
      port ← bracketed_port (c ∷ rest) after default_port
      ok (host, port))
    else split_plain (c ∷ rest) default_port

unfoldable pub split_host_port : Text → ℕ → Result Text (Text × ℕ)
split_host_port value default_port = split_trimmed (trim value) default_port

unfoldable pub parse_connect_authority : Text → Result Text (Text × ℕ)
unfolding split_host_port
parse_connect_authority value = split_host_port value 443

-- What the program reads of a parsed URL.
pub record Url : Type 0 where
  pub scheme : Text
  pub host_str : Option Text
  pub port_or_known_default : Option ℕ
  pub path : Text
  pub query : Option Text

abbrev pub is_absolute : Text → Bool
unfolding text
is_absolute path = starts_with path (text "http://") || starts_with path (text "https://")

abbrev path_and_query : Url → Text
unfolding text
path_and_query url =
    (if is_empty url.path then text "/" else url.path)
    ++ elim url.query [ none ↦ [] | some query ↦ text "?" ++ query ]

module _ (url_parse : Text → Option Url) where
  unfoldable pub origin_path : Text → Result Text Text
  unfolding text is_absolute path_and_query
  origin_path path =
      if is_absolute path
      then (do
        url ← ok_or (url_parse path) (text "invalid absolute request URL")
        ok (path_and_query url))
      else ok (if is_empty path then text "/" else path)

  unfoldable pub absolute_target : Text → Result Text UpstreamTarget
  unfolding text path_and_query
  absolute_target path = do
    url ← ok_or (url_parse path) (text "invalid absolute request URL")
    host ← ok_or url.host_str (text "absolute request URL has no host")
    port ←
        ok_or url.port_or_known_default
          (text "absolute request URL has no port and no known default for scheme")
    ok (record { scheme = url.scheme; host = host; port = port; path = path_and_query url })

  unfoldable pub host_target : ParsedRequest → Result Text UpstreamTarget
  unfolding text header_value split_host_port origin_path
  host_target request = do
    host_header ←
        ok_or (header_value request.headers (text "host")) (text "HTTP request has no Host header")
    (host, port) ← split_host_port host_header 80
    path ← origin_path request.path
    ok (record { scheme = text "http"; host = host; port = port; path = path })

  unfoldable pub target_from_request :
      ParsedRequest → Option (Text × Text × ℕ) → Result Text UpstreamTarget
  unfolding origin_path absolute_target host_target is_absolute
  target_from_request request (some (scheme, host, port)) = do
    path ← origin_path request.path
    ok (record { scheme = scheme; host = host; port = port; path = path })
  target_from_request request none =
      if is_absolute request.path then absolute_target request.path else host_target request

unfoldable pub header_line : Text → Text → Bytes
header_line name value = as_bytes (name ++ text ": " ++ value ++ text "\r\n")

unfoldable pub is_named : Text → Text → Bool
is_named name lower = text_eq (to_ascii_lowercase name) lower

-- The variables of the loop over the headers.
pub record Relay : Type 0 where
  pub out : Bytes
  pub has_host : Bool
  pub has_connection : Bool

-- The two `continue`s.
unfoldable pub is_skipped : Bool → Text → Bool
is_skipped preserve_connection_headers name =
    is_named name (text "proxy-connection")
    || is_named name (text "proxy-authorization")
    || (not preserve_connection_headers
        && (is_named name (text "connection") || is_named name (text "keep-alive")))

unfoldable pub relay_header : UpstreamTarget → Bool → Relay → Text → Text → Relay
relay_header target preserve_connection_headers r name value =
    if is_skipped preserve_connection_headers name
    then r
    else if is_named name (text "host")
    then record r { out = r.out ++ header_line (text "Host") (authority target); has_host = true }
    else record r {
      out = r.out ++ header_line name value;
      has_connection = is_named name (text "connection") || r.has_connection;
    }

unfoldable pub relay_headers : UpstreamTarget → Bool → Relay → Headers → Relay
relay_headers target preserve_connection_headers r [] = r
relay_headers target preserve_connection_headers r ((name, value) ∷ headers) =
    relay_headers target preserve_connection_headers
      (relay_header target preserve_connection_headers r name value) headers

unfoldable pub request_line : ParsedRequest → UpstreamTarget → Bytes
request_line request target =
    as_bytes
      (request.method ++ text " " ++ target.path ++ text " " ++ request.version ++ text "\r\n")

unfoldable pub build_upstream_header_inner : ParsedRequest → UpstreamTarget → Bool → Bytes
build_upstream_header_inner request target preserve_connection_headers =
    let start : Relay = record {
      out = request_line request target;
      has_host = false;
      has_connection = false;
    } in
    let r = relay_headers target preserve_connection_headers start request.headers in
    r.out
    ++ (if r.has_host then [] else header_line (text "Host") (authority target))
    ++ (if not preserve_connection_headers
        then header_line (text "Connection") (text "close")
        else if r.has_connection
        then []
        else header_line (text "Connection") (text "Upgrade"))
    ++ 13 ∷ 10 ∷ []

unfoldable pub build_upstream_header : ParsedRequest → UpstreamTarget → Bytes
unfolding build_upstream_header_inner
build_upstream_header request target = build_upstream_header_inner request target false

unfoldable pub build_upstream_upgrade_header : ParsedRequest → UpstreamTarget → Bytes
unfolding build_upstream_header_inner
build_upstream_upgrade_header request target = build_upstream_header_inner request target true
