-- ===== src/Config.antt =====
-- src/config.rs: the configuration from the arguments of a run; src/process/launcher.rs: the environment of
-- the child. An IPv6 address is kept as it was typed.
use tlscope_rs.Base.{
  ℕ, Bool, true, false, not, ◌&&◌, ◌||◌, List, [], ◌∷◌, ◌++◌, Option, none, some, Result, ok, err,
  ok_or, ◌>>=◌, ◌==◌, if◌then◌else◌, is_empty,
}
use tlscope_rs.Text.{Text, text, starts_with, contains_char, split_once}
use tlscope_rs.Text.Number.{show_uint}
use tlscope_rs.Text.Ip.{is_ipv4}
use tlscope_rs.Capture.Redact
use tlscope_rs.Capture.Redact.{RedactionConfig}
use tlscope_rs.Process.Targets.{ProcessTrackingConfig}
use tlscope_rs.Launcher.Run.{SocketAddr, CommonProxyArgs, RunArgs}

pub record AppConfig : Type 0 where
  pub listen : SocketAddr
  pub tls_decryption : Bool
  pub only_http1 : Bool
  pub ca_dir : Text
  pub max_body_size : ℕ
  pub redaction : RedactionConfig
  pub save_session : Option Text

pub record ChildConfig : Type 0 where
  pub command : List Text
  pub workdir : Option Text
  pub env : List (Text × Text)
  pub no_extra_ca_env : Bool
  pub process_tracking : ProcessTrackingConfig

-- Of a valid IPv6 address: nothing but zeros, and a one at the end.
abbrev is_one : Text → Bool
is_one [] = false
is_one (c ∷ []) = c == b'1'
is_one (c ∷ d ∷ s) = (c == b'0' || c == b':' || c == b'.') && is_one (d ∷ s)

-- `IpAddr::is_loopback`.
unfoldable pub is_loopback : SocketAddr → Bool
unfolding text is_ipv4
is_loopback addr = if is_ipv4 addr.ip then starts_with addr.ip (text "127.") else is_one addr.ip

unfoldable pub show_addr : SocketAddr → Text
unfolding text is_ipv4 show_uint
show_addr addr =
    (if is_ipv4 addr.ip then addr.ip else text "[" ++ addr.ip ++ text "]")
    ++ text ":"
    ++ show_uint addr.port

-- The warning that is printed, if any, or the refusal.
unfoldable pub validate_listen : SocketAddr → Bool → Result Text (List Text)
unfolding text is_loopback show_addr
validate_listen addr allow_external =
    if not (is_loopback addr) && not allow_external
    then err (
        text "refusing to listen on "
        ++ show_addr addr
        ++ text "; use --allow-external only for an explicitly trusted test network")
    else if not (is_loopback addr)
    then ok (
        (text "Warning: proxy is listening on "
          ++ show_addr addr
          ++ text ". Other hosts may be able to connect.")
        ∷ [])
    else ok []

abbrev unwrap_or : Option Text → Text → Text
unwrap_or none t = t
unwrap_or (some a) t = a

abbrev secrets_warning : Bool → List Text
unfolding text
secrets_warning true =
    text "Warning: sensitive headers and body fields will be shown in UI and exports." ∷ []
secrets_warning false = []

-- The configuration, and the warnings that are printed.
unfoldable pub from_common : Text → CommonProxyArgs → Result Text (AppConfig × List Text)
unfolding validate_listen
from_common default_ca_dir args = do
  warnings ← validate_listen args.listen args.allow_external
  ok (
    record {
      listen = args.listen;
      tls_decryption = not args.no_tls_decryption;
      only_http1 = args.only_http1;
      ca_dir = unwrap_or args.ca_dir default_ca_dir;
      max_body_size = args.max_body_size;
      redaction = Redact.new args.redact args.show_secrets;
      save_session = args.save_session;
    },
    warnings ++ secrets_warning args.show_secrets,
  )

unfoldable pub env_override : Text → Result Text (Text × Text)
unfolding text split_once contains_char
env_override item = do
  (key, value) ←
      ok_or (split_once item b'=')
        (text "invalid --env value '" ++ item ++ text "', expected KEY=VALUE")
  (if is_empty key || contains_char key 0
      then err (text "invalid environment key '" ++ key ++ text "'")
      else ok (key, value))

-- `collect`: the first error, or all pairs.
unfoldable pub parse_env_overrides : List Text → Result Text (List (Text × Text))
unfolding env_override
parse_env_overrides [] = ok []
parse_env_overrides (item ∷ items) = do
  pair ← env_override item
  rest ← parse_env_overrides items
  ok (pair ∷ rest)

unfoldable pub from_run : RunArgs → Result Text ChildConfig
unfolding parse_env_overrides
from_run args = do
  env ← parse_env_overrides args.env
  ok (record {
    command = args.command;
    workdir = args.workdir;
    env = env;
    no_extra_ca_env = args.no_extra_ca_env;
    process_tracking = args.process_tracking;
  })

abbrev ca_variables : Bool → Option Text → List (Text × Text)
unfolding text
ca_variables true path = []
ca_variables false none = []
ca_variables false (some path) =
    (text "SSL_CERT_FILE", path)
    ∷ (text "REQUESTS_CA_BUNDLE", path)
    ∷ (text "CURL_CA_BUNDLE", path)
    ∷ (text "NODE_EXTRA_CA_CERTS", path)
    ∷ []

unfoldable pub build_proxy_environment : SocketAddr → Option Text → Bool → List (Text × Text)
unfolding text show_addr ca_variables
build_proxy_environment proxy_addr ca_cert_path no_extra_ca_env =
    let proxy = text "http://" ++ show_addr proxy_addr in
    (text "HTTP_PROXY", proxy)
    ∷ (text "HTTPS_PROXY", proxy)
    ∷ (text "ALL_PROXY", proxy)
    ∷ (text "http_proxy", proxy)
    ∷ (text "https_proxy", proxy)
    ∷ (text "all_proxy", proxy)
    ∷ ca_variables no_extra_ca_env ca_cert_path
