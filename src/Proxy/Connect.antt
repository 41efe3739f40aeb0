-- ===== src/Proxy/Connect.antt =====
-- src/proxy/connect.rs: the target of a CONNECT request, and the entry that records its tunnel.
use tlscope_rs.Base.{ℕ, [], ◌++◌, Option, none, Result, ok, ◌>>=◌}
use tlscope_rs.Text.{Text, text}
use tlscope_rs.Text.Number.{show_uint}
use tlscope_rs.Capture.Body.{empty}
use tlscope_rs.Capture.Entry.{TrafficEntry}
use tlscope_rs.Proxy.Upstream.{parse_connect_authority}

pub record ConnectTarget : Type 0 where
  pub host : Text
  pub port : ℕ

unfoldable pub parse_target : Text → Result Text ConnectTarget
unfolding parse_connect_authority
parse_target authority = do
  (host, port) ← parse_connect_authority authority
  ok (record { host = host; port = port })

unfoldable pub connect_entry :
    ℕ → ℕ → ℕ → Option ℕ → ConnectTarget → Option ℕ → ℕ × ℕ → Option Text → TrafficEntry
unfolding text empty show_uint
connect_entry id started_at duration process_id target response_status bytes error = record {
  id = id;
  started_at = started_at;
  duration = duration;
  process_id = process_id;
  scheme = text "https";
  host = target.host;
  port = target.port;
  method = text "CONNECT";
  path = target.host ++ text ":" ++ show_uint target.port;
  http_version = text "HTTP/1.1";
  request_headers = [];
  request_body = empty;
  response_status = response_status;
  response_headers = [];
  response_body = empty;
  request_size = bytes.0;
  response_size = bytes.1;
  tls = none;
  error = error;
}
