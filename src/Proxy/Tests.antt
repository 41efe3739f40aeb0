-- ===== src/Proxy/Tests.antt =====
-- The proxy at concrete inputs.
use tlscope_rs.Base.{
  ◌-◌, ◌≡◌, refl, true, false, List, [], ◌∷◌, ◌++◌, none, some, arith, ok, err, length, take, drop,
  All, keep, some_of,
}
use tlscope_rs.Text.{Text, text, contains_char, is_whitespace, rsplit_once}
use tlscope_rs.Text.Ip.{is_ip}
use tlscope_rs.Text.Utf8.{Bytes}
use tlscope_rs.Capture.Entry.{is_default_port}
use tlscope_rs.Proxy.Stream.{Stream, chunk, Writer, arrivals}
use tlscope_rs.Proxy.Http.{
  find_header_end, read_header_block, forward_known_body, forward_response_body,
}
use tlscope_rs.Proxy.Message.{ParsedRequest}
use tlscope_rs.Proxy.Http.Head.{read_header_block_lem}
use tlscope_rs.Proxy.Http.Forward.Body.{
  forwarded, forward_known_body_lem, forward_known_body_short, forward_response_body_end,
}
use tlscope_rs.Proxy.Upstream.{
  UpstreamTarget, authority, split_host_port, build_upstream_header_inner, request_line, is_named,
}
use tlscope_rs.Proxy.Upstream.Authority.{IsHost, split_host_port-authority}
use tlscope_rs.Proxy.Upstream.Header.{header_lines, is_end_to_end, IsSent}
use tlscope_rs.Proxy.Upstream.Header.Connection.{is_connection, connection_headers}
use tlscope_rs.Proxy.Upstream.Header.Sent.{build_upstream_header_lem}

abbrev head : Bytes
unfolding text
head = text "GET / HTTP/1.1\r\n\r\n"

abbrev body : Bytes
unfolding text
body = text "hello, next"

-- The head arrives in two parts, the second with the body.
abbrev connection : Stream
connection = chunk (take 16 head) ∷ chunk (drop 16 head ++ take 3 body) ∷ chunk (drop 3 body) ∷ []

read_header_block_lem_example :
    (rest_read : Bytes) × (rest : Stream) × (read_header_block connection
      ≡ some (ok (some (head, rest_read), rest)))
    × (rest_read ++ arrivals rest ≡ body)
unfolding head body find_header_end text
read_header_block_lem_example =
    read_header_block_lem head body connection (omega arith) refl refl (omega arith)

abbrev peer : Writer
peer = record { sent = []; room = 100 }

abbrev arriving : Stream
arriving = chunk (drop 3 body) ∷ []

forward_known_body_lem_example :
    ((rest : Stream) × (arrivals rest ≡ drop (5 - length (take 3 body)) (arrivals arriving))
      × (forward_known_body arriving peer (take 3 body) 5 4 none none none
          ≡ ok (forwarded 4 none none none (take 5 (take 3 body ++ arrivals arriving)) peer rest)))
    × ((rest : Stream) × (arrivals rest ≡ drop (5 - length (take 3 body)) (arrivals arriving))
        × (forward_response_body arriving peer (take 3 body) (some 5) 4 none none none
            ≡ some (
                ok (
                  forwarded 4 none none none
                    (take 5 (take 3 body ++ arrivals arriving))
                    peer
                    rest))))
unfolding body text
forward_known_body_lem_example =
    forward_known_body_lem 4 5 (take 3 body) none none none arriving peer (omega arith)
      (omega arith) (omega arith) (omega arith)

forward_known_body_short_example :
    (forward_known_body arriving peer [] 20 4 none none none
      ≡ err (text "connection closed before full request body was sent"))
    × (forward_response_body arriving peer [] (some 20) 4 none none none
        ≡ some (err (text "upstream closed before full response body was sent")))
unfolding body text
forward_known_body_short_example =
    forward_known_body_short 4 20 [] none none none arriving peer (omega arith) (omega arith)
      (omega arith)

forward_response_body_end_example :
    (rest : Stream) × (forward_response_body arriving peer (take 3 body) none 4 none none none
      ≡ some (ok (forwarded 4 none none none (take 3 body ++ arrivals arriving) peer rest)))
unfolding body text
forward_response_body_end_example =
    forward_response_body_end 4 (take 3 body) none none none arriving peer (omega arith)
      (omega arith) (omega arith)

abbrev loopback : UpstreamTarget
unfolding text
loopback = record { scheme = text "https"; host = text "::1"; port = 8443; path = text "/" }

loopback-IsHost : IsHost loopback.host
unfolding loopback text is_whitespace contains_char is_ip rsplit_once
loopback-IsHost = record {
  some_text = omega arith;
  solid = (refl, (refl, (refl, tt)));
  no_open = omega arith;
  no_close = omega arith;
  address = λ e. refl;
  colons = λ e. ground arith;
}

split_host_port-authority_example :
    split_host_port (authority loopback) 443 ≡ ok (loopback.host, loopback.port)
unfolding loopback text is_default_port
split_host_port-authority_example =
    split_host_port-authority loopback 443 loopback-IsHost (omega arith) (λ e. cc)

abbrev request : ParsedRequest
unfolding text
request = record {
  method = text "GET";
  path = text "/a";
  version = text "HTTP/1.1";
  headers =
      (text "Proxy-Authorization", text "Basic x")
      ∷ (text "host", text "wrong")
      ∷ (text "Accept", text "*/*")
      ∷ [];
  content_length = none;
  content_type = none;
  content_encoding = none;
  transfer_encoding = none;
}

build_upstream_header_lem_example :
    (headers : List (Text × Text)) × (build_upstream_header_inner request loopback false
      ≡ request_line request loopback ++ (header_lines headers ++ 13 ∷ 10 ∷ []))
    × All (IsSent loopback false) headers
    × (some_of (λ (h : Text × Text). is_named h.0 (text "host")) headers ≡ true)
    × (keep is_connection headers ≡ connection_headers false request.headers)
    × (keep is_end_to_end headers ≡ keep is_end_to_end request.headers)
build_upstream_header_lem_example = build_upstream_header_lem request loopback false
