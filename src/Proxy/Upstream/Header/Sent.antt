-- ===== src/Proxy/Upstream/Header/Sent.antt =====
-- What is sent upstream, all in all.
use tlscope_rs.Base.{
  ◌≡◌, refl, ap, ◌∙◌, ◌||◌, Bool, true, false, not, [], ◌∷◌, ◌++◌, arith, if◌then◌else◌, some_of,
  keep, All, All-append, append_assoc, append-nil, Bool-cases, inl, inr,
}
use tlscope_rs.Text.{Text, text}
use tlscope_rs.Text.Utf8.{Bytes}
use tlscope_rs.Capture.Entry.{Headers}
use tlscope_rs.Proxy.Message.{ParsedRequest}
use tlscope_rs.Proxy.Upstream.{
  UpstreamTarget, authority, header_line, is_named, Relay, relay_headers, request_line,
  build_upstream_header_inner,
}
use tlscope_rs.Proxy.Upstream.Header.Connection.{
  is_connection, connection_headers, keep-append, keep_none, keep-relayed_kept,
  keep-relayed_dropped, relay_headers-has_connection,
}
use tlscope_rs.Proxy.Upstream.Header.Added.{
  added_host, added_connection, added_host-lines, added_connection-lines, added_host-IsSent,
  added_connection-IsSent, keep-added_host, keep-added_connection, keep-added_host_connection,
  added_connection-kept,
}
use tlscope_rs.Proxy.Upstream.Header.{
  header_lines, header_lines-append, is_end_to_end, IsSent, relayed, is_host, host_named,
  keep-relayed, relayed-IsSent, relay_headers-out, some_of-append, relay_headers-has_host,
}

regroup : (q l a b c : Bytes) → (((q ++ l) ++ a) ++ b) ++ c ≡ q ++ ((l ++ (a ++ b)) ++ c)
regroup q l a b c = simp append_assoc

-- The headers that are sent, given how the loop ended.
sent : Headers → UpstreamTarget → Bool → Relay → Headers
sent headers target preserve r =
    relayed target preserve headers
    ++ (added_host target r.has_host ++ added_connection preserve r.has_connection)

header_lines-sent :
    (headers : Headers) (target : UpstreamTarget) (preserve : Bool) (r : Relay) (q : Bytes)
    → r.out ≡ q ++ header_lines (relayed target preserve headers)
    → r.out
        ++ (if r.has_host then [] else header_line (text "Host") (authority target))
        ++ (if not preserve
            then header_line (text "Connection") (text "close")
            else if r.has_connection
            then []
            else header_line (text "Connection") (text "Upgrade"))
        ++ 13 ∷ 10 ∷ []
      ≡ q ++ (header_lines (sent headers target preserve r) ++ 13 ∷ 10 ∷ [])
unfolding sent
header_lines-sent headers target preserve r q e =
    let l = relayed target preserve headers in
    let a = added_host target r.has_host in
    let b = added_connection preserve r.has_connection in
    rw
      (
        e,
        ← added_host-lines target r.has_host,
        ← added_connection-lines preserve r.has_connection,
        header_lines-append l (a ++ b),
        header_lines-append a b,
      )
      (regroup q (header_lines l) (header_lines a) (header_lines b) (13 ∷ 10 ∷ []))

added_host_named :
    (target : UpstreamTarget) (preserve : Bool)
    → some_of (is_host target preserve) (added_host target false) ≡ true
unfolding is_host added_host
added_host_named target preserve = rw (host_named target preserve) refl

sent-host :
    (headers : Headers) (target : UpstreamTarget) (preserve : Bool) (r : Relay)
    → r.has_host ≡ some_of (is_host target preserve) (relayed target preserve headers)
    → some_of (is_host target preserve) (sent headers target preserve r) ≡ true
unfolding sent
sent-host headers target preserve r e =
    let l = relayed target preserve headers in
    let a = added_host target r.has_host in
    let b = added_connection preserve r.has_connection in
    let whole = some_of-append target preserve l (a ++ b) in
    let back = some_of-append target preserve a b in
    let named = added_host_named target preserve in
    elim (Bool-cases r.has_host) [
      | inl h ↦ rw (whole, ← e, h) refl
      | inr h ↦ rw (whole, back, h, named) (ground arith)
    ]

sent-IsSent :
    (headers : Headers) (target : UpstreamTarget) (preserve : Bool) (r : Relay)
    → All (IsSent target preserve) (sent headers target preserve r)
unfolding sent
sent-IsSent headers target preserve r =
    All-append (IsSent target preserve) (relayed target preserve headers) _
      (relayed-IsSent target preserve headers)
      (All-append (IsSent target preserve) (added_host target r.has_host) _
        (added_host-IsSent target preserve r.has_host)
        (added_connection-IsSent target preserve r.has_connection))

keep-sent :
    (headers : Headers) (target : UpstreamTarget) (preserve : Bool) (r : Relay)
    → keep is_end_to_end (sent headers target preserve r) ≡ keep is_end_to_end headers
unfolding sent
keep-sent headers target preserve r =
    let l = relayed target preserve headers in
    let a = added_host target r.has_host in
    let b = added_connection preserve r.has_connection in
    rw
      (
        keep-append is_end_to_end l (a ++ b),
        keep-append is_end_to_end a b,
        keep-added_host target r.has_host,
        keep-added_connection preserve r.has_connection,
        keep-relayed target preserve headers,
      )
      (append-nil (keep is_end_to_end headers))

relayed_connection :
    (headers : Headers) (target : UpstreamTarget) (preserve c : Bool)
    → (preserve ≡ true → c ≡ some_of is_connection headers)
    → keep is_connection (relayed target preserve headers) ++ added_connection preserve c
      ≡ connection_headers preserve headers
unfolding added_connection connection_headers
relayed_connection headers target false c h = rw (keep-relayed_dropped target headers) refl
relayed_connection headers target true c h = elim (Bool-cases (some_of is_connection headers)) [
  | inl e ↦
      rw (keep-relayed_kept target headers, h refl, e) (append-nil (keep is_connection headers))
  | inr e ↦ rw (keep-relayed_kept target headers, h refl, e, keep_none is_connection headers e) refl
]

keep-sent_connection :
    (headers : Headers) (target : UpstreamTarget) (preserve : Bool) (r : Relay)
    → (preserve ≡ true → r.has_connection ≡ some_of is_connection headers)
    → keep is_connection (sent headers target preserve r) ≡ connection_headers preserve headers
unfolding sent
keep-sent_connection headers target preserve r h =
    let l = relayed target preserve headers in
    let a = added_host target r.has_host in
    let b = added_connection preserve r.has_connection in
    rw
      (
        keep-append is_connection l (a ++ b),
        keep-append is_connection a b,
        keep-added_host_connection target r.has_host,
        added_connection-kept preserve r.has_connection,
      )
      (relayed_connection headers target preserve r.has_connection h)

-- What the loop has seen at its end.
has_connection-seen :
    (headers : Headers) (target : UpstreamTarget) (preserve : Bool) (r : Relay)
    → r.has_connection ≡ false
    → preserve ≡ true
    → (relay_headers target preserve r headers).has_connection ≡ some_of is_connection headers
has_connection-seen headers target false r n e = cc
has_connection-seen headers target true r n e =
    relay_headers-has_connection target r headers ∙ ap (λ c. c || some_of is_connection headers) n

-- The head that is sent upstream is the request line and a list of headers: none of them is for the
-- proxy alone, there is a `Host` and each one names the target, and the headers that are neither for the
-- proxy, nor about the connection, nor `Host` are those of the request, in order. Unless the connection
-- headers are preserved, there is no `Keep-Alive` and exactly one `Connection`, which is `close`;
-- otherwise the `Connection` headers are those of the request, in order, or one that is `Upgrade` if it
-- has none.
pub build_upstream_header_lem :
    (request : ParsedRequest) (target : UpstreamTarget) (preserve_connection_headers : Bool)
    → (headers : Headers) × (build_upstream_header_inner request target preserve_connection_headers
        ≡ request_line request target ++ (header_lines headers ++ 13 ∷ 10 ∷ []))
      × All (IsSent target preserve_connection_headers) headers
      × (some_of (λ (h : Text × Text). is_named h.0 (text "host")) headers ≡ true)
      × (keep is_connection headers
          ≡ connection_headers preserve_connection_headers request.headers)
      × (keep is_end_to_end headers ≡ keep is_end_to_end request.headers)
unfolding is_host build_upstream_header_inner
build_upstream_header_lem request target preserve =
    let start : Relay = record {
      out = request_line request target;
      has_host = false;
      has_connection = false;
    } in
    let r = relay_headers target preserve start request.headers in
    (
      sent request.headers target preserve r,
      header_lines-sent request.headers target preserve r (request_line request target)
          (relay_headers-out target preserve start request.headers),
      sent-IsSent request.headers target preserve r,
      sent-host request.headers target preserve r
          (relay_headers-has_host target preserve start request.headers),
      keep-sent_connection request.headers target preserve r
          (has_connection-seen request.headers target preserve start refl),
      keep-sent request.headers target preserve r,
    )
