-- ===== src/Proxy/Upstream/Header.antt =====
-- The headers of a request that are relayed upstream.
pub mod Connection
pub mod Added
pub mod Sent
use tlscope_rs.Base.{
  ℕ, ◌≡◌, refl, sym, ap, ◌∙◌, Bool, true, false, not, ◌&&◌, ◌||◌, List, [], ◌∷◌, ◌++◌, arith,
  if◌then◌else◌, some_of, keep, All, All-append, append_assoc, append-nil, Bool-cases, inl, inr,
}
use tlscope_rs.Text.{Text, text, to_ascii_lowercase, to_lower}
use tlscope_rs.Text.Utf8.{Bytes}
use tlscope_rs.Capture.Entry.{Headers}
use tlscope_rs.Proxy.Message.{ParsedRequest}
use tlscope_rs.Proxy.Upstream.{
  UpstreamTarget, authority, header_line, is_named, Relay, is_skipped, relay_header, relay_headers,
  request_line, build_upstream_header_inner,
}

-- Headers as they are written, one line each.
unfoldable pub header_lines : Headers → Bytes
header_lines [] = []
header_lines ((name, value) ∷ hs) = header_line name value ++ header_lines hs

pub header_lines-append : (a b : Headers) → header_lines (a ++ b) ≡ header_lines a ++ header_lines b
unfolding header_lines
header_lines-append [] b = refl
header_lines-append ((n, v) ∷ a) b =
    ap (λ x. header_line n v ++ x) (header_lines-append a b)
    ∙ sym (append_assoc (header_line n v) (header_lines a) (header_lines b))

-- A header that belongs to the message and not to one connection, and does not name the host.
unfoldable pub is_end_to_end : Text × Text → Bool
is_end_to_end (name, value) =
    not (is_named name (text "proxy-connection"))
    && not (is_named name (text "proxy-authorization"))
    && not (is_named name (text "connection"))
    && not (is_named name (text "keep-alive"))
    && not (is_named name (text "host"))

-- What a header that is sent upstream is not, and what a special one says.
pub record IsSent (target : UpstreamTarget) (preserve : Bool) (h : Text × Text) : Type 0 where
  pub no_proxy_connection : is_named h.0 (text "proxy-connection") ≡ false
  pub no_proxy_authorization : is_named h.0 (text "proxy-authorization") ≡ false
  pub host : is_named h.0 (text "host") ≡ true → h.1 ≡ authority target
  pub no_keep_alive : preserve ≡ false → is_named h.0 (text "keep-alive") ≡ false
  pub connection : preserve ≡ false → is_named h.0 (text "connection") ≡ true → h.1 ≡ text "close"

module _ (target : UpstreamTarget) (preserve : Bool) where
  unfoldable pub relay_one : Text → Text → Headers
  relay_one name value =
      if is_skipped preserve name
      then []
      else if is_named name (text "host")
      then (text "Host", authority target) ∷ []
      else (name, value) ∷ []

  unfoldable pub relayed : Headers → Headers
  relayed [] = []
  relayed ((name, value) ∷ hs) = relay_one name value ++ relayed hs

  pub is_host : Text × Text → Bool
  is_host h = is_named h.0 (text "host")

  pub host_named : is_named (text "Host") (text "host") ≡ true
  unfolding text is_named to_ascii_lowercase to_lower
  host_named = refl

  relay_header-out :
      (r : Relay) (name value : Text)
      → (relay_header target preserve r name value).out
        ≡ r.out ++ header_lines (relay_one name value)
  unfolding relay_header relay_one header_lines
  relay_header-out r name value = elim (Bool-cases (is_skipped preserve name)) [
    | inl e ↦ rw e (sym (append-nil r.out))
    | inr e ↦ elim (Bool-cases (is_named name (text "host"))) [
      | inl f ↦
          rw (e, f)
            (ap (λ x. r.out ++ x) (sym (append-nil (header_line (text "Host") (authority target)))))
      | inr f ↦ rw (e, f) (ap (λ x. r.out ++ x) (sym (append-nil (header_line name value))))
    ]
  ]

  relay_header-has_host :
      (r : Relay) (name value : Text)
      → (relay_header target preserve r name value).has_host
        ≡ (r.has_host || some_of is_host (relay_one name value))
  unfolding relay_header relay_one is_host
  relay_header-has_host r name value = elim (Bool-cases (is_skipped preserve name)) [
    | inl e ↦ rw e (ground arith)
    | inr e ↦ elim (Bool-cases (is_named name (text "host"))) [
      | inl f ↦ rw (e, f, host_named) (ground arith)
      | inr f ↦ rw (e, f) (rw f (ground arith))
    ]
  ]

  pub host-IsSent : IsSent target preserve (text "Host", authority target)
  unfolding text is_named to_ascii_lowercase to_lower
  host-IsSent = record {
    no_proxy_connection = refl;
    no_proxy_authorization = refl;
    host = λ e. refl;
    no_keep_alive = λ e. refl;
    connection = λ e f. cc;
  }

  relay_one-IsSent : (name value : Text) → All (IsSent target preserve) (relay_one name value)
  unfolding relay_one is_skipped
  relay_one-IsSent name value = elim (Bool-cases (is_skipped preserve name)) [
    | inl e ↦ rw e tt
    | inr e ↦ elim (Bool-cases (is_named name (text "host"))) [
      | inl f ↦ rw (e, f) (host-IsSent, tt)
      | inr f ↦ rw (e, f) (ground arith, tt)
    ]
  ]

  skipped-is_end_to_end :
      (name value : Text) → is_skipped preserve name ≡ true → is_end_to_end (name, value) ≡ false
  unfolding is_skipped is_end_to_end
  skipped-is_end_to_end name value e = ground arith

  host-is_end_to_end :
      (name value : Text) → is_named name (text "host") ≡ true → is_end_to_end (name, value) ≡ false
  unfolding is_end_to_end
  host-is_end_to_end name value e = ground arith

  keep-relay_one :
      (name value : Text) (hs : Headers)
      → keep is_end_to_end (relay_one name value ++ hs) ≡ (
          if is_end_to_end (name, value)
          then (name, value) ∷ keep is_end_to_end hs
          else keep is_end_to_end hs)
  unfolding relay_one
  keep-relay_one name value hs = elim (Bool-cases (is_skipped preserve name)) [
    | inl e ↦ rw (e, skipped-is_end_to_end name value e) refl
    | inr e ↦ elim (Bool-cases (is_named name (text "host"))) [
      | inl f ↦
          rw
            (
              e,
              f,
              host-is_end_to_end name value f,
              host-is_end_to_end (text "Host") (authority target) host_named,
            )
            refl
      | inr f ↦ rw (e, f) refl
    ]
  ]

  pub keep-relayed : (hs : Headers) → keep is_end_to_end (relayed hs) ≡ keep is_end_to_end hs
  unfolding relayed
  keep-relayed [] = refl
  keep-relayed ((name, value) ∷ hs) =
      keep-relay_one name value (relayed hs)
      ∙ ap (λ k. if is_end_to_end (name, value) then (name, value) ∷ k else k) (keep-relayed hs)

  pub relayed-IsSent : (hs : Headers) → All (IsSent target preserve) (relayed hs)
  unfolding relayed
  relayed-IsSent [] = tt
  relayed-IsSent ((name, value) ∷ hs) =
      All-append (IsSent target preserve) (relay_one name value) (relayed hs)
        (relay_one-IsSent name value) (relayed-IsSent hs)

  pub relay_headers-out :
      (r : Relay) (hs : Headers)
      → (relay_headers target preserve r hs).out ≡ r.out ++ header_lines (relayed hs)
  unfolding relay_headers relayed header_lines
  relay_headers-out r [] = sym (append-nil r.out)
  relay_headers-out r ((name, value) ∷ hs) =
      let one = header_lines (relay_one name value) in
      relay_headers-out (relay_header target preserve r name value) hs
      ∙ ap (λ x. x ++ header_lines (relayed hs)) (relay_header-out r name value)
      ∙ append_assoc r.out one (header_lines (relayed hs))
      ∙ ap (λ x. r.out ++ x) (sym (header_lines-append (relay_one name value) (relayed hs)))

  pub some_of-append :
      (a b : Headers) → some_of is_host (a ++ b) ≡ (some_of is_host a || some_of is_host b)
  some_of-append [] b = refl
  some_of-append (h ∷ a) b = ground (arith, some_of-append a b)

  pub relay_headers-has_host :
      (r : Relay) (hs : Headers)
      → (relay_headers target preserve r hs).has_host ≡ (r.has_host || some_of is_host (relayed hs))
  unfolding relay_headers relayed
  relay_headers-has_host r [] = ground arith
  relay_headers-has_host r ((name, value) ∷ hs) = ground (
    arith,
    relay_headers-has_host (relay_header target preserve r name value) hs,
    relay_header-has_host r name value,
    some_of-append (relay_one name value) (relayed hs),
  )
