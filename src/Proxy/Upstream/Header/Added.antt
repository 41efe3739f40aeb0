-- ===== src/Proxy/Upstream/Header/Added.antt =====
-- The headers that are added behind those of the request.
use tlscope_rs.Base.{
  ◌≡◌, refl, Bool, true, false, not, [], ◌∷◌, if◌then◌else◌, keep, All, append-nil,
}
use tlscope_rs.Text.{Text, text, to_ascii_lowercase, to_lower}
use tlscope_rs.Capture.Entry.{Headers}
use tlscope_rs.Proxy.Upstream.{UpstreamTarget, authority, header_line, is_named}
use tlscope_rs.Proxy.Upstream.Header.Connection.{is_connection}
use tlscope_rs.Proxy.Upstream.Header.{header_lines, is_end_to_end, IsSent, host-IsSent}

-- What stands behind the headers of the request.
unfoldable pub added_host : UpstreamTarget → Bool → Headers
added_host target true = []
added_host target false = (text "Host", authority target) ∷ []

unfoldable pub added_connection : Bool → Bool → Headers
added_connection false has_connection = (text "Connection", text "close") ∷ []
added_connection true true = []
added_connection true false = (text "Connection", text "Upgrade") ∷ []

pub added_host-lines :
    (target : UpstreamTarget) (b : Bool)
    → header_lines (added_host target b)
      ≡ (if b then [] else header_line (text "Host") (authority target))
unfolding added_host header_lines
added_host-lines target true = refl
added_host-lines target false = append-nil (header_line (text "Host") (authority target))

pub added_connection-lines :
    (preserve c : Bool)
    → header_lines (added_connection preserve c) ≡ (
        if not preserve
        then header_line (text "Connection") (text "close")
        else if c
        then []
        else header_line (text "Connection") (text "Upgrade"))
unfolding added_connection header_lines
added_connection-lines false c = append-nil (header_line (text "Connection") (text "close"))
added_connection-lines true true = refl
added_connection-lines true false = append-nil (header_line (text "Connection") (text "Upgrade"))

pub connection-IsSent :
    (target : UpstreamTarget) (preserve : Bool) (value : Text)
    → (preserve ≡ false → value ≡ text "close")
    → IsSent target preserve (text "Connection", value)
unfolding text is_named to_ascii_lowercase to_lower
connection-IsSent target preserve value h = record {
  no_proxy_connection = refl;
  no_proxy_authorization = refl;
  host = λ e. cc;
  no_keep_alive = λ e. refl;
  connection = λ e f. h e;
}

pub added_host-IsSent :
    (target : UpstreamTarget) (preserve b : Bool)
    → All (IsSent target preserve) (added_host target b)
unfolding added_host
added_host-IsSent target preserve true = tt
added_host-IsSent target preserve false = (host-IsSent target preserve, tt)

pub added_connection-IsSent :
    (target : UpstreamTarget) (preserve c : Bool)
    → All (IsSent target preserve) (added_connection preserve c)
unfolding added_connection
added_connection-IsSent target false c =
    (connection-IsSent target false (text "close") (λ e. refl), tt)
added_connection-IsSent target true true = tt
added_connection-IsSent target true false =
    (connection-IsSent target true (text "Upgrade") (λ e. cc), tt)

pub keep-added_host :
    (target : UpstreamTarget) (b : Bool) → keep is_end_to_end (added_host target b) ≡ []
unfolding added_host is_end_to_end is_named text to_ascii_lowercase to_lower
keep-added_host target true = refl
keep-added_host target false = refl

pub keep-added_connection :
    (preserve c : Bool) → keep is_end_to_end (added_connection preserve c) ≡ []
unfolding added_connection is_end_to_end is_named text to_ascii_lowercase to_lower
keep-added_connection false c = refl
keep-added_connection true true = refl
keep-added_connection true false = refl

-- The `Connection` headers that are added.
pub keep-added_host_connection :
    (target : UpstreamTarget) (b : Bool) → keep is_connection (added_host target b) ≡ []
unfolding added_host is_connection is_named text to_ascii_lowercase to_lower
keep-added_host_connection target true = refl
keep-added_host_connection target false = refl

pub added_connection-kept :
    (preserve c : Bool)
    → keep is_connection (added_connection preserve c) ≡ added_connection preserve c
unfolding added_connection is_connection is_named text to_ascii_lowercase to_lower
added_connection-kept false c = refl
added_connection-kept true true = refl
added_connection-kept true false = refl
