-- ===== src/Proxy/Upstream/Header/Connection.antt =====
-- The `Connection` headers that are sent upstream.
use tlscope_rs.Base.{
  ◌≡◌, refl, ap, ◌∙◌, Bool, true, false, ◌||◌, List, [], ◌∷◌, ◌++◌, arith, if◌then◌else◌, some_of,
  keep, Bool-cases, inl, inr,
}
use tlscope_rs.Text.{Text, text, text_eq, to_ascii_lowercase, to_lower}
use tlscope_rs.Text.Laws.{eq_of_text_eq}
use tlscope_rs.Capture.Entry.{Headers}
use tlscope_rs.Proxy.Upstream.{
  UpstreamTarget, is_named, Relay, is_skipped, relay_header, relay_headers, authority,
}
use tlscope_rs.Proxy.Upstream.Header.{relay_one, relayed}

unfoldable pub is_connection : Text × Text → Bool
unfolding text
is_connection h = is_named h.0 (text "connection")

-- What the `Connection` headers are to be: `close` alone, or those of the request, or `Upgrade` if it has
-- none.
unfoldable pub connection_headers : Bool → Headers → Headers
unfolding is_connection text
connection_headers false hs = (text "Connection", text "close") ∷ []
connection_headers true hs =
    if some_of is_connection hs
    then keep is_connection hs
    else (text "Connection", text "Upgrade") ∷ []

pub keep-append {ℓ} :
    {A : Type ℓ} (p : A → Bool) (a b : List A) → keep p (a ++ b) ≡ keep p a ++ keep p b
keep-append p [] b = refl
keep-append p (x ∷ a) b = ground (arith, keep-append p a b)

pub keep_none {ℓ} : {A : Type ℓ} (p : A → Bool) (a : List A) → some_of p a ≡ false → keep p a ≡ []
keep_none p [] e = refl
keep_none p (x ∷ a) e = ground (arith, keep_none p a)

-- A name is one word at most.
is_named-other :
    (name a b : Text) → is_named name a ≡ true → text_eq a b ≡ false → is_named name b ≡ false
unfolding is_named
is_named-other name a b e n =
    ap (λ x. text_eq x b) (eq_of_text_eq (to_ascii_lowercase name) a e) ∙ n

-- A `Connection` header is none of the others that are left out or replaced.
connection-host :
    (name : Text) → is_named name (text "connection") ≡ true → is_named name (text "host") ≡ false
unfolding text
connection-host name e = is_named-other name (text "connection") (text "host") e refl

connection-kept :
    (name : Text) → is_named name (text "connection") ≡ true → is_skipped true name ≡ false
unfolding text is_skipped
connection-kept name e =
    let a = is_named-other name (text "connection") (text "proxy-connection") e refl in
    let b = is_named-other name (text "connection") (text "proxy-authorization") e refl in
    ground (arith, a, b)

connection-dropped :
    (name : Text) → is_named name (text "connection") ≡ true → is_skipped false name ≡ true
unfolding is_skipped
connection-dropped name e = ground (arith, e)

host-connection : (target : UpstreamTarget) → is_connection (text "Host", authority target) ≡ false
unfolding is_connection is_named text to_ascii_lowercase to_lower
host-connection target = refl

-- One header, by whether it is a `Connection`.
relay_one-connection :
    (target : UpstreamTarget) (name value : Text)
    → is_connection (name, value) ≡ true
    → (relay_one target true name value ≡ (name, value) ∷ [])
      × (relay_one target false name value ≡ [])
unfolding is_connection relay_one
relay_one-connection target name value e =
    (rw (connection-kept name e, connection-host name e) refl, rw (connection-dropped name e) refl)

relay_one-other :
    (target : UpstreamTarget) (preserve : Bool) (name value : Text)
    → is_connection (name, value) ≡ false
    → keep is_connection (relay_one target preserve name value) ≡ []
unfolding relay_one
relay_one-other target preserve name value n = elim (Bool-cases (is_skipped preserve name)) [
  | inl e ↦ rw e refl
  | inr e ↦ elim (Bool-cases (is_named name (text "host"))) [
    | inl f ↦ rw (e, f, host-connection target) refl
    | inr f ↦ rw (e, f, n) refl
  ]
]

keep-relay_one_kept :
    (target : UpstreamTarget) (name value : Text) (hs : Headers)
    → keep is_connection (relay_one target true name value) ++ keep is_connection hs
      ≡ keep is_connection ((name, value) ∷ hs)
keep-relay_one_kept target name value hs = elim (Bool-cases (is_connection (name, value))) [
  | inl e ↦ rw ((relay_one-connection target name value e).0, e) refl
  | inr e ↦ rw (relay_one-other target true name value e, e) refl
]

keep-relay_one_dropped :
    (target : UpstreamTarget) (name value : Text)
    → keep is_connection (relay_one target false name value) ≡ []
keep-relay_one_dropped target name value = elim (Bool-cases (is_connection (name, value))) [
  | inl e ↦ rw (relay_one-connection target name value e).1 refl
  | inr e ↦ relay_one-other target false name value e
]

-- Those that are relayed are all of them or none.
pub keep-relayed_kept :
    (target : UpstreamTarget) (hs : Headers)
    → keep is_connection (relayed target true hs) ≡ keep is_connection hs
unfolding relayed
keep-relayed_kept target [] = refl
keep-relayed_kept target ((name, value) ∷ hs) =
    keep-append is_connection (relay_one target true name value) (relayed target true hs)
    ∙ ap (λ k. keep is_connection (relay_one target true name value) ++ k)
        (keep-relayed_kept target hs)
    ∙ keep-relay_one_kept target name value hs

pub keep-relayed_dropped :
    (target : UpstreamTarget) (hs : Headers) → keep is_connection (relayed target false hs) ≡ []
unfolding relayed
keep-relayed_dropped target [] = refl
keep-relayed_dropped target ((name, value) ∷ hs) =
    keep-append is_connection (relay_one target false name value) (relayed target false hs)
    ∙ rw (keep-relay_one_dropped target name value) (keep-relayed_dropped target hs)

relay_header-has_connection :
    (target : UpstreamTarget) (r : Relay) (name value : Text)
    → (relay_header target true r name value).has_connection
      ≡ (r.has_connection || is_connection (name, value))
unfolding relay_header is_connection
relay_header-has_connection target r name value =
    elim (Bool-cases (is_named name (text "connection"))) [
      | inl e ↦ rw (connection-kept name e, connection-host name e, e) (ground arith)
      | inr e ↦ rw e (ground (arith, e))
    ]

pub relay_headers-has_connection :
    (target : UpstreamTarget) (r : Relay) (hs : Headers)
    → (relay_headers target true r hs).has_connection
      ≡ (r.has_connection || some_of is_connection hs)
unfolding relay_headers
relay_headers-has_connection target r [] = ground arith
relay_headers-has_connection target r ((name, value) ∷ hs) = ground (
  arith,
  relay_headers-has_connection target (relay_header target true r name value) hs,
  relay_header-has_connection target r name value,
)
