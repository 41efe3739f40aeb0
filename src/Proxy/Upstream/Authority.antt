-- ===== src/Proxy/Upstream/Authority.antt =====
-- An authority is read back as the host and the port that it was made of.
use tlscope_rs.Base.{
  ℕ, ◌≤◌, ◌<◌, ◌≡◌, ◌≢◌, refl, sym, ap, ◌∙◌, true, false, [], ◌∷◌, ◌++◌, some, arith, ok, length,
  All-append, Bool-cases, inl, inr, u16_mod, append_assoc, Option-cases, length-append,
}
use tlscope_rs.Text.{Text, text, contains_char, rsplit_once, is_whitespace}
use tlscope_rs.Text.Laws.{Lacks, IsSolid, trim_solid, rsplit_once-append, split_once-append}
use tlscope_rs.Text.Number.{show_uint, parse_uint-show_uint, IsDigits, show_uint-IsDigits}
use tlscope_rs.Text.Ip.{is_ip}
use tlscope_rs.Capture.Entry.{is_default_port}
use tlscope_rs.Proxy.Upstream.{
  UpstreamTarget, authority, parse_port, bracketed_port, split_plain, split_trimmed,
  split_host_port,
}

-- A host without brackets or white space; one with a colon is an address, and has more of them.
pub record IsHost (host : Text) : Type 0 where
  pub some_text : 1 ≤ length host
  pub solid : IsSolid host
  pub no_open : Lacks b'[' host
  pub no_close : Lacks b']' host
  pub address : contains_char host b':' ≡ true → is_ip host ≡ true
  pub colons : {a b : Text} → rsplit_once host b':' ≡ some (a, b) → contains_char a b':' ≡ true

digits-Lacks : (s : Text) (c : ℕ) → b'9' < c → IsDigits s → Lacks c s
digits-Lacks [] c k h = tt
digits-Lacks (d ∷ s) c k h = (ground arith, digits-Lacks s c k h.1)

digits-IsSolid : (s : Text) → IsDigits s → IsSolid s
unfolding is_whitespace
digits-IsSolid [] h = tt
digits-IsSolid (d ∷ s) h = (ground arith, digits-IsSolid s h.1)

parse_port-show_uint :
    (value : Text) (port : ℕ) → port < u16_mod → parse_port value (show_uint port) ≡ ok port
unfolding parse_port
parse_port-show_uint value port h = rw (parse_uint-show_uint u16_mod port h) refl

module _ (host : Text) (v : IsHost host) (port default_port : ℕ) (fits : port < u16_mod) where
  -- A text that does not start with a bracket is split at its last colon.
  split_trimmed-split_plain :
      (s : Text)
      → 1 ≤ length s
      → Lacks b'[' s
      → split_trimmed s default_port ≡ split_plain s default_port
  unfolding split_trimmed
  split_trimmed-split_plain [] h l = absurd (omega arith)
  split_trimmed-split_plain (c ∷ s) h l = ground arith

  split_plain-host : split_plain host default_port ≡ ok (host, default_port)
  unfolding split_plain
  split_plain-host = elim (Option-cases (rsplit_once host b':')) [
    | inl e ↦ rw (split_plain, e) refl
    | inr ((a, b), e) ↦ rw (split_plain, e, v.colons e) refl
  ]

  split_plain-port :
      contains_char host b':' ≡ false
      → split_plain (host ++ b':' ∷ show_uint port) default_port ≡ ok (host, port)
  unfolding split_plain
  split_plain-port e =
      let cut : rsplit_once (host ++ b':' ∷ show_uint port) b':' ≡ some (host, show_uint port) =
        rsplit_once-append host (show_uint port) b':'
          (digits-Lacks (show_uint port) b':' (omega arith) (show_uint-IsDigits port)) in
      rw (split_plain, cut, e, parse_port-show_uint (host ++ b':' ∷ show_uint port) port fits) refl

  split_trimmed-bracketed :
      split_trimmed (b'[' ∷ (host ++ b']' ∷ b':' ∷ show_uint port)) default_port ≡ ok (host, port)
  unfolding split_trimmed bracketed_port
  split_trimmed-bracketed =
      let rest = host ++ b']' ∷ b':' ∷ show_uint port in
      rw
        (
          split_trimmed,
          split_once-append host (b':' ∷ show_uint port) b']' v.no_close,
          parse_port-show_uint (b'[' ∷ rest) port fits,
        )
        refl

module _ (t : UpstreamTarget) (default_port : ℕ) (v : IsHost t.host) (fits : t.port < u16_mod)
    (same : is_default_port t.scheme t.port ≡ true → t.port ≡ default_port) where
  with_port-IsSolid : IsSolid (t.host ++ b':' ∷ show_uint t.port)
  unfolding is_whitespace
  with_port-IsSolid =
      All-append (λ c. is_whitespace c ≡ false) t.host (b':' ∷ show_uint t.port) v.solid
        (refl, digits-IsSolid (show_uint t.port) (show_uint-IsDigits t.port))

  bracketed-IsSolid : IsSolid (b'[' ∷ (t.host ++ b']' ∷ b':' ∷ show_uint t.port))
  unfolding is_whitespace
  bracketed-IsSolid = (
    refl,
    All-append (λ c. is_whitespace c ≡ false) t.host (b']' ∷ b':' ∷ show_uint t.port) v.solid
        (refl, (refl, digits-IsSolid (show_uint t.port) (show_uint-IsDigits t.port))),
  )

  -- The three shapes of an authority.
  authority_default : is_default_port t.scheme t.port ≡ true → authority t ≡ t.host
  unfolding authority
  authority_default e = rw e refl

  authority_address :
      is_default_port t.scheme t.port ≡ false
      → contains_char t.host b':' ≡ true
      → authority t ≡ b'[' ∷ (t.host ++ b']' ∷ b':' ∷ show_uint t.port)
  unfolding authority text
  authority_address e c =
      rw (e, v.address c, c) (append_assoc (b'[' ∷ t.host) (b']' ∷ b':' ∷ []) (show_uint t.port))

  authority_named :
      is_default_port t.scheme t.port ≡ false
      → contains_char t.host b':' ≡ false
      → authority t ≡ t.host ++ b':' ∷ show_uint t.port
  unfolding authority text
  authority_named e c = elim (Bool-cases (is_ip t.host)) [
    | inl a ↦ rw (e, c, a) (append_assoc t.host (b':' ∷ []) (show_uint t.port))
    | inr a ↦ rw (e, c, a) (append_assoc t.host (b':' ∷ []) (show_uint t.port))
  ]

  split_solid :
      (s : Text)
      → authority t ≡ s
      → IsSolid s
      → split_host_port (authority t) default_port ≡ split_trimmed s default_port
  unfolding split_host_port
  split_solid s e h = rw (e, trim_solid s h) refl

  named :
      contains_char t.host b':' ≡ false
      → split_trimmed (t.host ++ b':' ∷ show_uint t.port) default_port ≡ ok (t.host, t.port)
  named c =
      split_trimmed-split_plain t.host v t.port default_port fits
        (t.host ++ b':' ∷ show_uint t.port)
        (omega (arith, length-append t.host (b':' ∷ show_uint t.port), v.some_text))
        (All-append (λ c. c ≢ b'[') t.host (b':' ∷ show_uint t.port) v.no_open
          (
            omega arith,
            digits-Lacks (show_uint t.port) b'[' (omega arith) (show_uint-IsDigits t.port),
          ))
      ∙ split_plain-port t.host v t.port default_port fits c

  default :
      is_default_port t.scheme t.port ≡ true
      → split_trimmed t.host default_port ≡ ok (t.host, t.port)
  default e =
      split_trimmed-split_plain t.host v t.port default_port fits t.host v.some_text v.no_open
      ∙ split_plain-host t.host v t.port default_port fits
      ∙ ap (λ p. ok (t.host, p)) (sym (same e))

-- The authority of a target is read back as its host and its port, if the host is one (no
-- brackets, no white space, a colon only in an address, which has two or more), the port is
-- below 2^16, and, where the port is the default of the scheme and is left out, the reader
-- takes the same default.
pub split_host_port-authority :
    (t : UpstreamTarget) (default_port : ℕ)
    → IsHost t.host
    → t.port < u16_mod
    → (is_default_port t.scheme t.port ≡ true → t.port ≡ default_port)
    → split_host_port (authority t) default_port ≡ ok (t.host, t.port)
split_host_port-authority t d v fits same = elim (Bool-cases (is_default_port t.scheme t.port)) [
  | inl e ↦
      split_solid t d v fits same t.host (authority_default t d v fits same e) v.solid
      ∙ default t d v fits same e
  | inr e ↦ elim (Bool-cases (contains_char t.host b':')) [
    | inl c ↦
        split_solid t d v fits same _ (authority_address t d v fits same e c)
          (bracketed-IsSolid t d v fits same)
        ∙ split_trimmed-bracketed t.host v t.port d fits
    | inr c ↦
        split_solid t d v fits same _ (authority_named t d v fits same e c)
          (with_port-IsSolid t d v fits same)
        ∙ named t d v fits same c
  ]
]
