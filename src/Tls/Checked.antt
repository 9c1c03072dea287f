-- ===== src/Tls/Checked.antt =====
-- What the checks of the TLS options accept.
use salus_rs.Prelude.{
  String, ◌≡◌, refl, ap, ◌∙◌, ◌↔◌, inl, inr, Bool, true, false, not, ◌&&◌, ◌||◌, Option, none, some,
  [], ◌∷◌, ◌++◌, arith, ◌==◌, any, is_some, is_none, Text, OsStr, os_is_empty, is_ipv6,
  strip_prefix, strip_suffix, strip_prefix-some, strip_suffix-some, subst, Result, ok, Bool-cases,
  Option-cases,
}
use salus_rs.Validation.{validate_non_empty_path}
use salus_rs.Tls.{
  TlsArgs, validate_client_identity_args, validate_trust_args, validate_optional_path,
  validate_tls_file_args, validate_bundled_roots_available, validate_tls_trust_available,
  normalize_server_name_override, check_server_name, validate_tls_options,
}

-- A path that is given is not empty.
abbrev pub NotEmpty : Option OsStr → Type 0
NotEmpty none = Unit
NotEmpty (some path) = os_is_empty path ≡ false

-- The name that is put into the place of the host's: an IPv6 address in brackets, or a text without.
pub data IsServerName : Text → Text → Type 0 where
  address :
      {raw name : Text}
      → raw ≡ b'[' ∷ (name ++ (b']' ∷ []))
      → is_ipv6 name ≡ true
      → IsServerName raw name
  plain : {raw : Text} → any (λ c. c == b'[' || c == b']') raw ≡ false → IsServerName raw raw

-- The options fit together.
pub record IsConsistent (webpki : Bool) (tls : TlsArgs) : Type 0 where
  pub identity : is_some tls.cert ≡ is_some tls.key
  pub one_trust : (tls.insecure_skip_verify && is_some tls.ca) ≡ false
  pub ca : NotEmpty tls.ca
  pub cert : NotEmpty tls.cert
  pub key : NotEmpty tls.key
  pub trust : (tls.insecure_skip_verify || is_some tls.ca || webpki) ≡ true

path_iff :
    (o : Option OsStr) → (flag : String) → (validate_optional_path flag o ≡ ok tt) ↔ NotEmpty o
unfolding validate_optional_path validate_non_empty_path
path_iff none flag = ground arith
path_iff (some path) flag = ground arith

-- The name that replaces the host's for TLS is the IPv6 address of a text in brackets, or a text in which
-- no bracket stands.
pub normalize_server_name_override-IsServerName :
    (raw : Text) {name : Text}
    → normalize_server_name_override raw ≡ ok name
    → IsServerName raw name
unfolding normalize_server_name_override
normalize_server_name_override-IsServerName raw {name} h =
    elim (Option-cases (strip_prefix b'[' raw)) [
      | inl no_bracket ↦ elim (Bool-cases (any (λ c. c == b'[' || c == b']') raw)) [
        | inl bracket ↦ absurd (ground (arith, h, no_bracket, bracket))
        | inr free ↦
            let same : raw ≡ name = ground (arith, h, no_bracket, free) in
            subst (IsServerName raw) same (plain free)
      ]
      | inr (inner, e) ↦ elim (Option-cases (strip_suffix b']' inner)) [
        | inl unclosed ↦ absurd (ground (arith, h, e, unclosed))
        | inr (text, e') ↦ elim (Bool-cases (is_ipv6 text)) [
          | inl ipv6 ↦
              let same : text ≡ name = ground (arith, h, e, e', ipv6) in
              subst (IsServerName raw) same (
                address
                  (strip_prefix-some b'[' raw e
                    ∙ ap (λ x. b'[' ∷ x) (strip_suffix-some b']' inner e'))
                  ipv6)
          | inr other ↦ absurd (ground (arith, h, e, e', other))
        ]
      ]
    ]

identity_cases :
    (cert key : Bool) (c k : Bool)
    → c ≡ not cert
    → k ≡ not key
    → ((((cert && k) || (c && key)) ≡ false) ↔ (cert ≡ key))
identity_cases true true c k e e' = ground arith
identity_cases true false c k e e' = ground arith
identity_cases false true c k e e' = ground arith
identity_cases false false c k e e' = ground arith

is_none-not : {A : Type 0} (o : Option A) → is_none o ≡ not (is_some o)
is_none-not none = refl
is_none-not (some a) = refl

identity_iff :
    (tls : TlsArgs)
    → (validate_client_identity_args tls ≡ ok tt) ↔ (is_some tls.cert ≡ is_some tls.key)
unfolding validate_client_identity_args
identity_iff tls =
    let cases =
      identity_cases (is_some tls.cert) (is_some tls.key) (is_none tls.cert) (is_none tls.key)
        (is_none-not tls.cert) (is_none-not tls.key) in
    (λ h. cases.0 (ground (arith, h)), λ h. ground (arith, cases.1 h))

files_iff :
    (tls : TlsArgs)
    → (validate_tls_file_args tls ≡ ok tt)
      ↔ (NotEmpty tls.ca × NotEmpty tls.cert × NotEmpty tls.key)
unfolding validate_tls_file_args
files_iff tls = (
  λ h. (
    (path_iff tls.ca "--ca").0 (ground (arith, h)),
    (path_iff tls.cert "--cert").0 (ground (arith, h)),
    (path_iff tls.key "--key").0 (ground (arith, h)),
  ),
  λ h. ground (
    arith,
    (path_iff tls.ca "--ca").1 h.0,
    (path_iff tls.cert "--cert").1 h.1,
    (path_iff tls.key "--key").1 h.2,
  ),
)

trust_iff :
    (webpki : Bool) (tls : TlsArgs)
    → (validate_tls_trust_available webpki tls ≡ ok tt)
      ↔ ((tls.insecure_skip_verify || is_some tls.ca || webpki) ≡ true)
unfolding validate_tls_trust_available validate_bundled_roots_available
trust_iff webpki tls = ground arith

one_trust_iff :
    (tls : TlsArgs)
    → (validate_trust_args tls ≡ ok tt) ↔ ((tls.insecure_skip_verify && is_some tls.ca) ≡ false)
unfolding validate_trust_args
one_trust_iff tls = ground arith

module _ (server_name : Text → Result Text Text) (webpki : Bool) (tls : TlsArgs) where
  -- The five stages.
  stages_iff : (validate_tls_options server_name webpki tls ≡ ok tt) ↔ (
      (check_server_name server_name webpki tls.server_name ≡ ok tt)
      × (validate_client_identity_args tls ≡ ok tt)
      × (validate_trust_args tls ≡ ok tt)
      × (validate_tls_file_args tls ≡ ok tt)
      × (validate_tls_trust_available webpki tls ≡ ok tt))
  unfolding validate_tls_options
  stages_iff = ground arith

  -- The TLS options are accepted exactly when the server name, if there is one, is read without an error,
  -- certificate and key come together, verification is not switched off next to a CA file, no path is
  -- empty, and there is something to trust.
  pub validate_tls_options_iff :
      (validate_tls_options server_name webpki tls ≡ ok tt)
      ↔ ((check_server_name server_name webpki tls.server_name ≡ ok tt) × IsConsistent webpki tls)
  validate_tls_options_iff = (
    λ h.
        let s = stages_iff.0 h in
        let files = (files_iff tls).0 s.3 in
        (
          s.0,
          record {
            identity = (identity_iff tls).0 s.1;
            one_trust = (one_trust_iff tls).0 s.2;
            ca = files.0;
            cert = files.1;
            key = files.2;
            trust = (trust_iff webpki tls).0 s.4;
          },
        ),
    λ h.
        let c = h.1 in
        stages_iff.1 (
          h.0,
          (identity_iff tls).1 c.identity,
          (one_trust_iff tls).1 c.one_trust,
          (files_iff tls).1 (c.ca, c.cert, c.key),
          (trust_iff webpki tls).1 c.trust,
        ),
  )
