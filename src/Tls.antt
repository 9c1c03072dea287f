-- ===== src/Tls.antt =====
-- tls.rs: the checks of the TLS options, and the configuration that is built of them.
pub mod Checked
pub mod Config
use salus_rs.Prelude.{
  Bool, false, ◌&&◌, ◌||◌, Option, none, some, [], ◌∷◌, ◌==◌, if◌then◌else◌, any, is_some, is_none,
  String, Text, OsStr, is_ipv6, strip_prefix, strip_suffix, Result, ok, err, ◌>>=◌, ◌>>◌, map_err,
  refuse_if,
}
use salus_rs.Error.{AppError, AppResult, invalid_config, lit, display, debug}
use salus_rs.Validation.{validate_non_empty_path, validate_non_empty_str}

pub record TlsArgs : Type 0 where
  pub ca : Option OsStr
  pub cert : Option OsStr
  pub key : Option OsStr
  pub server_name : Option Text
  pub insecure_skip_verify : Bool

-- `TlsArgs::default()`
abbrev pub default_tls : TlsArgs
default_tls = record {
  ca = none;
  cert = none;
  key = none;
  server_name = none;
  insecure_skip_verify = false;
}

unfoldable pub has_tls_flags : TlsArgs → Bool
has_tls_flags tls =
    is_some tls.ca
    || is_some tls.cert
    || is_some tls.key
    || is_some tls.server_name
    || tls.insecure_skip_verify

unfoldable pub validate_client_identity_args : TlsArgs → AppResult Unit
validate_client_identity_args tls =
    if (is_some tls.cert && is_none tls.key) || (is_none tls.cert && is_some tls.key)
    then err (invalid_config (lit "--cert and --key must be provided together" ∷ []))
    else ok tt

unfoldable pub validate_trust_args : TlsArgs → AppResult Unit
validate_trust_args tls =
    refuse_if (tls.insecure_skip_verify && is_some tls.ca)
      (invalid_config (lit "--ca cannot be used with --insecure-skip-verify" ∷ []))

unfoldable pub validate_optional_path : String → Option OsStr → AppResult Unit
validate_optional_path flag none = ok tt
validate_optional_path flag (some path) = validate_non_empty_path flag path

unfoldable pub validate_tls_file_args : TlsArgs → AppResult Unit
unfolding validate_optional_path
validate_tls_file_args tls = do
  validate_optional_path "--ca" tls.ca
  validate_optional_path "--cert" tls.cert
  validate_optional_path "--key" tls.key

-- The feature `webpki` decides whether bundled roots are there.
unfoldable pub validate_bundled_roots_available : Bool → AppResult Unit
validate_bundled_roots_available webpki =
    if webpki
    then ok tt
    else err (
        invalid_config (
          lit
            "TLS trust store is empty because bundled roots are disabled; provide --ca or --insecure-skip-verify"
          ∷ []))

unfoldable pub validate_tls_trust_available : Bool → TlsArgs → AppResult Unit
unfolding validate_bundled_roots_available
validate_tls_trust_available webpki tls =
    if tls.insecure_skip_verify || is_some tls.ca
    then ok tt
    else validate_bundled_roots_available webpki

invalid_bracketed_server_name : Text → AppError
invalid_bracketed_server_name raw = invalid_config (
    lit "invalid TLS server name override "
    ∷ debug raw
    ∷ lit ": brackets are only allowed around IPv6 addresses"
    ∷ [])

unfoldable pub normalize_server_name_override : Text → AppResult Text
unfolding invalid_bracketed_server_name
normalize_server_name_override raw = elim (strip_prefix b'[' raw) [
  | none ↦
      if any (λ c. c == b'[' || c == b']') raw
      then err (invalid_bracketed_server_name raw)
      else ok raw
  | some inner ↦ elim (strip_suffix b']' inner) [
    | none ↦ err (invalid_bracketed_server_name raw)
    | some address ↦ if is_ipv6 address then ok address else err (invalid_bracketed_server_name raw)
  ]
]

-- `ServerName::try_from` of rustls is the parameter: the name, or the error's text.
module _ (server_name : Text → Result Text Text) (webpki : Bool) where
  unfoldable pub parse_server_name_override : Text → AppResult Text
  unfolding normalize_server_name_override
  parse_server_name_override raw = do
    validate_non_empty_str "--server-name" raw
    name ← normalize_server_name_override raw
    map_err
        (λ error.
          invalid_config
            (lit "invalid TLS server name override " ∷ debug raw ∷ lit ": " ∷ display error ∷ []))
        (server_name name)

  unfoldable pub check_server_name : Option Text → AppResult Unit
  check_server_name none = ok tt
  check_server_name (some raw) = do n ← parse_server_name_override raw; ok tt

  unfoldable pub validate_tls_options : TlsArgs → AppResult Unit
  unfolding check_server_name
  validate_tls_options tls = do
    check_server_name tls.server_name
    validate_client_identity_args tls
    validate_trust_args tls
    validate_tls_file_args tls
    validate_tls_trust_available webpki tls
