-- ===== src/Probes/Http/Target.antt =====
-- Where a request goes, what it says, and the checks of the arguments before anything is sent.
pub mod Prepare
pub mod Checked
pub mod Addressed
use salus_rs.Prelude.{
  ℕ, String, Bool, true, false, not, ◌&&◌, ◌||◌, Option, none, some, List, [], ◌∷◌, ◌++◌, ◌==◌,
  if◌then◌else◌, is_nil, any, map, Text, Bytes, OsStr, codes, equal, starts_with,
  to_ascii_uppercase, trim, is_some, is_none, Result, ok, err, ◌>>=◌, ◌>>◌, map_err, ok_or,
  refuse_if,
}
use salus_rs.Error.{
  AppError, AppResult, invalid_config, Piece, Message, lit, display, debug, number,
}
use salus_rs.Diagnostic.{value, path}
use salus_rs.Validation.{
  validate_non_empty_str, validate_non_empty_path, validate_non_empty_values,
  validate_capture_limit,
}
use salus_rs.Authority.{optional, as_debug, contains, validate_authority}
use salus_rs.Tls.{TlsArgs, has_tls_flags, validate_tls_options}
use salus_rs.Probes.Http.Args.{HttpArgs, has_body_assertions}
use salus_rs.Probes.Http.Status.{StatusRanges, parse_status_ranges}
use salus_rs.Probes.Http.Headers.{HeaderName, HeaderAssertions, parse_headers, header_assertions}
use salus_rs.Probes.Http.Url.{
  validate_no_unescaped_uri_text, validate_percent_encoding, validate_raw_url_text, raw_url_scheme,
  is_http_url_scheme, unsupported_url_scheme, canonical_http_scheme,
  validate_raw_http_url_authority,
}

pub data Method : Type 0 where
  get : Method
  head : Method

unfoldable pub parse_method : Text → AppResult Method
parse_method raw =
    let method = map to_ascii_uppercase (trim raw) in
    if equal method (codes "GET")
    then ok get
    else if equal method (codes "HEAD")
    then ok head
    else err (
        invalid_config
          (lit "unsupported HTTP method " ∷ value method ∷ lit ", expected GET or HEAD" ∷ []))

unfoldable pub validate_http_target_args : HttpArgs → AppResult Unit
validate_http_target_args args = do
  refuse_if (is_some args.url && is_some args.sock)
      (invalid_config (lit "--url and --sock cannot be used together" ∷ []))
  refuse_if (is_none args.url && is_none args.sock)
      (invalid_config (lit "either --url or --sock must be provided" ∷ []))
  (if is_some args.sock
      then ok tt
      else refuse_if (is_some args.path)
          (invalid_config (lit "--path may only be used with --sock" ∷ [])))

unfoldable pub validate_http_body_assertion_values : HttpArgs → AppResult Unit
validate_http_body_assertion_values args = do
  validate_non_empty_values "--contains" args.contains
  validate_non_empty_values "--not-contains" args.not_contains

unfoldable pub validate_http_capture_args : HttpArgs → AppResult Unit
validate_http_capture_args args =
    validate_capture_limit "--max-body" args.max_body "body assertions" (has_body_assertions args)

abbrev pub is_head : Method → Bool
is_head get = false
is_head head = true

unfoldable pub validate_http_method_assertions : HttpArgs → Method → AppResult Unit
validate_http_method_assertions args method =
    refuse_if (is_head method && has_body_assertions args)
      (invalid_config (lit "HTTP body assertions are not supported with HEAD requests" ∷ []))

-- `http::uri::Authority`: its text, its host and its port's number.
pub record UriAuthority : Type 0 where
  pub text : Text
  pub host : Text
  pub port_u16 : Option ℕ

-- The URI library: what the probe calls of it.
pub record UriLibrary (Uri : Type 0) : Type 0 where
  pub parse : Text → Result Text Uri
  pub has_scheme : Uri → Bool
  pub authority : Uri → Option UriAuthority
  pub path : Uri → Text
  pub path_and_query : Uri → Option Text
  pub build : String → Text → Text → Result Text Uri
  pub parse_authority : Text → Result Text Text
  pub header_name : Text → Result Text HeaderName
  pub header_value : Text → Result Text Bytes
  pub utf8 : Text → Bytes
  pub server_name : Text → Result Text Text
  pub render : Message → Text
  pub to_text : Uri → Text

pub record UnixSocketTarget (Uri : Type 0) : Type 0 where
  pub sock : OsStr
  pub host : Text
  pub label : Text
  pub request_uri : Uri

pub record UrlTarget (Uri : Type 0) : Type 0 where
  pub label : Text
  pub request_uri : Uri
  pub connect_uri : Uri
  pub host : Text
  pub uses_tls : Bool

pub data HttpTarget (Uri : Type 0) : Type 0 where
  url_target : UrlTarget Uri → HttpTarget Uri
  unix_socket_target : UnixSocketTarget Uri → HttpTarget Uri

pub record PreparedHttpArgs : Type 0 where
  pub method : Method
  pub headers : List (HeaderName × Bytes)
  pub header_assertions : HeaderAssertions
  pub status_ranges : StatusRanges

-- The canonical scheme, and its own port.
abbrev pub scheme_text : Bool → String
scheme_text true = "https"
scheme_text false = "http"

abbrev pub default_port : Bool → ℕ
default_port true = 443
default_port false = 80
