-- ===== src/Probes/Http/Target/Prepare.antt =====
-- The target of a request: a URL, or a Unix socket with a path.
use salus_rs.Prelude.{
  Bool, not, ◌&&◌, ◌||◌, Option, none, some, [], ◌∷◌, ◌==◌, if◌then◌else◌, is_nil, Text, OsStr,
  codes, starts_with, is_some, ok, ◌>>=◌, ◌>>◌, map_err, ok_or, refuse_if,
}
use salus_rs.Error.{AppResult, invalid_config, lit, display, debug, number}
use salus_rs.Diagnostic.{path}
use salus_rs.Validation.{validate_non_empty_str, validate_non_empty_path}
use salus_rs.Authority.{optional, as_debug, contains, validate_authority}
use salus_rs.Tls.{TlsArgs, has_tls_flags, validate_tls_options}
use salus_rs.Probes.Http.Args.{HttpArgs}
use salus_rs.Probes.Http.Status.{parse_status_ranges}
use salus_rs.Probes.Http.Headers.{parse_headers, header_assertions}
use salus_rs.Probes.Http.Url.{
  validate_no_unescaped_uri_text, validate_percent_encoding, validate_raw_url_text, raw_url_scheme,
  is_http_url_scheme, unsupported_url_scheme, canonical_http_scheme,
  validate_raw_http_url_authority,
}
use salus_rs.Probes.Http.Target.{
  Method, validate_http_target_args, UriAuthority, UriLibrary, UnixSocketTarget, UrlTarget,
  HttpTarget, url_target, unix_socket_target, PreparedHttpArgs, scheme_text, default_port,
}

module _ {Uri : Type 0} (lib : UriLibrary Uri) (webpki : Bool) where
  unfoldable pub validate_host_header : Text → AppResult Unit
  validate_host_header host = do
    name ← validate_authority lib.parse_authority host "Host header" optional as_debug
    checked ←
        map_err
          (λ error.
            invalid_config
              (lit "invalid Host header " ∷ debug host ∷ lit ": " ∷ display error ∷ []))
          (lib.header_value host)
    ok tt

  unfoldable pub explicit_host_header : Text → AppResult Text
  explicit_host_header raw = do
    validate_non_empty_str "--host" raw
    validate_host_header raw
    ok raw

  -- The port is written unless it is the scheme's own.
  unfoldable pub own_header : UriAuthority → Bool → Text
  own_header authority https = elim authority.port_u16 [
    | none ↦ authority.host
    | some port ↦
        if port == default_port https
        then authority.host
        else lib.render (display authority.host ∷ lit ":" ∷ number port ∷ [])
  ]

  unfoldable pub own_host_header : UriAuthority → Bool → AppResult Text
  own_host_header authority https = do
    validate_host_header (own_header authority https)
    ok (own_header authority https)

  unfoldable pub default_host_header : Uri → Option Text → Bool → AppResult Text
  default_host_header uri (some host) https = explicit_host_header host
  default_host_header uri none https = do
    authority ← ok_or (lib.authority uri) (
        invalid_config
          (lit "URL " ∷ display (lib.to_text uri) ∷ lit " does not contain a host" ∷ []))
    own_host_header authority https

  unfoldable pub absolute_uri : Uri → Bool → Text → AppResult Uri
  absolute_uri uri https authority =
      map_err (λ error. invalid_config (lit "invalid HTTP URI: " ∷ display error ∷ []))
        (lib.build (scheme_text https) authority
          (elim (lib.path_and_query uri) [ none ↦ codes "/" | some text ↦ text ]))

  unfoldable pub prepare_uds_request_uri : Text → AppResult Uri
  prepare_uds_request_uri raw = do
    refuse_if (not (starts_with b'/' raw))
        (invalid_config (lit "HTTP UDS --path must start with /" ∷ []))
    validate_no_unescaped_uri_text "HTTP UDS --path" raw
    validate_percent_encoding raw "HTTP UDS --path"
    refuse_if (contains b'#' raw)
        (invalid_config (lit "HTTP UDS --path must not contain a URL fragment" ∷ []))
    uri ←
        map_err (λ error. invalid_config (lit "invalid HTTP UDS --path: " ∷ display error ∷ []))
          (lib.parse raw)
    refuse_if (lib.has_scheme uri || is_some (lib.authority uri)) (
        invalid_config
          (lit "HTTP UDS --path must be an origin-form path, not an absolute URI" ∷ []))
    refuse_if (is_nil (lib.path uri))
        (invalid_config (lit "HTTP UDS --path must contain a path" ∷ []))
    ok uri

  socket_host : Option Text → AppResult Text
  socket_host none = ok (codes "localhost")
  socket_host (some host) = explicit_host_header host

  unfoldable pub prepare_unix_socket_target : HttpArgs → OsStr → AppResult (UnixSocketTarget Uri)
  unfolding socket_host
  prepare_unix_socket_target args sock = do
    validate_non_empty_path "--sock" sock
    raw_path ← ok_or args.path (invalid_config (lit "--path is required with --sock" ∷ []))
    request_uri ← prepare_uds_request_uri raw_path
    refuse_if (has_tls_flags args.tls)
        (invalid_config (lit "TLS flags are not supported with --sock" ∷ []))
    host ← socket_host args.host
    ok (record {
      sock = sock;
      host = host;
      label = lib.render (lit "unix:" ∷ path sock ∷ display raw_path ∷ []);
      request_uri = request_uri;
    })

  unfoldable pub parse_url : Text → AppResult Uri
  parse_url raw_url =
      map_err
        (λ error.
          invalid_config (lit "invalid URL " ∷ display raw_url ∷ lit ": " ∷ display error ∷ []))
        (lib.parse raw_url)

  unfoldable pub url_authority : Uri → AppResult UriAuthority
  url_authority uri = do
    authority ← ok_or (lib.authority uri) (invalid_config (lit "URL must contain a host" ∷ []))
    refuse_if (is_nil authority.host) (invalid_config (lit "URL must contain a host" ∷ []))
    ok authority

  unfoldable pub request_uri_for : HttpArgs → Bool → Uri → Uri → Text → AppResult Uri
  request_uri_for args https uri connect_uri host =
      if is_some args.host then absolute_uri uri https host else ok connect_uri

  -- The three parts that are made of the library's URI, in their order.
  unfoldable pub url_target_at :
      HttpArgs → Text → Bool → Uri → Text → Uri → AppResult (UrlTarget Uri)
  url_target_at args raw_url https uri host connect_uri = do
    request_uri ← request_uri_for args https uri connect_uri host
    ok (record {
      label = raw_url;
      request_uri = request_uri;
      connect_uri = connect_uri;
      host = host;
      uses_tls = https;
    })

  -- Behind the checks of the text.
  unfoldable pub url_target_of : HttpArgs → Text → Bool → AppResult (UrlTarget Uri)
  url_target_of args raw_url https = parse_url raw_url >>= λ uri. url_authority uri >>= λ authority.
      default_host_header uri args.host https >>= λ host.
      absolute_uri uri https authority.text >>= λ connect_uri.
      url_target_at args raw_url https uri host connect_uri

  unfoldable pub prepare_url_target : HttpArgs → Text → AppResult (UrlTarget Uri)
  prepare_url_target args raw_url = do
    validate_raw_url_text raw_url
    raw_scheme ←
        ok_or (raw_url_scheme raw_url)
          (invalid_config (lit "URL scheme is required, expected http or https" ∷ []))
    refuse_if (not (is_http_url_scheme raw_scheme)) (unsupported_url_scheme raw_scheme)
    refuse_if (contains b'#' raw_url)
        (invalid_config (lit "URL fragments are not supported in HTTP probes" ∷ []))
    validate_raw_http_url_authority lib.parse_authority raw_url
    url_target_of args raw_url (canonical_http_scheme raw_scheme)

  unfoldable pub validate_url_tls_args : TlsArgs → Bool → AppResult Unit
  validate_url_tls_args tls uses_tls = do
    refuse_if (not uses_tls && has_tls_flags tls)
        (invalid_config (lit "TLS flags may only be used with https URLs" ∷ []))
    (if uses_tls then validate_tls_options lib.server_name webpki tls else ok tt)

  unfoldable pub prepare_http_target : HttpArgs → AppResult (HttpTarget Uri)
  prepare_http_target args = do
    validate_http_target_args args
    elim args.sock [
      | some sock ↦ do target ← prepare_unix_socket_target args sock; ok (unix_socket_target target)
      | none ↦ do
        raw_url ←
            ok_or args.url (invalid_config (lit "--url is required when --sock is not set" ∷ []))
        target ← prepare_url_target args raw_url
        validate_url_tls_args args.tls target.uses_tls
        ok (url_target target)
    ]

  -- `PreparedHttpArgs::from_args`
  unfoldable pub from_args : HttpArgs → Method → AppResult PreparedHttpArgs
  from_args args method = do
    headers ← parse_headers lib.header_name lib.header_value lib.utf8 args.header
    assertions ← header_assertions lib.header_name lib.header_value lib.utf8 args
    status_ranges ← parse_status_ranges args.status
    ok (record {
      method = method;
      headers = headers;
      header_assertions = assertions;
      status_ranges = status_ranges;
    })
