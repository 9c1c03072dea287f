-- ===== src/Probes/Http/Evaluate.antt =====
-- The probe as a whole: the preparation, the request, and the verdict on the response.
pub mod Verdict
pub mod Decided
pub mod Accepted
use salus_rs.Prelude.{
  ℕ, String, Bool, true, false, not, Option, none, some, List, [], ◌∷◌, ◌++◌, if◌then◌else◌, any,
  Text, Bytes, OsStr, codes, equal, Result, ok, err, ◌>>=◌, ◌>>◌, map_err, refuse_if,
}
use salus_rs.Error.{AppError, AppResult, failure, invalid_config, lit, display, number}
use salus_rs.Diagnostic.{path}
use salus_rs.Probe.{ProbeOptions, ProbeReport, with_probe_timeout}
use salus_rs.Probes.Http.Args.{HttpArgs, has_body_assertions}
use salus_rs.Probes.Http.Body.{BodyEvent, SizeHint, read_body, assert_response_body}
use salus_rs.Probes.Http.Headers.{HeaderName, HeaderMap, assert_response_headers}
use salus_rs.Probes.Http.Status.{matches}
use salus_rs.Probes.Http.Target.{
  Method, parse_method, validate_http_body_assertion_values, validate_http_capture_args,
  validate_http_method_assertions, UriLibrary, UnixSocketTarget, UrlTarget, HttpTarget, url_target,
  unix_socket_target, PreparedHttpArgs,
}
use salus_rs.Tls.Config.{TlsLibrary}
use salus_rs.Probes.Http.Client.{Dial, call, connector_of, build_url_http_client}
use salus_rs.Probes.Http.Target.Prepare.{prepare_http_target, from_args}

-- A response, with what its body will bring.
pub record Response : Type 0 where
  pub status : ℕ
  pub headers : HeaderMap
  pub hint : SizeHint
  pub body : List BodyEvent

-- The method, the URI and the header fields that are sent; there is no body.
pub record Request (Uri : Type 0) : Type 0 where
  pub method : Method
  pub uri : Uri
  pub headers : List (HeaderName × Bytes)

pub record PreparedHttpProbe (Uri : Type 0) : Type 0 where
  pub target : HttpTarget Uri
  pub prepared : PreparedHttpArgs
  pub request : Request Uri

-- What the TLS library and the network answer. `exchange` is hyper's client over a connector, which is
-- given as what it does for a URI; the other three are the ways of a request over a socket.
pub record Network (Uri : Type 0) : Type 0 where
  pub tls : TlsLibrary
  pub exchange : (Uri → Dial Uri) → Request Uri → Result Text Response
  pub connect : Result Text Unit
  pub handshake : Result Text Unit
  pub send_request : Request Uri → Result Text Response

abbrev request_uri_of : {Uri : Type 0} → HttpTarget Uri → Uri
request_uri_of (url_target target) = target.request_uri
request_uri_of (unix_socket_target target) = target.request_uri

abbrev host_of : {Uri : Type 0} → HttpTarget Uri → Text
host_of (url_target target) = target.host
host_of (unix_socket_target target) = target.host

module _ {Uri : Type 0} (lib : UriLibrary Uri) (webpki : Bool) (user_agent : Bytes) where
  agent_header : List (HeaderName × Bytes) → List (HeaderName × Bytes)
  agent_header headers =
      if not (any (λ header. equal header.0 (codes "user-agent")) headers)
      then (codes "user-agent", user_agent) ∷ []
      else []

  -- The builder fails on a host that is no header value, and only on that: the other parts are
  -- values of the library's own types.
  unfoldable pub build_request : Uri → Text → PreparedHttpArgs → AppResult (Request Uri)
  unfolding agent_header
  build_request uri host prepared = do
    host_value ←
        map_err (λ error. invalid_config (lit "invalid HTTP request: " ∷ display error ∷ []))
          (lib.header_value host)
    ok (record {
      method = prepared.method;
      uri = uri;
      headers = (codes "host", host_value) ∷ (agent_header prepared.headers ++ prepared.headers);
    })

  unfoldable pub prepare_http_probe : HttpArgs → AppResult (PreparedHttpProbe Uri)
  prepare_http_probe args = do
    target ← prepare_http_target lib webpki args
    method ← parse_method args.method
    validate_http_body_assertion_values args
    prepared ← from_args lib webpki args method
    validate_http_capture_args args
    validate_http_method_assertions args prepared.method
    request ← build_request (request_uri_of target) (host_of target) prepared
    ok (record { target = target; prepared = prepared; request = request })

  unfoldable pub http_report : ProbeOptions → Text → ℕ → ℕ → ProbeReport
  http_report options target status elapsed = record {
    mode = "http";
    target = target;
    detail = some (lib.render (lit "status=" ∷ number status ∷ []));
    elapsed = elapsed;
    options = options;
  }

  unfoldable pub evaluate_response :
      Response → Text → HttpArgs → PreparedHttpArgs → ℕ → ProbeOptions → AppResult ProbeReport
  evaluate_response response target args prepared elapsed options = do
    refuse_if (not (matches prepared.status_ranges response.status)) (
        failure (
          lit "HTTP status "
          ∷ number response.status
          ∷ lit " from "
          ∷ display target
          ∷ lit " is outside the allowed range"
          ∷ []))
    assert_response_headers response.headers prepared.header_assertions target
    (if not (has_body_assertions args)
        then ok (http_report options target response.status elapsed)
        else (do
          body ← read_body args response.hint response.body
          assert_response_body body args target
          ok (http_report options target response.status elapsed)))

  -- `in_time` says whether the future was ready before the timeout.
  unfoldable pub run_url :
      ProbeOptions
      → HttpArgs
      → PreparedHttpProbe Uri
      → UrlTarget Uri
      → Network Uri
      → ℕ
      → Bool
      → AppResult ProbeReport
  run_url options args probe target network elapsed in_time = do
    client ←
        build_url_http_client lib.server_name webpki network.tls target.uses_tls args.tls
          target.connect_uri
    with_probe_timeout "HTTP" options.timeout (
        if in_time
        then some (do
          response ←
              map_err
                (λ error. failure (
                  lit "HTTP request to "
                  ∷ display target.label
                  ∷ lit " failed: "
                  ∷ display error
                  ∷ []))
                (network.exchange (call (connector_of client)) probe.request)
          evaluate_response response target.label args probe.prepared elapsed options)
        else none)

  unfoldable pub run_unix_socket :
      ProbeOptions
      → HttpArgs
      → PreparedHttpProbe Uri
      → UnixSocketTarget Uri
      → Network Uri
      → ℕ
      → Bool
      → AppResult ProbeReport
  run_unix_socket options args probe target network elapsed in_time =
      with_probe_timeout "HTTP" options.timeout (
        if in_time
        then some (do
          map_err
              (λ error. failure (
                lit "failed to connect to unix socket "
                ∷ path target.sock
                ∷ lit ": "
                ∷ display error
                ∷ []))
              network.connect
          map_err (λ error. failure (lit "HTTP handshake failed: " ∷ display error ∷ []))
              network.handshake
          response ←
              map_err
                (λ error. failure (
                  lit "HTTP request over unix socket "
                  ∷ path target.sock
                  ∷ lit " failed: "
                  ∷ display error
                  ∷ []))
                (network.send_request probe.request)
          evaluate_response response target.label args probe.prepared elapsed options)
        else none)

  unfoldable pub run_target :
      ProbeOptions
      → HttpArgs
      → PreparedHttpProbe Uri
      → HttpTarget Uri
      → Network Uri
      → ℕ
      → Bool
      → AppResult ProbeReport
  run_target options args probe (url_target target) network elapsed in_time =
      run_url options args probe target network elapsed in_time
  run_target options args probe (unix_socket_target target) network elapsed in_time =
      run_unix_socket options args probe target network elapsed in_time

  unfoldable pub run : ProbeOptions → HttpArgs → Network Uri → ℕ → Bool → AppResult ProbeReport
  run options args network elapsed in_time = do
    probe ← prepare_http_probe args
    run_target options args probe probe.target network elapsed in_time
