-- ===== src/Probes/Grpc.antt =====
-- probes/grpc.rs: the checks of the arguments, the endpoint, its connector, and the verdict on the
-- health check's answer.
pub mod Serving
pub mod Accepted
use salus_rs.Prelude.{
  ℕ, String, Bool, true, false, not, ◌&&◌, ◌||◌, Option, none, some, List, [], ◌∷◌, ◌++◌, ◌==◌,
  if◌then◌else◌, is_nil, Text, codes, Result, ok, err, ◌>>=◌, ◌>>◌, map_err, refuse_if,
}
use salus_rs.Error.{AppError, AppResult, failure, invalid_config, Message, Piece, lit, display}
use salus_rs.Diagnostic.{value}
use salus_rs.Validation.{validate_non_empty_str}
use salus_rs.Authority.{required, optional, as_debug, validate_authority}
use salus_rs.Tls.{TlsArgs, has_tls_flags, validate_tls_options}
use salus_rs.Tls.Config.{TlsLibrary, HttpsConnector, build_https_connector}
use salus_rs.Probe.{ProbeOptions, ProbeReport, with_probe_timeout}

pub record GrpcArgs : Type 0 where
  pub addr : Text
  pub service : Option Text
  pub authority : Option Text
  pub tls : Bool
  pub tls_args : TlsArgs

-- The serving states of the health protocol, with their numbers.
pub data ServingStatus : Type 0 where
  unknown : ServingStatus
  serving : ServingStatus
  not_serving : ServingStatus
  service_unknown : ServingStatus

-- `ServingStatus::try_from`
unfoldable pub serving_status : ℕ → Option ServingStatus
serving_status number =
    if number == 0
    then some unknown
    else if number == 1
    then some serving
    else if number == 2
    then some not_serving
    else if number == 3
    then some service_unknown
    else none

abbrev pub status_name : ServingStatus → String
status_name unknown = "Unknown"
status_name serving = "Serving"
status_name not_serving = "NotServing"
status_name service_unknown = "ServiceUnknown"

-- What the answer of the server is: its number, or a status of gRPC with its code and message.
pub record GrpcStatus : Type 0 where
  pub code : Text
  pub message : Text

-- `tonic::transport::Endpoint`: its URI, and the origin of its requests if it is not that of the URI.
pub record Endpoint : Type 0 where
  pub uri : Text
  pub origin : Option Text
  pub connect_timeout : ℕ
  pub timeout : ℕ

-- `GrpcTlsConnector` over an `HttpsConnector`.
pub record GrpcTlsConnector : Type 0 where
  pub inner : HttpsConnector

-- A call of the inner connector for a URI.
pub record GrpcDial : Type 0 where
  pub connector : HttpsConnector
  pub uri : Text

-- What the libraries and the server answer: whether they take a URI as an endpoint or an origin, the
-- TLS library, the URI with its scheme replaced, the connection, and the check for a service. The
-- connection is made by tonic's own connector, or by a given one, which is given as what it does for
-- a URI.
pub record GrpcSystem : Type 0 where
  pub parse_authority : Text → Result Text Text
  pub server_name : Text → Result Text Text
  pub endpoint : Text → Result Text Unit
  pub origin : Text → Result Text Unit
  pub tls : TlsLibrary
  pub with_https : Text → Result Text Text
  pub connect : Endpoint → Option (Text → Result Message GrpcDial) → Result Text Unit
  pub check : Text → Result GrpcStatus ℕ

unfoldable pub grpc_target : Text → Option Text → Message
grpc_target addr none = display addr ∷ []
grpc_target addr (some service) =
    if not (is_nil service)
    then display addr ∷ lit " service=" ∷ value service ∷ []
    else display addr ∷ []

unfoldable pub grpc_status_error : Message → GrpcStatus → AppError
grpc_status_error target status = failure (
    lit "gRPC health check for "
    ∷ (target
        ++ (lit " failed: code="
            ∷ display status.code
            ∷ lit " message="
            ∷ value status.message
            ∷ [])))

check_optional : String → Option Text → AppResult Unit
check_optional flag none = ok tt
check_optional flag (some text) = validate_non_empty_str flag text

unfoldable pub check_status : Message → ℕ → AppResult Unit
check_status target number = elim (serving_status number) [
  | none ↦ err (
      failure (
        lit "gRPC health check for "
        ∷ (target ++ (lit " returned an unknown serving status" ∷ []))))
  | some serving ↦ ok tt
  | some status ↦ err (
      failure (
        lit "gRPC health check for "
        ∷ (target ++ (lit " returned " ∷ lit (status_name status) ∷ []))))
]

abbrev pub service_of : Option Text → Text
service_of none = []
service_of (some service) = service

module _ (system : GrpcSystem) (webpki : Bool) where
  check_grpc_authority : Option Text → AppResult Unit
  check_grpc_authority none = ok tt
  check_grpc_authority (some authority) = do
    host ← validate_authority system.parse_authority authority "gRPC authority" optional as_debug
    ok tt

  unfoldable pub validate_grpc_args : GrpcArgs → AppResult Unit
  unfolding check_optional check_grpc_authority
  validate_grpc_args args = do
    validate_non_empty_str "--addr" args.addr
    check_optional "--service" args.service
    check_optional "--authority" args.authority
    host ← validate_authority system.parse_authority args.addr "gRPC address" required as_debug
    check_grpc_authority args.authority
    refuse_if (not args.tls && has_tls_flags args.tls_args)
        (invalid_config (lit "gRPC TLS flags require --tls" ∷ []))
    (if args.tls then validate_tls_options system.server_name webpki args.tls_args else ok tt)

  -- The origin, where the URI's own is not the one to use.
  unfoldable pub origin_of : GrpcArgs → Option Text → AppResult (Option Text)
  origin_of args (some authority) = do
    map_err
        (λ error.
          invalid_config
            (lit "invalid gRPC authority " ∷ display authority ∷ lit ": " ∷ display error ∷ []))
        (system.origin (codes (if args.tls then "https://" else "http://") ++ authority))
    ok (some (codes (if args.tls then "https://" else "http://") ++ authority))
  origin_of args none =
      if args.tls
      then (do
        map_err
            (λ error. invalid_config (
              lit "invalid gRPC TLS origin https://"
              ∷ display args.addr
              ∷ lit ": "
              ∷ display error
              ∷ []))
            (system.origin (codes "https://" ++ args.addr))
        ok (some (codes "https://" ++ args.addr)))
      else ok none

  unfoldable pub prepare_grpc_endpoint : GrpcArgs → ℕ → AppResult Endpoint
  prepare_grpc_endpoint args timeout = do
    map_err
        (λ error.
          invalid_config (
            lit "invalid gRPC endpoint http://"
            ∷ display args.addr
            ∷ lit ": "
            ∷ display error
            ∷ []))
        (system.endpoint (codes "http://" ++ args.addr))
    origin ← origin_of args args.authority
    ok (record {
      uri = codes "http://" ++ args.addr;
      origin = origin;
      connect_timeout = timeout;
      timeout = timeout;
    })

  unfoldable pub build_grpc_tls_connector : TlsArgs → AppResult GrpcTlsConnector
  build_grpc_tls_connector tls = do
    https ← build_https_connector system.tls webpki system.server_name tls
    ok (record { inner = https })

  -- `call` of the service: the inner connector is called for the URI with the scheme https.
  unfoldable pub call : GrpcTlsConnector → Text → Result Message GrpcDial
  call service uri = do
    https_uri ←
        map_err (λ error. lit "failed to construct HTTPS gRPC URI: " ∷ display error ∷ [])
          (system.with_https uri)
    ok (record { connector = service.inner; uri = https_uri })

  unfoldable pub connector_for : GrpcArgs → AppResult (Option GrpcTlsConnector)
  connector_for args =
      if args.tls
      then (do connector ← build_grpc_tls_connector args.tls_args; ok (some connector))
      else ok none

  unfoldable pub connect_grpc_channel : Endpoint → Option GrpcTlsConnector → Text → AppResult Unit
  connect_grpc_channel endpoint tls_connector addr =
      map_err
        (λ error.
          failure (
            lit "failed to connect to gRPC target " ∷ display addr ∷ lit ": " ∷ display error ∷ []))
        (system.connect endpoint
          (elim tls_connector [ none ↦ none | some connector ↦ some (call connector) ]))

  module _ (render : Message → Text) where
    unfoldable pub run_check :
        ProbeOptions → GrpcArgs → Endpoint → Option GrpcTlsConnector → ℕ → AppResult ProbeReport
    run_check options args endpoint tls_connector elapsed =
        let target = grpc_target args.addr args.service in
        do
          connect_grpc_channel endpoint tls_connector args.addr
          number ← map_err (grpc_status_error target) (system.check (service_of args.service))
          check_status target number
          ok (record {
            mode = "grpc";
            target = render target;
            detail = some (codes "status=SERVING");
            elapsed = elapsed;
            options = options;
          })

    unfoldable pub run : ProbeOptions → GrpcArgs → ℕ → Bool → AppResult ProbeReport
    run options args elapsed in_time = do
      validate_grpc_args args
      endpoint ← prepare_grpc_endpoint args options.timeout
      tls_connector ← connector_for args
      with_probe_timeout "gRPC" options.timeout
          (if in_time then some (run_check options args endpoint tls_connector elapsed) else none)
