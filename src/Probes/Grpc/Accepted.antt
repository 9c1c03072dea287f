-- ===== src/Probes/Grpc/Accepted.antt =====
-- When the gRPC probe succeeds.
use salus_rs.Prelude.{ℕ, ◌≡◌, refl, Bool, true, Option, none, some, arith, Text, ok}
use salus_rs.Error.{Message}
use salus_rs.Probe.{ProbeOptions, ProbeReport, with_probe_timeout}
use salus_rs.Probes.Grpc.{
  GrpcArgs, GrpcSystem, Endpoint, GrpcTlsConnector, call, service_of, serving_status, check_status,
  validate_grpc_args, prepare_grpc_endpoint, connector_for, connect_grpc_channel, run_check, run,
}

module _ (system : GrpcSystem) (webpki : Bool) (args : GrpcArgs) where
  -- The call is valid, the connection is made, and the server answers SERVING.
  pub record IsAvailable (timeout : ℕ) : Type 0 where
    pub valid : validate_grpc_args system webpki args ≡ ok tt
    pub endpoint : Endpoint
    pub prepared : prepare_grpc_endpoint system webpki args timeout ≡ ok endpoint
    pub connector : Option GrpcTlsConnector
    pub built : connector_for system webpki args ≡ ok connector
    pub connected :
        system.connect endpoint
          (elim connector [ none ↦ none | some c ↦ some (call system webpki c) ])
        ≡ ok tt
    pub answer : system.check (service_of args.service) ≡ ok 1

  module _ (render : Message → Text) (options : ProbeOptions) (elapsed : ℕ) where
    run_check-available :
        (a : IsAvailable options.timeout)
        → (r : ProbeReport) × (run_check system webpki render options args a.endpoint a.connector
              elapsed
            ≡ ok r)
    unfolding run_check connect_grpc_channel check_status serving_status
    run_check-available a =
        let connected = a.connected in let answer = a.answer in rw (connected, answer) (_, refl)

    -- The probe succeeds if the server is available.
    pub run-available :
        IsAvailable options.timeout
        → (r : ProbeReport) × (run system webpki render options args elapsed true ≡ ok r)
    unfolding run with_probe_timeout
    run-available a =
        let valid = a.valid in
        let prepared = a.prepared in
        let built = a.built in
        let (r, checked) = run_check-available a in
        (r, ground (arith, valid, prepared, built, checked))
