-- ===== src/Probes/Grpc/Serving.antt =====
-- What a success of the gRPC probe shows.
use salus_rs.Prelude.{
  Option, none, some, codes, ◌++◌, sym, ok-injective, if◌then◌else◌, ◌>>=◌, ℕ, ◌≡◌, refl, ap, ◌∙◌,
  Bool, true, false, arith, ◌==◌, ==_iff, Text, ok, err, >>=-eq-ok, map_err, map_err-ok, Bool-cases,
  inl, inr,
}
use salus_rs.Error.{AppResult, Message}
use salus_rs.Authority.{required, as_debug, validate_authority}
use salus_rs.Authority.Shape.{IsHostPort, validate_authority-IsHostPort}
use salus_rs.Tls.{has_tls_flags}
use salus_rs.Tls.Config.{HttpsConnector, build_https_connector}
use salus_rs.Tls.Config.Secured.{Secures, build_https_connector-Secures}
use salus_rs.Probe.InTime.{with_probe_timeout-ok}
use salus_rs.Probe.{ProbeOptions, ProbeReport}
use salus_rs.Probes.Grpc.{
  GrpcArgs, serving_status, Endpoint, GrpcTlsConnector, call, origin_of, connector_for,
  build_grpc_tls_connector, prepare_grpc_endpoint, connect_grpc_channel, GrpcSystem, grpc_target,
  grpc_status_error, service_of, validate_grpc_args, check_status, run_check, run,
}

-- Every other number is refused.
refused :
    (target : Message) (number : ℕ) → (number == 1) ≡ false → check_status target number ≡ ok tt → ⊥
unfolding check_status serving_status
refused target number other h = elim (Bool-cases (number == 0)) [
  | inl e ↦ ground (arith, h, e)
  | inr e0 ↦ elim (Bool-cases (number == 2)) [
    | inl e ↦ ground (arith, h, e0, other, e)
    | inr e2 ↦ elim (Bool-cases (number == 3)) [
      | inl e ↦ ground (arith, h, e0, other, e2, e)
      | inr e3 ↦ ground (arith, h, e0, other, e2, e3)
    ]
  ]
]

check_status-serving :
    (target : Message) (number : ℕ) → check_status target number ≡ ok tt → number ≡ 1
unfolding check_status serving_status
check_status-serving target number h = elim (Bool-cases (number == 1)) [
  | inl e ↦ (==_iff number 1).0 e
  | inr other ↦ absurd (refused target number other h)
]

-- The origin of the requests: that of `--authority`, and with TLS that of the address.
abbrev pub origin_text : Bool → Text → Option Text → Option Text
origin_text true addr (some authority) = some (codes "https://" ++ authority)
origin_text false addr (some authority) = some (codes "http://" ++ authority)
origin_text true addr none = some (codes "https://" ++ addr)
origin_text false addr none = none

module _ (system : GrpcSystem) (webpki : Bool) (args : GrpcArgs) where
  -- Without TLS there is no connector of its own, with TLS one that is secured as the options ask.
  abbrev pub SecuredBy : Bool → Option GrpcTlsConnector → Type 0
  SecuredBy false connector = connector ≡ none
  SecuredBy true connector =
      (https : HttpsConnector) × (connector ≡ some (record { inner = https }))
      × Secures system.server_name webpki system.tls args.tls_args https

  -- What was asked, and what the server answered.
  pub record IsServing (timeout : ℕ) : Type 0 where
    pub address : IsHostPort args.addr
    pub tls : has_tls_flags args.tls_args ≡ true → args.tls ≡ true
    pub connector : Option GrpcTlsConnector
    pub secured : SecuredBy args.tls connector
    pub connected :
        system.connect
          (record {
            uri = codes "http://" ++ args.addr;
            origin = origin_text args.tls args.addr args.authority;
            connect_timeout = timeout;
            timeout = timeout;
          })
          (elim connector [ none ↦ none | some c ↦ some (call system webpki c) ])
        ≡ ok tt
    pub answer : system.check (service_of args.service) ≡ ok 1

  validate_grpc_args-address : validate_grpc_args system webpki args ≡ ok tt → IsHostPort args.addr
  unfolding validate_grpc_args
  validate_grpc_args-address h =
      accepted
        (validate_authority system.parse_authority args.addr "gRPC address" required as_debug) refl
    where
      accepted :
          (r : AppResult Text)
          → validate_authority system.parse_authority args.addr "gRPC address" required as_debug ≡ r
          → IsHostPort args.addr
      accepted (ok host) e =
          validate_authority-IsHostPort system.parse_authority args.addr "gRPC address" required
            as_debug e
      accepted (err error) e = absurd (ground (arith, h, e))

  validate_grpc_args-tls :
      validate_grpc_args system webpki args ≡ ok tt
      → has_tls_flags args.tls_args ≡ true
      → args.tls ≡ true
  unfolding validate_grpc_args
  validate_grpc_args-tls h flags = ground (arith, h, flags)

  named :
      (authority : Text) (secure : Bool) {origin : Option Text}
      → args.tls ≡ secure
      → origin_of system webpki args (some authority) ≡ ok origin
      → origin ≡ some (codes (if secure then "https://" else "http://") ++ authority)
  unfolding origin_of
  named authority secure e h =
      let (_, taken, h1) =
        >>=-eq-ok
          (map_err _
            (system.origin (codes (if args.tls then "https://" else "http://") ++ authority)))
          _ h in
      sym (ok-injective h1)
      ∙ ap (λ b. some (codes (if b then "https://" else "http://") ++ authority)) e

  origin_of-ok :
      (secure : Bool) (authority : Option Text) {origin : Option Text}
      → args.tls ≡ secure
      → origin_of system webpki args authority ≡ ok origin
      → origin ≡ origin_text secure args.addr authority
  unfolding origin_of
  origin_of-ok true (some authority) e h = named authority true e h
  origin_of-ok false (some authority) e h = named authority false e h
  origin_of-ok true none e h = ground (arith, h, e)
  origin_of-ok false none e h = ground (arith, h, e)

  prepare_grpc_endpoint-ok :
      (timeout : ℕ) {endpoint : Endpoint}
      → prepare_grpc_endpoint system webpki args timeout ≡ ok endpoint
      → endpoint ≡ record {
        uri = codes "http://" ++ args.addr;
        origin = origin_text args.tls args.addr args.authority;
        connect_timeout = timeout;
        timeout = timeout;
      }
  unfolding prepare_grpc_endpoint
  prepare_grpc_endpoint-ok timeout h =
      let (_, taken, h1) =
        >>=-eq-ok (map_err _ (system.endpoint (codes "http://" ++ args.addr))) _ h in
      let (origin, found, h2) = >>=-eq-ok (origin_of system webpki args args.authority) _ h1 in
      sym (ok-injective h2)
      ∙ ap
          (λ (o : Option Text). record {
            uri = codes "http://" ++ args.addr;
            origin = o;
            connect_timeout = timeout;
            timeout = timeout;
          })
          (origin_of-ok args.tls args.authority refl found)

  connector_for-SecuredBy :
      (secure : Bool) {connector : Option GrpcTlsConnector}
      → args.tls ≡ secure
      → connector_for system webpki args ≡ ok connector
      → SecuredBy secure connector
  unfolding connector_for build_grpc_tls_connector
  connector_for-SecuredBy false {connector} e h = ground (arith, h, e)
  connector_for-SecuredBy true {connector} e h =
      let secured_connector : (build_grpc_tls_connector system webpki args.tls_args >>= λ c.
      ok (some c))
          ≡ ok connector =
        ground (arith, h, e) in
      let (c, built, h1) =
        >>=-eq-ok (build_grpc_tls_connector system webpki args.tls_args) _ secured_connector in
      let (https, secured, h2) =
        >>=-eq-ok (build_https_connector system.tls webpki system.server_name args.tls_args) _
          built in
      (
        https,
        sym (ok-injective h1) ∙ ap some (sym (ok-injective h2)),
        build_https_connector-Secures system.server_name webpki system.tls args.tls_args secured,
      )

  module _ (render : Message → Text) (options : ProbeOptions) (endpoint : Endpoint)
      (connector : Option GrpcTlsConnector) (elapsed : ℕ) where
    run_check-answer :
        {r : ProbeReport}
        → run_check system webpki render options args endpoint connector elapsed ≡ ok r
        → (system.connect endpoint
              (elim connector [ none ↦ none | some c ↦ some (call system webpki c) ])
            ≡ ok tt)
          × (system.check (service_of args.service) ≡ ok 1)
    unfolding run_check connect_grpc_channel
    run_check-answer h =
        let (_, joined, h1) =
          >>=-eq-ok (connect_grpc_channel system webpki endpoint connector args.addr) _ h in
        let (number, answered, h2) =
          >>=-eq-ok
            (map_err (grpc_status_error (grpc_target args.addr args.service))
              (system.check (service_of args.service)))
            _ h1 in
        let (_, checked, h3) =
          >>=-eq-ok (check_status (grpc_target args.addr args.service) number) _ h2 in
        let one : number ≡ 1 =
          check_status-serving (grpc_target args.addr args.service) number checked in
        (
          map_err-ok _ _ joined,
          map_err-ok _ (system.check (service_of args.service)) answered ∙ ap ok one,
        )

  -- The probe succeeds only if the address has the form of an authority, TLS options come with --tls
  -- alone, the connection to the address was made, and the server answered SERVING for the service that was
  -- asked. With --tls the connection is secured as the options ask. The requests are for the origin that
  -- --authority names.
  pub run-IsServing :
      (render : Message → Text) (options : ProbeOptions) (elapsed : ℕ) (in_time : Bool)
      {r : ProbeReport}
      → run system webpki render options args elapsed in_time ≡ ok r
      → IsServing options.timeout
  unfolding run
  run-IsServing render options elapsed in_time {r} h =
      let (_, valid, h1) = >>=-eq-ok (validate_grpc_args system webpki args) _ h in
      let (endpoint, prepared, h2) =
        >>=-eq-ok (prepare_grpc_endpoint system webpki args options.timeout) _ h1 in
      let (connector, built, h3) = >>=-eq-ok (connector_for system webpki args) _ h2 in
      let answer =
        run_check-answer render options endpoint connector elapsed
          (with_probe_timeout-ok "gRPC" options.timeout in_time _ h3) in
      record {
        address = validate_grpc_args-address valid;
        tls = validate_grpc_args-tls valid;
        connector = connector;
        secured = connector_for-SecuredBy args.tls refl built;
        connected =
            ap
              (λ e.
                system.connect e
                  (elim connector [ none ↦ none | some c ↦ some (call system webpki c) ]))
              (sym (prepare_grpc_endpoint-ok options.timeout prepared))
            ∙ answer.0;
        answer = answer.1;
      }
