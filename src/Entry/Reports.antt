-- ===== src/Entry/Reports.antt =====
-- The report of a run carries the options of the call and the time that the run took.
use salus_rs.Prelude.{
  ◌∙◌, ℕ, ◌≡◌, refl, sym, ap, Bool, arith, Text, Bytes, Result, ok, ◌>>=◌, ◌>>◌, ok-injective,
  through, map_err, Bool-cases, inl, inr, not, refuse_if,
}
use salus_rs.Error.{AppError, AppResult, Message}
use salus_rs.Probe.InTime.{with_probe_timeout-ok}
use salus_rs.Probe.{ProbeOptions, ProbeReport, Carries}
use salus_rs.Probes.File.{
  FileArgs, FileSystem, validate_file_args, metadata_error, check_metadata, check_open,
}
use salus_rs.Probes.File
use salus_rs.Probes.Http.Args.{HttpArgs, has_body_assertions}
use salus_rs.Probes.Http.Target.{
  UriLibrary, PreparedHttpArgs, HttpTarget, url_target, unix_socket_target,
}
use salus_rs.Probes.Http.Body.{read_body, assert_response_body}
use salus_rs.Probes.Http.Headers.{assert_response_headers}
use salus_rs.Probes.Http.Status.{matches}
use salus_rs.Probes.Http.Evaluate.{
  Response, Network, PreparedHttpProbe, http_report, evaluate_response, run_url, run_unix_socket,
  run_target, prepare_http_probe,
}
use salus_rs.Probes.Http.Evaluate
use salus_rs.Probes.Http.Client.{call, connector_of, build_url_http_client}
use salus_rs.Probes.Grpc
use salus_rs.Probes.Grpc.{
  GrpcArgs, GrpcSystem, validate_grpc_args, prepare_grpc_endpoint, connector_for,
  connect_grpc_channel, check_status, grpc_target, service_of, run_check,
}
use salus_rs.Probes.Tcp.Reached.{run-IsReachable}
use salus_rs.Probes.Exec.Child.Succeeded.{run-reported}
use salus_rs.Entry.{World, ProbeCommand, http, tcp, grpc, exec, file, run_command}

carried :
    {options : ProbeOptions} {elapsed : ℕ} {report r : ProbeReport}
    → Carries options elapsed report
    → Path (AppResult ProbeReport) (ok report) (ok r)
    → Carries options elapsed r
carried (o, e) h =
    (ap (λ r. r.options) (sym (ok-injective h)) ∙ o, ap (λ r. r.elapsed) (sym (ok-injective h)) ∙ e)

module _ (options : ProbeOptions) (elapsed : ℕ) where
  file_run-Carries :
      (render : Message → Text) (args : FileArgs) (fs : FileSystem) (in_time : Bool)
      {r : ProbeReport}
      → File.run render options args fs elapsed in_time ≡ ok r
      → Carries options elapsed r
  unfolding File.run File.run_inner File.file_report
  file_run-Carries render args fs in_time h = through (validate_file_args args) _ h (λ _ h1.
      let inner = with_probe_timeout-ok "file" options.timeout in_time _ h1 in
      through (map_err (metadata_error args.path) fs.metadata) _ inner (λ metadata h2.
        through (check_metadata args metadata fs.now) _ h2
          (λ _ h3. through (check_open args fs) _ h3 (λ _ h4. carried (refl, refl) h4))))

  evaluate_response-Carries :
      {Uri : Type 0} (lib : UriLibrary Uri) (webpki : Bool) (user_agent : Bytes)
      (response : Response) (target : Text) (args : HttpArgs) (prepared : PreparedHttpArgs)
      {r : ProbeReport}
      → evaluate_response lib webpki user_agent response target args prepared elapsed options ≡ ok r
      → Carries options elapsed r
  unfolding evaluate_response http_report
  evaluate_response-Carries lib webpki user_agent response target args prepared {r} h =
      let report = http_report lib webpki user_agent options target response.status elapsed in
      through (refuse_if (not (matches prepared.status_ranges response.status)) _) _ h (λ _ h1.
        through (assert_response_headers response.headers prepared.header_assertions target) _ h1
          (λ _ h2. elim (Bool-cases (has_body_assertions args)) [
            | inr nothing_asked ↦
                carried {report = report} {r = r} (refl, refl) (ground (arith, h2, nothing_asked))
            | inl asked ↦
                let read : (read_body args response.hint response.body >>= λ body.
                assert_response_body body args target >> ok report)
                    ≡ ok r =
                  ground (arith, h2, asked) in
                through (read_body args response.hint response.body) _ read (λ body h3.
                  through (assert_response_body body args target) _ h3
                    (λ _ h4. carried {report = report} (refl, refl) h4))
          ]))

  -- A response is evaluated at the end of both ways.
  module _ {Uri : Type 0} (lib : UriLibrary Uri) (webpki : Bool) (user_agent : Bytes)
      (args : HttpArgs) (network : Network Uri) (in_time : Bool)
      (probe : PreparedHttpProbe Uri) where
    answered-Carries :
        (target : Text) (f : Text → AppError) (answer : Result Text Response) {r : ProbeReport}
        → (map_err f answer >>= λ response.
            evaluate_response lib webpki user_agent response target args probe.prepared elapsed
              options)
          ≡ ok r
        → Carries options elapsed r
    answered-Carries target f answer h = through (map_err f answer) _ h (λ response h1.
        evaluate_response-Carries lib webpki user_agent response target args probe.prepared h1)

    run_target-Carries :
        (target : HttpTarget Uri) {r : ProbeReport}
        → run_target lib webpki user_agent options args probe target network elapsed in_time ≡ ok r
        → Carries options elapsed r
    unfolding run_target run_url run_unix_socket
    run_target-Carries (url_target target) h =
        through
          (build_url_http_client lib.server_name webpki network.tls target.uses_tls args.tls
            target.connect_uri)
          _ h
          (λ client h1.
            answered-Carries target.label _
              (network.exchange (call (connector_of client)) probe.request)
              (with_probe_timeout-ok "HTTP" options.timeout in_time _ h1))
    run_target-Carries (unix_socket_target target) h =
        let sent = with_probe_timeout-ok "HTTP" options.timeout in_time _ h in
        through (map_err _ network.connect) _ sent (λ _ h1.
          through (map_err _ network.handshake) _ h1
            (λ _ h2. answered-Carries target.label _ (network.send_request probe.request) h2))

  http_run-Carries :
      {Uri : Type 0} (lib : UriLibrary Uri) (webpki : Bool) (user_agent : Bytes) (args : HttpArgs)
      (network : Network Uri) (in_time : Bool) {r : ProbeReport}
      → Evaluate.run lib webpki user_agent options args network elapsed in_time ≡ ok r
      → Carries options elapsed r
  unfolding Evaluate.run
  http_run-Carries lib webpki user_agent args network in_time h =
      through (prepare_http_probe lib webpki user_agent args) _ h (λ probe h1.
        run_target-Carries lib webpki user_agent args network in_time probe probe.target h1)

  grpc_run-Carries :
      (system : GrpcSystem) (webpki : Bool) (render : Message → Text) (args : GrpcArgs)
      (in_time : Bool) {r : ProbeReport}
      → Grpc.run system webpki render options args elapsed in_time ≡ ok r
      → Carries options elapsed r
  unfolding Grpc.run run_check
  grpc_run-Carries system webpki render args in_time h =
      through (validate_grpc_args system webpki args) _ h (λ _ h1.
        through (prepare_grpc_endpoint system webpki args options.timeout) _ h1 (λ endpoint h2.
          through (connector_for system webpki args) _ h2 (λ connector h3.
            let checked = with_probe_timeout-ok "gRPC" options.timeout in_time _ h3 in
            through (connect_grpc_channel system webpki endpoint connector args.addr) _ checked
              (λ _ h4.
                through (map_err _ (system.check (service_of args.service))) _ h4 (λ number h5.
                  through (check_status (grpc_target args.addr args.service) number) _ h5
                    (λ _ h6. carried (refl, refl) h6))))))

module _ {Uri : Type 0} (w : World Uri) where
  pub run_command-Carries :
      (options : ProbeOptions) (command : ProbeCommand) {r : ProbeReport}
      → run_command w options command ≡ ok r
      → Carries options w.elapsed r
  unfolding run_command
  run_command-Carries options (http args) h =
      http_run-Carries options w.elapsed w.library w.webpki w.user_agent args w.network w.in_time h
  run_command-Carries options (tcp addr) h =
      let (_, _, same) =
        run-IsReachable w.library.parse_authority options addr w.resolver w.elapsed w.in_time h in
      (ap (λ r. r.options) (sym same), ap (λ r. r.elapsed) (sym same))
  run_command-Carries options (grpc args) h =
      grpc_run-Carries options w.elapsed w.grpc w.webpki w.library.render args w.in_time h
  run_command-Carries options (exec args) h =
      (run-reported w.library.render options args w.exec w.elapsed h).1
  run_command-Carries options (file args) h =
      file_run-Carries options w.elapsed w.library.render args w.file w.in_time h
