-- ===== src/Probes/Http/Evaluate/Decided.antt =====
-- A run of the probe that succeeds rests on one response of the network.
use salus_rs.Prelude.{
  ℕ, ◌≡◌, refl, Bool, arith, Text, Bytes, Result, ok, err, ◌>>=◌, >>=-eq-ok, map_err, map_err-ok,
}
use salus_rs.Probe.InTime.{with_probe_timeout-ok}
use salus_rs.Probe.{ProbeOptions, ProbeReport}
use salus_rs.Probes.Http.Args.{HttpArgs}
use salus_rs.Probes.Http.Target.{
  UriLibrary, UrlTarget, UnixSocketTarget, HttpTarget, url_target, unix_socket_target,
}
use salus_rs.Probes.Http.Evaluate.{
  Response, Request, PreparedHttpProbe, Network, prepare_http_probe, run_url, run_unix_socket,
  run_target, run,
}
use salus_rs.Probes.Http.Client.{UrlHttpClient, call, connector_of, build_url_http_client}
use salus_rs.Probes.Http.Evaluate.Verdict.{IsHealthyResponse, evaluate_response-IsHealthyResponse}

answered :
    {E A B : Type 0} (f : Text → E) (m : Result Text A) (k : A → Result E B) {r : B}
    → (map_err f m >>= k) ≡ ok r
    → (a : A) × (m ≡ ok a) × (k a ≡ ok r)
answered f (ok a) k h = (a, refl, h)
answered f (err e) k h = ground arith

module _ {Uri : Type 0} (lib : UriLibrary Uri) (webpki : Bool) (user_agent : Bytes) where
  -- The response came over the client for the URL, or over the socket.
  abbrev pub Answers : Network Uri → HttpArgs → Request Uri → HttpTarget Uri → Response → Type 0
  Answers network args request (url_target target) response =
      (client : UrlHttpClient Uri) × (build_url_http_client lib.server_name webpki network.tls
          target.uses_tls args.tls target.connect_uri
        ≡ ok client)
      × (network.exchange (call (connector_of client)) request ≡ ok response)
  Answers network args request (unix_socket_target target) response =
      (network.connect ≡ ok tt)
      × (network.handshake ≡ ok tt)
      × (network.send_request request ≡ ok response)

  -- The response that decided a run, and what was asked of it.
  pub record Decided (args : HttpArgs) (network : Network Uri) : Type 0 where
    pub probe : PreparedHttpProbe Uri
    pub response : Response
    pub prepares : prepare_http_probe lib webpki user_agent args ≡ ok probe
    pub answers : Answers network args probe.request probe.target response
    pub healthy : IsHealthyResponse args probe.prepared response

  module _ (options : ProbeOptions) (args : HttpArgs) (probe : PreparedHttpProbe Uri)
      (network : Network Uri) (elapsed : ℕ) (in_time : Bool) where
    abbrev Answer : HttpTarget Uri → Type 0
    Answer target =
        (response : Response) × Answers network args probe.request target response
        × IsHealthyResponse args probe.prepared response

    run_url-Answer :
        (target : UrlTarget Uri) {r : ProbeReport}
        → run_url lib webpki user_agent options args probe target network elapsed in_time ≡ ok r
        → Answer (url_target target)
    unfolding run_url
    run_url-Answer target h =
        let (client, built, started) =
          >>=-eq-ok
            (build_url_http_client lib.server_name webpki network.tls target.uses_tls args.tls
              target.connect_uri)
            _ h in
        let (response, answers, verdict) =
          answered _ (network.exchange (call (connector_of client)) probe.request) _
            (with_probe_timeout-ok "HTTP" options.timeout in_time _ started) in
        (
          response,
          (client, built, answers),
          evaluate_response-IsHealthyResponse lib webpki user_agent response target.label args
              probe.prepared elapsed options verdict,
        )

    run_unix_socket-Answer :
        (target : UnixSocketTarget Uri) {r : ProbeReport}
        → run_unix_socket lib webpki user_agent options args probe target network elapsed in_time
          ≡ ok r
        → Answer (unix_socket_target target)
    unfolding run_unix_socket
    run_unix_socket-Answer target h =
        let (_, connected, h1) =
          >>=-eq-ok (map_err _ network.connect) _
            (with_probe_timeout-ok "HTTP" options.timeout in_time _ h) in
        let (_, shaken, h2) = >>=-eq-ok (map_err _ network.handshake) _ h1 in
        let (response, answers, verdict) = answered _ (network.send_request probe.request) _ h2 in
        (
          response,
          (map_err-ok _ network.connect connected, map_err-ok _ network.handshake shaken, answers),
          evaluate_response-IsHealthyResponse lib webpki user_agent response target.label args
              probe.prepared elapsed options verdict,
        )

    run_target-Answer :
        (target : HttpTarget Uri) {r : ProbeReport}
        → run_target lib webpki user_agent options args probe target network elapsed in_time ≡ ok r
        → Answer target
    unfolding run_target
    run_target-Answer (url_target target) h = run_url-Answer target h
    run_target-Answer (unix_socket_target target) h = run_unix_socket-Answer target h

  -- A probe that succeeds, over a URL or a Unix socket, was prepared from its arguments without an
  -- error, and had a response to its request whose status, header fields and whole body meet every
  -- assertion of the arguments.
  pub run-Decided :
      (options : ProbeOptions) (args : HttpArgs) (network : Network Uri) (elapsed : ℕ)
      (in_time : Bool) {r : ProbeReport}
      → run lib webpki user_agent options args network elapsed in_time ≡ ok r
      → Decided args network
  unfolding run
  run-Decided options args network elapsed in_time h =
      let (probe, prepares, rest) =
        >>=-eq-ok (prepare_http_probe lib webpki user_agent args)
          (λ probe.
            run_target lib webpki user_agent options args probe probe.target network elapsed
              in_time)
          h in
      let (response, answers, healthy) =
        run_target-Answer options args probe network elapsed in_time probe.target rest in
      record {
        probe = probe;
        response = response;
        prepares = prepares;
        answers = answers;
        healthy = healthy;
      }
