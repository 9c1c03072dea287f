-- ===== src/Probes/Http/Evaluate/Accepted.antt =====
-- A run of the probe whose response is healthy succeeds.
use salus_rs.Prelude.{ℕ, ◌<◌, ◌≡◌, refl, Bool, true, length, Text, Bytes, ok, Bool-cases, inl, inr}
use salus_rs.Probe.{ProbeOptions, with_probe_timeout}
use salus_rs.Probes.Http.Args.{HttpArgs, has_body_assertions}
use salus_rs.Probes.Http.Body.Reading.{data_of}
use salus_rs.Probes.Http.Body.Complete.{NoFailure}
use salus_rs.Probes.Http.Body.Accepted.{IsHonest, read_body-accepted}
use salus_rs.Probes.Http.Headers.{assert_response_headers}
use salus_rs.Probes.Http.Headers.Asserted.{assert_response_headers_iff}
use salus_rs.Probes.Http.Target.{
  UriLibrary, PreparedHttpArgs, HttpTarget, url_target, unix_socket_target,
}
use salus_rs.Probes.Http.Evaluate.{
  Response, PreparedHttpProbe, Network, http_report, evaluate_response, run_url, run_unix_socket,
  run_target, run,
}
use salus_rs.Probes.Http.Evaluate.Verdict.{IsHealthyResponse}
use salus_rs.Probes.Http.Evaluate.Decided.{Answers, Decided}

-- A body that comes to its end without an error, as long as it says, and within the limit.
pub record IsReadable (args : HttpArgs) (response : Response) : Type 0 where
  pub no_failure : NoFailure response.body
  pub honest : IsHonest response.hint (length (data_of response.body))
  pub short : length (data_of response.body) < args.max_body

abbrev pub label_of : {Uri : Type 0} → HttpTarget Uri → Text
label_of (url_target target) = target.label
label_of (unix_socket_target target) = target.label

module _ {Uri : Type 0} (lib : UriLibrary Uri) (webpki : Bool) (user_agent : Bytes) where
  evaluate_response-accepted :
      (response : Response) (target : Text) (args : HttpArgs) (prepared : PreparedHttpArgs)
      (elapsed : ℕ) (options : ProbeOptions)
      → IsHealthyResponse args prepared response
      → (has_body_assertions args ≡ true → IsReadable args response)
      → evaluate_response lib webpki user_agent response target args prepared elapsed options
        ≡ ok (http_report lib webpki user_agent options target response.status elapsed)
  unfolding evaluate_response
  evaluate_response-accepted response target args prepared elapsed options healthy readable =
      let met : assert_response_headers response.headers prepared.header_assertions target ≡ ok tt =
        (assert_response_headers_iff response.headers prepared.header_assertions target).1
          healthy.headers in
      let status = healthy.status in
      elim (Bool-cases (has_body_assertions args)) [
        | inr nothing_asked ↦ rw (status, met, nothing_asked, evaluate_response) refl
        | inl asked ↦
            let body = readable asked in
            let (b, read, accepted) =
              read_body-accepted args response.hint response.body target body.no_failure body.honest
                body.short healthy.body in
            rw (status, met, asked, read, accepted, evaluate_response) refl
      ]

  module _ (options : ProbeOptions) (args : HttpArgs) (network : Network Uri) (elapsed : ℕ)
      (probe : PreparedHttpProbe Uri) (response : Response) where
    run_target-accepted :
        (target : HttpTarget Uri)
        → Answers lib webpki user_agent network args probe.request target response
        → IsHealthyResponse args probe.prepared response
        → (has_body_assertions args ≡ true → IsReadable args response)
        → run_target lib webpki user_agent options args probe target network elapsed true
          ≡ ok (http_report lib webpki user_agent options (label_of target) response.status elapsed)
    unfolding run_target run_url run_unix_socket with_probe_timeout
    run_target-accepted (url_target target) (client, built, answers) healthy readable =
        rw (built, answers)
          (evaluate_response-accepted response target.label args probe.prepared elapsed options
            healthy readable)
    run_target-accepted (unix_socket_target target) (connected, shaken, answers) healthy readable =
        rw (connected, shaken, answers)
          (evaluate_response-accepted response target.label args probe.prepared elapsed options
            healthy readable)

  -- A probe that is prepared without an error, that is ready in time, and whose request has a response
  -- that meets every assertion, succeeds with the status of that response. Where the arguments assert
  -- something of the body, the body has to come to its end without an error, to be as long as it
  -- declares, and to be shorter than the limit.
  pub run-accepted_response :
      (options : ProbeOptions) (args : HttpArgs) (network : Network Uri) (elapsed : ℕ)
      (d : Decided lib webpki user_agent args network)
      → (has_body_assertions args ≡ true → IsReadable args d.response)
      → run lib webpki user_agent options args network elapsed true
        ≡ ok (
            http_report lib webpki user_agent options
              (label_of d.probe.target)
              d.response.status
              elapsed)
  unfolding run
  run-accepted_response options args network elapsed d readable =
      let prepares = d.prepares in
      rw (prepares, run)
        (run_target-accepted options args network elapsed d.probe d.response d.probe.target
          d.answers d.healthy readable)
