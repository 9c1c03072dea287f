-- ===== src/Tests/Verdicts.antt =====
-- Tests of the verdict of probes/http.rs on a response.
use salus_rs.Prelude.{◌≡◌, subst, arith, true, codes, ok, ok-injective, Text}
use salus_rs.Probes.Http.Target.{HttpTarget, url_target, unix_socket_target}
use salus_rs.Probes.Http.Evaluate.{Response, Request, http_report, run}
use salus_rs.Probes.Http.Evaluate.Decided.{Answers, Decided, run-Decided}
use salus_rs.Probes.Http.Evaluate.Accepted.{IsReadable, label_of, run-accepted_response}
use salus_rs.Tests.Https.{library, http_args, network, response, options, runs}

-- Every request over this network has the same response.
same_response :
    (request : Request Text) (target : HttpTarget Text) (r : Response)
    → Answers library true (codes "salus") network http_args request target r
    → response ≡ r
same_response request (url_target target) r (client, built, answers) = ok-injective answers
same_response request (unix_socket_target target) r (connected, shaken, answers) =
    ok-injective answers

abbrev decided : Decided library true (codes "salus") http_args network
decided = run-Decided library true (codes "salus") options http_args network 7 true runs

readable : IsReadable http_args response
readable = record { no_failure = tt; honest = λ n e. cc e; short = omega arith }

run-accepted_response_example :
    run library true (codes "salus") options http_args network 7 true
    ≡ ok (
        http_report library true
          (codes "salus")
          options
          (label_of decided.probe.target)
          decided.response.status
          7)
run-accepted_response_example =
    run-accepted_response library true (codes "salus") options http_args network 7 decided (λ _.
      subst (IsReadable http_args)
        (same_response decided.probe.request decided.probe.target decided.response decided.answers)
        readable)
