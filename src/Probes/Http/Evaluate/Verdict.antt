-- ===== src/Probes/Http/Evaluate/Verdict.antt =====
-- What a successful probe has seen.
use salus_rs.Prelude.{
  ℕ, ◌≡◌, refl, ap, Bool, true, false, not, arith, if◌then◌else◌, is_nil, is_nil-eq, is_some, Text,
  Bytes, Result, ok, err, ◌>>=◌, ◌>>◌, >>=-eq-ok, refuse_if, Bool-cases, inl, inr,
}
use salus_rs.Probe.{ProbeOptions, ProbeReport}
use salus_rs.Probes.Http.Args.{HttpArgs, has_body_assertions}
use salus_rs.Probes.Http.Body.{read_body, assert_response_body}
use salus_rs.Probes.Http.Body.Reading.{data_of}
use salus_rs.Probes.Http.Body.Sound.{Meets, assert_response_body-Meets}
use salus_rs.Probes.Http.Headers.{assert_response_headers}
use salus_rs.Probes.Http.Headers.Asserted.{MeetsHeaders, assert_response_headers_iff}
use salus_rs.Probes.Http.Status.{matches}
use salus_rs.Probes.Http.Target.{UriLibrary, PreparedHttpArgs}
use salus_rs.Probes.Http.Evaluate.{Response, evaluate_response}

-- What the arguments ask of a response.
pub record IsHealthyResponse (args : HttpArgs) (prepared : PreparedHttpArgs) (response : Response)
    : Type 0 where
  pub status : matches prepared.status_ranges response.status ≡ true
  pub headers : MeetsHeaders response.headers prepared.header_assertions
  pub body : Meets args (data_of response.body)

-- Nothing is asked of the body.
no_assertions-Meets :
    (args : HttpArgs) (total : Bytes) → has_body_assertions args ≡ false → Meets args total
unfolding has_body_assertions
no_assertions-Meets args total h =
    let no_equals : is_some args.body_equals ≡ false = ground arith in
    let no_contains : is_nil args.contains ≡ true = ground arith in
    let no_forbidden : is_nil args.not_contains ≡ true = ground arith in
    record {
      equals = λ expected e. absurd (cc (ap is_some e, no_equals));
      required = rw (is_nil-eq args.contains no_contains) tt;
      forbidden = rw (is_nil-eq args.not_contains no_forbidden) tt;
    }

two_stages :
    {E A : Type 0} (refused : Bool) (e : E) (m : Result E Unit) (k : Result E A) {r : A}
    → (refuse_if refused e >> (m >> k)) ≡ ok r
    → (refused ≡ false) × (m ≡ ok tt) × (k ≡ ok r)
two_stages true e m k h = ground arith
two_stages false e (ok tt) k h = (refl, refl, h)
two_stages false e (err x) k h = ground arith

second_way :
    {E A : Type 0} (b : Bool) (x y : Result E A) {r : A}
    → (if not b then x else y) ≡ ok r
    → b ≡ true
    → y ≡ ok r
second_way true x y h e = h
second_way false x y h e = ground arith

module _ {Uri : Type 0} (lib : UriLibrary Uri) (webpki : Bool) (user_agent : Bytes) where
  checked_body :
      (response : Response) (target : Text) (args : HttpArgs) (report : ProbeReport)
      {r : ProbeReport}
      → (read_body args response.hint response.body >>= λ body.
          (assert_response_body body args target >> ok report))
        ≡ ok r
      → Meets args (data_of response.body)
  checked_body response target args report h =
      let (body, read, more) =
        >>=-eq-ok (read_body args response.hint response.body)
          (λ body. assert_response_body body args target >> ok report) h in
      let (_, accepted, _) =
        >>=-eq-ok (assert_response_body body args target) (λ _. ok report) more in
      assert_response_body-Meets args response.hint response.body target body read accepted

  -- A response that is accepted has a status in the ranges, and its header fields and the whole of its
  -- body meet every assertion.
  pub evaluate_response-IsHealthyResponse :
      (response : Response) (target : Text) (args : HttpArgs) (prepared : PreparedHttpArgs)
      (elapsed : ℕ) (options : ProbeOptions) {r : ProbeReport}
      → evaluate_response lib webpki user_agent response target args prepared elapsed options ≡ ok r
      → IsHealthyResponse args prepared response
  unfolding evaluate_response
  evaluate_response-IsHealthyResponse response target args prepared elapsed options {r} h =
      let (status, headers, rest) =
        two_stages (not (matches prepared.status_ranges response.status)) _
          (assert_response_headers response.headers prepared.header_assertions target) _ h in
      record {
        status = ground (arith, status);
        headers =
            (assert_response_headers_iff response.headers prepared.header_assertions target).0
              headers;
        body = elim (Bool-cases (has_body_assertions args)) [
          | inl asserted ↦
              checked_body response target args _
                (second_way (has_body_assertions args) _ _ rest asserted)
          | inr free ↦ no_assertions-Meets args (data_of response.body) free
        ];
      }
