-- ===== src/Probes/Http/Body/Sound.antt =====
-- An accepted body meets the assertions in full, however much of it was read.
use salus_rs.Prelude.{
  equal_iff, ℕ, ◌≡◌, refl, sym, ◌∙◌, subst, true, false, not, ◌&&◌, Option, none, some, List, [],
  ◌∷◌, arith, is_nil, is_nil-eq, is_some, any, all, All, Bool-cases, inl, inr, Bytes, Text, equal,
  ok,
}
use salus_rs.Capture.{CaptureBuffer}
use salus_rs.TextMatch.{contains_slice}
use salus_rs.TextMatch.Occurs.{Occurs, contains_slice_iff, all_contains-append, all_contains-Occurs}
use salus_rs.Probes.Http.Args.{HttpArgs}
use salus_rs.Probes.Http.Body.{
  BodyEvent, SizeHint, BufferedBody, read_body, assert_equals, assert_contains, assert_not_contains,
  assert_response_body,
}
use salus_rs.Probes.Http.Body.Reading.{data_of, decided, read_body-Outcome}

any_contains-none :
    (bytes : Bytes) (needles : List Bytes)
    → any (contains_slice bytes) needles ≡ false
    → All (λ needle. ¬ (Occurs needle bytes)) needles
any_contains-none bytes [] h = tt
any_contains-none bytes (n ∷ ns) h = (
  λ o. ground (arith, (contains_slice_iff bytes n).1 o),
  any_contains-none bytes ns (ground arith),
)

-- What the arguments ask of the body.
pub record Meets (args : HttpArgs) (total : Bytes) : Type 0 where
  pub equals : (expected : Bytes) → args.body_equals ≡ some expected → total ≡ expected
  pub required : All (λ needle. Occurs needle total) args.contains
  pub forbidden : All (λ needle. ¬ (Occurs needle total)) args.not_contains

assert_equals-ok :
    (b : BufferedBody) (o : Option Bytes) (max_body : ℕ) (target : Text) (expected : Bytes)
    → assert_equals b o max_body target ≡ ok tt
    → o ≡ some expected
    → (b.content.bytes ≡ expected)
      × (b.exact_match_impossible ≡ false)
      × (b.content.incomplete ≡ false)
unfolding assert_equals
assert_equals-ok b none max_body target expected h e = ground arith
assert_equals-ok b (some found) max_body target expected h e =
    let same : equal b.content.bytes found ≡ true = ground arith in
    (
      let same_text : found ≡ expected = cc e in
          (equal_iff b.content.bytes found).0 same ∙ same_text,
      ground arith,
      ground arith,
    )

not_impossible :
    (b : BufferedBody) (o : Option Bytes) (max_body : ℕ) (target : Text)
    → assert_equals b o max_body target ≡ ok tt
    → (is_some o && b.exact_match_impossible) ≡ false
unfolding assert_equals
not_impossible b none max_body target h = refl
not_impossible b (some found) max_body target h = ground arith

assert_contains-ok :
    (c : CaptureBuffer) (needles : List Bytes) (max_body : ℕ) (target : Text)
    → assert_contains c needles max_body target ≡ ok tt
    → all (contains_slice c.bytes) needles ≡ true
unfolding assert_contains
assert_contains-ok c [] max_body target h = refl
assert_contains-ok c (n ∷ ns) max_body target h =
    ground (arith, assert_contains-ok c ns max_body target)

assert_not_contains-ok :
    (c : CaptureBuffer) (needles : List Bytes) (target : Text)
    → assert_not_contains c needles target ≡ ok tt
    → any (contains_slice c.bytes) needles ≡ false
unfolding assert_not_contains
assert_not_contains-ok c [] target h = refl
assert_not_contains-ok c (n ∷ ns) target h = ground (arith, assert_not_contains-ok c ns target)

-- The four stages of the check.
record Accepts (b : BufferedBody) (args : HttpArgs) (target : Text) : Type 0 where
  equals : assert_equals b args.body_equals args.max_body target ≡ ok tt
  required : all (contains_slice b.content.bytes) args.contains ≡ true
  forbidden : any (contains_slice b.content.bytes) args.not_contains ≡ false
  complete_if_forbidden : (b.content.incomplete && not (is_nil args.not_contains)) ≡ false

assert_response_body-Accepts :
    (b : BufferedBody) (args : HttpArgs) (target : Text)
    → assert_response_body b args target ≡ ok tt
    → Accepts b args target
unfolding assert_response_body
assert_response_body-Accepts b args target h = record {
  equals = ground arith;
  required = assert_contains-ok b.content args.contains args.max_body target (ground arith);
  forbidden = assert_not_contains-ok b.content args.not_contains target (ground arith);
  complete_if_forbidden = ground arith;
}

-- Whatever the body's size hint says and wherever the read stops: a body that the check accepts meets
-- the assertions with all of its data.
pub assert_response_body-Meets :
    (args : HttpArgs) (hint : SizeHint) (events : List BodyEvent) (target : Text) (b : BufferedBody)
    → read_body args hint events ≡ ok b
    → assert_response_body b args target ≡ ok tt
    → Meets args (data_of events)
assert_response_body-Meets args hint events target b read accepted =
    let o = read_body-Outcome args hint events b read in
    let a = assert_response_body-Accepts b args target accepted in
    let matching = not_impossible b args.body_equals args.max_body target a.equals in
    record {
      equals = λ expected e.
          let (same, possible, full) =
            assert_equals-ok b args.body_equals args.max_body target expected a.equals e in
          let undecided : decided args b ≡ false = ground (arith, a.forbidden, possible, e) in
          o.whole undecided full ∙ same;
      required =
          subst (λ t. All (λ needle. Occurs needle t) args.contains) (sym o.prefix)
            (all_contains-Occurs _ args.contains
              (all_contains-append b.content.bytes o.rest args.contains a.required));
      forbidden = elim (Bool-cases (is_nil args.not_contains)) [
        | inl empty ↦ rw (is_nil-eq args.not_contains empty) tt
        | inr some_text ↦
            let full : b.content.incomplete ≡ false = ground (arith, a.complete_if_forbidden) in
            let undecided : decided args b ≡ false = ground (arith, a.forbidden) in
            rw (o.whole undecided full)
              (any_contains-none b.content.bytes args.not_contains a.forbidden)
      ];
    }
