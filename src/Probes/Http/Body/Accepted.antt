-- ===== src/Probes/Http/Body/Accepted.antt =====
-- Which bodies are accepted.
use salus_rs.Prelude.{
  ℕ, ◌<◌, ◌≡◌, refl, ap, ◌∙◌, true, false, ◌||◌, Option, none, some, List, [], ◌∷◌, arith, is_none,
  any, all, length, Bytes, Text, equal, equal_iff, ok,
}
use salus_rs.Capture.{CaptureBuffer, default}
use salus_rs.Capture.Limit.{default-Holds}
use salus_rs.TextMatch.{new, contains_slice}
use salus_rs.TextMatch.Tracking.{new-IsTracking, needles-new}
use salus_rs.Probes.Http.Args.{HttpArgs}
use salus_rs.Probes.Http.Body.{
  BodyEvent, SizeHint, BufferedBody, read_body, impossible_by_length, upper_exceeds, assert_equals,
  assert_contains, assert_not_contains, assert_response_body,
}
use salus_rs.Probes.Http.Body.Reading.{data_of}
use salus_rs.Probes.Http.Body.Sound.{Meets}
use salus_rs.Probes.Http.Body.Complete.{NoFailure, IsEnough, frames-IsEnough}

-- The declared length, if there is one, is that of the data.
abbrev pub IsHonest : SizeHint → ℕ → Type 0
IsHonest hint len = (n : ℕ) → hint.exact ≡ some n → n ≡ len

equals_passes :
    (b : BufferedBody) (o : Option Bytes) (max_body : ℕ) (target : Text)
    → b.exact_match_impossible ≡ false
    → b.content.incomplete ≡ false
    → ((expected : Bytes) → o ≡ some expected → b.content.bytes ≡ expected)
    → assert_equals b o max_body target ≡ ok tt
unfolding assert_equals
equals_passes b none max_body target possible uncut h = refl
equals_passes b (some expected) max_body target possible uncut h =
    let same : equal b.content.bytes expected ≡ true = (equal_iff _ _).1 (h expected refl) in
    ground (arith, same, possible, uncut)

contains_passes :
    (c : CaptureBuffer) (needles : List Bytes) (max_body : ℕ) (target : Text)
    → all (contains_slice c.bytes) needles ≡ true
    → assert_contains c needles max_body target ≡ ok tt
unfolding assert_contains
contains_passes c [] max_body target h = refl
contains_passes c (n ∷ ns) max_body target h = ground (arith, contains_passes c ns max_body target)

not_contains_passes :
    (c : CaptureBuffer) (needles : List Bytes) (target : Text)
    → any (contains_slice c.bytes) needles ≡ false
    → assert_not_contains c needles target ≡ ok tt
unfolding assert_not_contains
not_contains_passes c [] target h = refl
not_contains_passes c (n ∷ ns) target h = ground (arith, not_contains_passes c ns target)

IsEnough-accepted :
    (args : HttpArgs) (total : Bytes) (b : BufferedBody) (target : Text)
    → IsEnough args total b
    → assert_response_body b args target ≡ ok tt
unfolding assert_response_body
IsEnough-accepted args total b target e = ground (
  arith,
  equals_passes b args.body_equals args.max_body target e.possible e.uncut e.equals,
  contains_passes b.content args.contains args.max_body target e.required,
  not_contains_passes b.content args.not_contains target e.forbidden,
  e.uncut,
)

possible_by_length :
    (o : Option Bytes) (exact : Option ℕ) (total : Bytes)
    → ((expected : Bytes) → o ≡ some expected → total ≡ expected)
    → ((n : ℕ) → exact ≡ some n → n ≡ length total)
    → impossible_by_length o exact ≡ false
unfolding impossible_by_length
possible_by_length none exact total h honest = refl
possible_by_length (some expected) none total h honest = refl
possible_by_length (some expected) (some n) total h honest =
    let same : n ≡ length expected = honest n refl ∙ ap length (h expected refl) in
    ground (arith, same)

-- A body that meets the assertions is read without an error and accepted, if no frame of it fails, the
-- length that it declares is its own, and it is shorter than the limit.
pub read_body-accepted :
    (args : HttpArgs) (hint : SizeHint) (events : List BodyEvent) (target : Text)
    → NoFailure events
    → IsHonest hint (length (data_of events))
    → length (data_of events) < args.max_body
    → Meets args (data_of events)
    → (b : BufferedBody) × (read_body args hint events ≡ ok b)
      × (assert_response_body b args target ≡ ok tt)
unfolding read_body
read_body-accepted args hint events target no_failure honest short m =
    let total = data_of events in
    let (b, run, enough) =
      frames-IsEnough args total m (upper_exceeds hint.upper args.max_body)
        (is_none hint.upper || upper_exceeds hint.upper args.max_body) short events [] default
        (new args.contains) (new args.not_contains) no_failure refl refl refl
        (default-Holds args.max_body) (new-IsTracking args.contains) (needles-new args.contains)
        (new-IsTracking args.not_contains) (needles-new args.not_contains) in
    let possible = possible_by_length args.body_equals hint.exact total m.equals honest in
    (b, rw (possible, read_body) run, IsEnough-accepted args total b target enough)
