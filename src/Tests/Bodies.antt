-- ===== src/Tests/Bodies.antt =====
-- Tests of the parts of probes/http.rs, and of output.rs.
use salus_rs.Prelude.{
  ◌≡◌, ◌≢◌, ◌↔◌, refl, arith, true, false, none, some, List, [], ◌∷◌, ◌++◌, any, is_control, map,
  All, codes, equal, ok,
}
use salus_rs.Tls.{default_tls}
use salus_rs.Capture.{append_limited}
use salus_rs.TextMatch.{
  new, count_true, contains_slice, observe_appended, observe_needles, found, all_matched,
  any_matched,
}
use salus_rs.Probes.Http.Args.{HttpArgs}
use salus_rs.Probes.Http.Body.{
  BodyEvent, frame, trailers, SizeHint, BufferedBody, read_body, read_frames,
  body_assertion_is_decided, mismatch, assert_response_body,
}
use salus_rs.Probes.Http.Body.Reading.{data_of}
use salus_rs.Probes.Http.Body.Accepted.{IsHonest, read_body-accepted}
use salus_rs.Probes.Http.Body.Sound.{Meets, assert_response_body-Meets}
use salus_rs.Probes.Http.Headers.{HeaderMap, HeaderAssertions, assert_response_headers}
use salus_rs.Probes.Http.Headers.Asserted.{MeetsHeaders, assert_response_headers_iff}
use salus_rs.Probes.Http.Status.{StatusRanges, matches, range_contains, parse_status_ranges}
use salus_rs.Probes.Http.Status.Bounds.{IsStatusRange, parse_status_ranges-IsStatusRange}
use salus_rs.Probes.Http.Status.Shown.{show_range, parse_status_ranges-show_range}
use salus_rs.Probes.Http.Url.{percents_are_valid}
use salus_rs.Probes.Http.Url.Percent.{IsPercentEncoded, percents_are_valid_iff}
use salus_rs.Output.{escape, escape_all, quote_field_value}
use salus_rs.Output.Quoted.{read_quoted, read_value, quote_field_value-read_quoted}

abbrev body_args : HttpArgs
body_args = record {
  url = some (codes "http://localhost/health");
  sock = none;
  path = none;
  method = codes "GET";
  header = [];
  host = none;
  status = [];
  header_present = [];
  header_equals = [];
  header_contains = [];
  header_not_contains = [];
  body_equals = none;
  contains = codes "ready" ∷ [];
  not_contains = codes "error" ∷ [];
  tls = default_tls;
  max_body = 100;
}

abbrev unknown_length : SizeHint
unknown_length = record { exact = none; upper = none }

abbrev events : List BodyEvent
events = frame (codes "all rea") ∷ trailers ∷ frame (codes "dy") ∷ []

abbrev read_whole : BufferedBody
read_whole = record {
  content = record { bytes = codes "all ready"; incomplete = false };
  exact_match_impossible = false;
}

reads_both_frames : read_body body_args unknown_length events ≡ ok read_whole
unfolding read_body read_frames body_assertion_is_decided mismatch append_limited new count_true
    contains_slice observe_appended observe_needles found all_matched any_matched equal
reads_both_frames = refl

accepts_the_body : assert_response_body read_whole body_args (codes "target") ≡ ok tt
unfolding assert_response_body contains_slice equal
accepts_the_body = refl

assert_response_body-Meets_example : Meets body_args (data_of events)
assert_response_body-Meets_example =
    assert_response_body-Meets body_args unknown_length events (codes "target") read_whole
      reads_both_frames accepts_the_body

-- A body with the forbidden text is left unread from there on.
stops_at_forbidden_text :
    read_body body_args unknown_length (frame (codes "error") ∷ events)
    ≡ ok (record {
      content = record { bytes = codes "error"; incomplete = false };
      exact_match_impossible = false;
    })
unfolding read_body read_frames body_assertion_is_decided mismatch append_limited new count_true
    contains_slice observe_appended observe_needles found all_matched any_matched equal
stops_at_forbidden_text = refl

abbrev response_headers : HeaderMap
response_headers = (codes "server", codes "nginx/1") ∷ (codes "x-ready", codes "yes") ∷ []

abbrev some_assertions : HeaderAssertions
some_assertions = record {
  present = codes "server" ∷ [];
  equals = record { name = codes "x-ready"; value = codes "yes" } ∷ [];
  contains = record { name = codes "server"; value = codes "nginx" } ∷ [];
  not_contains = record { name = codes "server"; value = codes "apache" } ∷ [];
}

assert_response_headers_iff_example :
    (assert_response_headers response_headers some_assertions (codes "target") ≡ ok tt)
    ↔ MeetsHeaders response_headers some_assertions
assert_response_headers_iff_example =
    assert_response_headers_iff response_headers some_assertions (codes "target")

abbrev two_ranges : StatusRanges
two_ranges = record { start = 200; last = 204 } ∷ record { start = 301; last = 301 } ∷ []

two_ranges-IsStatusRange : All IsStatusRange two_ranges
two_ranges-IsStatusRange = (
  record { low = omega arith; ordered = omega arith; high = omega arith },
  (record { low = omega arith; ordered = omega arith; high = omega arith }, tt),
)

some_ranges : two_ranges ≢ []
some_ranges = cc

parse_status_ranges-show_range_example :
    parse_status_ranges (map show_range two_ranges) ≡ ok two_ranges
parse_status_ranges-show_range_example =
    parse_status_ranges-show_range two_ranges some_ranges two_ranges-IsStatusRange

default_range : parse_status_ranges [] ≡ ok (record { start = 200; last = 299 } ∷ [])
unfolding parse_status_ranges
default_range = refl

parse_status_ranges-IsStatusRange_example :
    All IsStatusRange (record { start = 200; last = 299 } ∷ [])
parse_status_ranges-IsStatusRange_example = parse_status_ranges-IsStatusRange [] default_range

accepts_no_content : (matches two_ranges 204 ≡ true) × (matches two_ranges 300 ≡ false)
unfolding matches range_contains
accepts_no_content = (refl, refl)

percents_are_valid_iff_example :
    (percents_are_valid (codes "/a%20b") ≡ true) ↔ IsPercentEncoded (codes "/a%20b")
percents_are_valid_iff_example = percents_are_valid_iff (codes "/a%20b")

escapes_the_escape : quote_field_value (27 ∷ []) ≡ codes "\"\\u{001B}\""
unfolding quote_field_value escape escape_all
escapes_the_escape = refl

reads_a_field : read_quoted (codes "\"a\\\"\\u{001B}\" b") ≡ some (97 ∷ 34 ∷ 27 ∷ [], codes " b")
unfolding read_quoted read_value
reads_a_field = refl

quote_field_value-read_quoted_example :
    (read_quoted (quote_field_value (codes "a\"b") ++ codes " c") ≡ some (codes "a\"b", codes " c"))
    × (any is_control (quote_field_value (codes "a\"b")) ≡ false)
quote_field_value-read_quoted_example = quote_field_value-read_quoted (codes "a\"b") (codes " c")

Meets-in_full : Meets body_args (data_of events)
Meets-in_full =
    assert_response_body-Meets body_args unknown_length events (codes "target") read_whole
      reads_both_frames accepts_the_body

honest : IsHonest unknown_length 9
honest n e = cc e

accepts_both_frames :
    (b : BufferedBody) × (read_body body_args unknown_length events ≡ ok b)
    × (assert_response_body b body_args (codes "target") ≡ ok tt)
accepts_both_frames =
    read_body-accepted body_args unknown_length events (codes "target") tt honest (omega arith)
      Meets-in_full
