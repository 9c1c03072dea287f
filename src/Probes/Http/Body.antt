-- ===== src/Probes/Http/Body.antt =====
-- The response body: how far it is read, and what is asserted of it.
pub mod Reading
pub mod Sound
pub mod Expected
pub mod Round
pub mod Complete
pub mod Accepted
use salus_rs.Prelude.{
  ℕ, ◌-◌, Bool, true, false, not, ◌&&◌, ◌||◌, Option, none, some, List, [], ◌∷◌, ltb, leb, ◌==◌,
  if◌then◌else◌, length, take, drop, is_nil, is_some, is_none, Text, Bytes, equal, Result, ok, err,
  ◌>>=◌, ◌>>◌, refuse_if, starts_with_bytes,
}
use salus_rs.Error.{AppError, AppResult, failure, Message, lit, display, debug, number}
use salus_rs.Capture.{CaptureBuffer, default, append_limited, mark_incomplete}
use salus_rs.TextMatch.{
  TextMatcher, new, observe_appended, all_matched, any_matched, contains_bytes,
}
use salus_rs.Probes.Http.Args.{HttpArgs}

-- What comes of the body, in its order: a frame with data, a frame without, an error, or the end of the
-- grace period, which only a wait for it notices. Behind the last event the body has ended.
pub data BodyEvent : Type 0 where
  frame : Bytes → BodyEvent
  trailers : BodyEvent
  failed : Text → BodyEvent
  grace_over : BodyEvent

-- `size_hint()` of the body.
pub record SizeHint : Type 0 where
  pub exact : Option ℕ
  pub upper : Option ℕ

pub record BufferedBody : Type 0 where
  pub content : CaptureBuffer
  pub exact_match_impossible : Bool

pub data BodyLimitWait : Type 0 where
  complete : BodyLimitWait
  still_open : BodyLimitWait
  more_body : BodyLimitWait

body_error : Text → AppError
body_error error = failure (lit "failed reading HTTP body: " ∷ display error ∷ [])

unfoldable pub wait_for_body_eof_after_limit : List BodyEvent → AppResult BodyLimitWait
unfolding body_error
wait_for_body_eof_after_limit [] = ok complete
wait_for_body_eof_after_limit (frame [] ∷ events) = wait_for_body_eof_after_limit events
wait_for_body_eof_after_limit (frame (c ∷ cs) ∷ events) = ok more_body
wait_for_body_eof_after_limit (trailers ∷ events) = wait_for_body_eof_after_limit events
wait_for_body_eof_after_limit (failed error ∷ events) = err (body_error error)
wait_for_body_eof_after_limit (grace_over ∷ events) = ok still_open

unfoldable pub body_assertion_is_decided : Bool → TextMatcher → TextMatcher → HttpArgs → Bool
body_assertion_is_decided exact_match_impossible contains_matcher not_contains_matcher args =
    if is_some args.body_equals && exact_match_impossible
    then true
    else if not (is_nil args.not_contains) && any_matched not_contains_matcher
    then true
    else is_none args.body_equals
      && is_nil args.not_contains
      && not (is_nil args.contains)
      && all_matched contains_matcher

-- `expected.get(from..to)` differs from what was appended.
unfoldable pub differs : Bytes → ℕ → ℕ → Bytes → Bool
differs expected from to appended =
    if leb to (length expected)
    then not (equal (take (to - from) (drop from expected)) appended)
    else true

unfoldable pub mismatch : Option Bytes → CaptureBuffer → ℕ → Bool → Bool
unfolding differs
mismatch none content previous_len impossible = impossible
mismatch (some expected) content previous_len impossible =
    if differs expected previous_len (length content.bytes) (drop previous_len content.bytes)
    then true
    else impossible

after_wait : CaptureBuffer → Bool → BodyLimitWait → BufferedBody
after_wait content impossible complete = record {
  content = content;
  exact_match_impossible = impossible;
}
after_wait content impossible _ = record {
  content = mark_incomplete content;
  exact_match_impossible = impossible;
}

module _ (args : HttpArgs) (declared_exceeds may_exceed : Bool) (limit : ℕ) where
  -- The `while` loop of `read_body`.
  unfoldable pub read_frames :
      CaptureBuffer → TextMatcher → TextMatcher → Bool → List BodyEvent → AppResult BufferedBody
  unfolding after_wait body_error
  read_frames content cm nm impossible [] =
      ok (record { content = content; exact_match_impossible = impossible })
  read_frames content cm nm impossible (trailers ∷ events) =
      read_frames content cm nm impossible events
  read_frames content cm nm impossible (grace_over ∷ events) =
      read_frames content cm nm impossible events
  read_frames content cm nm impossible (failed error ∷ events) = err (body_error error)
  read_frames content cm nm impossible (frame chunk ∷ events) =
      let (content', previous_len) = append_limited content chunk limit in
      let impossible' = mismatch args.body_equals content' previous_len impossible in
      let cm' = observe_appended cm content'.bytes previous_len in
      let nm' = observe_appended nm content'.bytes previous_len in
      let go_on = read_frames content' cm' nm' impossible' events in
      if body_assertion_is_decided impossible' cm' nm' args
      then ok (record { content = content'; exact_match_impossible = impossible' })
      else if content'.incomplete || (declared_exceeds && length content'.bytes == limit)
      then ok (record { content = mark_incomplete content'; exact_match_impossible = impossible' })
      else if length content'.bytes == limit && may_exceed
      then (do
        wait ← wait_for_body_eof_after_limit events
        ok (after_wait content' impossible' wait))
      else go_on

-- The declared length rules an exact match out.
unfoldable pub impossible_by_length : Option Bytes → Option ℕ → Bool
impossible_by_length (some expected) (some body_len) = not (body_len == length expected)
impossible_by_length _ _ = false

unfoldable pub upper_exceeds : Option ℕ → ℕ → Bool
upper_exceeds none limit = false
upper_exceeds (some upper) limit = ltb limit upper

-- `usize` has at most 64 bits, so the conversions to `u64` change nothing.
unfoldable pub read_body : HttpArgs → SizeHint → List BodyEvent → AppResult BufferedBody
unfolding impossible_by_length upper_exceeds
read_body args hint events =
    if impossible_by_length args.body_equals hint.exact
    then ok (record { content = default; exact_match_impossible = true })
    else read_frames args (upper_exceeds hint.upper args.max_body)
        (is_none hint.upper || upper_exceeds hint.upper args.max_body) args.max_body default
        (new args.contains) (new args.not_contains) false events

truncated_body : Text → ℕ → Message → AppError
truncated_body target max_body rest =
    failure (
      lit "response body from "
      ∷ display target
      ∷ lit " was truncated at "
      ∷ number max_body
      ∷ rest)

unfoldable pub assert_equals : BufferedBody → Option Bytes → ℕ → Text → AppResult Unit
unfolding truncated_body
assert_equals body none max_body target = ok tt
assert_equals body (some expected) max_body target =
    if body.exact_match_impossible || not (equal body.content.bytes expected)
    then (if body.content.incomplete && starts_with_bytes body.content.bytes expected
        then err (truncated_body target max_body (lit " bytes, cannot prove exact body match" ∷ []))
        else err (
            failure (
              lit "response body from "
              ∷ display target
              ∷ lit " does not equal required text "
              ∷ debug expected
              ∷ [])))
    else refuse_if body.content.incomplete
        (truncated_body target max_body (lit " bytes, cannot prove exact body match" ∷ []))

unfoldable pub assert_contains : CaptureBuffer → List Bytes → ℕ → Text → AppResult Unit
unfolding truncated_body
assert_contains content [] max_body target = ok tt
assert_contains content (needle ∷ needles) max_body target =
    if not (contains_bytes content.bytes needle)
    then (if content.incomplete
        then err (
            truncated_body target max_body
              (lit " bytes, cannot prove required text " ∷ debug needle ∷ []))
        else err (
            failure (
              lit "response body from "
              ∷ display target
              ∷ lit " does not contain required text "
              ∷ debug needle
              ∷ [])))
    else assert_contains content needles max_body target

unfoldable pub assert_not_contains : CaptureBuffer → List Bytes → Text → AppResult Unit
assert_not_contains content [] target = ok tt
assert_not_contains content (needle ∷ needles) target =
    if contains_bytes content.bytes needle
    then err (
        failure (
          lit "response body from "
          ∷ display target
          ∷ lit " contains forbidden text "
          ∷ debug needle
          ∷ []))
    else assert_not_contains content needles target

unfoldable pub assert_response_body : BufferedBody → HttpArgs → Text → AppResult Unit
unfolding assert_equals assert_contains assert_not_contains truncated_body
assert_response_body body args target = do
  assert_equals body args.body_equals args.max_body target
  assert_contains body.content args.contains args.max_body target
  assert_not_contains body.content args.not_contains target
  refuse_if (body.content.incomplete && not (is_nil args.not_contains)) (
      truncated_body target args.max_body
        (lit " bytes, cannot prove negative body assertions" ∷ []))
