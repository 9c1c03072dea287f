-- ===== src/Probes/Http/Body/Reading.antt =====
-- What a read of the body leaves, however early it stops.
use salus_rs.Prelude.{
  ok-injective, >>=-eq-ok, ◌≡◌, refl, ap, ◌∙◌, subst, Bool, true, false, ◌&&◌, ◌||◌, List, [], ◌∷◌,
  ◌++◌, append_assoc, append-nil, arith, ◌==◌, if◌then◌else◌, is_nil, is_some, is_none, any, length,
  ◌⊎◌, Bool-cases, inl, inr, Bytes, Result, ok, ◌>>=◌,
}
use salus_rs.Error.{AppResult}
use salus_rs.Capture.{CaptureBuffer, default, append_limited, mark_incomplete}
use salus_rs.Capture.Limit.{Holds, Holds-whole, Holds-prefix, default-Holds, append_limited-Holds}
use salus_rs.Capture.Watched.{watched-IsTracking}
use salus_rs.TextMatch.{TextMatcher, new, contains_slice, observe_appended, any_matched}
use salus_rs.TextMatch.Tracking.{
  IsTracking, new-IsTracking, any_matched_lem, needles-new, needles-observe_appended,
}
use salus_rs.Probes.Http.Args.{HttpArgs}
use salus_rs.Probes.Http.Body.{
  BodyEvent, frame, trailers, failed, grace_over, SizeHint, BufferedBody, BodyLimitWait, complete,
  still_open, more_body, wait_for_body_eof_after_limit, mismatch, body_assertion_is_decided,
  after_wait, read_frames, read_body, impossible_by_length, upper_exceeds,
}

-- All the data of a body, up to its end or to an error.
abbrev pub data_of : List BodyEvent → Bytes
data_of [] = []
data_of (frame chunk ∷ events) = chunk ++ data_of events
data_of (trailers ∷ events) = data_of events
data_of (failed error ∷ events) = []
data_of (grace_over ∷ events) = data_of events

-- The content rules acceptance out, or nothing behind it matters.
abbrev pub decided : HttpArgs → BufferedBody → Bool
decided args b =
    (is_some args.body_equals && b.exact_match_impossible)
    || any (contains_slice b.content.bytes) args.not_contains
    || (is_none args.body_equals && is_nil args.not_contains)

-- What a read leaves: the first bytes of the data, which are all of it unless the buffer is marked
-- or the verdict is known.
pub record Outcome (args : HttpArgs) (total : Bytes) (b : BufferedBody) : Type 0 where
  pub rest : Bytes
  pub prefix : total ≡ b.content.bytes ++ rest
  pub whole : decided args b ≡ false → b.content.incomplete ≡ false → total ≡ b.content.bytes

after_limit :
    (events : List BodyEvent)
    → wait_for_body_eof_after_limit events ≡ ok complete
    → data_of events ≡ []
unfolding wait_for_body_eof_after_limit
after_limit [] h = refl
after_limit (frame [] ∷ events) h = after_limit events h
after_limit (frame (c ∷ cs) ∷ events) h = ground arith
after_limit (trailers ∷ events) h = after_limit events h
after_limit (failed error ∷ events) h = ground arith
after_limit (grace_over ∷ events) h = ground arith

-- Which of the four ways a round of the loop goes.
first_that_holds :
    {E : Type 0} (known full at_limit : Bool) {x y b : BufferedBody}
    {wait go : Result E BufferedBody}
    → (if known then ok x else if full then ok y else if at_limit then wait else go) ≡ ok b
    → ((known ≡ true) × (x ≡ b)) ⊎ ((y ≡ b) ⊎ ((wait ≡ ok b) ⊎ (go ≡ ok b)))
first_that_holds true full at_limit h = inl (refl, ok-injective h)
first_that_holds false true at_limit h = inr (inl (ok-injective h))
first_that_holds false false true h = inr (inr (inl h))
first_that_holds false false false h = inr (inr (inr h))

module _ (args : HttpArgs) (declared_exceeds may_exceed : Bool) where
  -- A read that stops with the buffer as it is: nothing is left, or the verdict is known.
  stopped :
      (seen more : Bytes) (b : BufferedBody)
      → Holds args.max_body seen b.content
      → decided args b ≡ true ⊎ more ≡ []
      → Outcome args (seen ++ more) b
  stopped seen more b h why =
      let (rest, e) = Holds-prefix args.max_body seen b.content h more in
      record {
        rest = rest;
        prefix = e;
        whole = λ undecided full. elim why [
          | inl known ↦ cc (known, undecided)
          | inr end ↦ rw end (append-nil seen ∙ Holds-whole args.max_body seen b.content h full)
        ];
      }

  -- A read that marks the buffer.
  marked :
      (seen more : Bytes) (b : BufferedBody)
      → Holds args.max_body seen b.content
      → Outcome args (seen ++ more) (record b { content = mark_incomplete b.content })
  marked seen more b h =
      let (rest, e) = Holds-prefix args.max_body seen b.content h more in
      record { rest = rest; prefix = e; whole = λ _ full. ground arith }

  is_decided :
      (b : BufferedBody) (cm nm : TextMatcher)
      → IsTracking b.content.bytes nm
      → nm.needles ≡ args.not_contains
      → body_assertion_is_decided b.exact_match_impossible cm nm args ≡ true
      → decided args b ≡ true
  unfolding body_assertion_is_decided
  is_decided b cm nm t e h =
      let some_found : any_matched nm ≡ any (contains_slice b.content.bytes) args.not_contains =
        any_matched_lem b.content.bytes nm t ∙ ap (any (contains_slice b.content.bytes)) e in
      ground arith

  waited :
      (seen : Bytes) (events : List BodyEvent) (content : CaptureBuffer) (impossible : Bool)
      (wait : BodyLimitWait)
      → Holds args.max_body seen content
      → wait_for_body_eof_after_limit events ≡ ok wait
      → Outcome args (seen ++ data_of events) (after_wait content impossible wait)
  unfolding after_wait
  waited seen events content impossible complete h e =
      stopped seen (data_of events)
        (record { content = content; exact_match_impossible = impossible }) h
        (inr (after_limit events e))
  waited seen events content impossible still_open h e =
      marked seen (data_of events)
        (record { content = content; exact_match_impossible = impossible }) h
  waited seen events content impossible more_body h e =
      marked seen (data_of events)
        (record { content = content; exact_match_impossible = impossible }) h

  read_frames-Outcome :
      (events : List BodyEvent) (seen : Bytes) (content : CaptureBuffer) (cm nm : TextMatcher)
      (impossible : Bool) {b : BufferedBody}
      → Holds args.max_body seen content
      → IsTracking content.bytes nm
      → nm.needles ≡ args.not_contains
      → read_frames args declared_exceeds may_exceed args.max_body content cm nm impossible events
        ≡ ok b
      → Outcome args (seen ++ data_of events) b
  unfolding read_frames
  read_frames-Outcome [] seen content cm nm impossible h t e r =
      subst (Outcome args (seen ++ [])) (ok-injective r) (
        stopped seen [] (record { content = content; exact_match_impossible = impossible }) h
          (inr refl))
  read_frames-Outcome (trailers ∷ events) seen content cm nm impossible h t e r =
      read_frames-Outcome events seen content cm nm impossible h t e r
  read_frames-Outcome (grace_over ∷ events) seen content cm nm impossible h t e r =
      read_frames-Outcome events seen content cm nm impossible h t e r
  read_frames-Outcome (failed error ∷ events) seen content cm nm impossible h t e r = ground arith
  read_frames-Outcome (frame chunk ∷ events) seen content cm nm impossible {b = b} h t e r =
      let content' = (append_limited content chunk args.max_body).0 in
      let previous_len = (append_limited content chunk args.max_body).1 in
      let impossible' = mismatch args.body_equals content' previous_len impossible in
      let cm' = observe_appended cm content'.bytes previous_len in
      let nm' = observe_appended nm content'.bytes previous_len in
      let b' : BufferedBody = record { content = content'; exact_match_impossible = impossible' } in
      let h' = append_limited-Holds args.max_body seen chunk content h in
      let t' = watched-IsTracking content nm chunk args.max_body t in
      let e' : nm'.needles ≡ args.not_contains = needles-observe_appended nm _ _ ∙ e in
      let regroup = append_assoc seen chunk (data_of events) in
      let wait_result : AppResult BufferedBody =
        wait_for_body_eof_after_limit events >>= (λ w. ok (after_wait content' impossible' w)) in
      let total = (seen ++ chunk) ++ data_of events in
      subst (λ s. Outcome args s b) regroup
        (elim (first_that_holds (body_assertion_is_decided impossible' cm' nm' args)
          (content'.incomplete || (declared_exceeds && length content'.bytes == args.max_body))
          (length content'.bytes == args.max_body && may_exceed) {wait = wait_result} r) [
            | inl (known, same) ↦ subst (Outcome args total) same (
                stopped (seen ++ chunk) (data_of events) b' h'
                  (inl (is_decided b' cm' nm' t' e' known)))
            | inr (inl same) ↦
                subst (Outcome args total) same (marked (seen ++ chunk) (data_of events) b' h')
            | inr (inr (inl wait)) ↦
                let (w, waits, same) =
                  >>=-eq-ok (wait_for_body_eof_after_limit events)
                    (λ w. ok (after_wait content' impossible' w)) wait in
                subst (Outcome args total) (ok-injective same)
                  (waited (seen ++ chunk) events content' impossible' w h' waits)
            | inr (inr (inr go)) ↦
                read_frames-Outcome events (seen ++ chunk) content' cm' nm' impossible' h' t' e' go
          ])

no_content :
    (args : HttpArgs) (hint : SizeHint) (total : Bytes)
    → impossible_by_length args.body_equals hint.exact ≡ true
    → Outcome args total (record { content = default; exact_match_impossible = true })
unfolding impossible_by_length
no_content args hint total wrong = record {
  rest = total;
  prefix = refl;
  whole = λ undecided full. ground arith;
}

pub read_body-Outcome :
    (args : HttpArgs) (hint : SizeHint) (events : List BodyEvent) (b : BufferedBody)
    → read_body args hint events ≡ ok b
    → Outcome args (data_of events) b
unfolding read_body impossible_by_length
read_body-Outcome args hint events b h =
    elim (Bool-cases (impossible_by_length args.body_equals hint.exact)) [
      | inl wrong ↦
          subst (Outcome args (data_of events))
            (ok-injective (
              let same : Path (AppResult BufferedBody)
                  (ok (record { content = default; exact_match_impossible = true })) (ok b) =
                ground arith in
              same))
            (no_content args hint (data_of events) wrong)
      | inr fits ↦
          read_frames-Outcome args (upper_exceeds hint.upper args.max_body)
            (is_none hint.upper || upper_exceeds hint.upper args.max_body) events [] default
            (new args.contains) (new args.not_contains) false (default-Holds args.max_body)
            (new-IsTracking args.not_contains) (needles-new args.not_contains) (ground arith)
    ]
