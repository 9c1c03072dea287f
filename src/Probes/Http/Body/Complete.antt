-- ===== src/Probes/Http/Body/Complete.antt =====
-- A body that meets the assertions is accepted, if it is short enough to be read whole.
use salus_rs.Prelude.{
  ℕ, ◌<◌, ◌≡◌, refl, sym, ap, ◌∙◌, subst, Bool, true, false, some, List, [], ◌∷◌, ◌++◌,
  append_assoc, append-nil, arith, ◌==◌, is_none, any, all, All, length, length-append, Bool-cases,
  inl, inr, Bytes, ok,
}
use salus_rs.Capture.{CaptureBuffer, append_limited}
use salus_rs.Capture.Limit.{Holds, Holds-whole, append_limited-Holds, append_limited_len}
use salus_rs.Capture.Watched.{watched-IsTracking}
use salus_rs.TextMatch.{TextMatcher, contains_slice, observe_appended, all_matched, any_matched}
use salus_rs.TextMatch.Occurs.{Occurs, contains_slice_iff, any_contains-append, Occurs-all_contains}
use salus_rs.TextMatch.Tracking.{
  IsTracking, any_matched_lem, all_matched_lem, needles-observe_appended,
}
use salus_rs.Probes.Http.Args.{HttpArgs}
use salus_rs.Probes.Http.Body.{
  BodyEvent, frame, trailers, failed, grace_over, BufferedBody, body_assertion_is_decided,
  read_frames, mismatch,
}
use salus_rs.Probes.Http.Body.Reading.{data_of}
use salus_rs.Probes.Http.Body.Expected.{mismatch_lem}
use salus_rs.Probes.Http.Body.Round.{round_known, round_unknown}
use salus_rs.Probes.Http.Body.Sound.{Meets}

-- No frame fails.
abbrev pub NoFailure : List BodyEvent → Type 0
NoFailure [] = Unit
NoFailure (frame chunk ∷ events) = NoFailure events
NoFailure (trailers ∷ events) = NoFailure events
NoFailure (failed error ∷ events) = ⊥
NoFailure (grace_over ∷ events) = NoFailure events

-- A buffer that is enough for the verdict.
pub record IsEnough (args : HttpArgs) (total : Bytes) (b : BufferedBody) : Type 0 where
  pub possible : b.exact_match_impossible ≡ false
  pub uncut : b.content.incomplete ≡ false
  pub equals : (expected : Bytes) → args.body_equals ≡ some expected → b.content.bytes ≡ expected
  pub required : all (contains_slice b.content.bytes) args.contains ≡ true
  pub forbidden : any (contains_slice b.content.bytes) args.not_contains ≡ false

none_forbidden :
    (needles : List Bytes) (total : Bytes)
    → All (λ needle. ¬ Occurs needle total) needles
    → any (contains_slice total) needles ≡ false
none_forbidden [] total h = refl
none_forbidden (n ∷ ns) total h = elim (Bool-cases (contains_slice total n)) [
  | inl there ↦ absurd (h.0 ((contains_slice_iff total n).0 there))
  | inr missing ↦ rw missing (none_forbidden ns total h.1)
]

-- Nothing forbidden in the whole, nothing in its first part.
none_so_far :
    (needles : List Bytes) (seen more : Bytes)
    → any (contains_slice (seen ++ more)) needles ≡ false
    → any (contains_slice seen) needles ≡ false
none_so_far needles seen more h = elim (Bool-cases (any (contains_slice seen) needles)) [
  | inl some_found ↦ absurd (cc (h, any_contains-append seen more needles some_found))
  | inr e ↦ e
]

not_equal : (n k : ℕ) → n < k → (n == k) ≡ false
not_equal n k h = ground arith

-- The two reasons to stop early that a body which meets the assertions can give.
module _ (args : HttpArgs) (total : Bytes) (m : Meets args total) where
  -- All of it was read.
  whole-IsEnough :
      (b : BufferedBody)
      → b.exact_match_impossible ≡ false
      → b.content.incomplete ≡ false
      → b.content.bytes ≡ total
      → IsEnough args total b
  whole-IsEnough b possible uncut e = record {
    possible = possible;
    uncut = uncut;
    equals = λ expected asked. e ∙ m.equals expected asked;
    required = rw e (Occurs-all_contains total args.contains m.required);
    forbidden = rw e (none_forbidden args.not_contains total m.forbidden);
  }

  -- Only required texts are asked for, and all of them were found.
  found-IsEnough :
      (b : BufferedBody) (cm nm : TextMatcher) (rest : Bytes)
      → total ≡ b.content.bytes ++ rest
      → b.exact_match_impossible ≡ false
      → b.content.incomplete ≡ false
      → IsTracking b.content.bytes cm
      → cm.needles ≡ args.contains
      → IsTracking b.content.bytes nm
      → nm.needles ≡ args.not_contains
      → body_assertion_is_decided b.exact_match_impossible cm nm args ≡ true
      → IsEnough args total b
  unfolding body_assertion_is_decided
  found-IsEnough b cm nm rest split possible uncut ct ce nt ne h =
      let forbidden : any (contains_slice b.content.bytes) args.not_contains ≡ false =
        none_so_far args.not_contains b.content.bytes rest (
          subst (λ t. any (contains_slice t) args.not_contains ≡ false) split
            (none_forbidden args.not_contains total m.forbidden)) in
      let none_matched : any_matched nm ≡ false =
        any_matched_lem b.content.bytes nm nt
        ∙ ap (any (contains_slice b.content.bytes)) ne
        ∙ forbidden in
      let all_found : all_matched cm ≡ true = ground (arith, h, none_matched, possible) in
      let no_equals : is_none args.body_equals ≡ true = ground (arith, h, none_matched, possible) in
      record {
        possible = possible;
        uncut = uncut;
        equals = λ expected asked. absurd (cc (asked, no_equals));
        required =
            subst (λ ns. all (contains_slice b.content.bytes) ns ≡ true) ce
              (sym (all_matched_lem b.content.bytes cm ct) ∙ all_found);
        forbidden = forbidden;
      }

  module _ (declared_exceeds may_exceed : Bool) (short : length total < args.max_body) where
    pub frames-IsEnough :
        (events : List BodyEvent) (seen : Bytes) (content : CaptureBuffer) (cm nm : TextMatcher)
        → NoFailure events
        → total ≡ seen ++ data_of events
        → content.bytes ≡ seen
        → content.incomplete ≡ false
        → Holds args.max_body seen content
        → IsTracking content.bytes cm
        → cm.needles ≡ args.contains
        → IsTracking content.bytes nm
        → nm.needles ≡ args.not_contains
        → (b : BufferedBody) × (read_frames args declared_exceeds may_exceed args.max_body content
              cm nm false events
            ≡ ok b)
          × IsEnough args total b
    unfolding read_frames
    frames-IsEnough [] seen content cm nm ok_events split e uncut h ct ce nt ne =
        let b : BufferedBody = record { content = content; exact_match_impossible = false } in
        (b, refl, whole-IsEnough b refl uncut (e ∙ sym (append-nil seen) ∙ sym split))
    frames-IsEnough (trailers ∷ events) seen content cm nm ok_events split e uncut h ct ce nt ne =
        frames-IsEnough events seen content cm nm ok_events split e uncut h ct ce nt ne
    frames-IsEnough (grace_over ∷ events) seen content cm nm ok_events split e uncut h ct ce nt ne =
        frames-IsEnough events seen content cm nm ok_events split e uncut h ct ce nt ne
    frames-IsEnough (failed error ∷ events) seen content cm nm ok_events split e uncut h ct ce nt
          ne =
        absurd ok_events
    frames-IsEnough (frame chunk ∷ events) seen content cm nm ok_events split e uncut h ct ce nt
          ne =
        let content' = (append_limited content chunk args.max_body).0 in
        let previous_len = (append_limited content chunk args.max_body).1 in
        let impossible' = mismatch args.body_equals content' previous_len false in
        let cm' = observe_appended cm content'.bytes previous_len in
        let nm' = observe_appended nm content'.bytes previous_len in
        let h' = append_limited-Holds args.max_body seen chunk content h in
        let ct' = watched-IsTracking content cm chunk args.max_body ct in
        let nt' = watched-IsTracking content nm chunk args.max_body nt in
        let ce' : cm'.needles ≡ args.contains = needles-observe_appended cm _ _ ∙ ce in
        let ne' : nm'.needles ≡ args.not_contains = needles-observe_appended nm _ _ ∙ ne in
        let split' : total ≡ (seen ++ chunk) ++ data_of events =
          split ∙ sym (append_assoc seen chunk (data_of events)) in
        let fits : length (seen ++ chunk) < args.max_body =
          omega (arith, short, ap length split', length-append (seen ++ chunk) (data_of events)) in
        let uncut' : content'.incomplete ≡ false = ground (arith, h'.truncated, fits) in
        let e' : content'.bytes ≡ seen ++ chunk =
          sym (Holds-whole args.max_body (seen ++ chunk) content' h' uncut') in
        let below : (length content'.bytes == args.max_body) ≡ false =
          not_equal (length content'.bytes) args.max_body
            (subst (λ t. length t < args.max_body) (sym e') fits) in
        let possible : impossible' ≡ false =
          mismatch_lem args.body_equals content' seen chunk (data_of events) previous_len
            (λ expected asked. sym split ∙ m.equals expected asked) e'
            (append_limited_len content chunk args.max_body ∙ ap length e) in
        let b' : BufferedBody = record {
          content = content';
          exact_match_impossible = impossible';
        } in
        elim (Bool-cases (body_assertion_is_decided impossible' cm' nm' args)) [
          | inl known ↦
              let rest_split : total ≡ content'.bytes ++ data_of events =
                split' ∙ ap (λ t. t ++ data_of events) (sym e') in
              (
                b',
                round_known args declared_exceeds may_exceed content cm nm chunk events known,
                found-IsEnough b' cm' nm' (data_of events) rest_split possible uncut' ct' ce' nt'
                    ne' known,
              )
          | inr unknown ↦
              let (b, run, enough) =
                frames-IsEnough events (seen ++ chunk) content' cm' nm' ok_events split' e' uncut'
                  h' ct' ce' nt' ne' in
              (
                b,
                round_unknown args declared_exceeds may_exceed content cm nm chunk events unknown
                      uncut' below
                    ∙ ap
                        (λ i.
                          read_frames args declared_exceeds may_exceed args.max_body content' cm'
                            nm' i events)
                        possible
                    ∙ run,
                enough,
              )
        ]
