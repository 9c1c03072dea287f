-- ===== src/Probes/Http/Body/Round.antt =====
-- One round of the loop that reads the body.
use salus_rs.Prelude.{
  ℕ, ◌≡◌, Bool, true, false, List, ◌∷◌, ◌==◌, length, Bool-cases, inl, inr, Bytes, ok,
}
use salus_rs.Error.{AppResult}
use salus_rs.Capture.{CaptureBuffer, append_limited}
use salus_rs.TextMatch.{TextMatcher, observe_appended}
use salus_rs.Probes.Http.Args.{HttpArgs}
use salus_rs.Probes.Http.Body.{
  BodyEvent, frame, BufferedBody, body_assertion_is_decided, read_frames, mismatch,
}

module _ (args : HttpArgs) (declared_exceeds may_exceed : Bool) (content : CaptureBuffer)
    (cm nm : TextMatcher) (chunk : Bytes) (events : List BodyEvent) where
  abbrev pub next : CaptureBuffer
  next = (append_limited content chunk args.max_body).0

  abbrev pub len_before : ℕ
  len_before = (append_limited content chunk args.max_body).1

  abbrev pub next_impossible : Bool
  next_impossible = mismatch args.body_equals next len_before false

  abbrev pub next_decided : Bool
  next_decided =
      body_assertion_is_decided next_impossible (observe_appended cm next.bytes len_before)
        (observe_appended nm next.bytes len_before) args

  abbrev pub round : AppResult BufferedBody
  round =
      read_frames args declared_exceeds may_exceed args.max_body content cm nm false
        (frame chunk ∷ events)

  pub round_known :
      next_decided ≡ true
      → round ≡ ok (record { content = next; exact_match_impossible = next_impossible })
  unfolding read_frames
  round_known known = rw (known, read_frames)

  pub round_unknown :
      next_decided ≡ false
      → next.incomplete ≡ false
      → (length next.bytes == args.max_body) ≡ false
      → round
        ≡ read_frames args declared_exceeds may_exceed args.max_body next
            (observe_appended cm next.bytes len_before)
            (observe_appended nm next.bytes len_before)
            next_impossible
            events
  unfolding read_frames
  round_unknown unknown uncut below = elim (Bool-cases declared_exceeds) [
    | inl e ↦ rw (unknown, uncut, below, e, read_frames)
    | inr e ↦ rw (unknown, uncut, below, e, read_frames)
  ]
