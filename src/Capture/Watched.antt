-- ===== src/Capture/Watched.antt =====
-- A matcher that watches a capture buffer: each append is searched as it comes.
use salus_rs.Prelude.{ℕ, ◌-◌, length, take, Bytes}
use salus_rs.Capture.{CaptureBuffer, append_limited}
use salus_rs.Capture.Limit.{append_limited_bytes, append_limited_len}
use salus_rs.TextMatch.{TextMatcher, observe_appended}
use salus_rs.TextMatch.Tracking.{IsTracking, observe_appended-IsTracking}

-- The append and the observation, in the way that every reading loop makes them.
module _ (b : CaptureBuffer) (m : TextMatcher) (chunk : Bytes) (limit : ℕ) where
  pub watched-IsTracking :
      IsTracking b.bytes m
      → IsTracking (append_limited b chunk limit).0.bytes (
          observe_appended m
            (append_limited b chunk limit).0.bytes
            (append_limited b chunk limit).1)
  watched-IsTracking t =
      rw (append_limited_len b chunk limit, append_limited_bytes b chunk limit)
        (observe_appended-IsTracking b.bytes (take (limit - length b.bytes) chunk) m t)
