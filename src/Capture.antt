-- ===== src/Capture.antt =====
-- capture.rs: a buffer that keeps the first bytes of a stream, up to a limit.
pub mod Limit
pub mod Watched
use salus_rs.Prelude.{
  ℕ, ◌-◌, min, Bool, true, false, not, [], ◌++◌, ltb, if◌then◌else◌, is_nil, length, take, Bytes,
}

pub record CaptureBuffer : Type 0 where
  pub bytes : Bytes
  pub incomplete : Bool

-- `CaptureBuffer::default()`
abbrev pub default : CaptureBuffer
default = record { bytes = []; incomplete = false }

-- The new buffer, and the length before the call.
unfoldable pub append_limited : CaptureBuffer → Bytes → ℕ → CaptureBuffer × ℕ
append_limited b chunk limit =
    let previous_len = length b.bytes in
    let remaining = limit - length b.bytes in
    if ltb (length b.bytes) limit
    then (
      record {
        bytes = b.bytes ++ take (min (length chunk) remaining) chunk;
        incomplete = if ltb remaining (length chunk) then true else b.incomplete;
      },
      previous_len,
    )
    else (record b { incomplete = if not (is_nil chunk) then true else b.incomplete }, previous_len)

abbrev pub len : CaptureBuffer → ℕ
len b = length b.bytes

abbrev pub mark_incomplete : CaptureBuffer → CaptureBuffer
mark_incomplete b = record b { incomplete = true }
