-- ===== src/Probes/Http/Status.antt =====
-- The accepted status codes: `--status`, and the test of a response's code.
pub mod Bounds
pub mod Shown
use salus_rs.Prelude.{
  ℕ, Bool, not, ◌&&◌, Option, none, some, List, [], ◌∷◌, ltb, leb, if◌then◌else◌, is_nil, any, Text,
  split_once, trim, parse_unsigned, Result, ok, err, ◌>>=◌, ◌>>◌, refuse_if, is_some,
}
use salus_rs.Error.{AppError, AppResult, invalid_config, lit, number}
use salus_rs.Diagnostic.{value}

pub record StatusRange : Type 0 where
  pub start : ℕ
  pub last : ℕ

abbrev pub StatusRanges : Type 0
StatusRanges = List StatusRange

unfoldable pub range_contains : StatusRange → ℕ → Bool
range_contains range code = leb range.start code && leb code range.last

unfoldable pub matches : StatusRanges → ℕ → Bool
matches ranges code = any (λ range. range_contains range code) ranges

unfoldable pub parse_status_code : Text → AppResult ℕ
parse_status_code raw = elim (parse_unsigned 65535 raw) [
  | none ↦
      err (invalid_config (lit "invalid status code " ∷ value raw ∷ lit ", expected integer" ∷ []))
  | some code ↦ do
    refuse_if (not (leb 100 code && leb code 599)) (
        invalid_config (lit "invalid status code " ∷ number code ∷ lit ", expected 100..=599" ∷ []))
    ok code
]

unfoldable pub parse_one_code : Text → AppResult StatusRange
parse_one_code trimmed = do
  code ← parse_status_code trimmed
  ok (record { start = code; last = code })

unfoldable pub parse_two_codes : Text → Text → Text → AppResult StatusRange
parse_two_codes raw low high = do
  start ← parse_status_code (trim low)
  last ← parse_status_code (trim high)
  refuse_if (ltb last start) (
      invalid_config
        (lit "invalid status range " ∷ value raw ∷ lit ", start is greater than end" ∷ []))
  ok (record { start = start; last = last })

-- One round of the loop.
unfoldable pub parse_status_range : Text → AppResult StatusRange
parse_status_range raw = elim (split_once b'-' (trim raw)) [
  | none ↦ parse_one_code (trim raw)
  | some (low, high) ↦
      if not (is_nil (trim low)) && not (is_nil (trim high))
      then parse_two_codes raw low high
      else parse_one_code (trim raw)
]

unfoldable pub parse_each_range : List Text → AppResult StatusRanges
parse_each_range [] = ok []
parse_each_range (raw ∷ raw_ranges) = do
  range ← parse_status_range raw
  ranges ← parse_each_range raw_ranges
  ok (range ∷ ranges)

unfoldable pub parse_status_ranges : List Text → AppResult StatusRanges
parse_status_ranges raw_ranges =
    if is_nil raw_ranges
    then ok (record { start = 200; last = 299 } ∷ [])
    else parse_each_range raw_ranges
