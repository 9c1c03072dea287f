-- ===== src/Probes/Http/Status/Shown.antt =====
-- Ranges that are written as texts of `--status` are read back.
use salus_rs.Prelude.{
  ℕ, ◌+◌, ◌/◌, ◌%◌, ◌≤◌, ◌≡◌, ◌≢◌, refl, ap, ◌∙◌, true, false, some, [], ◌∷◌, ◌++◌, map, arith,
  ◌==◌, is_nil, All, any, any-append, Text, is_whitespace, split_once, trim, trim_start, trim_end,
  parse_unsigned, parse_unsigned_digits, parse_digits_complete, value_from, is_ascii_digit, all, ok,
}
use salus_rs.Probes.Http.Status.{
  StatusRange, StatusRanges, parse_status_code, parse_two_codes, parse_status_range,
  parse_each_range, parse_status_ranges,
}
use salus_rs.Probes.Http.Status.Bounds.{IsStatusRange}

-- The decimal text of a number of three digits.
abbrev pub three_digits : ℕ → Text
three_digits n = (b'0' + n / 100) ∷ (b'0' + (n / 10) % 10) ∷ (b'0' + n % 10) ∷ []

digits_lem : (n : ℕ) → n ≤ 599 → all is_ascii_digit (three_digits n) ≡ true
digits_lem n high = ground arith

value_lem : (n : ℕ) → n ≤ 599 → value_from 0 (three_digits n) ≡ n
value_lem n high = omega arith

parse_unsigned-three_digits : (n : ℕ) → n ≤ 599 → parse_unsigned 65535 (three_digits n) ≡ some n
parse_unsigned-three_digits n high =
    let value = value_lem n high in
    let some_digit : three_digits n ≢ [] = cc in
    parse_unsigned_digits 65535 (three_digits n) some_digit (digits_lem n high)
    ∙ parse_digits_complete 65535 0 (three_digits n) (digits_lem n high) (omega (arith, value))
    ∙ ap some value

parse_status_code-three_digits :
    (n : ℕ) → 100 ≤ n → n ≤ 599 → parse_status_code (three_digits n) ≡ ok n
unfolding parse_status_code
parse_status_code-three_digits n low high =
    rw (parse_unsigned-three_digits n high, parse_status_code) (ground arith)

-- A range written as `low-high`.
abbrev pub show_range : StatusRange → Text
show_range range = three_digits range.start ++ (b'-' ∷ three_digits range.last)

no_blank-trim_start : (s : Text) → any is_whitespace s ≡ false → trim_start s ≡ s
unfolding trim_start
no_blank-trim_start [] h = refl
no_blank-trim_start (c ∷ s) h = ground arith

no_blank-trim_end : (s : Text) → any is_whitespace s ≡ false → trim_end s ≡ s
unfolding trim_end
no_blank-trim_end [] h = refl
no_blank-trim_end (c ∷ s) h =
    let blank : is_whitespace c ≡ false = ground arith in
    let others : any is_whitespace s ≡ false = ground arith in
    rw (blank, no_blank-trim_end s others) (ground arith)

no_blank-trim : (s : Text) → any is_whitespace s ≡ false → trim s ≡ s
no_blank-trim s h = ap trim_end (no_blank-trim_start s h) ∙ no_blank-trim_end s h

-- Neither a blank nor the dash.
digit_lem : (c : ℕ) → is_ascii_digit c ≡ true → (is_whitespace c ≡ false) × ((c == b'-') ≡ false)
digit_lem c h = ground arith

digits_no_blank : (s : Text) → all is_ascii_digit s ≡ true → any is_whitespace s ≡ false
digits_no_blank [] h = refl
digits_no_blank (c ∷ s) h =
    let digit : is_ascii_digit c ≡ true = ground arith in
    let others : all is_ascii_digit s ≡ true = ground arith in
    rw ((digit_lem c digit).0) (digits_no_blank s others)

split_once-digits :
    (s rest : Text)
    → all is_ascii_digit s ≡ true
    → split_once b'-' (s ++ (b'-' ∷ rest)) ≡ some (s, rest)
split_once-digits [] rest h = refl
split_once-digits (c ∷ s) rest h =
    let digit : is_ascii_digit c ≡ true = ground arith in
    let others : all is_ascii_digit s ≡ true = ground arith in
    rw ((digit_lem c digit).1, split_once-digits s rest others)

-- A text with a dash between two texts that are not blank.
dashed_range :
    (raw low high : Text)
    → split_once b'-' (trim raw) ≡ some (low, high)
    → is_nil (trim low) ≡ false
    → is_nil (trim high) ≡ false
    → parse_status_range raw ≡ parse_two_codes raw low high
unfolding parse_status_range
dashed_range raw low high split some_low some_high =
    rw (split, some_low, some_high, parse_status_range)

module _ (range : StatusRange) (h : IsStatusRange range) where
  start_digits : all is_ascii_digit (three_digits range.start) ≡ true
  start_digits = digits_lem range.start (omega (arith, h.ordered, h.high))

  last_digits : all is_ascii_digit (three_digits range.last) ≡ true
  last_digits = digits_lem range.last h.high

  trim-show_range : trim (show_range range) ≡ show_range range
  trim-show_range = no_blank-trim (show_range range) (
      any-append is_whitespace (three_digits range.start) (b'-' ∷ three_digits range.last)
      ∙ rw (
        digits_no_blank (three_digits range.start) start_digits,
        digits_no_blank (three_digits range.last) last_digits,
      ))

  codes_lem :
      (raw : Text)
      → parse_two_codes raw (three_digits range.start) (three_digits range.last) ≡ ok range
  unfolding parse_two_codes
  codes_lem raw =
      rw
        (
          no_blank-trim _ (digits_no_blank (three_digits range.start) start_digits),
          no_blank-trim _ (digits_no_blank (three_digits range.last) last_digits),
          parse_status_code-three_digits range.start h.low (omega (arith, h.ordered, h.high)),
          parse_status_code-three_digits range.last (omega (arith, h.ordered, h.low)) h.high,
        )
        (ground (arith, h.ordered))

  parse_status_range-show_range : parse_status_range (show_range range) ≡ ok range
  parse_status_range-show_range =
      dashed_range (show_range range) (three_digits range.start) (three_digits range.last)
        (ap (split_once b'-') trim-show_range
          ∙ split_once-digits (three_digits range.start) (three_digits range.last) start_digits)
        (ap is_nil (no_blank-trim _ (digits_no_blank (three_digits range.start) start_digits)))
        (ap is_nil (no_blank-trim _ (digits_no_blank (three_digits range.last) last_digits)))
      ∙ codes_lem (show_range range)

parse_each_range-show_range :
    (ranges : StatusRanges)
    → All IsStatusRange ranges
    → parse_each_range (map show_range ranges) ≡ ok ranges
unfolding parse_each_range
parse_each_range-show_range [] h = refl
parse_each_range-show_range (range ∷ ranges) h =
    rw (parse_status_range-show_range range h.0, parse_each_range-show_range ranges h.1)

-- Ranges between 100 and 599, written `low-high`, are read back as they were.
pub parse_status_ranges-show_range :
    (ranges : StatusRanges)
    → ranges ≢ []
    → All IsStatusRange ranges
    → parse_status_ranges (map show_range ranges) ≡ ok ranges
unfolding parse_status_ranges
parse_status_ranges-show_range [] ne h = absurd (ne refl)
parse_status_ranges-show_range (range ∷ ranges) ne h =
    parse_each_range-show_range (range ∷ ranges) h
