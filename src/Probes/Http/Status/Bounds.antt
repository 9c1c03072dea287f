-- ===== src/Probes/Http/Status/Bounds.antt =====
-- The ranges of `--status` are ranges of codes of HTTP.
use salus_rs.Prelude.{
  ℕ, ◌≤◌, ◌≡◌, refl, false, not, ◌&&◌, Option, none, some, List, [], ◌∷◌, arith, ltb, is_nil, All,
  Text, split_once, trim, ok, >>=-eq-ok, ok-injective, subst, Bool-cases, inl, inr,
}
use salus_rs.Error.{AppResult}
use salus_rs.Probes.Http.Status.{
  StatusRange, StatusRanges, parse_status_code, parse_one_code, parse_two_codes, parse_status_range,
  parse_each_range, parse_status_ranges,
}

-- Codes of HTTP, in their order.
pub record IsStatusRange (range : StatusRange) : Type 0 where
  pub low : 100 ≤ range.start
  pub ordered : range.start ≤ range.last
  pub high : range.last ≤ 599

parse_status_code-bounds :
    (raw : Text) {code : ℕ} → parse_status_code raw ≡ ok code → (100 ≤ code) × (code ≤ 599)
unfolding parse_status_code
parse_status_code-bounds raw {code} h = ground arith

parse_one_code-IsStatusRange :
    (text : Text) {range : StatusRange} → parse_one_code text ≡ ok range → IsStatusRange range
unfolding parse_one_code
parse_one_code-IsStatusRange text {range} h =
    let (code, parsed, built) = >>=-eq-ok (parse_status_code text) _ h in
    let bounds = parse_status_code-bounds text parsed in
    subst IsStatusRange (ok-injective built)
      (record { low = bounds.0; ordered = omega arith; high = bounds.1 })

parse_two_codes-IsStatusRange :
    (raw low high : Text) {range : StatusRange}
    → parse_two_codes raw low high ≡ ok range
    → IsStatusRange range
unfolding parse_two_codes
parse_two_codes-IsStatusRange raw low high {range} h =
    let (start, parsed, more) = >>=-eq-ok (parse_status_code (trim low)) _ h in
    let (last, parsed', rest) = >>=-eq-ok (parse_status_code (trim high)) _ more in
    let ordered : ltb last start ≡ false = ground (arith, rest) in
    let built : Path (AppResult StatusRange) (ok (record { start = start; last = last }))
        (ok range) =
      ground (arith, rest) in
    subst IsStatusRange (ok-injective built) (record {
      low = (parse_status_code-bounds (trim low) parsed).0;
      ordered = ground (arith, ordered);
      high = (parse_status_code-bounds (trim high) parsed').1;
    })

parse_status_range-IsStatusRange :
    (raw : Text) {range : StatusRange} → parse_status_range raw ≡ ok range → IsStatusRange range
unfolding parse_status_range
parse_status_range-IsStatusRange raw {range} h = split_cases (split_once b'-' (trim raw)) refl
  where
    split_cases : (o : Option (Text × Text)) → split_once b'-' (trim raw) ≡ o → IsStatusRange range
    split_cases none e = parse_one_code-IsStatusRange (trim raw) (ground (arith, h, e))
    split_cases (some (low, high)) e =
        elim (Bool-cases (not (is_nil (trim low)) && not (is_nil (trim high)))) [
          | inl both ↦ parse_two_codes-IsStatusRange raw low high (ground (arith, h, e, both))
          | inr one ↦ parse_one_code-IsStatusRange (trim raw) (ground (arith, h, e, one))
        ]

parse_each_range-IsStatusRange :
    (raws : List Text) {ranges : StatusRanges}
    → parse_each_range raws ≡ ok ranges
    → All IsStatusRange ranges
unfolding parse_each_range
parse_each_range-IsStatusRange [] {ranges} h = subst (All IsStatusRange) (ok-injective h) tt
parse_each_range-IsStatusRange (raw ∷ raws) {ranges} h =
    let (range, first_ok, more) = >>=-eq-ok (parse_status_range raw) _ h in
    let (others, others_ok, built) = >>=-eq-ok (parse_each_range raws) _ more in
    subst (All IsStatusRange) (ok-injective built)
      (parse_status_range-IsStatusRange raw first_ok, parse_each_range-IsStatusRange raws others_ok)

-- Every range that `--status` gives, the default one too, runs upwards between 100 and 599.
pub parse_status_ranges-IsStatusRange :
    (raws : List Text) {ranges : StatusRanges}
    → parse_status_ranges raws ≡ ok ranges
    → All IsStatusRange ranges
unfolding parse_status_ranges
parse_status_ranges-IsStatusRange [] {ranges} h =
    subst (All IsStatusRange) (ok-injective h)
      (record { low = omega arith; ordered = omega arith; high = omega arith }, tt)
parse_status_ranges-IsStatusRange (raw ∷ raws) {ranges} h =
    parse_each_range-IsStatusRange (raw ∷ raws) h
