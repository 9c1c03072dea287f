-- ===== src/Probes/Http/Url/Percent.antt =====
-- Percent encoding.
use salus_rs.Prelude.{
  ℕ, ◌≡◌, sym, ap, subst, ==_iff, ◌∙◌, ◌↔◌, true, false, ◌&&◌, [], ◌∷◌, ◌++◌, arith, ◌==◌, Text,
  is_ascii_hexdigit, Bool-cases, inl, inr,
}
use salus_rs.Probes.Http.Url.{percents_are_valid}

-- Two hexadecimal digits stand at the start.
abbrev pub HexPair : Text → Type 0
HexPair (d ∷ e ∷ rest) = (is_ascii_hexdigit d ≡ true) × (is_ascii_hexdigit e ≡ true)
HexPair _ = ⊥

-- Behind every `%` stand two hexadecimal digits.
abbrev pub IsPercentEncoded : Text → Type 0
IsPercentEncoded raw = (before after : Text) → raw ≡ before ++ (b'%' ∷ after) → HexPair after

-- The same, from the left.
abbrev Encoded : Text → Type 0
Encoded [] = Unit
Encoded (c ∷ s) = ((c == b'%') ≡ true → HexPair s) × Encoded s

Encoded-IsPercentEncoded : (raw : Text) → Encoded raw → IsPercentEncoded raw
Encoded-IsPercentEncoded [] h [] after e = cc e
Encoded-IsPercentEncoded [] h (b ∷ before) after e = cc e
Encoded-IsPercentEncoded (c ∷ s) h [] after e =
    let same : c ≡ b'%' = cc e in
    let rest : s ≡ after = cc e in subst HexPair rest (h.0 ((==_iff c b'%').1 same))
Encoded-IsPercentEncoded (c ∷ s) h (b ∷ before) after e =
    let rest : s ≡ before ++ (b'%' ∷ after) = cc e in
    Encoded-IsPercentEncoded s h.1 before after rest

IsPercentEncoded-Encoded : (raw : Text) → IsPercentEncoded raw → Encoded raw
IsPercentEncoded-Encoded [] h = tt
IsPercentEncoded-Encoded (c ∷ s) h = (
  λ e. h [] s (ap (λ x. x ∷ s) ((==_iff c b'%').0 e)),
  IsPercentEncoded-Encoded s (λ before after e. h (c ∷ before) after (ap (λ x. c ∷ x) e)),
)

hexdigit_lem : (c : ℕ) → is_ascii_hexdigit c ≡ true → (c == b'%') ≡ false
hexdigit_lem c h = ground arith

at_percent :
    (c d e : ℕ) (rest : Text)
    → (c == b'%') ≡ true
    → percents_are_valid (c ∷ d ∷ e ∷ rest)
      ≡ (is_ascii_hexdigit d && is_ascii_hexdigit e && percents_are_valid rest)
unfolding percents_are_valid
at_percent c d e rest percent = rw (percent, percents_are_valid)

percent_step :
    (d e : ℕ) (rest : Text)
    → (is_ascii_hexdigit d && is_ascii_hexdigit e && percents_are_valid rest) ≡ true
    → (percents_are_valid rest ≡ true → Encoded rest)
    → HexPair (d ∷ e ∷ rest) × Encoded (d ∷ e ∷ rest)
percent_step d e rest h ih =
    let left : is_ascii_hexdigit d ≡ true = ground arith in
    let right : is_ascii_hexdigit e ≡ true = ground arith in
    (
      (left, right),
      (
        λ d_is. cc (d_is, hexdigit_lem d left),
        (λ e_is. cc (e_is, hexdigit_lem e right), ih (ground arith)),
      ),
    )

scan_iff : (raw : Text) → (percents_are_valid raw ≡ true) ↔ Encoded raw
unfolding percents_are_valid
scan_iff [] = ground arith
scan_iff (c ∷ []) = ground arith
scan_iff (c ∷ d ∷ []) = elim (Bool-cases (c == b'%')) [
  | inl percent ↦ rw percent (ground arith)
  | inr other ↦ rw other (ground (arith, scan_iff (d ∷ [])))
]
scan_iff (c ∷ d ∷ e ∷ rest) = elim (Bool-cases (c == b'%')) [
  | inl percent ↦
      let step = at_percent c d e rest percent in
      (
        λ h.
            let (pair, others) = percent_step d e rest (sym step ∙ h) (scan_iff rest).0 in
            (λ _. pair, others),
        λ h.
            let valid = (scan_iff rest).1 h.1.1.1 in
            let pair = h.0 percent in step ∙ rw (pair.0, pair.1) valid,
      )
  | inr other ↦ rw other (ground (arith, scan_iff (d ∷ e ∷ rest)))
]

-- The scan jumps behind the digits of each `%`, and accepts exactly the texts in which two
-- hexadecimal digits stand behind every `%`.
pub percents_are_valid_iff : (raw : Text) → (percents_are_valid raw ≡ true) ↔ IsPercentEncoded raw
percents_are_valid_iff raw = (
  λ h. Encoded-IsPercentEncoded raw ((scan_iff raw).0 h),
  λ h. (scan_iff raw).1 (IsPercentEncoded-Encoded raw h),
)
