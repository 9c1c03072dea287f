-- ===== src/Authority/Port.antt =====
-- What a port is, and which error each other text gets.
use salus_rs.Prelude.{
  ℕ, ◌≤◌, ◌<◌, ◌≡◌, ◌≢◌, refl, sym, ◌∙◌, true, false, not, ◌||◌, ◌⊎◌, inl, inr, none, some, [], ◌∷◌,
  arith, is_nil, all, Text, is_ascii_digit, parse_digits, parse_unsigned, parse_unsigned_digits,
  parse_digits_sound, parse_digits_complete, value_from, ok, err, Bool-cases, Option-cases,
}
use native.Mathlib.Decide.{dec_lt}
use salus_rs.Authority.{not_integer, out_of_range, validate_port, u16_max}

-- One or more digits, and nothing else: no sign, no blank.
abbrev pub IsNumeral : Text → Type 0
IsNumeral raw = (raw ≢ []) × (all is_ascii_digit raw ≡ true)

-- The number that a numeral spells.
abbrev pub number_of : Text → ℕ
number_of = value_from 0

module _ (raw : Text) (numeral : IsNumeral raw) where
  port_digits : parse_unsigned u16_max raw ≡ parse_digits u16_max 0 raw
  port_digits = parse_unsigned_digits u16_max raw numeral.0 numeral.1

  port_in_range : number_of raw ≤ 65535 → parse_unsigned u16_max raw ≡ some (number_of raw)
  port_in_range h = port_digits ∙ parse_digits_complete u16_max 0 raw numeral.1 h

  port_too_large : 65535 < number_of raw → parse_unsigned u16_max raw ≡ none
  port_too_large h = elim (Option-cases (parse_unsigned u16_max raw)) [
    | inl e ↦ e
    | inr (p, e) ↦ absurd (too_large p e)
  ]
    where
      too_large : (p : ℕ) → parse_unsigned u16_max raw ≡ some p → ⊥
      too_large p e =
          let (d, v, b) = parse_digits_sound u16_max 0 raw (omega arith) (sym port_digits ∙ e) in
          omega (arith, v, b)

not_digits : (raw : Text) → ¬ IsNumeral raw → (is_nil raw || not (all is_ascii_digit raw)) ≡ true
not_digits [] h = refl
not_digits (c ∷ s) h = elim (Bool-cases (all is_ascii_digit (c ∷ s))) [
  | inl digits ↦ absurd (h (cc, digits))
  | inr other ↦ rw other
]

digits : (raw : Text) → IsNumeral raw → (is_nil raw || not (all is_ascii_digit raw)) ≡ false
digits [] h = absurd (h.0 refl)
digits (c ∷ s) h = rw h.1

IsNumeral-cases : (raw : Text) → IsNumeral raw ⊎ (¬ IsNumeral raw)
IsNumeral-cases [] = inr (λ h. h.0 refl)
IsNumeral-cases (c ∷ s) = elim (Bool-cases (all is_ascii_digit (c ∷ s))) [
  | inl all_digits ↦ inl (cc, all_digits)
  | inr other ↦ inr (λ h. cc (h.1))
]

port_no_numeral : (raw : Text) → ¬ IsNumeral raw → validate_port raw ≡ err not_integer
unfolding validate_port
port_no_numeral raw h = rw (not_digits raw h)

port_out :
    (raw : Text)
    → IsNumeral raw
    → (number_of raw ≡ 0) ⊎ (65535 < number_of raw)
    → validate_port raw ≡ err out_of_range
unfolding validate_port
port_out raw h (inl zero_port) = rw (digits raw h, port_in_range raw h (omega arith), zero_port)
port_out raw h (inr large) = rw (digits raw h, port_too_large raw h large)

port_ok :
    (raw : Text)
    → IsNumeral raw
    → 0 < number_of raw
    → number_of raw ≤ 65535
    → validate_port raw ≡ ok (number_of raw)
unfolding validate_port
port_ok raw h low high = rw (digits raw h, port_in_range raw h high) (ground arith)

-- The complete behaviour of `validate_port`: what is no numeral is no integer, a numeral outside
-- 1..65535 is out of range, and every other numeral is the port that it spells.
pub validate_port_lem :
    (raw : Text)
    → (¬ IsNumeral raw → validate_port raw ≡ err not_integer)
      × (IsNumeral raw
          → (number_of raw ≡ 0) ⊎ (65535 < number_of raw)
          → validate_port raw ≡ err out_of_range)
      × (IsNumeral raw
          → 0 < number_of raw
          → number_of raw ≤ 65535
          → validate_port raw ≡ ok (number_of raw))
validate_port_lem raw = (port_no_numeral raw, port_out raw, port_ok raw)

-- A port that is accepted is a numeral between 1 and 65535.
pub validate_port-ok :
    (raw : Text) {port : ℕ}
    → validate_port raw ≡ ok port
    → IsNumeral raw × (port ≡ number_of raw) × (0 < port) × (port ≤ 65535)
validate_port-ok raw {port} h = elim (IsNumeral-cases raw) [
  | inr other ↦ cc (port_no_numeral raw other)
  | inl numeral ↦ elim (dec_lt 0 (number_of raw)) [
    | no zero_port ↦ cc (port_out raw numeral (inl (omega arith)))
    | yes positive ↦ elim (dec_lt 65535 (number_of raw)) [
      | yes large ↦ cc (port_out raw numeral (inr large))
      | no fits ↦
          let e : port ≡ number_of raw = cc (port_ok raw numeral positive (omega arith)) in
          (numeral, e, omega (arith, e), omega (arith, e))
    ]
  ]
]
