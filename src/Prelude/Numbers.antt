-- ===== src/Prelude/Numbers.antt =====
-- `str::parse` for unsigned integers: an optional `+`, decimal digits, and no overflow.
use Prim.Native.Nat.{ℕ, ◌+◌, ◌-◌, ◌*◌, ◌≤◌}
use mathlib.Core.Bool.{true}
use mathlib.Core.List.{[], ◌∷◌}
use mathlib.Core.Option.{Option, none, some}
use mathlib.Core.Path.{◌≡◌, refl}
use mathlib.Core.Logic.{◌≢◌}
use native.Mathlib.Omega.{arith}
use salus_rs.Prelude.Tests.{ltb, ◌==◌, if◌then◌else◌}
use salus_rs.Prelude.Lists.{all}
use salus_rs.Prelude.Chars.{Text, is_ascii_digit}

-- The digits behind the value so far; `bound` is the type's greatest value.
pub parse_digits : ℕ → ℕ → Text → Option ℕ
parse_digits bound n [] = some n
parse_digits bound n (c ∷ s) =
    let n' = n * 10 + (c - b'0') in
    if is_ascii_digit c then (if ltb bound n' then none else parse_digits bound n' s) else none

unfoldable pub parse_unsigned : ℕ → Text → Option ℕ
unfolding parse_digits
parse_unsigned bound [] = none
parse_unsigned bound (c ∷ []) = if c == b'+' then none else parse_digits bound 0 (c ∷ [])
parse_unsigned bound (c ∷ d ∷ s) = parse_digits bound 0 (if c == b'+' then d ∷ s else c ∷ d ∷ s)

-- The number that digits spell behind `n`, with no bound.
abbrev pub value_from : ℕ → Text → ℕ
value_from n [] = n
value_from n (c ∷ s) = value_from (n * 10 + (c - b'0')) s

le-value_from : (n : ℕ) (s : Text) → n ≤ value_from n s
le-value_from n [] = omega arith
le-value_from n (c ∷ s) = omega (arith, le-value_from (n * 10 + (c - b'0')) s)

pub parse_digits_sound :
    (bound n : ℕ) (s : Text) {r : ℕ}
    → n ≤ bound
    → parse_digits bound n s ≡ some r
    → (all is_ascii_digit s ≡ true) × (r ≡ value_from n s) × (r ≤ bound)
unfolding parse_digits
parse_digits_sound bound n [] h e = ground arith
parse_digits_sound bound n (c ∷ s) {r} h e =
    ground (arith, parse_digits_sound bound (n * 10 + (c - b'0')) s {r = r})

pub parse_digits_complete :
    (bound n : ℕ) (s : Text)
    → all is_ascii_digit s ≡ true
    → value_from n s ≤ bound
    → parse_digits bound n s ≡ some (value_from n s)
unfolding parse_digits
parse_digits_complete bound n [] h fits = refl
parse_digits_complete bound n (c ∷ s) h fits =
    let n' = n * 10 + (c - b'0') in
    ground (arith, parse_digits_complete bound n' s, le-value_from n' s)

-- Digits alone, with no sign.
pub parse_unsigned_digits :
    (bound : ℕ) (s : Text)
    → s ≢ []
    → all is_ascii_digit s ≡ true
    → parse_unsigned bound s ≡ parse_digits bound 0 s
unfolding parse_unsigned
parse_unsigned_digits bound [] ne h = absurd (ne refl)
parse_unsigned_digits bound (c ∷ []) ne h = ground arith
parse_unsigned_digits bound (c ∷ d ∷ s) ne h = ground arith
