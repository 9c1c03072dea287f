-- ===== src/Prelude/Chars.antt =====
-- Texts and bytes as lists of numbers, and the character classes of the standard library.
use Prim.Native.Nat.{ℕ, ◌+◌, ◌-◌}
use Prim.Native.Char.{code}
use Prim.Native.String.{String}
use mathlib.Core.Bool.{Bool, true, false, ◌&&◌, ◌||◌}
use mathlib.Core.List.{List, [], ◌∷◌}
use mathlib.Core.Logic.{◌↔◌}
use mathlib.Core.Option.{Option, none, some}
use mathlib.Core.Path.{◌≡◌, refl, ap, subst}
use native.Mathlib.Omega.{arith}
use mathlib.Core.List.{◌++◌}
use mathlib.Core.Logic.{inl, inr}
use salus_rs.Prelude.Lists.{any, is_nil}
use salus_rs.Prelude.Tests.{leb, ◌==◌, if◌then◌else◌, Bool-cases, ==_iff}

abbrev pub Bytes : Type 0
Bytes = List ℕ

-- The code points of a `str`.
abbrev pub Text : Type 0
Text = List ℕ

abbrev pub codes : String → Text
codes String.[] = []
codes (String.◌∷◌ c s) = code c ∷ codes s

abbrev pub within : ℕ → ℕ → ℕ → Bool
within lo hi c = leb lo c && leb c hi

abbrev pub is_ascii_digit : ℕ → Bool
is_ascii_digit = within b'0' b'9'

abbrev pub is_ascii_alphabetic : ℕ → Bool
is_ascii_alphabetic c = within b'a' b'z' c || within b'A' b'Z' c

abbrev pub is_ascii_alphanumeric : ℕ → Bool
is_ascii_alphanumeric c = is_ascii_alphabetic c || is_ascii_digit c

abbrev pub is_ascii_hexdigit : ℕ → Bool
is_ascii_hexdigit c = is_ascii_digit c || within b'a' b'f' c || within b'A' b'F' c

-- `char::is_control`: the category Cc.
abbrev pub is_control : ℕ → Bool
is_control c = leb c 0x1f || within 0x7f 0x9f c

-- `char::is_whitespace`: the property White_Space.
abbrev pub is_whitespace : ℕ → Bool
is_whitespace c =
    within 0x09 0x0d c
    || c == 0x20
    || c == 0x85
    || c == 0xa0
    || c == 0x1680
    || within 0x2000 0x200a c
    || c == 0x2028
    || c == 0x2029
    || c == 0x202f
    || c == 0x205f
    || c == 0x3000

abbrev pub is_ascii : ℕ → Bool
is_ascii c = leb c 0x7f

abbrev pub to_ascii_lowercase : ℕ → ℕ
to_ascii_lowercase c = if within b'A' b'Z' c then c + 32 else c

abbrev pub to_ascii_uppercase : ℕ → ℕ
to_ascii_uppercase c = if within b'a' b'z' c then c - 32 else c

-- Equality of slices and texts.
unfoldable pub equal : Bytes → Bytes → Bool
equal [] right = is_nil right
equal (c ∷ left) [] = false
equal (c ∷ left) (d ∷ right) = c == d && equal left right

pub equal_iff : (left right : Bytes) → (equal left right ≡ true) ↔ (left ≡ right)
unfolding equal
equal_iff [] [] = ground arith
equal_iff [] (d ∷ right) = ground arith
equal_iff (c ∷ left) [] = ground arith
equal_iff (c ∷ left) (d ∷ right) = ground (arith, equal_iff left right)

pub equal_refl : (a : Bytes) → equal a a ≡ true
equal_refl a = (equal_iff a a).1 refl

-- `OsStr` and `Path`: bytes that are valid UTF-8, given by their code points, or other bytes.
pub data OsStr : Type 0 where
  utf8 : Text → OsStr
  other : Bytes → OsStr

abbrev pub to_str : OsStr → Option Text
to_str (utf8 t) = some t
to_str (other b) = none

-- The empty bytes are valid UTF-8.
abbrev pub os_is_empty : OsStr → Bool
os_is_empty (utf8 []) = true
os_is_empty (utf8 (c ∷ t)) = false
os_is_empty (other b) = false

-- `text.split_once(pattern)` for a pattern of one and of two characters.
abbrev pub split_once : ℕ → Text → Option (Text × Text)
split_once p [] = none
split_once p (c ∷ s) =
    if c == p
    then some ([], s)
    else elim (split_once p s) [ none ↦ none | some (a, b) ↦ some (c ∷ a, b) ]

abbrev pub split_once_two : ℕ → ℕ → Text → Option (Text × Text)
split_once_two p q [] = none
split_once_two p q (c ∷ []) = none
split_once_two p q (c ∷ d ∷ s) =
    if c == p && d == q
    then some ([], s)
    else elim (split_once_two p q (d ∷ s)) [ none ↦ none | some (a, b) ↦ some (c ∷ a, b) ]

-- `text.rsplit_once(p)`: at the last occurrence.
abbrev pub rsplit_once : ℕ → Text → Option (Text × Text)
rsplit_once p [] = none
rsplit_once p (c ∷ s) = elim (rsplit_once p s) [
  | some (a, b) ↦ some (c ∷ a, b)
  | none ↦ if c == p then some ([], s) else none
]

abbrev pub strip_prefix : ℕ → Text → Option Text
strip_prefix p [] = none
strip_prefix p (c ∷ s) = if c == p then some s else none

abbrev pub starts_with : ℕ → Text → Bool
starts_with p [] = false
starts_with p (c ∷ s) = c == p

abbrev pub is_none {ℓ} : {A : Type ℓ} → Option A → Bool
is_none none = true
is_none (some a) = false

-- `split_once` splits at the first occurrence, if there is one.
abbrev pub Splits : ℕ → Text → Option (Text × Text) → Type 0
Splits p s none = any (λ c. c == p) s ≡ false
Splits p s (some (a, b)) = (s ≡ a ++ (p ∷ b)) × (any (λ c. c == p) a ≡ false)

Splits-cons :
    (p c : ℕ) (s : Text) (r : Option (Text × Text))
    → (c == p) ≡ false
    → Splits p s r
    → Splits p (c ∷ s) (elim r [ none ↦ none | some (a, b) ↦ some (c ∷ a, b) ])
Splits-cons p c s none e h = rw e h
Splits-cons p c s (some (a, b)) e (h, l) = (ap (λ t. c ∷ t) h, rw e l)

pub split_once-Splits : (p : ℕ) (s : Text) → Splits p s (split_once p s)
split_once-Splits p [] = refl
split_once-Splits p (c ∷ s) = elim (Bool-cases (c == p)) [
  | inl here ↦ rw here (ap (λ x. x ∷ s) ((==_iff c p).0 here), refl)
  | inr later ↦ rw later (Splits-cons p c s (split_once p s) later (split_once-Splits p s))
]

pub split_once-some :
    (p : ℕ) (s : Text) {a b : Text}
    → split_once p s ≡ some (a, b)
    → (s ≡ a ++ (p ∷ b)) × (any (λ c. c == p) a ≡ false)
split_once-some p s {a} {b} e = subst (Splits p s) e (split_once-Splits p s)

pub split_once-none : (p : ℕ) (s : Text) → split_once p s ≡ none → any (λ c. c == p) s ≡ false
split_once-none p s e = subst (Splits p s) e (split_once-Splits p s)

abbrev pub is_some {ℓ} : {A : Type ℓ} → Option A → Bool
is_some none = false
is_some (some a) = true

abbrev pub strip_suffix : ℕ → Text → Option Text
strip_suffix p [] = none
strip_suffix p (c ∷ []) = if c == p then some [] else none
strip_suffix p (c ∷ d ∷ s) = elim (strip_suffix p (d ∷ s)) [ none ↦ none | some t ↦ some (c ∷ t) ]

-- `bytes.starts_with(prefix)`
abbrev pub starts_with_bytes : Bytes → Bytes → Bool
starts_with_bytes prefix [] = is_nil prefix
starts_with_bytes [] (c ∷ bytes) = true
starts_with_bytes (p ∷ prefix) (c ∷ bytes) = p == c && starts_with_bytes prefix bytes
