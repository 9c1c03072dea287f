-- ===== src/Output/Quoted.antt =====
-- A quoted field stays on its line, and is read back.
use salus_rs.Prelude.{
  ℕ, ◌+◌, ◌-◌, ◌*◌, ◌/◌, ◌%◌, ◌<◌, ◌≡◌, refl, sym, ap, ◌∙◌, subst, true, false, Option, none, some,
  [], ◌∷◌, ◌++◌, append_assoc, arith, leb, ◌==◌, ==_iff, if◌then◌else◌, any, any-append, Text,
  is_control, Bool-cases, inl, inr,
}
use salus_rs.Output.{hex_digit, hex4, escape, escape_all, quote_field_value}

-- What the letter behind a backslash stands for, and the digit in braces.
abbrev letter_value : ℕ → ℕ
letter_value l = if l == b'n' then 10 else if l == b'r' then 13 else if l == b't' then 9 else l

abbrev hex_value : ℕ → ℕ
hex_value c = if leb c b'9' then c - b'0' else c - b'A' + 10

-- A reader of quoted fields, with the place where it is: in the value, behind a backslash, behind the
-- letter `u`, or in the braces with a number so far.
pub data Place : Type 0 where
  inside : Place
  behind_backslash : Place
  behind_letter : Place
  in_braces : ℕ → Place

abbrev pub push : ℕ → Option (Text × Text) → Option (Text × Text)
push c none = none
push c (some (value, rest)) = some (c ∷ value, rest)

-- The value up to the closing quote, and what follows that.
unfoldable pub read_value : Place → Text → Option (Text × Text)
read_value place [] = none
read_value inside (c ∷ s) = elim (c == b'"') [
  | true ↦ some ([], s)
  | false ↦ elim (c == b'\\') [
    | true ↦ read_value behind_backslash s
    | false ↦ push c (read_value inside s)
  ]
]
read_value behind_backslash (c ∷ s) = elim (c == b'u') [
  | true ↦ read_value behind_letter s
  | false ↦ push (letter_value c) (read_value inside s)
]
read_value behind_letter (brace ∷ s) = read_value (in_braces 0) s
read_value (in_braces n) (c ∷ s) = elim (c == b'}') [
  | true ↦ push n (read_value inside s)
  | false ↦ read_value (in_braces (n * 16 + hex_value c)) s
]

unfoldable pub read_quoted : Text → Option (Text × Text)
read_quoted [] = none
read_quoted (quote ∷ s) = read_value inside s

hex_value-hex_digit : (n : ℕ) → n < 16 → hex_value (hex_digit n) ≡ n
hex_value-hex_digit n h = ground arith

-- The three forms of an escape.
data View (ch : ℕ) : Text → Type 0 where
  short :
      (letter : ℕ)
      → (letter == b'u') ≡ false
      → letter_value letter ≡ ch
      → is_control letter ≡ false
      → View ch (b'\\' ∷ letter ∷ [])
  hex : ch < 65536 → View ch (b'\\' ∷ b'u' ∷ b'{' ∷ (hex4 ch ++ (b'}' ∷ [])))
  plain : (ch == b'"') ≡ false → (ch == b'\\') ≡ false → is_control ch ≡ false → View ch (ch ∷ [])

short_form :
    (ch code letter : ℕ)
    → (ch == code) ≡ true
    → (letter == b'u') ≡ false
    → letter_value letter ≡ code
    → is_control letter ≡ false
    → escape code ≡ b'\\' ∷ letter ∷ []
    → View ch (escape ch)
short_form ch code letter e not_u value visible form =
    subst (λ c. View c (escape c)) (sym ((==_iff ch code).0 e))
      (subst (View code) (sym form) (short letter not_u value visible))

view : (ch : ℕ) → View ch (escape ch)
unfolding escape
view ch = elim (Bool-cases (ch == b'\\')) [
  | inl e ↦ short_form ch b'\\' b'\\' e refl refl refl refl
  | inr e0 ↦ elim (Bool-cases (ch == b'"')) [
    | inl e ↦ short_form ch b'"' b'"' e refl refl refl refl
    | inr e1 ↦ elim (Bool-cases (ch == 10)) [
      | inl e ↦ short_form ch 10 b'n' e refl refl refl refl
      | inr e2 ↦ elim (Bool-cases (ch == 13)) [
        | inl e ↦ short_form ch 13 b'r' e refl refl refl refl
        | inr e3 ↦ elim (Bool-cases (ch == 9)) [
          | inl e ↦ short_form ch 9 b't' e refl refl refl refl
          | inr e4 ↦ elim (Bool-cases (is_control ch)) [
            | inl control ↦ rw (e0, e1, e2, e3, e4, control, escape) (hex (ground (arith, control)))
            | inr visible ↦ rw (e0, e1, e2, e3, e4, visible, escape) (plain e1 e0 visible)
          ]
        ]
      ]
    ]
  ]
]

digit_inside : (n : ℕ) → n < 16 → (hex_digit n == b'}') ≡ false
digit_inside n h = ground arith

in_braces_lem :
    (m n : ℕ) (s : Text)
    → n < 16
    → read_value (in_braces m) (hex_digit n ∷ s) ≡ read_value (in_braces (m * 16 + n)) s
unfolding read_value
in_braces_lem m n s h = rw (digit_inside n h, hex_value-hex_digit n h, read_value) refl

read_value-hex4 :
    (ch : ℕ) (rest : Text)
    → ch < 65536
    → read_value (in_braces 0) (hex4 ch ++ (b'}' ∷ rest)) ≡ push ch (read_value inside rest)
unfolding read_value
read_value-hex4 ch rest small =
    let together : (((0 * 16 + ch / 4096) * 16 + (ch / 256) % 16) * 16 + (ch / 16) % 16) * 16
          + ch % 16
        ≡ ch =
      omega (arith, small) in
    let close = b'}' ∷ rest in
    let units = hex_digit (ch % 16) ∷ close in
    let tens = hex_digit ((ch / 16) % 16) ∷ units in
    let hundreds = hex_digit ((ch / 256) % 16) ∷ tens in
    let first = 0 * 16 + ch / 4096 in
    let second = first * 16 + (ch / 256) % 16 in
    let third = second * 16 + (ch / 16) % 16 in
    in_braces_lem 0 (ch / 4096) hundreds (omega (arith, small))
    ∙ in_braces_lem first ((ch / 256) % 16) tens (omega arith)
    ∙ in_braces_lem second ((ch / 16) % 16) units (omega arith)
    ∙ in_braces_lem third (ch % 16) close (omega arith)
    ∙ ap (λ n. push n (read_value inside rest)) together

read_value-View :
    (ch : ℕ) (t rest : Text)
    → View ch t
    → read_value inside (t ++ rest) ≡ push ch (read_value inside rest)
unfolding read_value
read_value-View ch t rest (short letter not_u value visible) = rw (not_u, value, read_value) refl
read_value-View ch t rest (hex small) = read_value-hex4 ch rest small
read_value-View ch t rest (plain no_quote e visible) = rw (no_quote, e, read_value) refl

digit_visible : (n : ℕ) → n < 16 → is_control (hex_digit n) ≡ false
digit_visible n h = ground arith

View-visible : (ch : ℕ) (t : Text) → View ch t → any is_control t ≡ false
View-visible ch t (short letter not_u value visible) = rw visible
View-visible ch t (hex small) = rw (
  digit_visible (ch / 4096) (omega (arith, small)),
  digit_visible ((ch / 256) % 16) (omega arith),
  digit_visible ((ch / 16) % 16) (omega arith),
  digit_visible (ch % 16) (omega arith),
)
View-visible ch t (plain no_quote e visible) = rw visible

escape_all-visible : (value : Text) → any is_control (escape_all value) ≡ false
unfolding escape_all
escape_all-visible [] = refl
escape_all-visible (ch ∷ value) =
    any-append is_control (escape ch) (escape_all value)
    ∙ rw (View-visible ch (escape ch) (view ch), escape_all-visible value)

read_value-escape_all :
    (value rest : Text) → read_value inside (escape_all value ++ (b'"' ∷ rest)) ≡ some (value, rest)
unfolding escape_all read_value
read_value-escape_all [] rest = refl
read_value-escape_all (ch ∷ value) rest =
    ap (read_value inside) (append_assoc (escape ch) (escape_all value) (b'"' ∷ rest))
    ∙ read_value-View ch (escape ch) (escape_all value ++ (b'"' ∷ rest)) (view ch)
    ∙ ap (push ch) (read_value-escape_all value rest)

-- A quoted field has no control character, and a reader that undoes the escapes gets the value back,
-- and what follows the field: nothing in a value ends its field or its line.
pub quote_field_value-read_quoted :
    (value rest : Text)
    → (read_quoted (quote_field_value value ++ rest) ≡ some (value, rest))
      × (any is_control (quote_field_value value) ≡ false)
unfolding quote_field_value read_quoted
quote_field_value-read_quoted value rest = (
  ap (read_value inside) (append_assoc (escape_all value) (b'"' ∷ []) rest)
      ∙ read_value-escape_all value rest,
  any-append is_control (escape_all value) (b'"' ∷ []) ∙ rw (escape_all-visible value),
)
