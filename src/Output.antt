-- ===== src/Output.antt =====
-- output.rs: the line that a successful probe writes. The streams themselves are not modelled.
pub mod Quoted
use salus_rs.Prelude.{
  ℕ, ◌+◌, ◌-◌, ◌/◌, ◌%◌, Bool, true, false, not, ◌&&◌, Option, none, some, List, [], ◌∷◌, ◌++◌,
  ◌==◌, ltb, if◌then◌else◌, is_nil, Text, codes, is_control,
}
use salus_rs.Error.{Message, lit, display, number}
use salus_rs.Probe.{Success}

-- One digit of `{:X}`.
abbrev pub hex_digit : ℕ → ℕ
hex_digit n = if ltb n 10 then b'0' + n else b'A' + (n - 10)

-- `{:04X}` of a number below 65536; a control character is below 160.
abbrev pub hex4 : ℕ → Text
hex4 n =
    hex_digit (n / 4096)
    ∷ hex_digit ((n / 256) % 16)
    ∷ hex_digit ((n / 16) % 16)
    ∷ hex_digit (n % 16)
    ∷ []

-- One round of the loop of `quote_field_value`.
unfoldable pub escape : ℕ → Text
escape ch =
    if ch == b'\\'
    then b'\\' ∷ b'\\' ∷ []
    else if ch == b'"'
    then b'\\' ∷ b'"' ∷ []
    else if ch == 10
    then b'\\' ∷ b'n' ∷ []
    else if ch == 13
    then b'\\' ∷ b'r' ∷ []
    else if ch == 9
    then b'\\' ∷ b't' ∷ []
    else if is_control ch
    then b'\\' ∷ b'u' ∷ b'{' ∷ (hex4 ch ++ (b'}' ∷ []))
    else ch ∷ []

unfoldable pub escape_all : Text → Text
escape_all [] = []
escape_all (ch ∷ value) = escape ch ++ escape_all value

unfoldable pub quote_field_value : Text → Text
quote_field_value value = b'"' ∷ (escape_all value ++ (b'"' ∷ []))

detail_field : Option Text → Message
detail_field none = []
detail_field (some detail) =
    if not (is_nil detail) then lit " detail=" ∷ display (quote_field_value detail) ∷ [] else []

-- `mode` is one of the five static names.
unfoldable pub format_success : Success → Message
unfolding detail_field
format_success s =
    lit "result=healthy mode="
    ∷ lit s.mode
    ∷ lit " target="
    ∷ display (quote_field_value s.target)
    ∷ lit " duration_ms="
    ∷ number s.duration_ms
    ∷ detail_field s.detail
