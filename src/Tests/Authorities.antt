-- ===== src/Tests/Authorities.antt =====
-- Tests of authority.rs.
use salus_rs.Prelude.{
  ◌≡◌, ◌↔◌, ◌⊎◌, ◌<◌, ◌≤◌, refl, true, false, none, some, [], ◌∷◌, Text, codes, Result, ok, err,
  is_ipv6, parse_unsigned, String,
}
use salus_rs.Error.{AppResult, invalid_config, lit, display}
use salus_rs.Diagnostic.{value}
use salus_rs.Authority.{
  PortPolicy, required, as_display, not_integer, out_of_range, explicit_port, validate_port,
  validate_authority, validate_authority_text, raw_host_is_empty, is_unbracketed_ipv6_authority,
  validate_bracketed_host, check_port, invalid_authority,
}
use salus_rs.Authority.Port.{IsNumeral, number_of, validate_port_lem}
use salus_rs.Authority.Grammar.{IsAuthority, validate_authority-IsAuthority}
use salus_rs.Authority.Shape.{IsHostPort, validate_authority-IsHostPort}

addresses :
    (is_ipv6 (codes "::1") ≡ true)
    × (is_ipv6 (codes "2001:db8::1") ≡ true)
    × (is_ipv6 (codes "1:2:3:4:5:6:7:8") ≡ true)
    × (is_ipv6 (codes "::ffff:1.2.3.4") ≡ true)
    × (is_ipv6 (codes "1::2::3") ≡ false)
    × (is_ipv6 (codes "12345::") ≡ false)
    × (is_ipv6 (codes "example.com") ≡ false)
    × (is_ipv6 [] ≡ false)
unfolding is_ipv6
addresses = (refl, refl, refl, refl, refl, refl, refl, refl)

explicit_ports :
    (explicit_port (codes "[::1]:8080") ≡ some (codes "8080"))
    × (explicit_port (codes "[::1]") ≡ none)
    × (explicit_port (codes "[::1]:80:90") ≡ some (codes "80:90"))
unfolding explicit_port
explicit_ports = (refl, refl, refl)

ports :
    (validate_port (codes "bad") ≡ err not_integer)
    × (validate_port (codes "65536") ≡ err out_of_range)
    × (validate_port (codes "0080") ≡ ok 80)
unfolding validate_port parse_unsigned
ports = (refl, refl, refl)

-- A parser that takes the whole text for the host.
abbrev parse_authority : Text → Result Text Text
parse_authority raw = ok raw

abbrev check : String → PortPolicy → AppResult Text
check raw policy = validate_authority parse_authority (codes raw) "TCP address" policy as_display

rejects :
    (check "localhost" required
      ≡ err (
          invalid_config (
            lit "invalid "
            ∷ lit "TCP address"
            ∷ lit " "
            ∷ display (codes "localhost")
            ∷ lit ": "
            ∷ lit "port is required"
            ∷ [])))
    × (check "2001:db8::1:80" required
        ≡ err (
            invalid_authority "TCP address"
              (codes "2001:db8::1:80")
              as_display
              (lit "IPv6 addresses must be enclosed in brackets")))
    × (check "[::1:80" required
        ≡ err (
            invalid_authority "TCP address"
              (codes "[::1:80")
              as_display
              (lit "bracketed host is missing closing ]")))
unfolding validate_authority validate_authority_text validate_bracketed_host
    is_unbracketed_ipv6_authority raw_host_is_empty explicit_port check_port is_ipv6
    invalid_authority value
rejects = (refl, refl, refl)

abbrev raw : Text
raw = codes "[::1]:8080"

accepts : validate_authority parse_authority raw "TCP address" required as_display ≡ ok raw
unfolding validate_authority validate_authority_text validate_bracketed_host
    is_unbracketed_ipv6_authority raw_host_is_empty explicit_port check_port is_ipv6 validate_port
    parse_unsigned
accepts = refl

validate_port_lem_example :
    (¬ IsNumeral (codes "8080") → validate_port (codes "8080") ≡ err not_integer)
    × (IsNumeral (codes "8080")
        → (number_of (codes "8080") ≡ 0) ⊎ (65535 < number_of (codes "8080"))
        → validate_port (codes "8080") ≡ err out_of_range)
    × (IsNumeral (codes "8080")
        → 0 < number_of (codes "8080")
        → number_of (codes "8080") ≤ 65535
        → validate_port (codes "8080") ≡ ok (number_of (codes "8080")))
validate_port_lem_example = validate_port_lem (codes "8080")

validate_authority-IsAuthority_example :
    (validate_authority parse_authority raw "TCP address" required as_display ≡ ok raw)
    ↔ IsAuthority parse_authority required raw raw
validate_authority-IsAuthority_example =
    validate_authority-IsAuthority parse_authority required raw "TCP address" as_display raw

has_a_host_and_a_port : IsHostPort raw
has_a_host_and_a_port =
    validate_authority-IsHostPort parse_authority raw "TCP address" required as_display accepts
