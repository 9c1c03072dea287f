-- ===== src/Authority/Accepted.antt =====
-- What `validate_authority` accepts.
use salus_rs.Prelude.{
  ℕ, String, ◌≡◌, refl, ◌↔◌, Bool, true, false, ◌||◌, Option, none, some, arith, ◌==◌, is_nil, all,
  any, Text, is_ascii, is_none, Result, ok, err,
}
use salus_rs.Authority.{
  PortPolicy, PortError, is_required, RawFormat, contains, is_unsafe, validate_authority_text,
  validate_bracketed_host, is_unbracketed_ipv6_authority, raw_host_is_empty, explicit_port,
  check_port, validate_port, validate_authority,
}

abbrev pub is_delimiter : ℕ → Bool
is_delimiter c = c == b'/' || c == b'?' || c == b'#'

-- Every check, with what the parser of the library says.
pub record IsAccepted (parse_authority : Text → Result Text Text) (policy : PortPolicy)
    (raw host : Text) : Type 0 where
  pub safe : any is_unsafe raw ≡ false
  pub ascii : all is_ascii raw ≡ true
  pub no_user : contains b'@' raw ≡ false
  pub no_path : any is_delimiter raw ≡ false
  pub brackets : validate_bracketed_host raw ≡ ok tt
  pub no_bare_ipv6 : is_unbracketed_ipv6_authority raw ≡ false
  pub some_host : raw_host_is_empty raw ≡ false
  pub port : (p : Text) → explicit_port raw ≡ some p → (n : ℕ) × (validate_port p ≡ ok n)
  pub parsed : parse_authority raw ≡ ok host
  pub host_ne_nil : is_nil host ≡ false
  pub has_port : is_required policy ≡ true → is_none (explicit_port raw) ≡ false

check_port-ok :
    (o : Option Text)
    → check_port o ≡ ok tt
    → (p : Text) → o ≡ some p
    → (n : ℕ) × (validate_port p ≡ ok n)
unfolding check_port
check_port-ok none h p e = cc
check_port-ok (some q) h p e = valid (validate_port q) refl
  where
    valid : (r : Result PortError ℕ) → validate_port q ≡ r → (n : ℕ) × (validate_port p ≡ ok n)
    valid (ok n) v = (n, ground arith)
    valid (err x) v = ground arith

ok-check_port :
    (o : Option Text)
    → ((p : Text) → o ≡ some p → (n : ℕ) × (validate_port p ≡ ok n))
    → check_port o ≡ ok tt
unfolding check_port
ok-check_port none h = refl
ok-check_port (some q) h = rw ((h q refl).1)

module _ (parse_authority : Text → Result Text Text) (raw : Text) (label : String)
    (policy : PortPolicy) (format : RawFormat) where
  IsAccepted-of_ok :
      {host : Text}
      → validate_authority parse_authority raw label policy format ≡ ok host
      → IsAccepted parse_authority policy raw host
  unfolding validate_authority validate_authority_text
  IsAccepted-of_ok {host} h = record {
    safe = ground arith;
    ascii = ground arith;
    no_user = ground arith;
    no_path = ground arith;
    brackets = ground arith;
    no_bare_ipv6 = ground arith;
    some_host = ground arith;
    port = check_port-ok (explicit_port raw) (ground arith);
    parsed = ground arith;
    host_ne_nil = ground arith;
    has_port = ground arith;
  }

  ok_of_accepted :
      {host : Text}
      → IsAccepted parse_authority policy raw host
      → validate_authority parse_authority raw label policy format ≡ ok host
  unfolding validate_authority validate_authority_text
  ok_of_accepted {host} a = ground (arith, ok-check_port (explicit_port raw) a.port)

-- A text is accepted exactly when it passes every check and the library parses it to a host.
pub validate_authority_iff :
    (parse_authority : Text → Result Text Text) (raw : Text) (label : String) (policy : PortPolicy)
    (format : RawFormat) (host : Text)
    → (validate_authority parse_authority raw label policy format ≡ ok host)
      ↔ IsAccepted parse_authority policy raw host
validate_authority_iff parse_authority raw label policy format host = (
  IsAccepted-of_ok parse_authority raw label policy format,
  ok_of_accepted parse_authority raw label policy format,
)
