-- ===== src/Authority/Grammar.antt =====
-- The texts that `validate_authority` accepts, by their form.
use salus_rs.Prelude.{
  ℕ, String, ◌≤◌, ◌<◌, ◌≡◌, ◌↔◌, refl, sym, ap, ◌∙◌, subst, true, false, not, ◌&&◌, none, some, [],
  ◌∷◌, ◌++◌, arith, ◌==◌, is_nil, is_none, all, any, any-append, append-nil, Text, is_ascii,
  is_ipv6, is_ipv6-colons, colons, strip_prefix, split_once, starts_with, Result, ok,
}
use salus_rs.Authority.{
  PortPolicy, is_required, RawFormat, contains, is_unsafe, validate_bracketed_host,
  raw_host_is_empty, explicit_port, is_unbracketed_ipv6_authority, validate_port,
  validate_authority,
}
use salus_rs.Authority.Port.{IsNumeral, number_of, validate_port_lem}
use salus_rs.Authority.Colons.{colons-append, lacks-colons, few_colons-eq, port_part-lacks}
use salus_rs.Authority.Accepted.{IsAccepted, is_delimiter, validate_authority_iff}
use salus_rs.Authority.Shape.{
  IsPortPart, no_port, a_port, IsHostPort, named, address, accepted_form,
}

pub split_once-at :
    (p : ℕ) (a b : Text) → contains p a ≡ false → split_once p (a ++ (p ∷ b)) ≡ some (a, b)
split_once-at p [] b h = ground arith
split_once-at p (c ∷ a) b h = ground (arith, h, split_once-at p a b)

pub split_once-nowhere : (p : ℕ) (a : Text) → contains p a ≡ false → split_once p a ≡ none
split_once-nowhere p [] h = refl
split_once-nowhere p (c ∷ a) h = ground (arith, h, split_once-nowhere p a)

-- What the checks of the form ask.
record Passes (raw : Text) : Type 0 where
  brackets : validate_bracketed_host raw ≡ ok tt
  no_bare_ipv6 : is_unbracketed_ipv6_authority raw ≡ false
  some_host : raw_host_is_empty raw ≡ false
  port : (p : Text) → explicit_port raw ≡ some p → (n : ℕ) × (validate_port p ≡ ok n)

port_passes :
    (port : Text)
    → IsNumeral port
    → 0 < number_of port
    → number_of port ≤ 65535
    → (p : Text) → some port ≡ some p
    → (n : ℕ) × (validate_port p ≡ ok n)
port_passes port numeral low high p e =
    subst (λ q. (n : ℕ) × (validate_port q ≡ ok n)) (cc e)
      (number_of port, (validate_port_lem port).2 numeral low high)

-- The host ends at the colon of the port, or with the text.
host_and_port :
    (c : ℕ) (s suffix : Text)
    → (c == b'[') ≡ false
    → contains b':' (c ∷ s) ≡ false
    → IsPortPart suffix
    → (raw_host_is_empty ((c ∷ s) ++ suffix) ≡ false)
      × ((p : Text)
          → explicit_port ((c ∷ s) ++ suffix) ≡ some p
          → (n : ℕ) × (validate_port p ≡ ok n))
unfolding raw_host_is_empty explicit_port
host_and_port c s _ starts no_colon no_port =
    let whole : contains b':' ((c ∷ s) ++ []) ≡ false =
      ap (contains b':') (append-nil (c ∷ s)) ∙ no_colon in
    let split = split_once-nowhere b':' ((c ∷ s) ++ []) whole in
    (ground (arith, starts, split), λ p e. absurd (ground (arith, starts, split, e)))
host_and_port c s _ starts no_colon (a_port port numeral low high) =
    let split = split_once-at b':' (c ∷ s) port no_colon in
    (
      ground (arith, starts, split),
      λ p e. port_passes port numeral low high p (ground (arith, starts, split, e)),
    )

named-Passes :
    (c : ℕ) (s suffix : Text)
    → contains b':' (c ∷ s) ≡ false
    → contains b'[' (c ∷ s) ≡ false
    → contains b']' (c ∷ s) ≡ false
    → IsPortPart suffix
    → Passes ((c ∷ s) ++ suffix)
unfolding validate_bracketed_host
named-Passes c s suffix no_colon no_open no_close part =
    let (open_lacks, close_lacks, few) = port_part-lacks suffix part in
    let raw = (c ∷ s) ++ suffix in
    let starts : (c == b'[') ≡ false = ground (arith, no_open) in
    let all_open : contains b'[' raw ≡ false =
      any-append (λ x. x == b'[') (c ∷ s) suffix ∙ ground (arith, no_open, open_lacks) in
    let all_close : contains b']' raw ≡ false =
      any-append (λ x. x == b']') (c ∷ s) suffix ∙ ground (arith, no_close, close_lacks) in
    let none_first = lacks-colons (c ∷ s) no_colon in
    let few_in_all : colons raw ≤ 1 =
      let sum = colons-append (c ∷ s) suffix in omega (arith, sum, none_first, few) in
    let (some_host, port) = host_and_port c s suffix starts no_colon part in
    record {
      brackets = ground (arith, starts, all_open, all_close);
      no_bare_ipv6 = few_colons-eq raw few_in_all;
      some_host = some_host;
      port = port;
    }

suffix_passes :
    (suffix : Text)
    → IsPortPart suffix
    → ((not (is_nil suffix) && not (starts_with b':' suffix)) ≡ false)
      × ((p : Text) → strip_prefix b':' suffix ≡ some p → (n : ℕ) × (validate_port p ≡ ok n))
suffix_passes _ no_port = (refl, λ p e. cc e)
suffix_passes _ (a_port port numeral low high) = (refl, port_passes port numeral low high)

address-Passes :
    (host suffix : Text)
    → is_ipv6 host ≡ true
    → contains b']' host ≡ false
    → IsPortPart suffix
    → Passes (b'[' ∷ (host ++ (b']' ∷ suffix)))
unfolding validate_bracketed_host raw_host_is_empty explicit_port is_unbracketed_ipv6_authority
address-Passes [] suffix ipv6 no_close part =
    absurd (let many = is_ipv6-colons [] ipv6 in omega (arith, many))
address-Passes (c ∷ s) suffix ipv6 no_close part =
    let split = split_once-at b']' (c ∷ s) suffix no_close in
    let (shape, port) = suffix_passes suffix part in
    record {
      brackets = ground (arith, split, ipv6, shape);
      no_bare_ipv6 = ground arith;
      some_host = ground (arith, no_close);
      port = λ p e. port p (ground (arith, split, e));
    }

form-Passes : (raw : Text) → IsHostPort raw → Passes raw
form-Passes raw (named [] suffix e some_host no_colon no_open no_close part) =
    absurd (some_host refl)
form-Passes raw (named (c ∷ s) suffix e some_host no_colon no_open no_close part) =
    subst Passes (sym e) (named-Passes c s suffix no_colon no_open no_close part)
form-Passes raw (address host suffix e ipv6 no_close part) =
    subst Passes (sym e) (address-Passes host suffix ipv6 no_close part)

module _ (parse_authority : Text → Result Text Text) (policy : PortPolicy) where
  -- The characters, the form, and what the parser of the library says.
  pub record IsAuthority (raw host : Text) : Type 0 where
    pub safe : any is_unsafe raw ≡ false
    pub ascii : all is_ascii raw ≡ true
    pub no_user : contains b'@' raw ≡ false
    pub no_path : any is_delimiter raw ≡ false
    pub form : IsHostPort raw
    pub parsed : parse_authority raw ≡ ok host
    pub host_ne_nil : is_nil host ≡ false
    pub has_port : is_required policy ≡ true → is_none (explicit_port raw) ≡ false

  IsAuthority-IsAccepted :
      {raw host : Text} → IsAuthority raw host → IsAccepted parse_authority policy raw host
  IsAuthority-IsAccepted {raw} a =
      let passes = form-Passes raw a.form in
      record {
        safe = a.safe;
        ascii = a.ascii;
        no_user = a.no_user;
        no_path = a.no_path;
        brackets = passes.brackets;
        no_bare_ipv6 = passes.no_bare_ipv6;
        some_host = passes.some_host;
        port = passes.port;
        parsed = a.parsed;
        host_ne_nil = a.host_ne_nil;
        has_port = a.has_port;
      }

  IsAccepted-IsAuthority :
      {raw host : Text} → IsAccepted parse_authority policy raw host → IsAuthority raw host
  IsAccepted-IsAuthority {raw} a = record {
    safe = a.safe;
    ascii = a.ascii;
    no_user = a.no_user;
    no_path = a.no_path;
    form = accepted_form raw a;
    parsed = a.parsed;
    host_ne_nil = a.host_ne_nil;
    has_port = a.has_port;
  }

  -- A text is accepted exactly when it has one of the forms `host`, `host:port`, `[ipv6]` and
  -- `[ipv6]:port`, with a host that is not empty and a port from 1 to 65535; holds no blank, control or
  -- foreign character, backslash, quote, `@`, `/`, `?` or `#`; has a port where one is required; and is
  -- parsed to a host by the library.
  pub validate_authority-IsAuthority :
      (raw : Text) (label : String) (format : RawFormat) (host : Text)
      → (validate_authority parse_authority raw label policy format ≡ ok host)
        ↔ IsAuthority raw host
  validate_authority-IsAuthority raw label format host =
      let (sound, complete) = validate_authority_iff parse_authority raw label policy format host in
      (λ h. IsAccepted-IsAuthority (sound h), λ a. complete (IsAuthority-IsAccepted a))
