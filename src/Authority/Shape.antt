-- ===== src/Authority/Shape.antt =====
-- The form of the texts that `validate_authority` accepts.
use salus_rs.Prelude.{
  ℕ, String, ◌≤◌, ◌<◌, ◌≡◌, ◌≢◌, refl, sym, ap, ◌∙◌, true, false, not, ◌&&◌, inl, inr, Option, none,
  some, [], ◌∷◌, ◌++◌, arith, ◌==◌, is_nil, Text, is_ipv6, strip_prefix, split_once, starts_with,
  Result, ok, Bool-cases, append-nil, any-append, subst,
}
use salus_rs.Authority.{
  PortPolicy, RawFormat, contains, validate_bracketed_host, raw_host_is_empty, explicit_port,
  validate_port, validate_authority,
}
use salus_rs.Authority.Port.{IsNumeral, number_of, validate_port-ok}
use salus_rs.Authority.Accepted.{IsAccepted, validate_authority_iff}
use salus_rs.Prelude.{split_once-some, split_once-none}

-- `port` behind a colon, or no port.
pub data IsPortPart : Text → Type 0 where
  no_port : IsPortPart []
  a_port :
      (port : Text)
      → IsNumeral port
      → 0 < number_of port
      → number_of port ≤ 65535
      → IsPortPart (b':' ∷ port)

-- `host`, `host:port`, `[ipv6]` or `[ipv6]:port`.
pub data IsHostPort (raw : Text) : Type 0 where
  named :
      (host suffix : Text)
      → raw ≡ host ++ suffix
      → host ≢ []
      → contains b':' host ≡ false
      → contains b'[' host ≡ false
      → contains b']' host ≡ false
      → IsPortPart suffix
      → IsHostPort raw
  address :
      (host suffix : Text)
      → raw ≡ b'[' ∷ (host ++ (b']' ∷ suffix))
      → is_ipv6 host ≡ true
      → contains b']' host ≡ false
      → IsPortPart suffix
      → IsHostPort raw

port_part : (port : Text) → ((n : ℕ) × (validate_port port ≡ ok n)) → IsPortPart (b':' ∷ port)
port_part port (n, v) =
    let (numeral, e, low, high) = validate_port-ok port v in
    a_port port numeral (omega arith) (omega arith)

suffix_part :
    (suffix : Text)
    → (not (is_nil suffix) && not (starts_with b':' suffix)) ≡ false
    → ((p : Text) → strip_prefix b':' suffix ≡ some p → (n : ℕ) × (validate_port p ≡ ok n))
    → IsPortPart suffix
suffix_part [] h v = no_port
suffix_part (c ∷ port) h v =
    let colon : (c == b':') ≡ true = ground arith in
    let e : c ≡ b':' = ground arith in
    subst (λ x. IsPortPart (x ∷ port)) (sym e) (port_part port (v port (rw colon)))

front_lacks : (c : ℕ) (a b : Text) → contains c (a ++ b) ≡ false → contains c a ≡ false
front_lacks c a b h = ground (arith, any-append (λ x. x == c) a b, h)

module _ {parse_authority : Text → Result Text Text} {policy : PortPolicy} {host : Text} where
  named_form :
      (raw : Text) (split : Option (Text × Text))
      → strip_prefix b'[' raw ≡ none
      → split_once b':' raw ≡ split
      → IsAccepted parse_authority policy raw host
      → IsHostPort raw
  unfolding explicit_port raw_host_is_empty validate_bracketed_host
  named_form raw none st sp a =
      let brackets = a.brackets in
      named raw [] (sym (append-nil raw)) (ground (arith, a.some_host))
        (split_once-none b':' raw sp) (ground (arith, st, brackets)) (ground (arith, st, brackets))
        no_port
  named_form raw (some (name, port)) st sp a =
      let (e, lacks) = split_once-some b':' raw sp in
      let brackets = a.brackets in
      let no_open : contains b'[' raw ≡ false = ground (arith, st, brackets) in
      let no_close : contains b']' raw ≡ false = ground (arith, st, brackets) in
      named name (b':' ∷ port) e (ground (arith, a.some_host)) lacks
        (front_lacks b'[' name (b':' ∷ port) (sym (ap (contains b'[') e) ∙ no_open))
        (front_lacks b']' name (b':' ∷ port) (sym (ap (contains b']') e) ∙ no_close))
        (port_part port (a.port port (rw (st, sp, explicit_port))))

  address_form :
      (rest : Text) (split : Option (Text × Text))
      → split_once b']' rest ≡ split
      → IsAccepted parse_authority policy (b'[' ∷ rest) host
      → IsHostPort (b'[' ∷ rest)
  unfolding explicit_port validate_bracketed_host
  address_form rest none sp a = absurd (ground (arith, a.brackets))
  address_form rest (some (ip, suffix)) sp a =
      address ip suffix (ap (λ t. b'[' ∷ t) (split_once-some b']' rest sp).0)
        (ground (arith, a.brackets)) (split_once-some b']' rest sp).1
        (suffix_part suffix (ground (arith, a.brackets))
          (λ p e. a.port p (rw (sp, explicit_port) e)))

  pub accepted_form : (raw : Text) → IsAccepted parse_authority policy raw host → IsHostPort raw
  accepted_form [] a = named_form [] none refl refl a
  accepted_form (c ∷ s) a = elim (Bool-cases (c == b'[')) [
    | inl open_bracket ↦
        let e : c ≡ b'[' = ground arith in
        subst IsHostPort (ap (λ x. x ∷ s) (sym e)) (
          address_form s (split_once b']' s) refl
            (subst (λ r. IsAccepted parse_authority policy r host) (ap (λ x. x ∷ s) e) a))
    | inr other ↦ named_form (c ∷ s) (split_once b':' (c ∷ s)) (rw other) refl a
  ]

-- Whatever the library's parser does, an accepted text has one of the forms `host`, `host:port`,
-- `[ipv6]` and `[ipv6]:port`, with a host that is not empty and a port from 1 to 65535.
pub validate_authority-IsHostPort :
    (parse_authority : Text → Result Text Text) (raw : Text) (label : String) (policy : PortPolicy)
    (format : RawFormat) {host : Text}
    → validate_authority parse_authority raw label policy format ≡ ok host
    → IsHostPort raw
validate_authority-IsHostPort parse_authority raw label policy format {host} h =
    accepted_form raw ((validate_authority_iff parse_authority raw label policy format host).0 h)
