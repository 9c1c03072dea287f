-- ===== src/Probes/Http/Target/Addressed.antt =====
-- Whom a request to a URL is sent to, and what it names.
use salus_rs.Prelude.{
  ℕ, ◌≡◌, ◌≢◌, refl, sym, ap, ◌∙◌, subst, Bool, false, Option, none, some, is_nil, [], ◌∷◌, arith,
  ◌==◌, Text, codes, ok, ok-injective, >>=-eq-ok, map_err-ok, ok_or, refuse_if, Bool-cases,
  Option-cases, inl, inr,
}
use salus_rs.Error.{display, lit, number}
use salus_rs.Validation.{validate_non_empty_str}
use salus_rs.Probes.Http.Args.{HttpArgs}
use salus_rs.Probes.Http.Url.{raw_url_scheme, canonical_http_scheme}
use salus_rs.Probes.Http.Target.{UriAuthority, UriLibrary, UrlTarget, scheme_text, default_port}
use salus_rs.Probes.Http.Target.Prepare.{
  parse_url, url_authority, default_host_header, explicit_host_header, validate_host_header,
  own_header, own_host_header, absolute_uri, request_uri_for, url_target_at, url_target_of,
  prepare_url_target,
}
use salus_rs.Probes.Http.Target.Checked.{checked}

given : {E A : Type 0} (o : Option A) (e : E) {a : A} → ok_or o e ≡ ok a → o ≡ some a
given none e h = absurd (ground (arith, h))
given (some b) e h = ap some (ok-injective h)

module _ {Uri : Type 0} (lib : UriLibrary Uri) (webpki : Bool) where
  -- The host of a URL as a header field names it: without the port that is the scheme's own.
  pub data IsOwnHost (authority : UriAuthority) (https : Bool) (host : Text) : Type 0 where
    no_port : authority.port_u16 ≡ none → host ≡ authority.host → IsOwnHost authority https host
    own_port :
        authority.port_u16 ≡ some (default_port https)
        → host ≡ authority.host
        → IsOwnHost authority https host
    other_port :
        (port : ℕ)
        → authority.port_u16 ≡ some port
        → port ≢ default_port https
        → host ≡ lib.render (display authority.host ∷ lit ":" ∷ number port ∷ [])
        → IsOwnHost authority https host

  abbrev pub path_of : Uri → Text
  path_of uri = elim (lib.path_and_query uri) [ none ↦ codes "/" | some text ↦ text ]

  -- What the request names: the host that is given, or that of the URL.
  abbrev pub Names : Option Text → Uri → UriAuthority → UrlTarget Uri → Type 0
  Names (some host) uri authority target =
      (target.host ≡ host)
      × (lib.build (scheme_text target.uses_tls) host (path_of uri) ≡ ok target.request_uri)
  Names none uri authority target =
      IsOwnHost authority target.uses_tls target.host × (target.request_uri ≡ target.connect_uri)

  pub record Addresses (raw : Text) (host : Option Text) (target : UrlTarget Uri) : Type 0 where
    pub uri : Uri
    pub authority : UriAuthority
    pub parsed : lib.parse raw ≡ ok uri
    pub has_authority : lib.authority uri ≡ some authority
    pub has_host : is_nil authority.host ≡ false
    pub connects :
        lib.build (scheme_text target.uses_tls) authority.text (path_of uri) ≡ ok target.connect_uri
    pub names : Names host uri authority target

  own_header-IsOwnHost :
      (authority : UriAuthority) (https : Bool)
      → IsOwnHost authority https (own_header lib webpki authority https)
  unfolding own_header
  own_header-IsOwnHost authority https = elim (Option-cases authority.port_u16) [
    | inl e ↦ no_port e (ground (arith, e))
    | inr (port, e) ↦ elim (Bool-cases (port == default_port https)) [
      | inl same ↦ own_port (e ∙ ap some (ground (arith, same))) (ground (arith, e, same))
      | inr differs ↦
          other_port port e (λ same. ground (arith, same, differs)) (ground (arith, e, differs))
    ]
  ]

  absolute_uri-ok :
      (uri : Uri) (https : Bool) (authority : Text) {built : Uri}
      → absolute_uri lib webpki uri https authority ≡ ok built
      → lib.build (scheme_text https) authority (path_of uri) ≡ ok built
  unfolding absolute_uri
  absolute_uri-ok uri https authority h =
      map_err-ok _ (lib.build (scheme_text https) authority (path_of uri)) h

  authority-ok :
      (uri : Uri) {authority : UriAuthority}
      → url_authority lib webpki uri ≡ ok authority
      → (lib.authority uri ≡ some authority) × (is_nil authority.host ≡ false)
  unfolding url_authority
  authority-ok uri {authority} h =
      let (found, there, h1) = >>=-eq-ok (ok_or (lib.authority uri) _) _ h in
      let (_, host, h2) = >>=-eq-ok (refuse_if (is_nil found.host) _) _ h1 in
      let same : found ≡ authority = ok-injective h2 in
      (
        given (lib.authority uri) _ there ∙ ap some same,
        subst (λ a. is_nil a.host ≡ false) same (ground (arith, host)),
      )

  module _ (args : HttpArgs) (raw : Text) (https : Bool) (uri : Uri)
      (authority : UriAuthority) where
    abbrev made : Text → Uri → Uri → UrlTarget Uri
    made host connect_uri request_uri = record {
      label = raw;
      request_uri = request_uri;
      connect_uri = connect_uri;
      host = host;
      uses_tls = https;
    }

    names_lem :
        (o : Option Text) (host : Text) (connect_uri request_uri : Uri)
        → args.host ≡ o
        → lib.authority uri ≡ some authority
        → default_host_header lib webpki uri o https ≡ ok host
        → request_uri_for lib webpki args https uri connect_uri host ≡ ok request_uri
        → Names o uri authority (made host connect_uri request_uri)
    unfolding default_host_header explicit_host_header request_uri_for own_host_header
    names_lem none host connect_uri request_uri e there named requested =
        let (found, taken, h1) = >>=-eq-ok (ok_or (lib.authority uri) _) _ named in
        let (_, valid, h2) =
          >>=-eq-ok (validate_host_header lib webpki (own_header lib webpki found https)) _ h1 in
        let same : found ≡ authority = ground (arith, given (lib.authority uri) _ taken, there) in
        (
          subst (IsOwnHost authority https)
              (ap (λ a. own_header lib webpki a https) (sym same) ∙ ok-injective h2)
              (own_header-IsOwnHost authority https),
          sym (ok-injective (sym (rw e refl) ∙ requested)),
        )
    names_lem (some given_host) host connect_uri request_uri e there named requested =
        let (_, filled, h1) = >>=-eq-ok (validate_non_empty_str "--host" given_host) _ named in
        let (_, valid, h2) = >>=-eq-ok (validate_host_header lib webpki given_host) _ h1 in
        let same : host ≡ given_host = sym (ok-injective h2) in
        (
          same,
          subst (λ h. lib.build (scheme_text https) h (path_of uri) ≡ ok request_uri) same
              (absolute_uri-ok uri https host (sym (rw e refl) ∙ requested)),
        )

  url_target_of-Addresses :
      (args : HttpArgs) (raw : Text) (https : Bool) {target : UrlTarget Uri}
      → url_target_of lib webpki args raw https ≡ ok target
      → Addresses raw args.host target
  unfolding url_target_of url_target_at parse_url
  url_target_of-Addresses args raw https {target} h =
      let (uri, parsed, h1) = >>=-eq-ok (parse_url lib webpki raw) _ h in
      let (authority, found, h2) = >>=-eq-ok (url_authority lib webpki uri) _ h1 in
      let (host, named, h3) = >>=-eq-ok (default_host_header lib webpki uri args.host https) _ h2 in
      let (connect_uri, connects, h4) =
        >>=-eq-ok (absolute_uri lib webpki uri https authority.text) _ h3 in
      let (request_uri, requested, h5) =
        >>=-eq-ok (request_uri_for lib webpki args https uri connect_uri host) _ h4 in
      let (there, has_host) = authority-ok uri found in
      subst (Addresses raw args.host) (ok-injective h5) (record {
        uri = uri;
        authority = authority;
        parsed = map_err-ok _ (lib.parse raw) parsed;
        has_authority = there;
        has_host = has_host;
        connects = absolute_uri-ok uri https authority.text connects;
        names =
            names_lem args raw https uri authority args.host host connect_uri request_uri refl there
              named requested;
      })

  -- The probe connects to the authority of the URL, with or without a host of its own for the request. The
  -- request names that host if one is given; otherwise it names that of the URL, without a port that is
  -- the scheme's own, and is for the URI that the probe connects to.
  pub prepare_url_target-Addresses :
      (args : HttpArgs) (raw : Text) {target : UrlTarget Uri}
      → prepare_url_target lib webpki args raw ≡ ok target
      → Addresses raw args.host target
  prepare_url_target-Addresses args raw h =
      let (scheme, _, built) = checked lib webpki args raw (raw_url_scheme raw) refl h in
      url_target_of-Addresses args raw (canonical_http_scheme scheme) built
