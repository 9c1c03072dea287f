-- ===== src/Probes/Http/Target/Checked.antt =====
-- A URL that the probe takes has the form of an HTTP URL.
use salus_rs.Prelude.{
  ◌≡◌, refl, sym, ◌∙◌, ◌++◌, ◌∷◌, ap, subst, Bool, true, false, Option, none, some, arith, Text, ok,
  ok-injective, through,
}
use salus_rs.Authority.{contains}
use salus_rs.Probes.Http.Args.{HttpArgs}
use salus_rs.Probes.Http.Url.{
  validate_raw_url_text, raw_url_scheme, is_http_url_scheme, canonical_http_scheme,
  raw_url_authority, check_url_authority, validate_raw_http_url_authority,
}
use salus_rs.Probes.Http.Url.Percent.{percents_are_valid_iff}
use salus_rs.Probes.Http.Url.Parts.{
  IsHttpUrl, raw_url_authority-Splits, text_checks, scheme_lem, check_url_authority-IsHostPort,
}
use salus_rs.Probes.Http.Target.{UriLibrary, UrlTarget}
use salus_rs.Probes.Http.Target.Prepare.{
  parse_url, url_authority, default_host_header, absolute_uri, request_uri_for, url_target_at,
  url_target_of, prepare_url_target,
}

module _ {Uri : Type 0} (lib : UriLibrary Uri) (webpki : Bool) (args : HttpArgs) (raw : Text) where
  -- The checks of the text.
  pub record Checks (scheme : Text) : Type 0 where
    text : validate_raw_url_text raw ≡ ok tt
    named : raw_url_scheme raw ≡ some scheme
    http : is_http_url_scheme scheme ≡ true
    no_fragment : contains b'#' raw ≡ false
    authority : validate_raw_http_url_authority lib.parse_authority raw ≡ ok tt

  pub checked :
      (o : Option Text) {target : UrlTarget Uri}
      → raw_url_scheme raw ≡ o
      → prepare_url_target lib webpki args raw ≡ ok target
      → (scheme : Text) × Checks scheme
        × (url_target_of lib webpki args raw (canonical_http_scheme scheme) ≡ ok target)
  unfolding prepare_url_target
  checked none e h = absurd (ground (arith, h, e))
  checked (some scheme) e h = (
    scheme,
    record {
      text = ground (arith, h);
      named = e;
      http = ground (arith, h, e);
      no_fragment = ground (arith, h, e);
      authority = ground (arith, h, e);
    },
    ground (arith, h, e),
  )

  ends_with :
      {https : Bool} (uri : Uri) (host : Text) (connect_uri : Uri) {target : UrlTarget Uri}
      → url_target_at lib webpki args raw https uri host connect_uri ≡ ok target
      → target.uses_tls ≡ https
  unfolding url_target_at
  ends_with {https} uri host connect_uri h =
      through (request_uri_for lib webpki args https uri connect_uri host) _ h
        (λ request_uri built. sym (ap (λ t. t.uses_tls) (ok-injective built)))

  uses_tls_lem :
      (https : Bool) {target : UrlTarget Uri}
      → url_target_of lib webpki args raw https ≡ ok target
      → target.uses_tls ≡ https
  unfolding url_target_of
  uses_tls_lem https {target} h = through (parse_url lib webpki raw) _ h (λ uri h1.
      through (url_authority lib webpki uri) _ h1 (λ authority h2.
        through (default_host_header lib webpki uri args.host https) _ h2 (λ host h3.
          through (absolute_uri lib webpki uri https authority.text) _ h3
            (λ connect_uri h4. ends_with uri host connect_uri h4))))

  checked_authority :
      (o : Option Text) {scheme : Text}
      → raw_url_authority raw ≡ o
      → Checks scheme
      → (authority : Text) × (raw_url_authority raw ≡ some authority)
        × (check_url_authority lib.parse_authority authority ≡ ok tt)
  unfolding validate_raw_http_url_authority
  checked_authority none e c = absurd (ground (arith, c.authority, e))
  checked_authority (some authority) e c = (authority, e, ground (arith, c.authority, e))

  -- Whatever the URI library does: a URL that is taken is `http://` or `https://`, in any case of the
  -- letters, with an authority up to the first `/` or `?`, or the end, that is `host`, `host:port`,
  -- `[ipv6]` or `[ipv6]:port`, with a port from 1 to 65535, and has no user info; it has no fragment
  -- and only well-formed percent encodings; and TLS is used exactly for https.
  pub prepare_url_target-IsHttpUrl :
      {target : UrlTarget Uri}
      → prepare_url_target lib webpki args raw ≡ ok target
      → IsHttpUrl raw target.uses_tls
  prepare_url_target-IsHttpUrl {target} h =
      let (scheme, c, built) = checked (raw_url_scheme raw) refl h in
      let (authority, e, valid) = checked_authority (raw_url_authority raw) refl c in
      let (text, shape, split) = raw_url_authority-Splits raw c.named e in
      let (no_user, host_port) =
        check_url_authority-IsHostPort lib.parse_authority authority valid in
      let (safe, ascii, encoded) = text_checks raw c.text in
      subst (IsHttpUrl raw) (sym (uses_tls_lem (canonical_http_scheme scheme) built)) (record {
        scheme = scheme;
        authority = authority;
        tail = split.tail;
        shape = shape ∙ ap (λ t. scheme ++ (b':' ∷ b'/' ∷ b'/' ∷ t)) split.joined;
        no_delimiter = split.no_delimiter;
        ends = split.ends;
        named = scheme_lem scheme c.http;
        host_port = host_port;
        no_user = no_user;
        no_fragment = c.no_fragment;
        encoded = (percents_are_valid_iff raw).0 encoded;
        safe = safe;
        ascii = ascii;
      })
