-- ===== src/Probes/Http/Headers/Allowed.antt =====
-- Which headers `--header` sets.
use salus_rs.Prelude.{
  ◌≡◌, ◌↔◌, refl, ap, ◌∙◌, subst, Bool, true, false, ◌||◌, Option, none, some, List, [], ◌∷◌, ◌++◌,
  arith, any, Text, Bytes, codes, equal, is_nil, trim, split_once, split_once-some, Result, ok,
  ◌>>=◌, ◌>>◌, >>=-eq-ok, ok-injective, refuse_if, map_err, map_err-ok,
}
use salus_rs.Validation.{validate_non_empty_str}
use salus_rs.Authority.{contains}
use salus_rs.Authority.Grammar.{split_once-at}
use salus_rs.Probes.Http.Headers.{
  HeaderName, is_hop_by_hop_header, parse_header_name, parse_header_field, parse_header,
  parse_headers,
}

-- The names that `--header` may not set: the host, the two that frame a message, and those that concern
-- one connection, as the standard of HTTP and older clients know them. The list is this file's own.
abbrev pub managed : List HeaderName
managed =
    codes "host"
    ∷ codes "content-length"
    ∷ codes "transfer-encoding"
    ∷ codes "te"
    ∷ codes "trailer"
    ∷ codes "upgrade"
    ∷ codes "connection"
    ∷ codes "keep-alive"
    ∷ codes "proxy-connection"
    ∷ codes "proxy-authenticate"
    ∷ codes "proxy-authorization"
    ∷ []

abbrev pub IsFree : HeaderName → Type 0
IsFree name = any (equal name) managed ≡ false

-- What the three refusals ask of a name.
abbrev IsTaken : HeaderName → Type 0
IsTaken name =
    (equal name (codes "host") ≡ false)
    × ((equal name (codes "content-length") || equal name (codes "transfer-encoding")) ≡ false)
    × (is_hop_by_hop_header name ≡ false)

IsTaken-IsFree : (name : HeaderName) → IsTaken name → IsFree name
unfolding is_hop_by_hop_header
IsTaken-IsFree name (host, framing, hop) = ground (arith, host, framing, hop)

IsFree-IsTaken : (name : HeaderName) → IsFree name → IsTaken name
unfolding is_hop_by_hop_header
IsFree-IsTaken name h = (ground (arith, h), ground (arith, h), ground (arith, h))

three_refusals :
    {E A : Type 0} (a b c : Bool) (e1 e2 e3 : E) {m : Result E A} {r : A}
    → (refuse_if a e1 >> (refuse_if b e2 >> (refuse_if c e3 >> m))) ≡ ok r
    → ((a ≡ false) × (b ≡ false) × (c ≡ false)) × (m ≡ ok r)
three_refusals false false false e1 e2 e3 h = ((refl, refl, refl), h)
three_refusals true b c e1 e2 e3 h = ground arith
three_refusals false true c e1 e2 e3 h = ground arith
three_refusals false false true e1 e2 e3 h = ground arith

module _ (header_name : Text → Result Text HeaderName) (header_value : Text → Result Text Bytes)
    (utf8 : Text → Bytes) where
  -- `name:value`: what stands before the first colon is read as a name that may be set, and what stands
  -- behind it as a value, both without the blanks around them.
  pub record IsHeaderLine (raw : Text) (header : HeaderName × Bytes) : Type 0 where
    pub raw_name : Text
    pub raw_value : Text
    pub split : raw ≡ raw_name ++ (b':' ∷ raw_value)
    pub first_colon : contains b':' raw_name ≡ false
    pub some_name : is_nil (trim raw_name) ≡ false
    pub named : header_name (trim raw_name) ≡ ok header.0
    pub free : IsFree header.0
    pub field : header_value (trim raw_value) ≡ ok header.1

  -- Each line gives the header in its place.
  abbrev pub AreHeaderLines : List Text → List (HeaderName × Bytes) → Type 0
  AreHeaderLines [] [] = Unit
  AreHeaderLines [] (header ∷ headers) = ⊥
  AreHeaderLines (raw ∷ raws) [] = ⊥
  AreHeaderLines (raw ∷ raws) (header ∷ headers) =
      IsHeaderLine raw header × AreHeaderLines raws headers

  parse_header_field-ok :
      (name : HeaderName) (raw_value : Text) {header : HeaderName × Bytes}
      → parse_header_field header_name header_value utf8 name raw_value ≡ ok header
      → IsFree name × (name ≡ header.0) × (header_value (trim raw_value) ≡ ok header.1)
  unfolding parse_header_field
  parse_header_field-ok name raw_value {header} h =
      let (passed, built) =
        three_refusals (equal name (codes "host"))
          (equal name (codes "content-length") || equal name (codes "transfer-encoding"))
          (is_hop_by_hop_header name) _ _ _ h in
      let (field, read, made) = >>=-eq-ok (map_err _ (header_value (trim raw_value))) _ built in
      let same = ok-injective made in
      (
        IsTaken-IsFree name passed,
        ap (λ p. p.0) same,
        map_err-ok _ (header_value (trim raw_value)) read ∙ ap (λ p. ok p.1) same,
      )

  parse_header_name-ok :
      (raw_name : Text) {name : HeaderName}
      → parse_header_name header_name header_value utf8 raw_name "--header name" ≡ ok name
      → (is_nil (trim raw_name) ≡ false) × (header_name (trim raw_name) ≡ ok name)
  unfolding parse_header_name validate_non_empty_str
  parse_header_name-ok raw_name h =
      let (_, filled, h1) =
        >>=-eq-ok (validate_non_empty_str "--header name" (trim raw_name)) _ h in
      (ground (arith, filled), map_err-ok _ (header_name (trim raw_name)) h1)

  parse_header-IsHeaderLine :
      (raw : Text) {header : HeaderName × Bytes}
      → parse_header header_name header_value utf8 raw ≡ ok header
      → IsHeaderLine raw header
  unfolding parse_header
  parse_header-IsHeaderLine raw {header} h = cases (split_once b':' raw) refl
    where
      cases : (o : Option (Text × Text)) → split_once b':' raw ≡ o → IsHeaderLine raw header
      cases none e = ground (arith, h, e)
      cases (some (raw_name, raw_value)) e =
          let parsed : (parse_header_name header_name header_value utf8 raw_name "--header name"
                >>= λ name. parse_header_field header_name header_value utf8 name raw_value)
              ≡ ok header =
            ground (arith, h, e) in
          let (name, named, rest) =
            >>=-eq-ok (parse_header_name header_name header_value utf8 raw_name "--header name") _
              parsed in
          let (some_name, read) = parse_header_name-ok raw_name named in
          let (free, same, field) = parse_header_field-ok name raw_value rest in
          let (split, first_colon) = split_once-some b':' raw e in
          record {
            raw_name = raw_name;
            raw_value = raw_value;
            split = split;
            first_colon = first_colon;
            some_name = some_name;
            named = read ∙ ap ok same;
            free = subst IsFree same free;
            field = field;
          }

  IsHeaderLine-parse_header :
      (raw : Text) {header : HeaderName × Bytes}
      → IsHeaderLine raw header
      → parse_header header_name header_value utf8 raw ≡ ok header
  unfolding parse_header parse_header_name parse_header_field validate_non_empty_str
  IsHeaderLine-parse_header raw l =
      let split : split_once b':' raw ≡ some (l.raw_name, l.raw_value) =
        ap (split_once b':') l.split ∙ split_once-at b':' l.raw_name l.raw_value l.first_colon in
      let (host, framing, hop) = IsFree-IsTaken _ l.free in
      let some_name = l.some_name in
      let named = l.named in
      let field = l.field in
      rw (split, some_name, named, host, framing, hop, field, parse_header) refl

  parse_headers-lines :
      (raws : List Text) (headers : List (HeaderName × Bytes))
      → parse_headers header_name header_value utf8 raws ≡ ok headers
      → AreHeaderLines raws headers
  unfolding parse_headers
  parse_headers-lines [] [] h = tt
  parse_headers-lines [] (header ∷ headers) h = cc h
  parse_headers-lines (raw ∷ raws) headers h =
      let (header, first_ok, more) =
        >>=-eq-ok (parse_header header_name header_value utf8 raw) _ h in
      let (others, others_ok, built) =
        >>=-eq-ok (parse_headers header_name header_value utf8 raws) _ more in
      subst (AreHeaderLines (raw ∷ raws)) (ok-injective built)
        (parse_header-IsHeaderLine raw first_ok, parse_headers-lines raws others others_ok)

  lines-parse_headers :
      (raws : List Text) (headers : List (HeaderName × Bytes))
      → AreHeaderLines raws headers
      → parse_headers header_name header_value utf8 raws ≡ ok headers
  unfolding parse_headers
  lines-parse_headers [] [] h = refl
  lines-parse_headers [] (header ∷ headers) h = absurd h
  lines-parse_headers (raw ∷ raws) [] h = absurd h
  lines-parse_headers (raw ∷ raws) (header ∷ headers) (line, lines) =
      let first_ok = IsHeaderLine-parse_header raw line in
      let others_ok = lines-parse_headers raws headers lines in
      rw (first_ok, others_ok, parse_headers) refl

  -- What `--header` is given is taken exactly when each of its values is `name:value`, with a name and a
  -- value that the library reads, and a name that is not Host, frames no body, and is not one of a
  -- single connection. The headers of the request are then these, in their order.
  pub parse_headers_iff :
      (raws : List Text) (headers : List (HeaderName × Bytes))
      → (parse_headers header_name header_value utf8 raws ≡ ok headers)
        ↔ AreHeaderLines raws headers
  parse_headers_iff raws headers =
      (parse_headers-lines raws headers, lines-parse_headers raws headers)
