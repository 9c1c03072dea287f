-- ===== src/Probes/Http/Headers.antt =====
-- The request's headers and what is asserted of the response's.
pub mod Allowed
pub mod Asserted
use salus_rs.Prelude.{
  ℕ, String, Bool, true, false, not, ◌&&◌, ◌||◌, Option, none, some, List, [], ◌∷◌, ◌++◌,
  if◌then◌else◌, is_nil, any, Text, Bytes, codes, equal, split_once, trim, Result, ok, err, ◌>>=◌,
  ◌>>◌, map_err, refuse_if,
}
use salus_rs.Error.{AppError, AppResult, failure, invalid_config, Piece, lit, display, debug}
use salus_rs.Diagnostic.{value}
use salus_rs.Validation.{validate_non_empty_str}
use salus_rs.TextMatch.{contains_bytes}
use salus_rs.Probes.Http.Args.{HttpArgs}

-- `HeaderName` is its text in lower case, `HeaderValue` its bytes.
abbrev pub HeaderName : Type 0
HeaderName = Text

-- The fields of a response, in their order.
abbrev pub HeaderMap : Type 0
HeaderMap = List (HeaderName × Bytes)

pub record HeaderAssertion : Type 0 where
  pub name : HeaderName
  pub value : Bytes

pub record HeaderAssertions : Type 0 where
  pub present : List HeaderName
  pub equals : List HeaderAssertion
  pub contains : List HeaderAssertion
  pub not_contains : List HeaderAssertion

abbrev pub hop_by_hop : List HeaderName
hop_by_hop =
    codes "connection"
    ∷ codes "keep-alive"
    ∷ codes "proxy-authenticate"
    ∷ codes "proxy-authorization"
    ∷ codes "proxy-connection"
    ∷ codes "te"
    ∷ codes "trailer"
    ∷ codes "upgrade"
    ∷ []

unfoldable pub is_hop_by_hop_header : HeaderName → Bool
is_hop_by_hop_header name = any (equal name) hop_by_hop

-- `headers.get_all(name)`
unfoldable pub get_all : HeaderMap → HeaderName → List Bytes
get_all [] name = []
get_all ((key, value) ∷ headers) name =
    let others = get_all headers name in if equal key name then value ∷ others else others

-- `HeaderName::from_bytes` and `HeaderValue::from_str` are parameters: what they read, or the
-- error's text. `utf8` gives the bytes of a text.
module _ (header_name : Text → Result Text HeaderName) (header_value : Text → Result Text Bytes)
    (utf8 : Text → Bytes) where
  unfoldable pub parse_header_name : Text → String → AppResult HeaderName
  parse_header_name raw label = do
    validate_non_empty_str label (trim raw)
    map_err
        (λ error.
          invalid_config (
            lit "invalid "
            ∷ lit label
            ∷ lit " "
            ∷ value (trim raw)
            ∷ lit ": "
            ∷ display error
            ∷ []))
        (header_name (trim raw))

  -- The checks and the value, behind the name.
  unfoldable pub parse_header_field : HeaderName → Text → AppResult (HeaderName × Bytes)
  parse_header_field name raw_value = do
    refuse_if (equal name (codes "host"))
        (invalid_config (lit "--header cannot set Host; use --host instead" ∷ []))
    refuse_if (equal name (codes "content-length") || equal name (codes "transfer-encoding"))
        (invalid_config (lit "--header cannot set HTTP framing header " ∷ display name ∷ []))
    refuse_if (is_hop_by_hop_header name)
        (invalid_config (lit "--header cannot set HTTP hop-by-hop header " ∷ display name ∷ []))
    field ←
        map_err
          (λ error.
            invalid_config
              (lit "invalid header value for " ∷ display name ∷ lit ": " ∷ display error ∷ []))
          (header_value (trim raw_value))
    ok (name, field)

  unfoldable pub parse_header : Text → AppResult (HeaderName × Bytes)
  parse_header raw = elim (split_once b':' raw) [
    | none ↦
        err (invalid_config (lit "invalid header " ∷ debug raw ∷ lit ", expected name:value" ∷ []))
    | some (raw_name, raw_value) ↦ do
      name ← parse_header_name raw_name "--header name"
      parse_header_field name raw_value
  ]

  unfoldable pub parse_headers : List Text → AppResult (List (HeaderName × Bytes))
  parse_headers [] = ok []
  parse_headers (raw ∷ raw_headers) = do
    header ← parse_header raw
    headers ← parse_headers raw_headers
    ok (header ∷ headers)

  unfoldable pub parse_header_names : List Text → AppResult (List HeaderName)
  parse_header_names [] = ok []
  parse_header_names (raw ∷ raw_names) = do
    name ← parse_header_name raw "--header-present"
    names ← parse_header_names raw_names
    ok (name ∷ names)

  unfoldable pub parse_header_assertion : String → String → Bool → Text → AppResult HeaderAssertion
  parse_header_assertion flag flag_name allow_empty_value raw = elim (split_once b':' raw) [
    | none ↦ err (
        invalid_config
          (lit "invalid header assertion " ∷ debug raw ∷ lit ", expected name:value" ∷ []))
    | some (raw_name, raw_value) ↦ do
      name ← parse_header_name raw_name flag_name
      refuse_if (not allow_empty_value && is_nil (trim raw_value))
          (invalid_config (lit flag ∷ lit " value must not be empty" ∷ []))
      ok (record { name = name; value = utf8 (trim raw_value) })
  ]

  unfoldable pub parse_header_assertions :
      List Text → String → String → Bool → AppResult (List HeaderAssertion)
  parse_header_assertions [] flag flag_name allow_empty_value = ok []
  parse_header_assertions (raw ∷ raws) flag flag_name allow_empty_value = do
    assertion ← parse_header_assertion flag flag_name allow_empty_value raw
    assertions ← parse_header_assertions raws flag flag_name allow_empty_value
    ok (assertion ∷ assertions)

  -- The assertions of `PreparedHttpArgs::from_args`.
  unfoldable pub header_assertions : HttpArgs → AppResult HeaderAssertions
  header_assertions args = do
    present ← parse_header_names args.header_present
    equals ←
        parse_header_assertions args.header_equals "--header-equals" "--header-equals name" true
    contains ←
        parse_header_assertions args.header_contains "--header-contains" "--header-contains name"
          false
    not_contains ←
        parse_header_assertions args.header_not_contains "--header-not-contains"
          "--header-not-contains name" false
    ok (record {
      present = present;
      equals = equals;
      contains = contains;
      not_contains = not_contains;
    })

unfoldable pub assert_present : HeaderMap → Text → List HeaderName → AppResult Unit
assert_present headers target [] = ok tt
assert_present headers target (name ∷ names) = do
  refuse_if (is_nil (get_all headers name)) (
      failure
        (lit "response header " ∷ display name ∷ lit " is missing from " ∷ display target ∷ []))
  assert_present headers target names

-- The three loops over assertions: each value is put to a test, and the outcome of `any` is refused
-- or is required.
unfoldable pub assert_each :
    (Bytes → Bytes → Bool)
    → Bool
    → String
    → HeaderMap
    → Text
    → List HeaderAssertion
    → AppResult Unit
assert_each test wanted complaint headers target [] = ok tt
assert_each test wanted complaint headers target (assertion ∷ assertions) =
    let found = any (λ field. test field assertion.value) (get_all headers assertion.name) in
    do
      refuse_if (if wanted then not found else found) (
          failure (
            lit "response header "
            ∷ display assertion.name
            ∷ lit " from "
            ∷ display target
            ∷ lit complaint
            ∷ debug assertion.value
            ∷ []))
      assert_each test wanted complaint headers target assertions

unfoldable pub assert_response_headers : HeaderMap → HeaderAssertions → Text → AppResult Unit
assert_response_headers headers assertions target = do
  assert_present headers target assertions.present
  assert_each equal true " does not equal required value " headers target assertions.equals
  assert_each contains_bytes true " does not contain required text " headers target
      assertions.contains
  assert_each contains_bytes false " contains forbidden text " headers target
      assertions.not_contains
