-- ===== src/Probes/Http/Url.antt =====
-- The text of `--url`: its characters, its scheme and its authority, before the URI library reads it.
pub mod Percent
pub mod Parts
pub mod Authority
use salus_rs.Prelude.{
  ℕ, String, Bool, true, false, not, ◌&&◌, ◌||◌, Option, none, some, List, [], ◌∷◌, ◌==◌,
  if◌then◌else◌, is_nil, any, all, map, Text, codes, split_once, strip_prefix, is_ascii,
  is_ascii_alphabetic, is_ascii_alphanumeric, is_ascii_hexdigit, to_ascii_lowercase,
  eq_ignore_ascii_case, Result, ok, err, ◌>>=◌, ◌>>◌, map_err, refuse_if,
}
use salus_rs.Error.{AppError, AppResult, invalid_config, lit, display}
use salus_rs.Validation.{validate_non_empty_str}
use salus_rs.Authority.{
  PortError, not_integer, out_of_range, optional, as_debug, contains, is_unsafe,
  is_unbracketed_ipv6_authority, raw_host_is_empty, validate_port, validate_authority,
  ipv6_brackets_required,
}

-- The test of a character is that of `validate_authority_text`.
unfoldable pub validate_no_unescaped_uri_text : String → Text → AppResult Unit
validate_no_unescaped_uri_text label raw = do
  refuse_if (any is_unsafe raw) (
      invalid_config (
        lit label
        ∷ lit " must not contain unescaped whitespace, control characters, backslashes, or quotes"
        ∷ []))
  refuse_if (not (all is_ascii raw)) (
      invalid_config (
        lit label
        ∷ lit " must contain only ASCII URI characters; percent-encode non-ASCII text"
        ∷ []))

-- The loop: on from each `%` to the next. It is called for ASCII texts, whose bytes are their
-- characters.
unfoldable pub percents_are_valid : Text → Bool
percents_are_valid [] = true
percents_are_valid (c ∷ []) = not (c == b'%')
percents_are_valid (c ∷ d ∷ []) = elim (c == b'%') [
  | true ↦ false
  | false ↦ percents_are_valid (d ∷ [])
]
percents_are_valid (c ∷ d ∷ e ∷ rest) = elim (c == b'%') [
  | true ↦ is_ascii_hexdigit d && is_ascii_hexdigit e && percents_are_valid rest
  | false ↦ percents_are_valid (d ∷ e ∷ rest)
]

unfoldable pub validate_percent_encoding : Text → String → AppResult Unit
unfolding percents_are_valid
validate_percent_encoding raw label =
    refuse_if (not (percents_are_valid raw))
      (invalid_config (lit label ∷ lit " contains invalid percent encoding" ∷ []))

unfoldable pub validate_raw_url_text : Text → AppResult Unit
validate_raw_url_text raw_url = do
  validate_non_empty_str "--url" raw_url
  validate_no_unescaped_uri_text "--url" raw_url
  validate_percent_encoding raw_url "--url"

unfoldable pub is_url_scheme : Text → Bool
is_url_scheme [] = false
is_url_scheme (first ∷ bytes) =
    is_ascii_alphabetic first
    && all (λ byte. is_ascii_alphanumeric byte || byte == b'+' || byte == b'-' || byte == b'.')
        bytes

unfoldable pub raw_url_scheme : Text → Option Text
unfolding is_url_scheme
raw_url_scheme raw_url = elim (split_once b':' raw_url) [
  | none ↦ none
  | some (scheme, rest) ↦ if is_url_scheme scheme then some scheme else none
]

unfoldable pub is_http_url_scheme : Text → Bool
is_http_url_scheme scheme =
    eq_ignore_ascii_case scheme (codes "http") || eq_ignore_ascii_case scheme (codes "https")

-- The static text is `http` or `https`; the second is `true`.
unfoldable pub canonical_http_scheme : Text → Bool
canonical_http_scheme scheme = eq_ignore_ascii_case scheme (codes "https")

unfoldable pub unsupported_url_scheme : Text → AppError
unsupported_url_scheme scheme = invalid_config (
    lit "unsupported URL scheme "
    ∷ display (map to_ascii_lowercase scheme)
    ∷ lit ", expected http or https"
    ∷ [])

-- The text before the first `/`, `?` or `#`.
unfoldable pub until_path : Text → Text
until_path [] = []
until_path (c ∷ s) =
    let rest = until_path s in if c == b'/' || c == b'?' || c == b'#' then [] else c ∷ rest

unfoldable pub raw_url_authority : Text → Option Text
unfolding until_path
raw_url_authority raw_url = elim (split_once b':' raw_url) [
  | none ↦ none
  | some (scheme, rest) ↦ elim (strip_prefix b'/' rest) [
    | none ↦ none
    | some after_one ↦ elim (strip_prefix b'/' after_one) [
      | none ↦ none
      | some after_two ↦ some (until_path after_two)
    ]
  ]
]

unfoldable pub raw_url_port : Text → Option Text
raw_url_port authority = elim (strip_prefix b'[' authority) [
  | some rest ↦ elim (split_once b']' rest) [
    | none ↦ none
    | some (host, suffix) ↦ strip_prefix b':' suffix
  ]
  | none ↦ elim (split_once b':' authority) [ none ↦ none | some (host, port) ↦ some port ]
]

unfoldable pub invalid_url_port_range : AppError
invalid_url_port_range = invalid_config (lit "URL port must be between 1 and 65535" ∷ [])

unfoldable pub url_port_error : PortError → AppError
unfolding invalid_url_port_range
url_port_error out_of_range = invalid_url_port_range
url_port_error not_integer = invalid_config (lit "URL port must be a valid integer" ∷ [])

unfoldable pub check_url_port : Option Text → AppResult Unit
unfolding url_port_error
check_url_port none = ok tt
check_url_port (some port) = do
  refuse_if (is_nil port) invalid_url_port_range
  p ← map_err url_port_error (validate_port port)
  ok tt

no_host : AppError
no_host = invalid_config (lit "URL must contain a host" ∷ [])

-- `parse_authority` is the URI library's.
module _ (parse_authority : Text → Result Text Text) where
  unfoldable pub check_url_authority : Text → AppResult Unit
  unfolding no_host
  check_url_authority authority = do
    refuse_if (is_nil authority) no_host
    refuse_if (contains b'@' authority)
        (invalid_config (lit "URL user info is not supported for security reasons" ∷ []))
    refuse_if (is_unbracketed_ipv6_authority authority)
        (invalid_config (lit "URL host uses an IPv6 address; " ∷ lit ipv6_brackets_required ∷ []))
    refuse_if (raw_host_is_empty authority) no_host
    check_url_port (raw_url_port authority)
    host ← validate_authority parse_authority authority "URL authority" optional as_debug
    ok tt

  unfoldable pub validate_raw_http_url_authority : Text → AppResult Unit
  validate_raw_http_url_authority raw_url = elim (raw_url_authority raw_url) [
    | none ↦ err (invalid_config (lit "URL must include // before the host" ∷ []))
    | some authority ↦ check_url_authority authority
  ]
