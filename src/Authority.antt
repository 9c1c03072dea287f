-- ===== src/Authority.antt =====
-- authority.rs: the checks of `host:port` texts.
pub mod Port
pub mod Accepted
pub mod Shape
pub mod Colons
pub mod Grammar
use salus_rs.Prelude.{
  ℕ, String, Bool, true, false, not, ◌&&◌, ◌||◌, Option, none, some, List, [], ◌∷◌, ltb, ◌==◌,
  if◌then◌else◌, is_nil, any, all, Text, is_ascii_digit, is_whitespace, is_control, is_ascii,
  split_once, split_once_two, rsplit_once, strip_prefix, starts_with, is_none, parse_unsigned,
  is_ipv6, Result, ok, err, ◌>>=◌, ◌>>◌, map_err, refuse_if,
}
use salus_rs.Error.{AppError, AppResult, invalid_config, Piece, lit, display, debug, Message}
use salus_rs.Diagnostic.{value}

pub data PortPolicy : Type 0 where
  optional : PortPolicy
  required : PortPolicy

pub data RawFormat : Type 0 where
  as_display : RawFormat
  as_debug : RawFormat

pub data PortError : Type 0 where
  not_integer : PortError
  out_of_range : PortError

unfoldable pub port_message : PortError → String
port_message not_integer = "port must be a valid integer"
port_message out_of_range = "port must be between 1 and 65535"

abbrev pub contains : ℕ → Text → Bool
contains p raw = any (λ c. c == p) raw

-- `is_unsafe` is the first test; the second is on the bytes.
abbrev pub is_unsafe : ℕ → Bool
is_unsafe ch = ch == b'\\' || ch == b'"' || is_whitespace ch || is_control ch

unfoldable pub validate_authority_text : Text → Result String Unit
validate_authority_text raw = do
  refuse_if (any is_unsafe raw)
      "authority must not contain whitespace, control characters, backslashes, or quotes"
  refuse_if (not (all is_ascii raw))
      "authority must contain only ASCII characters; use punycode for internationalized names"

unfoldable pub raw_host_is_empty : Text → Bool
raw_host_is_empty raw = elim (strip_prefix b'[' raw) [
  | some rest ↦ starts_with b']' rest
  | none ↦ elim (split_once b':' raw) [ none ↦ is_nil raw | some (host, port) ↦ is_nil host ]
]

abbrev pub ipv6_brackets_required : String
ipv6_brackets_required = "IPv6 addresses must be enclosed in brackets"

unfoldable pub is_unbracketed_ipv6_authority : Text → Bool
is_unbracketed_ipv6_authority raw =
    if starts_with b'[' raw || not (contains b':' raw)
    then false
    else is_ipv6 raw
      || (elim (rsplit_once b':' raw) [ none ↦ false | some (host, port) ↦ is_ipv6 host ])
      || (elim (split_once_two b':' b':' raw) [ none ↦ false | some parts ↦ true ])

-- `rest.find(']')` with the two slices around it is `split_once`.
unfoldable pub validate_bracketed_host : Text → Result String Unit
validate_bracketed_host raw = elim (strip_prefix b'[' raw) [
  | none ↦
      refuse_if (contains b'[' raw || contains b']' raw)
        "brackets are only allowed around IPv6 addresses"
  | some rest ↦ elim (split_once b']' rest) [
    | none ↦ err "bracketed host is missing closing ]"
    | some (host, suffix) ↦ do
      refuse_if (is_nil host) "host must not be empty"
      refuse_if (not (is_ipv6 host)) "bracketed host must be a valid IPv6 address"
      refuse_if (not (is_nil suffix) && not (starts_with b':' suffix))
          "bracketed host must be followed by :port or the end of the authority"
  ]
]

abbrev pub u16_max : ℕ
u16_max = 65535

unfoldable pub validate_port : Text → Result PortError ℕ
validate_port raw =
    if is_nil raw || not (all is_ascii_digit raw)
    then err not_integer
    else elim (parse_unsigned u16_max raw) [
      | none ↦ err out_of_range
      | some port ↦ if port == 0 then err out_of_range else ok port
    ]

unfoldable pub explicit_port : Text → Option Text
explicit_port raw = elim (strip_prefix b'[' raw) [
  | some rest ↦ elim (split_once b']' rest) [
    | none ↦ none
    | some (host, suffix) ↦ strip_prefix b':' suffix
  ]
  | none ↦ elim (split_once b':' raw) [ none ↦ none | some (host, port) ↦ some port ]
]

show_raw : RawFormat → Text → Piece
show_raw as_display raw = value raw
show_raw as_debug raw = debug raw

unfoldable pub invalid_authority : String → Text → RawFormat → Piece → AppError
unfolding show_raw
invalid_authority label raw format reason =
    invalid_config
      (lit "invalid " ∷ lit label ∷ lit " " ∷ show_raw format raw ∷ lit ": " ∷ reason ∷ [])

abbrev pub is_required : PortPolicy → Bool
is_required optional = false
is_required required = true

unfoldable pub check_port : Option Text → Result PortError Unit
check_port none = ok tt
check_port (some port) = do p ← validate_port port; ok tt

-- `raw.parse::<Authority>()` is the parameter: the host of the authority, or the error's text.
module _ (parse_authority : Text → Result Text Text) where
  unfoldable pub validate_authority : Text → String → PortPolicy → RawFormat → AppResult Text
  validate_authority raw label port_policy raw_format =
      let invalid = invalid_authority label raw raw_format in
      do
        map_err (λ reason. invalid (lit reason)) (validate_authority_text raw)
        refuse_if (contains b'@' raw) (invalid (lit "user info is not allowed"))
        refuse_if (any (λ c. c == b'/' || c == b'?' || c == b'#') raw)
            (invalid (lit "path, query, and fragment are not allowed"))
        map_err (λ reason. invalid (lit reason)) (validate_bracketed_host raw)
        refuse_if (is_unbracketed_ipv6_authority raw) (invalid (lit ipv6_brackets_required))
        refuse_if (raw_host_is_empty raw) (invalid (lit "host must not be empty"))
        map_err (λ reason. invalid (lit (port_message reason))) (check_port (explicit_port raw))
        host ← map_err (λ error. invalid (display error)) (parse_authority raw)
        refuse_if (is_nil host) (invalid (lit "host must not be empty"))
        refuse_if (is_none (explicit_port raw) && is_required port_policy)
            (invalid (lit "port is required"))
        ok host
