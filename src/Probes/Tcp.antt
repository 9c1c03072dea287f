-- ===== src/Probes/Tcp.antt =====
-- probes/tcp.rs: the addresses of a name are tried in turn, until one connects or the time is over.
pub mod Connected
pub mod Reached
use salus_rs.Prelude.{
  ℕ, ◌-◌, ◌/◌, min, max, Bool, true, false, Option, none, some, List, [], ◌∷◌, ◌==◌, leb,
  if◌then◌else◌, is_nil, length, Text, codes, Result, ok, err, ◌>>=◌, ◌>>◌, map_err, refuse_if,
}
use salus_rs.Error.{AppError, AppResult, failure, invalid_config, Message, lit, display}
use salus_rs.Diagnostic.{value}
use salus_rs.Validation.{validate_non_empty_str}
use salus_rs.Authority.{required, as_display, validate_authority}
use salus_rs.Probe.{ProbeOptions, ProbeReport, deadline_after, with_probe_timeout}

pub data LookupError : Type 0 where
  invalid_input : Text → LookupError
  other : Text → LookupError

-- One address: the time when its turn comes, how long its connection takes, and how that ends.
pub record Attempt : Type 0 where
  pub addr : Text
  pub now : ℕ
  pub takes : ℕ
  pub result : Result Text Unit

pub record Resolver : Type 0 where
  pub lookup : Result LookupError (List Attempt)
  pub latest : ℕ
  pub now : ℕ

abbrev pub one_millisecond : ℕ
one_millisecond = 1000000

abbrev pub u32_max : ℕ
u32_max = 4294967295

-- Durations are in nanoseconds. `checked_div` has no zero divisor here.
unfoldable pub per_attempt_timeout : ℕ → ℕ → ℕ
per_attempt_timeout remaining attempts_left =
    max (remaining / min (max attempts_left 1) u32_max) one_millisecond

lookup_error : Text → LookupError → AppError
lookup_error addr (invalid_input error) =
    invalid_config (lit "invalid TCP address " ∷ value addr ∷ lit ": " ∷ display error ∷ [])
lookup_error addr (other error) =
    failure (lit "failed to resolve " ∷ value addr ∷ lit ": " ∷ display error ∷ [])

unfoldable pub last_error_message : Text → Option Message → Message
last_error_message addr (some error) = lit "failed to connect to " ∷ value addr ∷ lit ": " ∷ error
last_error_message addr none = lit "timed out connecting to " ∷ value addr ∷ []

-- One `timeout(per_attempt, TcpStream::connect(addr))`, with the text of its error.
unfoldable pub connect : Attempt → ℕ → Result Message Unit
connect a per_attempt =
    if leb a.takes per_attempt
    then map_err (λ error. display error ∷ []) a.result
    else err (lit "connection to " ∷ display a.addr ∷ lit " timed out" ∷ [])

-- The loop, with the last error so far.
unfoldable pub connect_loop : ℕ → List Attempt → Option Message → Result (Option Message) Unit
connect_loop deadline [] last_error = err last_error
connect_loop deadline (a ∷ attempts) last_error =
    let remaining = deadline - a.now in
    let per_attempt = per_attempt_timeout remaining (length (a ∷ attempts)) in
    elim (remaining == 0) [
      | true ↦ err last_error
      | false ↦ elim (connect a per_attempt) [
        | ok _ ↦ ok tt
        | err error ↦ connect_loop deadline attempts (some error)
      ]
    ]

module _ (parse_authority : Text → Result Text Text) where
  unfoldable pub validate_tcp_addr : Text → AppResult Unit
  validate_tcp_addr raw = do
    host ← validate_authority parse_authority raw "TCP address" required as_display
    ok tt

  unfoldable pub run_inner : ProbeOptions → Text → Resolver → ℕ → AppResult ProbeReport
  unfolding lookup_error
  run_inner options addr resolver elapsed = do
    attempts ← map_err (lookup_error addr) resolver.lookup
    refuse_if (is_nil attempts) (failure (lit "no TCP addresses resolved for " ∷ value addr ∷ []))
    deadline ← deadline_after resolver.latest resolver.now options.timeout
    map_err (λ last_error. failure (last_error_message addr last_error))
        (connect_loop deadline attempts none)
    ok (record {
      mode = "tcp";
      target = addr;
      detail = some (codes "connected");
      elapsed = elapsed;
      options = options;
    })

  unfoldable pub run : ProbeOptions → Text → Resolver → ℕ → Bool → AppResult ProbeReport
  run options addr resolver elapsed in_time = do
    validate_non_empty_str "--addr" addr
    validate_tcp_addr addr
    with_probe_timeout "TCP" options.timeout
        (if in_time then some (run_inner options addr resolver elapsed) else none)
