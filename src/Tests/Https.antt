-- ===== src/Tests/Https.antt =====
-- Tests of probes/http.rs as a whole, with simple readers in the place of the libraries.
use salus_rs.Prelude.{
  ◌≡◌, ◌↔◌, refl, subst, err, Bool, true, false, none, some, List, [], ◌∷◌, ◌++◌, map, Text, Bytes,
  codes, equal, to_ascii_lowercase, trim_start, trim_end, ok, is_ipv6, parse_unsigned,
}
use salus_rs.Error.{invalid_config, lit, display}
use salus_rs.Probe.{ProbeOptions, ProbeReport, with_probe_timeout}
use salus_rs.Authority.{
  contains, validate_authority, validate_authority_text, validate_bracketed_host,
  is_unbracketed_ipv6_authority, raw_host_is_empty, check_port, explicit_port, validate_port,
}
use salus_rs.Validation.{validate_non_empty_str, validate_non_empty_values, validate_capture_limit}
use salus_rs.Capture.{append_limited}
use salus_rs.TextMatch.{
  new, count_true, contains_slice, observe_appended, observe_needles, found, all_matched,
  any_matched,
}
use salus_rs.Tls.{
  default_tls, has_tls_flags, check_server_name, normalize_server_name_override,
  validate_tls_options,
}
use salus_rs.Tls.Checked.{IsConsistent, validate_tls_options_iff}
use salus_rs.Probes.Http.Args.{HttpArgs, has_body_assertions}
use salus_rs.Probes.Http.Body.{
  frame, read_body, read_frames, body_assertion_is_decided, mismatch, assert_response_body,
  impossible_by_length, upper_exceeds,
}
use salus_rs.Probes.Http.Headers.{
  HeaderName, parse_header_name, parse_header_field, parse_header, parse_headers,
  parse_header_names, parse_header_assertions, header_assertions, is_hop_by_hop_header,
  assert_present, assert_each, assert_response_headers,
}
use salus_rs.Probes.Http.Headers.Allowed.{AreHeaderLines, parse_headers_iff}
use salus_rs.Probes.Http.Status.{matches, range_contains, parse_status_ranges}
use salus_rs.Probes.Http.Url.{
  validate_no_unescaped_uri_text, validate_percent_encoding, percents_are_valid,
  validate_raw_url_text, raw_url_scheme, is_url_scheme, is_http_url_scheme, canonical_http_scheme,
  until_path, raw_url_authority, raw_url_port, check_url_port, check_url_authority,
  validate_raw_http_url_authority,
}
use salus_rs.Probes.Http.Url.Parts.{IsHttpUrl}
use salus_rs.Probes.Http.Url.Authority.{raw_url_authority-IsHttpUrl}
use salus_rs.Probes.Http.Target.{
  UriLibrary, UrlTarget, parse_method, validate_http_target_args,
  validate_http_body_assertion_values, validate_http_capture_args, validate_http_method_assertions,
}
use salus_rs.Probes.Http.Target.Prepare.{
  validate_host_header, own_header, own_host_header, default_host_header, absolute_uri, parse_url,
  url_authority, request_uri_for, url_target_at, url_target_of, prepare_url_target,
  validate_url_tls_args, prepare_http_target, from_args,
}
use salus_rs.Probes.Http.Target.Checked.{prepare_url_target-IsHttpUrl}
use salus_rs.Tests.Certificates.{tls_library}
use salus_rs.Probes.Http.Client.{build_url_http_client, build_plain_http_client}
use salus_rs.Probes.Http.Target.Addressed.{Addresses, prepare_url_target-Addresses}
use salus_rs.Probes.Http.Evaluate.{
  Network, Response, build_request, prepare_http_probe, http_report, evaluate_response, run_url,
  run_target, run,
}
use salus_rs.Probes.Http.Evaluate.Decided.{Decided, run-Decided}

-- A URI is its text; every one has the authority `h:8080`.
abbrev pub library : UriLibrary Text
library = record {
  parse = λ text. ok text;
  has_scheme = λ uri. true;
  authority =
      λ uri. some (record { text = codes "h:8080"; host = codes "h"; port_u16 = some 8080 });
  path = λ uri. codes "/";
  path_and_query = λ uri. none;
  build = λ scheme authority path. ok (codes scheme ++ authority ++ path);
  parse_authority = λ text. ok text;
  header_name = λ text. ok (map to_ascii_lowercase text);
  header_value = λ text. ok text;
  utf8 = λ text. text;
  server_name = λ text. ok text;
  render = λ message. codes "text";
  to_text = λ uri. uri;
}

abbrev pub http_args : HttpArgs
http_args = record {
  url = some (codes "http://h:8080/a");
  sock = none;
  path = none;
  method = codes "get";
  header = codes "X-A: b" ∷ [];
  host = none;
  status = [];
  header_present = [];
  header_equals = [];
  header_contains = [];
  header_not_contains = [];
  body_equals = none;
  contains = codes "up" ∷ [];
  not_contains = [];
  tls = default_tls;
  max_body = 100;
}

abbrev target : UrlTarget Text
target = record {
  label = codes "http://h:8080/a";
  request_uri = codes "httph:8080/";
  connect_uri = codes "httph:8080/";
  host = codes "text";
  uses_tls = false;
}

takes_the_url : prepare_url_target library true http_args (codes "http://h:8080/a") ≡ ok target
unfolding prepare_url_target validate_raw_url_text validate_non_empty_str
    validate_no_unescaped_uri_text validate_percent_encoding percents_are_valid raw_url_scheme
    is_url_scheme is_http_url_scheme equal validate_raw_http_url_authority raw_url_authority
    until_path check_url_authority raw_url_port check_url_port is_unbracketed_ipv6_authority
    raw_host_is_empty is_ipv6 validate_port parse_unsigned validate_authority
    validate_authority_text validate_bracketed_host check_port explicit_port canonical_http_scheme
    url_target_of parse_url url_authority default_host_header own_host_header own_header
    validate_host_header absolute_uri request_uri_for url_target_at
takes_the_url = refl

prepare_url_target-IsHttpUrl_example : IsHttpUrl (codes "http://h:8080/a") false
prepare_url_target-IsHttpUrl_example =
    prepare_url_target-IsHttpUrl library true http_args (codes "http://h:8080/a") takes_the_url

-- User info before a host is no authority of an HTTP URL, whatever stands behind it.
no_user_info : (https : Bool) → ¬ IsHttpUrl (codes "http://user:pw@h:99999/") https
unfolding raw_url_authority until_path
no_user_info https u =
    let found = raw_url_authority-IsHttpUrl (codes "http://user:pw@h:99999/") https u in
    let same : codes "user:pw@h:99999" ≡ u.authority = cc found in
    let there : contains b'@' u.authority ≡ true = subst (λ a. contains b'@' a ≡ true) same refl in
    let lacks = u.no_user in cc (there, lacks)

prepare_url_target-Addresses_example :
    Addresses library true (codes "http://h:8080/a") http_args.host target
prepare_url_target-Addresses_example =
    prepare_url_target-Addresses library true http_args (codes "http://h:8080/a") takes_the_url

abbrev headers : List (HeaderName × Bytes)
headers = (codes "x-a", codes "b") ∷ []

reads_the_header :
    parse_headers library.header_name library.header_value library.utf8 http_args.header
    ≡ ok headers
unfolding parse_headers parse_header parse_header_name parse_header_field validate_non_empty_str
    is_hop_by_hop_header equal trim_start trim_end
reads_the_header = refl

refuses_te :
    parse_headers library.header_name library.header_value library.utf8 (codes "TE: trailers" ∷ [])
    ≡ err (
        invalid_config
          (lit "--header cannot set HTTP hop-by-hop header " ∷ display (codes "te") ∷ []))
unfolding parse_headers parse_header parse_header_name parse_header_field validate_non_empty_str
    is_hop_by_hop_header equal trim_start trim_end
refuses_te = refl

parse_headers_iff_example :
    (parse_headers library.header_name library.header_value library.utf8 http_args.header
      ≡ ok headers)
    ↔ AreHeaderLines library.header_name library.header_value library.utf8 http_args.header headers
parse_headers_iff_example =
    parse_headers_iff library.header_name library.header_value library.utf8 http_args.header headers

abbrev pub response : Response
response = record {
  status = 200;
  headers = [];
  hint = record { exact = some 2; upper = some 2 };
  body = frame (codes "up") ∷ [];
}

abbrev pub network : Network Text
network = record {
  tls = tls_library;
  exchange = λ connector request. ok response;
  connect = ok tt;
  handshake = ok tt;
  send_request = λ request. ok response;
}

abbrev pub options : ProbeOptions
options = record { timeout = 3000000000; quiet = false; verbose = true; max_latency = none }

abbrev report : ProbeReport
report = record {
  mode = "http";
  target = codes "http://h:8080/a";
  detail = some (codes "text");
  elapsed = 7;
  options = options;
}

pub runs : run library true (codes "salus") options http_args network 7 true ≡ ok report
unfolding run prepare_http_probe prepare_http_target validate_http_target_args prepare_url_target
    validate_raw_url_text validate_non_empty_str validate_no_unescaped_uri_text
    validate_percent_encoding percents_are_valid raw_url_scheme is_url_scheme is_http_url_scheme
    equal validate_raw_http_url_authority raw_url_authority until_path check_url_authority
    raw_url_port check_url_port is_unbracketed_ipv6_authority raw_host_is_empty is_ipv6
    validate_port parse_unsigned validate_authority validate_authority_text validate_bracketed_host
    check_port explicit_port canonical_http_scheme url_target_of parse_url url_authority
    default_host_header own_host_header own_header validate_host_header absolute_uri request_uri_for
    url_target_at validate_url_tls_args has_tls_flags parse_method trim_start trim_end
    validate_http_body_assertion_values validate_non_empty_values from_args parse_headers
    parse_header parse_header_name parse_header_field is_hop_by_hop_header header_assertions
    parse_header_names parse_header_assertions parse_status_ranges validate_http_capture_args
    validate_capture_limit has_body_assertions validate_http_method_assertions build_request
    run_target run_url build_url_http_client build_plain_http_client with_probe_timeout
    evaluate_response matches range_contains assert_response_headers assert_present assert_each
    read_body impossible_by_length upper_exceeds read_frames body_assertion_is_decided mismatch
    append_limited new count_true contains_slice observe_appended observe_needles found all_matched
    any_matched assert_response_body http_report
runs = refl

run-Decided_example : Decided library true (codes "salus") http_args network
run-Decided_example = run-Decided library true (codes "salus") options http_args network 7 true runs

validate_tls_options_iff_example :
    (validate_tls_options library.server_name false default_tls ≡ ok tt)
    ↔ ((check_server_name library.server_name false none ≡ ok tt) × IsConsistent false default_tls)
validate_tls_options_iff_example = validate_tls_options_iff library.server_name false default_tls

brackets_come_off : normalize_server_name_override (codes "[::1]") ≡ ok (codes "::1")
unfolding normalize_server_name_override is_ipv6
brackets_come_off = refl
