-- ===== src/Tests/Entries.antt =====
-- Tests of lib.rs, and of probes/grpc.rs.
use salus_rs.Prelude.{
  ◌≡◌, ◌↔◌, refl, arith, true, false, none, some, [], ◌∷◌, Text, utf8, codes, equal, ok, is_ipv6,
  parse_unsigned,
}
use salus_rs.Probe.{ProbeOptions, ProbeReport, with_probe_timeout}
use salus_rs.Validation.{
  validate_non_empty_str, validate_positive_duration, validate_non_empty_path,
  validate_non_empty_values, validate_capture_limit,
}
use salus_rs.Authority.{
  validate_authority, validate_authority_text, validate_bracketed_host,
  is_unbracketed_ipv6_authority, raw_host_is_empty, check_port, explicit_port, validate_port,
}
use salus_rs.Tls.{default_tls, has_tls_flags}
use salus_rs.Probes.Grpc.{
  GrpcArgs, GrpcSystem, serving_status, grpc_target, validate_grpc_args, prepare_grpc_endpoint,
  origin_of, connector_for, connect_grpc_channel, check_status, run_check,
}
use salus_rs.Probes.Grpc
use salus_rs.Probes.Grpc.Serving.{IsServing, run-IsServing}
use salus_rs.Entry.{file, Cli, World, options_from, run_exit, main_entry}
use salus_rs.Entry.Codes.{IsExitCode, main_entry-IsExitCode}
use salus_rs.Entry.Silent.{IsSilent, run_exit-IsSilent}
use salus_rs.Entry.Contract.{Contract, IsRead, expanded, main_entry-Contract}
use salus_rs.Entry.Met.{IsMet, main_entry-IsMet}
use salus_rs.Probes.File.Healthy.{run-IsHealthy}
use salus_rs.Tests.Certificates.{tls_library}
use salus_rs.Tests.Https.{library, network}
use salus_rs.Tests.Children.{system}
use salus_rs.Argv.Help.{help_scan, help_or_version_args}
use salus_rs.EnvExpand.{expand_argv_with_partial, expand_arg_os, expand_text}
use salus_rs.Probes.File.{
  validate_file_args, check_metadata, check_open, check_contents, check_texts, file_report,
  metadata_error,
}
use salus_rs.Probes.File
use salus_rs.Capture.{append_limited}
use salus_rs.TextMatch.{new, contains_slice, observe_appended, observe_needles, found, all_matched}
use salus_rs.Tests.Files.{args, chunks, fs}

abbrev grpc_args : GrpcArgs
grpc_args = record {
  addr = codes "h:80";
  service = some (codes "orders");
  authority = none;
  tls = false;
  tls_args = default_tls;
}

abbrev grpc_system : GrpcSystem
grpc_system = record {
  parse_authority = λ text. ok text;
  server_name = λ text. ok text;
  endpoint = λ text. ok tt;
  origin = λ text. ok tt;
  tls = tls_library;
  with_https = λ uri. ok uri;
  connect = λ endpoint connector. ok tt;
  check = λ service. ok 1;
}

abbrev options : ProbeOptions
options = record { timeout = 3000000000; quiet = false; verbose = true; max_latency = some 10 }

abbrev grpc_report : ProbeReport
grpc_report = record {
  mode = "grpc";
  target = codes "text";
  detail = some (codes "status=SERVING");
  elapsed = 7;
  options = options;
}

serves : Grpc.run grpc_system true library.render options grpc_args 7 true ≡ ok grpc_report
unfolding Grpc.run validate_grpc_args validate_non_empty_str validate_authority
    validate_authority_text validate_bracketed_host is_unbracketed_ipv6_authority is_ipv6
    raw_host_is_empty check_port explicit_port validate_port parse_unsigned has_tls_flags
    prepare_grpc_endpoint origin_of connector_for connect_grpc_channel with_probe_timeout run_check
    grpc_target check_status serving_status
serves = refl

run-IsServing_example : IsServing grpc_system true grpc_args 3000000000
run-IsServing_example =
    run-IsServing grpc_system true grpc_args library.render options 7 true serves

abbrev cli : Cli
cli = record {
  timeout = 3000000000;
  max_latency = some 10;
  quiet = false;
  verbose = true;
  command = file args;
}

-- The parser takes every command line for the same call.
abbrev world : World Text
world = record {
  lookup = λ name. ok none;
  try_parse_from = λ arguments. ok cli;
  library = library;
  webpki = true;
  user_agent = codes "salus";
  network = network;
  resolver = record { lookup = ok []; latest = 10000000000; now = 5 };
  grpc = grpc_system;
  exec = system;
  file = fs;
  latest = 10000000000;
  now = 5;
  elapsed = 7;
  in_time = true;
}

run_exit-IsSilent_example :
    ((run_exit world cli).stderr ≡ none) ↔ IsSilent false true (run_exit world cli).code
run_exit-IsSilent_example = run_exit-IsSilent world cli

main_entry-IsExitCode_example :
    IsExitCode (main_entry world (utf8 (codes "salus") ∷ utf8 (codes "${MISSING}") ∷ [])).code
main_entry-IsExitCode_example =
    main_entry-IsExitCode world (utf8 (codes "salus") ∷ utf8 (codes "${MISSING}") ∷ [])

abbrev ready_report : ProbeReport
ready_report = record {
  mode = "file";
  target = codes "text";
  detail = some (codes "text");
  elapsed = 7;
  options = options;
}

file_is_ready : File.run library.render options args fs 7 true ≡ ok ready_report
unfolding File.run File.run_inner validate_file_args with_probe_timeout check_metadata check_open
    check_contents append_limited new observe_appended observe_needles found contains_slice
    all_matched check_texts equal file_report metadata_error validate_non_empty_path
    validate_non_empty_values validate_capture_limit validate_positive_duration
file_is_ready = refl

reads_the_arguments : IsRead world (utf8 (codes "salus") ∷ []) (utf8 (codes "salus") ∷ [])
unfolding help_or_version_args help_scan expand_argv_with_partial expand_arg_os expand_text
reads_the_arguments = expanded refl refl

cli-IsMet : IsMet world chunks cli
unfolding options_from
cli-IsMet = record {
  some_time = omega arith;
  in_range = omega arith;
  in_time = refl;
  some_limit = λ limit e. ground (arith, e);
  fast = λ limit e. ground (arith, e);
  meets =
      let (valid, _, healthy) =
        (run-IsHealthy library.render options args fs chunks 7 true refl).0
          (ready_report, file_is_ready) in
      (valid, healthy);
}

main_entry-IsMet_example : (main_entry world (utf8 (codes "salus") ∷ [])).code ≡ 0
main_entry-IsMet_example = main_entry-IsMet world chunks refl reads_the_arguments refl cli-IsMet

main_entry-Contract_example : Contract world chunks (utf8 (codes "salus") ∷ [])
main_entry-Contract_example =
    main_entry-Contract world chunks refl (utf8 (codes "salus") ∷ [])
      (main_entry-IsMet world chunks refl reads_the_arguments refl cli-IsMet)
