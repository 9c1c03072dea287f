-- ===== src/Tests/Files.antt =====
-- Tests of probes/file.rs.
use salus_rs.Prelude.{
  ◌≡◌, ◌↔◌, refl, true, false, none, some, List, [], ◌∷◌, map, Text, Bytes, utf8, codes, equal, ok,
  err,
}
use salus_rs.Error.{Message, failure, lit, debug, number}
use salus_rs.Diagnostic.{path}
use salus_rs.Probe.{ProbeOptions, ProbeReport}
use salus_rs.TextMatch.{new, contains_slice, observe_appended, observe_needles, found, all_matched}
use salus_rs.Capture.{append_limited}
use salus_rs.Probes.File.{
  FileArgs, FileSystem, chunk, check_texts, check_contents, validate_file_args, run,
}
use salus_rs.Probes.File.Contents.{contents, whole_read, check_contents-whole_read}
use salus_rs.Probes.File.Healthy.{IsHealthy, run-IsHealthy}

abbrev pub args : FileArgs
args = record {
  path = utf8 (codes "/tmp/ready");
  readable = false;
  non_empty = true;
  contains = codes "ready" ∷ codes "ok" ∷ [];
  min_size = some 3;
  max_size = none;
  max_age = some 60;
  max_read = 12;
}

abbrev pub chunks : List Bytes
chunks = codes "ok, rea" ∷ codes "dy and more" ∷ codes "rest" ∷ []

abbrev pub fs : FileSystem
fs = record {
  metadata = ok (record { is_file = true; len = 22; modified = ok 100 });
  now = 150;
  open_file = ok tt;
  reads = map chunk chunks;
}

abbrev options : ProbeOptions
options = record { timeout = 3000000000; quiet = false; verbose = true; max_latency = none }

abbrev render : Message → Text
render m = codes "text"

reads_two_chunks : check_contents args fs ≡ ok tt
unfolding check_contents append_limited new observe_appended observe_needles found contains_slice
    all_matched check_texts equal
reads_two_chunks = refl

truncated_file :
    check_contents (record args { contains = codes "more" ∷ []; max_read = 9 }) fs
    ≡ err (
        failure (
          lit "file "
          ∷ path args.path
          ∷ lit " was truncated at "
          ∷ number 9
          ∷ lit " bytes, cannot prove required text "
          ∷ debug (codes "more")
          ∷ []))
unfolding check_contents append_limited new observe_appended observe_needles found contains_slice
    all_matched check_texts equal
truncated_file = refl

check_contents-whole_read_example :
    check_contents args fs
    ≡ check_texts args.path 12 (whole_read 12 (contents chunks)) args.contains
check_contents-whole_read_example = check_contents-whole_read args fs chunks refl

run-IsHealthy_example :
    ((r : ProbeReport) × (run render options args fs 7 true ≡ ok r))
    ↔ ((validate_file_args args ≡ ok tt) × (true ≡ true) × IsHealthy args fs (contents chunks))
run-IsHealthy_example = run-IsHealthy render options args fs chunks 7 true refl
