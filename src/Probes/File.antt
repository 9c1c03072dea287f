-- ===== src/Probes/File.antt =====
-- probes/file.rs: the checks of a file's metadata and of the texts that it must contain.
pub mod Contents
pub mod Healthy
use salus_rs.Prelude.{
  ℕ, ◌-◌, Bool, true, false, not, ◌&&◌, ◌||◌, Option, none, some, List, [], ◌∷◌, ltb, ◌==◌,
  if◌then◌else◌, is_nil, Text, Bytes, OsStr, Result, ok, err, ◌>>=◌, ◌>>◌, map_err, refuse_if,
}
use salus_rs.Error.{
  AppError, AppResult, failure, invalid_config, Piece, Message, lit, display, debug, number,
  duration,
}
use salus_rs.Diagnostic.{path, path_field}
use salus_rs.Validation.{
  validate_non_empty_path, validate_non_empty_values, validate_capture_limit,
  validate_positive_duration,
}
use salus_rs.Probe.{ProbeOptions, ProbeReport, with_probe_timeout}
use salus_rs.Capture.{CaptureBuffer, default, append_limited}
use salus_rs.TextMatch.{TextMatcher, new, observe_appended, all_matched, contains_bytes}

pub record FileArgs : Type 0 where
  pub path : OsStr
  pub readable : Bool
  pub non_empty : Bool
  pub contains : List Bytes
  pub min_size : Option ℕ
  pub max_size : Option ℕ
  pub max_age : Option ℕ
  pub max_read : ℕ

-- One `read` of the open file: the bytes read, none at the end of the file, or an error.
pub data Read : Type 0 where
  chunk : Bytes → Read
  failed : Text → Read

pub data MetadataError : Type 0 where
  not_found : MetadataError
  other : Text → MetadataError

-- `modified` is the time of the last change, in nanoseconds, where the platform has it.
pub record Metadata : Type 0 where
  pub is_file : Bool
  pub len : ℕ
  pub modified : Result Text ℕ

-- What the system answers in one run of the probe: the file's metadata, the time, the `open`, and
-- each `read`. Behind the last `read` of the list stands the end of the file.
pub record FileSystem : Type 0 where
  pub metadata : Result MetadataError Metadata
  pub now : ℕ
  pub open_file : Result Text Unit
  pub reads : List Read

size_range_error : Option ℕ → Option ℕ → AppResult Unit
size_range_error (some min_size) (some max_size) = refuse_if (ltb max_size min_size) (
    invalid_config (
      lit "invalid file size range: min-size "
      ∷ number min_size
      ∷ lit " is greater than max-size "
      ∷ number max_size
      ∷ []))
size_range_error _ _ = ok tt

validate_max_age : Option ℕ → AppResult Unit
validate_max_age none = ok tt
validate_max_age (some max_age) = validate_positive_duration "--max-age" max_age

unfoldable pub validate_file_args : FileArgs → AppResult Unit
unfolding size_range_error validate_max_age
validate_file_args args = do
  validate_non_empty_path "--path" args.path
  size_range_error args.min_size args.max_size
  validate_non_empty_values "--contains" args.contains
  validate_capture_limit "--max-read" args.max_read "file content assertions"
      (not (is_nil args.contains))
  validate_max_age args.max_age

-- The loop of `read_file`.
unfoldable pub read_loop :
    OsStr → ℕ → List Bytes → CaptureBuffer → TextMatcher → List Read → AppResult CaptureBuffer
read_loop file limit required body matcher [] = ok body
read_loop file limit required body matcher (failed error ∷ reads) =
    err (failure (lit "failed to read " ∷ path file ∷ lit ": " ∷ display error ∷ []))
read_loop file limit required body matcher (chunk buffer ∷ reads) =
    let (body', previous_len) = append_limited body buffer limit in
    let matcher' = observe_appended matcher body'.bytes previous_len in
    let rest = read_loop file limit required body' matcher' reads in
    if is_nil buffer
    then ok body
    else if (not (is_nil required) && all_matched matcher') || body'.incomplete
    then ok body'
    else rest

unfoldable pub read_file : OsStr → ℕ → List Bytes → List Read → AppResult CaptureBuffer
unfolding read_loop
read_file file limit required reads = read_loop file limit required default (new required) reads

-- The loop over the required texts.
unfoldable pub check_texts : OsStr → ℕ → CaptureBuffer → List Bytes → AppResult Unit
check_texts file max_read body [] = ok tt
check_texts file max_read body (needle ∷ needles) =
    if not (contains_bytes body.bytes needle)
    then (if body.incomplete
        then err (
            failure (
              lit "file "
              ∷ path file
              ∷ lit " was truncated at "
              ∷ number max_read
              ∷ lit " bytes, cannot prove required text "
              ∷ debug needle
              ∷ []))
        else err (
            failure (
              lit "file "
              ∷ path file
              ∷ lit " does not contain required text "
              ∷ debug needle
              ∷ [])))
    else check_texts file max_read body needles

check_min_size : OsStr → Option ℕ → ℕ → AppResult Unit
check_min_size file none len = ok tt
check_min_size file (some min_size) len = refuse_if (ltb len min_size) (
    failure
      (lit "file " ∷ path file ∷ lit " is smaller than " ∷ number min_size ∷ lit " bytes" ∷ []))

check_max_size : OsStr → Option ℕ → ℕ → AppResult Unit
check_max_size file none len = ok tt
check_max_size file (some max_size) len = refuse_if (ltb max_size len) (
    failure
      (lit "file " ∷ path file ∷ lit " is larger than " ∷ number max_size ∷ lit " bytes" ∷ []))

check_age : OsStr → Option ℕ → Result Text ℕ → ℕ → AppResult Unit
check_age file none modified now = ok tt
check_age file (some max_age) modified now = do
  changed ←
      map_err
        (λ error.
          failure (
            lit "failed to read modification time for "
            ∷ path file
            ∷ lit ": "
            ∷ display error
            ∷ []))
        modified
  refuse_if (ltb now changed)
      (failure (lit "file " ∷ path file ∷ lit " has a modification time in the future" ∷ []))
  refuse_if (ltb max_age (now - changed))
      (failure (lit "file " ∷ path file ∷ lit " is older than " ∷ duration max_age ∷ []))

unfoldable pub metadata_error : OsStr → MetadataError → AppError
metadata_error file not_found = failure (lit "file " ∷ path file ∷ lit " does not exist" ∷ [])
metadata_error file (other error) =
    failure (lit "failed to read metadata for " ∷ path file ∷ lit ": " ∷ display error ∷ [])

-- The part of `run_inner` between the open and the report.
unfoldable pub check_contents : FileArgs → FileSystem → AppResult Unit
unfolding check_texts read_file
check_contents args fs = if is_nil args.contains then ok tt else do
  body ← read_file args.path args.max_read args.contains fs.reads
  check_texts args.path args.max_read body args.contains

unfoldable pub check_open : FileArgs → FileSystem → AppResult Unit
unfolding check_contents
check_open args fs =
    if args.readable || not (is_nil args.contains)
    then (do
      map_err
          (λ error.
            failure (lit "failed to open " ∷ path args.path ∷ lit ": " ∷ display error ∷ []))
          fs.open_file
      check_contents args fs)
    else ok tt

-- The guards of `run_inner` on the metadata, in their order.
unfoldable pub check_metadata : FileArgs → Metadata → ℕ → AppResult Unit
unfolding check_min_size check_max_size check_age
check_metadata args metadata now = do
  refuse_if (not metadata.is_file) (failure (path args.path ∷ lit " is not a regular file" ∷ []))
  check_min_size args.path args.min_size metadata.len
  check_max_size args.path args.max_size metadata.len
  refuse_if (args.non_empty && metadata.len == 0)
      (failure (lit "file " ∷ path args.path ∷ lit " is empty" ∷ []))
  check_age args.path args.max_age metadata.modified now

module _ (render : Message → Text) where
  unfoldable pub file_report : ProbeOptions → FileArgs → Metadata → ℕ → ProbeReport
  file_report options args metadata elapsed = record {
    mode = "file";
    target = render (path_field args.path ∷ []);
    detail = some (render (lit "size=" ∷ number metadata.len ∷ lit "B" ∷ []));
    elapsed = elapsed;
    options = options;
  }

  unfoldable pub run_inner : ProbeOptions → FileArgs → FileSystem → ℕ → AppResult ProbeReport
  unfolding metadata_error file_report
  run_inner options args fs elapsed = do
    metadata ← map_err (metadata_error args.path) fs.metadata
    check_metadata args metadata fs.now
    check_open args fs
    ok (file_report options args metadata elapsed)

  -- `in_time` says whether the inner future was ready before the timeout.
  unfoldable pub run : ProbeOptions → FileArgs → FileSystem → ℕ → Bool → AppResult ProbeReport
  run options args fs elapsed in_time = do
    validate_file_args args
    with_probe_timeout "file" options.timeout
        (if in_time then some (run_inner options args fs elapsed) else none)
