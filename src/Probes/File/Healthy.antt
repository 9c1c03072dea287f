-- ===== src/Probes/File/Healthy.antt =====
-- The file probe succeeds exactly when the file meets every requirement of the arguments.
use salus_rs.Prelude.{
  ℕ, ◌-◌, ◌≤◌, ◌<◌, ◌≡◌, refl, ◌↔◌, Bool, true, not, ◌||◌, Option, none, some, List, map, arith,
  is_nil, take, All, Text, Bytes, Result, ok, err,
}
use salus_rs.Error.{Message}
use salus_rs.Probe.{ProbeOptions, ProbeReport, with_probe_timeout}
use salus_rs.TextMatch.Occurs.{Occurs}
use salus_rs.Probes.File.{
  FileArgs, FileSystem, MetadataError, Metadata, chunk, check_min_size, check_max_size, check_age,
  check_metadata, check_contents, check_open, file_report, run_inner, run, validate_file_args,
}
use salus_rs.Probes.File.Contents.{contents, check_contents_iff}

abbrev AtLeast : Option ℕ → ℕ → Type 0
AtLeast none len = Unit
AtLeast (some min_size) len = min_size ≤ len

abbrev AtMost : Option ℕ → ℕ → Type 0
AtMost none len = Unit
AtMost (some max_size) len = len ≤ max_size

-- The time of the last change is known, is not in the future, and is recent enough.
abbrev IsFresh : Option ℕ → Result Text ℕ → ℕ → Type 0
IsFresh none modified now = Unit
IsFresh (some max_age) (ok changed) now = (changed ≤ now) × (now - changed ≤ max_age)
IsFresh (some max_age) (err e) now = ⊥

pub record MeetsMetadata (args : FileArgs) (m : Metadata) (now : ℕ) : Type 0 where
  pub regular : m.is_file ≡ true
  pub at_least : AtLeast args.min_size m.len
  pub at_most : AtMost args.max_size m.len
  pub non_empty : args.non_empty ≡ true → 0 < m.len
  pub fresh : IsFresh args.max_age m.modified now

check_min_size_iff :
    (args : FileArgs) (o : Option ℕ) (len : ℕ)
    → (check_min_size args.path o len ≡ ok tt) ↔ AtLeast o len
unfolding check_min_size
check_min_size_iff args none len = ground arith
check_min_size_iff args (some n) len = ground arith

check_max_size_iff :
    (args : FileArgs) (o : Option ℕ) (len : ℕ)
    → (check_max_size args.path o len ≡ ok tt) ↔ AtMost o len
unfolding check_max_size
check_max_size_iff args none len = ground arith
check_max_size_iff args (some n) len = ground arith

check_age_iff :
    (args : FileArgs) (o : Option ℕ) (modified : Result Text ℕ) (now : ℕ)
    → (check_age args.path o modified now ≡ ok tt) ↔ IsFresh o modified now
unfolding check_age
check_age_iff args none modified now = ground arith
check_age_iff args (some a) (ok t) now = ground arith
check_age_iff args (some a) (err e) now = ground arith

-- The guards on the metadata pass exactly when the metadata meets the requirements.
pub check_metadata_iff :
    (args : FileArgs) (m : Metadata) (now : ℕ)
    → (check_metadata args m now ≡ ok tt) ↔ MeetsMetadata args m now
unfolding check_metadata
check_metadata_iff args m now = (
  λ h. ground (
    arith,
    check_min_size_iff args args.min_size m.len,
    check_max_size_iff args args.max_size m.len,
    check_age_iff args args.max_age m.modified now,
  ),
  λ h. ground (
    arith,
    (check_min_size_iff args args.min_size m.len).1 h.at_least,
    (check_max_size_iff args args.max_size m.len).1 h.at_most,
    (check_age_iff args args.max_age m.modified now).1 h.fresh,
  ),
)

-- What the arguments ask of a file whose contents are `total`.
pub record IsHealthy (args : FileArgs) (fs : FileSystem) (total : Bytes) : Type 0 where
  pub metadata : Metadata
  pub known : fs.metadata ≡ ok metadata
  pub meets : MeetsMetadata args metadata fs.now
  pub opens : (args.readable || not (is_nil args.contains)) ≡ true → fs.open_file ≡ ok tt
  pub texts : All (λ needle. Occurs needle (take args.max_read total)) args.contains

check_open_iff :
    (args : FileArgs) (fs : FileSystem)
    → (check_open args fs ≡ ok tt) ↔ (
        ((args.readable || not (is_nil args.contains)) ≡ true → fs.open_file ≡ ok tt)
        × (check_contents args fs ≡ ok tt))
unfolding check_open check_contents
check_open_iff args fs = (λ h. (λ asked. ground arith, ground arith), λ h. ground (arith, h.0))

module _ (render : Message → Text) (options : ProbeOptions) (args : FileArgs) (fs : FileSystem)
    (elapsed : ℕ) where
  -- The three stages of `run_inner`.
  abbrev Passes : Metadata → Type 0
  Passes m =
      (fs.metadata ≡ ok m) × (check_metadata args m fs.now ≡ ok tt) × (check_open args fs ≡ ok tt)

  run_inner-Passes :
      (found : Result MetadataError Metadata) {r : ProbeReport}
      → fs.metadata ≡ found
      → run_inner render options args fs elapsed ≡ ok r
      → (m : Metadata) × Passes m
  unfolding run_inner
  run_inner-Passes (ok m) e h = (m, (e, ground arith, ground arith))
  run_inner-Passes (err error) e h = ground arith

  Passes-run_inner :
      (m : Metadata)
      → Passes m
      → (r : ProbeReport) × (run_inner render options args fs elapsed ≡ ok r)
  unfolding run_inner
  Passes-run_inner m p = (file_report render options args m elapsed, ground arith)

  Passes-IsHealthy :
      (chunks : List Bytes) (m : Metadata)
      → fs.reads ≡ map chunk chunks
      → Passes m
      → IsHealthy args fs (contents chunks)
  Passes-IsHealthy chunks m reads p =
      let opened = (check_open_iff args fs).0 p.2 in
      record {
        metadata = m;
        known = p.0;
        meets = (check_metadata_iff args m fs.now).0 p.1;
        opens = opened.0;
        texts = (check_contents_iff args fs chunks reads).0 opened.1;
      }

  IsHealthy-Passes :
      (chunks : List Bytes)
      → fs.reads ≡ map chunk chunks
      → (h : IsHealthy args fs (contents chunks)) → Passes h.metadata
  IsHealthy-Passes chunks reads h = (
    h.known,
    (check_metadata_iff args h.metadata fs.now).1 h.meets,
    (check_open_iff args fs).1 (h.opens, (check_contents_iff args fs chunks reads).1 h.texts),
  )

  run-ok :
      {in_time : Bool} {r : ProbeReport}
      → run render options args fs elapsed in_time ≡ ok r
      → (validate_file_args args ≡ ok tt)
        × (in_time ≡ true)
        × (run_inner render options args fs elapsed ≡ ok r)
  unfolding run with_probe_timeout
  run-ok {in_time} h = ground arith

  ok-run :
      {in_time : Bool} {r : ProbeReport}
      → (validate_file_args args ≡ ok tt)
        × (in_time ≡ true)
        × (run_inner render options args fs elapsed ≡ ok r)
      → run render options args fs elapsed in_time ≡ ok r
  unfolding run with_probe_timeout
  ok-run {in_time} h = ground arith

-- With a file that is read without an error, the probe reports success exactly when the arguments
-- are valid, the checks end in time, and the file meets every requirement.
pub run-IsHealthy :
    (render : Message → Text) (options : ProbeOptions) (args : FileArgs) (fs : FileSystem)
    (chunks : List Bytes) (elapsed : ℕ) (in_time : Bool)
    → fs.reads ≡ map chunk chunks
    → ((r : ProbeReport) × (run render options args fs elapsed in_time ≡ ok r))
      ↔ ((validate_file_args args ≡ ok tt) × (in_time ≡ true) × IsHealthy args fs (contents chunks))
run-IsHealthy render options args fs chunks elapsed in_time reads = (
  λ h.
      let parts = run-ok render options args fs elapsed h.1 in
      let (m, passes) = run_inner-Passes render options args fs elapsed fs.metadata refl parts.2 in
      (parts.0, parts.1, Passes-IsHealthy render options args fs elapsed chunks m reads passes),
  λ h.
      let passes = IsHealthy-Passes render options args fs elapsed chunks reads h.2 in
      let (r, inner) = Passes-run_inner render options args fs elapsed h.2.metadata passes in
      (r, ok-run render options args fs elapsed (h.0, h.1, inner)),
)
