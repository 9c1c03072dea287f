-- ===== src/Lib.antt =====
-- A model of salus, the runner of health check probes for containers, and the theorems that make it
-- correct. The program takes raw arguments, expands `${NAME}` in them, parses them, runs one probe
-- under a deadline, and ends with an exit code. Its parts and the files that model them:
--   src/error.rs, src/diagnostic.rs: Error, Diagnostic. A message is the list of its literal parts
--     and arguments, so that an error says all that the program would print.
--   src/text_match.rs: TextMatch. `observe_appended` is the loop over the needles; Occurs says what
--     a search finds, Tracking what a matcher knows of all bytes that it has seen.
--   src/capture.rs: Capture. Limit relates a buffer to the stream that was appended to it; Watched
--     joins the buffer and a matcher, as the reading loops do.
--   src/validation.rs, src/probe.rs: Validation, Probe.
--   src/tls.rs: Tls for the checks of the options; Tls.Config for the reading of the PEM files and
--     the configuration that is built, with Read, Loaded, Built and Secured for its theorems.
--   src/authority.rs: Authority, with Port, Accepted, Shape, Colons and Grammar for its
--     theorems.
--   src/env_expand.rs: EnvExpand, with Segments, Expansion and Partial.
--   src/cli.rs: Cli, the tree of subcommands and options that the scan of the raw arguments reads;
--     the parsed arguments are records of the probes.
--   src/argv.rs: Argv, with Options, Help and Quiet; Quiet.Scans is what its theorems share.
--     Help.Control says which arguments ask for help or the version; First, Named, Read, Words and Skips are
--     about single arguments, Steps about one step of the scan, and Exact joins the two directions.
--   src/probes/file.rs: Probes.File, with Contents for the reading loop and Healthy for the probe.
--   src/probes/http.rs: Probes.Http, with Args, Url, Target, Headers, Status, Body, Client
--     for the connector and the client, and Evaluate for the probe.
--   src/probes/exec.rs: Probes.Exec, with Args for the arguments, Config for the command, Output
--     for the reading tasks and
--     the waits for them, Group for the process group and its cleanup, and Child for the process.
--   src/probes/tcp.rs, src/probes/grpc.rs: Probes.Tcp, Probes.Grpc, with Serving for what a success
--     shows and Accepted for what it needs.
--   src/output.rs: Output. src/lib.rs, src/main.rs, src/probes/mod.rs: Entry. Entry.Contract and
--     Entry.Met join the probes: what the exit code 0 promises, and what it needs. Silent says when
--     nothing is printed, and Reports what a report carries.
-- Prelude holds what they share: lists, results, texts, numbers and IPv6 addresses as the standard
-- library reads them. Tests holds runs at concrete inputs.
--
-- A function of the model has the name of the function that it models; a loop or a block of a longer
-- function is a function of its own. What the program asks of the system is an argument: the file
-- system's answers, the frames of a body, the reads of a pipe, the outcome of a wait. An interleaving
-- is a list of events, so that a theorem about all lists holds of all orders. The `?` of the source
-- is the bind of Result. A text is the list of its code points, a text that is searched for is the
-- list of its bytes, a duration is a number of nanoseconds, and a length is a natural number: no
-- length reaches the bound of `usize`. Every loop is a recursion on the list that it consumes, so
-- that no fuel is needed; behind the last event of a list stands the end of the stream or of the
-- grace period, as each file says. A wait for the output of a command is a list of wake-ups, each
-- with its delay; it ends with an instant.
--
-- Parameters stand for code of other packages: the parsers of URIs, authorities, header fields and
-- PEM files, rustls's roots and server names, clap's parser, and the handshakes, connections and
-- servers behind hyper and tonic. Not modelled: the writing to the streams; the task that
-- drives a connection over a Unix socket, and its end when the probe ends; the verifier that accepts
-- every certificate, as far as it is more than a name; a task that panics, and a lock that is
-- poisoned by one; and the versions for platforms other than Unix.
mod Prelude
pub mod Error
pub mod Diagnostic
pub mod TextMatch
pub mod Capture
pub mod Validation
pub mod Probe
pub mod Tls
pub mod Probes
pub mod EnvExpand
pub mod Authority
pub mod Cli
pub mod Argv
pub mod Output
pub mod Entry
mod Tests
