-- ===== src/Argv.antt =====
-- argv.rs: what the raw arguments ask for, before they are expanded and parsed.
pub mod Options
pub mod Help
pub mod Quiet
use salus_rs.Prelude.{Option, none, some, List, [], ◌∷◌, ◌++◌, OsStr}

unfoldable pub with_raw_tail : List OsStr → List OsStr → List OsStr
with_raw_tail partial_args raw_tail = partial_args ++ raw_tail
