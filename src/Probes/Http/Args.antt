-- ===== src/Probes/Http/Args.antt =====
-- The arguments of the HTTP probe (cli.rs).
use salus_rs.Prelude.{ℕ, Bool, ◌||◌, not, Option, List, is_some, is_nil, Text, Bytes, OsStr}
use salus_rs.Tls.{TlsArgs}

-- Texts that are searched in a body are given by their bytes.
pub record HttpArgs : Type 0 where
  pub url : Option Text
  pub sock : Option OsStr
  pub path : Option Text
  pub method : Text
  pub header : List Text
  pub host : Option Text
  pub status : List Text
  pub header_present : List Text
  pub header_equals : List Text
  pub header_contains : List Text
  pub header_not_contains : List Text
  pub body_equals : Option Bytes
  pub contains : List Bytes
  pub not_contains : List Bytes
  pub tls : TlsArgs
  pub max_body : ℕ

unfoldable pub has_body_assertions : HttpArgs → Bool
has_body_assertions args =
    is_some args.body_equals || not (is_nil args.contains) || not (is_nil args.not_contains)
