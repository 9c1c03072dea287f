-- ===== src/Prelude/Trim.antt =====
-- `str::trim` and the comparison without case.
use mathlib.Core.Bool.{Bool, ◌&&◌}
use mathlib.Core.List.{[], ◌∷◌, map}
use salus_rs.Prelude.Tests.{if◌then◌else◌}
use salus_rs.Prelude.Lists.{is_nil}
use salus_rs.Prelude.Chars.{Text, is_whitespace, to_ascii_lowercase, equal}

unfoldable pub trim_start : Text → Text
trim_start [] = []
trim_start (c ∷ s) = let rest = trim_start s in if is_whitespace c then rest else c ∷ s

unfoldable pub trim_end : Text → Text
trim_end [] = []
trim_end (c ∷ s) = let rest = trim_end s in if is_nil rest && is_whitespace c then [] else c ∷ rest

abbrev pub trim : Text → Text
trim s = trim_end (trim_start s)

abbrev pub eq_ignore_ascii_case : Text → Text → Bool
eq_ignore_ascii_case a b = equal (map to_ascii_lowercase a) (map to_ascii_lowercase b)
