-- ===== src/Diagnostic.antt =====
-- diagnostic.rs: how a text of the user is shown in a message.
use salus_rs.Prelude.{
  Bool, ◌||◌, ◌==◌, if◌then◌else◌, is_nil, any, is_control, is_whitespace, Text, OsStr, utf8, other,
}
use salus_rs.Error.{Piece, display, debug, debug_os}

contains_control : Text → Bool
contains_control raw = any is_control raw

contains_whitespace : Text → Bool
contains_whitespace raw = any is_whitespace raw

contains_quoted_char : Text → Bool
contains_quoted_char raw = any (λ ch. ch == b'"' || ch == b'\\') raw

unfoldable pub value : Text → Piece
unfolding contains_control contains_whitespace contains_quoted_char
value raw =
    if is_nil raw || contains_whitespace raw || contains_control raw || contains_quoted_char raw
    then debug raw
    else display raw

-- `os_str`, and `path` for a path.
unfoldable pub os_str : OsStr → Piece
unfolding value
os_str (utf8 raw) = value raw
os_str (other raw) = debug_os (other raw)

unfoldable pub path : OsStr → Piece
unfolding value
path (utf8 raw) = value raw
path (other raw) = debug_os (other raw)

unfoldable pub path_field : OsStr → Piece
path_field (utf8 raw) = display raw
path_field (other raw) = debug_os (other raw)
