-- ===== src/Prelude/Ipv6.antt =====
-- `str::parse::<Ipv6Addr>` of the standard library, up to the address that it returns.
pub mod Colons
use Prim.Native.Nat.{ℕ, zero, suc, ◌+◌, ◌-◌, ◌*◌}
use mathlib.Core.Bool.{Bool, true, false, ◌&&◌}
use mathlib.Core.List.{[], ◌∷◌}
use mathlib.Core.Option.{Option, none, some}
use salus_rs.Prelude.Tests.{leb, ◌==◌, if◌then◌else◌}
use salus_rs.Prelude.Chars.{Text, is_ascii_digit, is_ascii_hexdigit}

-- A reader takes a part from the front, or takes nothing.
abbrev Reader : Type 0
Reader = Text → Option Text

char_reader : ℕ → Reader
char_reader c [] = none
char_reader c (d ∷ s) = if d == c then some s else none

-- `read_separator`: no separator in front of the first part.
separated : ℕ → ℕ → Reader → Reader
unfolding char_reader
separated sep zero inner s = inner s
separated sep (suc i) inner s = elim (char_reader sep s) [ none ↦ none | some rest ↦ inner rest ]

-- Digits are read as long as there are any; more than the limit are an error.
hex_digits : ℕ → Reader
hex_digits count [] = if leb 1 count && leb count 4 then some [] else none
hex_digits count (c ∷ s) =
    let more = hex_digits (count + 1) s in
    if is_ascii_hexdigit c then more else if leb 1 count && leb count 4 then some (c ∷ s) else none

-- A decimal octet: at most three digits, no leading zero before another digit, at most 255.
octet_ok : Bool → ℕ → ℕ → Bool
octet_ok leading_zero count n =
    leb 1 count && leb count 3 && leb n 255 && (if leading_zero then count == 1 else true)

octet_digits : Bool → ℕ → ℕ → Reader
unfolding octet_ok
octet_digits zero_first count n [] = if octet_ok zero_first count n then some [] else none
octet_digits zero_first count n (c ∷ s) =
    let more = octet_digits zero_first (count + 1) (n * 10 + (c - b'0')) s in
    if is_ascii_digit c then more else if octet_ok zero_first count n then some (c ∷ s) else none

octet : Reader
unfolding octet_digits
octet [] = none
octet (c ∷ s) = octet_digits (c == b'0') 0 0 (c ∷ s)

bind_reader : Option Text → Reader → Option Text
bind_reader none r = none
bind_reader (some s) r = r s

ipv4 : Reader
unfolding octet separated bind_reader
ipv4 s = bind_reader (octet s) λ s1.
    bind_reader (separated b'.' 1 octet s1)
      λ s2. bind_reader (separated b'.' 2 octet s2) λ s3. separated b'.' 3 octet s3

-- `read_groups`: with `left` slots to fill and `i` filled, how many groups were read, whether they end
-- in an IPv4 address, and the rest.
read_groups : ℕ → ℕ → Text → ℕ × Bool × Text
unfolding ipv4 separated hex_digits
read_groups zero i s = (i, false, s)
read_groups (suc left) i s =
    let quad = if leb 1 left then separated b':' i ipv4 s else none in
    elim quad [
      | some rest ↦ (i + 2, true, rest)
      | none ↦ elim (separated b':' i (hex_digits 0) s) [
        | some rest ↦ read_groups left (i + 1) rest
        | none ↦ (i, false, s)
      ]
    ]

is_end : Text → Bool
is_end [] = true
is_end (c ∷ s) = false

-- Behind `::` stand at most `7 - head` groups.
ipv6_tail : ℕ → Option Text → Bool
unfolding read_groups is_end
ipv6_tail head none = false
ipv6_tail head (some rest) = is_end (read_groups (7 - head) 0 rest).2

unfoldable pub is_ipv6 : Text → Bool
unfolding read_groups ipv6_tail is_end bind_reader char_reader
is_ipv6 s =
    let (head, quad, rest) = read_groups 8 0 s in
    if head == 8
    then is_end rest
    else if quad
    then false
    else ipv6_tail head (bind_reader (char_reader b':' rest) (char_reader b':'))
