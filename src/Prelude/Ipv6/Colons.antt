-- ===== src/Prelude/Ipv6/Colons.antt =====
-- An IPv6 address has at least two colons.
use Prim.Native.Nat.{ℕ, zero, suc, ◌+◌, ◌-◌, ◌*◌, ◌≤◌}
use mathlib.Core.Path.{◌≡◌, refl}
use mathlib.Core.Bool.{Bool, true, false, ◌&&◌}
use mathlib.Core.List.{[], ◌∷◌}
use mathlib.Core.Logic.{inl, inr}
use mathlib.Core.Option.{Option, none, some}
use native.Mathlib.Omega.{arith}
use salus_rs.Prelude.Tests.{leb, ◌==◌, ==_iff, if◌then◌else◌, Bool-cases, Option-cases}
use salus_rs.Prelude.Chars.{Text, is_ascii_digit, is_ascii_hexdigit}
use salus_rs.Prelude.Ipv6.{
  Reader, char_reader, separated, hex_digits, octet_digits, octet, bind_reader, ipv4, read_groups,
  ipv6_tail, is_ipv6,
}

abbrev pub colons : Text → ℕ
colons [] = 0
colons (c ∷ s) = (if c == b':' then 1 else 0) + colons s

-- What a reader leaves has no more colons than what it was given.
abbrev Shrinks : Reader → Type 0
Shrinks r = (s t : Text) → r s ≡ some t → colons t ≤ colons s

hex_digits-Shrinks : (count : ℕ) → Shrinks (hex_digits count)
unfolding hex_digits
hex_digits-Shrinks count [] t h = ground arith
hex_digits-Shrinks count (c ∷ s) t h = elim (Bool-cases (is_ascii_hexdigit c)) [
  | inl digit ↦
      let more = hex_digits-Shrinks (count + 1) s t (ground (arith, h, digit)) in
      omega (arith, more)
  | inr other ↦ ground (arith, h, other)
]

octet_digits-Shrinks : (zero_first : Bool) (count n : ℕ) → Shrinks (octet_digits zero_first count n)
unfolding octet_digits
octet_digits-Shrinks zero_first count n [] t h = ground arith
octet_digits-Shrinks zero_first count n (c ∷ s) t h = elim (Bool-cases (is_ascii_digit c)) [
  | inl digit ↦
      let more =
        octet_digits-Shrinks zero_first (count + 1) (n * 10 + (c - b'0')) s t
          (ground (arith, h, digit)) in
      omega (arith, more)
  | inr other ↦ ground (arith, h, other)
]

octet-Shrinks : Shrinks octet
unfolding octet
octet-Shrinks [] t h = cc h
octet-Shrinks (c ∷ s) t h = octet_digits-Shrinks (c == b'0') 0 0 (c ∷ s) t h

char_reader-colons :
    (sep : ℕ) (s t : Text)
    → char_reader sep s ≡ some t
    → colons s ≡ (if sep == b':' then 1 else 0) + colons t
unfolding char_reader
char_reader-colons sep [] t h = cc h
char_reader-colons sep (c ∷ s) t h = ground (arith, h)

-- A separator that is read is one colon less.
separated-colons :
    (sep i : ℕ) (inner : Reader)
    → Shrinks inner
    → (s t : Text) → separated sep i inner s ≡ some t
    → colons t + (if sep == b':' && leb 1 i then 1 else 0) ≤ colons s
unfolding separated
separated-colons sep zero inner shrinks s t h = let less = shrinks s t h in ground (arith, less)
separated-colons sep (suc i) inner shrinks s t h = elim (Option-cases (char_reader sep s)) [
  | inl e ↦ absurd (ground (arith, h, e))
  | inr (rest, e) ↦
      let less = shrinks rest t (ground (arith, h, e)) in
      let one = char_reader-colons sep s rest e in ground (arith, less, one)
]

bind_reader-some :
    (o : Option Text) (r : Reader) (t : Text)
    → bind_reader o r ≡ some t
    → (s : Text) × (o ≡ some s) × (r s ≡ some t)
unfolding bind_reader
bind_reader-some none r t h = cc h
bind_reader-some (some s) r t h = (s, refl, h)

ipv4-Shrinks : Shrinks ipv4
unfolding ipv4
ipv4-Shrinks s t h =
    let (s1, e1, h1) = bind_reader-some (octet s) _ t h in
    let (s2, e2, h2) = bind_reader-some (separated b'.' 1 octet s1) _ t h1 in
    let (s3, e3, h3) = bind_reader-some (separated b'.' 2 octet s2) _ t h2 in
    let less1 = octet-Shrinks s s1 e1 in
    let less2 = separated-colons b'.' 1 octet octet-Shrinks s1 s2 e2 in
    let less3 = separated-colons b'.' 2 octet octet-Shrinks s2 s3 e3 in
    let less4 = separated-colons b'.' 3 octet octet-Shrinks s3 t h3 in
    omega (arith, less1, less2, less3, less4)

abbrev flag : Bool → ℕ
flag true = 1
flag false = 0

guarded : (b : Bool) (o : Option Text) (t : Text) → (if b then o else none) ≡ some t → o ≡ some t
guarded true o t h = h
guarded false o t h = cc h

flag_le : (b : Bool) → flag b ≤ 1
flag_le true = omega arith
flag_le false = omega arith

-- Every group but the first one takes a colon, and an IPv4 address counts as two groups.
abbrev Counts : ℕ → Text → ℕ × Bool × Text → Type 0
Counts i s (head, quad, rest) =
    (colons rest ≤ colons s)
    × (colons rest + head ≤ colons s + i + flag quad + (if leb 1 i then 0 else 1))

read_groups-Counts : (left i : ℕ) (s : Text) → Counts i s (read_groups left i s)
unfolding read_groups
read_groups-Counts zero i s = (omega arith, ground arith)
read_groups-Counts (suc left) i s =
    let quad = if leb 1 left then separated b':' i ipv4 s else none in
    elim (Option-cases quad) [
      | inr (rest, e) ↦
          let used =
            separated-colons b':' i ipv4 ipv4-Shrinks s rest (guarded (leb 1 left) _ rest e) in
          rw (e, read_groups) (ground (arith, used), ground (arith, used))
      | inl e ↦ elim (Option-cases (separated b':' i (hex_digits 0) s)) [
        | inl e' ↦ rw (e, e', read_groups) (omega arith, ground arith)
        | inr (rest, e') ↦
            let used = separated-colons b':' i (hex_digits 0) (hex_digits-Shrinks 0) s rest e' in
            let (less, counted) = read_groups-Counts left (i + 1) rest in
            rw (e, e', read_groups) (ground (arith, used, less), ground (arith, used, counted))
      ]
    ]

two_colons :
    (s rest t : Text)
    → char_reader b':' s ≡ some rest
    → char_reader b':' rest ≡ some t
    → 2 ≤ colons s
two_colons s rest t e e' =
    let one = char_reader-colons b':' s rest e in
    let two = char_reader-colons b':' rest t e' in omega (arith, one, two)

-- An IPv6 address has at least two colons.
pub is_ipv6-colons : (s : Text) → is_ipv6 s ≡ true → 2 ≤ colons s
unfolding is_ipv6 ipv6_tail
is_ipv6-colons s h =
    let g = read_groups 8 0 s in
    let (less, counted) = read_groups-Counts 8 0 s in
    elim (Bool-cases (g.0 == 8)) [
      | inl eight ↦
          let all_groups = (==_iff g.0 8).0 eight in
          let one = flag_le g.1 in omega (arith, counted, all_groups, one)
      | inr few ↦ elim (Bool-cases g.1) [
        | inl quad ↦ absurd (ground (arith, h, few, quad))
        | inr groups ↦ elim (Option-cases (bind_reader (char_reader b':' g.2) (char_reader b':'))) [
          | inl e ↦ absurd (ground (arith, h, few, groups, e))
          | inr (t, e) ↦
              let (rest, first, second) = bind_reader-some (char_reader b':' g.2) _ t e in
              let two = two_colons g.2 rest t first second in omega (arith, two, less)
        ]
      ]
    ]
