-- ===== src/Authority/Colons.antt =====
-- The colons of an authority, and what tells it from an IPv6 address without brackets.
use salus_rs.Prelude.{
  ℕ, ◌+◌, ◌≤◌, ◌<◌, ◌≡◌, refl, true, false, ◌&&◌, inl, inr, none, some, [], ◌∷◌, ◌++◌, arith, ◌==◌,
  ==_iff, all, Text, is_ascii_digit, is_ipv6, is_ipv6-colons, colons, split_once_two, rsplit_once,
  Bool-cases, Option-cases,
}
use salus_rs.Authority.{contains, is_unbracketed_ipv6_authority}
use salus_rs.Authority.Shape.{IsPortPart, no_port, a_port}

pub colons-append : (a b : Text) → colons (a ++ b) ≡ colons a + colons b
colons-append [] b = omega arith
colons-append (c ∷ a) b = ground (arith, colons-append a b)

pub lacks-colons : (s : Text) → contains b':' s ≡ false → colons s ≡ 0
lacks-colons [] h = refl
lacks-colons (c ∷ s) h = ground (arith, h, lacks-colons s)

split_once_two-colons :
    (s : Text) (parts : Text × Text) → split_once_two b':' b':' s ≡ some parts → 2 ≤ colons s
split_once_two-colons [] parts h = cc h
split_once_two-colons (c ∷ []) parts h = cc h
split_once_two-colons (c ∷ d ∷ s) parts h = elim (Bool-cases (c == b':' && d == b':')) [
  | inl here ↦ ground (arith, here)
  | inr later ↦ elim (Option-cases (split_once_two b':' b':' (d ∷ s))) [
    | inl e ↦ absurd (ground (arith, h, later, e))
    | inr (more, e) ↦ let rest = split_once_two-colons (d ∷ s) more e in ground (arith, rest)
  ]
]

rsplit_once-colons : (s a b : Text) → rsplit_once b':' s ≡ some (a, b) → colons a < colons s
rsplit_once-colons [] a b h = cc h
rsplit_once-colons (c ∷ s) a b h = elim (Option-cases (rsplit_once b':' s)) [
  | inl e ↦ ground (arith, h, e)
  | inr (parts, e) ↦
      let rest = rsplit_once-colons s parts.0 parts.1 e in
      let front : c ∷ parts.0 ≡ a = ground (arith, h, e) in ground (arith, rest, front)
]

not_ipv6 : (s : Text) → colons s ≤ 1 → is_ipv6 s ≡ false
not_ipv6 s few = elim (Bool-cases (is_ipv6 s)) [
  | inl e ↦ absurd (let many = is_ipv6-colons s e in omega (arith, few, many))
  | inr e ↦ e
]

no_pair : (s : Text) → colons s ≤ 1 → split_once_two b':' b':' s ≡ none
no_pair s few = elim (Option-cases (split_once_two b':' b':' s)) [
  | inl e ↦ e
  | inr (parts, e) ↦ absurd (let many = split_once_two-colons s parts e in omega (arith, few, many))
]

digits-lack :
    (c : ℕ) (s : Text)
    → is_ascii_digit c ≡ false
    → all is_ascii_digit s ≡ true
    → contains c s ≡ false
digits-lack c [] other h = refl
digits-lack c (d ∷ s) other h = elim (Bool-cases (d == c)) [
  | inl e ↦ absurd (
      let same = (==_iff d c).0 e in
      let digit : is_ascii_digit d ≡ true = ground (arith, h) in cc (same, digit, other))
  | inr e ↦ let rest = digits-lack c s other (ground (arith, h)) in ground (arith, e, rest)
]

-- With one colon a text is not taken for an address without its brackets.
pub few_colons-eq : (raw : Text) → colons raw ≤ 1 → is_unbracketed_ipv6_authority raw ≡ false
unfolding is_unbracketed_ipv6_authority
few_colons-eq raw few =
    let whole = not_ipv6 raw few in
    let single = no_pair raw few in
    elim (Option-cases (rsplit_once b':' raw)) [
      | inl e ↦ ground (arith, whole, single, e)
      | inr (parts, e) ↦
          let fewer = rsplit_once-colons raw parts.0 parts.1 e in
          let front = not_ipv6 parts.0 (omega (arith, few, fewer)) in
          ground (arith, whole, single, e, front)
    ]

pub port_part-lacks :
    (suffix : Text)
    → IsPortPart suffix
    → (contains b'[' suffix ≡ false) × (contains b']' suffix ≡ false) × (colons suffix ≤ 1)
port_part-lacks _ no_port = (refl, refl, omega arith)
port_part-lacks _ (a_port port numeral low high) =
    let open_lacks = digits-lack b'[' port refl numeral.1 in
    let close_lacks = digits-lack b']' port refl numeral.1 in
    let none_more = lacks-colons port (digits-lack b':' port refl numeral.1) in
    (ground (arith, open_lacks), ground (arith, close_lacks), ground (arith, none_more))
