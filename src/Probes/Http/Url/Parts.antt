-- ===== src/Probes/Http/Url/Parts.antt =====
-- The parts of an accepted URL.
use salus_rs.Prelude.{
  ℕ, ◌≡◌, refl, ap, subst, ◌∙◌, Bool, true, false, ◌||◌, Option, none, some, [], ◌∷◌, ◌++◌, arith,
  ◌==◌, if◌then◌else◌, any, all, Text, codes, split_once, split_once-some, strip_prefix,
  strip_prefix-some, is_ascii, eq_ignore_ascii_case, Result, ok, err, Bool-cases, inl, inr,
}
use salus_rs.Error.{AppResult}
use salus_rs.Authority.{optional, as_debug, contains, is_unsafe, validate_authority}
use salus_rs.Authority.Shape.{IsHostPort, validate_authority-IsHostPort}
use salus_rs.Probes.Http.Url.{
  percents_are_valid, validate_percent_encoding, validate_no_unescaped_uri_text,
  validate_raw_url_text, raw_url_scheme, is_http_url_scheme, canonical_http_scheme, until_path,
  raw_url_authority, check_url_authority,
}
use salus_rs.Probes.Http.Url.Percent.{IsPercentEncoded}

abbrev pub is_delimiter : ℕ → Bool
is_delimiter c = c == b'/' || c == b'?' || c == b'#'

-- The text behind an authority: none, or one that starts with the path, the query or the fragment.
pub data EndsAuthority : Text → Type 0 where
  at_end : EndsAuthority []
  at_delimiter : (c : ℕ) (s : Text) → is_delimiter c ≡ true → EndsAuthority (c ∷ s)

-- `http://authority` or `https://authority`, and what follows it. The authority is all of the text up to
-- the first delimiter.
pub record IsHttpUrl (raw : Text) (https : Bool) : Type 0 where
  pub scheme : Text
  pub authority : Text
  pub tail : Text
  pub shape : raw ≡ scheme ++ (b':' ∷ b'/' ∷ b'/' ∷ (authority ++ tail))
  pub named : eq_ignore_ascii_case scheme (codes (if https then "https" else "http")) ≡ true
  pub no_delimiter : any is_delimiter authority ≡ false
  pub ends : EndsAuthority tail
  pub host_port : IsHostPort authority
  pub no_user : contains b'@' authority ≡ false
  pub no_fragment : contains b'#' raw ≡ false
  pub encoded : IsPercentEncoded raw
  pub safe : any is_unsafe raw ≡ false
  pub ascii : all is_ascii raw ≡ true

-- A text is an authority and what follows it.
pub record Splits (text authority : Text) : Type 0 where
  pub tail : Text
  pub joined : text ≡ authority ++ tail
  pub no_delimiter : any is_delimiter authority ≡ false
  pub ends : EndsAuthority tail

until_path-Splits : (s : Text) → Splits s (until_path s)
unfolding until_path
until_path-Splits [] = record { tail = []; joined = refl; no_delimiter = refl; ends = at_end }
until_path-Splits (c ∷ s) = elim (Bool-cases (is_delimiter c)) [
  | inl delimiter ↦ rw delimiter (record {
    tail = c ∷ s;
    joined = refl;
    no_delimiter = refl;
    ends = at_delimiter c s delimiter;
  })
  | inr other ↦
      let split = until_path-Splits s in
      rw other (record {
        tail = split.tail;
        joined = ap (λ t. c ∷ t) split.joined;
        no_delimiter = ground (arith, other, split.no_delimiter);
        ends = split.ends;
      })
]

-- What `raw_url_authority` makes of the text behind the colon.
abbrev authority_behind : Text → Option Text
authority_behind rest = elim (strip_prefix b'/' rest) [
  | none ↦ none
  | some after_one ↦ elim (strip_prefix b'/' after_one) [
    | none ↦ none
    | some after_two ↦ some (until_path after_two)
  ]
]

-- Two slashes, and the authority behind them.
abbrev Behind : Text → Text → Type 0
Behind rest authority = (text : Text) × (rest ≡ b'/' ∷ b'/' ∷ text) × Splits text authority

slashes :
    (rest : Text) {authority : Text}
    → authority_behind rest ≡ some authority
    → Behind rest authority
slashes rest {authority} h = first_slash (strip_prefix b'/' rest) refl
  where
    second_slash :
        (after_one : Text) (o : Option Text)
        → strip_prefix b'/' rest ≡ some after_one
        → strip_prefix b'/' after_one ≡ o
        → Behind rest authority
    second_slash after_one none e e' = absurd (ground (arith, h, e, e'))
    second_slash after_one (some after_two) e e' =
        let same : until_path after_two ≡ authority = ground (arith, h, e, e') in
        (
          after_two,
          strip_prefix-some b'/' rest e ∙ ap (λ t. b'/' ∷ t) (strip_prefix-some b'/' after_one e'),
          subst (Splits after_two) same (until_path-Splits after_two),
        )

    first_slash : (o : Option Text) → strip_prefix b'/' rest ≡ o → Behind rest authority
    first_slash none e = absurd (ground (arith, h, e))
    first_slash (some after_one) e = second_slash after_one (strip_prefix b'/' after_one) e refl

-- The two readings of the text agree on where the scheme ends.
pub raw_url_authority-Splits :
    (raw : Text) {scheme authority : Text}
    → raw_url_scheme raw ≡ some scheme
    → raw_url_authority raw ≡ some authority
    → (text : Text) × (raw ≡ scheme ++ (b':' ∷ b'/' ∷ b'/' ∷ text)) × Splits text authority
unfolding raw_url_scheme raw_url_authority
raw_url_authority-Splits raw {scheme} {authority} hs ha = at_colon (split_once b':' raw) refl
  where
    at_colon :
        (o : Option (Text × Text))
        → split_once b':' raw ≡ o
        → (text : Text) × (raw ≡ scheme ++ (b':' ∷ b'/' ∷ b'/' ∷ text)) × Splits text authority
    at_colon none e = absurd (ground (arith, hs, e))
    at_colon (some (name, rest)) e =
        let same : name ≡ scheme = ground (arith, hs, e) in
        let behind_colon : authority_behind rest ≡ some authority = ground (arith, ha, e) in
        let (text, behind, split) = slashes rest behind_colon in
        (text, (split_once-some b':' raw e).0 ∙ rw (behind, same), split)

pub text_checks :
    (raw : Text)
    → validate_raw_url_text raw ≡ ok tt
    → (any is_unsafe raw ≡ false) × (all is_ascii raw ≡ true) × (percents_are_valid raw ≡ true)
unfolding validate_raw_url_text validate_no_unescaped_uri_text validate_percent_encoding
text_checks raw h = (ground arith, ground arith, ground arith)

pub scheme_lem :
    (scheme : Text)
    → is_http_url_scheme scheme ≡ true
    → eq_ignore_ascii_case scheme (codes (if canonical_http_scheme scheme then "https" else "http"))
      ≡ true
unfolding is_http_url_scheme canonical_http_scheme
scheme_lem scheme h = elim (Bool-cases (eq_ignore_ascii_case scheme (codes "https"))) [
  | inl https ↦ rw https https
  | inr other ↦ rw other (ground arith)
]

pub check_url_authority-IsHostPort :
    (parse_authority : Text → Result Text Text) (authority : Text)
    → check_url_authority parse_authority authority ≡ ok tt
    → (contains b'@' authority ≡ false) × IsHostPort authority
unfolding check_url_authority
check_url_authority-IsHostPort parse_authority authority h = (
  ground arith,
  accepted (validate_authority parse_authority authority "URL authority" optional as_debug) refl,
)
  where
    accepted :
        (r : AppResult Text)
        → validate_authority parse_authority authority "URL authority" optional as_debug ≡ r
        → IsHostPort authority
    accepted (ok host) e =
        validate_authority-IsHostPort parse_authority authority "URL authority" optional as_debug e
    accepted (err error) e = absurd (ground (arith, h, e))
