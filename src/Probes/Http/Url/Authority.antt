-- ===== src/Probes/Http/Url/Authority.antt =====
-- The authority of an HTTP URL is the one that the scan of the text finds.
use salus_rs.Prelude.{
  ◌≡◌, refl, sym, ap, ◌∙◌, Bool, true, false, some, [], ◌∷◌, ◌++◌, arith, if◌then◌else◌, any, Text,
  codes, map, to_ascii_lowercase, equal_iff, eq_ignore_ascii_case,
}
use salus_rs.Authority.{contains}
use salus_rs.Authority.Grammar.{split_once-at}
use salus_rs.Probes.Http.Url.{until_path, raw_url_authority}
use salus_rs.Probes.Http.Url.Parts.{is_delimiter, EndsAuthority, at_end, at_delimiter, IsHttpUrl}

until_path-ends : (tail : Text) → EndsAuthority tail → until_path tail ≡ []
unfolding until_path
until_path-ends _ at_end = refl
until_path-ends _ (at_delimiter c s delimiter) = ground (arith, delimiter)

until_path-append :
    (authority tail : Text)
    → any is_delimiter authority ≡ false
    → EndsAuthority tail
    → until_path (authority ++ tail) ≡ authority
unfolding until_path
until_path-append [] tail clean ends = until_path-ends tail ends
until_path-append (c ∷ s) tail clean ends =
    let rest = until_path-append s tail (ground (arith, clean)) ends in ground (arith, clean, rest)

lowercase-contains : (s : Text) → contains b':' (map to_ascii_lowercase s) ≡ contains b':' s
lowercase-contains [] = refl
lowercase-contains (c ∷ s) = ground (arith, lowercase-contains s)

-- The letters of a scheme are no colon.
scheme_lacks :
    (scheme name : Text)
    → eq_ignore_ascii_case scheme name ≡ true
    → contains b':' name ≡ false
    → contains b':' scheme ≡ false
scheme_lacks scheme name h lacks =
    sym (lowercase-contains scheme)
    ∙ ap (contains b':')
        ((equal_iff (map to_ascii_lowercase scheme) (map to_ascii_lowercase name)).0 h)
    ∙ lowercase-contains name
    ∙ lacks

name_lacks : (https : Bool) → contains b':' (codes (if https then "https" else "http")) ≡ false
name_lacks true = refl
name_lacks false = refl

-- The parts of an HTTP URL are those of its text: there is no other authority in it.
pub raw_url_authority-IsHttpUrl :
    (raw : Text) (https : Bool) (u : IsHttpUrl raw https) → raw_url_authority raw ≡ some u.authority
unfolding raw_url_authority
raw_url_authority-IsHttpUrl raw https u =
    let split =
      split_once-at b':' u.scheme (b'/' ∷ b'/' ∷ (u.authority ++ u.tail))
        (scheme_lacks u.scheme _ u.named (name_lacks https)) in
    let found = until_path-append u.authority u.tail u.no_delimiter u.ends in
    ap raw_url_authority u.shape ∙ rw (split, found, raw_url_authority) refl
