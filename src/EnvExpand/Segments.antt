-- ===== src/EnvExpand/Segments.antt =====
-- The language of an argument: what its parts are, how they are written, and what they stand for.
use salus_rs.Prelude.{
  ℕ, ◌≡◌, ◌≢◌, refl, true, Option, none, some, List, [], ◌∷◌, ◌++◌, arith, all, All, Text,
  split_once_two, ok, ◌>>=◌,
}
use salus_rs.Error.{AppResult}
use salus_rs.EnvExpand.{is_name_char, validate_env_name, choose}

pub data Segment : Type 0 where
  plain : ℕ → Segment
  dollar_pair : Segment
  lone_dollar : Segment
  variable : Text → Segment
  defaulted : Text → Text → Segment

-- A segment in front of what follows it.
abbrev pub write : Segment → Text → Text
write (plain c) rest = c ∷ rest
write dollar_pair rest = b'$' ∷ b'$' ∷ rest
write lone_dollar rest = b'$' ∷ rest
write (variable name) rest = b'$' ∷ b'{' ∷ (name ++ (b'}' ∷ rest))
write (defaulted name default) rest =
    b'$' ∷ b'{' ∷ ((name ++ (b':' ∷ b'-' ∷ default)) ++ (b'}' ∷ rest))

abbrev pub print : List Segment → Text
print [] = []
print (s ∷ segments) = write s (print segments)

abbrev pub StartsNoExpansion : Text → Type 0
StartsNoExpansion [] = Unit
StartsNoExpansion (c ∷ s) = (c ≢ b'$') × (c ≢ b'{')

-- What can be written so that it reads back as the segment; `rest` is the text that follows.
abbrev pub Fits : Segment → Text → Type 0
Fits (plain c) rest = c ≢ b'$'
Fits dollar_pair rest = Unit
Fits lone_dollar rest = StartsNoExpansion rest
Fits (variable name) rest = validate_env_name name ≡ ok tt
Fits (defaulted name default) rest = (validate_env_name name ≡ ok tt) × All (λ c. c ≢ b'}') default

abbrev pub AreSegments : List Segment → Type 0
AreSegments [] = Unit
AreSegments (s ∷ segments) = Fits s (print segments) × AreSegments segments

module _ (lookup : Text → AppResult (Option Text)) where
  abbrev pub value_of : Segment → AppResult Text
  value_of (plain c) = ok (c ∷ [])
  value_of dollar_pair = ok (b'$' ∷ [])
  value_of lone_dollar = ok (b'$' ∷ [])
  value_of (variable name) = do value ← lookup name; choose lookup name value none
  value_of (defaulted name default) = do
    value ← lookup name
    choose lookup name value (some default)

  -- The values in their order, up to the first error.
  abbrev pub meaning : List Segment → AppResult Text
  meaning [] = ok []
  meaning (s ∷ segments) = do value ← value_of s; rest ← meaning segments; ok (value ++ rest)

pub name_chars : (name : Text) → validate_env_name name ≡ ok tt → all is_name_char name ≡ true
unfolding validate_env_name
name_chars [] h = refl
name_chars (c ∷ cs) h = ground arith

pub split_name : (name : Text) → all is_name_char name ≡ true → split_once_two b':' b'-' name ≡ none
split_name [] h = refl
split_name (c ∷ []) h = refl
split_name (c ∷ d ∷ s) h = ground (arith, split_name (d ∷ s))

pub split_name_default :
    (name default : Text)
    → all is_name_char name ≡ true
    → split_once_two b':' b'-' (name ++ (b':' ∷ b'-' ∷ default)) ≡ some (name, default)
split_name_default [] default h = refl
split_name_default (c ∷ []) default h = ground arith
split_name_default (c ∷ d ∷ s) default h = ground (arith, split_name_default (d ∷ s) default)

pub name_lacks_brace : (name : Text) → all is_name_char name ≡ true → All (λ c. c ≢ b'}') name
name_lacks_brace [] h = tt
name_lacks_brace (c ∷ s) h = (ground arith, name_lacks_brace s (ground arith))

pub All-append :
    (xs ys : Text)
    → All (λ c. c ≢ b'}') xs
    → All (λ c. c ≢ b'}') ys
    → All (λ c. c ≢ b'}') (xs ++ ys)
All-append [] ys hx hy = hy
All-append (x ∷ xs) ys (h, hx) hy = (h, All-append xs ys hx hy)
