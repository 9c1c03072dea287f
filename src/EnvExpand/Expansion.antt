-- ===== src/EnvExpand/Expansion.antt =====
-- The expansion of an argument, segment by segment.
use salus_rs.Prelude.{
  ℕ, ◌≡◌, ◌≢◌, refl, sym, ap, ◌∙◌, inl, inr, Option, none, some, List, [], ◌∷◌, ◌++◌, append-nil,
  append_assoc, arith, ◌==◌, if◌then◌else◌, All, Text, ok, err, ◌>>=◌, Bool-cases, ==_iff,
}
use salus_rs.Error.{AppResult}
use salus_rs.EnvExpand.{
  validate_env_name, choose, name_and_default, expand_expression, expand_from, expand_text,
}
use salus_rs.EnvExpand.Segments.{
  Segment, plain, dollar_pair, lone_dollar, variable, defaulted, write, print, StartsNoExpansion,
  Fits, AreSegments, value_of, meaning, name_chars, split_name, split_name_default,
  name_lacks_brace, All-append,
}

module _ (lookup : Text → AppResult (Option Text)) where
  abbrev after : (Text → AppResult Text) → Text → AppResult Text → AppResult Text
  after k out r = do value ← r; k (out ++ value)

  expand_plain :
      (c : ℕ) (rest out : Text)
      → c ≢ b'$'
      → expand_from lookup none (c ∷ rest) out ≡ expand_from lookup none rest (out ++ c ∷ [])
  unfolding expand_from
  expand_plain c [] out h = refl
  expand_plain c (d ∷ rest) out h = ground arith

  expand_dollar :
      (rest out : Text)
      → StartsNoExpansion rest
      → expand_from lookup none (b'$' ∷ rest) out ≡ expand_from lookup none rest (out ++ b'$' ∷ [])
  unfolding expand_from
  expand_dollar [] out h = refl
  expand_dollar (d ∷ rest) out h = ground arith

  expand_end :
      (expr rest out : Text)
      → expand_from lookup (some expr) (b'}' ∷ rest) out
        ≡ (do value ← expand_expression lookup expr; expand_from lookup none rest (out ++ value))
  unfolding expand_from
  expand_end expr rest out = refl

  expand_inner_step :
      (c : ℕ) (expr rest out : Text)
      → c ≢ b'}'
      → expand_from lookup (some expr) (c ∷ rest) out
        ≡ expand_from lookup (some (expr ++ c ∷ [])) rest out
  unfolding expand_from
  expand_inner_step c expr rest out h = ground arith

  expand_open :
      (rest out : Text)
      → expand_from lookup none (b'$' ∷ b'{' ∷ rest) out ≡ expand_from lookup (some []) rest out
  unfolding expand_from
  expand_open rest out = refl

  expand_pair :
      (rest out : Text)
      → expand_from lookup none (b'$' ∷ b'$' ∷ rest) out
        ≡ expand_from lookup none rest (out ++ b'$' ∷ [])
  unfolding expand_from
  expand_pair rest out = refl

  expand_inner :
      (body expr rest out : Text)
      → All (λ c. c ≢ b'}') body
      → expand_from lookup (some expr) (body ++ (b'}' ∷ rest)) out ≡ (do
        value ← expand_expression lookup (expr ++ body)
        expand_from lookup none rest (out ++ value))
  expand_inner [] expr rest out h = rw append-nil (expand_end expr rest out)
  expand_inner (c ∷ body) expr rest out (h, hs) =
      expand_inner_step c expr (body ++ (b'}' ∷ rest)) out h
      ∙ expand_inner body (expr ++ c ∷ []) rest out hs
      ∙ ap (λ e. after (λ t. expand_from lookup none rest t) out (expand_expression lookup e))
          (append_assoc expr (c ∷ []) body)

  expression_by :
      (expr name : Text) (default : Option Text)
      → name_and_default expr ≡ (name, default)
      → validate_env_name name ≡ ok tt
      → expand_expression lookup expr ≡ (do value ← lookup name; choose lookup name value default)
  expression_by expr name default e h = unfold expand_expression in rw (e, h)

  expression_variable :
      (name : Text)
      → validate_env_name name ≡ ok tt
      → expand_expression lookup name ≡ value_of lookup (variable name)
  expression_variable name h =
      expression_by name name none
        (unfold name_and_default in rw (split_name name (name_chars name h), name_and_default)) h

  expression_defaulted :
      (name default : Text)
      → validate_env_name name ≡ ok tt
      → expand_expression lookup (name ++ (b':' ∷ b'-' ∷ default))
        ≡ value_of lookup (defaulted name default)
  expression_defaulted name default h =
      expression_by _ name (some default)
        (unfold name_and_default in
          rw (split_name_default name default (name_chars name h), name_and_default))
        h

  expand_write :
      (s : Segment) (rest out : Text)
      → Fits s rest
      → expand_from lookup none (write s rest) out
        ≡ after (λ t. expand_from lookup none rest t) out (value_of lookup s)
  expand_write (plain c) rest out h = expand_plain c rest out h
  expand_write dollar_pair rest out h = expand_pair rest out
  expand_write lone_dollar rest out h = expand_dollar rest out h
  expand_write (variable name) rest out h =
      expand_open _ out
      ∙ expand_inner name [] rest out (name_lacks_brace name (name_chars name h))
      ∙ ap (after (λ t. expand_from lookup none rest t) out) (expression_variable name h)
  expand_write (defaulted name default) rest out (h, lacks) =
      expand_open _ out
      ∙ expand_inner (name ++ (b':' ∷ b'-' ∷ default)) [] rest out (
          All-append name _ (name_lacks_brace name (name_chars name h))
            (omega arith, (omega arith, lacks)))
      ∙ ap (after (λ t. expand_from lookup none rest t) out) (expression_defaulted name default h)

  join_rest :
      (k : Text → AppResult Text) (out : Text) (r rest : AppResult Text)
      → ((t : Text) → k t ≡ after ok t rest)
      → after k out r ≡ after ok out (do value ← r; more ← rest; ok (value ++ more))
  join_rest k out (err e) rest h = refl
  join_rest k out (ok value) (err e) h = h (out ++ value)
  join_rest k out (ok value) (ok more) h = h (out ++ value) ∙ ap ok (append_assoc out value more)

  expand_segments :
      (segments : List Segment) (out : Text)
      → AreSegments segments
      → expand_from lookup none (print segments) out ≡ after ok out (meaning lookup segments)
  expand_segments [] out h = unfold expand_from in ap ok (sym (append-nil out))
  expand_segments (s ∷ segments) out (h, hs) =
      expand_write s (print segments) out h
      ∙ join_rest (λ t. expand_from lookup none (print segments) t) out (value_of lookup s)
          (meaning lookup segments) (λ t. expand_segments segments t hs)

after_nil : (r : AppResult Text) → (do value ← r; ok ([] ++ value)) ≡ r
after_nil (ok v) = refl
after_nil (err e) = refl

-- Text that is written from well-formed segments expands to what the segments stand for, or to the first
-- error among them.
pub expand_text-print :
    (lookup : Text → AppResult (Option Text)) (segments : List Segment)
    → AreSegments segments
    → expand_text lookup (print segments) ≡ meaning lookup segments
unfolding expand_text
expand_text-print lookup segments h =
    expand_segments lookup segments [] h ∙ after_nil (meaning lookup segments)

-- The text with every `$` doubled, as the help text advises.
abbrev pub double_dollars : Text → Text
double_dollars [] = []
double_dollars (c ∷ s) = if c == b'$' then b'$' ∷ b'$' ∷ double_dollars s else c ∷ double_dollars s

expand_doubled :
    (lookup : Text → AppResult (Option Text)) (s out : Text)
    → expand_from lookup none (double_dollars s) out ≡ ok (out ++ s)
expand_doubled lookup [] out = unfold expand_from in ap ok (sym (append-nil out))
expand_doubled lookup (c ∷ s) out = elim (Bool-cases (c == b'$')) [
  | inl is_dollar ↦
      rw (is_dollar, (==_iff c b'$').0 is_dollar)
        (expand_pair lookup (double_dollars s) out
          ∙ expand_doubled lookup s (out ++ b'$' ∷ [])
          ∙ ap ok (append_assoc out (b'$' ∷ []) s))
  | inr other ↦ rw other (
      expand_plain lookup c (double_dollars s) out (ground arith)
      ∙ expand_doubled lookup s (out ++ c ∷ [])
      ∙ ap ok (append_assoc out (c ∷ []) s))
]

-- Text in which every `$` is doubled expands to the text itself, whatever the environment holds.
pub expand_text-double_dollars :
    (lookup : Text → AppResult (Option Text)) (s : Text)
    → expand_text lookup (double_dollars s) ≡ ok s
unfolding expand_text
expand_text-double_dollars lookup s = expand_doubled lookup s []
