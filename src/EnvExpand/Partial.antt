-- ===== src/EnvExpand/Partial.antt =====
-- What is known of the arguments when an expansion fails, and what a success keeps.
use salus_rs.Prelude.{
  ◌≡◌, refl, sym, ap, ◌∙◌, Option, List, [], ◌∷◌, ◌++◌, append-nil, append_assoc, Text, OsStr,
  Result, ok, err,
}
use salus_rs.Error.{AppResult}
use salus_rs.EnvExpand.{ExpandArgvError, expand_arg_os, expand_args, expand_argv_with_partial}

module _ (lookup : Text → AppResult (Option Text)) where
  -- The arguments `raw` expand to `done`, one by one.
  pub data Expanded : List OsStr → List OsStr → Type 0 where
    nil : Expanded [] []
    cons :
        {arg arg' : OsStr} {raw done : List OsStr}
        → expand_arg_os lookup arg ≡ ok arg'
        → Expanded raw done
        → Expanded (arg ∷ raw) (arg' ∷ done)

  -- `args` splits at the first argument that does not expand.
  pub record StopsAt (args : List OsStr) (e : ExpandArgvError) (before : List OsStr) : Type 0 where
    pub raw : List OsStr
    pub done : List OsStr
    pub bad : OsStr
    pub rest : List OsStr
    pub splits : args ≡ raw ++ (bad ∷ rest)
    pub expanded : Expanded raw done
    pub refused : expand_arg_os lookup bad ≡ err e.error
    pub partial_is : e.partial_args ≡ before ++ done
    pub tail_is : e.raw_tail ≡ bad ∷ rest

  -- The loop either expands all, or stops at the first bad argument.
  abbrev pub Outcome : List OsStr → List OsStr → Result ExpandArgvError (List OsStr) → Type 0
  Outcome args before (ok out) = (done : List OsStr) × Expanded args done × (out ≡ before ++ done)
  Outcome args before (err e) = StopsAt args e before

  StopsAt-cons :
      {arg arg' : OsStr} {args before : List OsStr} {e : ExpandArgvError}
      → expand_arg_os lookup arg ≡ ok arg'
      → StopsAt args e (before ++ arg' ∷ [])
      → StopsAt (arg ∷ args) e before
  StopsAt-cons {arg} {arg'} {args} {before} h s = record {
    raw = arg ∷ s.raw;
    done = arg' ∷ s.done;
    bad = s.bad;
    rest = s.rest;
    splits = ap (λ t. arg ∷ t) s.splits;
    expanded = cons h s.expanded;
    refused = s.refused;
    partial_is = s.partial_is ∙ append_assoc before (arg' ∷ []) s.done;
    tail_is = s.tail_is;
  }

  Outcome-cons :
      (arg arg' : OsStr) (args before : List OsStr) (r : Result ExpandArgvError (List OsStr))
      → expand_arg_os lookup arg ≡ ok arg'
      → Outcome args (before ++ arg' ∷ []) r
      → Outcome (arg ∷ args) before r
  Outcome-cons arg arg' args before (ok out) h (done, all, e) =
      (arg' ∷ done, cons h all, e ∙ append_assoc before (arg' ∷ []) done)
  Outcome-cons arg arg' args before (err e) h s = StopsAt-cons h s

  expand_args-Outcome :
      (args before : List OsStr) → Outcome args before (expand_args lookup args before)
  unfolding expand_args
  expand_args-Outcome [] before = ([], nil, sym (append-nil before))
  expand_args-Outcome (arg ∷ args) before =
      first (expand_arg_os lookup arg) refl (λ b. expand_args-Outcome args b)
    where
      first :
          (r : AppResult OsStr)
          → expand_arg_os lookup arg ≡ r
          → ((b : List OsStr) → Outcome args b (expand_args lookup args b))
          → Outcome (arg ∷ args) before (expand_args lookup (arg ∷ args) before)
      first (ok arg') h ih =
          rw (h, expand_args) (Outcome-cons arg arg' args before _ h (ih (before ++ arg' ∷ [])))
      first (err error) h ih =
          rw (h, expand_args)
            (record {
              raw = [];
              done = [];
              bad = arg;
              rest = args;
              splits = refl;
              expanded = nil;
              refused = h;
              partial_is = sym (append-nil before);
              tail_is = refl;
            })

-- The program's name is kept as it is. Either every other argument is expanded, in its place, or the
-- error is that of the first argument that does not expand; then the partial arguments are the name and
-- the expansions of those before it, and the raw tail starts with it.
pub expand_argv-Outcome :
    (lookup : Text → AppResult (Option Text)) (arg0 : OsStr) (args : List OsStr)
    → Outcome lookup args (arg0 ∷ []) (expand_argv_with_partial lookup (arg0 ∷ args))
unfolding expand_argv_with_partial
expand_argv-Outcome lookup arg0 args = expand_args-Outcome lookup args (arg0 ∷ [])
