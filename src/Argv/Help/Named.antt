-- ===== src/Argv/Help/Named.antt =====
-- The options as texts, and the table of the options.
use salus_rs.Prelude.{
  ◌≡◌, refl, sym, ◌∙◌, subst, inl, inr, Bool, true, false, ◌&&◌, ◌==◌, Option, none, some, [], ◌∷◌,
  ◌++◌, is_nil, split_once, split_once-some, split_once-none, arith, Text, Bool-cases, Option-cases,
}
use salus_rs.Authority.{contains}
use salus_rs.Authority.Grammar.{split_once-at, split_once-nowhere}
use salus_rs.Cli.{Arg, Subcommand, cli_command}
use salus_rs.Argv.Options.{OptionSpec, from_arg, split_long_option, find_long_option, option_spec}
use salus_rs.Argv.Help.Control.{
  IsWritten, alone, with_value, IsNamed, of_program, of_command, behind_command, IsOption,
}
use salus_rs.Argv.Help.First.{IsFirst-find, All-find, find-IsFirst, find-All}

split-alone :
    (name : Text)
    → ¬ (name ≡ [])
    → contains b'=' name ≡ false
    → split_long_option (b'-' ∷ b'-' ∷ name) ≡ some (name, false)
unfolding split_long_option
split-alone [] some_name free = absurd (some_name refl)
split-alone (c ∷ name) some_name free =
    let nowhere = split_once-nowhere b'=' (c ∷ name) free in rw (nowhere, split_long_option) refl

split-with_value :
    (name value : Text)
    → ¬ (name ≡ [])
    → contains b'=' name ≡ false
    → split_long_option (b'-' ∷ b'-' ∷ (name ++ (b'=' ∷ value))) ≡ some (name, true)
unfolding split_long_option
split-with_value [] value some_name free = absurd (some_name refl)
split-with_value (c ∷ name) value some_name free =
    let at = split_once-at b'=' (c ∷ name) value free in rw (at, split_long_option) refl

-- What is read of a text is written there.
record IsRead (arg name : Text) (inline : Bool) : Type 0 where
  some_name : ¬ (name ≡ [])
  written : IsWritten name arg inline

IsWritten-split :
    (name arg : Text) (inline : Bool)
    → ¬ (name ≡ [])
    → IsWritten name arg inline
    → split_long_option arg ≡ some (name, inline)
IsWritten-split name _ _ some_name (alone free) = split-alone name some_name free
IsWritten-split name _ _ some_name (with_value value free) =
    split-with_value name value some_name free

IsRead-subst :
    (arg : Text) {n name : Text} {i inline : Bool}
    → n ≡ name
    → i ≡ inline
    → IsRead arg n i
    → IsRead arg name inline
IsRead-subst arg {n} {name} {i} {inline} e f r =
    subst (IsRead arg name) f (subst (λ x. IsRead arg x i) e r)

some_text : (t : Text) → is_nil t ≡ false → ¬ (t ≡ [])
some_text t some_there e =
    let nil_there : is_nil t ≡ true = subst (λ x. is_nil x ≡ true) (sym e) refl in
    cc (nil_there, some_there)

dashed-IsRead :
    (arg name : Text) (inline : Bool)
    → split_long_option (b'-' ∷ b'-' ∷ arg) ≡ some (name, inline)
    → IsRead (b'-' ∷ b'-' ∷ arg) name inline
unfolding split_long_option
dashed-IsRead arg name inline h = elim (Option-cases (split_once b'=' arg)) [
  | inl e ↦ elim (Bool-cases (is_nil arg)) [
    | inl nil ↦ absurd (ground (arith, h, e, nil))
    | inr some_there ↦
        IsRead-subst (b'-' ∷ b'-' ∷ arg) (ground (arith, h, e, some_there))
          (ground (arith, h, e, some_there))
          (record {
            some_name = some_text arg some_there;
            written = alone (split_once-none b'=' arg e);
          })
  ]
  | inr ((n, v), e) ↦ elim (Bool-cases (is_nil n)) [
    | inl nil ↦ absurd (ground (arith, h, e, nil))
    | inr some_there ↦
        let (form, free) = split_once-some b'=' arg e in
        subst (λ x. IsRead (b'-' ∷ b'-' ∷ x) name inline) (sym form)
          (IsRead-subst (b'-' ∷ b'-' ∷ (n ++ (b'=' ∷ v))) (ground (arith, h, e, some_there))
            (ground (arith, h, e, some_there))
            (record { some_name = some_text n some_there; written = with_value v free }))
  ]
]

split-IsRead :
    (arg name : Text) (inline : Bool)
    → split_long_option arg ≡ some (name, inline)
    → IsRead arg name inline
unfolding split_long_option
split-IsRead [] name inline h = cc h
split-IsRead (a ∷ []) name inline h = cc h
split-IsRead (a ∷ b ∷ arg) name inline h = elim (Bool-cases (a == b'-' && b == b'-')) [
  | inl e ↦
      let one : b'-' ≡ a = ground (arith, e) in
      let two : b'-' ≡ b = ground (arith, e) in
      subst (λ x. IsRead (x ∷ b ∷ arg) name inline) one
        (subst (λ x. IsRead (b'-' ∷ x ∷ arg) name inline) two
          (dashed-IsRead arg name inline (
            subst (λ x. split_long_option (b'-' ∷ x ∷ arg) ≡ some (name, inline)) (sym two)
              (subst (λ x. split_long_option (x ∷ b ∷ arg) ≡ some (name, inline)) (sym one) h))))
  | inr e ↦ absurd (ground (arith, h, e))
]

-- The table's entry of a name, as the scan looks it up.
lookup : Option Subcommand → Text → Option Arg
unfolding find_long_option
lookup none name = find_long_option cli_command.arguments name
lookup (some c) name = elim (find_long_option c.arguments name) [
  | some a ↦ some a
  | none ↦ find_long_option cli_command.arguments name
]

option_spec-lookup :
    (command : Option Subcommand) (arg name : Text) (inline : Bool)
    → split_long_option arg ≡ some (name, inline)
    → option_spec cli_command command arg
      ≡ elim (lookup command name) [ none ↦ none | some a ↦ some (from_arg a inline) ]
unfolding option_spec lookup
option_spec-lookup none arg name inline h = rw (h, option_spec) refl
option_spec-lookup (some c) arg name inline h =
    elim (Option-cases (find_long_option c.arguments name)) [
      | inl e ↦ rw (h, e, option_spec, lookup) refl
      | inr (a, e) ↦ rw (h, e, option_spec, lookup) refl
    ]

option_spec-unread :
    (command : Option Subcommand) (arg : Text)
    → split_long_option arg ≡ none
    → option_spec cli_command command arg ≡ none
unfolding option_spec
option_spec-unread command arg h = rw (h, option_spec) refl

lookup-IsNamed :
    (command : Option Subcommand) (name : Text) (a : Arg)
    → lookup command name ≡ some a
    → IsNamed command name a
unfolding lookup
lookup-IsNamed none name a h = of_program name a (find-IsFirst name a cli_command.arguments h)
lookup-IsNamed (some c) name a h = elim (Option-cases (find_long_option c.arguments name)) [
  | inl e ↦
      behind_command c name a (find-All name c.arguments e)
        (find-IsFirst name a cli_command.arguments (ground (arith, h, e)))
  | inr (b, e) ↦ of_command c name a (find-IsFirst name a c.arguments (ground (arith, h, e)))
]

IsNamed-lookup :
    (command : Option Subcommand) (name : Text) (a : Arg)
    → IsNamed command name a
    → lookup command name ≡ some a
unfolding lookup
IsNamed-lookup _ _ _ (of_program name a f) = IsFirst-find name a cli_command.arguments f
IsNamed-lookup _ _ _ (of_command c name a f) =
    let e = IsFirst-find name a c.arguments f in rw (e, lookup) refl
IsNamed-lookup _ _ _ (behind_command c name a all f) =
    let e = All-find name c.arguments all in
    let g = IsFirst-find name a cli_command.arguments f in rw (e, lookup) g

pub IsOption-option_spec :
    (command : Option Subcommand) (arg : Text) (a : Arg) (inline : Bool)
    → IsOption command arg a inline
    → option_spec cli_command command arg ≡ some (from_arg a inline)
IsOption-option_spec command arg a inline o =
    let found = IsNamed-lookup command o.name a o.named in
    option_spec-lookup command arg o.name inline
      (IsWritten-split o.name arg inline o.some_name o.written)
    ∙ rw found refl

pub option_spec-IsOption :
    (command : Option Subcommand) (arg : Text) (spec : OptionSpec)
    → option_spec cli_command command arg ≡ some spec
    → (a : Arg) × (inline : Bool) × IsOption command arg a inline
option_spec-IsOption command arg spec h = elim (Option-cases (split_long_option arg)) [
  | inl e ↦ absurd (let none_there = option_spec-unread command arg e in cc (none_there, h))
  | inr ((name, inline), e) ↦
      let found = option_spec-lookup command arg name inline e in
      elim (Option-cases (lookup command name)) [
        | inl missing ↦ absurd (
            let none_there : option_spec cli_command command arg ≡ none =
              rw (found, missing) refl in
            cc (none_there, h))
        | inr (a, there) ↦ (
          a,
          inline,
          record {
            name = name;
            some_name = (split-IsRead arg name inline e).some_name;
            written = (split-IsRead arg name inline e).written;
            named = lookup-IsNamed command name a there;
          },
        )
      ]
]
