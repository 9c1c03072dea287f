-- ===== src/Argv/Help/Read.antt =====
-- The tests of the scan, and what they decide.
use salus_rs.Prelude.{
  ◌≡◌, ◌↔◌, refl, sym, subst, inl, inr, Bool, true, false, some, List, [], ◌∷◌, All, arith, Text,
  OsStr, utf8, other, equal, equal_iff, starts_with, Bool-cases,
}
use salus_rs.Cli.{ArgAction, set, append, set_true, Arg, Subcommand, cli_command}
use salus_rs.Argv.Options.{
  from_arg, action_takes_value, value_can_follow_option, dashes, is_help, is_version,
  find_subcommand,
}
use salus_rs.Argv.Help.Control.{
  IsHelpFlag, short_help, long_help, IsVersionFlag, short_version, long_version, CanFollow,
  raw_value, plain_value, hyphen_value, negative_value, IsMember, head, tail,
}
use salus_rs.Argv.Help.Words.{of_help, of_version}

pub is_help_iff : (arg : Text) → (is_help arg ≡ true) ↔ IsHelpFlag arg
unfolding is_help equal
is_help_iff arg = (of_help IsHelpFlag arg short_help long_help, back arg)
  where
    back : (arg : Text) → IsHelpFlag arg → is_help arg ≡ true
    back _ short_help = refl
    back _ long_help = refl

pub is_version_iff : (arg : Text) → (is_version arg ≡ true) ↔ IsVersionFlag arg
unfolding is_version equal
is_version_iff arg = (of_version IsVersionFlag arg short_version long_version, back arg)
  where
    back : (arg : Text) → IsVersionFlag arg → is_version arg ≡ true
    back _ short_version = refl
    back _ long_version = refl

-- What the action of an argument says of its value.
takes_iff : (x : ArgAction) → (action_takes_value x ≡ true) ↔ (¬ (x ≡ set_true))
unfolding action_takes_value
takes_iff set = (λ h e. cc e, λ h. refl)
takes_iff append = (λ h e. cc e, λ h. refl)
takes_iff set_true = (λ h e. cc h, λ h. absurd (h refl))

flag_iff : (x : ArgAction) → (action_takes_value x ≡ false) ↔ (x ≡ set_true)
unfolding action_takes_value
flag_iff set = (λ h. cc h, λ h. cc h)
flag_iff append = (λ h. cc h, λ h. cc h)
flag_iff set_true = (λ h. refl, λ h. refl)

pub takes_value_iff :
    (a : Arg) (inline : Bool) → ((from_arg a inline).takes_value ≡ true) ↔ (¬ (a.action ≡ set_true))
unfolding from_arg
takes_value_iff a inline = takes_iff a.action

pub is_flag_iff :
    (a : Arg) (inline : Bool) → ((from_arg a inline).takes_value ≡ false) ↔ (a.action ≡ set_true)
unfolding from_arg
is_flag_iff a inline = flag_iff a.action

pub has_inline_value-from_arg :
    (a : Arg) (inline : Bool) → (from_arg a inline).has_inline_value ≡ inline
unfolding from_arg
has_inline_value-from_arg a inline = refl

not_dashes : (value : Text) → ¬ (value ≡ dashes) → equal value dashes ≡ false
not_dashes value unlike = elim (Bool-cases (equal value dashes)) [
  | inl e ↦ absurd (unlike ((equal_iff value dashes).0 e))
  | inr e ↦ e
]

dashes_apart : (value : Text) → equal value dashes ≡ false → ¬ (value ≡ dashes)
dashes_apart value apart e = let same = (equal_iff value dashes).1 e in cc (same, apart)

plain_apart : (value : Text) → starts_with b'-' value ≡ false → ¬ (value ≡ dashes)
plain_apart value plain e =
    let dashed : starts_with b'-' value ≡ true =
      subst (λ x. starts_with b'-' x ≡ true) (sym e) refl in
    cc (dashed, plain)

pub CanFollow-value_can_follow_option :
    (a : Arg) (inline : Bool) (value : OsStr)
    → CanFollow a value
    → value_can_follow_option value (from_arg a inline) ≡ true
unfolding value_can_follow_option from_arg
CanFollow-value_can_follow_option a inline _ (raw_value raw) = refl
CanFollow-value_can_follow_option a inline _ (plain_value value plain) =
    let apart = not_dashes value (plain_apart value plain) in ground (arith, plain, apart)
CanFollow-value_can_follow_option a inline _ (hyphen_value value unlike allowed) =
    let apart = not_dashes value unlike in ground (arith, apart, allowed)
CanFollow-value_can_follow_option a inline _ (negative_value value unlike allowed number) =
    let apart = not_dashes value unlike in ground (arith, apart, allowed, number)

pub value_can_follow_option-CanFollow :
    (a : Arg) (inline : Bool) (value : OsStr)
    → value_can_follow_option value (from_arg a inline) ≡ true
    → CanFollow a value
unfolding value_can_follow_option from_arg
value_can_follow_option-CanFollow a inline (other raw) h = raw_value raw
value_can_follow_option-CanFollow a inline (utf8 value) h =
    elim (Bool-cases (starts_with b'-' value)) [
      | inr plain ↦ plain_value value plain
      | inl dashed ↦
          let apart = dashes_apart value (ground (arith, h)) in
          elim (Bool-cases a.allow_hyphen_values) [
            | inl allowed ↦ hyphen_value value apart allowed
            | inr refused ↦
                negative_value value apart (ground (arith, h, dashed, refused))
                  (ground (arith, h, dashed, refused))
          ]
    ]

pub find_subcommand-IsMember :
    (cs : List Subcommand) (arg : Text) (c : Subcommand)
    → find_subcommand cs arg ≡ some c
    → IsMember c cs × (c.name ≡ arg)
unfolding find_subcommand
find_subcommand-IsMember [] arg c h = cc h
find_subcommand-IsMember (d ∷ cs) arg c h = elim (Bool-cases (equal d.name arg)) [
  | inl e ↦
      let same : d ≡ c = ground (arith, h, e) in
      subst (λ x. IsMember x (d ∷ cs) × (x.name ≡ arg)) same (head cs, (equal_iff d.name arg).0 e)
  | inr e ↦
      let (member, named) = find_subcommand-IsMember cs arg c (ground (arith, h, e)) in
      (tail d cs member, named)
]

IsMember-All :
    (P : Subcommand → Type 0) (c : Subcommand) (cs : List Subcommand)
    → IsMember c cs
    → All P cs
    → P c
IsMember-All P c _ (head cs) all = all.0
IsMember-All P c _ (tail d cs member) all = IsMember-All P c cs member all.1

pub IsMember-find_subcommand :
    (c : Subcommand)
    → IsMember c cli_command.subcommands
    → find_subcommand cli_command.subcommands c.name ≡ some c
unfolding find_subcommand equal
IsMember-find_subcommand c member =
    IsMember-All (λ c. find_subcommand cli_command.subcommands c.name ≡ some c) c
      cli_command.subcommands member (refl, (refl, (refl, (refl, (refl, tt)))))
