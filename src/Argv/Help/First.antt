-- ===== src/Argv/Help/First.antt =====
-- The look at a table of options by their name.
use salus_rs.Prelude.{
  ◌≡◌, ◌⊎◌, refl, sym, ◌∙◌, ap, subst, inl, inr, false, Option, none, some, List, [], ◌∷◌, All,
  Text, equal, equal_iff, Bool-cases, Option-cases,
}
use salus_rs.Cli.{Arg}
use salus_rs.Argv.Options.{find_long_option}
use salus_rs.Argv.Help.Control.{IsFirst, first, later}

module _ (name : Text) where
  find-here :
      (arg : Arg) (args : List Arg)
      → arg.long ≡ some name
      → find_long_option (arg ∷ args) name ≡ some arg
  unfolding find_long_option
  find-here arg args h =
      let same = (equal_iff name name).1 refl in rw (h, same, find_long_option) refl

  long-none :
      (arg : Arg) (args : List Arg)
      → arg.long ≡ none
      → find_long_option (arg ∷ args) name ≡ find_long_option args name
  unfolding find_long_option
  long-none arg args h = rw (h, find_long_option) refl

  long-other :
      (arg : Arg) (args : List Arg) (l : Text)
      → arg.long ≡ some l
      → equal l name ≡ false
      → find_long_option (arg ∷ args) name ≡ find_long_option args name
  unfolding find_long_option
  long-other arg args l h unlike = rw (h, unlike, find_long_option) refl

  find-there :
      (arg : Arg) (args : List Arg)
      → ¬ (arg.long ≡ some name)
      → find_long_option (arg ∷ args) name ≡ find_long_option args name
  find-there arg args unlike = elim (Option-cases arg.long) [
    | inl e ↦ long-none arg args e
    | inr (l, e) ↦ elim (Bool-cases (equal l name)) [
      | inl same ↦ absurd (unlike (e ∙ ap some ((equal_iff l name).0 same)))
      | inr apart ↦ long-other arg args l e apart
    ]
  ]

  some-cases : (o : Option Text) → (o ≡ some name) ⊎ (¬ (o ≡ some name))
  some-cases none = inr (λ h. cc h)
  some-cases (some l) = elim (Bool-cases (equal l name)) [
    | inl same ↦ inl (ap some ((equal_iff l name).0 same))
    | inr apart ↦ inr (λ h.
        let same : l ≡ name = cc h in
        let yes_there = (equal_iff l name).1 same in cc (yes_there, apart))
  ]

  pub IsFirst-find :
      (a : Arg) (args : List Arg) → IsFirst name a args → find_long_option args name ≡ some a
  IsFirst-find a _ (first args h) = find-here a args h
  IsFirst-find a _ (later b args unlike more) = find-there b args unlike ∙ IsFirst-find a args more

  pub All-find :
      (args : List Arg) → All (λ b. ¬ (b.long ≡ some name)) args → find_long_option args name ≡ none
  unfolding find_long_option
  All-find [] all = refl
  All-find (b ∷ args) all = find-there b args all.0 ∙ All-find args all.1

  pub find-IsFirst :
      (a : Arg) (args : List Arg) → find_long_option args name ≡ some a → IsFirst name a args
  unfolding find_long_option
  find-IsFirst a [] h = cc h
  find-IsFirst a (b ∷ args) h = elim (some-cases b.long) [
    | inl e ↦
        let there = find-here b args e in
        let same : b ≡ a = cc (there, h) in
        subst (λ x. IsFirst name x (b ∷ args)) same (first args e)
    | inr unlike ↦ later b args unlike (find-IsFirst a args (sym (find-there b args unlike) ∙ h))
  ]

  pub find-All :
      (args : List Arg) → find_long_option args name ≡ none → All (λ b. ¬ (b.long ≡ some name)) args
  unfolding find_long_option
  find-All [] h = tt
  find-All (b ∷ args) h = elim (some-cases b.long) [
    | inl e ↦ absurd (let there = find-here b args e in cc (there, h))
    | inr unlike ↦ (unlike, find-All args (sym (find-there b args unlike) ∙ h))
  ]
