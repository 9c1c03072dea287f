-- ===== src/Prelude/Strips.antt =====
-- What `strip_prefix` and `strip_suffix` take off.
use Prim.Native.Nat.{ℕ}
use mathlib.Core.Path.{◌≡◌, ap, subst}
use mathlib.Core.Logic.{inl, inr}
use mathlib.Core.Option.{some}
use mathlib.Core.List.{[], ◌∷◌, ◌++◌}
use native.Mathlib.Omega.{arith}
use salus_rs.Prelude.Tests.{◌==◌, Bool-cases, Option-cases, ==_iff}
use salus_rs.Prelude.Chars.{Text, strip_prefix, strip_suffix}

pub strip_suffix-some :
    (p : ℕ) (s : Text) {t : Text} → strip_suffix p s ≡ some t → s ≡ t ++ (p ∷ [])
strip_suffix-some p [] h = cc h
strip_suffix-some p (c ∷ []) {t} h = elim (Bool-cases (c == p)) [
  | inl e ↦
      let empty : [] ≡ t = ground (arith, h, e) in
      let same : c ≡ p = (==_iff c p).0 e in
      subst (λ x. c ∷ [] ≡ x ++ (p ∷ [])) empty (ap (λ x. x ∷ []) same)
  | inr e ↦ absurd (ground (arith, h, e))
]
strip_suffix-some p (c ∷ d ∷ s) {t} h = elim (Option-cases (strip_suffix p (d ∷ s))) [
  | inl e ↦ absurd (ground (arith, h, e))
  | inr (inner, e) ↦
      let front : c ∷ inner ≡ t = ground (arith, h, e) in
      subst (λ x. c ∷ d ∷ s ≡ x ++ (p ∷ [])) front (ap (λ x. c ∷ x) (strip_suffix-some p (d ∷ s) e))
]

pub strip_prefix-some : (p : ℕ) (s : Text) {t : Text} → strip_prefix p s ≡ some t → s ≡ p ∷ t
strip_prefix-some p [] h = cc h
strip_prefix-some p (c ∷ s) {t} h =
    let same : c ≡ p = ground arith in let rest : s ≡ t = ground arith in rw (same, rest)
