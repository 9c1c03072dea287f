-- ===== src/TextMatch/Occurs.antt =====
-- `contains_slice` decides whether a text occurs in a buffer, and a search that starts near the
-- end of what was searched before misses nothing.
use salus_rs.Prelude.{
  ℕ, ◌+◌, ◌-◌, ◌≤◌, ◌≡◌, ◌≢◌, refl, sym, ap, ◌∙◌, subst, ◌↔◌, inl, inr, Bool, true, false, List, [],
  ◌∷◌, ◌++◌, append_assoc, arith, leb, length, take, drop, any, all, All, length-append,
  take-append-drop, drop-append_le, take-append_ge, not_both, Bytes, equal, equal_iff, equal_refl,
  Bool-ext, Bool-cases,
}
use native.Mathlib.Decide.{dec_le}
use salus_rs.TextMatch.{windows, contains_slice, found}

-- The needle stands somewhere in the buffer.
pub record Occurs (needle bytes : Bytes) : Type 0 where
  pub before : Bytes
  pub after : Bytes
  pub splits : bytes ≡ before ++ (needle ++ after)

Occurs-cons : {n bs : Bytes} (b : ℕ) → Occurs n bs → Occurs n (b ∷ bs)
Occurs-cons b o = record {
  before = b ∷ o.before;
  after = o.after;
  splits = ap (λ t. b ∷ t) o.splits;
}

pub Occurs-append_left : {n bs : Bytes} (pre : Bytes) → Occurs n bs → Occurs n (pre ++ bs)
Occurs-append_left [] o = o
Occurs-append_left (p ∷ pre) o = Occurs-cons p (Occurs-append_left pre o)

pub Occurs-append_right : {n bs : Bytes} (post : Bytes) → Occurs n bs → Occurs n (bs ++ post)
Occurs-append_right {n} {bs} post o = record {
  before = o.before;
  after = o.after ++ post;
  splits =
      ap (λ t. t ++ post) o.splits
      ∙ append_assoc o.before _ post
      ∙ ap (λ t. o.before ++ t) (append_assoc n o.after post);
}

take_prefix : (xs ys : Bytes) → take (length xs) (xs ++ ys) ≡ xs
take_prefix [] ys = refl
take_prefix (x ∷ xs) ys = ap (λ t. x ∷ t) (take_prefix xs ys)

any_window : Bytes → Bytes → Bool
any_window n bs = any (λ w. equal w n) (windows (length n) bs)

any_window-Occurs : (n bs : Bytes) → any_window n bs ≡ true → Occurs n bs
unfolding any_window windows
any_window-Occurs n [] h = cc
any_window-Occurs n (b ∷ bs) h = elim (Bool-cases (leb (length n) (length (b ∷ bs)))) [
  | inl fits ↦ elim (Bool-cases (equal (take (length n) (b ∷ bs)) n)) [
    | inl same ↦ record {
      before = [];
      after = drop (length n) (b ∷ bs);
      splits =
          sym (take-append-drop (length n) (b ∷ bs))
          ∙ ap (λ t. t ++ drop (length n) (b ∷ bs)) ((equal_iff _ n).0 same);
    }
    | inr other ↦ Occurs-cons b (any_window-Occurs n bs (ground arith))
  ]
  | inr short ↦ cc (rw short at h)
]

Occurs-any_window : (n before after : Bytes) → n ≢ [] → any_window n (before ++ (n ++ after)) ≡ true
unfolding any_window windows
Occurs-any_window [] [] after ne = absurd (ne refl)
Occurs-any_window (c ∷ n) [] after ne =
    ground (arith, take_prefix (c ∷ n) after, equal_refl (c ∷ n), length-append n after)
Occurs-any_window n (b ∷ before) after ne = ground (
  arith,
  Occurs-any_window n before after ne,
  length-append before (n ++ after),
  length-append n after,
)

-- `contains_slice` is true exactly when the needle stands somewhere in the buffer.
pub contains_slice_iff :
    (bytes needle : Bytes) → (contains_slice bytes needle ≡ true) ↔ Occurs needle bytes
unfolding contains_slice any_window
contains_slice_iff bytes [] = (λ _. record { before = []; after = bytes; splits = refl }, λ _. refl)
contains_slice_iff bytes (c ∷ n) = (
  any_window-Occurs (c ∷ n) bytes,
  λ o.
      subst (λ b. any_window (c ∷ n) b ≡ true) (sym o.splits)
        (Occurs-any_window (c ∷ n) o.before o.after cc),
)

append-split :
    (a b c d : Bytes) → a ++ b ≡ c ++ d → length a ≤ length c → (m : Bytes) × (c ≡ a ++ m)
append-split a b c d e h = (
  take (length c - length a) b,
  sym (take_prefix c d) ∙ ap (take (length c)) (sym e) ∙ take-append_ge (length c) a b h,
)

-- An occurrence that ends inside `seen` is one in `seen`.
Occurs-inside :
    (n seen more : Bytes) (o : Occurs n (seen ++ more))
    → length o.before + length n ≤ length seen
    → Occurs n seen
Occurs-inside n seen more o h =
    let e : (o.before ++ n) ++ o.after ≡ seen ++ more =
      append_assoc o.before n o.after ∙ sym o.splits in
    let (m, p) =
      append-split (o.before ++ n) o.after seen more e (omega (arith, length-append o.before n)) in
    record { before = o.before; after = m; splits = p ∙ append_assoc o.before n m }

-- An occurrence that starts at or behind `k` is one in the rest from `k` on.
Occurs-drop : (n bs : Bytes) (k : ℕ) (o : Occurs n bs) → k ≤ length o.before → Occurs n (drop k bs)
Occurs-drop n bs k o h = record {
  before = drop k o.before;
  after = o.after;
  splits = ap (drop k) o.splits ∙ drop-append_le k o.before (n ++ o.after) h;
}

Occurs-of_drop : (n bs : Bytes) (k : ℕ) → Occurs n (drop k bs) → Occurs n bs
Occurs-of_drop n bs k o =
    subst (Occurs n) (take-append-drop k bs) (Occurs-append_left (take k bs) o)

pub contains_slice-append :
    (seen more needle : Bytes)
    → contains_slice seen needle ≡ true
    → contains_slice (seen ++ more) needle ≡ true
contains_slice-append seen more needle h =
    (contains_slice_iff _ needle).1
      (Occurs-append_right more ((contains_slice_iff seen needle).0 h))

contains_slice-nil : (bytes : Bytes) → contains_slice bytes [] ≡ true
unfolding contains_slice
contains_slice-nil bytes = refl

Occurs-found :
    (seen more needle : Bytes)
    → contains_slice seen needle ≡ false
    → Occurs needle (seen ++ more)
    → found (seen ++ more) (length seen) needle ≡ true
unfolding found
Occurs-found seen more needle new o =
    elim (dec_le (length o.before + length needle) (length seen)) [
      | yes old ↦
          absurd (
            not_both ((contains_slice_iff seen needle).1 (Occurs-inside needle seen more o old))
              new)
      | no late ↦ (contains_slice_iff _ needle).1 (Occurs-drop needle _ _ o (omega arith))
    ]

found-Occurs :
    (seen more needle : Bytes)
    → found (seen ++ more) (length seen) needle ≡ true
    → contains_slice (seen ++ more) needle ≡ true
unfolding found
found-Occurs seen more needle h =
    (contains_slice_iff _ needle).1 (Occurs-of_drop needle _ _ ((contains_slice_iff _ needle).0 h))

-- A needle that was not in what was seen before is found by the search near its end exactly
-- when it is in the whole buffer.
pub found-contains_slice :
    (seen more needle : Bytes)
    → contains_slice seen needle ≡ false
    → found (seen ++ more) (length seen) needle ≡ contains_slice (seen ++ more) needle
found-contains_slice seen more needle new =
    Bool-ext _ _ (found-Occurs seen more needle)
      (λ h. Occurs-found seen more needle new ((contains_slice_iff _ needle).0 h))

pub all_contains-append :
    (seen more : Bytes) (needles : List Bytes)
    → all (contains_slice seen) needles ≡ true
    → all (contains_slice (seen ++ more)) needles ≡ true
all_contains-append seen more [] h = refl
all_contains-append seen more (n ∷ ns) h =
    ground (arith, contains_slice-append seen more n, all_contains-append seen more ns)

pub any_contains-append :
    (seen more : Bytes) (needles : List Bytes)
    → any (contains_slice seen) needles ≡ true
    → any (contains_slice (seen ++ more)) needles ≡ true
any_contains-append seen more [] h = h
any_contains-append seen more (n ∷ ns) h =
    ground (arith, contains_slice-append seen more n, any_contains-append seen more ns)

pub all_contains-Occurs :
    (bytes : Bytes) (needles : List Bytes)
    → all (contains_slice bytes) needles ≡ true
    → All (λ n. Occurs n bytes) needles
all_contains-Occurs bytes [] h = tt
all_contains-Occurs bytes (n ∷ ns) h =
    ((contains_slice_iff bytes n).0 (ground arith), all_contains-Occurs bytes ns (ground arith))

pub Occurs-all_contains :
    (bytes : Bytes) (needles : List Bytes)
    → All (λ n. Occurs n bytes) needles
    → all (contains_slice bytes) needles ≡ true
Occurs-all_contains bytes [] h = refl
Occurs-all_contains bytes (n ∷ ns) (o, os) =
    rw ((contains_slice_iff bytes n).1 o) (Occurs-all_contains bytes ns os)
