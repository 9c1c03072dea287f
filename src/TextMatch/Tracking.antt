-- ===== src/TextMatch/Tracking.antt =====
-- What the matcher remembers of the bytes that it has seen.
use salus_rs.Prelude.{
  ℕ, ◌+◌, ◌≤◌, min, ◌≡◌, refl, ap, Bool, true, false, List, [], ◌∷◌, ◌++◌, map, arith, ltb, ◌==◌,
  if◌then◌else◌, length, any, all, is_nil, Bytes, Bool-cases, inl, inr, length-append,
}
use salus_rs.TextMatch.{
  TextMatcher, count_true, new, contains_slice, observe_needles, observe_appended, all_matched,
  any_matched,
}
use salus_rs.TextMatch.Occurs.{found-contains_slice, contains_slice-append}

-- Each flag says whether its needle is in the bytes seen, and the count is that of the flags set.
pub record IsTracking (seen : Bytes) (m : TextMatcher) : Type 0 where
  pub flags : m.matched ≡ map (contains_slice seen) m.needles
  pub counted : m.matched_count ≡ count_true m.matched

is_nil-contains_slice :
    (needles : List Bytes) → map is_nil needles ≡ map (contains_slice []) needles
unfolding contains_slice
is_nil-contains_slice [] = refl
is_nil-contains_slice ([] ∷ ns) = ap (λ t. true ∷ t) (is_nil-contains_slice ns)
is_nil-contains_slice ((c ∷ n) ∷ ns) = ap (λ t. false ∷ t) (is_nil-contains_slice ns)

-- A new matcher has seen nothing.
pub new-IsTracking : (needles : List Bytes) → IsTracking [] (new needles)
unfolding new
new-IsTracking needles = record { flags = is_nil-contains_slice needles; counted = refl }

module _ (seen more : Bytes) where
  abbrev whole : Bytes
  whole = seen ++ more

  abbrev seen_flags : List Bytes → List Bool
  seen_flags = map (contains_slice seen)

  abbrev whole_flags : List Bytes → List Bool
  whole_flags = map (contains_slice whole)

  observe_needles_lem :
      (ns : List Bytes) (count : ℕ)
      → ((observe_needles whole (length seen) ns (seen_flags ns) count).0 ≡ whole_flags ns)
        × ((observe_needles whole (length seen) ns (seen_flags ns) count).1
              + count_true (seen_flags ns)
            ≡ count + count_true (whole_flags ns))
  unfolding observe_needles count_true
  observe_needles_lem [] count = (refl, refl)
  observe_needles_lem (n ∷ ns) count = elim (Bool-cases (contains_slice seen n)) [
    | inl old ↦
        let ih = observe_needles_lem ns count in
        rw (old, contains_slice-append seen more n old)
          (ap (λ t. true ∷ t) ih.0, omega (arith, ih.1))
    | inr unseen ↦
        let hit = contains_slice whole n in
        let ih = observe_needles_lem ns (if hit then count + 1 else count) in
        rw (unseen, found-contains_slice seen more n unseen)
          (ap (λ t. hit ∷ t) ih.0, ground (arith, ih.1))
  ]

  prefix_len : min (length seen) (length whole) ≡ length seen
  prefix_len = omega (arith, length-append seen more)

  -- The search of the appended part alone keeps the flags and the count right for the whole buffer.
  pub observe_appended-IsTracking :
      (m : TextMatcher)
      → IsTracking seen m
      → IsTracking whole (observe_appended m whole (length seen))
  unfolding observe_appended
  observe_appended-IsTracking m t =
      let after = observe_needles_lem m.needles m.matched_count in
      rw (prefix_len, t.flags)
        (record { flags = after.0; counted = ground (arith, after.0, after.1, t.counted, t.flags) })

pub needles-new : (needles : List Bytes) → (new needles).needles ≡ needles
unfolding new
needles-new needles = refl

pub needles-observe_appended :
    (m : TextMatcher) (h : Bytes) (k : ℕ) → (observe_appended m h k).needles ≡ m.needles
unfolding observe_appended
needles-observe_appended m h k = refl

count_true-length : (p : Bytes → Bool) (ns : List Bytes) → count_true (map p ns) ≤ length ns
unfolding count_true
count_true-length p [] = omega arith
count_true-length p (n ∷ ns) = ground (arith, count_true-length p ns)

count_true-all :
    (p : Bytes → Bool) (ns : List Bytes) → (count_true (map p ns) == length ns) ≡ all p ns
unfolding count_true
count_true-all p [] = refl
count_true-all p (n ∷ ns) = ground (arith, count_true-all p ns, count_true-length p ns)

count_true-any : (p : Bytes → Bool) (ns : List Bytes) → ltb 0 (count_true (map p ns)) ≡ any p ns
unfolding count_true
count_true-any p [] = refl
count_true-any p (n ∷ ns) = ground (arith, count_true-any p ns)

module _ (seen : Bytes) (m : TextMatcher) (t : IsTracking seen m) where
  -- `all_matched` says that every needle is in the bytes seen.
  pub all_matched_lem : all_matched m ≡ all (contains_slice seen) m.needles
  unfolding all_matched
  all_matched_lem = rw (t.counted, t.flags) (count_true-all (contains_slice seen) m.needles)

  -- `any_matched` says that some needle is.
  pub any_matched_lem : any_matched m ≡ any (contains_slice seen) m.needles
  unfolding any_matched
  any_matched_lem = rw (t.counted, t.flags) (count_true-any (contains_slice seen) m.needles)
