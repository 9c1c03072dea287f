-- ===== src/Probes/Http/Headers/Asserted.antt =====
-- What the assertions on the response's headers say.
use salus_rs.Prelude.{
  String, ◌≡◌, refl, ap, ◌∙◌, subst, ◌↔◌, Bool, true, false, List, [], ◌∷◌, arith, any, any-const,
  All, All-map, Text, Bytes, equal, equal_iff, ok, Bool-cases, inl, inr, ◌⊎◌,
}
use salus_rs.TextMatch.{contains_slice}
use salus_rs.TextMatch.Occurs.{Occurs, contains_slice_iff}
use salus_rs.Probes.Http.Headers.{
  HeaderName, HeaderMap, HeaderAssertion, HeaderAssertions, get_all, assert_present, assert_each,
  assert_response_headers,
}

-- The field stands in the response.
abbrev pub HasField : HeaderMap → HeaderName → Bytes → Type 0
HasField [] name field = ⊥
HasField ((key, value) ∷ headers) name field =
    ((key ≡ name) × (value ≡ field)) ⊎ HasField headers name field

-- Some field of that name passes, or none does.
abbrev pub SomeField : HeaderMap → HeaderName → (Bytes → Type 0) → Type 0
SomeField headers name P = (field : Bytes) × HasField headers name field × P field

any-SomeField :
    (test : Bytes → Bool) (headers : HeaderMap) (name : HeaderName)
    → any test (get_all headers name) ≡ true
    → SomeField headers name (λ field. test field ≡ true)
unfolding get_all
any-SomeField test [] name h = ground arith
any-SomeField test ((key, value) ∷ headers) name h = elim (Bool-cases (equal key name)) [
  | inl same ↦ elim (Bool-cases (test value)) [
    | inl passes ↦ (value, inl ((equal_iff key name).0 same, refl), passes)
    | inr fails ↦
        let (field, has, passes) = any-SomeField test headers name (ground arith) in
        (field, inr has, passes)
  ]
  | inr differ ↦
      let (field, has, passes) = any-SomeField test headers name (ground arith) in
      (field, inr has, passes)
]

SomeField-any :
    (test : Bytes → Bool) (headers : HeaderMap) (name : HeaderName) (field : Bytes)
    → HasField headers name field
    → test field ≡ true
    → any test (get_all headers name) ≡ true
unfolding get_all
SomeField-any test [] name field has passes = elim has [ ]
SomeField-any test ((key, value) ∷ headers) name field (inl (same, here)) passes =
    let key_same : equal key name ≡ true = (equal_iff key name).1 same in
    let value_passes : test value ≡ true = ap test here ∙ passes in rw (key_same, value_passes)
SomeField-any test ((key, value) ∷ headers) name field (inr has) passes =
    ground (arith, SomeField-any test headers name field has passes)

-- What the assertions ask of the response's fields.
pub record MeetsHeaders (headers : HeaderMap) (assertions : HeaderAssertions) : Type 0 where
  pub present : All (λ name. SomeField headers name (λ _. Unit)) assertions.present
  pub equals : All (λ a. HasField headers a.name a.value) assertions.equals
  pub contains : All (λ a. SomeField headers a.name (Occurs a.value)) assertions.contains
  pub not_contains : All (λ a. ¬ SomeField headers a.name (Occurs a.value)) assertions.not_contains

present_iff :
    (headers : HeaderMap) (target : Text) (names : List HeaderName)
    → (assert_present headers target names ≡ ok tt)
      ↔ All (λ name. any (λ _. true) (get_all headers name) ≡ true) names
unfolding assert_present
present_iff headers target [] = ground arith
present_iff headers target (name ∷ names) =
    ground (arith, any-const (get_all headers name), present_iff headers target names)

module _ (headers : HeaderMap) (target : Text) (test : Bytes → Bytes → Bool)
    (complaint : String) where
  abbrev passes : HeaderAssertion → Bool
  passes a = any (λ field. test field a.value) (get_all headers a.name)

  wanted_iff :
      (assertions : List HeaderAssertion)
      → (assert_each test true complaint headers target assertions ≡ ok tt)
        ↔ All (λ a. passes a ≡ true) assertions
  unfolding assert_each
  wanted_iff [] = ground arith
  wanted_iff (a ∷ assertions) = ground (arith, wanted_iff assertions)

  unwanted_iff :
      (assertions : List HeaderAssertion)
      → (assert_each test false complaint headers target assertions ≡ ok tt)
        ↔ All (λ a. passes a ≡ false) assertions
  unfolding assert_each
  unwanted_iff [] = ground arith
  unwanted_iff (a ∷ assertions) = ground (arith, unwanted_iff assertions)

  -- Tests that a field is to pass, read as statements on some field.
  wanted-SomeField :
      (P : Bytes → Bytes → Type 0)
      (reads : (wanted field : Bytes) → (test field wanted ≡ true) ↔ P wanted field)
      (assertions : List HeaderAssertion)
      → (assert_each test true complaint headers target assertions ≡ ok tt)
        ↔ All (λ a. SomeField headers a.name (P a.value)) assertions
  wanted-SomeField P reads assertions = (
    λ h.
        All-map assertions
          (λ a e.
            let (field, has, passed) = any-SomeField (λ f. test f a.value) headers a.name e in
            (field, has, (reads a.value field).0 passed))
          ((wanted_iff assertions).0 h),
    λ h. (wanted_iff assertions).1 (
        All-map assertions
          (λ a s.
            SomeField-any (λ f. test f a.value) headers a.name s.0 s.1 ((reads a.value s.0).1 s.2))
          h),
  )

  unwanted-SomeField :
      (P : Bytes → Bytes → Type 0)
      (reads : (wanted field : Bytes) → (test field wanted ≡ true) ↔ P wanted field)
      (assertions : List HeaderAssertion)
      → (assert_each test false complaint headers target assertions ≡ ok tt)
        ↔ All (λ a. ¬ SomeField headers a.name (P a.value)) assertions
  unwanted-SomeField P reads assertions = (
    λ h.
        All-map assertions
          (λ a e s. cc (
            e,
            SomeField-any (λ f. test f a.value) headers a.name s.0 s.1 ((reads a.value s.0).1 s.2),
          ))
          ((unwanted_iff assertions).0 h),
    λ h. (unwanted_iff assertions).1 (
        All-map assertions
          (λ a none_has. elim (Bool-cases (passes a)) [
            | inl e ↦
                let (field, has, passed) = any-SomeField (λ f. test f a.value) headers a.name e in
                absurd (none_has (field, has, (reads a.value field).0 passed))
            | inr e ↦ e
          ])
          h),
  )

HasField-SomeField :
    (headers : HeaderMap) (a : HeaderAssertion)
    → SomeField headers a.name (λ field. field ≡ a.value)
    → HasField headers a.name a.value
HasField-SomeField headers a s = subst (HasField headers a.name) s.2 s.1

all_present :
    (headers : HeaderMap) (target : Text) (names : List HeaderName)
    → (assert_present headers target names ≡ ok tt)
      ↔ All (λ name. SomeField headers name (λ _. Unit)) names
all_present headers target names = (
  λ h.
      All-map names
        (λ name e.
          let (field, has, _) = any-SomeField (λ _. true) headers name e in (field, has, tt))
        ((present_iff headers target names).0 h),
  λ h.
      (present_iff headers target names).1
        (All-map names (λ name s. SomeField-any (λ _. true) headers name s.0 s.1 refl) h),
)

module _ (headers : HeaderMap) (target : Text) where
  equals :
      (assertions : List HeaderAssertion)
      → (assert_each equal true " does not equal required value " headers target assertions ≡ ok tt)
        ↔ All (λ a. SomeField headers a.name (λ field. field ≡ a.value)) assertions
  equals =
      wanted-SomeField headers target equal " does not equal required value "
        (λ wanted field. field ≡ wanted) (λ wanted field. equal_iff field wanted)

  contains :
      (assertions : List HeaderAssertion)
      → (assert_each contains_slice true " does not contain required text " headers target
            assertions
          ≡ ok tt)
        ↔ All (λ a. SomeField headers a.name (Occurs a.value)) assertions
  contains =
      wanted-SomeField headers target contains_slice " does not contain required text " Occurs
        (λ wanted field. contains_slice_iff field wanted)

  not_contains :
      (assertions : List HeaderAssertion)
      → (assert_each contains_slice false " contains forbidden text " headers target assertions
          ≡ ok tt)
        ↔ All (λ a. ¬ SomeField headers a.name (Occurs a.value)) assertions
  not_contains =
      unwanted-SomeField headers target contains_slice " contains forbidden text " Occurs
        (λ wanted field. contains_slice_iff field wanted)

-- The check of the response's headers passes exactly when every named header is there, every required
-- value is a field of its name, every required text stands in a field of its name, and no forbidden
-- text does.
pub assert_response_headers_iff :
    (headers : HeaderMap) (assertions : HeaderAssertions) (target : Text)
    → (assert_response_headers headers assertions target ≡ ok tt) ↔ MeetsHeaders headers assertions
unfolding assert_response_headers
assert_response_headers_iff headers assertions target = (
  λ h. record {
    present = (all_present headers target assertions.present).0 (ground arith);
    equals =
        All-map assertions.equals (HasField-SomeField headers)
          ((equals headers target assertions.equals).0 (ground arith));
    contains = (contains headers target assertions.contains).0 (ground arith);
    not_contains = (not_contains headers target assertions.not_contains).0 (ground arith);
  },
  λ h. ground (
    arith,
    (all_present headers target assertions.present).1 h.present,
    (equals headers target assertions.equals).1
        (All-map assertions.equals (λ a has. (a.value, has, refl)) h.equals),
    (contains headers target assertions.contains).1 h.contains,
    (not_contains headers target assertions.not_contains).1 h.not_contains,
  ),
)
