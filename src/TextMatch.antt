-- ===== src/TextMatch.antt =====
-- text_match.rs: the search for required texts in a buffer that grows.
pub mod Occurs
pub mod Tracking
use salus_rs.Prelude.{
  ℕ, suc, ◌+◌, ◌-◌, min, Bool, true, false, ◌||◌, List, [], ◌∷◌, map, leb, ltb, ◌==◌, if◌then◌else◌,
  length, take, drop, any, is_nil, Bytes, equal,
}

-- `bytes.windows(n)`, for a positive `n`.
unfoldable pub windows : ℕ → Bytes → List Bytes
windows n [] = []
windows n (x ∷ xs) = if leb n (length (x ∷ xs)) then take n (x ∷ xs) ∷ windows n xs else []

unfoldable pub contains_slice : Bytes → Bytes → Bool
unfolding windows
contains_slice bytes needle =
    is_nil needle || any (λ window. equal window needle) (windows (length needle) bytes)

-- A needle is a `String`, given by its bytes.
abbrev pub contains_bytes : Bytes → Bytes → Bool
contains_bytes = contains_slice

pub record TextMatcher : Type 0 where
  pub needles : List Bytes
  pub matched : List Bool
  pub matched_count : ℕ

unfoldable pub count_true : List Bool → ℕ
count_true [] = 0
count_true (b ∷ bs) = (if b then 1 else 0) + count_true bs

unfoldable pub new : List Bytes → TextMatcher
unfolding count_true
new needles = record {
  needles = needles;
  matched = map is_nil needles;
  matched_count = count_true (map is_nil needles);
}

-- What the round for one needle finds; `previous_len` is already at most the buffer's length.
unfoldable pub found : Bytes → ℕ → Bytes → Bool
unfolding contains_slice
found haystack previous_len needle =
    contains_slice (drop (previous_len - (length needle - 1)) haystack) needle

-- The loop over `needles`, whose rounds read and write `matched[index]`: the two vectors are of
-- one length, so they are walked together. The count is a fold over the rounds.
unfoldable pub observe_needles : Bytes → ℕ → List Bytes → List Bool → ℕ → List Bool × ℕ
observe_needles haystack previous_len (needle ∷ ns) (true ∷ ms) count =
    let (ms', count') = observe_needles haystack previous_len ns ms count in (true ∷ ms', count')
observe_needles haystack previous_len (needle ∷ ns) (false ∷ ms) count =
    let hit = found haystack previous_len needle in
    let (ms', count') =
      observe_needles haystack previous_len ns ms (if hit then count + 1 else count) in
    (hit ∷ ms', count')
observe_needles haystack previous_len _ ms count = (ms, count)

unfoldable pub observe_appended : TextMatcher → Bytes → ℕ → TextMatcher
observe_appended m haystack previous_len =
    let (matched, count) =
      observe_needles haystack (min previous_len (length haystack)) m.needles m.matched
        m.matched_count in
    record m { matched = matched; matched_count = count }

unfoldable pub all_matched : TextMatcher → Bool
all_matched m = m.matched_count == length m.needles

unfoldable pub any_matched : TextMatcher → Bool
any_matched m = ltb 0 m.matched_count
