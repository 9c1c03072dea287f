-- ===== src/Tests/Matching.antt =====
-- Tests of text_match.rs and capture.rs.
use salus_rs.Prelude.{◌≡◌, refl, true, false, List, [], ◌∷◌, ◌++◌, Bytes, codes, equal}
use salus_rs.TextMatch.{
  TextMatcher, new, contains_slice, found, observe_needles, observe_appended, all_matched,
}
use salus_rs.TextMatch.Tracking.{IsTracking, new-IsTracking, observe_appended-IsTracking}
use salus_rs.Capture.{default, append_limited}
use salus_rs.Capture.Limit.{Holds, default-Holds, append_limited-Holds}

abbrev ready : List Bytes
ready = codes "ready" ∷ codes "ok" ∷ []

across_the_boundary :
    (all_matched (
        observe_appended
          (observe_appended (new (codes "ready" ∷ [])) (codes "rea") 0)
          (codes "ready")
          3)
      ≡ true)
    × (all_matched (observe_appended (new (codes "ready" ∷ [])) (codes "rea") 0) ≡ false)
unfolding new observe_appended observe_needles found contains_slice all_matched equal
across_the_boundary = (refl, refl)

observe_appended-IsTracking_example :
    IsTracking ([] ++ codes "rea") (observe_appended (new ready) ([] ++ codes "rea") 0)
observe_appended-IsTracking_example =
    observe_appended-IsTracking [] (codes "rea") (new ready) (new-IsTracking ready)

abbrev after_two : TextMatcher
after_two = observe_appended (observe_appended (new ready) (codes "rea") 0) (codes "ready") 3

after_two-IsTracking : IsTracking (codes "ready") after_two
after_two-IsTracking =
    observe_appended-IsTracking (codes "rea") (codes "dy")
      (observe_appended (new ready) (codes "rea") 0)
      (observe_appended-IsTracking [] (codes "rea") (new ready) (new-IsTracking ready))

append_limited-Holds_example :
    Holds 3 ([] ++ codes "abcdef") (append_limited default (codes "abcdef") 3).0
append_limited-Holds_example = append_limited-Holds 3 [] (codes "abcdef") default (default-Holds 3)

keeps_data_within_limit :
    (append_limited default (codes "abcdef") 3).0
    ≡ record { bytes = codes "abc"; incomplete = true }
unfolding append_limited
keeps_data_within_limit = refl
