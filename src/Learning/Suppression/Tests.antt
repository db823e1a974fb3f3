-- ===== src/Learning/Suppression/Tests.antt =====
-- Style findings of one file, downvoted by three events, one of them delivered twice.
use px.Prelude.{ℕ, ◌+◌, ◌^◌, ◌≡◌, refl, true, List, [], ◌∷◌, ok}
use px.Prelude.Int.{pos, ◌-ℤ◌}
use px.Prelude.Maps.{contains, int_eq}
use px.Prelude.Sort.{sort_by}
use px.Learning.Suppression.{
  SuppressionFinding, NoiseEvent, SuppressionConfig, SuppressionDecision, Match, invalid_finding,
  qualifies, collect, weigh, decide_in_scope, decide_suppression,
}
use px.Learning.Suppression.Evidence.{IsDecided, is_valid, decide_suppression-IsDecided}

abbrev match_all : Match
match_all pattern name = ok true

abbrev finding : SuppressionFinding
finding = record { severity = "P2"; category = "style"; path = "a.go" }

abbrev downvote : ℕ → NoiseEvent
downvote id = record {
  id = pos id;
  category = "style";
  path = "a.go";
  kind = "thumbs_down";
  occurred_at = pos (10 ^ 18);
}

abbrev defaults : SuppressionConfig
defaults = record { threshold = pos 0; window = pos 0; path_glob = "" }

abbrev downvotes : List NoiseEvent
downvotes = downvote 9 ∷ downvote 4 ∷ downvote 9 ∷ downvote 6 ∷ []

decide-three :
    decide_suppression match_all finding downvotes defaults (pos (10 ^ 18 + 1))
    ≡ ok (record {
      suppress = true;
      reason = "eligible category repeatedly ignored or downvoted in scope";
      evidence_ids = pos 4 ∷ pos 6 ∷ pos 9 ∷ [];
    })
unfolding decide_suppression decide_in_scope weigh collect qualifies invalid_finding contains
    sort_by ◌-ℤ◌
decide-three = refl

defaults_valid : is_valid finding defaults (pos (10 ^ 18 + 1)) ≡ true
unfolding invalid_finding
defaults_valid = refl

decide_suppression-IsDecided_example :
    (d : SuppressionDecision) × (decide_suppression match_all finding downvotes defaults
        (pos (10 ^ 18 + 1))
      ≡ ok d)
    × IsDecided match_all finding downvotes defaults (pos (10 ^ 18 + 1)) d
decide_suppression-IsDecided_example =
    decide_suppression-IsDecided match_all finding downvotes defaults (pos (10 ^ 18 + 1)) true
      defaults_valid refl
