-- ===== src/Review/Verifier/Tests.antt =====
-- Two candidates, one without evidence, and a model that confirms the other.
use px.Prelude.{◌*◌, ◌^◌, ◌≡◌, refl, true, not, String, none, List, [], ◌∷◌, ok, keep_if}
use px.Prelude.Int.{pos}
use px.Prelude.Float.{one_f, three_fifths_f}
use px.Prelude.Text.{trim_space}
use px.Prelude.Maps.{contains, add_key, lookup, insert}
use px.Review.Verifier.{
  VerificationCandidate, VerificationDecision, VerificationResult, FindingVerifier, Services,
  lacks_evidence, screen, check_decisions, decode_decisions, has_decision, index_decisions, settle,
  settle_all, threshold_of, request_of, conclude, ask, after_screen, verify,
}
use px.Review.Verifier.Verdicts.{is_confirmed, verify-kept}

abbrev candidate : String → String → VerificationCandidate
candidate id evidence = record {
  id = id;
  path = "src/a.go";
  start_line = pos 4;
  end_line = pos 6;
  title = "title";
  evidence = evidence;
  context = "";
}

abbrev confirmation : VerificationDecision
confirmation = record {
  id = "c1";
  supported = true;
  confidence = pos (5404319552844595 * 2 ^ 1021);
  reason = "seen";
}

abbrev services : Services
services = record {
  marshal = λ cs. "[]";
  quote = λ s. s;
  complete = λ r. ok "answer";
  decode_json = λ text. ok (confirmation ∷ []);
}

abbrev verifier : FindingVerifier
verifier = record {
  has_client = true;
  provider = "p";
  model = "m";
  prompt_version = "1";
  min_confidence = pos 0;
  max_output_tokens = pos 0;
}

abbrev two : List VerificationCandidate
two = candidate "c1" "line 4" ∷ candidate "c2" " " ∷ []

abbrev outcome : VerificationResult
outcome = record {
  kept = candidate "c1" "line 4" ∷ [];
  dropped = ("c2", "missing line evidence") ∷ [];
  decisions = confirmation ∷ [];
}

verify-two : verify services verifier two ≡ (outcome, none)
unfolding verify after_screen screen lacks_evidence ask request_of decode_decisions check_decisions
    conclude index_decisions has_decision settle_all settle threshold_of contains add_key lookup
    insert trim_space one_f three_fifths_f
verify-two = refl

verify-kept_example :
    outcome.kept
    ≡ keep_if
        (is_confirmed (threshold_of verifier) outcome.decisions)
        (keep_if (λ c. not (lacks_evidence c)) two)
verify-kept_example = verify-kept services verifier two outcome verify-two
