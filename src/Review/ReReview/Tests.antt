-- ===== src/Review/ReReview/Tests.antt =====
-- A second review after a dismissal and a fix.
use px.Prelude.{◌≡◌, ◌⊎◌, refl, true, false, List, [], ◌∷◌, ok, err, any_of, str_eq}
use px.Prelude.Int.{pos}
use px.Prelude.Text.{all_chars}
use px.Prelude.Paths.{clean}
use px.Prelude.Sort.{sort_by}
use px.Prelude.Maps.{contains, add_key}
use px.Review.ReReview.{
  PriorFinding, FingerprintedFinding, ReReviewPlan, full_sha, range_changed, dismissed_set,
  keep_proposed, resolve_set, plan_rereview,
}
use px.Review.ReReview.Plan.{IsPlan, are_shas, plan_rereview-IsPlan}
use px.Review.ReReview.Shas.{IsSha, AreShas, lacks_fingerprint, plan_rereview-AreShas}
use px.Review.Samples.{nil_check, leak, diff, sha_a, sha_b}

abbrev prior : List PriorFinding
prior =
    record {
      fingerprint = "f1";
      path = "src/a.go";
      start_line = pos 9;
      end_line = pos 9;
      status = "open";
      thread_id = "t1";
    }
    ∷ record {
      fingerprint = "f2";
      path = "src/b.go";
      start_line = pos 3;
      end_line = pos 3;
      status = "dismissed";
      thread_id = "t2";
    }
    ∷ []

abbrev proposed : List FingerprintedFinding
proposed =
    record { fingerprint = "f2"; finding = leak }
    ∷ record { fingerprint = "f3"; finding = nil_check }
    ∷ []

plan_two :
    plan_rereview sha_a sha_b diff prior proposed
    ≡ ok (record {
      base_sha = sha_a;
      head_sha = sha_b;
      findings = record { fingerprint = "f3"; finding = nil_check } ∷ [];
      resolve_thread_ids = "t1" ∷ [];
      dismissed_fingerprints = "f2" ∷ [];
    })
unfolding plan_rereview full_sha range_changed dismissed_set keep_proposed resolve_set any_of clean
    contains add_key sort_by
plan_two = refl

shas_differ : are_shas sha_a sha_b ≡ true
unfolding full_sha
shas_differ = refl

all_named : any_of (λ (c : FingerprintedFinding). str_eq c.fingerprint "") proposed ≡ false
unfolding any_of
all_named = refl

plan_rereview-IsPlan_example :
    (plan : ReReviewPlan) × (plan_rereview sha_a sha_b diff prior proposed ≡ ok plan)
    × IsPlan sha_a sha_b diff prior proposed plan
plan_rereview-IsPlan_example =
    plan_rereview-IsPlan sha_a sha_b diff prior proposed shas_differ all_named

plan_rereview-AreShas_example :
    let out = plan_rereview sha_a sha_a diff prior proposed in
    ((¬ AreShas sha_a sha_a) × (out ≡ err "distinct full review SHAs are required"))
    ⊎ (AreShas sha_a sha_a
        × (((lacks_fingerprint proposed ≡ true)
              × (out ≡ err "proposed finding fingerprint is required"))
            ⊎ ((lacks_fingerprint proposed ≡ false)
                × ((plan : ReReviewPlan) × (out ≡ ok plan)
                    × IsPlan sha_a sha_a diff prior proposed plan))))
plan_rereview-AreShas_example = plan_rereview-AreShas sha_a sha_a diff prior proposed

sha_a-IsSha : IsSha sha_a
unfolding all_chars
sha_a-IsSha = (refl, refl)
