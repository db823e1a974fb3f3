-- ===== src/Review/ReReview.antt =====
-- internal/hosted/review/rereview.go: the plan of a second review over the last reviewed commit.
pub mod Plan
pub mod Shas
mod Tests
use px.Prelude.{
  ℕ, String, len, Bool, true, false, not, ◌&&◌, ◌||◌, List, [], ◌∷◌, ltb, leb, ◌==◌, str_eq,
  if◌then◌else◌, Result, ok, err, ◌>>=◌, ◌>>◌, refuse_if, any_of,
}
use px.Prelude.Int.{ℤ, leb_ℤ}
use px.Prelude.Text.{map_chars, ascii_lower, all_chars, str_lt}
use px.Prelude.Paths.{clean}
use px.Prelude.Sort.{sort_by}
use px.Prelude.Maps.{contains, add_key, string_eq}
use px.Review.Finding.{Finding}
use px.Review.LineMap.{DiffRange}

pub record PriorFinding : Type 0 where
  pub fingerprint : String
  pub path : String
  pub start_line : ℤ
  pub end_line : ℤ
  pub status : String
  pub thread_id : String

pub record FingerprintedFinding : Type 0 where
  pub fingerprint : String
  pub finding : Finding

pub record ReReviewPlan : Type 0 where
  pub base_sha : String
  pub head_sha : String
  pub findings : List FingerprintedFinding
  pub resolve_thread_ids : List String
  pub dismissed_fingerprints : List String

-- A hexadecimal digit, after ToLower.
abbrev pub is_hex : ℕ → Bool
is_hex r = (leb b'0' r && leb r b'9') || (leb b'a' r && leb r b'f')

-- `fullSHA`. Of the characters outside ASCII none is lowered to a hexadecimal digit.
unfoldable pub full_sha : String → Bool
unfolding map_chars ascii_lower all_chars
full_sha value =
    if not (len value == 40) then false else all_chars is_hex (map_chars ascii_lower value)

abbrev touches : PriorFinding → DiffRange → Bool
touches old span =
    str_eq (clean span.path) (clean old.path)
    && leb_ℤ old.start_line span.end_line
    && leb_ℤ span.start_line old.end_line

-- `rangeChanged`
unfoldable pub range_changed : PriorFinding → List DiffRange → Bool
range_changed old changed = any_of (touches old) changed

abbrev pub is_dismissal : PriorFinding → Bool
is_dismissal old = str_eq old.status "dismissed" && not (str_eq old.fingerprint "")

-- The first loop: the dismissed fingerprints.
unfoldable pub dismissed_set : List String → List PriorFinding → List String
dismissed_set set [] = set
dismissed_set set (old ∷ rest) =
    dismissed_set (if is_dismissal old then add_key old.fingerprint set else set) rest

-- The second loop: the current fingerprints, and the proposals that were not dismissed.
unfoldable pub keep_proposed :
    List String
    → List String
    → List FingerprintedFinding
    → Result (List String × List FingerprintedFinding)
keep_proposed dismissed current [] = ok (current, [])
keep_proposed dismissed current (candidate ∷ rest) =
    refuse_if (str_eq candidate.fingerprint "") "proposed finding fingerprint is required"
    >> (keep_proposed dismissed (add_key candidate.fingerprint current) rest >>= λ out.
        ok (out.0, if contains candidate.fingerprint dismissed then out.1 else candidate ∷ out.1))

abbrev pub is_resolved : List String → List DiffRange → PriorFinding → Bool
is_resolved current changed old =
    if not (str_eq old.status "open") || str_eq old.thread_id "" || contains old.fingerprint current
    then false
    else range_changed old changed

-- The third loop: the threads to resolve.
unfoldable pub resolve_set :
    List String → List DiffRange → List String → List PriorFinding → List String
resolve_set current changed set [] = set
resolve_set current changed set (old ∷ rest) =
    resolve_set current changed
      (if is_resolved current changed old then add_key old.thread_id set else set) rest

-- `PlanReReview`
unfoldable pub plan_rereview :
    String
    → String
    → List DiffRange
    → List PriorFinding
    → List FingerprintedFinding
    → Result ReReviewPlan
plan_rereview last_reviewed_sha head_sha changed prior proposed = do
  refuse_if
      (not (full_sha last_reviewed_sha)
        || not (full_sha head_sha)
        || str_eq last_reviewed_sha head_sha)
      "distinct full review SHAs are required"
  let dismissed = dismissed_set [] prior
  (current, kept) ← keep_proposed dismissed [] proposed
  let resolve = resolve_set current changed [] prior
  ok (record {
    base_sha = last_reviewed_sha;
    head_sha = head_sha;
    findings = kept;
    resolve_thread_ids = sort_by str_lt resolve;
    dismissed_fingerprints = sort_by str_lt dismissed;
  })
