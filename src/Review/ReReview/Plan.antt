-- ===== src/Review/ReReview/Plan.antt =====
-- What a plan holds, in terms of the prior findings, the proposals and the diff.
use mathlib.Core.Path.{fun_ext}
use px.Prelude.{
  String, ◌≡◌, refl, ap, ◌∙◌, Bool, true, false, not, ◌&&◌, ◌||◌, List, [], ◌∷◌, arith, str_eq,
  if◌then◌else◌, ok, err, any_of, keep_if,
}
use px.Prelude.Sort.{Sorted, sort_by, sort_by-Sorted}
use px.Prelude.Text.{str_lt}
use px.Prelude.TextOrder.{str_lt-IsOrder}
use px.Prelude.Maps.{contains, add_key, contains-add_key, Distinct, add_key_if-Distinct, string_eq}
use px.Prelude.SetSort.{contains-sort_by, sort_by-Distinct}
use px.Review.LineMap.{DiffRange}
use px.Review.ReReview.{
  PriorFinding, FingerprintedFinding, ReReviewPlan, full_sha, range_changed, is_dismissal,
  is_resolved, dismissed_set, keep_proposed, resolve_set, plan_rereview,
}

-- A prior finding with this fingerprint was dismissed.
abbrev pub was_dismissed : List PriorFinding → String → Bool
was_dismissed prior fingerprint =
    any_of
      (λ old.
        str_eq old.status "dismissed"
        && not (str_eq old.fingerprint "")
        && str_eq fingerprint old.fingerprint)
      prior

-- The finding with this fingerprint is proposed again.
abbrev pub recurs : List FingerprintedFinding → String → Bool
recurs proposed fingerprint = any_of (λ c. str_eq fingerprint c.fingerprint) proposed

-- The thread belongs to an open finding that did not recur and whose range changed.
abbrev pub is_settled :
    List DiffRange → List PriorFinding → List FingerprintedFinding → String → Bool
is_settled changed prior proposed id =
    any_of
      (λ old.
        str_eq old.status "open"
        && not (str_eq old.thread_id "")
        && not (recurs proposed old.fingerprint)
        && range_changed old changed
        && str_eq id old.thread_id)
      prior

contains-dismissed_set :
    (fingerprint : String) (set : List String) (prior : List PriorFinding)
    → contains fingerprint (dismissed_set set prior)
      ≡ (contains fingerprint set || was_dismissed prior fingerprint)
unfolding dismissed_set any_of
contains-dismissed_set k set [] = ground arith
contains-dismissed_set k set (old ∷ rest) = ground (
  arith,
  contains-dismissed_set k (add_key old.fingerprint set) rest,
  contains-dismissed_set k set rest,
  contains-add_key k old.fingerprint set,
)

dismissed_set-Distinct :
    (set : List String) (prior : List PriorFinding)
    → Distinct set
    → Distinct (dismissed_set set prior)
unfolding dismissed_set
dismissed_set-Distinct set [] h = h
dismissed_set-Distinct set (old ∷ rest) h =
    dismissed_set-Distinct (if is_dismissal old then add_key old.fingerprint set else set) rest
      (add_key_if-Distinct (is_dismissal old) old.fingerprint set h)

keep_proposed_lem :
    (dismissed current : List String) (proposed : List FingerprintedFinding)
    → any_of (λ c. str_eq c.fingerprint "") proposed ≡ false
    → (out : List String) × (keep_proposed dismissed current proposed
        ≡ ok (out, keep_if (λ c. not (contains c.fingerprint dismissed)) proposed))
      × ((k : String) → contains k out ≡ (contains k current || recurs proposed k))
unfolding keep_proposed any_of keep_if
keep_proposed_lem dismissed current [] h = (current, refl, λ k. ground arith)
keep_proposed_lem dismissed current (c ∷ cs) h =
    let (out, kept, has) =
      keep_proposed_lem dismissed (add_key c.fingerprint current) cs (ground arith) in
    (
      out,
      ground (arith, kept),
      λ k. ground (arith, has k, contains-add_key k c.fingerprint current),
    )

contains-resolve_set :
    (id : String) (current : List String) (changed : List DiffRange)
    → (proposed : List FingerprintedFinding)
    → ((k : String) → contains k current ≡ recurs proposed k)
    → (set : List String) (prior : List PriorFinding)
    → contains id (resolve_set current changed set prior)
      ≡ (contains id set || is_settled changed prior proposed id)
unfolding resolve_set any_of
contains-resolve_set id current changed proposed same_keys set [] = ground arith
contains-resolve_set id current changed proposed same_keys set (old ∷ rest) = ground (
  arith,
  contains-resolve_set id current changed proposed same_keys (add_key old.thread_id set) rest,
  contains-resolve_set id current changed proposed same_keys set rest,
  contains-add_key id old.thread_id set,
  same_keys old.fingerprint,
)

resolve_set-Distinct :
    (current : List String) (changed : List DiffRange) (set : List String)
    (prior : List PriorFinding)
    → Distinct set
    → Distinct (resolve_set current changed set prior)
unfolding resolve_set
resolve_set-Distinct current changed set [] h = h
resolve_set-Distinct current changed set (old ∷ rest) h =
    resolve_set-Distinct current changed
      (if is_resolved current changed old then add_key old.thread_id set else set) rest
      (add_key_if-Distinct (is_resolved current changed old) old.thread_id set h)

-- A plan in terms of what it was made from.
pub record IsPlan (base head : String) (changed : List DiffRange) (prior : List PriorFinding)
    (proposed : List FingerprintedFinding) (plan : ReReviewPlan) : Type 0 where
  pub base_kept : plan.base_sha ≡ base
  pub head_kept : plan.head_sha ≡ head
  pub findings_kept :
      plan.findings ≡ keep_if (λ c. not (was_dismissed prior c.fingerprint)) proposed
  pub threads_exact :
      (id : String) → contains id plan.resolve_thread_ids ≡ is_settled changed prior proposed id
  pub threads_once : Distinct plan.resolve_thread_ids × Sorted str_lt plan.resolve_thread_ids
  pub dismissed_exact :
      (k : String) → contains k plan.dismissed_fingerprints ≡ was_dismissed prior k
  pub dismissed_once :
      Distinct plan.dismissed_fingerprints × Sorted str_lt plan.dismissed_fingerprints

-- Two distinct full SHAs.
abbrev pub are_shas : String → String → Bool
are_shas base head = full_sha base && full_sha head && not (str_eq base head)

-- Between distinct full SHAs, when every proposal has a fingerprint, there is a plan: its findings are
-- the proposals that no prior finding dismissed, in their order; it resolves exactly the threads of open
-- prior findings that do not recur and whose range changed; and it lists exactly the dismissed
-- fingerprints. Both lists are sorted and hold nothing twice.
pub plan_rereview-IsPlan :
    (base head : String) (changed : List DiffRange) (prior : List PriorFinding)
    → (proposed : List FingerprintedFinding) → are_shas base head ≡ true
    → any_of (λ c. str_eq c.fingerprint "") proposed ≡ false
    → (plan : ReReviewPlan) × (plan_rereview base head changed prior proposed ≡ ok plan)
      × IsPlan base head changed prior proposed plan
unfolding plan_rereview contains
plan_rereview-IsPlan base head changed prior proposed shas named =
    let dismissed = dismissed_set [] prior in
    let (current, kept, has) = keep_proposed_lem dismissed [] proposed named in
    let resolve = resolve_set current changed [] prior in
    (
      record {
        base_sha = base;
        head_sha = head;
        findings = keep_if (λ c. not (contains c.fingerprint dismissed)) proposed;
        resolve_thread_ids = sort_by str_lt resolve;
        dismissed_fingerprints = sort_by str_lt dismissed;
      },
      ground (arith, kept),
      record {
        base_kept = refl;
        head_kept = refl;
        findings_kept =
            ap (λ (p : FingerprintedFinding → Bool). keep_if p proposed)
              (fun_ext λ c. ap not (contains-dismissed_set c.fingerprint [] prior));
        threads_exact = λ id.
            contains-sort_by str_lt id resolve
            ∙ contains-resolve_set id current changed proposed has [] prior;
        threads_once = (
          sort_by-Distinct str_lt resolve (resolve_set-Distinct current changed [] prior tt),
          sort_by-Sorted str_lt str_lt-IsOrder resolve,
        );
        dismissed_exact =
            λ k. contains-sort_by str_lt k dismissed ∙ contains-dismissed_set k [] prior;
        dismissed_once = (
          sort_by-Distinct str_lt dismissed (dismissed_set-Distinct [] prior tt),
          sort_by-Sorted str_lt str_lt-IsOrder dismissed,
        );
      },
    )

keep_proposed_err :
    (dismissed current : List String) (proposed : List FingerprintedFinding)
    → any_of (λ c. str_eq c.fingerprint "") proposed ≡ true
    → keep_proposed dismissed current proposed ≡ err "proposed finding fingerprint is required"
unfolding keep_proposed any_of
keep_proposed_err dismissed current [] h = cc
keep_proposed_err dismissed current (c ∷ cs) h =
    ground (arith, keep_proposed_err dismissed (add_key c.fingerprint current) cs)

-- Without two distinct full SHAs, or with a proposal that has no fingerprint, there is no plan but the
-- error that says so, the one about the SHAs first.
pub plan_rereview-err :
    (base head : String) (changed : List DiffRange) (prior : List PriorFinding)
    → (proposed : List FingerprintedFinding)
    → (are_shas base head && not (any_of (λ c. str_eq c.fingerprint "") proposed)) ≡ false
    → plan_rereview base head changed prior proposed
      ≡ err (
          if are_shas base head
          then "proposed finding fingerprint is required"
          else "distinct full review SHAs are required")
unfolding plan_rereview
plan_rereview-err base head changed prior proposed h =
    ground (arith, keep_proposed_err (dismissed_set [] prior) [] proposed)
