-- ===== src/Billing/Gate.antt =====
-- internal/hosted/billing/gate.go: whether a tenant has the credits that a review needs.
pub mod Decisions
mod Tests
use Prim.Native.String.{◌++◌ as concat}
use px.Prelude.{
  String, Bool, true, false, ◌||◌, Option, none, some, str_eq, if◌then◌else◌, Result, ok, err,
  Result-cases, inl, inr,
}
use px.Prelude.Int.{ℤ, pos, ltb_ℤ, leb_ℤ}
use px.Prelude.Text.{show_ℤ}

-- The balance of a tenant, or why it cannot be read.
abbrev pub BalanceReader : Type 0
BalanceReader = ℤ → Result ℤ

pub record ReviewDecision : Type 0 where
  pub allowed : Bool
  pub available_credits : ℤ
  pub required_credits : ℤ
  pub skip_code : String
  pub summary : String

abbrev pub no_decision : ReviewDecision
no_decision = record {
  allowed = false;
  available_credits = pos 0;
  required_credits = pos 0;
  skip_code = "";
  summary = "";
}

pub record CreditGate : Type 0 where
  pub balances : Option BalanceReader

-- A publisher changes the state of the forge, and may fail.
abbrev pub SkipPublisher {ℓ} : Type ℓ → Type ℓ
SkipPublisher S = ℤ → String → ReviewDecision → S → S × Option String

pub record CreditEnforcer {ℓ} (S : Type ℓ) : Type ℓ where
  pub gate : CreditGate
  pub publisher : Option (SkipPublisher S)

abbrev pub unavailable : ℤ → ReviewDecision
unavailable required = record {
  allowed = false;
  available_credits = pos 0;
  required_credits = required;
  skip_code = "billing_unavailable";
  summary =
      "px1 skipped this review because credit availability could not be verified. No AI review ran; retry after billing recovers.";
}

abbrev pub exhausted : ℤ → ℤ → ReviewDecision
exhausted required available = record {
  allowed = false;
  available_credits = available;
  required_credits = required;
  skip_code = "credits_exhausted";
  summary = concat "px1 skipped this review because it requires " (
      concat (show_ℤ required) (
        concat " credits and this organization has " (
          concat (show_ℤ available)
            " available. No AI review ran; add credits or reduce the review scope, then retry.")));
}

abbrev pub granted : ℤ → ℤ → ReviewDecision
granted required available = record {
  allowed = true;
  available_credits = available;
  required_credits = required;
  skip_code = "";
  summary = concat "px1 reserved up to " (
      concat (show_ℤ required) (
        concat " credits for this review; "
          (concat (show_ℤ available) " were available before reservation.")));
}

-- The decision on a balance that was read, or was not.
unfoldable pub decide_on : ℤ → Result ℤ → ReviewDecision × Option String
decide_on required (err e) = (unavailable required, some (concat "read credit balance: " e))
decide_on required (ok available) =
    if ltb_ℤ available required
    then (exhausted required available, none)
    else (granted required available, none)

-- `Authorize` returns a decision beside an error.
unfoldable pub authorize : CreditGate → ℤ → ℤ → ReviewDecision × Option String
authorize gate installation_id required = elim gate.balances [
  | none ↦ (no_decision, some "balance reader, tenant, and positive required credits are required")
  | some balance ↦
      if leb_ℤ installation_id (pos 0) || leb_ℤ required (pos 0)
      then (no_decision, some "balance reader, tenant, and positive required credits are required")
      else decide_on required (balance installation_id)
]

-- `errors.Join(gateErr, publishErr)`, where both or one is there.
unfoldable pub join_errors : Option String → Option String → Option String
join_errors (some gate) (some publish) = some (concat gate (concat "\n" publish))
join_errors (some gate) none = some gate
join_errors none publish = publish

unfoldable pub publish_skip {ℓ} :
    {S : Type ℓ}
    → SkipPublisher S
    → ℤ
    → String
    → ReviewDecision × Option String
    → S
    → S × ReviewDecision × Option String
publish_skip publish installation_id review_id (decision, failed) s =
    if decision.allowed
    then (s, decision, failed)
    else (let (after, refused) = publish installation_id review_id decision s in
        (after, decision, join_errors failed refused))

-- `Enforce`: no review is skipped without an attempt to publish why.
unfoldable pub enforce {ℓ} :
    {S : Type ℓ} → CreditEnforcer S → ℤ → String → ℤ → S → S × ReviewDecision × Option String
enforce e installation_id review_id required s = elim e.publisher [
  | none ↦ (s, no_decision, some "skip publisher and review ID are required")
  | some publish ↦
      if str_eq review_id ""
      then (s, no_decision, some "skip publisher and review ID are required")
      else publish_skip publish installation_id review_id
          (authorize e.gate installation_id required) s
]
