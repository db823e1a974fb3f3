-- ===== src/Billing/Gate/Decisions.antt =====
-- internal/hosted/billing/gate.go: lemmas on Authorize and Enforce.
use px.Prelude.{
  ◌≡◌, refl, ◌⊎◌, inl, inr, String, true, false, Option, none, some, arith, str_eq, Result, ok, err,
  Option-cases, Bool-cases, ◌||◌,
}
use px.Prelude.Int.{ℤ, pos, leb_ℤ, ◌≤ℤ◌, ◌<ℤ◌}
use px.Billing.Gate.{
  ReviewDecision, CreditGate, CreditEnforcer, SkipPublisher, decide_on, authorize, publish_skip,
  enforce,
}

-- The balance of the tenant was read, and covers the review.
abbrev pub Covers : CreditGate → ℤ → ℤ → Type 0
Covers gate installation_id required =
    (balance : ℤ → Result ℤ) × (available : ℤ) × (gate.balances ≡ some balance)
    × (balance installation_id ≡ ok available)
    × (pos 0 <ℤ installation_id)
    × (pos 0 <ℤ required)
    × (required ≤ℤ available)

decide_on-allowed :
    (required : ℤ) (r : Result ℤ)
    → (decide_on required r).0.allowed ≡ true
    → ((available : ℤ) × (r ≡ ok available) × (required ≤ℤ available))
      × ((decide_on required r).1 ≡ none)
unfolding decide_on
decide_on-allowed required (err e) h = ground arith
decide_on-allowed required (ok available) h = ((available, refl, ground arith), ground arith)

authorize-allowed :
    (gate : CreditGate) (installation_id required : ℤ)
    → (authorize gate installation_id required).0.allowed ≡ true
    → Covers gate installation_id required × ((authorize gate installation_id required).1 ≡ none)
unfolding authorize
authorize-allowed gate installation_id required h = elim (Option-cases gate.balances) [
  | inl e ↦ ground arith
  | inr (balance, e) ↦ elim (Bool-cases (leb_ℤ installation_id (pos 0) || leb_ℤ required (pos 0))) [
    | inl invalid ↦ ground arith
    | inr valid ↦
        let ((available, read, enough), fine) =
          decide_on-allowed required (balance installation_id) (ground arith) in
        ((balance, available, e, read, ground arith, ground arith, enough), ground arith)
  ]
]

authorize-refused :
    (gate : CreditGate) (installation_id required : ℤ)
    → (authorize gate installation_id required).0.allowed ≡ false
    → ¬ Covers gate installation_id required
unfolding authorize decide_on
authorize-refused gate installation_id required h (balance, available, e, read, i, r, enough) =
    ground arith

-- The outcome of an enforcement from the state `s`.
abbrev pub IsEnforced {ℓ} :
    {S : Type ℓ}
    → CreditEnforcer S
    → SkipPublisher S
    → ℤ
    → String
    → ℤ
    → S
    → S × ReviewDecision × Option String
    → Type ℓ
IsEnforced e publish installation_id review_id required s out =
    ((out.1.allowed ≡ true) × (out.0 ≡ s) × (out.2 ≡ none) × Covers e.gate installation_id required)
    ⊎ ((out.1.allowed ≡ false)
        × (out.0 ≡ (publish installation_id review_id out.1 s).0)
        × (out.1 ≡ (authorize e.gate installation_id required).0)
        × (¬ Covers e.gate installation_id required))

-- With a publisher and a review ID that is not empty, Enforce allows a review exactly where the
-- balance of the tenant was read and covers the positive credits it needs, publishing nothing and
-- with no error; every other review, a failed balance lookup included, is refused with the
-- decision of the gate, which is handed to the publisher once.
pub enforce-IsEnforced {ℓ} :
    {S : Type ℓ} (e : CreditEnforcer S) (publish : SkipPublisher S)
    → (installation_id : ℤ) (review_id : String) (required : ℤ) (s : S) → e.publisher ≡ some publish
    → str_eq review_id "" ≡ false
    → IsEnforced e publish installation_id review_id required s
        (enforce e installation_id review_id required s)
unfolding enforce publish_skip
enforce-IsEnforced e publish installation_id review_id required s given named =
    elim (Bool-cases (authorize e.gate installation_id required).0.allowed) [
      | inl a ↦
          let (covers, fine) = authorize-allowed e.gate installation_id required a in
          inl (ground arith, ground arith, ground arith, covers)
      | inr a ↦ inr (
        ground arith,
        ground arith,
        ground arith,
        authorize-refused e.gate installation_id required a,
      )
    ]
