-- ===== src/Billing/Gate/Tests.antt =====
-- A tenant with ten credits, and a forge that is the list of the skips published on it.
use px.Prelude.{◌≡◌, refl, String, none, some, List, [], ◌∷◌, Result, ok}
use px.Prelude.Int.{ℤ, pos}
use px.Billing.Gate.{
  ReviewDecision, CreditEnforcer, SkipPublisher, enforce, authorize, decide_on, publish_skip,
  granted,
}
use px.Billing.Gate.Decisions.{IsEnforced, enforce-IsEnforced}

abbrev Skips : Type 0
Skips = List (ℤ × String × ReviewDecision)

abbrev ten : ℤ → Result ℤ
ten tenant = ok (pos 10)

abbrev publish : SkipPublisher Skips
publish tenant review decision skips = ((tenant, review, decision) ∷ skips, none)

abbrev enforcer : CreditEnforcer Skips
enforcer = record { gate = record { balances = some ten }; publisher = some publish }

enforce-seven : enforce enforcer (pos 1) "r" (pos 7) [] ≡ ([], granted (pos 7) (pos 10), none)
unfolding enforce authorize decide_on publish_skip
enforce-seven = refl

enforce-IsEnforced_example :
    IsEnforced enforcer publish (pos 1) "r" (pos 12) [] (enforce enforcer (pos 1) "r" (pos 12) [])
enforce-IsEnforced_example = enforce-IsEnforced enforcer publish (pos 1) "r" (pos 12) [] refl refl
