-- ===== src/Billing/Ledger/Balance.antt =====
-- internal/hosted/billing/ledger.go: the operations over a store that keeps its contract.
use px.Prelude.{
  ◌≡◌, ap, ◌∙◌, String, true, ◌||◌, not, some, arith, str_eq, ok, Bool-cases, inl, inr,
}
use px.Prelude.Int.{
  ℤ, pos, neg, ◌+ℤ◌, ◌-ℤ◌, ◌≤ℤ◌, ◌<ℤ◌, ltb_ℤ, leb_ℤ, wrap64, sub64, InRange64,
  wrap64-eq_of_InRange64, +ℤ_parts, -ℤ_parts, eq_of_parts,
}
use px.Billing.Ledger.{
  Transaction, LedgerStore, valid_reservation, settle_entry, refund_entry, reserve_entry, reserve,
  settle, refund,
}

-- The contract of a store: an entry that is new changes the balance of its tenant by its credits, a
-- reservation is new only where the balance covers it, and a new reservation comes back with what it
-- was given. Of an entry whose key was used before it says nothing: a store answers the old entry.
pub record IsLedgerStore {ℓ} {S : Type ℓ} (store : LedgerStore S) (balance_of : S → ℤ → ℤ)
    : Type ℓ where
  pub append_adds :
      (t stored : Transaction) (s after : S)
      → store.append t s ≡ (after, ok (stored, true))
      → balance_of after t.installation_id ≡ balance_of s t.installation_id +ℤ t.credits
  pub reserve_adds :
      (t stored : Transaction) (required : ℤ) (s after : S)
      → store.reserve t required s ≡ (after, ok (stored, true))
      → (balance_of after t.installation_id ≡ balance_of s t.installation_id +ℤ t.credits)
        × (required ≤ℤ balance_of s t.installation_id)
  pub reserve_keeps :
      (t stored : Transaction) (required : ℤ) (s after : S)
      → store.reserve t required s ≡ (after, ok (stored, true))
      → (stored.installation_id ≡ t.installation_id)
        × (stored.review_id ≡ t.review_id)
        × (stored.kind ≡ t.kind)
        × (stored.credits ≡ t.credits)

wrap64-neg : (a : ℤ) → pos 0 <ℤ a → InRange64 a → wrap64 (neg a) ≡ neg a
wrap64-neg a p h = wrap64-eq_of_InRange64 (neg a) (ground arith)

wrap64-neg-neg : (a : ℤ) → pos 0 <ℤ a → InRange64 a → wrap64 (neg (neg a)) ≡ a
wrap64-neg-neg a p h =
    ap wrap64 (ground (arith, eq_of_parts (neg (neg a)) a)) ∙ wrap64-eq_of_InRange64 a h

wrap64_sub :
    (a b : ℤ) → pos 0 <ℤ a → InRange64 a → pos 0 ≤ℤ b → InRange64 b → wrap64 (a -ℤ b) ≡ a -ℤ b
wrap64_sub a b p h q k =
    wrap64-eq_of_InRange64 (a -ℤ b) (ground (arith, -ℤ_parts a b), ground (arith, -ℤ_parts a b))

settled_sum :
    (b held after credits actual : ℤ)
    → pos 0 <ℤ credits
    → InRange64 credits
    → pos 0 ≤ℤ actual
    → InRange64 actual
    → held ≡ b +ℤ wrap64 (neg credits)
    → after ≡ held +ℤ sub64 (wrap64 (neg (wrap64 (neg credits)))) actual
    → after ≡ b -ℤ actual
settled_sum b held after credits actual p c q a h k =
    let h' : held ≡ b +ℤ neg credits = h ∙ ap (λ x. b +ℤ x) (wrap64-neg credits p c) in
    let k' : after ≡ held +ℤ (credits -ℤ actual) =
      k
      ∙ ap (λ x. held +ℤ sub64 (wrap64 (neg x)) actual) (wrap64-neg credits p c)
      ∙ ap (λ x. held +ℤ sub64 x actual) (wrap64-neg-neg credits p c)
      ∙ ap (λ x. held +ℤ x) (wrap64_sub credits actual p c q a) in
    ground (
      arith,
      +ℤ_parts b (neg credits),
      +ℤ_parts held (credits -ℤ actual),
      -ℤ_parts credits actual,
      -ℤ_parts b actual,
      eq_of_parts after (b -ℤ actual),
    )

refunded_sum :
    {b held after : ℤ} (credits : ℤ)
    → pos 0 <ℤ credits
    → InRange64 credits
    → held ≡ b +ℤ wrap64 (neg credits)
    → after ≡ held +ℤ wrap64 (neg (wrap64 (neg credits)))
    → after ≡ b
refunded_sum {b} {held} {after} credits p c h k =
    let h' : held ≡ b +ℤ neg credits = h ∙ ap (λ x. b +ℤ x) (wrap64-neg credits p c) in
    let k' : after ≡ held +ℤ credits =
      k
      ∙ ap (λ x. held +ℤ wrap64 (neg x)) (wrap64-neg credits p c)
      ∙ ap (λ x. held +ℤ x) (wrap64-neg-neg credits p c) in
    ground (arith, +ℤ_parts b (neg credits), +ℤ_parts held credits, eq_of_parts after b)

module _ {ℓ} {S : Type ℓ} (store : LedgerStore S) (balance_of : S → ℤ → ℤ)
    (laws : IsLedgerStore store balance_of) where
  -- A reservation that is new holds the credits back.
  record IsReserved (installation_id : ℤ) (review_id : String) (credits : ℤ) (key : String)
      (s after : S) (entry : Transaction) : Type 0 where
    positive : pos 0 <ℤ credits
    tenant : entry.installation_id ≡ installation_id
    amount : entry.credits ≡ wrap64 (neg credits)
    held : balance_of after installation_id ≡ balance_of s installation_id +ℤ wrap64 (neg credits)
    covered : credits ≤ℤ balance_of s installation_id

  reserve-IsReserved :
      (installation_id : ℤ) (review_id : String) (credits : ℤ) (key : String) (s after : S)
      → (entry : Transaction)
      → reserve (some store) installation_id review_id credits key s ≡ (after, ok (entry, true))
      → IsReserved installation_id review_id credits key s after entry
  unfolding reserve
  reserve-IsReserved installation_id review_id credits key s after entry h =
      elim (Bool-cases (
        leb_ℤ installation_id (pos 0)
        || str_eq review_id ""
        || leb_ℤ credits (pos 0)
        || str_eq key "")) [
          | inl bad ↦ ground arith
          | inr good ↦
              let stored : store.reserve (reserve_entry installation_id review_id credits key)
                    credits s
                  ≡ (after, ok (entry, true)) =
                ground arith in
              let (held, covered) =
                laws.reserve_adds (reserve_entry installation_id review_id credits key) entry
                  credits s after stored in
              let (tenant, review, kind, amount) =
                laws.reserve_keeps (reserve_entry installation_id review_id credits key) entry
                  credits s after stored in
              record {
                positive = ground arith;
                tenant = tenant;
                amount = amount;
                held = held;
                covered = covered;
              }
        ]

  settle-adds :
      (entry : Transaction) (actual : ℤ) (key : String) (s after : S) (t : Transaction)
      → settle (some store) entry actual key s ≡ (after, ok (t, true))
      → (balance_of after entry.installation_id
          ≡ balance_of s entry.installation_id +ℤ sub64 (wrap64 (neg entry.credits)) actual)
        × (pos 0 ≤ℤ actual)
  unfolding settle
  settle-adds entry actual key s after t h =
      elim (Bool-cases (not (valid_reservation entry) || ltb_ℤ actual (pos 0) || str_eq key "")) [
        | inl bad ↦ ground arith
        | inr good ↦ (
          laws.append_adds (settle_entry entry actual key) t s after (ground arith),
          ground arith,
        )
      ]

  refund-adds :
      (entry : Transaction) (key : String) (s after : S) (t : Transaction)
      → refund (some store) entry key s ≡ (after, ok (t, true))
      → balance_of after entry.installation_id
        ≡ balance_of s entry.installation_id +ℤ wrap64 (neg entry.credits)
  unfolding refund
  refund-adds entry key s after t h =
      elim (Bool-cases (not (valid_reservation entry) || str_eq key "")) [
        | inl bad ↦ ground arith
        | inr good ↦ laws.append_adds (refund_entry entry key) t s after (ground arith)
      ]

  -- Over a store whose new entries change the balance by their credits and whose new reservations
  -- are covered and come back as given, a new reservation was covered by the balance, and once a
  -- new entry settles it, the balance of the tenant has gone down by exactly the actual credits,
  -- for credits that are int64 values.
  pub settle-reserve :
      (installation_id : ℤ) (review_id : String) (credits actual : ℤ) (key last : String)
      (s held after : S)
      → (entry t : Transaction) → InRange64 credits
      → InRange64 actual
      → reserve (some store) installation_id review_id credits key s ≡ (held, ok (entry, true))
      → settle (some store) entry actual last held ≡ (after, ok (t, true))
      → (credits ≤ℤ balance_of s installation_id)
        × (balance_of after installation_id ≡ balance_of s installation_id -ℤ actual)
  settle-reserve installation_id review_id credits actual key last s held after entry t c a h k =
      let r = reserve-IsReserved installation_id review_id credits key s held entry h in
      let (moved, natural) = settle-adds entry actual last held after t k in
      (
        r.covered,
        settled_sum (balance_of s installation_id) (balance_of held installation_id)
            (balance_of after installation_id) credits actual r.positive c natural a r.held
            (rw r.tenant at (rw r.amount at moved)),
      )

  -- Over a store whose new entries change the balance by their credits and whose new reservations
  -- are covered and come back as given, a new reservation that a new entry refunds leaves the
  -- balance of the tenant as it was, for credits that are int64 values.
  pub refund-reserve :
      (installation_id : ℤ) (review_id : String) (credits : ℤ) (key last : String)
      (s held after : S)
      → (entry t : Transaction) → InRange64 credits
      → reserve (some store) installation_id review_id credits key s ≡ (held, ok (entry, true))
      → refund (some store) entry last held ≡ (after, ok (t, true))
      → balance_of after installation_id ≡ balance_of s installation_id
  refund-reserve installation_id review_id credits key last s held after entry t c h k =
      let r = reserve-IsReserved installation_id review_id credits key s held entry h in
      refunded_sum credits r.positive c r.held
        (rw r.tenant at (rw r.amount at (refund-adds entry last held after t k)))
