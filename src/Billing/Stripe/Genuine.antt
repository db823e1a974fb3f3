-- ===== src/Billing/Stripe/Genuine.antt =====
-- internal/hosted/billing/stripe.go: the guards of Handle, against a description of a genuine event.
use px.Prelude.{
  ◌*◌, refl, sym, subst, eq_iff, none, if◌then◌else◌, ◌≡◌, ◌≤◌, ◌<◌, ◌⊎◌, ◌↔◌, inl, inr, String,
  len, false, Option, some, arith, str_eq, Result, ok, err, Result-cases, Option-cases, Bool-cases,
  ◌^◌,
}
use px.Prelude.Int.{ℤ, ◌≤ℤ◌, ◌+ℤ◌, ◌-ℤ◌, ◌*ℤ◌, pos, ltb_ℤ}
use px.Webhook.Signature.{Crypto}
use px.Billing.Stripe.Signed.{IsSigned, parse-IsSigned, IsSigned-parse}
use px.Billing.Stripe.{
  StripeEvent, StripeEventStore, StripeWebhook, DecodeEvent, parse_stripe_signature, invalid_event,
  decode_event, check_event, dispatch, handle,
}

-- The tolerance given, if it is positive, or five minutes.
abbrev pub allowed_tolerance : ℤ → ℤ
allowed_tolerance given = if ltb_ℤ (pos 0) given then given else pos (5 * 60 * 10 ^ 9)

-- A body within the bounds, a header that signs it at a time near the clock, and an event with an ID
-- and an object.
pub record IsGenuine {ℓ} {S : Type ℓ} (crypto : Crypto) (decode : DecodeEvent) (h : StripeWebhook S)
    (body header : String) (event : StripeEvent) : Type 0 where
  pub size : (0 < len body) × (len body ≤ 2 ^ 20)
  pub timestamp : ℤ
  pub signed : IsSigned crypto h.secret body header timestamp
  pub near :
      (h.now -ℤ allowed_tolerance h.tolerance ≤ℤ timestamp *ℤ pos (10 ^ 9))
      × (timestamp *ℤ pos (10 ^ 9) ≤ℤ h.now +ℤ allowed_tolerance h.tolerance)
  pub decoded : decode body ≡ some event
  pub named : (str_eq event.id "" ≡ false) × (str_eq event.object "" ≡ false)

decode_event_iff :
    (decode : DecodeEvent) (body : String) (event : StripeEvent)
    → (decode_event decode body ≡ ok event)
      ↔ ((decode body ≡ some event) × (invalid_event event ≡ false))
unfolding decode_event
decode_event_iff decode body event = elim (Option-cases (decode body)) [
  | inl e ↦ ground (arith, e)
  | inr (found, e) ↦ ground (arith, e)
]

module _ {ℓ} {S : Type ℓ} (crypto : Crypto) (decode : DecodeEvent) (h : StripeWebhook S)
    (body header : String) where
  check_event-IsGenuine :
      (event : StripeEvent)
      → check_event crypto decode h body header ≡ ok event
      → IsGenuine crypto decode h body header event
  unfolding check_event
  check_event-IsGenuine event e = elim (Result-cases (parse_stripe_signature header)) [
    | inl (out, p) ↦ record {
      size = (ground (arith, p), ground (arith, p));
      timestamp = out.0;
      signed = parse-IsSigned crypto h.secret body header out.0 out.1 p (ground (arith, e, p));
      near = (ground (arith, e, p), ground (arith, e, p));
      decoded = ground (arith, p, decode_event_iff decode body event);
      named = ground (arith, p, decode_event_iff decode body event);
    }
    | inr (x, p) ↦ ground (arith, p)
  ]

  check_event_complete :
      (event : StripeEvent)
      → IsGenuine crypto decode h body header event
      → check_event crypto decode h body header ≡ ok event
  unfolding check_event
  check_event_complete event g =
      let (signatures, p, signed) =
        IsSigned-parse crypto h.secret body header g.timestamp g.signed in
      let size = g.size in
      let near = g.near in
      let decoded = g.decoded in
      let named = g.named in ground (arith, p, signed, decode_event_iff decode body event)

  check_event_cases :
      ((event : StripeEvent) × IsGenuine crypto decode h body header event
        × (check_event crypto decode h body header ≡ ok event))
      ⊎ ((e : String) × (check_event crypto decode h body header ≡ err e)
          × ((event : StripeEvent) → ¬ IsGenuine crypto decode h body header event))
  check_event_cases = elim (Result-cases (check_event crypto decode h body header)) [
    | inl (event, e) ↦ inl (event, check_event-IsGenuine event e, e)
    | inr (x, e) ↦
        inr (x, e, λ event g. (let complete = check_event_complete event g in ground arith))
  ]

  -- A paid invoice and an updated subscription reach the store, each by its own operation; an event of
  -- another type is accepted and changes nothing.
  abbrev pub IsDispatched : StripeEventStore S → StripeEvent → S → S × Option String → Type ℓ
  IsDispatched store event s out =
      ((event.kind ≡ "invoice.paid") × (out ≡ store.invoice_paid event.id event.object s))
      ⊎ (((event.kind ≡ "customer.subscription.updated")
            × (out ≡ store.subscription_updated event.id event.object s))
          ⊎ ((¬ (event.kind ≡ "invoice.paid"))
              × (¬ (event.kind ≡ "customer.subscription.updated"))
              × (out ≡ (s, none))))

  dispatch-IsDispatched :
      (store : StripeEventStore S) (event : StripeEvent) (s : S)
      → IsDispatched store event s (dispatch store event s)
  unfolding dispatch
  dispatch-IsDispatched store event s = elim (Bool-cases (str_eq event.kind "invoice.paid")) [
    | inl e ↦ inl ((eq_iff event.kind "invoice.paid").0 e, rw e refl)
    | inr e ↦ elim (Bool-cases (str_eq event.kind "customer.subscription.updated")) [
      | inl f ↦ inr (inl ((eq_iff event.kind "customer.subscription.updated").0 f, rw (e, f) refl))
      | inr f ↦ inr (
          inr (
            λ k. ground (arith, e, (eq_iff event.kind "invoice.paid").1 k),
            λ k. ground (arith, f, (eq_iff event.kind "customer.subscription.updated").1 k),
            rw (e, f) refl,
          ))
    ]
  ]

  -- The event reached the store, or nothing changed.
  abbrev pub IsHandled : StripeEventStore S → S → S × Option String → Type ℓ
  IsHandled store s out =
      ((event : StripeEvent) × IsGenuine crypto decode h body header event
        × IsDispatched store event s out)
      ⊎ ((e : String) × (out ≡ (s, some e))
          × ((event : StripeEvent) → ¬ IsGenuine crypto decode h body header event))

  handle-check_event :
      (store : StripeEventStore S) (s : S) (r : Result StripeEvent)
      → h.store ≡ some store
      → str_eq h.secret "" ≡ false
      → check_event crypto decode h body header ≡ r
      → handle crypto decode h body header s
        ≡ elim r [ err e ↦ (s, some e) | ok event ↦ dispatch store event s ]
  unfolding handle
  handle-check_event store s (ok event) given secret e = ground (arith, given, e)
  handle-check_event store s (err x) given secret e = ground (arith, given, e)

  -- A Stripe webhook with a secret and a store accepts a delivery exactly where the body has from
  -- 1 byte to 1 MiB, the parts of the header, split at commas, have integers for each t, the last
  -- of them not zero and within the tolerance of the clock, and a v1 that decodes to the HMAC of
  -- that timestamp, a dot and the body, and the body decodes to an event with an ID and an object.
  -- A paid invoice and an updated subscription then reach the store by their own operations, and
  -- another type changes nothing; any other delivery is an error and leaves the store as it is.
  pub handle-IsHandled :
      (store : StripeEventStore S) (s : S)
      → h.store ≡ some store
      → str_eq h.secret "" ≡ false
      → IsHandled store s (handle crypto decode h body header s)
  handle-IsHandled store s given secret = elim check_event_cases [
    | inl (event, g, e) ↦
        let run = handle-check_event store s (ok event) given secret e in
        inl (
          event,
          g,
          subst (IsDispatched store event s) (sym run) (dispatch-IsDispatched store event s),
        )
    | inr (x, e, never) ↦ inr (x, handle-check_event store s (err x) given secret e, never)
  ]
