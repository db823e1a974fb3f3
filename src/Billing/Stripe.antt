-- ===== src/Billing/Stripe.antt =====
-- internal/hosted/billing/stripe.go: the payment events of Stripe, and the calls of its client.
pub mod Genuine
pub mod Header
pub mod Parts
pub mod Signed
mod Tests
use Prim.Native.Char.{Char, code}
use Prim.Native.String.{◌++◌ as concat}
use px.Prelude.{
  ℕ, ◌+◌, ◌*◌, ◌^◌, String, len, Bool, true, false, not, ◌&&◌, ◌||◌, Option, none, some, List, [],
  ◌∷◌, ◌++◌, str_eq, ltb, ◌==◌, if◌then◌else◌, Result, ok, err, ◌>>=◌, ◌>>◌, refuse_if, any_of,
  length,
}
use px.Prelude.Int.{ℤ, pos, ltb_ℤ, leb_ℤ, eqb_ℤ, ◌+ℤ◌, ◌-ℤ◌, ◌*ℤ◌}
use px.Prelude.Text.{trim_space, split_on, has_prefix, has_char, show_ℤ}
use px.Prelude.Numbers.{parse_int}
use px.Webhook.Signature.{Crypto, equal_bytes}

abbrev pub max_stripe_event_bytes : ℕ
max_stripe_event_bytes = 2 ^ 20

-- `object` is the raw JSON of `data.object`.
pub record StripeEvent : Type 0 where
  pub id : String
  pub kind : String
  pub object : String

-- The interface of the store, over its states.
pub record StripeEventStore {ℓ} (S : Type ℓ) : Type ℓ where
  pub invoice_paid : String → String → S → S × Option String
  pub subscription_updated : String → String → S → S × Option String

-- Instants and durations are nanoseconds; `now` is the reading of the clock since the Unix epoch.
pub record StripeWebhook {ℓ} (S : Type ℓ) : Type ℓ where
  pub secret : String
  pub tolerance : ℤ
  pub now : ℤ
  pub store : Option (StripeEventStore S)

-- `strings.Cut(s, "=")`
unfoldable pub cut_at_equals : String → Option (String × String)
cut_at_equals String.[] = none
cut_at_equals (String.◌∷◌ c s) =
    let rest = cut_at_equals s in
    if code c == 61
    then some (String.[], s)
    else elim rest [ none ↦ none | some (key, value) ↦ some (String.◌∷◌ c key, value) ]

-- The loop over the parts of the header: the timestamp and the signatures so far.
unfoldable pub read_parts : ℤ → List String → List String → Result (ℤ × List String)
read_parts timestamp signatures [] = ok (timestamp, signatures)
read_parts timestamp signatures (part ∷ parts) = elim (cut_at_equals (trim_space part)) [
  | none ↦ read_parts timestamp signatures parts
  | some (key, value) ↦
      if str_eq key "t"
      then elim (parse_int value) [
        | none ↦ err "invalid Stripe signature timestamp"
        | some parsed ↦ read_parts parsed signatures parts
      ]
      else (if str_eq key "v1"
          then read_parts timestamp (signatures ++ value ∷ []) parts
          else read_parts timestamp signatures parts)
]

-- `parseStripeSignature`
unfoldable pub parse_stripe_signature : String → Result (ℤ × List String)
parse_stripe_signature header = read_parts (pos 0) [] (split_on 44 header) >>= λ out.
    refuse_if (eqb_ℤ out.0 (pos 0) || length out.1 == 0) "Stripe signature requires t and v1"
    >> ok out

abbrev pub tolerance_of {ℓ} : {S : Type ℓ} → StripeWebhook S → ℤ
tolerance_of h = if leb_ℤ h.tolerance (pos 0) then pos (5 * 60 * 10 ^ 9) else h.tolerance

-- `time.Unix(timestamp, 0)`
abbrev pub when_of : ℤ → ℤ
when_of timestamp = timestamp *ℤ pos (10 ^ 9)

abbrev pub outside_tolerance {ℓ} : {S : Type ℓ} → StripeWebhook S → ℤ → Bool
outside_tolerance h timestamp =
    ltb_ℤ (when_of timestamp) (h.now -ℤ tolerance_of h)
    || ltb_ℤ (h.now +ℤ tolerance_of h) (when_of timestamp)

-- One of the signatures is a code of the HMAC of `<timestamp>.<body>`.
abbrev pub is_signed : Crypto → String → ℤ → String → List String → Bool
is_signed crypto secret timestamp body signatures =
    any_of
      (λ encoded. elim (crypto.decode_hex encoded) [
        | none ↦ false
        | some candidate ↦
            equal_bytes (crypto.mac secret (concat (show_ℤ timestamp) (concat "." body))) candidate
      ])
      signatures

abbrev pub invalid_event : StripeEvent → Bool
invalid_event event = str_eq event.id "" || str_eq event.object ""

-- The JSON decoder of Go's library, none for an error.
abbrev pub DecodeEvent : Type 0
DecodeEvent = String → Option StripeEvent

unfoldable pub decode_event : DecodeEvent → String → Result StripeEvent
decode_event decode body = elim (decode body) [
  | none ↦ err "Stripe webhook event is invalid"
  | some event ↦ refuse_if (invalid_event event) "Stripe webhook event is invalid" >> ok event
]

-- The guards of Handle, in their order: the event of a genuine delivery.
unfoldable pub check_event {ℓ} :
    {S : Type ℓ} → Crypto → DecodeEvent → StripeWebhook S → String → String → Result StripeEvent
check_event crypto decode h body header =
    refuse_if (len body == 0 || ltb max_stripe_event_bytes (len body))
      "Stripe webhook body is empty or too large"
    >> (parse_stripe_signature header >>= λ out.
        refuse_if (outside_tolerance h out.0) "Stripe webhook timestamp is outside tolerance"
        >> refuse_if (not (is_signed crypto h.secret out.0 body out.1))
            "Stripe webhook signature is invalid"
        >> decode_event decode body)

-- The events that change the store; any other is accepted and left.
unfoldable pub dispatch {ℓ} :
    {S : Type ℓ} → StripeEventStore S → StripeEvent → S → S × Option String
dispatch store event s =
    if str_eq event.kind "invoice.paid"
    then store.invoice_paid event.id event.object s
    else (if str_eq event.kind "customer.subscription.updated"
        then store.subscription_updated event.id event.object s
        else (s, none))

-- `Handle`
unfoldable pub handle {ℓ} :
    {S : Type ℓ} → Crypto → DecodeEvent → StripeWebhook S → String → String → S → S × Option String
handle crypto decode h body header s = elim h.store [
  | none ↦ (s, some "Stripe webhook secret and store are required")
  | some store ↦
      if str_eq h.secret ""
      then (s, some "Stripe webhook secret and store are required")
      else elim (check_event crypto decode h body header) [
        | err e ↦ (s, some e)
        | ok event ↦ dispatch store event s
      ]
]

-- The client of Stripe, over the states of its account. The instant of a usage counts from the zero time.
pub record StripeClient {ℓ} (S : Type ℓ) : Type ℓ where
  pub create_portal_session : String → String → S → S × Result String
  pub ensure_customer : ℤ → String → S → S × Result String
  pub report_metered_usage : String → String → String → ℤ → ℤ → S → S × Option String

unfoldable pub provision_customer {ℓ} :
    {S : Type ℓ} → Option (StripeClient S) → ℤ → String → S → S × Result String
provision_customer none installation_id billing_email s =
    (s, err "Stripe client, tenant, and billing email are required")
provision_customer (some client) installation_id billing_email s =
    if leb_ℤ installation_id (pos 0) || not (has_char 64 billing_email)
    then (s, err "Stripe client, tenant, and billing email are required")
    else client.ensure_customer installation_id billing_email s

unfoldable pub record_metered_review {ℓ} :
    {S : Type ℓ}
    → Option (StripeClient S)
    → String
    → String
    → String
    → ℤ
    → ℤ
    → S
    → S × Option String
record_metered_review none customer_id price_id event_id credits occurred_at s = (
  s,
  some
      "Stripe client, customer, metered price, event, positive credits, and occurrence time are required",
)
record_metered_review (some client) customer_id price_id event_id credits occurred_at s =
    if not (has_prefix customer_id "cus_")
      || not (has_prefix price_id "price_")
      || str_eq event_id ""
      || leb_ℤ credits (pos 0)
      || eqb_ℤ occurred_at (pos 0)
    then (
      s,
      some
          "Stripe client, customer, metered price, event, positive credits, and occurrence time are required",
    )
    else client.report_metered_usage customer_id price_id event_id credits occurred_at s

unfoldable pub open_customer_portal {ℓ} :
    {S : Type ℓ} → Option (StripeClient S) → String → String → S → S × Result String
open_customer_portal none customer_id return_url s =
    (s, err "Stripe customer and HTTPS return URL are required")
open_customer_portal (some client) customer_id return_url s =
    if not (has_prefix customer_id "cus_") || not (has_prefix return_url "https://")
    then (s, err "Stripe customer and HTTPS return URL are required")
    else client.create_portal_session customer_id return_url s
