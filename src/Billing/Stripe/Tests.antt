-- ===== src/Billing/Stripe/Tests.antt =====
-- A paid invoice, signed at the time of the clock; the store lists the IDs it has seen.
use px.Prelude.{
  ◌*◌, ◌^◌, ◌≡◌, refl, String, none, some, List, [], ◌∷◌, ok, any_of, str_eq, if◌then◌else◌,
}
use px.Prelude.Int.{pos, ◌+ℤ◌, ◌-ℤ◌, ◌*ℤ◌}
use px.Prelude.Text.{trim_space, trim_left, trim_right, is_space, split_on, show_ℤ, show_ℕ}
use px.Prelude.Numbers.{parse_int, digits_value}
use px.Webhook.Signature.{Crypto, equal_bytes}
use px.Billing.Stripe.{
  StripeEvent, StripeEventStore, StripeWebhook, DecodeEvent, cut_at_equals, read_parts,
  parse_stripe_signature, decode_event, check_event, dispatch, handle,
}
use px.Billing.Stripe.Genuine.{IsHandled, handle-IsHandled}

abbrev one_byte : Crypto
one_byte = record {
  mac = λ secret body. 7 ∷ [];
  decode_hex = λ s. (if str_eq s "07" then some (7 ∷ []) else none);
  encode_hex = λ bs. "07";
}

abbrev paid : StripeEvent
paid = record { id = "evt_1"; kind = "invoice.paid"; object = "{}" }

abbrev decode_paid : DecodeEvent
decode_paid body = some paid

abbrev seen_ids : StripeEventStore (List String)
seen_ids = record {
  invoice_paid = λ id object ids. (id ∷ ids, none);
  subscription_updated = λ id object ids. (ids, none);
}

abbrev endpoint : StripeWebhook (List String)
endpoint = record {
  secret = "s";
  tolerance = pos 0;
  now = pos (1000 * 10 ^ 9);
  store = some seen_ids;
}

parse-header : parse_stripe_signature "t=1000, v1=07,v0=x" ≡ ok (pos 1000, "07" ∷ [])
unfolding parse_stripe_signature read_parts cut_at_equals split_on trim_space trim_left trim_right
    is_space parse_int digits_value
parse-header = refl

handle-paid : handle one_byte decode_paid endpoint "{}" "t=1000,v1=07" [] ≡ ("evt_1" ∷ [], none)
unfolding handle check_event dispatch decode_event parse_stripe_signature read_parts cut_at_equals
    split_on trim_space trim_left trim_right is_space parse_int digits_value equal_bytes any_of
    show_ℤ show_ℕ ◌+ℤ◌ ◌-ℤ◌ ◌*ℤ◌
handle-paid = refl

handle-old :
    handle one_byte decode_paid endpoint "{}" "t=10,v1=07" []
    ≡ ([], some "Stripe webhook timestamp is outside tolerance")
unfolding handle check_event dispatch decode_event parse_stripe_signature read_parts cut_at_equals
    split_on trim_space trim_left trim_right is_space parse_int digits_value equal_bytes any_of
    show_ℤ show_ℕ ◌+ℤ◌ ◌-ℤ◌ ◌*ℤ◌
handle-old = refl

handle-IsHandled_example :
    IsHandled one_byte decode_paid endpoint "{}" "t=1000,v1=07" seen_ids []
      (handle one_byte decode_paid endpoint "{}" "t=1000,v1=07" [])
handle-IsHandled_example =
    handle-IsHandled one_byte decode_paid endpoint "{}" "t=1000,v1=07" seen_ids [] refl refl
