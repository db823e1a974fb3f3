-- ===== src/Webhook/Signature/Tests.antt =====
-- A constant code, and a code that writes each byte in unary.
use px.Prelude.{ℕ, zero, suc, ◌≡◌, refl, ◌↔◌, true, false, some, [], ◌∷◌, length}
use px.Prelude.Text.{has_prefix}
use px.Webhook.Signature.Unary.{encode, decode, decode-encode}
use px.Webhook.Signature.{Bytes, Crypto, valid_signature, signature}
use px.Webhook.Signature.Verified.{valid_signature_iff, valid_signature-signature}

abbrev sevens : ℕ → Bytes
sevens zero = []
sevens (suc n) = 7 ∷ sevens n

-- Whatever is signed, the HMAC is thirty-two sevens.
abbrev constant : Crypto
constant = record {
  mac = λ secret body. sevens 32;
  decode_hex = λ s. some (sevens 32);
  encode_hex = λ bs. "07";
}

other_prefix : valid_signature constant "s" "b" "sha1=07" ≡ false
unfolding valid_signature has_prefix
other_prefix = refl

valid_signature_iff_example : (valid_signature constant "s" "b" "sha256=07" ≡ true) ↔ (
    (has_prefix "sha256=07" "sha256=" ≡ true)
    × (some (sevens 32) ≡ some (sevens 32))
    × (length (sevens 32) ≡ 32))
valid_signature_iff_example = valid_signature_iff constant "s" "b" "sha256=07"

abbrev in_unary : Crypto
in_unary = record { mac = λ secret body. sevens 32; decode_hex = decode 0; encode_hex = encode }

valid_signature-signature_example :
    valid_signature in_unary "s" "b" (signature in_unary "s" "b") ≡ true
valid_signature-signature_example = valid_signature-signature in_unary "s" "b" decode-encode refl
