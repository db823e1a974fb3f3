-- ===== src/Webhook/Signature/Verified.antt =====
-- internal/hosted/webhook/handler.go: validSignature and Signature against the HMAC.
use Prim.Native.String.{◌++◌ as concat}
use text.Mathlib.TextLemmas.{nil-append, cons-append}
use px.Prelude.{
  ◌≡◌, refl, ap, ◌∙◌, ◌↔◌, String, true, some, [], ◌∷◌, arith, Option-cases, inl, inr, length,
}
use px.Prelude.Text.{has_prefix, trim_prefix}
use px.Webhook.Signature.{Bytes, Crypto, equal_bytes, valid_signature, signature}

pub equal_bytes_iff : (cs bs : Bytes) → (equal_bytes cs bs ≡ true) ↔ (cs ≡ bs)
unfolding equal_bytes
equal_bytes_iff [] [] = ground arith
equal_bytes_iff [] (b ∷ bs) = ground arith
equal_bytes_iff (a ∷ cs) [] = ground arith
equal_bytes_iff (a ∷ cs) (b ∷ bs) = ground (arith, equal_bytes_iff cs bs)

-- A header passes exactly where it is the prefix and a code of the 32 bytes of the HMAC.
pub valid_signature_iff :
    (crypto : Crypto) (secret body header : String)
    → (valid_signature crypto secret body header ≡ true) ↔ (
        (has_prefix header "sha256=" ≡ true)
        × (crypto.decode_hex (trim_prefix header "sha256=") ≡ some (crypto.mac secret body))
        × (length (crypto.mac secret body) ≡ 32))
unfolding valid_signature
valid_signature_iff crypto secret body header =
    elim (Option-cases (crypto.decode_hex (trim_prefix header "sha256="))) [
      | inl e ↦ ground (arith, e)
      | inr (want, e) ↦ ground (arith, e, equal_bytes_iff want (crypto.mac secret body))
    ]

has_prefix-concat : (p s : String) → has_prefix (concat p s) p ≡ true
unfolding has_prefix
has_prefix-concat String.[] s = refl
has_prefix-concat (String.◌∷◌ c p) s =
    rw (cons-append c p s) (ground (arith, has_prefix-concat p s))

trim_prefix-concat : (p s : String) → trim_prefix (concat p s) p ≡ s
unfolding trim_prefix
trim_prefix-concat String.[] s = nil-append s
trim_prefix-concat (String.◌∷◌ c p) s =
    rw (cons-append c p s) (ground (arith, has_prefix-concat p s, trim_prefix-concat p s))

-- Where the code of bytes can be decoded and the HMAC has 32 bytes, what Signature writes passes.
pub valid_signature-signature :
    (crypto : Crypto) (secret body : String)
    → ((bs : Bytes) → crypto.decode_hex (crypto.encode_hex bs) ≡ some bs)
    → length (crypto.mac secret body) ≡ 32
    → valid_signature crypto secret body (signature crypto secret body) ≡ true
unfolding signature
valid_signature-signature crypto secret body codes long =
    (valid_signature_iff crypto secret body (signature crypto secret body)).1 (
      has_prefix-concat "sha256=" (crypto.encode_hex (crypto.mac secret body)),
      ap crypto.decode_hex
            (trim_prefix-concat "sha256=" (crypto.encode_hex (crypto.mac secret body)))
          ∙ codes (crypto.mac secret body),
      long,
    )
