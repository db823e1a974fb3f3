-- ===== src/Webhook/Signature.antt =====
-- internal/hosted/webhook/handler.go: the signature of a delivery.
pub mod Verified
pub mod Unary
mod Tests
use Prim.Native.String.{◌++◌ as concat}
use px.Prelude.{
  ℕ, String, Bool, true, false, not, ◌&&◌, Option, none, some, List, [], ◌∷◌, if◌then◌else◌, length,
  ◌==◌,
}
use px.Prelude.Text.{has_prefix, trim_prefix}

abbrev pub Bytes : Type 0
Bytes = List ℕ

-- HMAC-SHA256 of a body under a secret, and the hexadecimal code of bytes.
pub record Crypto : Type 0 where
  pub mac : String → String → Bytes
  pub decode_hex : String → Option Bytes
  pub encode_hex : Bytes → String

-- `hmac.Equal`
unfoldable pub equal_bytes : Bytes → Bytes → Bool
equal_bytes [] [] = true
equal_bytes [] (b ∷ bs) = false
equal_bytes (a ∷ cs) [] = false
equal_bytes (a ∷ cs) (b ∷ bs) = a == b && equal_bytes cs bs

-- `validSignature`
unfoldable pub valid_signature : Crypto → String → String → String → Bool
valid_signature crypto secret body header =
    if has_prefix header "sha256="
    then elim (crypto.decode_hex (trim_prefix header "sha256=")) [
      | none ↦ false
      | some want ↦ length want == 32 && equal_bytes want (crypto.mac secret body)
    ]
    else false

-- `Signature`
unfoldable pub signature : Crypto → String → String → String
signature crypto secret body = concat "sha256=" (crypto.encode_hex (crypto.mac secret body))
