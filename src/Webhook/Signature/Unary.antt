-- ===== src/Webhook/Signature/Unary.antt =====
-- internal/hosted/webhook/handler.go and internal/hosted/report/access.go: a code of bytes by texts that
-- can be read back, to try what takes a code as a parameter.
use px.Prelude.{
  ℕ, zero, suc, ◌≡◌, refl, String, false, Option, none, some, [], ◌∷◌, ◌+◌, ◌==◌, arith,
  if◌then◌else◌,
}
use Prim.Native.Char.{code}
use Prim.Native.String.{char_at}
use px.Prelude.Text.{has_char}
use px.Webhook.Signature.{Bytes}

abbrev pub unary : ℕ → String → String
unary zero s = String.◌∷◌ (char_at "b" 0) s
unary (suc n) s = String.◌∷◌ (char_at "a" 0) (unary n s)

abbrev pub encode : Bytes → String
encode [] = String.[]
encode (n ∷ bs) = unary n (encode bs)

abbrev pub cons_byte : ℕ → Option Bytes → Option Bytes
cons_byte n none = none
cons_byte n (some bs) = some (n ∷ bs)

unfoldable pub decode : ℕ → String → Option Bytes
decode n String.[] = some []
decode n (String.◌∷◌ c s) = if code c == 98 then cons_byte n (decode 0 s) else decode (suc n) s

decode-unary : (k n : ℕ) (s : String) → decode k (unary n s) ≡ cons_byte (k + n) (decode 0 s)
unfolding decode
decode-unary k zero s = ground arith
decode-unary k (suc n) s = ground (arith, decode-unary (suc k) n s)

pub decode-encode : (bs : Bytes) → decode 0 (encode bs) ≡ some bs
unfolding decode
decode-encode [] = refl
decode-encode (n ∷ bs) = ground (arith, decode-unary 0 n (encode bs), decode-encode bs)

has_char-unary : (n : ℕ) (s : String) → has_char b'.' s ≡ false → has_char b'.' (unary n s) ≡ false
unfolding has_char
has_char-unary zero s h = ground arith
has_char-unary (suc n) s h = ground (arith, has_char-unary n s)

pub has_char-encode : (bs : Bytes) → has_char b'.' (encode bs) ≡ false
unfolding has_char
has_char-encode [] = refl
has_char-encode (n ∷ bs) = has_char-unary n (encode bs) (has_char-encode bs)
