-- ===== src/Billing/Stripe/Signed.antt =====
-- internal/hosted/billing/stripe.go: a header that signs a body, and what parseStripeSignature reads in it.
use Prim.Native.String.{◌++◌ as concat}
use px.Prelude.{
  ap, length, ◌∙◌, Bool, none, [], ◌∷◌, Some, any_of, ◌≡◌, ◌<◌, ◌↔◌, inl, inr, String, true, false,
  some, List, arith, ok, Result-cases, Option-cases,
}
use px.Prelude.Int.{ℤ, pos, eqb_ℤ, eqb_ℤ-iff}
use px.Prelude.Text.{split_on, show_ℤ}
use px.Webhook.Signature.{Crypto, equal_bytes}
use px.Webhook.Signature.Verified.{equal_bytes_iff}
use px.Billing.Stripe.Header.{IsCode, AllNumbers, LastStamp}
use px.Billing.Stripe.Parts.{read_parts-IsRead, read_parts-ok, LastStamp-unique, LastStamp-NoStamp}
use px.Billing.Stripe.{parse_stripe_signature, read_parts, is_signed}

-- A text passes as the hexadecimal code of the HMAC of `<timestamp>.<body>` under the secret.
abbrev signs : Crypto → String → ℤ → String → String → Bool
signs crypto secret timestamp body encoded = elim (crypto.decode_hex encoded) [
  | none ↦ false
  | some candidate ↦
      equal_bytes (crypto.mac secret (concat (show_ℤ timestamp) (concat "." body))) candidate
]

-- The header, split at commas, has a `v1=` part that decodes to the HMAC of `<timestamp>.<body>`; its
-- `t=` parts are integers, and the last of them is this timestamp, which is not zero.
pub record IsSigned (crypto : Crypto) (secret body header : String) (timestamp : ℤ) : Type 0 where
  pub numbers : AllNumbers (split_on 44 header)
  pub last : LastStamp timestamp (split_on 44 header)
  pub nonzero : ¬ (timestamp ≡ pos 0)
  pub coded :
      Some
        (λ p.
          (encoded : String) × IsCode p encoded
          × (crypto.decode_hex encoded
              ≡ some (crypto.mac secret (concat (show_ℤ timestamp) (concat "." body)))))
        (split_on 44 header)

signs_iff :
    (crypto : Crypto) (secret : String) (timestamp : ℤ) (body encoded : String)
    → (signs crypto secret timestamp body encoded ≡ true) ↔ (
        crypto.decode_hex encoded
        ≡ some (crypto.mac secret (concat (show_ℤ timestamp) (concat "." body))))
signs_iff crypto secret timestamp body encoded = elim (Option-cases (crypto.decode_hex encoded)) [
  | inl e ↦ ground (arith, e)
  | inr (candidate, e) ↦ ground (
    arith,
    e,
    equal_bytes_iff (crypto.mac secret (concat (show_ℤ timestamp) (concat "." body))) candidate,
  )
]

Some-map :
    {P Q : String → Type 0} (parts : List String)
    → ((p : String) → P p → Q p)
    → Some P parts
    → Some Q parts
Some-map [] f h = h
Some-map (p ∷ ps) f (inl h) = inl (f p h)
Some-map (p ∷ ps) f (inr h) = inr (Some-map ps f h)

no_signature : (passes : String → Bool) → ¬ (any_of passes [] ≡ true)
unfolding any_of
no_signature passes h = ground (arith, h)

any_of-length :
    (passes : String → Bool) (xs : List String) → any_of passes xs ≡ true → 0 < length xs
unfolding any_of
any_of-length passes [] h = absurd (ground (arith, h))
any_of-length passes (x ∷ xs) h = omega arith

not_zero : (n : ℤ) → ¬ (n ≡ pos 0) → eqb_ℤ n (pos 0) ≡ false
not_zero n h = ground (arith, h, eqb_ℤ-iff n (pos 0))

module _ (crypto : Crypto) (secret body header : String) where
  pub parse-IsSigned :
      (timestamp : ℤ) (signatures : List String)
      → parse_stripe_signature header ≡ ok (timestamp, signatures)
      → is_signed crypto secret timestamp body signatures ≡ true
      → IsSigned crypto secret body header timestamp
  unfolding parse_stripe_signature
  parse-IsSigned timestamp signatures h signed =
      elim (Result-cases (read_parts (pos 0) [] (split_on 44 header))) [
        | inr (x, e) ↦ absurd (ground (arith, h, e))
        | inl (out, e) ↦
            let same : out ≡ (timestamp, signatures) = ground (arith, h, e) in
            let i =
              read_parts-IsRead (pos 0) [] (split_on 44 header) (timestamp, signatures)
                (e ∙ ap ok same) in
            let nonzero : ¬ (timestamp ≡ pos 0) =
              λ z. ground (arith, h, e, z, same, eqb_ℤ-iff timestamp (pos 0)) in
            record {
              numbers = i.numbers;
              last = elim i.last [ inl l ↦ l | inr (none_given, z) ↦ absurd (nonzero z) ];
              nonzero = nonzero;
              coded = elim ((i.codes (signs crypto secret timestamp body)).0 signed) [
                | inl a ↦ absurd (no_signature (signs crypto secret timestamp body) a)
                | inr c ↦
                    Some-map (split_on 44 header)
                      (λ p k. (k.0, k.1, (signs_iff crypto secret timestamp body k.0).0 k.2)) c
              ];
            }
      ]

  pub IsSigned-parse :
      (timestamp : ℤ)
      → IsSigned crypto secret body header timestamp
      → (signatures : List String) × (parse_stripe_signature header ≡ ok (timestamp, signatures))
        × (is_signed crypto secret timestamp body signatures ≡ true)
  unfolding parse_stripe_signature
  IsSigned-parse timestamp i =
      let parts = split_on 44 header in
      let (out, e) = read_parts-ok (pos 0) [] parts i.numbers in
      let r = read_parts-IsRead (pos 0) [] parts out e in
      let same : out.0 ≡ timestamp = elim r.last [
        | inl l ↦ LastStamp-unique out.0 timestamp parts l i.last
        | inr (none_given, z) ↦ absurd (LastStamp-NoStamp timestamp parts i.last none_given)
      ] in
      let coded =
        Some-map parts (λ p k. (k.0, k.1, (signs_iff crypto secret timestamp body k.0).1 k.2))
          i.coded in
      let signed : any_of (signs crypto secret timestamp body) out.1 ≡ true =
        (r.codes (signs crypto secret timestamp body)).1 (inr coded) in
      let some_code = any_of-length (signs crypto secret timestamp body) out.1 signed in
      let nonzero : eqb_ℤ timestamp (pos 0) ≡ false = not_zero timestamp i.nonzero in
      (out.1, ground (arith, e, same, nonzero, some_code), signed)
