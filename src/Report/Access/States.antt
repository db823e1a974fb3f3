-- ===== src/Report/Access/States.antt =====
-- internal/hosted/report/access.go: the states that Begin signs and ValidateState checks.
use Prim.Native.String.{◌++◌ as concat}
use text.Mathlib.TextLemmas.{nil-append, cons-append}
use px.Prelude.{
  ℕ, ◌≡◌, refl, ap, ◌∙◌, ◌↔◌, String, true, false, not, some, [], ◌∷◌, arith, ok, err, str_eq,
  eq_iff, if◌then◌else◌, Bool-cases, inl, inr,
}
use px.Prelude.Int.{ℤ, pos, ◌+ℤ◌, ◌≤ℤ◌}
use px.Prelude.Text.{has_char, split_on}
use px.Webhook.Signature.{Bytes, equal_bytes}
use px.Webhook.Signature.Verified.{equal_bytes_iff}
use px.Report.Access.{
  OauthState, OauthFlow, Codec, safe_redirect, binding_hash, sign_state, new_state, invalid_begin,
  authorize_link, begin, check_state, check_parts, validate_state,
}

-- A text without the separator is not split.
split_on-one : (sep : ℕ) (s : String) → has_char sep s ≡ false → split_on sep s ≡ s ∷ []
unfolding split_on has_char
split_on-one sep String.[] h = refl
split_on-one sep (String.◌∷◌ c s) h = ground (arith, split_on-one sep s)

dot-append : (b : String) → concat "." b ≡ String.◌∷◌ "." b
dot-append b = cons-append "." "" b ∙ ap (λ (t : String). String.◌∷◌ "." t) (nil-append b)

-- Two texts without a dot are split at the dot between them.
split_on-two :
    (a b : String)
    → has_char b'.' a ≡ false
    → has_char b'.' b ≡ false
    → split_on b'.' (concat a (concat "." b)) ≡ a ∷ b ∷ []
unfolding split_on has_char
split_on-two String.[] b h k =
    rw (nil-append (concat "." b), dot-append b) (ground (arith, split_on-one b'.' b k))
split_on-two (String.◌∷◌ c a) b h k =
    rw (cons-append c a (concat "." b)) (ground (arith, split_on-two a b))

-- What the flow relies on: base64 can be read back and has no dot.
pub record IsCodec (codec : Codec) : Type 0 where
  pub base64 : (bs : Bytes) → codec.decode_base64 (codec.encode_base64 bs) ≡ some bs
  pub no_dot : (bs : Bytes) → has_char b'.' (codec.encode_base64 bs) ≡ false

-- The JSON of a state can be read back.
abbrev pub IsReadBack : Codec → OauthState → Type 0
IsReadBack codec v = codec.decode_state (codec.encode_state v) ≡ some v

module _ (codec : Codec) (laws : IsCodec codec) (f : OauthFlow) where
  check_signed :
      (now : ℤ) (v : OauthState) (key : Bytes) (binding : String)
      → IsReadBack codec v
      → validate_state codec f now (sign_state codec (codec.encode_state v) key) binding ≡ (
          if not (
            equal_bytes
              (codec.mac key (codec.encode_state v))
              (codec.mac f.state_key (codec.encode_state v)))
          then err "invalid OAuth state"
          else check_state codec now binding (some v))
  unfolding validate_state sign_state check_parts
  check_signed now v key binding read =
      let payload = codec.encode_state v in
      ground (
        arith,
        split_on-two (codec.encode_base64 payload) (codec.encode_base64 (codec.mac key payload))
            (laws.no_dot payload) (laws.no_dot (codec.mac key payload)),
        laws.base64 payload,
        laws.base64 (codec.mac key payload),
        read,
      )

  -- Where base64 can be read back and has no dot, and the JSON of the state can be read back:
  -- ValidateState answers a redirect for a state that was signed with some key exactly if the MAC
  -- under that key is the one under the key of the flow, the nonce is not empty, the redirect is
  -- safe, the binding is that of the session, and it has not expired; and then it answers the
  -- redirect of the state.
  pub validate_state-sign_state_iff :
      (now : ℤ) (v : OauthState) (key : Bytes) (binding r : String)
      → IsReadBack codec v
      → (validate_state codec f now (sign_state codec (codec.encode_state v) key) binding ≡ ok r)
        ↔ ((codec.mac key (codec.encode_state v) ≡ codec.mac f.state_key (codec.encode_state v))
            × (str_eq v.nonce "" ≡ false)
            × (safe_redirect v.redirect ≡ true)
            × (v.binding ≡ binding_hash codec binding)
            × (now ≤ℤ v.expires)
            × (r ≡ v.redirect))
  unfolding check_state
  validate_state-sign_state_iff now v key binding r read = ground (
    arith,
    check_signed now v key binding read,
    equal_bytes_iff (codec.mac key (codec.encode_state v))
        (codec.mac f.state_key (codec.encode_state v)),
    eq_iff v.binding (binding_hash codec binding),
  )

  -- Where base64 can be read back and has no dot, the JSON of the new state can be read back, and
  -- the base64 of the nonce is not empty: the link that Begin answers carries a state for which
  -- ValidateState, up to 600 seconds later and for the same session, answers the redirect that
  -- Begin was given.
  pub validate_state-begin :
      (now later : ℤ) (nonce : Bytes) (redirect binding link : String)
      → str_eq (codec.encode_base64 nonce) "" ≡ false
      → IsReadBack codec (new_state codec now nonce redirect binding)
      → later ≤ℤ now +ℤ pos 600
      → begin codec (ok nonce) now f redirect binding ≡ ok link
      → (state : String) × (link ≡ authorize_link codec f state)
        × (validate_state codec f later state binding ≡ ok redirect)
  unfolding begin new_state
  validate_state-begin now later nonce redirect binding link some_nonce read soon e =
      let v = new_state codec now nonce redirect binding in
      let state = sign_state codec (codec.encode_state v) f.state_key in
      elim (Bool-cases (invalid_begin codec f redirect binding)) [
        | inl bad ↦ absurd (ground (arith, bad))
        | inr good ↦ (
          state,
          ground (arith, good),
          (validate_state-sign_state_iff later v f.state_key binding redirect read).1
              (refl, some_nonce, ground (arith, good), refl, soon, refl),
        )
      ]
