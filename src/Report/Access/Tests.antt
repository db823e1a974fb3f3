-- ===== src/Report/Access/Tests.antt =====
-- internal/hosted/report/access.go: a sign-in, and a reader's access.
use px.Prelude.{
  ℕ, zero, suc, ◌+◌, ◌≡◌, ◌↔◌, refl, String, true, false, none, some, [], ◌∷◌, ok, err, str_eq,
  if◌then◌else◌,
}
use px.Prelude.Int.{pos, ◌+ℤ◌, ◌≤ℤ◌}
use px.Prelude.Text.{trim_space}
use px.Webhook.Signature.{Bytes, equal_bytes}
use px.Webhook.Signature.Unary.{encode, decode, decode-encode, has_char-encode}
use px.Prelude.Int.{int_laws}
use px.Report.Access.{
  OauthState, OauthFlow, Codec, safe_redirect, http_url, binding_hash, sign_state, new_state,
  authorize_link, begin, validate_state, exchange, can_read, check_state,
}
use px.Report.Access.States.{
  IsCodec, IsReadBack, validate_state-sign_state_iff, validate_state-begin,
}

-- The state of a sign-in at second 1000 that leads to /r/1.
abbrev sample_state : OauthState
sample_state = record { redirect = "/r/1"; expires = pos 1600; nonce = "aab"; binding = "aaaaab" }

-- The MAC adds up the key; a hash is the number of bytes; the one state is the only one there is.
abbrev sum_of : Bytes → ℕ
sum_of [] = 0
sum_of (b ∷ bs) = b + sum_of bs

abbrev sample_codec : Codec
sample_codec = record {
  mac = λ key payload. sum_of key ∷ [];
  sha256 = λ s. 5 ∷ [];
  encode_base64 = encode;
  decode_base64 = decode 0;
  encode_state = λ v. 1 ∷ [];
  decode_state = λ bs. some sample_state;
  encode_query = λ fields. "q";
  parse_url = λ s. some (record { scheme = "https"; host = "h" });
  path_escape = λ s. s;
  encode_fields = λ fields. "{}";
  decode_token = λ s. if str_eq s "" then none else some s;
}

sample_codec-IsCodec : IsCodec sample_codec
sample_codec-IsCodec = record { base64 = decode-encode; no_dot = has_char-encode }

abbrev ones : ℕ → Bytes
ones zero = []
ones (suc n) = 1 ∷ ones n

abbrev flow : OauthFlow
flow = record {
  client_id = "id";
  client_secret = "secret";
  callback_url = "https://h/cb";
  state_key = ones 32;
  authorize_url = "";
  token_url = "";
}

abbrev session : String
session = "0123456789abcdef"

begin-link :
    begin sample_codec (ok (2 ∷ [])) (pos 1000) flow "/r/1" session
    ≡ ok "https://github.com/login/oauth/authorize?q"
unfolding begin http_url safe_redirect
begin-link = refl

-- Outside redirects, a foreign session and a late answer are refused.
access_runs :
    (begin sample_codec (ok (2 ∷ [])) (pos 1000) flow "//h" session
      ≡ err "OAuth client, callback, state key, and safe redirect are required")
    × (validate_state sample_codec flow
          (pos 1601)
          (sign_state sample_codec (1 ∷ []) (ones 32))
          session
        ≡ err "expired OAuth state")
    × (validate_state sample_codec flow
          (pos 1000)
          (sign_state sample_codec (1 ∷ []) (ones 31))
          session
        ≡ err "invalid OAuth state")
    × (exchange sample_codec (λ r. ok (record { status = pos 200; body = "t" })) flow "c" ≡ ok "t")
    × (can_read sample_codec (λ r. ok (record { status = pos 404; body = "" })) "" "t" "me" "px1"
        ≡ ok false)
    × (can_read sample_codec (λ r. ok (record { status = pos 200; body = "" })) "" "t" "me" ".."
        ≡ err "OAuth token and valid repository are required")
unfolding begin http_url safe_redirect validate_state sign_state check_state binding_hash
    equal_bytes decode exchange can_read trim_space
access_runs = (refl, refl, refl, refl, refl, refl)

read_back : IsReadBack sample_codec (new_state sample_codec (pos 1000) (2 ∷ []) "/r/1" session)
unfolding new_state binding_hash ◌+ℤ◌
read_back = refl

validate_state-begin_example :
    (state : String) × ("https://github.com/login/oauth/authorize?q"
      ≡ authorize_link sample_codec flow state)
    × (validate_state sample_codec flow (pos 1500) state session ≡ ok "/r/1")
validate_state-begin_example =
    validate_state-begin sample_codec sample_codec-IsCodec flow (pos 1000) (pos 1500) (2 ∷ [])
      "/r/1" session "https://github.com/login/oauth/authorize?q" refl read_back (omega int_laws)
      begin-link

validate_state-sign_state_iff_example :
    (validate_state sample_codec flow
        (pos 1500)
        (sign_state sample_codec (1 ∷ []) (ones 31))
        session
      ≡ ok "/r/1")
    ↔ ((sample_codec.mac (ones 31) (1 ∷ []) ≡ sample_codec.mac flow.state_key (1 ∷ []))
        × (str_eq sample_state.nonce "" ≡ false)
        × (safe_redirect sample_state.redirect ≡ true)
        × (sample_state.binding ≡ binding_hash sample_codec session)
        × (pos 1500 ≤ℤ sample_state.expires)
        × ("/r/1" ≡ sample_state.redirect))
validate_state-sign_state_iff_example =
    validate_state-sign_state_iff sample_codec sample_codec-IsCodec flow (pos 1500) sample_state
      (ones 31) session "/r/1" refl
