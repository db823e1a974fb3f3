-- ===== src/Report/Access.antt =====
-- internal/hosted/report/access.go: the OAuth flow and the check of a reader's access.
pub mod States
mod Tests
use px.Prelude.{
  ℕ, ◌+◌, String, Bool, true, false, not, ◌&&◌, ◌||◌, Option, none, some, List, [], ◌∷◌, Result, ok,
  err, ◌>>=◌, ◌>>◌, refuse_if, ltb, leb, ◌==◌, if◌then◌else◌, str_eq, length, len,
}
use px.Prelude.Int.{ℤ, pos, ◌+ℤ◌, ltb_ℤ, eqb_ℤ}
use px.Prelude.Text.{has_prefix, has_char, split_on, all_chars, trim_right, is_blank, show_ℤ}
use px.Webhook.Signature.{Bytes, equal_bytes}
use Prim.Native.String.{◌++◌ as concat}

-- `oauthState`; the expiry is in Unix seconds.
pub record OauthState : Type 0 where
  pub redirect : String
  pub expires : ℤ
  pub nonce : String
  pub binding : String

pub record OauthFlow : Type 0 where
  pub client_id : String
  pub client_secret : String
  pub callback_url : String
  pub state_key : Bytes
  pub authorize_url : String
  pub token_url : String

-- The scheme and the host of `url.Parse`.
pub record WebUrl : Type 0 where
  pub scheme : String
  pub host : String

pub record HttpRequest : Type 0 where
  pub method : String
  pub url : String
  pub headers : List (String × String)
  pub body : String

pub record HttpResponse : Type 0 where
  pub status : ℤ
  pub body : String

-- What the flow takes from Go's libraries: HMAC-SHA256 under a key, SHA-256, unpadded base64 for
-- URLs, JSON for the state, the query of a URL, `url.Parse`, `url.PathEscape`, and the JSON of the
-- exchange.
pub record Codec : Type 0 where
  pub mac : Bytes → Bytes → Bytes
  pub sha256 : String → Bytes
  pub encode_base64 : Bytes → String
  pub decode_base64 : String → Option Bytes
  pub encode_state : OauthState → Bytes
  pub decode_state : Bytes → Option OauthState
  pub encode_query : List (String × String) → String
  pub parse_url : String → Option WebUrl
  pub path_escape : String → String
  pub encode_fields : List (String × String) → String
  -- `access_token` of a body of up to 2^20 bytes.
  pub decode_token : String → Option String

unfoldable pub safe_redirect : String → Bool
unfolding has_prefix has_char
safe_redirect value =
    has_prefix value "/"
    && not (has_prefix value "//")
    && not (has_char 13 value || has_char 10 value)

-- `slug`
unfoldable pub is_slug : String → Bool
unfolding all_chars
is_slug value =
    not (str_eq value "" || str_eq value "." || str_eq value "..")
    && all_chars
        (λ n.
          (leb b'a' n && leb n b'z')
          || (leb b'A' n && leb n b'Z')
          || (leb b'0' n && leb n b'9')
          || n == b'-'
          || n == b'_'
          || n == b'.')
        value

module _ (codec : Codec) where
  unfoldable pub http_url : String → Bool
  http_url value = elim (codec.parse_url value) [
    | none ↦ false
    | some u ↦ (str_eq u.scheme "https" || str_eq u.scheme "http") && not (str_eq u.host "")
  ]

  unfoldable pub binding_hash : String → String
  binding_hash value = codec.encode_base64 (codec.sha256 value)

  unfoldable pub sign_state : Bytes → Bytes → String
  sign_state payload key =
      concat (codec.encode_base64 payload)
        (concat "." (codec.encode_base64 (codec.mac key payload)))

  -- The state that `Begin` signs: ten minutes from now.
  unfoldable pub new_state : ℤ → Bytes → String → String → OauthState
  new_state now nonce redirect binding = record {
    redirect = redirect;
    expires = now +ℤ pos 600;
    nonce = codec.encode_base64 nonce;
    binding = binding_hash binding;
  }

  abbrev pub invalid_begin : OauthFlow → String → String → Bool
  invalid_begin f redirect binding =
      str_eq f.client_id ""
      || not (http_url f.callback_url)
      || ltb (length f.state_key) 32
      || not (safe_redirect redirect)
      || ltb (len binding) 16

  abbrev pub or_url : String → String → String
  or_url url d = if str_eq url "" then d else url

  unfoldable pub authorize_link : OauthFlow → String → String
  authorize_link f state =
      concat (or_url f.authorize_url "https://github.com/login/oauth/authorize") (
        concat "?" (
          codec.encode_query (
            ("client_id", f.client_id)
            ∷ ("redirect_uri", f.callback_url)
            ∷ ("scope", "read:user repo")
            ∷ ("state", state)
            ∷ [])))

  -- `Begin`; `random` is what `rand.Read` makes of sixteen bytes, `now` the clock's Unix seconds.
  unfoldable pub begin : Result Bytes → ℤ → OauthFlow → String → String → Result String
  unfolding authorize_link
  begin random now f redirect binding = do
    refuse_if (invalid_begin f redirect binding)
        "OAuth client, callback, state key, and safe redirect are required"
    nonce ← random
    ok (
        authorize_link f
          (sign_state (codec.encode_state (new_state now nonce redirect binding)) f.state_key))

  abbrev pub invalid_state : Result String
  invalid_state = err "invalid OAuth state"

  -- The checks of a decoded payload.
  unfoldable pub check_state : ℤ → String → Option OauthState → Result String
  check_state now binding none = invalid_state
  check_state now binding (some value) =
      if str_eq value.nonce ""
        || not (safe_redirect value.redirect)
        || not (str_eq value.binding (binding_hash binding))
      then invalid_state
      else (if ltb_ℤ value.expires now then err "expired OAuth state" else ok value.redirect)

  unfoldable pub check_parts : OauthFlow → ℤ → String → List String → Result String
  check_parts f now binding (first ∷ second ∷ []) = elim (codec.decode_base64 first) [
    | none ↦ invalid_state
    | some payload ↦ elim (codec.decode_base64 second) [
      | none ↦ invalid_state
      | some got ↦
          if not (equal_bytes got (codec.mac f.state_key payload))
          then invalid_state
          else check_state now binding (codec.decode_state payload)
    ]
  ]
  check_parts f now binding other = invalid_state

  unfoldable pub validate_state : OauthFlow → ℤ → String → String → Result String
  unfolding check_parts split_on
  validate_state f now state binding = check_parts f now binding (split_on b'.' state)

  abbrev pub token_of : HttpResponse → Result String
  token_of response =
      let failed : Result String =
        err (concat "GitHub OAuth exchange failed: status " (show_ℤ response.status)) in
      if not (eqb_ℤ response.status (pos 200))
      then failed
      else (elim (codec.decode_token response.body) [
        | none ↦ failed
        | some token ↦ if str_eq token "" then failed else ok token
      ])

  -- `Exchange`; `send` is the HTTP client, with the building of the request.
  unfoldable pub exchange : (HttpRequest → Result HttpResponse) → OauthFlow → String → Result String
  exchange send f code = do
    refuse_if (str_eq f.client_id "" || str_eq f.client_secret "" || is_blank code)
        "OAuth code and client credentials are required"
    response ← send (record {
      method = "POST";
      url = or_url f.token_url "https://github.com/login/oauth/access_token";
      headers = ("Accept", "application/json") ∷ ("Content-Type", "application/json") ∷ [];
      body = codec.encode_fields (
          ("client_id", f.client_id)
          ∷ ("client_secret", f.client_secret)
          ∷ ("code", code)
          ∷ ("redirect_uri", f.callback_url)
          ∷ []);
    })
    token_of response

  abbrev pub access_of : HttpResponse → Result Bool
  access_of response =
      if eqb_ℤ response.status (pos 200)
      then ok true
      else (if eqb_ℤ response.status (pos 403) || eqb_ℤ response.status (pos 404)
          then ok false
          else err (concat "check GitHub repository access: status " (show_ℤ response.status)))

  -- `AccessAuthorizer.CanRead`, at the authorizer's base URL.
  unfoldable pub can_read :
      (HttpRequest → Result HttpResponse) → String → String → String → String → Result Bool
  unfolding is_slug trim_right
  can_read send base_url token owner repo = do
    refuse_if (str_eq token "" || not (is_slug owner) || not (is_slug repo))
        "OAuth token and valid repository are required"
    response ← send (record {
      method = "GET";
      url = concat (or_url (trim_right (λ n. n == b'/') base_url) "https://api.github.com") (
          concat "/repos/"
            (concat (codec.path_escape owner) (concat "/" (codec.path_escape repo))));
      headers =
          ("Authorization", concat "Bearer " token)
          ∷ ("Accept", "application/vnd.github+json")
          ∷ [];
      body = "";
    })
    access_of response
