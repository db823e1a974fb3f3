-- ===== src/Webhook/Handler.antt =====
-- internal/hosted/webhook/handler.go: the guards that a delivery passes on its way to the queue.
pub mod Accepted
mod Tests
use Prim.Native.String.{◌++◌ as concat}
use px.Prelude.{
  ℕ, ◌+◌, ◌*◌, ◌^◌, String, len, Bool, true, false, not, ◌&&◌, ◌||◌, Option, none, some, List, [],
  ◌∷◌, str_eq, ltb, if◌then◌else◌, Result, ok, err,
}
use px.Prelude.Int.{ℤ, pos, ltb_ℤ, leb_ℤ, add64}
use px.Prelude.Text.{trim_space}
use px.Prelude.Maps.{contains, string_eq}
use px.Webhook.Signature.{Crypto, valid_signature}

abbrev pub default_max_body_bytes : ℤ
default_max_body_bytes = pos (10 * 2 ^ 20)

abbrev pub default_events : List String
default_events =
    "check_run" ∷ "installation" ∷ "installation_repositories" ∷ "issue_comment" ∷ "pull_request"
    ∷ "pull_request_review_comment" ∷ "push" ∷ []

pub record Delivery : Type 0 where
  pub id : String
  pub event : String
  pub payload : String

-- `Accept` deduplicates and enqueues a delivery; it answers whether the delivery is new.
abbrev pub Acceptor {ℓ} : Type ℓ → Type ℓ
Acceptor S = Delivery → S → S × Result Bool

pub record Handler {ℓ} (S : Type ℓ) : Type ℓ where
  pub secret : String
  pub sink : Option (Acceptor S)
  pub allowed_events : Option (List String)
  pub max_body_bytes : ℤ

-- A request: `read_body n` reads at most n bytes of its body.
pub record HttpRequest : Type 0 where
  pub method : String
  pub header : String → String
  pub read_body : ℤ → Result String

pub record HttpResponse : Type 0 where
  pub status : ℕ
  pub body : String

-- `http.Error`, which ends the message with a new line.
abbrev http_error : String → ℕ → HttpResponse
http_error message status = record { status = status; body = concat message "\n" }

abbrev pub body_limit {ℓ} : {S : Type ℓ} → Handler S → ℤ
body_limit h = if leb_ℤ h.max_body_bytes (pos 0) then default_max_body_bytes else h.max_body_bytes

abbrev pub events_of {ℓ} : {S : Type ℓ} → Handler S → List String
events_of h = elim h.allowed_events [ none ↦ default_events | some events ↦ events ]

abbrev pub delivery_of : HttpRequest → String → Delivery
delivery_of r body = record {
  id = trim_space (r.header "X-GitHub-Delivery");
  event = trim_space (r.header "X-GitHub-Event");
  payload = body;
}

-- The guards on a body that was read, in the order of the code: the response of the first that refuses.
unfoldable pub refuse_delivery {ℓ} :
    {S : Type ℓ} → Crypto → (String → Bool) → Handler S → HttpRequest → String → Option HttpResponse
refuse_delivery crypto json_valid h r body =
    if ltb_ℤ (body_limit h) (pos (len body))
    then some (http_error "webhook body too large" 413)
    else (if not (valid_signature crypto h.secret body (r.header "X-Hub-Signature-256"))
        then some (http_error "invalid webhook signature" 401)
        else (if str_eq (delivery_of r body).id ""
              || ltb 200 (len (delivery_of r body).id)
              || str_eq (delivery_of r body).event ""
            then some (http_error "missing or invalid GitHub delivery metadata" 400)
            else (if not (contains (delivery_of r body).event (events_of h))
                then some (http_error "unsupported GitHub event" 400)
                else (if not (json_valid body)
                    then some (http_error "webhook body must be JSON" 400)
                    else none))))

-- What the queue answered.
unfoldable pub respond {ℓ} : {S : Type ℓ} → S × Result Bool → S × HttpResponse
respond (s, err e) = (s, http_error "enqueue webhook delivery" 503)
respond (s, ok false) = (s, record { status = 200; body = "duplicate\n" })
respond (s, ok true) = (s, record { status = 200; body = "accepted\n" })

unfoldable pub deliver {ℓ} :
    {S : Type ℓ}
    → Crypto
    → (String → Bool)
    → Handler S
    → Acceptor S
    → HttpRequest
    → Result String
    → S
    → S × HttpResponse
deliver crypto json_valid h sink r (err e) s = (s, http_error "read webhook body" 400)
deliver crypto json_valid h sink r (ok body) s = elim (refuse_delivery crypto json_valid h r body) [
  | some response ↦ (s, response)
  | none ↦ respond (sink (delivery_of r body) s)
]

-- `ServeHTTP`
unfoldable pub serve_http {ℓ} :
    {S : Type ℓ} → Crypto → (String → Bool) → Handler S → HttpRequest → S → S × HttpResponse
serve_http crypto json_valid h r s =
    if not (str_eq r.method "POST") then (s, http_error "method not allowed" 405) else elim h.sink [
      | none ↦ (s, http_error "webhook is not configured" 503)
      | some sink ↦
          if str_eq h.secret ""
          then (s, http_error "webhook is not configured" 503)
          else deliver crypto json_valid h sink r (r.read_body (add64 (body_limit h) (pos 1))) s
    ]
