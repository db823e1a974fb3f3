-- ===== src/Webhook/Handler/Tests.antt =====
-- A queue that is the list of its deliveries, and one signed push.
use px.Prelude.{
  ℕ, zero, suc, ◌≡◌, refl, String, Bool, true, none, some, List, [], ◌∷◌, ok, str_eq, if◌then◌else◌,
}
use px.Prelude.Int.{pos}
use px.Prelude.Text.{has_prefix, trim_prefix, trim_space, trim_left, trim_right, is_space}
use px.Prelude.Maps.{contains, string_eq}
use px.Webhook.Signature.{Bytes, Crypto, equal_bytes, valid_signature}
use px.Webhook.Handler.{
  Delivery, Acceptor, Handler, HttpRequest, refuse_delivery, respond, deliver, serve_http,
}
use px.Webhook.Handler.Accepted.{IsServed, serve_http-IsServed}

abbrev repeat : ℕ → Bytes
repeat zero = []
repeat (suc n) = 7 ∷ repeat n

abbrev toy : Crypto
toy = record {
  mac = λ secret body. repeat 32;
  decode_hex = λ s. some (repeat 32);
  encode_hex = λ bs. "77";
}

abbrev enqueue : Acceptor (List Delivery)
enqueue d queue = (d ∷ queue, ok true)

abbrev handler : Handler (List Delivery)
handler = record {
  secret = "s";
  sink = some enqueue;
  allowed_events = none;
  max_body_bytes = pos 0;
}

abbrev headers : String → String
headers name =
    if str_eq name "X-GitHub-Delivery"
    then " d1 "
    else (if str_eq name "X-GitHub-Event" then "push" else "sha256=77")

abbrev push : HttpRequest
push = record { method = "POST"; header = headers; read_body = λ n. ok "{}" }

abbrev is_json : String → Bool
is_json s = str_eq s "{}"

push_accepted : serve_http toy is_json handler push [] ≡ (
  record { id = "d1"; event = "push"; payload = "{}" } ∷ [],
  record { status = 200; body = "accepted\n" },
)
unfolding serve_http deliver refuse_delivery respond valid_signature equal_bytes has_prefix
    trim_prefix trim_space trim_left trim_right is_space contains
push_accepted = refl

serve_http-IsServed_example :
    IsServed toy is_json handler enqueue push [] (serve_http toy is_json handler push [])
serve_http-IsServed_example = serve_http-IsServed toy is_json handler enqueue push [] refl refl
