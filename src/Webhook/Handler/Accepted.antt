-- ===== src/Webhook/Handler/Accepted.antt =====
-- internal/hosted/webhook/handler.go: the guards of ServeHTTP against a description of a request.
use px.Prelude.{
  ◌≡◌, ◌≤◌, refl, subst, ◌⊎◌, inl, inr, String, len, Bool, true, false, none, some, arith, str_eq,
  Result, ok, err, Option-cases, Bool-cases,
}
use px.Prelude.Int.{pos, ◌≤ℤ◌, add64}
use px.Prelude.Maps.{contains, string_eq}
use px.Webhook.Signature.{Crypto, valid_signature}
use px.Webhook.Handler.{
  Acceptor, Handler, HttpRequest, HttpResponse, body_limit, events_of, delivery_of, refuse_delivery,
  respond, deliver, serve_http,
}

-- The request is a signed POST with a JSON body within the limit, an ID and an event that is allowed.
pub record IsAuthentic {ℓ} {S : Type ℓ} (crypto : Crypto) (json_valid : String → Bool)
    (h : Handler S) (r : HttpRequest) (body : String) : Type 0 where
  pub method : str_eq r.method "POST" ≡ true
  pub secret : str_eq h.secret "" ≡ false
  pub read : r.read_body (add64 (body_limit h) (pos 1)) ≡ ok body
  pub small : pos (len body) ≤ℤ body_limit h
  pub signed : valid_signature crypto h.secret body (r.header "X-Hub-Signature-256") ≡ true
  pub named : (str_eq (delivery_of r body).id "" ≡ false) × (len (delivery_of r body).id ≤ 200)
  pub event : str_eq (delivery_of r body).event "" ≡ false
  pub allowed : contains (delivery_of r body).event (events_of h) ≡ true
  pub json : json_valid body ≡ true

-- The answer of the queue gives the status: 200 for a delivery it has taken or has already, else 503.
abbrev pub Answers : Result Bool → HttpResponse → Type 0
Answers (ok true) response = (response.status ≡ 200) × (response.body ≡ "accepted\n")
Answers (ok false) response = (response.status ≡ 200) × (response.body ≡ "duplicate\n")
Answers (err e) response = response.status ≡ 503

-- The request was refused before the queue, with a status of an error.
abbrev pub Refused {ℓ} : {S : Type ℓ} → S → S × HttpResponse → Type ℓ
Refused s out = (out.0 ≡ s) × (400 ≤ out.1.status)

respond_lem {ℓ} :
    {S : Type ℓ} (out : S × Result Bool) → ((respond out).0 ≡ out.0) × Answers out.1 (respond out).1
unfolding respond
respond_lem (s, err e) = (refl, refl)
respond_lem (s, ok false) = (refl, (refl, refl))
respond_lem (s, ok true) = (refl, (refl, refl))

module _ {ℓ} {S : Type ℓ} (crypto : Crypto) (json_valid : String → Bool) (h : Handler S)
    (sink : Acceptor S) (r : HttpRequest) where
  -- The request reached the queue, once, or was refused.
  abbrev pub IsServed : S → S × HttpResponse → Type ℓ
  IsServed s out =
      ((body : String) × IsAuthentic crypto json_valid h r body
        × (out.0 ≡ (sink (delivery_of r body) s).0)
        × Answers (sink (delivery_of r body) s).1 out.1)
      ⊎ (Refused s out × ((body : String) → ¬ IsAuthentic crypto json_valid h r body))

  refuse_delivery-status :
      (body : String) (response : HttpResponse)
      → refuse_delivery crypto json_valid h r body ≡ some response
      → (400 ≤ response.status) × (¬ IsAuthentic crypto json_valid h r body)
  unfolding refuse_delivery
  refuse_delivery-status body response e = (ground arith, λ a. ground arith)

  refuse_delivery-none :
      (body : String)
      → refuse_delivery crypto json_valid h r body ≡ none
      → str_eq r.method "POST" ≡ true
      → str_eq h.secret "" ≡ false
      → r.read_body (add64 (body_limit h) (pos 1)) ≡ ok body
      → IsAuthentic crypto json_valid h r body
  unfolding refuse_delivery
  refuse_delivery-none body e method secret read = record {
    method = method;
    secret = secret;
    read = read;
    small = ground arith;
    signed = ground arith;
    named = (ground arith, ground arith);
    event = ground arith;
    allowed = ground arith;
    json = ground arith;
  }

  deliver-IsServed :
      (s : S) (r' : Result String)
      → str_eq r.method "POST" ≡ true
      → str_eq h.secret "" ≡ false
      → r.read_body (add64 (body_limit h) (pos 1)) ≡ r'
      → IsServed s (deliver crypto json_valid h sink r r' s)
  unfolding deliver
  deliver-IsServed s (err e) method secret read =
      inr ((refl, omega arith), λ body a. ground (arith, a.read))
  deliver-IsServed s (ok body) method secret read =
      elim (Option-cases (refuse_delivery crypto json_valid h r body)) [
        | inl e ↦
            let (state, answer) = respond_lem (sink (delivery_of r body) s) in
            rw (deliver, e)
              (inl (body, refuse_delivery-none body e method secret read, state, answer))
        | inr (response, e) ↦
            let (status, never) = refuse_delivery-status body response e in
            rw (deliver, e)
              (inr (
                (refl, status),
                λ other a.
                    never (subst (IsAuthentic crypto json_valid h r) (ground (arith, a.read)) a),
              ))
      ]

  serve_http-deliver :
      (s : S)
      → h.sink ≡ some sink
      → str_eq h.secret "" ≡ false
      → str_eq r.method "POST" ≡ true
      → serve_http crypto json_valid h r s
        ≡ deliver crypto json_valid h sink r (r.read_body (add64 (body_limit h) (pos 1))) s
  unfolding serve_http
  serve_http-deliver s given secret post = ground (arith, given)

  -- A configured handler hands a request to the queue exactly where it is a POST with a body that can be
  -- read, is within the limit, carries its signature under the secret, names a delivery of at most 200
  -- bytes and an allowed event, and is JSON; it answers 200 for a delivery that the queue has taken or
  -- has already, and 503 where the queue fails. Any other request leaves the queue alone and gets a
  -- status from 400 up.
  pub serve_http-IsServed :
      (s : S)
      → h.sink ≡ some sink
      → str_eq h.secret "" ≡ false
      → IsServed s (serve_http crypto json_valid h r s)
  unfolding serve_http
  serve_http-IsServed s given secret = elim (Bool-cases (str_eq r.method "POST")) [
    | inl post ↦
        rw (serve_http-deliver s given secret post)
          (deliver-IsServed s (r.read_body (add64 (body_limit h) (pos 1))) post secret refl)
    | inr other ↦
        rw (serve_http, other) (inr ((refl, omega arith), λ body a. ground (arith, a.method)))
  ]
