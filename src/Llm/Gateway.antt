-- ===== src/Llm/Gateway.antt =====
-- internal/hosted/llm/gateway.go: Complete, with its cache, its retries and its record of the call.
pub mod Attempts
pub mod Calls
mod Tests
use Prim.Native.String.{◌++◌ as concat}
use px.Prelude.{
  ℕ, zero, suc, ◌+◌, ◌*◌, ◌-◌, ◌^◌, String, Bool, true, false, not, ◌&&◌, ◌||◌, Option, none, some,
  List, [], ◌∷◌, str_eq, if◌then◌else◌, Result, ok, err,
}
use px.Prelude.Int.{ℤ, pos, ltb_ℤ, leb_ℤ, pos_part, wrap64, mul64, sub64}
use px.Prelude.Float.{Float, zero_f, one_f, ltb_f}
use px.Prelude.Text.{show_ℤ, join}
use px.Llm.Request.{Request, Usage, Response, Price, CallRecord, no_usage, no_response, cost}

-- What a provider answers: a response, or an error that may be temporary.
pub data Answer : Type 0 where
  answered : Response → Answer
  failed : String → Bool → Answer

abbrev pub Provider {ℓ} : Type ℓ → Type ℓ
Provider S = Request → S → S × Answer

-- A cache: `get` finds a response or not, `put` stores one for a time.
pub record Cache {ℓ} (S : Type ℓ) : Type ℓ where
  pub get : String → S → S × Result (Option Response)
  pub put : String → Response → ℤ → S → S × Option String

-- The gateway: `providers` and `prices` are its maps, `now` reads the clock, and `sleep` waits.
pub record Gateway {ℓ} (S : Type ℓ) : Type ℓ where
  pub providers : String → Option (Provider S)
  pub cache : Option (Cache S)
  pub recorder : Option (CallRecord → S → S)
  pub prices : String → Price
  pub cache_ttl : ℤ
  pub max_retries : ℤ
  pub sleep : ℤ → S → S × Option String
  pub now : S → ℤ

-- What Go's library does with texts here: quoting, the hexadecimal SHA-256, `%g`, and the NUL text.
pub record Formats : Type 0 where
  pub quote : String → String
  pub sha256_hex : String → String
  pub show_float : Float → String
  pub nul : String

unfoldable pub prompt_key : Formats → Request → String
prompt_key formats request = formats.sha256_hex (
    join formats.nul (
      request.provider
      ∷ request.model
      ∷ request.system
      ∷ request.prompt
      ∷ show_ℤ request.max_output_tokens
      ∷ formats.show_float request.temperature
      ∷ []))

abbrev pub invalid_request : Request → Bool
invalid_request request =
    str_eq request.model "" || str_eq request.prompt "" || leb_ℤ request.max_output_tokens (pos 0)

-- The temperature is below 0 or above 2.
abbrev pub invalid_temperature : Request → Bool
invalid_temperature request =
    ltb_f request.temperature zero_f || ltb_f (pos (pos_part one_f * 2)) request.temperature

abbrev pub retries_of {ℓ} : {S : Type ℓ} → Gateway S → ℕ
retries_of g = if leb_ℤ g.max_retries (pos 0) then 2 else pos_part g.max_retries

abbrev pub ttl_of {ℓ} : {S : Type ℓ} → Gateway S → ℤ
ttl_of g = if leb_ℤ g.cache_ttl (pos 0) then pos (15 * 60 * 10 ^ 9) else g.cache_ttl

abbrev pub negative_usage : Usage → Bool
negative_usage usage =
    ltb_ℤ usage.input_tokens (pos 0)
    || ltb_ℤ usage.output_tokens (pos 0)
    || ltb_ℤ usage.cache_read_tokens (pos 0)

-- The wait before another attempt: `time.Duration(1<<attempt) * time.Second`.
abbrev pub backoff : ℕ → ℤ
backoff attempt = mul64 (wrap64 (pos (2 ^ attempt))) (pos (10 ^ 9))

module _ {ℓ} {S : Type ℓ} (g : Gateway S) (provider : Provider S) (request : Request) where
  -- The loop of attempts, with `left` retries to go: its last state, the attempts made, and the answer.
  unfoldable pub attempts : ℕ → ℕ → S → S × ℕ × Result Response
  attempts zero attempt s = elim (provider request s).1 [
    | answered response ↦ ((provider request s).0, suc attempt, ok response)
    | failed e temporary ↦ ((provider request s).0, suc attempt, err e)
  ]
  attempts (suc left) attempt s = elim (provider request s).1 [
    | answered response ↦ ((provider request s).0, suc attempt, ok response)
    | failed e temporary ↦ elim temporary [
      | false ↦ ((provider request s).0, suc attempt, err e)
      | true ↦ elim (g.sleep (backoff attempt) (provider request s).0).1 [
        | some woken ↦
            ((g.sleep (backoff attempt) (provider request s).0).0, suc attempt, err woken)
        | none ↦ attempts left (suc attempt) (g.sleep (backoff attempt) (provider request s).0).0
      ]
    ]
  ]

-- What Complete has when it returns: the state, the cache error, the attempts, the named results.
pub record Completion {ℓ} (S : Type ℓ) : Type ℓ where
  pub state : S
  pub cache_err : String
  pub attempts : ℕ
  pub response : Response
  pub error : Option String

-- The error that the checks of a response find.
unfoldable pub response_error : Response → Option String
response_error response =
    if str_eq response.text ""
    then some "LLM provider returned an empty response"
    else (if negative_usage response.usage
        then some "LLM provider returned invalid token usage"
        else none)

module _ {ℓ} {S : Type ℓ} (formats : Formats) (g : Gateway S) (provider : Provider S)
    (request : Request) where
  -- A checked response is put in the cache; an error of the cache is recorded only.
  unfoldable pub store_response : String → ℕ → Response → S → Completion S
  store_response cache_err made response s = elim g.cache [
    | none ↦ record {
      state = s;
      cache_err = cache_err;
      attempts = made;
      response = response;
      error = none;
    }
    | some cache ↦
        let put = cache.put (prompt_key formats request) response (ttl_of g) s in
        record {
          state = put.0;
          cache_err = elim put.1 [
            | none ↦ cache_err
            | some e ↦ concat "write LLM prompt cache: " e
          ];
          attempts = made;
          response = response;
          error = none;
        }
  ]

  unfoldable pub check_response : String → S × ℕ × Result Response → Completion S
  check_response cache_err (s, made, err e) = record {
    state = s;
    cache_err = cache_err;
    attempts = made;
    response = no_response;
    error = some e;
  }
  check_response cache_err (s, made, ok response) = elim (response_error response) [
    | none ↦ store_response cache_err made response s
    | some e ↦ record {
      state = s;
      cache_err = cache_err;
      attempts = made;
      response = no_response;
      error = some e;
    }
  ]

  abbrev pub ask_provider : String → S → Completion S
  ask_provider cache_err s =
      check_response cache_err (attempts g provider request (retries_of g) 0 s)

  -- What the cache answered: a hit ends the call.
  unfoldable pub after_lookup : S × Result (Option Response) → Completion S
  after_lookup (s, ok (some response)) = record {
    state = s;
    cache_err = "";
    attempts = 0;
    response = record response { cached = true };
    error = none;
  }
  after_lookup (s, ok none) = ask_provider "" s
  after_lookup (s, err e) = ask_provider (concat "read LLM prompt cache: " e) s

  unfoldable pub run_call : S → Completion S
  run_call s = elim g.cache [
    | none ↦ ask_provider "" s
    | some cache ↦ after_lookup (cache.get (prompt_key formats request) s)
  ]

  abbrev pub record_of : ℤ → Completion S → CallRecord
  record_of started c = record {
    provider = request.provider;
    model = request.model;
    duration = sub64 (g.now c.state) started;
    attempts = c.attempts;
    usage = c.response.usage;
    cost_microusd =
        if c.response.cached
        then pos 0
        else cost (g.prices (concat request.provider (concat "/" request.model))) c.response.usage;
    cached = c.response.cached;
    cache_err = c.cache_err;
    err = elim c.error [ none ↦ "" | some e ↦ e ];
  }

  -- The deferred function: it records the call, whatever its result.
  unfoldable pub record_call : ℤ → Completion S → S × Response × Option String
  record_call started c = elim g.recorder [
    | none ↦ (c.state, c.response, c.error)
    | some recorder ↦ (recorder (record_of started c) c.state, c.response, c.error)
  ]

-- `Complete`
unfoldable pub complete {ℓ} :
    {S : Type ℓ} → Formats → Gateway S → Request → S → S × Response × Option String
complete formats g request s = elim (g.providers request.provider) [
  | none ↦ (s, no_response, some (concat "unknown LLM provider " (formats.quote request.provider)))
  | some provider ↦
      if invalid_request request
      then (s, no_response, some "LLM model, prompt, and positive output-token limit are required")
      else (if invalid_temperature request
          then (s, no_response, some "LLM temperature must be between 0 and 2")
          else record_call formats g provider request (g.now s)
              (run_call formats g provider request s))
]
