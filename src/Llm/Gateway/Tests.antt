-- ===== src/Llm/Gateway/Tests.antt =====
-- A provider that fails once for a time, and a state that counts its calls.
use px.Prelude.{ℕ, zero, suc, ◌≡◌, refl, subst, arith, String, true, false, Option, none, some, ok}
use px.Prelude.Int.{ℤ, pos}
use px.Prelude.Float.{one_f}
use px.Llm.Request.{Request, Response, Price, no_usage}
use px.Llm.Gateway.{
  answered, failed, Provider, Cache, Gateway, Formats, attempts, response_error, store_response,
  check_response, after_lookup, run_call, record_call, complete, invalid_temperature,
}
use px.Llm.Gateway.Calls.{CountsCalls, IsCompleted, hit, complete-IsCompleted}

abbrev formats : Formats
formats = record { quote = λ s. s; sha256_hex = λ s. "key"; show_float = λ f. "0"; nul = "|" }

abbrev hello : Response
hello = record { text = "hello"; usage = no_usage; request_id = "1"; cached = false }

-- The first call fails, the others answer.
abbrev flaky : Provider ℕ
flaky request zero = (1, failed "busy" true)
flaky request (suc n) = (suc (suc n), answered hello)

abbrev empty_cache : Cache ℕ
empty_cache = record { get = λ key s. (s, ok none); put = λ key response ttl s. (s, some "full") }

abbrev free : Price
free = record {
  input_microusd_per_million = pos 0;
  output_microusd_per_million = pos 0;
  cache_read_microusd_per_million = pos 0;
}

abbrev gateway : Gateway ℕ
gateway = record {
  providers = λ name. some flaky;
  cache = some empty_cache;
  recorder = none;
  prices = λ name. free;
  cache_ttl = pos 0;
  max_retries = pos 0;
  sleep = λ d s. (s, none);
  now = λ s. pos 0;
}

abbrev request : Request
request = record {
  provider = "openai";
  model = "m";
  system = "";
  prompt = "p";
  max_output_tokens = pos 10;
  temperature = pos 0;
}

complete-twice : complete formats gateway request 0 ≡ (2, hello, none)
unfolding complete record_call run_call after_lookup check_response store_response response_error
    attempts one_f
complete-twice = refl

flaky_called : (request : Request) (s : ℕ) → (flaky request s).0 ≡ suc s
flaky_called r zero = refl
flaky_called r (suc n) = refl

abbrev SameAfterGet : String → ℕ → Option (Cache ℕ) → Type 0
SameAfterGet key s none = Unit
SameAfterGet key s (some cache) = (cache.get key s).0 ≡ s

abbrev SameAfterPut : String → Response → ℤ → ℕ → Option (Cache ℕ) → Type 0
SameAfterPut key response ttl s none = Unit
SameAfterPut key response ttl s (some cache) = (cache.put key response ttl s).0 ≡ s

get_same :
    (cache : Cache ℕ) (key : String) (s : ℕ)
    → some empty_cache ≡ some cache
    → (cache.get key s).0 ≡ s
get_same cache key s e = subst (SameAfterGet key s) e refl

put_same :
    (cache : Cache ℕ) (key : String) (response : Response) (ttl : ℤ) (s : ℕ)
    → some empty_cache ≡ some cache
    → (cache.put key response ttl s).0 ≡ s
put_same cache key response ttl s e = subst (SameAfterPut key response ttl s) e refl

gateway-CountsCalls : CountsCalls gateway flaky (λ s. s)
gateway-CountsCalls = record {
  called = λ request s. flaky_called request s;
  slept = λ d s. refl;
  looked_up = λ cache key s e. get_same cache key s e;
  stored = λ cache key response ttl s e. put_same cache key response ttl s e;
  recorded = λ recorder r s e. ground (arith, e);
}

request_warm : invalid_temperature request ≡ false
unfolding one_f
request_warm = refl

complete-IsCompleted_example :
    IsCompleted formats gateway flaky request
      (λ s. s)
      gateway-CountsCalls
      0
      (hit formats gateway request 0)
      (complete formats gateway request 0)
complete-IsCompleted_example =
    complete-IsCompleted formats gateway flaky request (λ s. s) gateway-CountsCalls 0 refl refl
      request_warm
