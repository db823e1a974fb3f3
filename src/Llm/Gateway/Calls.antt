-- ===== src/Llm/Gateway/Calls.antt =====
-- internal/hosted/llm/gateway.go: the calls and the outcome of Complete.
use Prim.Native.String.{◌++◌ as concat}
use px.Prelude.{
  ℕ, suc, ◌+◌, ◌≤◌, ◌<◌, ◌≡◌, refl, ◌∙◌, ◌⊎◌, inl, inr, String, true, false, Option, none, some,
  arith, Result, ok, err, Option-cases,
}
use px.Prelude.Int.{ℤ}
use px.Llm.Request.{Request, Response, CallRecord, no_response}
use px.Llm.Gateway.{
  Provider, Cache, Gateway, Formats, Completion, prompt_key, invalid_request, invalid_temperature,
  retries_of, ttl_of, attempts, response_error, store_response, check_response, ask_provider,
  after_lookup, run_call, record_of, record_call, complete,
}
use px.Llm.Gateway.Attempts.{attempts-IsCounted}

-- `calls` counts the calls of the provider: nothing else that the gateway uses adds to them.
pub record CountsCalls {ℓ} {S : Type ℓ} (g : Gateway S) (provider : Provider S) (calls : S → ℕ)
    : Type ℓ where
  pub called : (request : Request) (s : S) → calls (provider request s).0 ≡ suc (calls s)
  pub slept : (d : ℤ) (s : S) → calls (g.sleep d s).0 ≡ calls s
  pub looked_up :
      (cache : Cache S) (key : String) (s : S)
      → g.cache ≡ some cache
      → calls (cache.get key s).0 ≡ calls s
  pub stored :
      (cache : Cache S) (key : String) (response : Response) (ttl : ℤ) (s : S)
      → g.cache ≡ some cache
      → calls (cache.put key response ttl s).0 ≡ calls s
  pub recorded :
      (recorder : CallRecord → S → S) (r : CallRecord) (s : S)
      → g.recorder ≡ some recorder
      → calls (recorder r s) ≡ calls s

-- The cache holds a response on the key of the request.
abbrev pub hit {ℓ} : {S : Type ℓ} → Formats → Gateway S → Request → S → Option Response
hit formats g request s = elim g.cache [
  | none ↦ none
  | some cache ↦ elim (cache.get (prompt_key formats request) s).1 [
    | ok found ↦ found
    | err e ↦ none
  ]
]

module _ {ℓ} {S : Type ℓ} (formats : Formats) (g : Gateway S) (provider : Provider S)
    (request : Request) (calls : S → ℕ) (laws : CountsCalls g provider calls) where
  -- After the provider was asked: between one call and one more than the retries, and a response that
  -- passed the checks, or an error and no response.
  record IsAsked (before : ℕ) (c : Completion S) : Type ℓ where
    some_call : before < calls c.state
    few_calls : calls c.state ≤ suc (before + retries_of g)
    outcome :
        ((c.error ≡ none) × (response_error c.response ≡ none))
        ⊎ ((e : String) × (c.error ≡ some e) × (c.response ≡ no_response))

  store_response-IsAsked :
      (before : ℕ) (cache_err : String) (made : ℕ) (response : Response) (s : S)
      → before < calls s
      → calls s ≤ suc (before + retries_of g)
      → response_error response ≡ none
      → IsAsked before (store_response formats g provider request cache_err made response s)
  unfolding store_response
  store_response-IsAsked before cache_err made response s low high fine =
      elim (Option-cases g.cache) [
        | inl e ↦ rw e (record { some_call = low; few_calls = high; outcome = inl (refl, fine) })
        | inr (cache, e) ↦
            let same = laws.stored cache (prompt_key formats request) response (ttl_of g) s e in
            rw e (record {
              some_call = ground (arith, same);
              few_calls = ground (arith, same);
              outcome = inl (refl, fine);
            })
      ]

  check_response-IsAsked :
      (before : ℕ) (cache_err : String) (s : S) (made : ℕ) (r : Result Response)
      → before < calls s
      → calls s ≤ suc (before + retries_of g)
      → IsAsked before (check_response formats g provider request cache_err (s, made, r))
  unfolding check_response
  check_response-IsAsked before cache_err s made (err e) low high = record {
    some_call = low;
    few_calls = high;
    outcome = inr (e, refl, refl);
  }
  check_response-IsAsked before cache_err s made (ok response) low high =
      elim (Option-cases (response_error response)) [
        | inl fine ↦
            rw (check_response, fine)
              (store_response-IsAsked before cache_err made response s low high fine)
        | inr (e, bad) ↦
            rw (check_response, bad)
              (record { some_call = low; few_calls = high; outcome = inr (e, refl, refl) })
      ]

  ask_provider-IsAsked :
      (cache_err : String) (s : S)
      → IsAsked (calls s) (ask_provider formats g provider request cache_err s)
  ask_provider-IsAsked cache_err s =
      let out = attempts g provider request (retries_of g) 0 s in
      let (counted, made, few) =
        attempts-IsCounted g provider request calls (laws.called request) laws.slept (retries_of g)
          0 s in
      check_response-IsAsked (calls s) cache_err out.0 out.1 out.2 (omega arith) (omega arith)

  -- What the call does from the state `s`, given what the cache holds: a hit is served without a call.
  pub record IsCompleted (s : S) (held : Option Response) (out : S × Response × Option String)
      : Type ℓ where
    pub served :
        (response : Response)
        → held ≡ some response
        → (calls out.0 ≡ calls s) × (out.1 ≡ record response { cached = true }) × (out.2 ≡ none)
    pub asked :
        held ≡ none
        → (calls s < calls out.0)
          × (calls out.0 ≤ suc (calls s + retries_of g))
          × (((out.2 ≡ none) × (response_error out.1 ≡ none))
              ⊎ ((e : String) × (out.2 ≡ some e) × (out.1 ≡ no_response)))

  asked-IsCompleted :
      (s t : S) (c : Completion S)
      → calls t ≡ calls s
      → IsAsked (calls t) c
      → IsCompleted s none (c.state, c.response, c.error)
  asked-IsCompleted s t c same i = record {
    served = λ response h. ground arith;
    asked = λ h.
        let low = i.some_call in let high = i.few_calls in (omega arith, omega arith, i.outcome);
  }

  after_lookup-IsCompleted :
      (s t : S) (r : Result (Option Response))
      → calls t ≡ calls s
      → (let c = after_lookup formats g provider request (t, r) in
          IsCompleted s (elim r [ ok found ↦ found | err e ↦ none ]) (c.state, c.response, c.error))
  unfolding after_lookup
  after_lookup-IsCompleted s t (ok (some response)) same = record {
    served = λ held h. ground (arith, same);
    asked = λ h. ground arith;
  }
  after_lookup-IsCompleted s t (ok none) same =
      asked-IsCompleted s t (ask_provider formats g provider request "" t) same
        (ask_provider-IsAsked "" t)
  after_lookup-IsCompleted s t (err e) same =
      let message = concat "read LLM prompt cache: " e in
      asked-IsCompleted s t (ask_provider formats g provider request message t) same
        (ask_provider-IsAsked message t)

  moved-IsCompleted :
      (s : S) (held held' : Option Response) (c c' : Completion S)
      → held ≡ held'
      → c ≡ c'
      → IsCompleted s held' (c'.state, c'.response, c'.error)
      → IsCompleted s held (c.state, c.response, c.error)
  moved-IsCompleted s held held' c c' p q i = rw (p, q) i

  uncached :
      (s : S)
      → g.cache ≡ none
      → (hit formats g request s ≡ none)
        × (run_call formats g provider request s ≡ ask_provider formats g provider request "" s)
  unfolding run_call
  uncached s e = ground (arith, e)

  cached_by :
      (cache : Cache S) (s : S)
      → g.cache ≡ some cache
      → (hit formats g request s
          ≡ elim (cache.get (prompt_key formats request) s).1 [ ok found ↦ found | err e ↦ none ])
        × (run_call formats g provider request s
            ≡ after_lookup formats g provider request (cache.get (prompt_key formats request) s))
  unfolding run_call
  cached_by cache s e = ground (arith, e)

  run_call-IsCompleted :
      (s : S)
      → (let c = run_call formats g provider request s in
          IsCompleted s (hit formats g request s) (c.state, c.response, c.error))
  run_call-IsCompleted s = elim (Option-cases g.cache) [
    | inl e ↦
        let (no_hit, runs) = uncached s e in
        moved-IsCompleted s (hit formats g request s) none (run_call formats g provider request s)
          (ask_provider formats g provider request "" s) no_hit runs
          (asked-IsCompleted s s (ask_provider formats g provider request "" s) refl
            (ask_provider-IsAsked "" s))
    | inr (cache, e) ↦
        let (held, runs) = cached_by cache s e in
        let found = cache.get (prompt_key formats request) s in
        moved-IsCompleted s (hit formats g request s)
          (elim found.1 [ ok found ↦ found | err e ↦ none ]) (run_call formats g provider request s)
          (after_lookup formats g provider request found) held runs
          (after_lookup-IsCompleted s found.0 found.1
            (laws.looked_up cache (prompt_key formats request) s e))
  ]

  record_call-calls :
      (started : ℤ) (c : Completion S)
      → (calls (record_call formats g provider request started c).0 ≡ calls c.state)
        × ((record_call formats g provider request started c).1 ≡ c.response)
        × ((record_call formats g provider request started c).2 ≡ c.error)
  unfolding record_call
  record_call-calls started c = elim (Option-cases g.recorder) [
    | inl e ↦ rw e (refl, refl, refl)
    | inr (recorder, e) ↦ rw e (
      laws.recorded recorder (record_of formats g provider request started c) c.state e,
      refl,
      refl,
    )
  ]

  recorded-IsCompleted :
      (started : ℤ) (s : S) (held : Option Response) (c : Completion S)
      → IsCompleted s held (c.state, c.response, c.error)
      → IsCompleted s held (record_call formats g provider request started c)
  recorded-IsCompleted started s held c i =
      let (same, response, error) = record_call-calls started c in
      record {
        served =
            λ answer h. let (a, b, d) = i.served answer h in (same ∙ a, response ∙ b, error ∙ d);
        asked = λ h.
            let (low, high, outcome) = i.asked h in
            (rw same low, rw same high, rw (response, error) outcome);
      }

  complete-run_call :
      (s : S)
      → g.providers request.provider ≡ some provider
      → invalid_request request ≡ false
      → invalid_temperature request ≡ false
      → complete formats g request s
        ≡ record_call formats g provider request (g.now s) (run_call formats g provider request s)
  unfolding complete
  complete-run_call s known valid warm = ground (arith, known, valid, warm)

  -- Where nothing but the provider adds to the count of its calls, Complete serves a request that the
  -- cache holds without any call, and marks the response as cached; any other request that is valid it
  -- sends at least once and at most once more than the retries, and it returns either no error and a
  -- response with a text and no negative usage, or an error and the empty response.
  pub complete-IsCompleted :
      (s : S)
      → g.providers request.provider ≡ some provider
      → invalid_request request ≡ false
      → invalid_temperature request ≡ false
      → IsCompleted s (hit formats g request s) (complete formats g request s)
  complete-IsCompleted s known valid warm = rw (complete-run_call s known valid warm) (
      recorded-IsCompleted (g.now s) s (hit formats g request s)
        (run_call formats g provider request s) (run_call-IsCompleted s))
