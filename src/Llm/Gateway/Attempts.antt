-- ===== src/Llm/Gateway/Attempts.antt =====
-- internal/hosted/llm/gateway.go: the loop of attempts, and a count of the calls.
use px.Prelude.{
  ℕ, zero, suc, ◌+◌, ◌≤◌, ◌<◌, ◌≡◌, refl, ◌⊎◌, inl, inr, String, Bool, true, false, none, arith,
  Result, Option-cases,
}
use px.Prelude.Int.{ℤ}
use px.Llm.Request.{Request, Response}
use px.Llm.Gateway.{Answer, answered, failed, Provider, Gateway, backoff, attempts}

Answer-cases :
    (a : Answer)
    → ((r : Response) × (a ≡ answered r)) ⊎ ((e : String) × (t : Bool) × (a ≡ failed e t))
Answer-cases (answered r) = inl (r, refl)
Answer-cases (failed e t) = inr (e, t, refl)

module _ {ℓ} {S : Type ℓ} (g : Gateway S) (provider : Provider S) (request : Request)
    (calls : S → ℕ) (called : (s : S) → calls (provider request s).0 ≡ suc (calls s))
    (slept : (d : ℤ) (s : S) → calls (g.sleep d s).0 ≡ calls s) where
  -- The attempts made after `attempt` of them, with `left` retries to go.
  abbrev pub IsCounted : ℕ → ℕ → S → S × ℕ × Result Response → Type 0
  IsCounted left attempt s out =
      (calls out.0 + attempt ≡ calls s + out.1) × (attempt < out.1) × (out.1 ≤ suc (attempt + left))

  attempts_step :
      (left attempt : ℕ) (s : S) (x : String)
      → (provider request s).1 ≡ failed x true
      → (g.sleep (backoff attempt) (provider request s).0).1 ≡ none
      → attempts g provider request (suc left) attempt s
        ≡ attempts g provider request left
            (suc attempt)
            (g.sleep (backoff attempt) (provider request s).0).0
  unfolding attempts
  attempts_step left attempt s x e n = ground (arith, e, n)

  pub attempts-IsCounted :
      (left attempt : ℕ) (s : S)
      → IsCounted left attempt s (attempts g provider request left attempt s)
  unfolding attempts
  attempts-IsCounted zero attempt s = elim (Answer-cases (provider request s).1) [
    | inl (r, e) ↦ ground (arith, e, called s)
    | inr (x, t, e) ↦ ground (arith, e, called s)
  ]
  attempts-IsCounted (suc left) attempt s = elim (Answer-cases (provider request s).1) [
    | inl (r, e) ↦ ground (arith, e, called s)
    | inr (x, false, e) ↦ ground (arith, e, called s)
    | inr (x, true, e) ↦ elim (Option-cases (g.sleep (backoff attempt) (provider request s).0).1) [
      | inl n ↦ rw (attempts_step left attempt s x e n) (
          let again = (g.sleep (backoff attempt) (provider request s).0).0 in
          let (counted, more, bounded) = attempts-IsCounted left (suc attempt) again in
          (
            ground (arith, called s, slept (backoff attempt) (provider request s).0),
            ground arith,
            ground arith,
          ))
      | inr (w, n) ↦ ground (arith, e, n, called s, slept (backoff attempt) (provider request s).0)
    ]
  ]
