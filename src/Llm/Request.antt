-- ===== src/Llm/Request.antt =====
-- internal/hosted/llm/gateway.go: requests, responses, and what a call costs.
use px.Prelude.{ℕ, suc, ◌/◌, ◌^◌, String, Bool, false}
use px.Prelude.Int.{ℤ, pos, negsuc, neg, add64, mul64}
use px.Prelude.Float.{Float}

pub record Request : Type 0 where
  pub provider : String
  pub model : String
  pub system : String
  pub prompt : String
  pub max_output_tokens : ℤ
  pub temperature : Float

pub record Usage : Type 0 where
  pub input_tokens : ℤ
  pub output_tokens : ℤ
  pub cache_read_tokens : ℤ

pub record Response : Type 0 where
  pub text : String
  pub usage : Usage
  pub request_id : String
  pub cached : Bool

pub record Price : Type 0 where
  pub input_microusd_per_million : ℤ
  pub output_microusd_per_million : ℤ
  pub cache_read_microusd_per_million : ℤ

pub record CallRecord : Type 0 where
  pub provider : String
  pub model : String
  pub duration : ℤ
  pub attempts : ℕ
  pub usage : Usage
  pub cost_microusd : ℤ
  pub cached : Bool
  pub cache_err : String
  pub err : String

abbrev pub no_usage : Usage
no_usage = record { input_tokens = pos 0; output_tokens = pos 0; cache_read_tokens = pos 0 }

abbrev pub no_response : Response
no_response = record { text = ""; usage = no_usage; request_id = ""; cached = false }

-- Division of integers, toward zero.
abbrev per_million : ℤ → ℤ
per_million (pos n) = pos (n / 10 ^ 6)
per_million (negsuc n) = neg (pos (suc n / 10 ^ 6))

-- `cost`
unfoldable pub cost : Price → Usage → ℤ
cost price usage = per_million (
    add64
      (add64 (mul64 usage.input_tokens price.input_microusd_per_million)
        (mul64 usage.output_tokens price.output_microusd_per_million))
      (mul64 usage.cache_read_tokens price.cache_read_microusd_per_million))
