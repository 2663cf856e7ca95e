-- ===== src/Queue/Errors/Categories.antt =====
-- Which exceptions get which category, independent of the order of the tests.
use think_tank.Prelude.{◌≡◌, sym, ◌∙◌, ◌↔◌, ◌⊎◌, true, arith}
use think_tank.Queue.Job.{ErrorCategory, rate_limited, llm_api_error, llm_timeout, llm_parse_error}
use think_tank.Queue.Errors.{ExcClass, Exc, categorize_external, categorize_error}

-- An exception of the Anthropic SDK or of pydantic.
abbrev pub IsLlm : Exc → Type 0
IsLlm e =
    (e.isinstance ExcClass.anthropic_rate_limit ≡ true)
    ⊎ (e.isinstance ExcClass.anthropic_connection ≡ true)
    ⊎ (e.isinstance ExcClass.anthropic_timeout ≡ true)
    ⊎ (e.isinstance ExcClass.anthropic_status ≡ true)
    ⊎ (e.isinstance ExcClass.pydantic_validation ≡ true)

abbrev pub IsLlmCategory : ErrorCategory → Type 0
IsLlmCategory c = (c ≡ llm_api_error) ⊎ (c ≡ llm_timeout) ⊎ (c ≡ llm_parse_error)

external_not_llm : (e : Exc) → ¬ IsLlmCategory (categorize_external e)
unfolding categorize_external
external_not_llm e h = ground arith

-- The LLM categories are given exactly to the exceptions of the Anthropic SDK and of pydantic,
-- whatever else these are instances of.
pub categorize_error-IsLlm : (e : Exc) → IsLlmCategory (categorize_error e) ↔ IsLlm e
unfolding categorize_error
categorize_error-IsLlm e = (λ h. ground (arith, external_not_llm e), λ h. ground arith)

-- An upstream's rate limit: the error of http_utils.py, or a plain 429 response.
abbrev pub IsRateLimit : Exc → Type 0
IsRateLimit e =
    (e.isinstance ExcClass.rate_limited_error ≡ true)
    ⊎ ((e.isinstance ExcClass.httpx_status ≡ true) × (e.status_code ≡ 429))

external_rate_limited : (e : Exc) → (categorize_external e ≡ rate_limited) ↔ IsRateLimit e
unfolding categorize_external
external_rate_limited e = (λ h. ground arith, λ h. ground arith)

IsLlm-not_rate_limited : (e : Exc) → categorize_error e ≡ rate_limited → ¬ IsLlm e
unfolding categorize_error
IsLlm-not_rate_limited e h l = ground arith

not_llm : (e : Exc) → ¬ IsLlm e → categorize_error e ≡ categorize_external e
unfolding categorize_error
not_llm e h = ground arith

-- RATE_LIMITED is given exactly to an upstream's rate limit that is no LLM exception.
pub categorize_error_rate_limited :
    (e : Exc) → (categorize_error e ≡ rate_limited) ↔ (IsRateLimit e × (¬ IsLlm e))
categorize_error_rate_limited e = (
  λ h.
      let l = IsLlm-not_rate_limited e h in
      ((external_rate_limited e).0 (sym (not_llm e l) ∙ h), l),
  λ h. not_llm e h.1 ∙ (external_rate_limited e).1 h.0,
)
