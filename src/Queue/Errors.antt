-- ===== src/Queue/Errors.antt =====
-- queue/errors.py: the category of an exception.
pub mod Categories
use think_tank.Prelude.{
  ℕ, String, Bool, true, false, ◌||◌, ◌&&◌, Option, none, some, ◌==◌, if◌then◌else◌,
}
use think_tank.Queue.Job.{
  ErrorCategory, http_timeout, http_error, rate_limited, llm_api_error, llm_timeout,
  llm_parse_error, database_error, payload_invalid, unknown,
}

-- The classes that `categorize_error` tests for.
pub data ExcClass : Type 0 where
  anthropic_rate_limit anthropic_connection anthropic_timeout anthropic_status : ExcClass
  pydantic_validation rate_limited_error httpx_status sqlalchemy_error asyncpg_error : ExcClass
  timeout_error connection_error value_error key_error os_error : ExcClass

-- An exception: which of the classes it is an instance of (the class hierarchies are those of the
-- packages), the status of the response that an `httpx.HTTPStatusError` carries, the hint of a
-- `RateLimitedError`, and its text.
pub record Exc : Type 0 where
  pub isinstance : ExcClass → Bool
  pub status_code : ℕ
  pub retry_after_seconds : Option ℕ
  pub text : String

-- The generic exceptions, at the end of the chain.
unfoldable pub categorize_generic : Exc → ErrorCategory
categorize_generic e =
    if e.isinstance ExcClass.timeout_error
    then http_timeout
    else if e.isinstance ExcClass.connection_error
    then http_error
    else if e.isinstance ExcClass.value_error || e.isinstance ExcClass.key_error
    then payload_invalid
    else if e.isinstance ExcClass.os_error
    then http_error
    else unknown

unfoldable pub categorize_external : Exc → ErrorCategory
unfolding categorize_generic
categorize_external e =
    if e.isinstance ExcClass.rate_limited_error
    then rate_limited
    else if e.isinstance ExcClass.httpx_status
    then if e.status_code == 429 then rate_limited else http_error
    else if e.isinstance ExcClass.sqlalchemy_error
    then database_error
    else if e.isinstance ExcClass.asyncpg_error
    then database_error
    else categorize_generic e

unfoldable pub categorize_error : Exc → ErrorCategory
unfolding categorize_external
categorize_error e =
    if e.isinstance ExcClass.anthropic_rate_limit
    then llm_api_error
    else if e.isinstance ExcClass.anthropic_connection || e.isinstance ExcClass.anthropic_timeout
    then llm_timeout
    else if e.isinstance ExcClass.anthropic_status
    then llm_api_error
    else if e.isinstance ExcClass.pydantic_validation
    then llm_parse_error
    else categorize_external e
