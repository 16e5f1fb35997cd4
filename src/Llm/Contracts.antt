-- ===== src/Llm/Contracts.antt =====
-- src/acip/core/llm/contracts.py and errors.py: messages, requests, responses and the errors of a
-- provider. A temperature is in thousandths, and a time limit is left to the provider.
use agentic_cyber_investigat.Prelude.{ℕ, Bool, true, false, String, Option, List}
use agentic_cyber_investigat.Types.{FinishReason}

pub data MessageRole : Type 0 where
  system user assistant tool : MessageRole

pub record ChatMessage : Type 0 where
  pub role : MessageRole
  pub content : String
  pub name : Option String

pub record LlmRequest : Type 0 where
  pub messages : List ChatMessage
  pub temperature : ℕ
  pub max_tokens : ℕ
  pub seed : Option ℕ
  pub json_object : Bool

pub record LlmUsage : Type 0 where
  pub prompt_tokens : ℕ
  pub completion_tokens : ℕ

pub record LlmResponse : Type 0 where
  pub content : String
  pub usage : LlmUsage
  pub finish_reason : FinishReason
  pub model : String
  pub provider : String
  pub latency_ms : ℕ

-- The subclasses of LLMError.
pub data LlmError : Type 0 where
  quota_exceeded rate_limited unavailable timeout : LlmError
  refused schema_validation_failed auth_error : LlmError
  no_available_provider budget_exceeded : LlmError

abbrev pub can_fallback : LlmError → Bool
can_fallback quota_exceeded = true
can_fallback rate_limited = true
can_fallback unavailable = true
can_fallback timeout = true
can_fallback _ = false

unfoldable pub status_code : LlmError → ℕ
status_code quota_exceeded = 429
status_code rate_limited = 429
status_code unavailable = 503
status_code timeout = 504
status_code refused = 400
status_code schema_validation_failed = 422
status_code auth_error = 401
status_code no_available_provider = 503
status_code budget_exceeded = 400

-- What a call may raise: one of these, or any other exception.
pub data Raised : Type 0 where
  llm : LlmError → Raised
  other : String → Raised
