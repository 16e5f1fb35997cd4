-- ===== src/Llm/Router.antt =====
-- src/acip/core/llm/router.py: the calls of one candidate, with the repair of answers that do not fit the
-- schema, and the trace of a call; Complete has the fallback over candidates. `S` is the state of the world that the providers are in:
-- a provider takes it and returns it. A schema is the text that asks for it and its validation.
pub mod Complete
pub mod Fallback
pub mod Calls
pub mod Accounting
use Prim.Native.String.{◌++◌ as ◌+++◌}
use text.Mathlib.Text.{◌==◌ as str_eq}
use agentic_cyber_investigat.Prelude.{
  ℕ, zero, suc, ◌+◌, String, Bool, true, false, ◌&&◌, ◌||◌, Option, none, some, is_some, List, [],
  ◌∷◌, ◌++◌, any, if◌then◌else◌, leb, ◌==◌,
}
use agentic_cyber_investigat.Prelude.Result.{Result, ok, err}
use agentic_cyber_investigat.Prelude.Text.{strip, after_prefix, before_suffix, has_text}
use agentic_cyber_investigat.Types.{TaskClass, task_class_value, FinishReason}
use agentic_cyber_investigat.Evidence.Contracts.{Platform}
use agentic_cyber_investigat.Evidence.Rows.{ModelExecution, Session}
use agentic_cyber_investigat.Llm.Contracts.{
  MessageRole, ChatMessage, LlmRequest, LlmResponse, LlmError, can_fallback, refused,
  schema_validation_failed, auth_error, no_available_provider, budget_exceeded, Raised, llm, other,
}
use agentic_cyber_investigat.Llm.Policy.{CandidateModel, TaskRoutingRule, RoutingPolicy, get_rule}

abbrev pub LlmProvider : Type 0 → Type 0
LlmProvider S = LlmRequest → String → S → Result Raised LlmResponse × S

pub record Schema (A : Type 0) : Type 0 where
  pub instruction : String
  pub validate : String → Result String A

-- The answer without a code fence around it.
unfoldable pub strip_fences : String → String
unfolding strip after_prefix before_suffix
strip_fences content =
    let without : String → String → String =
      λ fence text. elim (after_prefix fence text) [ some rest ↦ strip rest | none ↦ text ] in
    let text = without "```" (without "```json" (strip content)) in
    elim (before_suffix "```" text) [ some rest ↦ strip rest | none ↦ text ]

abbrev message : MessageRole → String → ChatMessage
message role content = record { role = role; content = content; name = none }

-- The messages with the schema's instruction in the system message, if no message has it.
unfoldable pub with_instruction : String → List ChatMessage → List ChatMessage
unfolding has_text
with_instruction instruction messages =
    let fresh =
      message MessageRole.system ("You are a specialized security AI assistant." +++ instruction) in
    let added : List ChatMessage → List ChatMessage = λ ms. elim ms [
      | [] ↦ fresh ∷ []
      | m ∷ rest ↦ elim m.role [
        | MessageRole.system ↦ record m { content = m.content +++ instruction } ∷ rest
        | _ ↦ fresh ∷ m ∷ rest
      ]
    ] in
    if any (λ m. has_text instruction m.content) messages then messages else added messages

abbrev pub Answer : Type 0 → Type 0
Answer A = Result Raised (Option A × LlmResponse)

-- The prompt that asks for a repaired answer.
abbrev pub repair : List ChatMessage → String → String → List ChatMessage
repair messages content problem =
    messages
    ++ (message MessageRole.assistant content
        ∷ message MessageRole.user (
            "The previous response failed schema validation with error:\n" +++ problem
            +++ "\nPlease return ONLY valid JSON matching the exact schema.")
        ∷ [])

abbrev pub request_of : CandidateModel → ℕ → Bool → List ChatMessage → LlmRequest
request_of candidate max_tokens json messages = record {
  messages = messages;
  temperature = candidate.temperature;
  max_tokens = if candidate.max_tokens == 0 then max_tokens else candidate.max_tokens;
  seed = candidate.seed;
  json_object = json;
}

-- What a round of the repair loop comes to: an end, or an answer that does not fit and the problem.
pub data Round (A : Type 0) : Type 0 where
  done : Answer A → Round A
  again : String → String → Round A

abbrev verdict : {A : Type 0} → LlmResponse → Result String A → Round A
verdict response (ok a) = done (ok (some a, response))
verdict response (err problem) = again response.content problem

abbrev pub judge : {A : Type 0} → Schema A → Result Raised LlmResponse → Round A
judge schema (err e) = done (err e)
judge schema (ok response) = verdict response (schema.validate (strip_fences response.content))

module _ {S : Type 0} (provider : LlmProvider S) (candidate : CandidateModel) (max_tokens : ℕ) where
  abbrev pub ask : Bool → List ChatMessage → S → Result Raised LlmResponse × S
  ask json messages s = provider (request_of candidate max_tokens json messages) candidate.model s

  -- The loop of `_execute_candidate` with a schema, by the retries that remain.
  unfoldable pub attempts : {A : Type 0} → Schema A → ℕ → List ChatMessage → S → Answer A × S
  attempts schema zero messages s =
      let (answer, s') = ask true messages s in
      elim (judge schema answer) [
        | done result ↦ (result, s')
        | again content problem ↦ (err (llm schema_validation_failed), s')
      ]
  attempts schema (suc retries) messages s =
      let (answer, s') = ask true messages s in
      elim (judge schema answer) [
        | done result ↦ (result, s')
        | again content problem ↦ attempts schema retries (repair messages content problem) s'
      ]

  unfoldable pub execute_candidate :
      {A : Type 0} → Option (Schema A) → ℕ → List ChatMessage → S → Answer A × S
  execute_candidate none retries messages s =
      let (answer, s') = ask false messages s in
      elim answer [ err e ↦ (err e, s') | ok response ↦ (ok (none, response), s') ]
  execute_candidate (some schema) retries messages s =
      attempts schema retries (with_instruction schema.instruction messages) s

-- What `_record_trace` is called with.
pub record Trace : Type 0 where
  pub candidate : CandidateModel
  pub response : Option LlmResponse
  pub schema_valid : Bool
  pub fallback_from : Option String

-- Whether the handlers go on with the next candidate.
abbrev pub passes : {A : Type 0} → Answer A → Bool
passes (ok answer) = false
passes (err (llm e)) = can_fallback e
passes (err (other text)) = false

-- The trace of an answer that ends the loop: of one that is returned, and of the errors of the first
-- handler.
abbrev pub trace_of : {A : Type 0} → CandidateModel → Option String → Answer A → Option Trace
trace_of c from (ok (parsed, response)) =
    some (record {
      candidate = c;
      response = some response;
      schema_valid = true;
      fallback_from = from;
    })
trace_of c from (err (llm auth_error)) =
    some (record { candidate = c; response = none; schema_valid = true; fallback_from = from })
trace_of c from (err (llm refused)) =
    some (record { candidate = c; response = none; schema_valid = true; fallback_from = from })
trace_of c from (err (llm schema_validation_failed)) =
    some (record { candidate = c; response = none; schema_valid = false; fallback_from = from })
trace_of c from (err _) = none

pub record Served (A S : Type 0) : Type 0 where
  pub answer : Answer A
  pub trace : Option Trace
  pub world : S

abbrev pub label : CandidateModel → String
label c = c.provider +++ ":" +++ c.model

pub record ModelRouter (S : Type 0) : Type 0 where
  pub providers : String → Option (LlmProvider S)
  pub policy : RoutingPolicy
  pub max_investigation_tokens : ℕ

pub record CompletionCall : Type 0 where
  pub task_class : TaskClass
  pub messages : List ChatMessage
  pub has_session : Bool
  pub investigation_id : Option ℕ
  pub agent_run_id : Option ℕ
  pub task_id : Option String
  pub prompt_name : String
  pub prompt_version : String
