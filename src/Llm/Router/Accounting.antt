-- ===== src/Llm/Router/Accounting.antt =====
-- The tokens that src/acip/core/llm/router.py books for an investigation.
use agentic_cyber_investigat.Prelude.{
  Bool, true, false, ℕ, ◌+◌, ◌≡◌, refl, sym, ap, ◌∙◌, String, Option, none, some, List, [], ◌∷◌,
  ◌++◌, Bool-cases, inl, inr, arith, if◌then◌else◌, ◌==◌,
}
use agentic_cyber_investigat.Prelude.Result.{ok, err}
use agentic_cyber_investigat.Evidence.Contracts.{Platform}
use agentic_cyber_investigat.Evidence.Rows.{ModelExecution, Session}
use agentic_cyber_investigat.Llm.Contracts.{
  LlmResponse, quota_exceeded, rate_limited, unavailable, timeout, refused,
  schema_validation_failed, auth_error, no_available_provider, budget_exceeded, llm, other,
  ChatMessage,
}
use agentic_cyber_investigat.Llm.Policy.{CandidateModel, TaskRoutingRule, get_rule}
use agentic_cyber_investigat.Llm.Router.{Schema, Answer, Trace, ModelRouter, CompletionCall, Served}
use agentic_cyber_investigat.Llm.Router.Complete.{
  of_response, serve, tokens_used, trace_row, record_trace, with_trace, complete, over_budget,
  traced,
}
use agentic_cyber_investigat.Llm.Router.Fallback.{
  IsTrace, IsTraced, Decided, by_candidate, exhausted, serve_lem,
}

abbrev pub tokens_of : LlmResponse → ℕ
tokens_of response = response.usage.prompt_tokens + response.usage.completion_tokens

-- The tokens of the response that is returned.
abbrev pub answer_tokens : {A : Type 0} → Answer A → ℕ
answer_tokens (ok (parsed, response)) = tokens_of response
answer_tokens (err e) = 0

abbrev trace_tokens : Option Trace → ℕ
trace_tokens none = 0
trace_tokens (some trace) = of_response trace.response tokens_of 0

IsTrace-tokens :
    (c : CandidateModel) (from : Option String) (response : Option LlmResponse) (valid : Bool)
    (trace : Option Trace)
    → IsTrace c from response valid trace
    → trace_tokens trace ≡ of_response response tokens_of 0
IsTrace-tokens c from response valid trace h =
    ap trace_tokens h.traced ∙ ap (λ r. of_response r tokens_of 0) h.of_response

IsTraced-tokens :
    {A : Type 0} (c : CandidateModel) (from : Option String) (answer : Answer A)
    (trace : Option Trace)
    → IsTraced c from answer trace
    → trace_tokens trace ≡ answer_tokens answer
IsTraced-tokens c from (ok (parsed, response)) t h = IsTrace-tokens c from (some response) true t h
IsTraced-tokens c from (err (llm refused)) t h = IsTrace-tokens c from none true t h
IsTraced-tokens c from (err (llm auth_error)) t h = IsTrace-tokens c from none true t h
IsTraced-tokens c from (err (llm schema_validation_failed)) t h =
    IsTrace-tokens c from none false t h
IsTraced-tokens c from (err (llm quota_exceeded)) t h = ap trace_tokens h
IsTraced-tokens c from (err (llm rate_limited)) t h = ap trace_tokens h
IsTraced-tokens c from (err (llm unavailable)) t h = ap trace_tokens h
IsTraced-tokens c from (err (llm timeout)) t h = ap trace_tokens h
IsTraced-tokens c from (err (llm no_available_provider)) t h = ap trace_tokens h
IsTraced-tokens c from (err (llm budget_exceeded)) t h = ap trace_tokens h
IsTraced-tokens c from (err (other text)) t h = ap trace_tokens h

tokens_used-append :
    (i : ℕ) (es : List ModelExecution) (e : ModelExecution)
    → tokens_used i (es ++ e ∷ [])
      ≡ tokens_used i es + (if e.investigation_id == i then e.tokens_in + e.tokens_out else 0)
unfolding tokens_used
tokens_used-append i [] e = ground arith
tokens_used-append i (x ∷ es) e = ground (arith, tokens_used-append i es e)

response_tokens :
    (r : Option LlmResponse)
    → of_response r (λ x. x.usage.prompt_tokens) 0
        + of_response r (λ x. x.usage.completion_tokens) 0
      ≡ of_response r tokens_of 0
response_tokens none = refl
response_tokens (some r) = refl

module _ (env : Platform) (call : CompletionCall) (investigation : ℕ) (st : Session) (i : ℕ) where
  record_trace-tokens :
      (trace : Trace)
      → tokens_used i (record_trace env call investigation st trace).executions
        ≡ tokens_used i st.executions
          + (if investigation == i then of_response trace.response tokens_of 0 else 0)
  unfolding record_trace trace_row
  record_trace-tokens trace =
      tokens_used-append i st.executions (trace_row env call investigation st.drawn trace)
      ∙ ap (λ n. tokens_used i st.executions + (if investigation == i then n else 0))
          (response_tokens trace.response)

  with_trace-tokens :
      (trace : Option Trace)
      → tokens_used i (with_trace env call (some investigation) trace st).executions
        ≡ tokens_used i st.executions + (if investigation == i then trace_tokens trace else 0)
  with_trace-tokens none = ground arith
  with_trace-tokens (some trace) = record_trace-tokens trace

module _ {A S : Type 0} (router : ModelRouter S) (schema : Option (Schema A))
    (messages : List ChatMessage) (rule : TaskRoutingRule) where
  Decided-tokens :
      (cs : List CandidateModel) (from : Option String) (s : S) (served : Served A S)
      → Decided router schema messages rule cs from s served
      → trace_tokens served.trace ≡ answer_tokens served.answer
  Decided-tokens cs from s served
        (by_candidate c later from' s' p passed known decides answer world trace) =
      IsTraced-tokens c from' served.answer served.trace trace
  Decided-tokens cs from s served (exhausted from' s' passed answer world trace) =
      ap trace_tokens trace ∙ sym (ap answer_tokens answer)

-- A completion for an investigation adds to its booked tokens those of the response that it returns,
-- and none when it raises; the booked tokens of another investigation stay as they are.
pub complete_tokens :
    (env : Platform) {A S : Type 0} (router : ModelRouter S) (schema : Option (Schema A))
    (call : CompletionCall) (st : Session) (s : S) (investigation i : ℕ)
    → traced call ≡ some investigation
    → let done = complete env router schema call st s in
      tokens_used i done.1.executions
      ≡ tokens_used i st.executions + (if investigation == i then answer_tokens done.0 else 0)
unfolding complete
complete_tokens env router schema call st s investigation i own =
    let rule = get_rule router.policy call.task_class in
    let served = serve router schema call.messages rule rule.candidates none s in
    elim (Bool-cases (over_budget router.max_investigation_tokens (traced call) st)) [
      | inl e ↦ rw (e, complete) (ground arith)
      | inr e ↦
          rw (e, own, complete)
            (with_trace-tokens env call investigation st i served.trace
              ∙ ap (λ n. tokens_used i st.executions + (if investigation == i then n else 0))
                  (Decided-tokens router schema call.messages rule rule.candidates none s served
                    (serve_lem router schema call.messages rule rule.candidates none s)))
    ]
