-- ===== src/Llm/Router/Complete.antt =====
-- src/acip/core/llm/router.py: the loop over the candidates, the budget and the row of a call.
use agentic_cyber_investigat.Prelude.{
  ℕ, suc, ◌+◌, String, Bool, false, Option, none, some, List, [], ◌∷◌, ◌++◌, if◌then◌else◌, leb,
  ◌==◌,
}
use agentic_cyber_investigat.Prelude.Result.{err}
use agentic_cyber_investigat.Types.{task_class_value, FinishReason}
use agentic_cyber_investigat.Evidence.Contracts.{Platform}
use agentic_cyber_investigat.Evidence.Rows.{ModelExecution, Session}
use agentic_cyber_investigat.Llm.Contracts.{
  ChatMessage, LlmResponse, no_available_provider, budget_exceeded, llm,
}
use agentic_cyber_investigat.Llm.Policy.{CandidateModel, TaskRoutingRule, get_rule}
use agentic_cyber_investigat.Llm.Router.{
  Answer, CompletionCall, LlmProvider, ModelRouter, Schema, Served, Trace, execute_candidate, label,
  passes, trace_of,
}

module _ {A S : Type 0} (router : ModelRouter S) (schema : Option (Schema A))
    (messages : List ChatMessage) (rule : TaskRoutingRule) where
  abbrev pub run_candidate : LlmProvider S → CandidateModel → S → Answer A × S
  run_candidate provider c s =
      execute_candidate provider c rule.max_output_tokens schema rule.schema_retries messages s

  -- The loop over the candidates.
  unfoldable pub serve : List CandidateModel → Option String → S → Served A S
  serve [] from s = record { answer = err (llm no_available_provider); trace = none; world = s }
  serve (c ∷ cs) from s = elim (router.providers c.provider) [
    | none ↦ serve cs from s
    | some provider ↦
        let done = run_candidate provider c s in
        let next = serve cs (some (label c)) done.1 in
        if passes done.0
        then next
        else record { answer = done.0; trace = trace_of c from done.0; world = done.1 }
  ]

-- The sum of the tokens of an investigation's calls.
unfoldable pub tokens_used : ℕ → List ModelExecution → ℕ
tokens_used investigation [] = 0
tokens_used investigation (e ∷ es) =
    let rest = tokens_used investigation es in
    if e.investigation_id == investigation then e.tokens_in + e.tokens_out + rest else rest

-- `f(response) if response else default`
abbrev pub of_response : {B : Type 0} → Option LlmResponse → (LlmResponse → B) → B → B
of_response none f default = default
of_response (some response) f default = f response

-- `session and investigation_id`
abbrev pub traced : CompletionCall → Option ℕ
traced call = if call.has_session then call.investigation_id else none

abbrev pub over_budget : ℕ → Option ℕ → Session → Bool
over_budget limit none st = false
over_budget limit (some investigation) st = leb limit (tokens_used investigation st.executions)

module _ (env : Platform) where
  unfoldable pub trace_row : CompletionCall → ℕ → ℕ → Trace → ModelExecution
  trace_row call investigation drawn trace = record {
    id = env.uuid4 drawn;
    investigation_id = investigation;
    agent_run_id = call.agent_run_id;
    task_id = call.task_id;
    task_class = task_class_value call.task_class;
    provider = trace.candidate.provider;
    model = trace.candidate.model;
    prompt_name = call.prompt_name;
    prompt_version = call.prompt_version;
    tokens_in = of_response trace.response (λ r. r.usage.prompt_tokens) 0;
    tokens_out = of_response trace.response (λ r. r.usage.completion_tokens) 0;
    latency_ms = of_response trace.response (λ r. r.latency_ms) 0;
    cost_estimate_usd = 0;
    finish_reason = of_response trace.response (λ r. r.finish_reason) FinishReason.error;
    retries = 0;
    schema_valid = trace.schema_valid;
    fallback_from = trace.fallback_from;
    temperature = trace.candidate.temperature;
    seed = trace.candidate.seed;
    nondeterminism_risk = "low";
    grounding_violations = 0;
    created_at = env.utcnow drawn;
  }

  unfoldable pub record_trace : CompletionCall → ℕ → Session → Trace → Session
  unfolding trace_row
  record_trace call investigation st trace = record st {
    executions = st.executions ++ trace_row call investigation st.drawn trace ∷ [];
    drawn = suc st.drawn;
  }

  abbrev pub with_trace : CompletionCall → Option ℕ → Option Trace → Session → Session
  with_trace call none trace st = st
  with_trace call (some investigation) none st = st
  with_trace call (some investigation) (some trace) st = record_trace call investigation st trace

  unfoldable pub complete :
      {A S : Type 0}
      → ModelRouter S
      → Option (Schema A)
      → CompletionCall
      → Session
      → S
      → Answer A × Session × S
  complete router schema call st s =
      let rule = get_rule router.policy call.task_class in
      let served = serve router schema call.messages rule rule.candidates none s in
      if over_budget router.max_investigation_tokens (traced call) st
      then (err (llm budget_exceeded), st, s)
      else (served.answer, with_trace call (traced call) served.trace st, served.world)
