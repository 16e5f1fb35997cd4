-- ===== src/Llm/Examples.antt =====
-- The router of src/acip/core/llm at concrete inputs, with the provider of replay.py.
use text.Mathlib.Text.{◌==◌ as str_eq}
use agentic_cyber_investigat.Prelude.{
  ◌+◌, ◌*◌, ◌≤◌, ◌≡◌, refl, subst, String, Bool, true, false, none, some, [], ◌∷◌, length,
  if◌then◌else◌, ◌==◌,
}
use agentic_cyber_investigat.Prelude.Result.{ok, err}
use agentic_cyber_investigat.Types.{TaskClass}
use agentic_cyber_investigat.Evidence.Contracts.{Platform}
use agentic_cyber_investigat.Evidence.Rows.{Session}
use agentic_cyber_investigat.Llm.Contracts.{MessageRole, LlmRequest, rate_limited}
use agentic_cyber_investigat.Llm.Policy.{get_rule, create_default}
use agentic_cyber_investigat.Llm.Router.{
  LlmProvider, Schema, ModelRouter, CompletionCall, execute_candidate, attempts, strip_fences,
  with_instruction,
}
use agentic_cyber_investigat.Llm.Router.Complete.{record_trace, serve, tokens_used, complete}
use agentic_cyber_investigat.Llm.Router.Fallback.{Decided, serve_lem}
use agentic_cyber_investigat.Llm.Router.Calls.{Fits, complete-Fits, complete_calls}
use agentic_cyber_investigat.Llm.Router.Accounting.{answer_tokens, complete_tokens}
use agentic_cyber_investigat.Llm.Replay.{Replay, replay, replay-call_history}

abbrev env : Platform
env = record {
  lower = λ s. s;
  ip_address = λ s. none;
  digest = λ c. 0;
  uuid4 = λ n. n;
  utcnow = λ n. n;
}

-- An answer fits if it is the text "yes".
abbrev schema : Schema String
schema = record {
  instruction = "Answer yes.";
  validate = λ text. if str_eq text "yes" then ok text else err "not yes";
}

-- The first call is refused for its rate, the first answer does not fit, the repaired one does.
abbrev world : Replay
world = record { simulated_errors = rate_limited ∷ []; call_history = [] }

abbrev provider : LlmProvider Replay
provider = replay "replay" "no" (("failed schema validation", "```json yes```") ∷ [])

abbrev router : ModelRouter Replay
router = record {
  providers = λ name. if str_eq name "replay" then some provider else none;
  policy = create_default "replay" "large" "small" "tiny";
  max_investigation_tokens = 1000;
}

abbrev call : CompletionCall
call = record {
  task_class = TaskClass.correlation;
  messages = record { role = MessageRole.user; content = "Is it?"; name = none } ∷ [];
  has_session = true;
  investigation_id = some 7;
  agent_run_id = none;
  task_id = none;
  prompt_name = "p";
  prompt_version = "1";
}

abbrev rows : Session
rows = record {
  evidence = [];
  findings = [];
  finding_evidence = [];
  hypotheses = [];
  hypothesis_evidence = [];
  gaps = [];
  executions = [];
  drawn = 0;
}

-- Three calls are made, and the tokens of one are booked.
three_calls : length (complete env router (some schema) call rows world).2.call_history ≡ 3
unfolding complete serve create_default replay execute_candidate attempts tokens_used strip_fences
    with_instruction record_trace
three_calls = refl

one_booked : tokens_used 7 (complete env router (some schema) call rows world).1.executions ≡ 20
unfolding complete serve create_default replay execute_candidate attempts tokens_used strip_fences
    with_instruction record_trace
one_booked = refl

serve_lem_example :
    let rule = get_rule router.policy TaskClass.correlation in
    Decided router
      (some schema)
      call.messages
      rule
      rule.candidates
      none
      world
      (serve router (some schema) call.messages rule rule.candidates none world)
serve_lem_example =
    let rule = get_rule router.policy TaskClass.correlation in
    serve_lem router (some schema) call.messages rule rule.candidates none world

complete-Fits_example : Fits (some schema) (complete env router (some schema) call rows world).0
complete-Fits_example = complete-Fits env router (some schema) call rows world

-- The replay provider counts its calls.
replay_counts :
    (name : String) (p : LlmProvider Replay)
    → router.providers name ≡ some p
    → (request : LlmRequest) (model : String) (s : Replay)
    → length (p request model s).1.call_history ≤ length s.call_history + 1
replay_counts name p known request model s = counted (str_eq name "replay") known
  where
    counted :
        (b : Bool)
        → (if b then some provider else none) ≡ some p
        → length (p request model s).1.call_history ≤ length s.call_history + 1
    counted true e =
        subst
          (λ o. elim o [
            | some q ↦ length (q request model s).1.call_history ≤ length s.call_history + 1
            | none ↦ Unit
          ])
          e
          (replay-call_history "replay" "no" (("failed schema validation", "```json yes```") ∷ [])
            request model s)
    counted false e = cc

complete_calls_example :
    let rule = get_rule router.policy TaskClass.correlation in
    length (complete env router (some schema) call rows world).2.call_history
    ≤ 0 + length rule.candidates * (rule.schema_retries + 1)
complete_calls_example =
    complete_calls env router (some schema) call rows world (λ s. length s.call_history)
      replay_counts

complete_tokens_example :
    let done = complete env router (some schema) call rows world in
    tokens_used 7 done.1.executions ≡ 0 + (if 7 == 7 then answer_tokens done.0 else 0)
unfolding tokens_used
complete_tokens_example = complete_tokens env router (some schema) call rows world 7 7 refl
