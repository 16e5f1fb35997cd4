-- ===== src/Llm/Router/Calls.antt =====
-- What the calls of src/acip/core/llm/router.py return and how many there are.
use Prim.Native.Nat.{◌*◌}
use agentic_cyber_investigat.Prelude.{
  ℕ, zero, suc, ◌+◌, ◌≤◌, ◌≡◌, refl, String, true, false, Option, none, some, List, [], ◌∷◌, length,
  Bool-cases, Option-cases, ◌⊎◌, inl, inr, arith,
}
use agentic_cyber_investigat.Prelude.Result.{Result, ok, err, Result-cases}
use agentic_cyber_investigat.Evidence.Contracts.{Platform}
use agentic_cyber_investigat.Evidence.Rows.{Session}
use agentic_cyber_investigat.Llm.Contracts.{ChatMessage, LlmRequest, LlmResponse, Raised}
use agentic_cyber_investigat.Llm.Policy.{CandidateModel, TaskRoutingRule, get_rule}
use agentic_cyber_investigat.Llm.Router.{
  LlmProvider, Schema, strip_fences, with_instruction, request_of, repair, Answer, done, again,
  judge, ask, attempts, execute_candidate, passes, label, ModelRouter, CompletionCall,
}
use agentic_cyber_investigat.Llm.Router.Complete.{
  run_candidate, serve, complete, over_budget, traced,
}

-- The parsed object is what the schema's validation makes of the answer's text.
abbrev pub Fits : {A : Type 0} → Option (Schema A) → Answer A → Type 0
Fits schema (err e) = Unit
Fits none (ok (parsed, response)) = parsed ≡ none
Fits {A} (some schema) (ok (parsed, response)) =
    (a : A) × (parsed ≡ some a) × (schema.validate (strip_fences response.content) ≡ ok a)

judge_cases :
    {A : Type 0} (schema : Schema A) (answer : Result Raised LlmResponse)
    → ((result : Answer A) × (judge schema answer ≡ done result) × Fits (some schema) result)
      ⊎ ((content : String) × (problem : String) × (judge schema answer ≡ again content problem))
judge_cases schema (err e) = inl (err e, refl, tt)
judge_cases {A} schema (ok response) =
    validated (schema.validate (strip_fences response.content)) refl
  where
    validated :
        (r : Result String A)
        → schema.validate (strip_fences response.content) ≡ r
        → ((result : Answer A) × (judge schema (ok response) ≡ done result)
            × Fits (some schema) result)
          ⊎ ((content : String) × (problem : String) × (judge schema (ok response)
                ≡ again content problem))
    validated (ok a) e = inl (ok (some a, response), rw e refl, (a, refl, e))
    validated (err problem) e = inr (response.content, problem, rw e refl)

module _ {S : Type 0} (provider : LlmProvider S) (candidate : CandidateModel) (max_tokens : ℕ) where
  attempts-Fits :
      {A : Type 0} (schema : Schema A) (retries : ℕ) (messages : List ChatMessage) (s : S)
      → Fits (some schema) (attempts provider candidate max_tokens schema retries messages s).0
  unfolding attempts
  attempts-Fits schema zero messages s =
      elim (judge_cases schema (ask provider candidate max_tokens true messages s).0) [
        | inl (result, e, fits) ↦ rw (e, attempts) fits
        | inr (content, problem, e) ↦ rw (e, attempts) tt
      ]
  attempts-Fits schema (suc retries) messages s =
      let asked = ask provider candidate max_tokens true messages s in
      elim (judge_cases schema asked.0) [
        | inl (result, e, fits) ↦ rw (e, attempts) fits
        | inr (content, problem, e) ↦
            rw (e, attempts)
              (attempts-Fits schema retries (repair messages content problem) asked.1)
      ]

  execute_candidate-Fits :
      {A : Type 0} (schema : Option (Schema A)) (retries : ℕ) (messages : List ChatMessage) (s : S)
      → Fits schema (execute_candidate provider candidate max_tokens schema retries messages s).0
  unfolding execute_candidate
  execute_candidate-Fits none retries messages s =
      elim (Result-cases (ask provider candidate max_tokens false messages s).0) [
        | inl (e, p) ↦ rw (p, execute_candidate) tt
        | inr (response, p) ↦ rw (p, execute_candidate) refl
      ]
  execute_candidate-Fits (some schema) retries messages s =
      attempts-Fits schema retries (with_instruction schema.instruction messages) s

  -- A provider that counts its calls.
  module _ (count : S → ℕ)
      (counted : (request : LlmRequest) (model : String) (s : S)
        → count (provider request model s).1 ≤ count s + 1) where
    attempts-count :
        {A : Type 0} (schema : Schema A) (retries : ℕ) (messages : List ChatMessage) (s : S)
        → count (attempts provider candidate max_tokens schema retries messages s).1
          ≤ count s + retries + 1
    unfolding attempts
    attempts-count schema zero messages s =
        let once = counted (request_of candidate max_tokens true messages) candidate.model s in
        elim (judge_cases schema (ask provider candidate max_tokens true messages s).0) [
          | inl (result, e, fits) ↦ rw (e, attempts) (omega arith)
          | inr (content, problem, e) ↦ rw (e, attempts) (omega arith)
        ]
    attempts-count schema (suc retries) messages s =
        let asked = ask provider candidate max_tokens true messages s in
        let once = counted (request_of candidate max_tokens true messages) candidate.model s in
        elim (judge_cases schema asked.0) [
          | inl (result, e, fits) ↦ rw (e, attempts) (omega arith)
          | inr (content, problem, e) ↦
              rw (e, attempts)
                (omega
                  (arith, attempts-count schema retries (repair messages content problem) asked.1))
        ]

    execute_candidate-count :
        {A : Type 0} (schema : Option (Schema A)) (retries : ℕ) (messages : List ChatMessage)
        (s : S)
        → count (execute_candidate provider candidate max_tokens schema retries messages s).1
          ≤ count s + retries + 1
    unfolding execute_candidate
    execute_candidate-count none retries messages s =
        let once = counted (request_of candidate max_tokens false messages) candidate.model s in
        elim (Result-cases (ask provider candidate max_tokens false messages s).0) [
          | inl (e, p) ↦ rw (p, execute_candidate) (omega arith)
          | inr (response, p) ↦ rw (p, execute_candidate) (omega arith)
        ]
    execute_candidate-count (some schema) retries messages s =
        attempts-count schema retries (with_instruction schema.instruction messages) s

module _ {A S : Type 0} (router : ModelRouter S) (schema : Option (Schema A))
    (messages : List ChatMessage) (rule : TaskRoutingRule) where
  serve-Fits :
      (cs : List CandidateModel) (from : Option String) (s : S)
      → Fits schema (serve router schema messages rule cs from s).answer
  unfolding serve
  serve-Fits [] from s = tt
  serve-Fits (c ∷ cs) from s = elim (Option-cases (router.providers c.provider)) [
    | inl e ↦ rw (e, serve) (serve-Fits cs from s)
    | inr (p, e) ↦
        let run = run_candidate router schema messages rule p c s in
        elim (Bool-cases (passes run.0)) [
          | inl fails ↦ rw (e, fails, serve) (serve-Fits cs (some (label c)) run.1)
          | inr decides ↦
              rw (e, decides, serve)
                (execute_candidate-Fits p c rule.max_output_tokens schema rule.schema_retries
                  messages s)
        ]
  ]

  serve-count :
      (count : S → ℕ)
      → ((name : String) (provider : LlmProvider S)
          → router.providers name ≡ some provider
          → (request : LlmRequest) (model : String) (s : S)
          → count (provider request model s).1 ≤ count s + 1)
      → (cs : List CandidateModel) (from : Option String) (s : S)
      → count (serve router schema messages rule cs from s).world
        ≤ count s + length cs * (rule.schema_retries + 1)
  unfolding serve
  serve-count count counted [] from s = omega arith
  serve-count count counted (c ∷ cs) from s = elim (Option-cases (router.providers c.provider)) [
    | inl e ↦ rw (e, serve) (grind (arith, serve-count count counted cs from s))
    | inr (p, e) ↦
        let run = run_candidate router schema messages rule p c s in
        let once =
          execute_candidate-count p c rule.max_output_tokens count (counted c.provider p e) schema
            rule.schema_retries messages s in
        elim (Bool-cases (passes run.0)) [
          | inl fails ↦
              rw (e, fails, serve)
                (grind (arith, serve-count count counted cs (some (label c)) run.1))
          | inr decides ↦ rw (e, decides, serve) (grind arith)
        ]
  ]

module _ (env : Platform) {A S : Type 0} (router : ModelRouter S) (schema : Option (Schema A))
    (call : CompletionCall) (st : Session) (s : S) where
  -- An object that is returned for a schema is the one that the schema's validation reads in the text of
  -- the response that is returned with it; without a schema no object is returned.
  pub complete-Fits : Fits schema (complete env router schema call st s).0
  unfolding complete
  complete-Fits =
      let rule = get_rule router.policy call.task_class in
      elim (Bool-cases (over_budget router.max_investigation_tokens (traced call) st)) [
        | inl e ↦ rw (e, complete) tt
        | inr e ↦
            rw (e, complete) (serve-Fits router schema call.messages rule rule.candidates none s)
      ]

  -- A completion asks at most once for each candidate and each retry, and one more time for each
  -- candidate, for any count of calls that a call of a provider raises by at most one.
  pub complete_calls :
      (count : S → ℕ)
      → ((name : String) (provider : LlmProvider S)
          → router.providers name ≡ some provider
          → (request : LlmRequest) (model : String) (s : S)
          → count (provider request model s).1 ≤ count s + 1)
      → let rule = get_rule router.policy call.task_class in
        count (complete env router schema call st s).2
        ≤ count s + length rule.candidates * (rule.schema_retries + 1)
  unfolding complete
  complete_calls count counted =
      let rule = get_rule router.policy call.task_class in
      elim (Bool-cases (over_budget router.max_investigation_tokens (traced call) st)) [
        | inl e ↦ rw (e, complete) (omega arith)
        | inr e ↦
            rw (e, complete)
              (serve-count router schema call.messages rule count counted rule.candidates none s)
      ]
