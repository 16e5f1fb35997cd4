-- ===== src/Llm/Router/Fallback.antt =====
-- Which candidate's answer src/acip/core/llm/router.py returns, and what it traces.
use agentic_cyber_investigat.Prelude.{
  ◌≡◌, refl, sym, ◌∙◌, Bool, String, true, false, Option, none, some, List, [], ◌∷◌, Bool-cases,
  Option-cases, inl, inr,
}
use agentic_cyber_investigat.Prelude.Result.{ok, err}
use agentic_cyber_investigat.Llm.Contracts.{
  ChatMessage, LlmResponse, llm, other, quota_exceeded, rate_limited, unavailable, timeout, refused,
  schema_validation_failed, auth_error, no_available_provider, budget_exceeded,
}
use agentic_cyber_investigat.Llm.Policy.{CandidateModel, TaskRoutingRule}
use agentic_cyber_investigat.Llm.Router.{
  Answer, Trace, LlmProvider, Schema, passes, trace_of, Served, label, ModelRouter,
}
use agentic_cyber_investigat.Llm.Router.Complete.{run_candidate, serve}

-- The table of the errors after which another provider is tried.
abbrev pub falls_back : {A : Type 0} → Answer A → Bool
falls_back (ok answer) = false
falls_back (err (other text)) = false
falls_back (err (llm quota_exceeded)) = true
falls_back (err (llm rate_limited)) = true
falls_back (err (llm unavailable)) = true
falls_back (err (llm timeout)) = true
falls_back (err (llm refused)) = false
falls_back (err (llm schema_validation_failed)) = false
falls_back (err (llm auth_error)) = false
falls_back (err (llm no_available_provider)) = false
falls_back (err (llm budget_exceeded)) = false

passes-falls_back : {A : Type 0} (answer : Answer A) → passes answer ≡ falls_back answer
passes-falls_back (ok answer) = refl
passes-falls_back (err (other text)) = refl
passes-falls_back (err (llm quota_exceeded)) = refl
passes-falls_back (err (llm rate_limited)) = refl
passes-falls_back (err (llm unavailable)) = refl
passes-falls_back (err (llm timeout)) = refl
passes-falls_back (err (llm refused)) = refl
passes-falls_back (err (llm schema_validation_failed)) = refl
passes-falls_back (err (llm auth_error)) = refl
passes-falls_back (err (llm no_available_provider)) = refl
passes-falls_back (err (llm budget_exceeded)) = refl

-- What is traced of an answer: the response of one that is returned, no response of a refusal, of a failed
-- authentication and of a schema that was not met, and only the last as one that was not met.
pub record IsTrace (c : CandidateModel) (from : Option String) (response : Option LlmResponse)
    (valid : Bool) (trace : Option Trace) : Type 0 where
  pub told : Trace
  pub traced : trace ≡ some told
  pub of_candidate : told.candidate ≡ c
  pub of_response : told.response ≡ response
  pub of_schema : told.schema_valid ≡ valid
  pub after_failed_one : told.fallback_from ≡ from

abbrev pub IsTraced :
    {A : Type 0} → CandidateModel → Option String → Answer A → Option Trace → Type 0
IsTraced c from (ok (parsed, response)) t = IsTrace c from (some response) true t
IsTraced c from (err (llm refused)) t = IsTrace c from none true t
IsTraced c from (err (llm auth_error)) t = IsTrace c from none true t
IsTraced c from (err (llm schema_validation_failed)) t = IsTrace c from none false t
IsTraced c from (err (llm quota_exceeded)) t = t ≡ none
IsTraced c from (err (llm rate_limited)) t = t ≡ none
IsTraced c from (err (llm unavailable)) t = t ≡ none
IsTraced c from (err (llm timeout)) t = t ≡ none
IsTraced c from (err (llm no_available_provider)) t = t ≡ none
IsTraced c from (err (llm budget_exceeded)) t = t ≡ none
IsTraced c from (err (other text)) t = t ≡ none

a-IsTrace :
    (c : CandidateModel) (from : Option String) (response : Option LlmResponse) (valid : Bool)
    → IsTrace c from response valid (
        some (record {
          candidate = c;
          response = response;
          schema_valid = valid;
          fallback_from = from;
        }))
a-IsTrace c from response valid = record {
  told = _;
  traced = refl;
  of_candidate = refl;
  of_response = refl;
  of_schema = refl;
  after_failed_one = refl;
}

trace_of-IsTraced :
    {A : Type 0} (c : CandidateModel) (from : Option String) (answer : Answer A)
    → IsTraced c from answer (trace_of c from answer)
trace_of-IsTraced c from (ok (parsed, response)) = a-IsTrace c from (some response) true
trace_of-IsTraced c from (err (llm refused)) = a-IsTrace c from none true
trace_of-IsTraced c from (err (llm auth_error)) = a-IsTrace c from none true
trace_of-IsTraced c from (err (llm schema_validation_failed)) = a-IsTrace c from none false
trace_of-IsTraced c from (err (llm quota_exceeded)) = refl
trace_of-IsTraced c from (err (llm rate_limited)) = refl
trace_of-IsTraced c from (err (llm unavailable)) = refl
trace_of-IsTraced c from (err (llm timeout)) = refl
trace_of-IsTraced c from (err (llm no_available_provider)) = refl
trace_of-IsTraced c from (err (llm budget_exceeded)) = refl
trace_of-IsTraced c from (err (other text)) = refl

module _ {A S : Type 0} (router : ModelRouter S) (schema : Option (Schema A))
    (messages : List ChatMessage) (rule : TaskRoutingRule) where
  -- `Passed cs from s ds from' s'`: the candidates of `cs` before `ds` have no provider, or their
  -- calls fail with an error that may fall back; `from'` names the last that failed.
  pub data Passed
      : List CandidateModel
        → Option String
        → S
        → List CandidateModel
        → Option String
        → S
        → Type 0 where
    here : {cs : List CandidateModel} {from : Option String} {s : S} → Passed cs from s cs from s
    missing :
        {c : CandidateModel} {cs ds : List CandidateModel} {from from' : Option String} {s s' : S}
        → router.providers c.provider ≡ none
        → Passed cs from s ds from' s'
        → Passed (c ∷ cs) from s ds from' s'
    failed :
        {c : CandidateModel} {cs ds : List CandidateModel} {from from' : Option String} {s s' : S}
        {provider : LlmProvider S}
        → router.providers c.provider ≡ some provider
        → falls_back (run_candidate router schema messages rule provider c s).0 ≡ true
        → Passed cs
            (some (label c))
            (run_candidate router schema messages rule provider c s).1
            ds
            from'
            s'
        → Passed (c ∷ cs) from s ds from' s'

  -- The loop stopped at a candidate whose call decides, or ran out of candidates.
  pub data Decided (cs : List CandidateModel) (from : Option String) (s : S) (served : Served A S)
      : Type 0 where
    by_candidate :
        (c : CandidateModel) (later : List CandidateModel) (from' : Option String) (s' : S)
        (provider : LlmProvider S)
        → Passed cs from s (c ∷ later) from' s'
        → router.providers c.provider ≡ some provider
        → falls_back (run_candidate router schema messages rule provider c s').0 ≡ false
        → served.answer ≡ (run_candidate router schema messages rule provider c s').0
        → served.world ≡ (run_candidate router schema messages rule provider c s').1
        → IsTraced c from' served.answer served.trace
        → Decided cs from s served
    exhausted :
        (from' : Option String) (s' : S)
        → Passed cs from s [] from' s'
        → served.answer ≡ err (llm no_available_provider)
        → served.world ≡ s'
        → served.trace ≡ none
        → Decided cs from s served

  after_missing :
      (c : CandidateModel) (cs : List CandidateModel) (from : Option String) (s : S)
      (served : Served A S)
      → router.providers c.provider ≡ none
      → Decided cs from s served
      → Decided (c ∷ cs) from s served
  after_missing c cs from s served none_here
        (by_candidate d later from' s' p passed known decides answer world trace) =
      by_candidate d later from' s' p (missing none_here passed) known decides answer world trace
  after_missing c cs from s served none_here (exhausted from' s' passed answer world trace) =
      exhausted from' s' (missing none_here passed) answer world trace

  after_failed :
      (c : CandidateModel) (cs : List CandidateModel) (from : Option String) (s : S)
      (served : Served A S) (provider : LlmProvider S)
      → router.providers c.provider ≡ some provider
      → falls_back (run_candidate router schema messages rule provider c s).0 ≡ true
      → Decided cs
          (some (label c))
          (run_candidate router schema messages rule provider c s).1
          served
      → Decided (c ∷ cs) from s served
  after_failed c cs from s served provider known fails
        (by_candidate d later from' s' p passed known' decides answer world trace) =
      by_candidate d later from' s' p (failed known fails passed) known' decides answer world trace
  after_failed c cs from s served provider known fails
        (exhausted from' s' passed answer world trace) =
      exhausted from' s' (failed known fails passed) answer world trace

  -- The answer is that of the first registered candidate whose call returns or fails with an error
  -- that may not fall back (a refusal, a schema that was not met, a failed authentication or an exception of
  -- another kind), from the state that the calls before it left. The answer that is returned is traced with
  -- its response, and such a failure of the provider without one, under the candidate and the last that
  -- failed before it. With no such candidate it is the error that none is available.
  pub serve_lem :
      (cs : List CandidateModel) (from : Option String) (s : S)
      → Decided cs from s (serve router schema messages rule cs from s)
  unfolding serve
  serve_lem [] from s = exhausted from s here refl refl refl
  serve_lem (c ∷ cs) from s = elim (Option-cases (router.providers c.provider)) [
    | inl e ↦
        rw (e, serve)
          (after_missing c cs from s (serve router schema messages rule cs from s) e
            (serve_lem cs from s))
    | inr (p, e) ↦
        let run = run_candidate router schema messages rule p c s in
        let table = passes-falls_back run.0 in
        elim (Bool-cases (passes run.0)) [
          | inl fails ↦
              rw (e, fails, serve)
                (after_failed c cs from s
                  (serve router schema messages rule cs (some (label c)) run.1) p e
                  (sym table ∙ fails) (serve_lem cs (some (label c)) run.1))
          | inr decides ↦
              rw (e, decides, serve)
                (by_candidate c cs from s p here e (sym table ∙ decides) refl refl
                  (trace_of-IsTraced c from run.0))
        ]
  ]
