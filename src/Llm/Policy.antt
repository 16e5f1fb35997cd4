-- ===== src/Llm/Policy.antt =====
-- src/acip/core/llm/policy.py: which models serve a class of tasks, in order. The dictionary of the
-- rules is a function.
use agentic_cyber_investigat.Prelude.{ℕ, String, Option, none, some, List, [], ◌∷◌}
use agentic_cyber_investigat.Types.{TaskClass}

pub record CandidateModel : Type 0 where
  pub provider : String
  pub model : String
  pub temperature : ℕ
  pub max_tokens : ℕ
  pub seed : Option ℕ

pub record TaskRoutingRule : Type 0 where
  pub task_class : TaskClass
  pub candidates : List CandidateModel
  pub max_output_tokens : ℕ
  pub schema_retries : ℕ

abbrev pub RoutingPolicy : Type 0
RoutingPolicy = TaskClass → Option TaskRoutingRule

abbrev pub get_rule : RoutingPolicy → TaskClass → TaskRoutingRule
get_rule policy task_class = elim (policy task_class) [
  | some rule ↦ rule
  | none ↦ record {
    task_class = task_class;
    candidates = [];
    max_output_tokens = 2048;
    schema_retries = 2;
  }
]

-- `RoutingPolicy.create_default` for a primary, a secondary and a summary model of one provider.
unfoldable pub create_default : String → String → String → String → RoutingPolicy
create_default provider_name primary secondary summary task_class =
    let candidate : String → ℕ → CandidateModel = λ model temperature. record {
      provider = provider_name;
      model = model;
      temperature = temperature;
      max_tokens = 4096;
      seed = none;
    } in
    let both = candidate primary 0 ∷ candidate secondary 0 ∷ [] in
    let candidates = elim task_class as (λ c. List CandidateModel) [
      | TaskClass.narrative ↦ candidate summary 200 ∷ both
      | _ ↦ both
    ] in
    some (record {
      task_class = task_class;
      candidates = candidates;
      max_output_tokens = 4096;
      schema_retries = 2;
    })
