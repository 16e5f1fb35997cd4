-- ===== src/Llm/Replay.antt =====
-- src/acip/core/llm/providers/replay.py: the provider that answers with configured texts.
use agentic_cyber_investigat.Prelude.{
  ◌+◌, ◌≤◌, length, length-append, arith, String, List, [], ◌∷◌, ◌++◌, Option, none, some,
  if◌then◌else◌,
}
use agentic_cyber_investigat.Prelude.Result.{ok, err}
use agentic_cyber_investigat.Prelude.Text.{has_text}
use agentic_cyber_investigat.Types.{FinishReason}
use agentic_cyber_investigat.Llm.Contracts.{ChatMessage, LlmRequest, LlmResponse, LlmError, llm}
use agentic_cyber_investigat.Llm.Router.{LlmProvider}

pub record Replay : Type 0 where
  pub simulated_errors : List LlmError
  pub call_history : List (LlmRequest × String)

-- The first configured answer whose key stands in the message.
unfoldable pub canned_for : List (String × String) → String → Option String
unfolding has_text
canned_for [] content = none
canned_for ((key, canned) ∷ rest) content =
    let later = canned_for rest content in if has_text key content then some canned else later

-- The configured answer for the last message that has one.
unfoldable pub last_canned : List (String × String) → List ChatMessage → Option String
unfolding canned_for
last_canned canned [] = none
last_canned canned (m ∷ later) =
    let found = last_canned canned later in
    elim found [ some text ↦ some text | none ↦ canned_for canned m.content ]

module _ (name : String) (default_response : String)
    (canned_responses : List (String × String)) where
  abbrev replied : LlmRequest → String → LlmResponse
  replied request model = record {
    content = elim (last_canned canned_responses request.messages) [
      | some text ↦ text
      | none ↦ default_response
    ];
    usage = record { prompt_tokens = 10; completion_tokens = 10 };
    finish_reason = FinishReason.stop;
    model = model;
    provider = name;
    latency_ms = 5;
  }

  -- `ReplayProvider.complete`
  unfoldable pub replay : LlmProvider Replay
  unfolding last_canned
  replay request model s =
      let history = s.call_history ++ (request, model) ∷ [] in
      elim s.simulated_errors [
        | e ∷ rest ↦ (err (llm e), record { simulated_errors = rest; call_history = history })
        | [] ↦
            (ok (replied request model), record { simulated_errors = []; call_history = history })
      ]

  -- Each call is recorded.
  pub replay-call_history :
      (request : LlmRequest) (model : String) (s : Replay)
      → length (replay request model s).1.call_history ≤ length s.call_history + 1
  unfolding replay
  replay-call_history request model s =
      elim s.simulated_errors
        as (λ errors.
          length (replay request model (record s { simulated_errors = errors })).1.call_history
          ≤ length s.call_history + 1) [
            | [] ↦ omega (arith, length-append s.call_history ((request, model) ∷ []))
            | e ∷ rest ↦ omega (arith, length-append s.call_history ((request, model) ∷ []))
          ]
