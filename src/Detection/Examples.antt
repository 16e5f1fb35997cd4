-- ===== src/Detection/Examples.antt =====
-- The rules of src/acip/core/detection at concrete events.
use agentic_cyber_investigat.Prelude.{
  ℕ, ◌≤◌, ◌≡◌, refl, String, false, none, some, List, [], ◌∷◌, map, select, All, arith,
}
use agentic_cyber_investigat.Prelude.Sort.{sort}
use agentic_cyber_investigat.Prelude.Dict.{get_or}
use agentic_cyber_investigat.Detection.Window.{best_span, sweep}
use agentic_cyber_investigat.Detection.Window.Longest.{IsLongestBurst}
use agentic_cyber_investigat.Detection.AuthEvents.{
  AuthEventView, time_of, seconds, in_order, find_failure_bursts,
}
use agentic_cyber_investigat.Detection.AuthEvents.Bursts.{is_failure_of, find_failure_bursts_lem}
use agentic_cyber_investigat.Detection.AuthRules.{
  evaluate_auth_rules, successes, evaluate_user_enumeration, evaluate_privilege_escalation,
}
use agentic_cyber_investigat.Detection.AuthRules.Cites.{Cites}
use agentic_cyber_investigat.Detection.AuthRules.Evaluate.{evaluate_auth_rules-Cites}
use agentic_cyber_investigat.Detection.WebRules.{WebEventView, evaluate_web_rules}
use agentic_cyber_investigat.Detection.WebRules.WebCites.{CitesWeb}
use agentic_cyber_investigat.Detection.WebRules.WebEvaluate.{evaluate_web_rules-CitesWeb}

abbrev event : ℕ → String → ℕ → AuthEventView
event id event_type second = record {
  evidence_id = id;
  event_type = event_type;
  observed_at = some (seconds second);
  outcome = "neutral";
  user = some "eve";
  source_ip = some "10.0.0.1";
  host = none;
  target_user = some "root";
  command = none;
  invalid_user = false;
}

-- Two failures in a minute, a login and a command as root.
abbrev log : List AuthEventView
log =
    event 1 "auth_failure" 30
    ∷ event 2 "auth_failure" 0
    ∷ event 3 "auth_success" 20
    ∷ event 4 "sudo_command" 9
    ∷ []

abbrev request : ℕ → ℕ → WebEventView
request id second = record {
  evidence_id = id;
  observed_at = some (seconds second);
  client_ip = "10.0.0.2";
  method = "GET";
  path = "/";
  query_string = none;
  status_code = 404;
  user_agent = none;
  user = none;
  attacks = (("category", "sqli") ∷ []) ∷ [];
}

abbrev requests : List WebEventView
requests = request 5 9 ∷ request 6 0 ∷ request 5 1 ∷ []

-- The login counts as one that follows the failures, though the second failure is ten seconds after it,
-- and so does the command, which comes before the login.
three_hits :
    map (λ h. h.evidence_ids) (evaluate_auth_rules (λ s. s) log 2 60)
    ≡ (2 ∷ 1 ∷ 3 ∷ []) ∷ (4 ∷ 3 ∷ []) ∷ (2 ∷ 1 ∷ []) ∷ []
unfolding evaluate_auth_rules find_failure_bursts successes evaluate_user_enumeration
    evaluate_privilege_escalation sort best_span sweep
three_hits = refl

find_failure_bursts_lem_example :
    IsLongestBurst time_of
      (seconds 60)
      2
      (sort in_order (select (is_failure_of "10.0.0.1") log))
      (get_or [] "10.0.0.1" (find_failure_bursts log 2 60))
find_failure_bursts_lem_example = find_failure_bursts_lem log 2 60 "10.0.0.1"

evaluate_auth_rules-Cites_example :
    All (Cites (λ id. id ≤ 4)) (evaluate_auth_rules (λ s. s) log 2 60)
evaluate_auth_rules-Cites_example =
    evaluate_auth_rules-Cites (λ id. id ≤ 4) (λ s. s) log 2 60
      (omega arith, (omega arith, (omega arith, (omega arith, tt))))

evaluate_web_rules-CitesWeb_example :
    All (CitesWeb (λ id. id ≤ 6)) (evaluate_web_rules requests 2 5)
evaluate_web_rules-CitesWeb_example =
    evaluate_web_rules-CitesWeb (λ id. id ≤ 6) requests 2 5
      (omega arith, (omega arith, (omega arith, tt)))
