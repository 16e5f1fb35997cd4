-- ===== src/Agents/Examples.antt =====
-- The review of src/acip/agents/validation.py at a small table.
use agentic_cyber_investigat.Prelude.{
  ℕ, ◌+◌, ◌≡◌, refl, String, true, false, none, some, [], ◌∷◌, map,
}
use agentic_cyber_investigat.Types.{TimeConfidence, HypothesisStatus}
use agentic_cyber_investigat.Evidence.Contracts.{Platform}
use agentic_cyber_investigat.Evidence.Rows.{Evidence, Hypothesis}
use agentic_cyber_investigat.Evidence.Store.{Store}
use agentic_cyber_investigat.Agents.Validation.{DataView, resolve_all}

abbrev env : Platform
env = record {
  lower = λ s. s;
  ip_address = λ s. none;
  digest = λ c. 0;
  uuid4 = λ n. n + 100;
  utcnow = λ n. n;
}

-- A web attack in the evidence.
abbrev view : DataView
view = record { get = λ payload key. none; is_true = λ payload key. false }

abbrev attack : Evidence
attack = record {
  id = 4;
  investigation_id = 1;
  kind = "web_attack";
  source_tool = "web_log_parser";
  observed_at = none;
  time_confidence = TimeConfidence.exact;
  collected_at = 0;
  payload = "line";
  entities = [];
  confidence = 1;
  content_hash = 0;
  artifact_id = none;
  tool_run_id = some 9;
  agent_run_id = none;
}

abbrev claim : ℕ → String → Hypothesis
claim id statement = record {
  id = id;
  investigation_id = 1;
  statement = statement;
  status = HypothesisStatus.proposed;
  confidence = 5;
  refutation_condition = "r";
  agent_run_id = none;
  created_at = 0;
}

abbrev store : Store
store = record {
  session = record {
    evidence = attack ∷ [];
    findings = [];
    finding_evidence = [];
    hypotheses =
        claim 1 "a benign glitch" ∷ claim 2 "an intrusion" ∷ claim 3 "an abnormal intrusion" ∷ [];
    hypothesis_evidence = [];
    gaps = [];
    executions = [];
    drawn = 0;
  };
  investigation_id = 1;
  max_evidence = none;
  last_quota_dropped = 0;
}

-- The third is taken for a benign one, since "normal" stands in "abnormal".
three_verdicts :
    map (λ h. h.status) (resolve_all (λ s. s) true [] 1 store.session.hypotheses).hypotheses
    ≡ HypothesisStatus.refuted ∷ HypothesisStatus.supported ∷ HypothesisStatus.refuted ∷ []
unfolding resolve_all
three_verdicts = refl
