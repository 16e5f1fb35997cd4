-- ===== src/Tools/Examples.antt =====
-- A call of a tool through src/acip/tools/runner.py.
use text.Mathlib.Text.{◌==◌ as str_eq}
use agentic_cyber_investigat.Prelude.{
  ℕ, suc, ◌+◌, ◌≡◌, refl, String, true, false, none, some, [], ◌∷◌, map, if◌then◌else◌,
}
use agentic_cyber_investigat.Prelude.Result.{ok, err, Returned}
use agentic_cyber_investigat.Prelude.Text.{after_prefix}
use agentic_cyber_investigat.Types.{TimeConfidence, EvidenceKind}
use agentic_cyber_investigat.Evidence.Contracts.{EvidenceDraft, Platform, content_hash}
use agentic_cyber_investigat.Evidence.Store.{
  add_valid, add_evidence, record_drafts, record_draft, count_evidence,
}
use agentic_cyber_investigat.Tools.Runner.{
  chars, ToolAdapter, FileSystem, ToolRunner, ToolCall, returned, outside_artifact_directory,
  check_containment,
}
use agentic_cyber_investigat.Tools.Runner.Run.{prepare, run_tool, settle}
use agentic_cyber_investigat.Tools.Runner.Provenance.{IsBound, run_tool-IsBound}

abbrev env : Platform
env = record {
  lower = λ s. s;
  ip_address = λ s. none;
  digest = λ c. 0;
  uuid4 = λ n. n + 100;
  utcnow = λ n. n;
}

abbrev disk : FileSystem
disk = record {
  resolve = λ path. path;
  is_relative_to = λ path root. elim (after_prefix root path) [ some rest ↦ true | none ↦ false ];
  is_file = λ path. true;
}

abbrev draft : EvidenceDraft
draft = record {
  kind = EvidenceKind.auth_event;
  payload = "line";
  observed_at = some 7;
  time_confidence = TimeConfidence.exact;
  entities = [];
  confidence = 1;
}

-- A parser that counts its executions.
abbrev parser : ToolAdapter String String ℕ
parser = record {
  name = "auth_log_parser";
  version = "1";
  tier = "in_process";
  requires_artifact = true;
  unavailable_reason = none;
  model_validate = λ raw. ok raw;
  model_dump = λ args. ("pattern", chars args) ∷ [];
  execute = λ args context limit n. (
    returned (record { evidence = draft ∷ draft ∷ []; warnings = []; exit_status = none }),
    suc n,
  );
}

abbrev runner : ToolRunner String String ℕ
runner = record {
  registry = λ name. if str_eq name "auth_log_parser" then some parser else none;
  store = record {
    session = record {
      evidence = [];
      findings = [];
      finding_evidence = [];
      hypotheses = [];
      hypothesis_evidence = [];
      gaps = [];
      executions = [];
      drawn = 0;
    };
    investigation_id = 1;
    max_evidence = none;
    last_quota_dropped = 0;
  };
  tool_runs = [];
  artifact_root = "/data";
  default_timeout = 120;
}

abbrev call : String → ToolCall String
call path = record {
  args = "x";
  agent_run_id = none;
  artifact_id = none;
  artifact_path = some path;
  timeout = none;
}

one_row :
    map
      (λ r. r.evidence_count)
      (run_tool env disk (call "/data/log") runner "auth_log_parser" 0).1.tool_runs
    ≡ 1 ∷ []
unfolding run_tool prepare settle check_containment after_prefix add_valid add_evidence
    record_drafts record_draft count_evidence content_hash
one_row = refl

refused :
    run_tool env disk (call "/etc/passwd") runner "auth_log_parser" 0
    ≡ (err outside_artifact_directory, runner, 0)
unfolding run_tool prepare check_containment after_prefix
refused = refl

run_tool-IsBound_example :
    Returned IsBound (run_tool env disk (call "/data/log") runner "auth_log_parser" 0).0
run_tool-IsBound_example = run_tool-IsBound env disk (call "/data/log") runner "auth_log_parser" 0
