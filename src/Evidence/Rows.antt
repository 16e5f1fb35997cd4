-- ===== src/Evidence/Rows.antt =====
-- The tables that the store reads and writes, src/acip/db/models.py, and the errors it raises.
-- Ids and times are numbers; a digest is the number that its hexadecimal text stands for.
use agentic_cyber_investigat.Prelude.{ℕ, String, Bool, Option, List}
use agentic_cyber_investigat.Types.{
  AssertionClass, Severity, TimeConfidence, EvidenceRole, FinishReason, HypothesisStatus,
}
use agentic_cyber_investigat.Evidence.Contracts.{EntityRef}

pub record Evidence : Type 0 where
  pub id : ℕ
  pub investigation_id : ℕ
  pub kind : String
  pub source_tool : String
  pub observed_at : Option ℕ
  pub time_confidence : TimeConfidence
  pub collected_at : ℕ
  pub payload : String
  pub entities : List EntityRef
  pub confidence : ℕ
  pub content_hash : ℕ
  pub artifact_id : Option ℕ
  pub tool_run_id : Option ℕ
  pub agent_run_id : Option ℕ

pub record Finding : Type 0 where
  pub id : ℕ
  pub investigation_id : ℕ
  pub title : String
  pub description : String
  pub assertion_class : AssertionClass
  pub severity : Severity
  pub confidence : ℕ
  pub evidence_ids : List ℕ
  pub reasoning : Option String
  pub detection_rule : Option String
  pub agent_run_id : Option ℕ
  pub created_at : ℕ

pub record FindingEvidence : Type 0 where
  pub id : ℕ
  pub finding_id : ℕ
  pub evidence_id : ℕ
  pub role : EvidenceRole
  pub created_at : ℕ

pub record Hypothesis : Type 0 where
  pub id : ℕ
  pub investigation_id : ℕ
  pub statement : String
  pub status : HypothesisStatus
  pub confidence : ℕ
  pub refutation_condition : String
  pub agent_run_id : Option ℕ
  pub created_at : ℕ

pub record HypothesisEvidence : Type 0 where
  pub id : ℕ
  pub hypothesis_id : ℕ
  pub evidence_id : ℕ
  pub role : EvidenceRole
  pub created_at : ℕ

pub record HypothesisGap : Type 0 where
  pub id : ℕ
  pub hypothesis_id : ℕ
  pub description : String
  pub required_tool : Option String
  pub resolved : Bool
  pub created_at : ℕ

pub record ModelExecution : Type 0 where
  pub id : ℕ
  pub investigation_id : ℕ
  pub agent_run_id : Option ℕ
  pub task_id : Option String
  pub task_class : String
  pub provider : String
  pub model : String
  pub prompt_name : String
  pub prompt_version : String
  pub tokens_in : ℕ
  pub tokens_out : ℕ
  pub latency_ms : ℕ
  pub cost_estimate_usd : ℕ
  pub finish_reason : FinishReason
  pub retries : ℕ
  pub schema_valid : Bool
  pub fallback_from : Option String
  pub temperature : ℕ
  pub seed : Option ℕ
  pub nondeterminism_risk : String
  pub grounding_violations : ℕ
  pub created_at : ℕ

-- The tables, and the count of rows that took an id and a time from the platform.
pub record Session : Type 0 where
  pub evidence : List Evidence
  pub findings : List Finding
  pub finding_evidence : List FindingEvidence
  pub hypotheses : List Hypothesis
  pub hypothesis_evidence : List HypothesisEvidence
  pub gaps : List HypothesisGap
  pub executions : List ModelExecution
  pub drawn : ℕ

-- GroundingError, one constructor for each place that raises it, and ValidationError.
pub data StoreError : Type 0 where
  missing_evidence : List ℕ → StoreError
  fact_without_tool_evidence : StoreError
  inference_without_evidence : StoreError
  inference_without_reasoning : StoreError
  hypothesis_without_reasoning : StoreError
  hypothesis_without_refutation : StoreError
  unknown_above_info : StoreError
  malformed_cursor : StoreError
  wrong_sort_key : StoreError
