-- ===== src/Evidence/Findings.antt =====
-- src/acip/core/evidence/store.py: the findings, hypotheses, gaps and model calls that are written, with
-- the grounding gate. An operation that raises has added no row. Logging is left out.
use agentic_cyber_investigat.Prelude.{
  ℕ, suc, ◌+◌, String, Bool, true, false, not, Option, some, List, [], ◌∷◌, ◌++◌, ◌==◌, ltb, length,
  select, any, contains, distinct, is_some,
}
use agentic_cyber_investigat.Prelude.Result.{Result, ok, err, ◌>>=◌, ◌>>◌, raise_if}
use agentic_cyber_investigat.Prelude.Text.{is_blank}
use agentic_cyber_investigat.Types.{
  AssertionClass, fact, inference, rank, info, EvidenceRole, supports, contradicts,
  HypothesisStatus,
}
use agentic_cyber_investigat.Evidence.Contracts.{
  FindingDraft, HypothesisDraft, HypothesisGapDraft, ModelExecutionDraft, Platform,
}
use agentic_cyber_investigat.Evidence.Rows.{
  Evidence, Finding, FindingEvidence, Hypothesis, HypothesisEvidence, HypothesisGap, ModelExecution,
  StoreError, missing_evidence, fact_without_tool_evidence, inference_without_evidence,
  inference_without_reasoning, hypothesis_without_reasoning, hypothesis_without_refutation,
  unknown_above_info,
}
use agentic_cyber_investigat.Evidence.Store.{Store, own}

-- The rows of the investigation that are cited, and G0.
unfoldable pub load_cited_evidence : Store → List ℕ → Result StoreError (List Evidence)
load_cited_evidence st [] = ok []
load_cited_evidence st (i ∷ is) =
    let rows = select (λ e. contains e.id (i ∷ is)) (own st.investigation_id st.session) in
    let missing = select (λ j. not (any (λ e. e.id == j) rows)) (i ∷ is) in
    elim missing [ [] ↦ ok rows | j ∷ js ↦ err (missing_evidence (j ∷ js)) ]

abbrev is_nil : List Evidence → Bool
is_nil [] = true
is_nil (_ ∷ _) = false

-- G1 to G4.
unfoldable pub enforce_grounding :
    AssertionClass → FindingDraft → List Evidence → Result StoreError (Unit {0})
enforce_grounding fact draft cited =
    raise_if (not (any (λ e. is_some e.tool_run_id) cited)) fact_without_tool_evidence
enforce_grounding inference draft cited = do
  raise_if (is_nil cited) inference_without_evidence
  raise_if (is_blank draft.reasoning) inference_without_reasoning
enforce_grounding AssertionClass.hypothesis draft cited =
    raise_if (is_blank draft.reasoning) hypothesis_without_reasoning
enforce_grounding AssertionClass.unknown draft cited =
    raise_if (ltb (rank info) (rank draft.severity)) unknown_above_info

module _ (env : Platform) where
  -- `for evidence_id in dict.fromkeys(...)`: one link for each, from the n-th draw on
  unfoldable pub finding_links : ℕ → ℕ → List ℕ → List FindingEvidence
  finding_links n finding_id [] = []
  finding_links n finding_id (i ∷ is) =
      (record {
        id = env.uuid4 n;
        finding_id = finding_id;
        evidence_id = i;
        role = supports;
        created_at = env.utcnow n;
      })
      ∷ finding_links (suc n) finding_id is

  hypothesis_links : EvidenceRole → ℕ → ℕ → List ℕ → List HypothesisEvidence
  hypothesis_links role n hypothesis_id [] = []
  hypothesis_links role n hypothesis_id (i ∷ is) =
      (record {
        id = env.uuid4 n;
        hypothesis_id = hypothesis_id;
        evidence_id = i;
        role = role;
        created_at = env.utcnow n;
      })
      ∷ hypothesis_links role (suc n) hypothesis_id is

  abbrev pub finding_row : Store → FindingDraft → Option ℕ → Finding
  finding_row st draft agent_run_id = record {
    id = env.uuid4 st.session.drawn;
    investigation_id = st.investigation_id;
    title = draft.title;
    description = draft.description;
    assertion_class = draft.assertion_class;
    severity = draft.severity;
    confidence = draft.confidence;
    evidence_ids = draft.evidence_ids;
    reasoning = draft.reasoning;
    detection_rule = draft.detection_rule;
    agent_run_id = agent_run_id;
    created_at = env.utcnow st.session.drawn;
  }

  -- The tables after the finding and its links are written.
  unfoldable pub write_finding : Store → FindingDraft → Option ℕ → Finding × Store
  unfolding finding_links
  write_finding st draft agent_run_id =
      let s = st.session in
      let row = finding_row st draft agent_run_id in
      let cited = distinct draft.evidence_ids in
      (
        row,
        record st {
          session = record s {
            findings = s.findings ++ row ∷ [];
            finding_evidence = s.finding_evidence ++ finding_links (suc s.drawn) row.id cited;
            drawn = suc s.drawn + length cited;
          };
        },
      )

  unfoldable pub add_finding : Store → FindingDraft → Option ℕ → Result StoreError (Finding × Store)
  add_finding st draft agent_run_id = do
    cited ← load_cited_evidence st draft.evidence_ids
    enforce_grounding draft.assertion_class draft cited
    ok (write_finding st draft agent_run_id)

  unfoldable pub write_hypothesis : Store → HypothesisDraft → Option ℕ → Hypothesis × Store
  unfolding hypothesis_links
  write_hypothesis st draft agent_run_id =
      let s = st.session in
      let row_id = env.uuid4 s.drawn in
      let row : Hypothesis = record {
        id = row_id;
        investigation_id = st.investigation_id;
        statement = draft.statement;
        status = HypothesisStatus.proposed;
        confidence = draft.confidence;
        refutation_condition = draft.refutation_condition;
        agent_run_id = agent_run_id;
        created_at = env.utcnow s.drawn;
      } in
      let pro = distinct draft.supporting_evidence_ids in
      let contra = distinct draft.contradicting_evidence_ids in
      let n = suc s.drawn in
      (
        row,
        record st {
          session = record s {
            hypotheses = s.hypotheses ++ row ∷ [];
            hypothesis_evidence =
                s.hypothesis_evidence
                ++ (hypothesis_links supports n row_id pro
                    ++ hypothesis_links contradicts (n + length pro) row_id contra);
            drawn = n + length pro + length contra;
          };
        },
      )

  unfoldable pub add_hypothesis :
      Store → HypothesisDraft → Option ℕ → Result StoreError (Hypothesis × Store)
  add_hypothesis st draft agent_run_id = do
    raise_if (is_blank (some draft.refutation_condition)) hypothesis_without_refutation
    _ ← load_cited_evidence st (draft.supporting_evidence_ids ++ draft.contradicting_evidence_ids)
    ok (write_hypothesis st draft agent_run_id)

  unfoldable pub add_hypothesis_gap : Store → ℕ → HypothesisGapDraft → HypothesisGap × Store
  add_hypothesis_gap st hypothesis_id draft =
      let s = st.session in
      let gap : HypothesisGap = record {
        id = env.uuid4 s.drawn;
        hypothesis_id = hypothesis_id;
        description = draft.description;
        required_tool = draft.required_tool;
        resolved = false;
        created_at = env.utcnow s.drawn;
      } in
      (gap, record st { session = record s { gaps = s.gaps ++ gap ∷ []; drawn = suc s.drawn } })

  unfoldable pub record_model_execution :
      Store → ModelExecutionDraft → Option ℕ → Option String → ModelExecution × Store
  record_model_execution st draft agent_run_id task_id =
      let s = st.session in
      let call : ModelExecution = record {
        id = env.uuid4 s.drawn;
        investigation_id = st.investigation_id;
        agent_run_id = agent_run_id;
        task_id = task_id;
        task_class = draft.task_class;
        provider = draft.provider;
        model = draft.model;
        prompt_name = draft.prompt_name;
        prompt_version = draft.prompt_version;
        tokens_in = draft.tokens_in;
        tokens_out = draft.tokens_out;
        latency_ms = draft.latency_ms;
        cost_estimate_usd = draft.cost_estimate_usd;
        finish_reason = draft.finish_reason;
        retries = draft.retries;
        schema_valid = draft.schema_valid;
        fallback_from = draft.fallback_from;
        temperature = draft.temperature;
        seed = draft.seed;
        nondeterminism_risk = draft.nondeterminism_risk;
        grounding_violations = draft.grounding_violations;
        created_at = env.utcnow s.drawn;
      } in
      (
        call,
        record st {
          session = record s { executions = s.executions ++ call ∷ []; drawn = suc s.drawn };
        },
      )
