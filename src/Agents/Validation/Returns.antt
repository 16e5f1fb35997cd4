-- ===== src/Agents/Validation/Returns.antt =====
-- The review of src/acip/agents/validation.py returns, and what it makes of each hypothesis.
use Prim.Native.Char.{Char}
use Prim.Native.String.{◌++◌ as ◌+++◌}
use Prim.Native.String.append
use agentic_cyber_investigat.Prelude.{
  ℕ, ◌++◌, distinct, ◌≡◌, String, Bool, true, false, ◌&&◌, ◌||◌, not, Option, none, some, is_some,
  List, [], ◌∷◌, map, length, any, select, if◌then◌else◌, ◌==◌,
}
use agentic_cyber_investigat.Types.{HypothesisStatus}
use agentic_cyber_investigat.Evidence.Contracts.{Platform}
use agentic_cyber_investigat.Evidence.Rows.{
  Evidence, Finding, FindingEvidence, Hypothesis, HypothesisEvidence,
}
use agentic_cyber_investigat.Evidence.Store.{Store}
use agentic_cyber_investigat.Agents.Validation.{
  DataView, has_priv_esc_evidence, has_confirmed_attacks, is_contradicted, is_benign, is_malicious,
}

-- What becomes of a hypothesis.
pub data Verdict : Type 0 where
  refuted supported unchanged : Verdict

module _ (lower : String → String) (observed : Bool) (links : List HypothesisEvidence)
    (investigation_id : ℕ) where
  -- A benign one falls to any attack and to any evidence against it, and another malicious one is supported
  -- by any attack.
  abbrev pub verdict_on : Hypothesis → Verdict
  verdict_on h =
      if h.investigation_id == investigation_id
      then if is_benign (lower h.statement)
        then if observed || is_contradicted links h then refuted else unchanged
        else if is_malicious (lower h.statement) && observed
        then supported
        else unchanged
      else unchanged

  abbrev pub after_verdict : Verdict → Hypothesis → Hypothesis
  after_verdict refuted h = record h { status = HypothesisStatus.refuted }
  after_verdict supported h = record h { status = HypothesisStatus.supported }
  after_verdict unchanged h = h

  abbrev pub revise : Hypothesis → Hypothesis
  revise h = after_verdict (verdict_on h) h

  -- A verdict resolves a hypothesis also where it has that status already.
  abbrev pub resolves : Hypothesis → Bool
  resolves h = elim (verdict_on h) [ unchanged ↦ false | _ ↦ true ]

-- The row is one of the investigation's.
abbrev pub IsStored : Store → Evidence → Type 0
IsStored st e =
    any (λ x. x.investigation_id == st.investigation_id && x.id == e.id) st.session.evidence ≡ true

-- The finding and the evidence of a citation.
abbrev pub citation : ℕ → ℕ → ℕ × ℕ
citation finding_id evidence_id = (finding_id, evidence_id)

abbrev pub citation_of : FindingEvidence → ℕ × ℕ
citation_of l = citation l.finding_id l.evidence_id

-- What the review leaves: the verdicts on the hypotheses, a finding behind the others if one was resolved, with
-- its citations behind the others, and the rest of the tables as it was.
pub record IsReviewed (env : Platform) (view : DataView) (rows : List Evidence) (st after : Store)
    (finding : Option Finding) : Type 0 where
  pub revised :
      let observed = has_priv_esc_evidence view rows || has_confirmed_attacks view rows in
      after.session.hypotheses
      ≡ map
          (revise env.lower observed st.session.hypothesis_evidence st.investigation_id)
          st.session.hypotheses
  pub reported :
      let observed = has_priv_esc_evidence view rows || has_confirmed_attacks view rows in
      is_some finding
      ≡ not (
          length (
            select
              (resolves env.lower observed st.session.hypothesis_evidence st.investigation_id)
              st.session.hypotheses)
          == 0)
  pub findings_kept :
      after.session.findings
      ≡ st.session.findings ++ elim finding as (λ _. List Finding) [ none ↦ [] | some f ↦ f ∷ [] ]
  pub cited :
      (links : List FindingEvidence) × (after.session.finding_evidence
        ≡ st.session.finding_evidence ++ links)
      × (map citation_of links ≡ elim finding as (λ _. List (ℕ × ℕ)) [
        | none ↦ []
        | some f ↦ map (citation f.id) (distinct f.evidence_ids)
      ])
  pub same_evidence : after.session.evidence ≡ st.session.evidence
  pub same_hypothesis_evidence : after.session.hypothesis_evidence ≡ st.session.hypothesis_evidence
  pub same_gaps : after.session.gaps ≡ st.session.gaps
  pub same_executions : after.session.executions ≡ st.session.executions
