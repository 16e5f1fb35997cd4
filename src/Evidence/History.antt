-- ===== src/Evidence/History.antt =====
-- What holds of the tables after any sequence of the store's operations, on any investigations.
use agentic_cyber_investigat.Prelude.{
  ℕ, ◌≡◌, ap, sym, subst, ◌∙◌, String, false, Option, some, List, [], ◌∷◌, ◌++◌, All, All_mono,
  All-append, arith,
}
use agentic_cyber_investigat.Prelude.Result.{ok, >>=-eq-ok, raise_if}
use agentic_cyber_investigat.Prelude.Text.{is_blank}
use agentic_cyber_investigat.Evidence.Contracts.{
  EvidenceDraft, FindingDraft, HypothesisDraft, HypothesisGapDraft, ModelExecutionDraft, Platform,
}
use agentic_cyber_investigat.Evidence.Rows.{
  Finding, Hypothesis, Session, hypothesis_without_refutation,
}
use agentic_cyber_investigat.Evidence.Store.{Store, Source, add_evidence, batch}
use agentic_cyber_investigat.Evidence.Findings.{
  finding_row, write_finding, add_finding, write_hypothesis, add_hypothesis, add_hypothesis_gap,
  record_model_execution, load_cited_evidence, enforce_grounding,
}
use agentic_cyber_investigat.Evidence.Grounding.{IsGrounded, IsGrounded-mono}
use agentic_cyber_investigat.Evidence.Grounding.Exact.{add_finding-ok_iff}
use agentic_cyber_investigat.Evidence.Dedupe.{IsDeduplicated}
use agentic_cyber_investigat.Evidence.Writes.{add_evidence-IsDeduplicated}

-- One call of a writing method, of the store of any investigation on the session. A call that raises
-- writes nothing.
pub data Writes (env : Platform) (s : Session) : Session → Type 0 where
  evidence :
      (st : Store) (src : Source) (drafts : List EvidenceDraft)
      → st.session ≡ s
      → Writes env s (add_evidence env st src drafts).1.session
  finding :
      (st : Store) (draft : FindingDraft) (run : Option ℕ) (row : Finding) (st' : Store)
      → st.session ≡ s
      → add_finding env st draft run ≡ ok (row, st')
      → Writes env s st'.session
  hypothesis :
      (st : Store) (draft : HypothesisDraft) (run : Option ℕ) (row : Hypothesis) (st' : Store)
      → st.session ≡ s
      → add_hypothesis env st draft run ≡ ok (row, st')
      → Writes env s st'.session
  gap :
      (st : Store) (hypothesis_id : ℕ) (draft : HypothesisGapDraft)
      → st.session ≡ s
      → Writes env s (add_hypothesis_gap env st hypothesis_id draft).1.session
  execution :
      (st : Store) (draft : ModelExecutionDraft) (run : Option ℕ) (task_id : Option String)
      → st.session ≡ s
      → Writes env s (record_model_execution env st draft run task_id).1.session

pub data Reach (env : Platform) (s : Session) : Session → Type 0 where
  here : Reach env s s
  next : {t u : Session} → Reach env s t → Writes env t u → Reach env s u

abbrev pub empty : Session
empty = record {
  evidence = [];
  findings = [];
  finding_evidence = [];
  hypotheses = [];
  hypothesis_evidence = [];
  gaps = [];
  executions = [];
  drawn = 0;
}

-- Every finding is grounded in the evidence, the digests of each investigation are apart, and every
-- hypothesis states what would refute it.
pub record IsSound (s : Session) : Type 0 where
  pub grounded : All (IsGrounded s.evidence) s.findings
  pub deduplicated : IsDeduplicated s.evidence
  pub falsifiable : All (λ h. is_blank (some h.refutation_condition) ≡ false) s.hypotheses

add_finding-eq-ok :
    (env : Platform) (st : Store) (draft : FindingDraft) (run : Option ℕ) (out : Finding × Store)
    → add_finding env st draft run ≡ ok out
    → out ≡ write_finding env st draft run
unfolding add_finding
add_finding-eq-ok env st draft run out h =
    let (rows, loaded, rest) = >>=-eq-ok (load_cited_evidence st draft.evidence_ids) _ h in
    let (_, passed, done) = >>=-eq-ok (enforce_grounding draft.assertion_class draft rows) _ rest in
    cc

add_hypothesis-eq-ok :
    (env : Platform) (st : Store) (draft : HypothesisDraft) (run : Option ℕ)
    (out : Hypothesis × Store)
    → add_hypothesis env st draft run ≡ ok out
    → (out ≡ write_hypothesis env st draft run)
      × (is_blank (some draft.refutation_condition) ≡ false)
unfolding add_hypothesis
add_hypothesis-eq-ok env st draft run out h =
    let (_, passed, rest) =
      >>=-eq-ok
        (raise_if (is_blank (some draft.refutation_condition)) hypothesis_without_refutation) _ h in
    let (rows, loaded, done) =
      >>=-eq-ok
        (load_cited_evidence st (draft.supporting_evidence_ids ++ draft.contradicting_evidence_ids))
        _ rest in
    (cc, ground arith)

evidence-IsGrounded :
    (env : Platform) (st : Store) (src : Source) (drafts : List EvidenceDraft)
    → All (IsGrounded st.session.evidence) st.session.findings
    → All
        (IsGrounded (add_evidence env st src drafts).1.session.evidence)
        (add_evidence env st src drafts).1.session.findings
unfolding add_evidence
evidence-IsGrounded env st src [] g = g
evidence-IsGrounded env st src (d ∷ ds) g =
    All_mono _ _ (IsGrounded-mono st.session.evidence (batch env st src (d ∷ ds)).created) _ g

evidence-falsifiable :
    (env : Platform) (st : Store) (src : Source) (drafts : List EvidenceDraft)
    → All (λ h. is_blank (some h.refutation_condition) ≡ false) st.session.hypotheses
    → All
        (λ h. is_blank (some h.refutation_condition) ≡ false)
        (add_evidence env st src drafts).1.session.hypotheses
unfolding add_evidence
evidence-falsifiable env st src [] g = g
evidence-falsifiable env st src (d ∷ ds) g = g

Writes-IsSound : {env : Platform} {s t : Session} → Writes env s t → IsSound s → IsSound t
unfolding write_finding write_hypothesis add_hypothesis_gap record_model_execution
Writes-IsSound {env} (evidence st src drafts same) i =
    let i' = subst IsSound (sym same) i in
    record {
      grounded = evidence-IsGrounded env st src drafts i'.grounded;
      deduplicated = add_evidence-IsDeduplicated env st src drafts i'.deduplicated;
      falsifiable = evidence-falsifiable env st src drafts i'.falsifiable;
    }
Writes-IsSound {env} (finding st draft run row st' same done) i =
    let i' = subst IsSound (sym same) i in
    let e = add_finding-eq-ok env st draft run (row, st') done in
    let g = (add_finding-ok_iff env st draft run).0 (done ∙ ap ok e) in
    subst (λ (p : Finding × Store). IsSound p.1.session) (sym e)
      (record {
        grounded =
            All-append (IsGrounded st.session.evidence) st.session.findings
              (finding_row env st draft run ∷ []) i'.grounded (g, tt);
        deduplicated = i'.deduplicated;
        falsifiable = i'.falsifiable;
      })
Writes-IsSound {env} (hypothesis st draft run row st' same done) i =
    let i' = subst IsSound (sym same) i in
    let (e, stated) = add_hypothesis-eq-ok env st draft run (row, st') done in
    subst (λ (p : Hypothesis × Store). IsSound p.1.session) (sym e)
      (record {
        grounded = i'.grounded;
        deduplicated = i'.deduplicated;
        falsifiable =
            All-append (λ h. is_blank (some h.refutation_condition) ≡ false) st.session.hypotheses
              ((write_hypothesis env st draft run).0 ∷ []) i'.falsifiable (stated, tt);
      })
Writes-IsSound (gap st hypothesis_id draft same) i =
    let i' = subst IsSound (sym same) i in
    record { grounded = i'.grounded; deduplicated = i'.deduplicated; falsifiable = i'.falsifiable }
Writes-IsSound (execution st draft run task_id same) i =
    let i' = subst IsSound (sym same) i in
    record { grounded = i'.grounded; deduplicated = i'.deduplicated; falsifiable = i'.falsifiable }

-- From empty tables, after any calls of the store's writing methods on any investigations: every
-- finding cites only evidence of its own investigation (G0) and meets the rule of its class (G1 to
-- G4), no investigation holds two rows with one digest, and no hypothesis has a blank refutation
-- condition (G3).
pub Reach-IsSound : (env : Platform) (s : Session) → Reach env empty s → IsSound s
Reach-IsSound env s here = record { grounded = tt; deduplicated = tt; falsifiable = tt }
Reach-IsSound env s (next {t} r w) = Writes-IsSound w (Reach-IsSound env t r)
