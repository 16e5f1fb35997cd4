-- ===== src/Evidence/Grounding/Exact.antt =====
-- `add_finding` accepts exactly the grounded findings, and says which rule it refuses by.
use agentic_cyber_investigat.Prelude.{
  ℕ, ◌≡◌, refl, sym, ap, subst, Bool, true, not, ◌&&◌, Option, List, [], ◌∷◌, ◌==◌, select, any,
  All, contains, is_some, arith, List-cases, inl, inr, ◌↔◌, All_mono,
}
use agentic_cyber_investigat.Prelude.Result.{ok, >>=-eq-ok}
use agentic_cyber_investigat.Types.{AssertionClass, fact, inference}
use agentic_cyber_investigat.Evidence.Contracts.{FindingDraft, Platform}
use agentic_cyber_investigat.Evidence.Rows.{Evidence}
use agentic_cyber_investigat.Evidence.Store.{Store, own}
use agentic_cyber_investigat.Evidence.Findings.{
  load_cited_evidence, enforce_grounding, finding_row, write_finding, add_finding,
}
use agentic_cyber_investigat.Evidence.Grounding.{
  IsGrounded, Supported, cites, known_of_loaded, Supported-of_enforced, any-select, any_imp,
  select_none,
}

module _ (st : Store) (ids : List ℕ) where
  abbrev found : List Evidence
  found = select (λ e. contains e.id ids) (own st.investigation_id st.session)

  select_known :
      (p : ℕ → Bool) (is : List ℕ) → All (λ j. p j ≡ true) is → select (λ j. not (p j)) is ≡ []
  select_known p [] h = refl
  select_known p (i ∷ is) h = rw h.0 (select_known p is h.1)

  any-found :
      (p : Evidence → Bool)
      → any (λ e. cites st.investigation_id ids e && p e) st.session.evidence ≡ true
      → any p found ≡ true
  any-found p h =
      rw any-select (rw any-select (any_imp _ _ (λ e k. ground arith) st.session.evidence h))

  contains_each :
      (is : List ℕ)
      → All (λ j. contains j ids ≡ true) is
      → All
          (λ i.
            any (λ e. e.investigation_id == st.investigation_id && e.id == i) st.session.evidence
            ≡ true)
          is
      → All (λ j. any (λ e. e.id == j) found ≡ true) is
  contains_each [] c h = tt
  contains_each (i ∷ is) c h = (
    any-found (λ e. e.id == i)
        (any_imp _ _
          (λ e k.
            let same : e.id ≡ i = ground arith in
            let named : contains e.id ids ≡ true =
              subst (λ x. contains x ids ≡ true) (sym same) c.0 in
            ground arith)
          st.session.evidence h.0),
    contains_each is c.1 h.1,
  )

contains_all : (ids : List ℕ) → All (λ j. contains j ids ≡ true) ids
contains_all [] = tt
contains_all (i ∷ is) = (
  ground arith,
  All_mono (λ j. contains j is ≡ true) _ (λ j h. ground arith) is (contains_all is),
)

loads_known :
    (st : Store) (ids : List ℕ)
    → All
        (λ i.
          any (λ e. e.investigation_id == st.investigation_id && e.id == i) st.session.evidence
          ≡ true)
        ids
    → load_cited_evidence st ids ≡ ok (found st ids)
unfolding load_cited_evidence
loads_known st [] h = ap ok (sym (select_none (own st.investigation_id st.session)))
loads_known st (i ∷ is) h =
    let none_missing =
      select_known st (i ∷ is) (λ j. any (λ e. e.id == j) (found st (i ∷ is))) (i ∷ is)
        (contains_each st (i ∷ is) (i ∷ is) (contains_all (i ∷ is)) h) in
    rw (none_missing, load_cited_evidence)

enforced :
    (st : Store) (draft : FindingDraft) (c : AssertionClass)
    → Supported c st.investigation_id draft.evidence_ids draft.reasoning draft.severity
        st.session.evidence
    → enforce_grounding c draft (found st draft.evidence_ids) ≡ ok tt
unfolding enforce_grounding
enforced st draft fact h =
    let hit = any-found st draft.evidence_ids (λ e. is_some e.tool_run_id) h in rw hit refl
enforced st draft inference h =
    let hit =
      any-found st draft.evidence_ids (λ _. true)
        (any_imp _ _ (λ e k. ground arith) st.session.evidence h.0) in
    elim (List-cases (found st draft.evidence_ids)) [
      | inl e ↦ cc (rw e at hit)
      | inr (x, rest, e) ↦ rw (e, h.1) refl
    ]
enforced st draft AssertionClass.hypothesis h = rw h refl
enforced st draft AssertionClass.unknown h = rw h refl

-- `add_finding` accepts a draft exactly when the finding it would write is grounded: every cited
-- id is a row of the investigation (G0), and the class has the support that G1 to G4 ask for.
-- What it then returns is that row with the store that holds it.
pub add_finding-ok_iff :
    (env : Platform) (st : Store) (draft : FindingDraft) (run : Option ℕ)
    → (add_finding env st draft run ≡ ok (write_finding env st draft run))
      ↔ IsGrounded st.session.evidence (finding_row env st draft run)
unfolding add_finding
add_finding-ok_iff env st draft run = (
  λ h.
      let (rows, loaded, rest) = >>=-eq-ok (load_cited_evidence st draft.evidence_ids) _ h in
      let (_, passed, _) = >>=-eq-ok (enforce_grounding draft.assertion_class draft rows) _ rest in
      record {
        known = known_of_loaded st draft.evidence_ids rows loaded;
        supported = Supported-of_enforced st draft rows loaded draft.assertion_class passed;
      },
  λ g.
      rw (loads_known st draft.evidence_ids g.known)
        (rw (enforced st draft draft.assertion_class g.supported)),
)
