-- ===== src/Evidence/Grounding.antt =====
-- The grounding invariants G0 to G4 of docs/evidence-model.md as a predicate on the tables, for
-- `_load_cited_evidence` and `_enforce_grounding` of src/acip/core/evidence/store.py.
pub mod Exact
use agentic_cyber_investigat.Prelude.{
  ℕ, ◌≡◌, refl, sym, subst, ◌∙◌, String, Bool, true, false, not, ◌&&◌, ◌||◌, Option, none, some,
  List, [], ◌∷◌, ◌++◌, if◌then◌else◌, ◌==◌, select, any, any-append, All, All-append, All_mono,
  contains, is_some, arith, Bool-cases, List-cases, inl, inr, ltb, ◌↔◌,
}
use agentic_cyber_investigat.Prelude.Result.{Result, ok, err, ◌>>=◌, >>=-eq-ok, raise_if}
use agentic_cyber_investigat.Prelude.Text.{is_blank}
use agentic_cyber_investigat.Types.{
  AssertionClass, fact, inference, rank, info, low, medium, high, critical, Severity,
}
use agentic_cyber_investigat.Evidence.Contracts.{FindingDraft, Platform}
use agentic_cyber_investigat.Evidence.Rows.{Evidence, Finding, Session, StoreError}
use agentic_cyber_investigat.Evidence.Store.{Store, own}
use agentic_cyber_investigat.Evidence.Findings.{
  load_cited_evidence, enforce_grounding, finding_row, write_finding, add_finding,
}

-- `e` is a row of the investigation that the ids name.
abbrev pub cites : ℕ → List ℕ → Evidence → Bool
cites investigation_id ids e = e.investigation_id == investigation_id && contains e.id ids

abbrev pub Supported :
    AssertionClass → ℕ → List ℕ → Option String → Severity → List Evidence → Type 0
Supported fact inv ids reasoning severity rows =
    any (λ e. cites inv ids e && is_some e.tool_run_id) rows ≡ true
Supported inference inv ids reasoning severity rows =
    (any (cites inv ids) rows ≡ true) × (is_blank reasoning ≡ false)
Supported AssertionClass.hypothesis inv ids reasoning severity rows = is_blank reasoning ≡ false
Supported AssertionClass.unknown inv ids reasoning severity rows = severity ≡ info

-- G0 for the ids, and G1 to G4 for the class.
pub record IsGrounded (rows : List Evidence) (f : Finding) : Type 0 where
  pub known :
      All
        (λ i. any (λ e. e.investigation_id == f.investigation_id && e.id == i) rows ≡ true)
        f.evidence_ids
  pub supported :
      Supported f.assertion_class f.investigation_id f.evidence_ids f.reasoning f.severity rows

any_left : (p : Evidence → Bool) (xs ys : List Evidence) → any p xs ≡ true → any p (xs ++ ys) ≡ true
any_left p xs ys h = rw (any-append p xs ys, h) refl

Supported-mono :
    (c : AssertionClass) (inv : ℕ) (ids : List ℕ) (r : Option String) (s : Severity)
    (xs ys : List Evidence)
    → Supported c inv ids r s xs
    → Supported c inv ids r s (xs ++ ys)
Supported-mono fact inv ids r s xs ys h = any_left _ xs ys h
Supported-mono inference inv ids r s xs ys h = (any_left _ xs ys h.0, h.1)
Supported-mono AssertionClass.hypothesis inv ids r s xs ys h = h
Supported-mono AssertionClass.unknown inv ids r s xs ys h = h

-- More evidence keeps a finding grounded.
pub IsGrounded-mono :
    (xs ys : List Evidence) (f : Finding) → IsGrounded xs f → IsGrounded (xs ++ ys) f
IsGrounded-mono xs ys f g = record {
  known =
      All_mono (λ i. any (λ e. e.investigation_id == f.investigation_id && e.id == i) xs ≡ true) _
        (λ i h. any_left _ xs ys h) f.evidence_ids g.known;
  supported =
      Supported-mono f.assertion_class f.investigation_id f.evidence_ids f.reasoning f.severity xs
        ys g.supported;
}

-- A scan of selected rows is a scan of all rows.
any-select :
    (p q : Evidence → Bool) (rows : List Evidence)
    → any p (select q rows) ≡ any (λ e. q e && p e) rows
any-select p q [] = refl
any-select p q (e ∷ rows) = ground (arith, any-select p q rows)

pub any_imp :
    (p q : Evidence → Bool)
    → ((e : Evidence) → p e ≡ true → q e ≡ true)
    → (rows : List Evidence) → any p rows ≡ true
    → any q rows ≡ true
any_imp p q h [] k = k
any_imp p q h (e ∷ rows) k = ground (arith, h e, any_imp p q h rows)

select-nil :
    (p : ℕ → Bool) (is : List ℕ) → select (λ j. not (p j)) is ≡ [] → All (λ j. p j ≡ true) is
select-nil p [] h = tt
select-nil p (i ∷ is) h = elim (Bool-cases (p i)) [
  | inl e ↦ (e, select-nil p is (rw e at h))
  | inr e ↦ cc (rw e at h)
]

select_none : (rows : List Evidence) → select (λ e. contains e.id []) rows ≡ []
select_none [] = refl
select_none (e ∷ rows) = select_none rows

-- The rows that `load_cited_evidence` returns are those cited, and it misses none.
pub load_cited-eq-ok :
    (st : Store) (ids : List ℕ) (rows : List Evidence)
    → load_cited_evidence st ids ≡ ok rows
    → (rows ≡ select (λ e. contains e.id ids) (own st.investigation_id st.session))
      × All (λ j. any (λ e. e.id == j) rows ≡ true) ids
unfolding load_cited_evidence
load_cited-eq-ok st [] rows h = (cc (select_none (own st.investigation_id st.session)), tt)
load_cited-eq-ok st (i ∷ is) rows h = elim (List-cases missing) [
  | inl e ↦
      let same : rows ≡ found = cc (rw (e, load_cited_evidence) at h) in
      (
        same,
        subst (λ r. All (λ j. any (λ e. e.id == j) r ≡ true) (i ∷ is)) (sym same)
            (select-nil (λ j. any (λ e. e.id == j) found) (i ∷ is) e),
      )
  | inr (j, js, e) ↦ cc (rw (e, load_cited_evidence) at h)
]
  where
    found : List Evidence
    found = select (λ e. contains e.id (i ∷ is)) (own st.investigation_id st.session)

    missing : List ℕ
    missing = select (λ j. not (any (λ e. e.id == j) found)) (i ∷ is)

module _ (st : Store) (ids : List ℕ) (rows : List Evidence)
    (loaded : load_cited_evidence st ids ≡ ok rows) where
  -- What holds of a loaded row holds of a row of the investigation that the ids name.
  any-loaded :
      (p : Evidence → Bool)
      → any p rows ≡ true
      → any (λ e. cites st.investigation_id ids e && p e) st.session.evidence ≡ true
  any-loaded p h =
      let found = (load_cited-eq-ok st ids rows loaded).0 in
      let step = any-select p (λ e. contains e.id ids) (own st.investigation_id st.session) in
      let step' =
        any-select (λ e. contains e.id ids && p e) (λ e. e.investigation_id == st.investigation_id)
          st.session.evidence in
      any_imp (λ e. e.investigation_id == st.investigation_id && (contains e.id ids && p e)) _
        (λ e k. ground arith) st.session.evidence (sym step' ∙ sym step ∙ rw found at h)

  pub known_of_loaded :
      All
        (λ i.
          any (λ e. e.investigation_id == st.investigation_id && e.id == i) st.session.evidence
          ≡ true)
        ids
  known_of_loaded =
      All_mono (λ j. any (λ e. e.id == j) rows ≡ true) _
        (λ j h.
          any_imp _ _ (λ e k. ground arith) st.session.evidence (any-loaded (λ e. e.id == j) h))
        ids (load_cited-eq-ok st ids rows loaded).1

any_some :
    (rows : List Evidence) (e : Evidence) (rest : List Evidence)
    → rows ≡ e ∷ rest
    → any (λ _. true) rows ≡ true
any_some rows e rest h = rw h refl

info_of_rank : (s : Severity) → ltb 0 (rank s) ≡ false → s ≡ info
info_of_rank info h = refl
info_of_rank _ h = cc

-- Passing G1 to G4 on the loaded rows is what the class asks of the tables.
module _ (st : Store) (draft : FindingDraft) (rows : List Evidence)
    (loaded : load_cited_evidence st draft.evidence_ids ≡ ok rows) where
  pub Supported-of_enforced :
      (c : AssertionClass)
      → enforce_grounding c draft rows ≡ ok tt
      → Supported c st.investigation_id draft.evidence_ids draft.reasoning draft.severity
          st.session.evidence
  unfolding enforce_grounding
  Supported-of_enforced fact h =
      any-loaded st draft.evidence_ids rows loaded (λ e. is_some e.tool_run_id) (ground arith)
  Supported-of_enforced inference h = elim (List-cases rows) [
    | inl e ↦ cc (rw (e, enforce_grounding) at h)
    | inr (x, rest, e) ↦ (
      any_imp _ _ (λ r k. ground arith) st.session.evidence
          (any-loaded st draft.evidence_ids rows loaded (λ _. true) (any_some rows x rest e)),
      let k = rw (e, enforce_grounding) at h in ground arith,
    )
  ]
  Supported-of_enforced AssertionClass.hypothesis h = ground arith
  Supported-of_enforced AssertionClass.unknown h = info_of_rank draft.severity (ground arith)
