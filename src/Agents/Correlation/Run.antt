-- ===== src/Agents/Correlation/Run.antt =====
-- The rest of `run` of src/acip/agents/correlation.py: the citations of the findings, which the unique key
-- of the table allows once, and the finding that sums the graph up.
use Prim.Native.String.{◌++◌ as ◌+++◌}
use agentic_cyber_investigat.Prelude.{
  ℕ, suc, ◌-◌, ◌≡◌, refl, ◌∙◌, String, Bool, true, false, ◌&&◌, ◌||◌, Option, none, some, List, [],
  ◌∷◌, ◌++◌, map, length, take, any, any-append, select, All, if◌then◌else◌, ltb, leb, ◌==◌, arith,
  Bool-cases, inl, inr,
}
use agentic_cyber_investigat.Prelude.Sort.{sort}
use agentic_cyber_investigat.Prelude.Result.{Result, ok, ◌>>=◌}
use agentic_cyber_investigat.Prelude.Text.{show}
use agentic_cyber_investigat.Types.{AssertionClass, Severity, EvidenceRole, supports, contradicts}
use agentic_cyber_investigat.Evidence.Contracts.{FindingDraft, Platform}
use agentic_cyber_investigat.Evidence.Rows.{Evidence, Finding, FindingEvidence, Session, StoreError}
use agentic_cyber_investigat.Evidence.Store.{Store}
use agentic_cyber_investigat.Evidence.Findings.{add_finding}
use agentic_cyber_investigat.Graph.{Entity}
use agentic_cyber_investigat.Agents.Correlation.{DataReader}
use agentic_cyber_investigat.Agents.Correlation.Upserts.{EntityGraph, correlate}

abbrev is_supports : EvidenceRole → Bool
is_supports supports = true
is_supports contradicts = false

-- The citation of a piece of evidence for a finding.
abbrev pub is_citation : ℕ → ℕ → FindingEvidence → Bool
is_citation finding_id evidence_id c =
    c.finding_id == finding_id && (c.evidence_id == evidence_id && is_supports c.role)

module _ (env : Platform) where
  abbrev pub cite : ℕ → ℕ → Session → Session
  cite finding_id evidence_id s =
      if any (is_citation finding_id evidence_id) s.finding_evidence then s else record s {
        finding_evidence =
            s.finding_evidence
            ++ (record {
              id = env.uuid4 s.drawn;
              finding_id = finding_id;
              evidence_id = evidence_id;
              role = supports;
              created_at = env.utcnow s.drawn;
            })
              ∷ [];
        drawn = suc s.drawn;
      }

  pub cite_ids : ℕ → List ℕ → Session → Session
  cite_ids finding_id [] s = s
  cite_ids finding_id (i ∷ is) s = cite_ids finding_id is (cite finding_id i s)

  pub cite_all : List Finding → Session → Session
  unfolding cite_ids
  cite_all [] s = s
  cite_all (f ∷ fs) s = cite_all fs (cite_ids f.id f.evidence_ids s)

  -- The most observed entities first.
  abbrev by_count : Entity → Entity → Bool
  by_count a b = leb b.observation_count a.observation_count

  entity_summary : List Entity → String
  unfolding show
  entity_summary [] = ""
  entity_summary (n ∷ []) =
      n.type +++ ":" +++ n.value_normalized +++ " (" +++ show n.observation_count +++ "x)"
  entity_summary (n ∷ m ∷ ns) =
      n.type
      +++ ":"
      +++ n.value_normalized
      +++ " ("
      +++ show n.observation_count
      +++ "x), "
      +++ entity_summary (m ∷ ns)

  correlation_draft : List Evidence → List Entity → ℕ → ℕ → FindingDraft
  unfolding entity_summary sort show
  correlation_draft rows entities edges new_edges = record {
    title = "Cross-Source Evidence Graph Correlation";
    description =
        "Resolved "
        +++ show (length entities)
        +++ " canonical entities and "
        +++ show edges
        +++ " relational edges across "
        +++ show (length rows)
        +++ " evidence observations. Key correlated entities: "
        +++ entity_summary (take 5 (sort by_count entities))
        +++ ".";
    assertion_class = AssertionClass.inference;
    severity = Severity.info;
    confidence = 100;
    evidence_ids = map (λ e. e.id) (take 5 rows);
    reasoning = some (
        "Deterministic graph correlation derived "
        +++ show new_edges
        +++ " new edge(s) connecting entities across authentication, network, and web telemetry.");
    detection_rule = some "correlation.graph_construction";
  }

  -- The graph and the store afterwards, and the finding if there is one.
  unfoldable pub run_correlation :
      DataReader
      → List Evidence
      → Option ℕ
      → EntityGraph
      → Store
      → Result StoreError (EntityGraph × Store × Option Finding)
  unfolding cite_all correlation_draft correlate
  run_correlation view rows agent_run_id g st =
      let investigation = st.investigation_id in
      let after = correlate env view investigation rows g in
      let entities = select (λ n. n.investigation_id == investigation) after.entities in
      let edges = length (select (λ e. e.investigation_id == investigation) after.edges) in
      let new_edges = length after.edges - length g.edges in
      let findings = select (λ f. f.investigation_id == investigation) st.session.findings in
      let cited : Store = record st { session = cite_all findings st.session } in
      if ltb 0 (length rows) && (ltb 0 (length entities) || ltb 0 new_edges)
      then add_finding env cited (correlation_draft rows entities edges new_edges) agent_run_id
        >>= (λ (finding, written). ok (after, written, some finding))
      else ok (after, cited, none)

  abbrev pub Cites : List FindingEvidence → ℕ → ℕ → Type 0
  Cites links finding_id evidence_id = any (is_citation finding_id evidence_id) links ≡ true

  cite-Cites : (f i : ℕ) (s : Session) → Cites (cite f i s).finding_evidence f i
  cite-Cites f i s = elim (Bool-cases (any (is_citation f i) s.finding_evidence)) [
    | inl old ↦ rw (old, old) refl
    | inr new ↦ rw new (any-append (is_citation f i) s.finding_evidence _ ∙ ground arith)
  ]

  cite-keeps :
      (f i g j : ℕ) (s : Session)
      → Cites s.finding_evidence g j
      → Cites (cite f i s).finding_evidence g j
  cite-keeps f i g j s h = elim (Bool-cases (any (is_citation f i) s.finding_evidence)) [
    | inl old ↦ rw old h
    | inr new ↦ rw (new, any-append (is_citation g j) s.finding_evidence, h) refl
  ]

  cite_ids-keeps :
      (f : ℕ) (is : List ℕ) (g j : ℕ) (s : Session)
      → Cites s.finding_evidence g j
      → Cites (cite_ids f is s).finding_evidence g j
  unfolding cite_ids
  cite_ids-keeps f [] g j s h = h
  cite_ids-keeps f (i ∷ is) g j s h = cite_ids-keeps f is g j (cite f i s) (cite-keeps f i g j s h)

  cite_ids-Cites :
      (f : ℕ) (is : List ℕ) (s : Session) → All (Cites (cite_ids f is s).finding_evidence f) is
  unfolding cite_ids
  cite_ids-Cites f [] s = tt
  cite_ids-Cites f (i ∷ is) s =
      (cite_ids-keeps f is f i (cite f i s) (cite-Cites f i s), cite_ids-Cites f is (cite f i s))

  cite_all-keeps :
      (fs : List Finding) (g j : ℕ) (s : Session)
      → Cites s.finding_evidence g j
      → Cites (cite_all fs s).finding_evidence g j
  unfolding cite_all
  cite_all-keeps [] g j s h = h
  cite_all-keeps (f ∷ fs) g j s h =
      cite_all-keeps fs g j _ (cite_ids-keeps f.id f.evidence_ids g j s h)

  All_cited :
      (f : ℕ) (is : List ℕ) (fs : List Finding) (s : Session)
      → All (Cites s.finding_evidence f) is
      → All (Cites (cite_all fs s).finding_evidence f) is
  All_cited f [] fs s h = tt
  All_cited f (i ∷ is) fs s h = (cite_all-keeps fs f i s h.0, All_cited f is fs s h.1)

  cited_each :
      (fs : List Finding) (s : Session)
      → All (λ f. All (Cites (cite_all fs s).finding_evidence f.id) f.evidence_ids) fs
  unfolding cite_all
  cited_each [] s = tt
  cited_each (f ∷ fs) s =
      let next = cite_ids f.id f.evidence_ids s in
      (
        All_cited f.id f.evidence_ids fs next (cite_ids-Cites f.id f.evidence_ids s),
        cited_each fs next,
      )

  -- Each piece of evidence that one of the findings names is cited for it afterwards, and every citation
  -- that stood before still stands.
  pub cite_all-Cites :
      (fs : List Finding) (s : Session)
      → All (λ f. All (Cites (cite_all fs s).finding_evidence f.id) f.evidence_ids) fs
        × ((g j : ℕ) → Cites s.finding_evidence g j → Cites (cite_all fs s).finding_evidence g j)
  cite_all-Cites fs s = (cited_each fs s, λ g j h. cite_all-keeps fs g j s h)
