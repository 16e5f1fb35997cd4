-- ===== src/Graph/Queries.antt =====
-- src/acip/core/graph/traversal.py: `get_full_graph` and `subgraph_for_finding`. The rows of a query
-- without an order are in the order of the table.
use Prim.Native.Nat.{min}
use agentic_cyber_investigat.Prelude.{
  ℕ, suc, ◌≡◌, refl, Bool, true, false, not, ◌&&◌, ◌||◌, List, [], ◌∷◌, map, length, take, select,
  any, contains, All, All-take, length-take, take-take, ltb, leb, ◌==◌, arith, Bool-cases, inl, inr,
}
use agentic_cyber_investigat.Prelude.Sort.{sort, All-sort, length-sort}
use agentic_cyber_investigat.Evidence.Rows.{Finding, FindingEvidence}
use agentic_cyber_investigat.Graph.{Entity, EntityEdge, GraphSubgraph, with_ids}

abbrev pub by_creation : EntityEdge → EntityEdge → Bool
by_creation a b = leb a.created_at b.created_at

-- The ids of both ends of each edge.
abbrev pub entity_ids : List EntityEdge → List ℕ
entity_ids [] = []
entity_ids (e ∷ es) = e.src_entity_id ∷ e.dst_entity_id ∷ entity_ids es

module _ (entities : List Entity) (table : List EntityEdge) (investigation : ℕ) where
  -- The entities of these ids.
  abbrev pub load_entities : List ℕ → List Entity
  load_entities ids = with_ids entities investigation ids

  abbrev pub own_edges : List EntityEdge
  own_edges = select (λ e. e.investigation_id == investigation) table

  -- The entities of the edges, or some of the isolated ones if there is no edge.
  abbrev pub loaded : ℕ → List EntityEdge → List Entity
  loaded cap [] = take cap (select (λ n. n.investigation_id == investigation) entities)
  loaded cap (e ∷ es) = load_entities (entity_ids (e ∷ es))

  unfoldable pub get_full_graph : ℕ → GraphSubgraph
  unfolding sort
  get_full_graph limit =
      let cap = min limit 1000 in
      let edge_rows = take (suc cap) (sort by_creation own_edges) in
      record {
        entities = loaded cap (take cap edge_rows);
        edges = take cap edge_rows;
        truncated = ltb cap (length edge_rows);
      }

  abbrev pub cited_by : List Finding → List FindingEvidence → ℕ → List ℕ
  cited_by findings citations finding_id =
      let cited = map (λ c. c.evidence_id) (select (λ c. c.finding_id == finding_id) citations) in
      elim cited [
        | i ∷ is ↦ i ∷ is
        | [] ↦ elim (select (λ f. f.id == finding_id) findings) [
          | [] ↦ []
          | f ∷ fs ↦ f.evidence_ids
        ]
      ]

  abbrev pub backed_by : List ℕ → ℕ → GraphSubgraph
  backed_by [] limit = record { entities = []; edges = []; truncated = false }
  backed_by (i ∷ is) limit =
      let edges = take limit (select (λ e. contains e.evidence_id (i ∷ is)) own_edges) in
      record {
        entities = load_entities (entity_ids edges);
        edges = edges;
        truncated = leb limit (length edges);
      }

  unfoldable pub subgraph_for_finding : List Finding → List FindingEvidence → ℕ → ℕ → GraphSubgraph
  subgraph_for_finding findings citations finding_id limit =
      backed_by (cited_by findings citations finding_id) limit

-- The investigation has an entity of this id.
abbrev pub exists : List Entity → ℕ → ℕ → Bool
exists entities investigation id =
    any (λ n. n.investigation_id == investigation && n.id == id) entities

-- The foreign keys of the edge, if it belongs to the investigation.
abbrev pub HasEnds : List Entity → ℕ → EntityEdge → Type 0
HasEnds entities investigation e =
    (not (e.investigation_id == investigation)
      || (exists entities investigation e.src_entity_id
          && exists entities investigation e.dst_entity_id))
    ≡ true

abbrev HasBoth : List Entity → ℕ → EntityEdge → Type 0
HasBoth entities investigation e =
    (exists entities investigation e.src_entity_id ≡ true)
    × (exists entities investigation e.dst_entity_id ≡ true)

-- The graph holds both ends of the edge.
abbrev pub Closed : List Entity → EntityEdge → Type 0
Closed ns e =
    (any (λ n. n.id == e.src_entity_id) ns ≡ true) × (any (λ n. n.id == e.dst_entity_id) ns ≡ true)

own_edges-HasBoth :
    (entities : List Entity) (investigation : ℕ) (table : List EntityEdge)
    → All (HasEnds entities investigation) table
    → All (HasBoth entities investigation) (own_edges entities table investigation)
own_edges-HasBoth entities investigation [] h = tt
own_edges-HasBoth entities investigation (e ∷ es) h =
    let rest = own_edges-HasBoth entities investigation es h.1 in
    elim (Bool-cases (e.investigation_id == investigation)) [
      | inl own ↦ let both = h.0 in rw own ((ground arith, ground arith), rest)
      | inr other ↦ rw other rest
    ]

any-load_entities :
    (entities : List Entity) (investigation id : ℕ) (ids : List ℕ)
    → contains id ids ≡ true
    → any (λ n. n.investigation_id == investigation && n.id == id) entities ≡ true
    → any
        (λ n. n.id == id)
        (select (λ n. n.investigation_id == investigation && contains n.id ids) entities)
      ≡ true
any-load_entities [] investigation id ids listed exists = exists
any-load_entities (n ∷ entities) investigation id ids listed exists =
    elim (Bool-cases (n.investigation_id == investigation && contains n.id ids)) [
      | inl both ↦ elim (Bool-cases (n.id == id)) [
        | inl same ↦ rw (both, same) refl
        | inr other ↦
            rw (both, other) (any-load_entities entities investigation id ids listed (ground arith))
      ]
      | inr not_both ↦ elim (Bool-cases (n.investigation_id == investigation && n.id == id)) [
        | inl here ↦
            let same : n.id ≡ id = ground arith in
            let listed' : contains n.id ids ≡ true = rw same listed in absurd (ground arith)
        | inr later ↦
            rw not_both
              (any-load_entities entities investigation id ids listed (rw later at exists))
      ]
    ]

-- What the ids of the edges load closes the edges.
load_entities-Closed :
    (entities : List Entity) (table : List EntityEdge) (investigation : ℕ) (ids : List ℕ)
    (es : List EntityEdge)
    → ((id : ℕ) → contains id (entity_ids es) ≡ true → contains id ids ≡ true)
    → All (HasBoth entities investigation) es
    → All (Closed (load_entities entities table investigation ids)) es
load_entities-Closed entities table investigation ids [] sub h = tt
load_entities-Closed entities table investigation ids (e ∷ es) sub h = (
  (
    any-load_entities entities investigation e.src_entity_id ids
        (sub e.src_entity_id (ground arith)) h.0.0,
    any-load_entities entities investigation e.dst_entity_id ids
        (sub e.dst_entity_id (ground arith)) h.0.1,
  ),
  load_entities-Closed entities table investigation ids es (λ id listed. sub id (ground arith)) h.1,
)

loaded-Closed :
    (entities : List Entity) (table : List EntityEdge) (investigation cap : ℕ)
    (es : List EntityEdge)
    → All (HasBoth entities investigation) es
    → All (Closed (loaded entities table investigation cap es)) es
loaded-Closed entities table investigation cap [] h = tt
loaded-Closed entities table investigation cap (e ∷ es) h =
    load_entities-Closed entities table investigation (entity_ids (e ∷ es)) (e ∷ es)
      (λ id listed. listed) h

module _ (entities : List Entity) (table : List EntityEdge) (investigation : ℕ) where
  -- The whole graph has the oldest edges of the investigation, `limit` and 1000 at most, says exactly
  -- whether there are more, and holds both ends of each of its edges. Each edge of the
  -- investigation has its ends.
  pub get_full_graph_lem :
      (limit : ℕ)
      → All (HasEnds entities investigation) table
      → ((get_full_graph entities table investigation limit).edges
          ≡ take (min limit 1000) (sort by_creation (own_edges entities table investigation)))
        × ((get_full_graph entities table investigation limit).truncated
            ≡ ltb (min limit 1000) (length (own_edges entities table investigation)))
        × All
            (Closed (get_full_graph entities table investigation limit).entities)
            (get_full_graph entities table investigation limit).edges
  unfolding get_full_graph
  get_full_graph_lem limit h =
      let cap = min limit 1000 in
      let rows = sort by_creation (own_edges entities table investigation) in
      let own = own_edges entities table investigation in
      let ended = All-take (HasBoth entities investigation) cap rows (
        All-sort by_creation (HasBoth entities investigation) own
          (own_edges-HasBoth entities investigation table h)) in
      rw (take-take cap rows) (
        refl,
        ground (
          arith,
          length-take (suc cap) rows,
          length-sort by_creation (own_edges entities table investigation),
        ),
        loaded-Closed entities table investigation cap (take cap rows) ended,
      )
