-- ===== src/Agents/Correlation/Upserts/Closure.antt =====
-- What src/acip/agents/correlation.py leaves in the tables, and the query of src/acip/core/graph/traversal.py
-- that reads them.
use agentic_cyber_investigat.Prelude.{
  ℕ, ◌≡◌, refl, ◌∙◌, true, ◌&&◌, Option, some, List, [], ◌∷◌, All, All_mono, none, All-append, any,
  ◌==◌, arith, Bool-cases, inl, inr,
}
use agentic_cyber_investigat.Evidence.Contracts.{EntityRef, Platform}
use agentic_cyber_investigat.Evidence.Rows.{Evidence}
use agentic_cyber_investigat.Graph.{Entity, EntityEdge}
use agentic_cyber_investigat.Graph.Queries.{
  exists, HasEnds, Closed, get_full_graph, get_full_graph_lem,
}
use agentic_cyber_investigat.Agents.Correlation.{
  DataReader, extract_entity_refs, Key, has_key, Link,
}
use agentic_cyber_investigat.Agents.Correlation.Links.{find_id, derive_edges_for_evidence, Joins}
use agentic_cyber_investigat.Agents.Correlation.Links.Joined.{derive_edges-AllJoin}
use agentic_cyber_investigat.Agents.Correlation.Upserts.Again.{
  with_link, linked-entities, resolve_rows-edges,
}
use agentic_cyber_investigat.Agents.Correlation.Upserts.{
  EntityGraph, observe, upsert, resolve_refs, resolve_rows, new_edge, same_key, add_links, link_all,
  correlate,
}

module _ (env : Platform) (view : DataReader) (investigation : ℕ) where
  -- The id of a key is that of an entity of the investigation.
  find_id-exists :
      (key : Key) (id : ℕ) (ns : List Entity)
      → find_id investigation key ns ≡ some id
      → exists ns investigation id ≡ true
  unfolding find_id
  find_id-exists key id [] h = cc
  find_id-exists key id (n ∷ ns) h = elim (Bool-cases (has_key investigation key n)) [
    | inl e ↦ let found : some n.id ≡ some id = rw e at h in ground arith
    | inr e ↦ let rest = find_id-exists key id ns (rw e at h) in ground arith
  ]

  observe-exists :
      (at_time : Option ℕ) (n : Entity) (ns : List Entity) (id : ℕ)
      → exists (observe at_time n ∷ ns) investigation id ≡ exists (n ∷ ns) investigation id
  observe-exists none n ns id = refl
  observe-exists (some t) n ns id = refl

  upsert-exists :
      (fresh : Entity) (key : Key) (at_time : Option ℕ) (id : ℕ) (ns : List Entity)
      → exists ns investigation id ≡ true
      → exists (upsert env view investigation fresh key at_time ns) investigation id ≡ true
  unfolding upsert
  upsert-exists fresh key at_time id [] h = cc
  upsert-exists fresh key at_time id (n ∷ ns) h = elim (Bool-cases (has_key investigation key n)) [
    | inl e ↦ rw e (observe-exists at_time n ns id ∙ h)
    | inr e ↦ elim (Bool-cases (n.investigation_id == investigation && n.id == id)) [
      | inl here ↦ rw (e, here) refl
      | inr later ↦ rw (e, later) (upsert-exists fresh key at_time id ns (rw later at h))
    ]
  ]

  resolve_refs-exists :
      (at_time : Option ℕ) (rs : List EntityRef) (g : EntityGraph) (id : ℕ)
      → exists g.entities investigation id ≡ true
      → exists (resolve_refs env view investigation at_time rs g).entities investigation id ≡ true
  unfolding resolve_refs
  resolve_refs-exists at_time [] g id h = h
  resolve_refs-exists at_time (r ∷ rs) g id h =
      resolve_refs-exists at_time rs _ id (upsert-exists _ _ at_time id g.entities h)

  resolve_rows-exists :
      (rows : List Evidence) (g : EntityGraph) (id : ℕ)
      → exists g.entities investigation id ≡ true
      → exists (resolve_rows env view investigation rows g).entities investigation id ≡ true
  unfolding resolve_rows
  resolve_rows-exists [] g id h = h
  resolve_rows-exists (e ∷ es) g id h =
      resolve_rows-exists es _ id
        (resolve_refs-exists e.observed_at (extract_entity_refs env view e) g id h)

  resolve_rows-HasEnds :
      (rows : List Evidence) (g : EntityGraph) (e : EntityEdge)
      → HasEnds g.entities investigation e
      → HasEnds (resolve_rows env view investigation rows g).entities investigation e
  resolve_rows-HasEnds rows g e h =
      let src = resolve_rows-exists rows g e.src_entity_id in
      let dst = resolve_rows-exists rows g e.dst_entity_id in ground arith

  -- The entities are fixed while the edges are drawn.
  module _ (ns : List Entity) where
    abbrev id_in : Key → Option ℕ
    id_in key = find_id investigation key ns

    with_link-HasEnds :
        (e : Evidence) (l : Link) (g : EntityGraph)
        → Joins env view id_in l
        → All (HasEnds ns investigation) g.edges
        → All (HasEnds ns investigation) (with_link env view investigation e l g).edges
    with_link-HasEnds e l g ((from, p), (to, q)) h =
        let edge = new_edge env view investigation (env.uuid4 g.drawn) (env.utcnow g.drawn) e l in
        let src = find_id-exists from l.src ns p in
        let dst = find_id-exists to l.dst ns q in
        let ended : HasEnds ns investigation edge = ground arith in
        elim (Bool-cases (any (same_key env view investigation edge) g.edges)) [
          | inl old ↦ rw old h
          | inr new ↦
              rw new (All-append (HasEnds ns investigation) g.edges (edge ∷ []) h (ended, tt))
        ]

    add_links-HasEnds :
        (e : Evidence) (ls : List Link) (g : EntityGraph)
        → All (Joins env view id_in) ls
        → All (HasEnds ns investigation) g.edges
        → All (HasEnds ns investigation) (add_links env view investigation e ls g).edges
    unfolding add_links
    add_links-HasEnds e [] g joined h = h
    add_links-HasEnds e (l ∷ ls) g joined h =
        add_links-HasEnds e ls (with_link env view investigation e l g) joined.1
          (with_link-HasEnds e l g joined.0 h)

    link_all-HasEnds :
        (rows : List Evidence) (g : EntityGraph)
        → All (HasEnds ns investigation) g.edges
        → All (HasEnds ns investigation) (link_all env view investigation id_in rows g).edges
    unfolding link_all
    link_all-HasEnds [] g h = h
    link_all-HasEnds (e ∷ es) g h = link_all-HasEnds es _ (
        add_links-HasEnds e (derive_edges_for_evidence env view id_in e) g
          (derive_edges-AllJoin env view id_in e) h)

  correlate-HasEnds :
      (rows : List Evidence) (g : EntityGraph)
      → All (HasEnds g.entities investigation) g.edges
      → All
          (HasEnds (correlate env view investigation rows g).entities investigation)
          (correlate env view investigation rows g).edges
  unfolding correlate
  correlate-HasEnds rows g h =
      let resolved = resolve_rows env view investigation rows g in
      let ns = resolved.entities in
      let kept : All (HasEnds ns investigation) g.edges =
        All_mono (HasEnds g.entities investigation) (HasEnds ns investigation)
          (resolve_rows-HasEnds rows g) g.edges h in
      let unchanged = resolve_rows-edges env view investigation rows g in
      let begun : All (HasEnds ns investigation) resolved.edges = rw unchanged kept in
      rw (linked-entities env view investigation (id_in ns) rows resolved)
        (link_all-HasEnds ns rows resolved begun)

  -- If every edge of the investigation has its ends among the entities, this still holds after the evidence
  -- was correlated, and the whole graph that is then read holds both ends of each of its edges.
  pub correlate-Closed :
      (rows : List Evidence) (g : EntityGraph) (limit : ℕ)
      → All (HasEnds g.entities investigation) g.edges
      → let after = correlate env view investigation rows g in
        let graph = get_full_graph after.entities after.edges investigation limit in
        All (HasEnds after.entities investigation) after.edges
        × All (Closed graph.entities) graph.edges
  correlate-Closed rows g limit h =
      let after = correlate env view investigation rows g in
      let ended = correlate-HasEnds rows g h in
      let (oldest, cut, closed) =
        get_full_graph_lem after.entities after.edges investigation limit ended in
      (ended, closed)
