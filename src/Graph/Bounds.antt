-- ===== src/Graph/Bounds.antt =====
-- The end of the search of src/acip/core/graph/traversal.py and what it collects.
use Prim.Native.Nat.{min}
use agentic_cyber_investigat.Prelude.{
  ℕ, zero, suc, ◌+◌, ◌-◌, ◌≤◌, ◌<◌, ◌≡◌, ◌⊎◌, refl, ap, ◌∙◌, subst, true, false, ◌&&◌, some, List,
  [], ◌∷◌, length, contains, All, ltb, leb, ◌==◌, arith, Bool-cases, List-cases, inl, inr,
}
use agentic_cyber_investigat.Graph.{
  EntityEdge, touches, adjacent, Search, expand, search, begin_at, Entity, GraphSubgraph, with_ids,
  neighbours,
}
use agentic_cyber_investigat.Graph.Scan.{Ends, Seen, Frugal, Open, contains-first, scan-Frugal}

adjacent-touches :
    (table : List EntityEdge) (investigation entity : ℕ)
    → All (λ e. touches entity e ≡ true) (adjacent table investigation entity)
adjacent-touches [] investigation entity = tt
adjacent-touches (e ∷ table) investigation entity =
    elim (Bool-cases (e.investigation_id == investigation && touches entity e)) [
      | inl p ↦ rw p (ground arith, adjacent-touches table investigation entity)
      | inr p ↦ rw p (adjacent-touches table investigation entity)
    ]

module _ (table : List EntityEdge) (investigation bound cap : ℕ) where
  search-next :
      (fuel entity depth : ℕ) (s : Search) (rest : List (ℕ × ℕ))
      → s.queue ≡ (entity, depth) ∷ rest
      → ltb (length s.collected_edges) cap ≡ true
      → search table investigation bound cap (suc fuel) s
        ≡ search table investigation bound cap fuel
            (expand table investigation bound cap entity depth (record s { queue = rest }))
  unfolding search
  search-next fuel entity depth s rest next room = rw (next, room, search) refl

  search-stop :
      (fuel : ℕ) (s : Search)
      → (s.queue ≡ []) ⊎ (ltb (length s.collected_edges) cap ≡ false)
      → search table investigation bound cap (suc fuel) s ≡ some s
  unfolding search
  search-stop fuel s (inl e) = simp (e, search)
  search-stop fuel s (inr e) = elim (List-cases s.queue) [
    | inl q ↦ simp (q, search)
    | inr (x, rest, q) ↦ simp (q, e, search)
  ]

  expand-Frugal :
      (entity depth : ℕ) (s : Search)
      → contains entity s.visited_entities ≡ true
      → Open cap s
      → Frugal cap s (expand table investigation bound cap entity depth s)
  expand-Frugal entity depth s here h = elim (Bool-cases (leb bound depth)) [
    | inl e ↦ rw e (record {
      cost = omega arith;
      bound = (let r = h.room in omega arith);
      closed = inr h.ends;
      seen = h.seen;
    })
    | inr e ↦ rw e (
        scan-Frugal cap entity depth s (adjacent table investigation entity) here
          (adjacent-touches table investigation entity) h)
  ]

  not_full :
      (s : Search)
      → length s.collected_edges < cap
      → (cap ≤ length s.collected_edges) ⊎ All (Ends s.visited_entities) s.collected_edges
      → All (Ends s.visited_entities) s.collected_edges
  not_full s less (inl full) = absurd (omega arith)
  not_full s less (inr ends) = ends

  search-some :
      (fuel : ℕ) (s : Search)
      → length s.collected_edges ≤ cap
      → (cap ≤ length s.collected_edges) ⊎ All (Ends s.visited_entities) s.collected_edges
      → All (Seen s.visited_entities) s.queue
      → length s.queue + (cap - length s.collected_edges) < fuel
      → (t : Search) × (search table investigation bound cap fuel s ≡ some t)
        × (length t.collected_edges ≤ cap)
        × ((cap ≤ length t.collected_edges) ⊎ All (Ends t.visited_entities) t.collected_edges)
  search-some zero s few closed seen enough = absurd (omega arith)
  search-some (suc fuel) s few closed seen enough = elim (List-cases s.queue) [
    | inl e ↦ (s, search-stop fuel s (inl e), few, closed)
    | inr ((entity, depth), rest, e) ↦ elim (Bool-cases (ltb (length s.collected_edges) cap)) [
      | inr full ↦ (s, search-stop fuel s (inr full), few, closed)
      | inl room ↦
          let less : length s.collected_edges < cap = ground arith in
          let popped : Search = record s { queue = rest } in
          let seen' = subst (All (Seen s.visited_entities)) e seen in
          let opened : Open cap popped = record {
            room = less;
            ends = not_full s less closed;
            seen = seen'.1;
          } in
          let kept = expand-Frugal entity depth popped seen'.0 opened in
          let cost = kept.cost in
          let queued : length s.queue ≡ suc (length rest) = ap length e in
          let (t, found, few', closed') =
            search-some fuel (expand table investigation bound cap entity depth popped) kept.bound
              kept.closed kept.seen (omega arith) in
          (t, search-next fuel entity depth s rest e room ∙ found, few', closed')
    ]
  ]

neighbours-search :
    (entities : List Entity) (table : List EntityEdge)
    (investigation fuel start_entity max_depth limit : ℕ) (s : Search)
    → search table investigation (min max_depth 6) (min limit 1000) fuel (begin_at start_entity)
      ≡ some s
    → neighbours entities table investigation fuel start_entity max_depth limit
      ≡ some (record {
        entities = with_ids entities investigation s.visited_entities;
        edges = s.collected_edges;
        truncated = leb (min limit 1000) (length s.collected_edges);
      })
unfolding neighbours
neighbours-search entities table investigation fuel start_entity max_depth limit s found =
    rw (found, neighbours) refl

-- One round for each edge that the cap allows and two more are enough for `neighbours`, whatever the
-- graph, its cycles included. It returns at most `limit` and at most 1000 edges, and the entities of the
-- investigation with the ids that it visited; where it does not report a cut, both ends of every edge that
-- it returns are among those ids.
pub neighbours_lem :
    (entities : List Entity) (table : List EntityEdge)
    (investigation fuel start_entity max_depth limit : ℕ)
    → min limit 1000 + 2 ≤ fuel
    → (n : GraphSubgraph) × (visited : List ℕ) × (neighbours entities table investigation fuel
          start_entity max_depth limit
        ≡ some n)
      × (length n.edges ≤ min limit 1000)
      × (n.entities ≡ with_ids entities investigation visited)
      × ((n.truncated ≡ true) ⊎ All (Ends visited) n.edges)
neighbours_lem entities table investigation fuel start_entity max_depth limit enough =
    let cap = min limit 1000 in
    let (s, found, few, closed) =
      search-some table investigation (min max_depth 6) cap fuel (begin_at start_entity)
        (omega arith) (inr tt) (contains-first start_entity [], tt) (omega arith) in
    let flag =
      elim closed
        as (λ c.
          (leb cap (length s.collected_edges) ≡ true)
          ⊎ All (Ends s.visited_entities) s.collected_edges) [
            | inl full ↦ inl (ground arith)
            | inr ends ↦ inr ends
          ] in
    (
      record {
        entities = with_ids entities investigation s.visited_entities;
        edges = s.collected_edges;
        truncated = leb cap (length s.collected_edges);
      },
      s.visited_entities,
      neighbours-search entities table investigation fuel start_entity max_depth limit s found,
      few,
      refl,
      flag,
    )
