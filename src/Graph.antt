-- ===== src/Graph.antt =====
-- src/acip/core/graph/traversal.py: `neighbours`, the bounded search from an entity. Ids are numbers,
-- and two edge rows are the same where id and ends are.
pub mod Scan
pub mod Bounds
pub mod Paths
pub mod Queries
mod Examples
use Prim.Native.Nat.{min}
use agentic_cyber_investigat.Prelude.{
  ℕ, zero, suc, ◌+◌, String, Bool, true, false, ◌&&◌, ◌||◌, Option, none, some, List, [], ◌∷◌, ◌++◌,
  length, any, select, contains, if◌then◌else◌, ltb, leb, ◌==◌,
}

pub record Entity : Type 0 where
  pub id : ℕ
  pub investigation_id : ℕ
  pub type : String
  pub value_normalized : String
  pub value_raw_first_seen : String
  pub first_seen_at : Option ℕ
  pub last_seen_at : Option ℕ
  pub observation_count : ℕ

pub record EntityEdge : Type 0 where
  pub id : ℕ
  pub investigation_id : ℕ
  pub src_entity_id : ℕ
  pub dst_entity_id : ℕ
  pub relation : String
  pub evidence_id : ℕ
  pub observed_at : Option ℕ
  pub confidence : ℕ
  pub created_at : ℕ

abbrev pub same_edge : EntityEdge → EntityEdge → Bool
same_edge e f =
    e.id == f.id && e.src_entity_id == f.src_entity_id && e.dst_entity_id == f.dst_entity_id

abbrev pub touches : ℕ → EntityEdge → Bool
touches entity e = e.src_entity_id == entity || e.dst_entity_id == entity

-- The edges of the investigation at an entity.
abbrev pub adjacent : List EntityEdge → ℕ → ℕ → List EntityEdge
adjacent table investigation entity =
    select (λ e. e.investigation_id == investigation && touches entity e) table

abbrev pub other_end : ℕ → EntityEdge → ℕ
other_end entity e = if e.src_entity_id == entity then e.dst_entity_id else e.src_entity_id

-- The state of the search; the queue holds entities with their depths.
pub record Search : Type 0 where
  pub visited_entities : List ℕ
  pub collected_edges : List EntityEdge
  pub queue : List (ℕ × ℕ)

abbrev pub visit : ℕ → ℕ → Search → Search
visit entity depth s = if contains entity s.visited_entities then s else record s {
  visited_entities = entity ∷ s.visited_entities;
  queue = s.queue ++ (entity, depth) ∷ [];
}

-- The loop over the edges at `entity`, with its break at the cap.
unfoldable pub scan : ℕ → ℕ → ℕ → Search → List EntityEdge → Search
scan cap entity depth s [] = s
scan cap entity depth s (e ∷ es) =
    let collected = record s { collected_edges = s.collected_edges ++ e ∷ [] } in
    let known = scan cap entity depth (visit (other_end entity e) (depth + 1) s) es in
    let added = scan cap entity depth (visit (other_end entity e) (depth + 1) collected) es in
    if any (same_edge e) s.collected_edges
    then known
    else if leb cap (length collected.collected_edges)
    then collected
    else added

-- What is done with an entity that was taken off the queue.
abbrev pub expand : List EntityEdge → ℕ → ℕ → ℕ → ℕ → ℕ → Search → Search
expand table investigation bound cap entity depth s =
    if leb bound depth then s else scan cap entity depth s (adjacent table investigation entity)

unfoldable pub search : List EntityEdge → ℕ → ℕ → ℕ → ℕ → Search → Option Search
search table investigation bound cap zero s = none
search table investigation bound cap (suc fuel) s = elim s.queue [
  | [] ↦ some s
  | (entity, depth) ∷ rest ↦
      let next = expand table investigation bound cap entity depth (record s { queue = rest }) in
      let more = search table investigation bound cap fuel next in
      if ltb (length s.collected_edges) cap then more else some s
]

abbrev pub begin_at : ℕ → Search
begin_at entity = record {
  visited_entities = entity ∷ [];
  collected_edges = [];
  queue = (entity, 0) ∷ [];
}

pub record GraphSubgraph : Type 0 where
  pub entities : List Entity
  pub edges : List EntityEdge
  pub truncated : Bool

-- The rows of the investigation's entities with these ids.
abbrev pub with_ids : List Entity → ℕ → List ℕ → List Entity
with_ids entities investigation ids =
    select (λ n. n.investigation_id == investigation && contains n.id ids) entities

unfoldable pub neighbours : List Entity → List EntityEdge → ℕ → ℕ → ℕ → ℕ → ℕ → Option GraphSubgraph
unfolding search
neighbours entities table investigation fuel start_entity max_depth limit =
    let cap = min limit 1000 in
    elim (search table investigation (min max_depth 6) cap fuel (begin_at start_entity)) [
      | none ↦ none
      | some s ↦ some (record {
        entities = with_ids entities investigation s.visited_entities;
        edges = s.collected_edges;
        truncated = leb cap (length s.collected_edges);
      })
    ]
