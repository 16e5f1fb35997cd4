-- ===== src/Graph/Examples.antt =====
-- The neighbours in a triangle with a tail.
use Prim.Native.Nat.{min}
use agentic_cyber_investigat.Prelude.{
  ℕ, ◌≤◌, ◌<◌, ◌≡◌, ◌⊎◌, refl, true, false, none, some, List, [], ◌∷◌, length, take, ltb, All,
  arith,
}
use agentic_cyber_investigat.Prelude.Sort.{sort}
use agentic_cyber_investigat.Graph.{
  Entity, EntityEdge, GraphSubgraph, with_ids, scan, search, neighbours,
}
use agentic_cyber_investigat.Graph.Scan.{Ends}
use agentic_cyber_investigat.Graph.Bounds.{neighbours_lem}
use agentic_cyber_investigat.Graph.Paths.{paths_between}
use agentic_cyber_investigat.Graph.Paths.Routes.{IsRoute}
use agentic_cyber_investigat.Graph.Paths.Weights.{walks}
use agentic_cyber_investigat.Graph.Paths.Search.{paths_between_lem}
use agentic_cyber_investigat.Graph.Queries.{
  by_creation, own_edges, HasEnds, Closed, get_full_graph, subgraph_for_finding, get_full_graph_lem,
}

abbrev edge : ℕ → ℕ → ℕ → EntityEdge
edge id src dst = record {
  id = id;
  investigation_id = 1;
  src_entity_id = src;
  dst_entity_id = dst;
  relation = "CONTACTED";
  evidence_id = id;
  observed_at = none;
  confidence = 1;
  created_at = id;
}

abbrev table : List EntityEdge
table = edge 1 10 11 ∷ edge 2 11 12 ∷ edge 3 12 10 ∷ edge 4 12 13 ∷ []

abbrev entity : ℕ → Entity
entity id = record {
  id = id;
  investigation_id = 1;
  type = "ip";
  value_normalized = "10.0.0.1";
  value_raw_first_seen = "10.0.0.1";
  first_seen_at = none;
  last_seen_at = none;
  observation_count = 1;
}

abbrev entities : List Entity
entities = entity 10 ∷ entity 11 ∷ entity 12 ∷ entity 13 ∷ []

neighbours_runs :
    (neighbours entities table 1 10 10 1 9
      ≡ some (record {
        entities = entity 10 ∷ entity 11 ∷ entity 12 ∷ [];
        edges = edge 1 10 11 ∷ edge 3 12 10 ∷ [];
        truncated = false;
      }))
    × (neighbours entities table 1 10 10 2 1
        ≡ some (record { entities = entity 10 ∷ []; edges = edge 1 10 11 ∷ []; truncated = true }))
unfolding neighbours search scan
neighbours_runs = (refl, refl)

neighbours_lem_example :
    (n : GraphSubgraph) × (visited : List ℕ) × (neighbours entities table 1 11 10 2 9 ≡ some n)
    × (length n.edges ≤ min 9 1000)
    × (n.entities ≡ with_ids entities 1 visited)
    × ((n.truncated ≡ true) ⊎ All (Ends visited) n.edges)
neighbours_lem_example = neighbours_lem entities table 1 11 10 2 9 (omega arith)

paths_between_runs :
    (paths_between table 1 20 10 13 4 25
      ≡ some ((edge 1 10 11 ∷ edge 2 11 12 ∷ edge 4 12 13 ∷ []) ∷ []))
    × (paths_between table 1 20 10 13 2 25 ≡ some [])
    × (paths_between table 1 20 10 10 4 25 ≡ some [])
unfolding paths_between
paths_between_runs = (refl, refl, refl)

abbrev IsContact : EntityEdge → Type 0
IsContact e = e.relation ≡ "CONTACTED"

enough : walks (length table) (min 4 6) < 342
unfolding walks
enough = omega arith

paths_between_lem_example :
    (ps : List (List EntityEdge)) × (paths_between table 1 342 10 13 4 25 ≡ some ps)
    × (length ps ≤ min 25 50)
    × All (IsRoute IsContact table 1 10 13 (min 4 6) (min 25 50)) ps
paths_between_lem_example =
    paths_between_lem IsContact table 1 342 10 13 4 25 (refl, (refl, (refl, (refl, tt)))) enough

get_full_graph_runs :
    (get_full_graph entities table 1 2 ≡ record {
      entities = entity 10 ∷ entity 11 ∷ entity 12 ∷ [];
      edges = edge 1 10 11 ∷ edge 2 11 12 ∷ [];
      truncated = true;
    })
    × (get_full_graph entities table 2 2 ≡ record { entities = []; edges = []; truncated = false })
    × (subgraph_for_finding entities table 1 [] [] 5 2
        ≡ record { entities = []; edges = []; truncated = false })
unfolding get_full_graph subgraph_for_finding sort
get_full_graph_runs = (refl, refl, refl)

table-HasEnds : All (HasEnds entities 1) table
table-HasEnds = (refl, (refl, (refl, (refl, tt))))

get_full_graph_lem_example :
    ((get_full_graph entities table 1 2).edges
      ≡ take (min 2 1000) (sort by_creation (own_edges entities table 1)))
    × ((get_full_graph entities table 1 2).truncated
        ≡ ltb (min 2 1000) (length (own_edges entities table 1)))
    × All
        (Closed (get_full_graph entities table 1 2).entities)
        (get_full_graph entities table 1 2).edges
get_full_graph_lem_example = get_full_graph_lem entities table 1 2 table-HasEnds
