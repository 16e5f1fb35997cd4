-- ===== src/Graph/Paths.antt =====
-- src/acip/core/graph/traversal.py: `paths_between`, the paths from one entity to another by breadth.
pub mod Routes
pub mod Weights
pub mod Search
use Prim.Native.Nat.{min}
use agentic_cyber_investigat.Prelude.{
  ℕ, zero, suc, Bool, true, false, ◌&&◌, Option, none, some, List, [], ◌∷◌, ◌++◌, length, select,
  contains, if◌then◌else◌, leb, ◌==◌,
}
use agentic_cyber_investigat.Graph.{EntityEdge}

-- An entry of the queue; `visited` holds the entity last reached first.
pub record Partial : Type 0 where
  pub entity : ℕ
  pub path : List EntityEdge
  pub visited : List ℕ

pub record PathSearch : Type 0 where
  pub paths : List (List EntityEdge)
  pub queue : List Partial

abbrev pub out_edges : List EntityEdge → ℕ → ℕ → List EntityEdge
out_edges table investigation entity =
    select (λ e. e.investigation_id == investigation && e.src_entity_id == entity) table

abbrev pub step_along : Partial → EntityEdge → Partial
step_along p e = record {
  entity = e.dst_entity_id;
  path = p.path ++ e ∷ [];
  visited = e.dst_entity_id ∷ p.visited;
}

-- The loop over the edges that leave an entity, with its break at the cap.
pub follow : ℕ → ℕ → Partial → PathSearch → List EntityEdge → PathSearch
follow dst cap p s [] = s
follow dst cap p s (e ∷ es) =
    let found = record s { paths = s.paths ++ (p.path ++ e ∷ []) ∷ [] } in
    let after_found = follow dst cap p found es in
    let queued = follow dst cap p (record s { queue = s.queue ++ step_along p e ∷ [] }) es in
    let seen = follow dst cap p s es in
    if e.dst_entity_id == dst
    then (if leb cap (length found.paths) then found else after_found)
    else if contains e.dst_entity_id p.visited
    then seen
    else queued

module _ (table : List EntityEdge) (investigation : ℕ) where
  -- What is done with an entry that was taken off the queue.
  pub extend_path : ℕ → ℕ → ℕ → Partial → PathSearch → PathSearch
  unfolding follow
  extend_path dst bound cap p s =
      if leb bound (length p.path)
      then s
      else follow dst cap p s (out_edges table investigation p.entity)

  pub enumerate : ℕ → ℕ → ℕ → ℕ → PathSearch → Option (List (List EntityEdge))
  unfolding extend_path
  enumerate dst bound cap zero s = none
  enumerate dst bound cap (suc fuel) s = elim s.queue [
    | [] ↦ some s.paths
    | p ∷ rest ↦
        let more =
          enumerate dst bound cap fuel (extend_path dst bound cap p (record s { queue = rest })) in
        if leb cap (length s.paths) then some s.paths else more
  ]

  abbrev pub first_partial : ℕ → Partial
  first_partial src = record { entity = src; path = []; visited = src ∷ [] }

  unfoldable pub paths_between : ℕ → ℕ → ℕ → ℕ → ℕ → Option (List (List EntityEdge))
  unfolding enumerate
  paths_between fuel src dst max_depth limit =
      let found =
        enumerate dst (min max_depth 6) (min limit 50) fuel
          (record { paths = []; queue = first_partial src ∷ [] }) in
      if src == dst then some [] else found
