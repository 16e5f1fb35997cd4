-- ===== src/Graph/Paths/Search.antt =====
-- The search of `paths_between` of src/acip/core/graph/traversal.py: how long it takes, and what it finds.
use Prim.Native.Nat.{min}
use agentic_cyber_investigat.Prelude.{
  ℕ, zero, suc, ◌+◌, ◌-◌, ◌≤◌, ◌<◌, ◌≡◌, refl, ap, subst, ◌∙◌, false, some, List, [], ◌∷◌, length,
  All, leb, ◌==◌, arith, Bool-cases, List-cases, inl, inr,
}
use agentic_cyber_investigat.Graph.{EntityEdge}
use agentic_cyber_investigat.Graph.Paths.{
  Partial, PathSearch, extend_path, enumerate, first_partial, paths_between,
}
use agentic_cyber_investigat.Graph.Paths.Routes.{IsRoute}
use agentic_cyber_investigat.Graph.Paths.Weights.{
  walks, cost, total_cost, Sound, Partly, Route, extend_path-Sound,
}

module _ (P : EntityEdge → Type 0) (table : List EntityEdge)
    (investigation src dst bound cap : ℕ) where
  abbrev IsSound : ℕ → PathSearch → Type 0
  IsSound = Sound P table investigation src dst bound cap

  abbrev weight : List Partial → ℕ
  weight = total_cost P table investigation src dst bound cap

  abbrev weight_of : Partial → ℕ
  weight_of = cost P table investigation src dst bound cap

  enumerate-next :
      (fuel : ℕ) (p : Partial) (rest : List Partial) (s : PathSearch)
      → s.queue ≡ p ∷ rest
      → leb cap (length s.paths) ≡ false
      → enumerate table investigation dst bound cap (suc fuel) s
        ≡ enumerate table investigation dst bound cap fuel
            (extend_path table investigation dst bound cap p (record s { queue = rest }))
  unfolding enumerate
  enumerate-next fuel p rest s e room = rw (e, room, enumerate) refl

  enumerate-Sound :
      All P table
      → (fuel : ℕ) (s : PathSearch) → IsSound (weight s.queue) s
      → weight s.queue < fuel
      → (ps : List (List EntityEdge)) × (enumerate table investigation dst bound cap fuel s
          ≡ some ps)
        × (length ps ≤ cap)
        × All (Route P table investigation src dst bound cap) ps
  unfolding enumerate total_cost
  enumerate-Sound rows zero s sound enough = absurd (omega arith)
  enumerate-Sound rows (suc fuel) s sound enough = elim (List-cases s.queue) [
    | inl e ↦ (s.paths, rw (e, enumerate) refl, sound.few, sound.routes)
    | inr (p, rest, e) ↦ elim (Bool-cases (leb cap (length s.paths))) [
      | inl full ↦ (s.paths, rw (e, full, enumerate) refl, sound.few, sound.routes)
      | inr room ↦
          let partials =
            subst (All (Partly P table investigation src dst bound cap)) e sound.partials in
          let popped : PathSearch = record s { queue = rest } in
          let weighed : weight s.queue ≡ weight_of p + weight rest = ap weight e in
          let (limit, lighter, sound') =
            extend_path-Sound P table investigation src dst bound cap rows p popped partials.0
              (record {
                partials = partials.1;
                routes = sound.routes;
                few = sound.few;
                light = omega arith;
              })
              (ground arith) in
          let next = extend_path table investigation dst bound cap p popped in
          let light = sound'.light in
          let (ps, found, few, routes) =
            enumerate-Sound rows fuel next
              (record {
                partials = sound'.partials;
                routes = sound'.routes;
                few = sound'.few;
                light = omega arith;
              })
              (omega arith) in
          (ps, enumerate-next fuel p rest s e room ∙ found, few, routes)
    ]
  ]

  abbrev begun : PathSearch
  begun = record { paths = []; queue = first_partial table investigation src ∷ [] }

  begun-Sound : (src == dst) ≡ false → IsSound (weight begun.queue) begun
  begun-Sound apart = record {
    partials = (
      record {
        chain = refl;
        followed = refl;
        apart = (tt, tt);
        avoids = ((λ same. ground arith), tt);
        edges = tt;
        short = omega arith;
      },
      tt,
    );
    routes = tt;
    few = omega arith;
    light = omega arith;
  }

  begun-total_cost : weight begun.queue ≡ walks (length table) bound
  unfolding total_cost cost
  begun-total_cost = let e : bound - 0 ≡ bound = omega arith in rw e (omega arith)

-- A search with more rounds than there are walks of the depth ends, whatever the graph, its cycles
-- included. It returns at most `limit` and at most 50 paths; each leads from the one entity to the other
-- along at most `max_depth` and at most 6 edges of the investigation and visits no entity twice, and what
-- holds of all rows of the table holds of its edges.
pub paths_between_lem :
    (P : EntityEdge → Type 0) (table : List EntityEdge)
    (investigation fuel src dst max_depth limit : ℕ)
    → All P table
    → walks (length table) (min max_depth 6) < fuel
    → (ps : List (List EntityEdge)) × (paths_between table investigation fuel src dst max_depth
          limit
        ≡ some ps)
      × (length ps ≤ min limit 50)
      × All (IsRoute P table investigation src dst (min max_depth 6) (min limit 50)) ps
unfolding paths_between
paths_between_lem P table investigation fuel src dst max_depth limit rows enough =
    elim (Bool-cases (src == dst)) [
      | inl same ↦ ([], rw same refl, omega arith, tt)
      | inr apart ↦
          let bound = min max_depth 6 in
          let cap = min limit 50 in
          let weighed = begun-total_cost P table investigation src dst bound cap in
          let (ps, found, few, routes) =
            enumerate-Sound P table investigation src dst bound cap rows fuel
              (begun P table investigation src dst bound cap)
              (begun-Sound P table investigation src dst bound cap apart) (omega arith) in
          (ps, rw apart found, few, routes)
    ]
