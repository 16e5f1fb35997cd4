-- ===== src/Graph/Paths/Weights.antt =====
-- How much of the search of `paths_between` of src/acip/core/graph/traversal.py an entry of its queue stands
-- for, and what a turn of its loop keeps.
use Prim.Native.Nat.{◌*◌}
use native.Mathlib.Nat.{mul-le-mul_right}
use agentic_cyber_investigat.Prelude.{
  ℕ, zero, suc, true, false, ◌+◌, ◌-◌, ◌≤◌, ◌<◌, ◌≡◌, refl, ◌&&◌, List, [], ◌∷◌, ◌++◌, length,
  length-append, length-select, contains, All, All-append, leb, ◌==◌, arith, Bool-cases, inl, inr,
}
use agentic_cyber_investigat.Graph.{EntityEdge}
use agentic_cyber_investigat.Graph.Paths.{
  Partial, PathSearch, out_edges, step_along, follow, extend_path,
}
use agentic_cyber_investigat.Graph.Paths.Routes.{
  Q, IsRoute, IsPartial, step_along-IsPartial, found-IsRoute,
}

-- The entries that an entry leads to in at most this many steps, itself included.
unfoldable pub walks : ℕ → ℕ → ℕ
walks edges zero = 1
walks edges (suc depth) = suc (edges * walks edges depth)

walks-pos : (edges depth : ℕ) → 0 < walks edges depth
unfolding walks
walks-pos edges zero = omega arith
walks-pos edges (suc depth) = omega arith

module _ (P : EntityEdge → Type 0) (table : List EntityEdge)
    (investigation src dst bound cap : ℕ) where
  abbrev OfTable : EntityEdge → Type 0
  OfTable = Q P table investigation src dst bound cap

  abbrev pub Partly : Partial → Type 0
  Partly = IsPartial P table investigation src dst bound cap

  abbrev pub Route : List EntityEdge → Type 0
  Route = IsRoute P table investigation src dst bound cap

  -- How many entries an entry of the queue can lead to.
  unfoldable pub cost : Partial → ℕ
  unfolding walks
  cost p = walks (length table) (bound - length p.path)

  unfoldable pub total_cost : List Partial → ℕ
  unfolding cost
  total_cost [] = 0
  total_cost (p ∷ ps) = cost p + total_cost ps

  total_cost-snoc :
      (ps : List Partial) (p : Partial) → total_cost (ps ++ p ∷ []) ≡ total_cost ps + cost p
  unfolding total_cost
  total_cost-snoc [] p = omega arith
  total_cost-snoc (q ∷ ps) p = omega (arith, total_cost-snoc ps p)

  -- Of the search behind some steps that may weigh this much.
  pub record Sound (limit : ℕ) (s : PathSearch) : Type 0 where
    pub partials : All Partly s.queue
    pub routes : All Route s.paths
    pub few : length s.paths ≤ cap
    pub light : total_cost s.queue ≤ limit

  cost-step_along :
      (p : Partial) (e : EntityEdge)
      → cost (step_along p e) ≡ walks (length table) (bound - suc (length p.path))
  unfolding cost
  cost-step_along p e =
      let longer : length (p.path ++ e ∷ []) ≡ suc (length p.path) =
        omega (arith, length-append p.path (e ∷ [])) in
      rw longer refl

  Sound-le : (limit more : ℕ) (s : PathSearch) → limit ≤ more → Sound limit s → Sound more s
  Sound-le limit more s le sound = record {
    partials = sound.partials;
    routes = sound.routes;
    few = sound.few;
    light = (let l = sound.light in omega arith);
  }

  -- A path that arrives is kept.
  found-Sound :
      (p : Partial) (limit : ℕ) (s : PathSearch) (e : EntityEdge)
      → Partly p
      → length p.path < bound
      → (e.src_entity_id ≡ p.entity) × OfTable e
      → Sound limit s
      → length s.paths < cap
      → (e.dst_entity_id == dst) ≡ true
      → Sound limit (record s { paths = s.paths ++ (p.path ++ e ∷ []) ∷ [] })
  found-Sound p limit s e h room from sound less there = record {
    partials = sound.partials;
    routes =
        All-append Route s.paths _ sound.routes (
          found-IsRoute P table investigation src dst bound cap p e h from.0 from.1 room there,
          tt,
        );
    few = omega (arith, length-append s.paths ((p.path ++ e ∷ []) ∷ []));
    light = sound.light;
  }

  -- A path that goes on is queued.
  queued-Sound :
      (p : Partial) (limit : ℕ) (s : PathSearch) (e : EntityEdge)
      → Partly p
      → length p.path < bound
      → (e.src_entity_id ≡ p.entity) × OfTable e
      → Sound limit s
      → (e.dst_entity_id == dst) ≡ false
      → contains e.dst_entity_id p.visited ≡ false
      → Sound
          (limit + walks (length table) (bound - suc (length p.path)))
          (record s { queue = s.queue ++ step_along p e ∷ [] })
  queued-Sound p limit s e h room from sound other new = record {
    partials = All-append Partly s.queue _ sound.partials (
      step_along-IsPartial P table investigation src dst bound cap p e h from.0 from.1 room other
          new,
      tt,
    );
    routes = sound.routes;
    few = sound.few;
    light =
        (let l = sound.light in
          omega (arith, total_cost-snoc s.queue (step_along p e), cost-step_along p e));
  }

  follow-Sound :
      (p : Partial) (limit : ℕ) (s : PathSearch) (es : List EntityEdge)
      → Partly p
      → length p.path < bound
      → All (λ e. (e.src_entity_id ≡ p.entity) × OfTable e) es
      → Sound limit s
      → length s.paths < cap
      → Sound
          (limit + length es * walks (length table) (bound - suc (length p.path)))
          (follow dst cap p s es)
  unfolding follow
  follow-Sound p limit s [] h room from sound less = Sound-le limit _ s (omega arith) sound
  follow-Sound p limit s (e ∷ es) h room from sound less =
      let w = walks (length table) (bound - suc (length p.path)) in
      let k = length es in
      let whole : limit + w + k * w ≡ limit + suc k * w = grind arith in
      elim (Bool-cases (e.dst_entity_id == dst)) [
        | inl there ↦
            let found = record s { paths = s.paths ++ (p.path ++ e ∷ []) ∷ [] } in
            let sound' = found-Sound p limit s e h room from.0 sound less there in
            elim (Bool-cases (leb cap (length found.paths))) [
              | inl full ↦ rw (there, full) (Sound-le limit _ found (omega arith) sound')
              | inr free ↦
                  rw (there, free)
                    (Sound-le (limit + k * w) _ _ (omega arith)
                      (follow-Sound p limit found es h room from.1 sound' (ground arith)))
            ]
        | inr other ↦ elim (Bool-cases (contains e.dst_entity_id p.visited)) [
          | inl seen ↦
              rw (other, seen)
                (Sound-le (limit + k * w) _ _ (omega arith)
                  (follow-Sound p limit s es h room from.1 sound less))
          | inr new ↦
              rw (other, new)
                (Sound-le (limit + w + k * w) _ _ (omega arith) (
                  follow-Sound p (limit + w) _ es h room from.1
                    (queued-Sound p limit s e h room from.0 sound other new) less))
        ]
      ]

  out_edges-All :
      (entity : ℕ) (rows : List EntityEdge)
      → All P rows
      → All (λ e. (e.src_entity_id ≡ entity) × OfTable e) (out_edges rows investigation entity)
  out_edges-All entity [] h = tt
  out_edges-All entity (e ∷ rows) h =
      elim (Bool-cases (e.investigation_id == investigation && e.src_entity_id == entity)) [
        | inl fits ↦ rw fits ((ground arith, (h.0, ground arith)), out_edges-All entity rows h.1)
        | inr other ↦ rw other (out_edges-All entity rows h.1)
      ]

  cost-pos : (p : Partial) → 0 < cost p
  unfolding cost walks
  cost-pos p = walks-pos (length table) (bound - length p.path)

  cost-room :
      (p : Partial)
      → length p.path < bound
      → cost p ≡ suc (length table * walks (length table) (bound - suc (length p.path)))
  unfolding cost walks
  cost-room p room =
      let e : bound - length p.path ≡ suc (bound - suc (length p.path)) = omega arith in rw e refl

  -- One entry less weighs less, with all that it leads to.
  pub extend_path-Sound :
      All P table
      → (p : Partial) (s : PathSearch) → Partly p
      → Sound (total_cost s.queue) s
      → length s.paths < cap
      → (limit : ℕ) × (limit < cost p + total_cost s.queue)
        × Sound limit (extend_path table investigation dst bound cap p s)
  unfolding extend_path
  extend_path-Sound rows p s h sound less = elim (Bool-cases (leb bound (length p.path))) [
    | inl deep ↦ (total_cost s.queue, omega (arith, cost-pos p), rw deep sound)
    | inr shallow ↦
        let room : length p.path < bound = ground arith in
        let w = walks (length table) (bound - suc (length p.path)) in
        let es = out_edges table investigation p.entity in
        let few : length es * w ≤ length table * w = mul-le-mul_right w (
          length-select (λ e. e.investigation_id == investigation && e.src_entity_id == p.entity)
            table) in
        (
          total_cost s.queue + length es * w,
          omega (arith, cost-room p room),
          rw shallow (
              follow-Sound p (total_cost s.queue) s es h room (out_edges-All p.entity table rows)
                sound less),
        )
  ]
