-- ===== src/Graph/Scan.antt =====
-- One scan of an entity's edges in the search of src/acip/core/graph/traversal.py.
use agentic_cyber_investigat.Prelude.{
  ℕ, ◌+◌, ◌-◌, ◌≤◌, ◌<◌, ◌≡◌, ◌⊎◌, refl, true, List, [], ◌∷◌, ◌++◌, length, any, contains, All,
  All-append, All_mono, length-append, leb, ◌==◌, arith, Bool-cases, inl, inr,
}
use agentic_cyber_investigat.Graph.{EntityEdge, same_edge, touches, other_end, Search, visit, scan}

-- Both ends of an edge are visited.
abbrev pub Ends : List ℕ → EntityEdge → Type 0
Ends visited e =
    (contains e.src_entity_id visited ≡ true) × (contains e.dst_entity_id visited ≡ true)

abbrev pub Seen : List ℕ → ℕ × ℕ → Type 0
Seen visited (entity, depth) = contains entity visited ≡ true

Ends-of_known :
    (visited : List ℕ) (e : EntityEdge) (edges : List EntityEdge)
    → All (Ends visited) edges
    → any (same_edge e) edges ≡ true
    → Ends visited e
Ends-of_known visited e [] h k = cc
Ends-of_known visited e (f ∷ edges) h k = elim (Bool-cases (same_edge e f)) [
  | inl s ↦
      let same_src : e.src_entity_id ≡ f.src_entity_id = ground arith in
      let same_dst : e.dst_entity_id ≡ f.dst_entity_id = ground arith in rw (same_src, same_dst) h.0
  | inr s ↦ Ends-of_known visited e edges h.1 (ground arith)
]

visit_known :
    (entity depth : ℕ) (s : Search)
    → contains entity s.visited_entities ≡ true
    → visit entity depth s ≡ s
visit_known entity depth s h = rw h refl

-- What the scan of a node's edges keeps: each edge that it queues an entity for is a new edge.
pub record Frugal (cap : ℕ) (s t : Search) : Type 0 where
  pub cost :
      length t.queue + (cap - length t.collected_edges)
      ≤ length s.queue + (cap - length s.collected_edges)
  pub bound : length t.collected_edges ≤ cap
  pub closed : (cap ≤ length t.collected_edges) ⊎ All (Ends t.visited_entities) t.collected_edges
  pub seen : All (Seen t.visited_entities) t.queue

pub record Open (cap : ℕ) (s : Search) : Type 0 where
  pub room : length s.collected_edges < cap
  pub ends : All (Ends s.visited_entities) s.collected_edges
  pub seen : All (Seen s.visited_entities) s.queue

Ends-of_touches :
    (visited : List ℕ) (entity : ℕ) (e : EntityEdge)
    → contains entity visited ≡ true
    → contains (other_end entity e) visited ≡ true
    → touches entity e ≡ true
    → Ends visited e
Ends-of_touches visited entity e here there at = elim (Bool-cases (e.src_entity_id == entity)) [
  | inl p ↦ let same : e.src_entity_id ≡ entity = ground arith in (rw same here, rw p at there)
  | inr p ↦ let same : e.dst_entity_id ≡ entity = ground arith in (rw p at there, rw same here)
]

pub contains-first : (a : ℕ) (xs : List ℕ) → contains a (a ∷ xs) ≡ true
contains-first a xs = ground arith

contains-later : (a b : ℕ) (xs : List ℕ) → contains a xs ≡ true → contains a (b ∷ xs) ≡ true
contains-later a b xs h = ground arith

-- An edge that leads to an entity for the first time is collected, and the entity queued.
visited-Open :
    (cap entity depth : ℕ) (s : Search) (e : EntityEdge)
    → contains entity s.visited_entities ≡ true
    → touches entity e ≡ true
    → Open cap s
    → length s.collected_edges + 1 < cap
    → Open cap (record {
      visited_entities = other_end entity e ∷ s.visited_entities;
      collected_edges = s.collected_edges ++ e ∷ [];
      queue = s.queue ++ (other_end entity e, depth) ∷ [];
    })
visited-Open cap entity depth s e here at h room =
    let end = other_end entity e in
    let visited = end ∷ s.visited_entities in
    let later = λ (id : ℕ). contains-later id end s.visited_entities in
    let first = contains-first end s.visited_entities in
    record {
      room = omega (arith, length-append s.collected_edges (e ∷ []));
      ends =
          All-append (Ends visited) s.collected_edges (e ∷ [])
            (All_mono (Ends s.visited_entities) (Ends visited)
              (λ f (p, q). (later f.src_entity_id p, later f.dst_entity_id q)) s.collected_edges
              h.ends)
            (Ends-of_touches visited entity e (later entity here) first at, tt);
      seen =
          All-append (Seen visited) s.queue ((end, depth) ∷ [])
            (All_mono (Seen s.visited_entities) (Seen visited) (λ q p. later q.0 p) s.queue h.seen)
            (first, tt);
    }

visit-Open :
    (cap entity depth : ℕ) (s : Search) (e : EntityEdge)
    → contains entity s.visited_entities ≡ true
    → touches entity e ≡ true
    → Open cap s
    → length s.collected_edges + 1 < cap
    → let t =
        visit
          (other_end entity e)
          depth
          (record s { collected_edges = s.collected_edges ++ e ∷ [] }) in
      Open cap t
      × (contains entity t.visited_entities ≡ true)
      × (length t.queue ≤ length s.queue + 1)
      × (length t.collected_edges ≡ length s.collected_edges + 1)
visit-Open cap entity depth s e here at h room =
    let more = length-append s.collected_edges (e ∷ []) in
    elim (Bool-cases (contains (other_end entity e) s.visited_entities)) [
      | inl k ↦ rw k (
        record {
          room = omega (arith, more);
          ends =
              All-append (Ends s.visited_entities) s.collected_edges (e ∷ []) h.ends
                (Ends-of_touches s.visited_entities entity e here k at, tt);
          seen = h.seen;
        },
        here,
        omega arith,
        more,
      )
      | inr k ↦ rw k (
        visited-Open cap entity depth s e here at h room,
        contains-later entity (other_end entity e) s.visited_entities here,
        omega (arith, length-append s.queue ((other_end entity e, depth) ∷ [])),
        more,
      )
    ]

other_end-visited :
    (visited : List ℕ) (entity : ℕ) (e : EntityEdge)
    → Ends visited e
    → contains (other_end entity e) visited ≡ true
other_end-visited visited entity e h = elim (Bool-cases (e.src_entity_id == entity)) [
  | inl p ↦ rw p h.1
  | inr p ↦ rw p h.0
]

pub scan-Frugal :
    (cap entity depth : ℕ) (s : Search) (es : List EntityEdge)
    → contains entity s.visited_entities ≡ true
    → All (λ e. touches entity e ≡ true) es
    → Open cap s
    → Frugal cap s (scan cap entity depth s es)
unfolding scan
scan-Frugal cap entity depth s [] here at h = record {
  cost = omega arith;
  bound = (let r = h.room in omega arith);
  closed = inr h.ends;
  seen = h.seen;
}
scan-Frugal cap entity depth s (e ∷ es) here at h =
    let added : Search = record s { collected_edges = s.collected_edges ++ e ∷ [] } in
    let more : length added.collected_edges ≡ length s.collected_edges + 1 =
      length-append s.collected_edges (e ∷ []) in
    elim (Bool-cases (any (same_edge e) s.collected_edges)) [
      | inl k ↦
          let ends = Ends-of_known s.visited_entities e s.collected_edges h.ends k in
          rw
            (
              k,
              scan,
              visit_known (other_end entity e) (depth + 1) s
                  (other_end-visited s.visited_entities entity e ends),
            )
            (scan-Frugal cap entity depth s es here at.1 h)
      | inr k ↦ elim (Bool-cases (leb cap (length added.collected_edges))) [
        | inl full ↦
            rw (k, full, scan)
              (record {
                cost = (let r = h.room in omega (arith, more));
                bound = (let r = h.room in omega (arith, more));
                closed = inl (ground arith);
                seen = h.seen;
              })
        | inr room ↦
            let (opened, here', shorter, longer) =
              visit-Open cap entity (depth + 1) s e here at.0 h (ground arith) in
            let rest =
              scan-Frugal cap entity depth (visit (other_end entity e) (depth + 1) added) es here'
                at.1 opened in
            let cost = rest.cost in
            let full_not = opened.room in
            rw (k, room, scan)
              (record {
                cost = omega arith;
                bound = rest.bound;
                closed = rest.closed;
                seen = rest.seen;
              })
      ]
    ]
