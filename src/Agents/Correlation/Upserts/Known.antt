-- ===== src/Agents/Correlation/Upserts/Known.antt =====
-- The ids that src/acip/agents/correlation.py finds for a key while it resolves the entities.
use text.Mathlib.TextEquality.{eq_iff}
use agentic_cyber_investigat.Prelude.{
  ℕ, suc, ◌≡◌, refl, ap, ◌∙◌, String, true, Option, none, some, List, [], ◌∷◌, length, All, any,
  if◌then◌else◌, ◌==◌, arith, Bool-cases, inl, inr,
}
use agentic_cyber_investigat.Evidence.Contracts.{EntityRef, Platform}
use agentic_cyber_investigat.Evidence.Rows.{Evidence}
use agentic_cyber_investigat.Graph.{Entity}
use agentic_cyber_investigat.Agents.Correlation.{DataReader, extract_entity_refs, Key, has_key}
use agentic_cyber_investigat.Agents.Correlation.Links.{find_id, key_of}
use agentic_cyber_investigat.Agents.Correlation.Upserts.{
  EntityGraph, observe, new_entity, upsert, resolve_refs, resolve_rows,
}

module _ (env : Platform) (view : DataReader) (investigation : ℕ) where
  -- There are as many entities, and each key stands for the same id.
  pub record Same (a b : List Entity) : Type 0 where
    pub many : length a ≡ length b
    pub ids : (key : Key) → find_id investigation key a ≡ find_id investigation key b

  abbrev pub Known : List Entity → Key → Type 0
  Known ns key = (id : ℕ) × (find_id investigation key ns ≡ some id)

  observe-kept :
      (at_time : Option ℕ) (n : Entity) (key : Key)
      → (has_key investigation key (observe at_time n) ≡ has_key investigation key n)
        × ((observe at_time n).id ≡ n.id)
  observe-kept none n key = (refl, refl)
  observe-kept (some t) n key = (refl, refl)

  has_key-new_entity :
      (id : ℕ) (key : Key) (raw : String) (at_time : Option ℕ)
      → has_key investigation key (new_entity env view investigation id key raw at_time) ≡ true
  has_key-new_entity id key raw at_time =
      let same : (investigation == investigation) ≡ true = ground arith in
      rw (same, (eq_iff key.type key.type).1 refl, (eq_iff key.value key.value).1 refl) refl

  module _ (fresh : Entity) (key : Key) (at_time : Option ℕ)
      (fits : has_key investigation key fresh ≡ true) where
    -- The key of a reference is known afterwards.
    upsert-Known :
        (ns : List Entity) → Known (upsert env view investigation fresh key at_time ns) key
    unfolding upsert find_id
    upsert-Known [] = (fresh.id, rw fits refl)
    upsert-Known (n ∷ ns) = elim (Bool-cases (has_key investigation key n)) [
      | inl e ↦
          (n.id, rw (e, (observe-kept at_time n key).0, e) (ap some (observe-kept at_time n key).1))
      | inr e ↦ let (id, found) = upsert-Known ns in (id, rw (e, e) found)
    ]

    -- Every key that was known stands for the same id.
    upsert-keeps :
        (other : Key) (id : ℕ) (ns : List Entity)
        → find_id investigation other ns ≡ some id
        → find_id investigation other (upsert env view investigation fresh key at_time ns) ≡ some id
    unfolding upsert find_id
    upsert-keeps other id [] h = cc
    upsert-keeps other id (n ∷ ns) h = elim (Bool-cases (has_key investigation key n)) [
      | inl e ↦ let kept = observe-kept at_time n other in rw (e, kept.0, kept.1) h
      | inr e ↦ elim (Bool-cases (has_key investigation other n)) [
        | inl f ↦ rw (e, f) (rw f at h)
        | inr f ↦ rw (e, f) (upsert-keeps other id ns (rw f at h))
      ]
    ]

    -- A reference with a known key adds nothing.
    upsert-Same :
        (ns : List Entity)
        → Known ns key
        → Same (upsert env view investigation fresh key at_time ns) ns
    unfolding upsert find_id
    upsert-Same [] (id, h) = cc
    upsert-Same (n ∷ ns) (id, h) = elim (Bool-cases (has_key investigation key n)) [
      | inl e ↦ rw e (record {
        many = refl;
        ids = λ other. (let kept = observe-kept at_time n other in rw (kept.0, kept.1) refl);
      })
      | inr e ↦
          let rest = upsert-Same ns (id, rw e at h) in
          rw e (record { many = ap suc rest.many; ids = λ other. rw (rest.ids other) refl })
    ]

  abbrev key_for : EntityRef → Key
  key_for r = key_of env r.type r.value

  -- The graph after one reference.
  abbrev stepped : Option ℕ → EntityRef → EntityGraph → EntityGraph
  stepped at_time r g = record g {
    entities =
        upsert env view investigation
          (new_entity env view investigation (env.uuid4 g.drawn) (key_for r) r.value at_time)
          (key_for r) at_time g.entities;
    drawn = if any (has_key investigation (key_for r)) g.entities then g.drawn else suc g.drawn;
  }

  stepped-Known :
      (at_time : Option ℕ) (r : EntityRef) (g : EntityGraph)
      → Known (stepped at_time r g).entities (key_for r)
  stepped-Known at_time r g =
      upsert-Known _ (key_for r) at_time
        (has_key-new_entity (env.uuid4 g.drawn) (key_for r) r.value at_time) g.entities

  stepped-keeps :
      (at_time : Option ℕ) (r : EntityRef) (g : EntityGraph) (other : Key) (id : ℕ)
      → find_id investigation other g.entities ≡ some id
      → find_id investigation other (stepped at_time r g).entities ≡ some id
  stepped-keeps at_time r g other id h =
      upsert-keeps _ (key_for r) at_time
        (has_key-new_entity (env.uuid4 g.drawn) (key_for r) r.value at_time) other id g.entities h

  pub resolve_refs-keeps :
      (at_time : Option ℕ) (rs : List EntityRef) (g : EntityGraph) (other : Key) (id : ℕ)
      → find_id investigation other g.entities ≡ some id
      → find_id investigation other (resolve_refs env view investigation at_time rs g).entities
        ≡ some id
  unfolding resolve_refs
  resolve_refs-keeps at_time [] g other id h = h
  resolve_refs-keeps at_time (r ∷ rs) g other id h =
      resolve_refs-keeps at_time rs (stepped at_time r g) other id
        (stepped-keeps at_time r g other id h)

  abbrev AllKnown : List Entity → List EntityRef → Type 0
  AllKnown ns = All (λ r. Known ns (key_for r))

  AllKnown-mono :
      (a b : List Entity)
      → ((key : Key) (id : ℕ)
          → find_id investigation key a ≡ some id
          → find_id investigation key b ≡ some id)
      → (rs : List EntityRef) → AllKnown a rs
      → AllKnown b rs
  AllKnown-mono a b keeps [] h = tt
  AllKnown-mono a b keeps (r ∷ rs) h =
      ((h.0.0, keeps (key_for r) h.0.0 h.0.1), AllKnown-mono a b keeps rs h.1)

  resolve_refs-AllKnown :
      (at_time : Option ℕ) (rs : List EntityRef) (g : EntityGraph)
      → AllKnown (resolve_refs env view investigation at_time rs g).entities rs
  unfolding resolve_refs
  resolve_refs-AllKnown at_time [] g = tt
  resolve_refs-AllKnown at_time (r ∷ rs) g =
      let (id, found) = stepped-Known at_time r g in
      (
        (id, resolve_refs-keeps at_time rs (stepped at_time r g) (key_for r) id found),
        resolve_refs-AllKnown at_time rs (stepped at_time r g),
      )

  Same-trans : (a b c : List Entity) → Same a b → Same b c → Same a c
  Same-trans a b c p q = record { many = p.many ∙ q.many; ids = λ key. p.ids key ∙ q.ids key }

  resolve_refs-Same :
      (at_time : Option ℕ) (rs : List EntityRef) (g : EntityGraph)
      → AllKnown g.entities rs
      → Same (resolve_refs env view investigation at_time rs g).entities g.entities
  unfolding resolve_refs
  resolve_refs-Same at_time [] g h = record { many = refl; ids = λ key. refl }
  resolve_refs-Same at_time (r ∷ rs) g h =
      let one =
        upsert-Same _ (key_for r) at_time
          (has_key-new_entity (env.uuid4 g.drawn) (key_for r) r.value at_time) g.entities h.0 in
      Same-trans _ (stepped at_time r g).entities g.entities
        (resolve_refs-Same at_time rs (stepped at_time r g) (
          AllKnown-mono g.entities (stepped at_time r g).entities
            (λ key id f. stepped-keeps at_time r g key id f) rs h.1))
        one

  pub resolve_rows-keeps :
      (rows : List Evidence) (g : EntityGraph) (other : Key) (id : ℕ)
      → find_id investigation other g.entities ≡ some id
      → find_id investigation other (resolve_rows env view investigation rows g).entities ≡ some id
  unfolding resolve_rows
  resolve_rows-keeps [] g other id h = h
  resolve_rows-keeps (e ∷ es) g other id h =
      resolve_rows-keeps es _ other id
        (resolve_refs-keeps e.observed_at (extract_entity_refs env view e) g other id h)

  -- The references of all rows are known.
  abbrev pub RowsKnown : List Entity → List Evidence → Type 0
  RowsKnown ns = All (λ e. AllKnown ns (extract_entity_refs env view e))

  pub resolve_rows-RowsKnown :
      (rows : List Evidence) (g : EntityGraph)
      → RowsKnown (resolve_rows env view investigation rows g).entities rows
  unfolding resolve_rows
  resolve_rows-RowsKnown [] g = tt
  resolve_rows-RowsKnown (e ∷ es) g =
      let rs = extract_entity_refs env view e in
      let next = resolve_refs env view investigation e.observed_at rs g in
      (
        AllKnown-mono next.entities (resolve_rows env view investigation es next).entities
            (λ key id f. resolve_rows-keeps es next key id f) rs
            (resolve_refs-AllKnown e.observed_at rs g),
        resolve_rows-RowsKnown es next,
      )

  RowsKnown-Same :
      (a b : List Entity) → Same b a → (rows : List Evidence) → RowsKnown a rows → RowsKnown b rows
  RowsKnown-Same a b same [] h = tt
  RowsKnown-Same a b same (e ∷ es) h = (
    AllKnown-mono a b (λ key id f. same.ids key ∙ f) (extract_entity_refs env view e) h.0,
    RowsKnown-Same a b same es h.1,
  )

  -- Rows whose references are known add no entity, and move no key to another id.
  pub resolve_rows-Same :
      (rows : List Evidence) (g : EntityGraph)
      → RowsKnown g.entities rows
      → Same (resolve_rows env view investigation rows g).entities g.entities
  unfolding resolve_rows
  resolve_rows-Same [] g h = record { many = refl; ids = λ key. refl }
  resolve_rows-Same (e ∷ es) g h =
      let rs = extract_entity_refs env view e in
      let next = resolve_refs env view investigation e.observed_at rs g in
      let one = resolve_refs-Same e.observed_at rs g h.0 in
      Same-trans _ next.entities g.entities
        (resolve_rows-Same es next (RowsKnown-Same g.entities next.entities one es h.1)) one
