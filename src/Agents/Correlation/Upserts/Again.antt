-- ===== src/Agents/Correlation/Upserts/Again.antt =====
-- A second run of the loops of src/acip/agents/correlation.py over the same rows.
use text.Mathlib.TextEquality.{eq_iff}
use agentic_cyber_investigat.Prelude.{
  ℕ, suc, ◌≡◌, refl, sym, ap, subst, fun_ext, ◌∙◌, Bool, true, Option, List, [], ◌∷◌, ◌++◌, All,
  any, any-append, if◌then◌else◌, arith, Bool-cases, inl, inr,
}
use agentic_cyber_investigat.Evidence.Contracts.{EntityRef, Platform}
use agentic_cyber_investigat.Evidence.Rows.{Evidence}
use agentic_cyber_investigat.Graph.{EntityEdge}
use agentic_cyber_investigat.Agents.Correlation.{DataReader, extract_entity_refs, Key, Link}
use agentic_cyber_investigat.Agents.Correlation.Links.{find_id, derive_edges_for_evidence}
use agentic_cyber_investigat.Agents.Correlation.Upserts.{
  EntityGraph, resolve_refs, resolve_rows, new_edge, same_key, add_links, link_all, correlate,
}
use agentic_cyber_investigat.Agents.Correlation.Upserts.Known.{
  Same, RowsKnown, resolve_rows-RowsKnown, resolve_rows-Same,
}

module _ (env : Platform) (view : DataReader) (investigation : ℕ) where
  -- The edge of a link stands in the table; its own id and time do not matter.
  abbrev Present : Evidence → List EntityEdge → Link → Type 0
  Present e edges l =
      any (same_key env view investigation (new_edge env view investigation 0 0 e l)) edges ≡ true

  abbrev pub with_link : Evidence → Link → EntityGraph → EntityGraph
  with_link e l g =
      let edge = new_edge env view investigation (env.uuid4 g.drawn) (env.utcnow g.drawn) e l in
      if any (same_key env view investigation edge) g.edges
      then g
      else record g { edges = g.edges ++ edge ∷ []; drawn = suc g.drawn }

  same_key_self :
      (e : Evidence) (l : Link) (id created : ℕ)
      → same_key env view investigation
          (new_edge env view investigation 0 0 e l)
          (new_edge env view investigation id created e l)
        ≡ true
  same_key_self e l id created = ground (arith, eq_iff l.relation l.relation)

  with_link-Present :
      (e : Evidence) (l : Link) (g : EntityGraph) → Present e (with_link e l g).edges l
  with_link-Present e l g =
      let p = same_key env view investigation (new_edge env view investigation 0 0 e l) in
      elim (Bool-cases (any p g.edges)) [
        | inl old ↦ rw (old, old) refl
        | inr new ↦ rw new (
            any-append p g.edges _
            ∙ rw (new, same_key_self e l (env.uuid4 g.drawn) (env.utcnow g.drawn)) refl)
      ]

  with_link-keeps :
      (e : Evidence) (l : Link) (g : EntityGraph) (p : EntityEdge → Bool)
      → any p g.edges ≡ true
      → any p (with_link e l g).edges ≡ true
  with_link-keeps e l g p h =
      elim (Bool-cases
        (any (same_key env view investigation (new_edge env view investigation 0 0 e l)) g.edges)) [
          | inl old ↦ rw old h
          | inr new ↦ rw (new, any-append p g.edges, h) refl
        ]

  add_links-keeps :
      (e : Evidence) (ls : List Link) (g : EntityGraph) (p : EntityEdge → Bool)
      → any p g.edges ≡ true
      → any p (add_links env view investigation e ls g).edges ≡ true
  unfolding add_links
  add_links-keeps e [] g p h = h
  add_links-keeps e (l ∷ ls) g p h =
      add_links-keeps e ls (with_link e l g) p (with_link-keeps e l g p h)

  add_links-Present :
      (e : Evidence) (ls : List Link) (g : EntityGraph)
      → All (Present e (add_links env view investigation e ls g).edges) ls
  unfolding add_links
  add_links-Present e [] g = tt
  add_links-Present e (l ∷ ls) g = (
    add_links-keeps e ls (with_link e l g) _ (with_link-Present e l g),
    add_links-Present e ls (with_link e l g),
  )

  add_links_again :
      (e : Evidence) (ls : List Link) (g : EntityGraph)
      → All (Present e g.edges) ls
      → add_links env view investigation e ls g ≡ g
  unfolding add_links
  add_links_again e [] g h = refl
  add_links_again e (l ∷ ls) g h = rw h.0 (add_links_again e ls g h.1)

  with_link-entities :
      (e : Evidence) (l : Link) (g : EntityGraph) → (with_link e l g).entities ≡ g.entities
  with_link-entities e l g =
      elim (Bool-cases
        (any (same_key env view investigation (new_edge env view investigation 0 0 e l)) g.edges)) [
          | inl old ↦ rw old refl
          | inr new ↦ rw new refl
        ]

  add_links-entities :
      (e : Evidence) (ls : List Link) (g : EntityGraph)
      → (add_links env view investigation e ls g).entities ≡ g.entities
  unfolding add_links
  add_links-entities e [] g = refl
  add_links-entities e (l ∷ ls) g =
      add_links-entities e ls (with_link e l g) ∙ with_link-entities e l g

  module _ (id_of : Key → Option ℕ) where
    abbrev linked : List Evidence → EntityGraph → EntityGraph
    linked = link_all env view investigation id_of

    abbrev links : Evidence → List Link
    links = derive_edges_for_evidence env view id_of

    pub linked-entities :
        (rows : List Evidence) (g : EntityGraph) → (linked rows g).entities ≡ g.entities
    unfolding link_all
    linked-entities [] g = refl
    linked-entities (e ∷ es) g =
        linked-entities es (add_links env view investigation e (links e) g)
        ∙ add_links-entities e (links e) g

    linked-keeps :
        (rows : List Evidence) (g : EntityGraph) (p : EntityEdge → Bool)
        → any p g.edges ≡ true
        → any p (linked rows g).edges ≡ true
    unfolding link_all
    linked-keeps [] g p h = h
    linked-keeps (e ∷ es) g p h =
        linked-keeps es (add_links env view investigation e (links e) g) p
          (add_links-keeps e (links e) g p h)

    Present-mono :
        (e : Evidence) (a b : List EntityEdge)
        → ((p : EntityEdge → Bool) → any p a ≡ true → any p b ≡ true)
        → (ls : List Link) → All (Present e a) ls
        → All (Present e b) ls
    Present-mono e a b keeps [] h = tt
    Present-mono e a b keeps (l ∷ ls) h = (keeps _ h.0, Present-mono e a b keeps ls h.1)

    -- The edges of all rows stand in the table.
    abbrev AllPresent : List EntityEdge → List Evidence → Type 0
    AllPresent edges = All (λ e. All (Present e edges) (links e))

    linked-AllPresent :
        (rows : List Evidence) (g : EntityGraph) → AllPresent (linked rows g).edges rows
    unfolding link_all
    linked-AllPresent [] g = tt
    linked-AllPresent (e ∷ es) g =
        let next = add_links env view investigation e (links e) g in
        (
          Present-mono e next.edges (linked es next).edges (λ p h. linked-keeps es next p h)
              (links e) (add_links-Present e (links e) g),
          linked-AllPresent es next,
        )

    linked_again :
        (rows : List Evidence) (g : EntityGraph) → AllPresent g.edges rows → linked rows g ≡ g
    unfolding link_all
    linked_again [] g h = refl
    linked_again (e ∷ es) g h = rw (add_links_again e (links e) g h.0) (linked_again es g h.1)

  resolve_refs-edges :
      (at_time : Option ℕ) (rs : List EntityRef) (g : EntityGraph)
      → (resolve_refs env view investigation at_time rs g).edges ≡ g.edges
  unfolding resolve_refs
  resolve_refs-edges at_time [] g = refl
  resolve_refs-edges at_time (r ∷ rs) g = resolve_refs-edges at_time rs _

  pub resolve_rows-edges :
      (rows : List Evidence) (g : EntityGraph)
      → (resolve_rows env view investigation rows g).edges ≡ g.edges
  unfolding resolve_rows
  resolve_rows-edges [] g = refl
  resolve_rows-edges (e ∷ es) g =
      resolve_rows-edges es _ ∙ resolve_refs-edges e.observed_at (extract_entity_refs env view e) g

  -- A run over rows that were correlated before, whatever the tables held then, adds no edge and no
  -- entity, and every key stands for the same id.
  pub correlate_again :
      (rows : List Evidence) (g : EntityGraph)
      → ((correlate env view investigation rows (correlate env view investigation rows g)).edges
          ≡ (correlate env view investigation rows g).edges)
        × Same env view investigation
            (correlate env view investigation rows
              (correlate env view investigation rows g)).entities
            (correlate env view investigation rows g).entities
  unfolding correlate
  correlate_again rows g =
      let resolved = resolve_rows env view investigation rows g in
      let id_of = λ (key : Key). find_id investigation key resolved.entities in
      let first = linked id_of rows resolved in
      let again = resolve_rows env view investigation rows first in
      let id_of' = λ (key : Key). find_id investigation key again.entities in
      let kept : first.entities ≡ resolved.entities = linked-entities id_of rows resolved in
      let known : RowsKnown env view investigation first.entities rows =
        rw kept (resolve_rows-RowsKnown env view investigation rows g) in
      let same = resolve_rows-Same env view investigation rows first known in
      let ids : id_of' ≡ id_of =
        fun_ext (λ key. same.ids key ∙ ap (find_id investigation key) kept) in
      let unchanged : again.edges ≡ first.edges = resolve_rows-edges rows first in
      let present : AllPresent id_of again.edges rows =
        rw unchanged (linked-AllPresent id_of rows resolved) in
      (
        ap (λ f. (linked f rows again).edges) ids
            ∙ ap (λ h. h.edges) (linked_again id_of rows again present)
            ∙ unchanged,
        subst (λ ns. Same env view investigation ns first.entities)
            (sym (linked-entities id_of' rows again)) same,
      )
