-- ===== src/Agents/Correlation/Upserts.antt =====
-- `run` of src/acip/agents/correlation.py: its loops over the rows of evidence, over tables of entities and
-- edges, the citations that it fills in, and its finding.
pub mod Known
pub mod Again
pub mod Closure
use Prim.Native.String.{◌++◌ as ◌+++◌}
use text.Mathlib.Text.{◌==◌ as str_eq}
use agentic_cyber_investigat.Prelude.{
  ℕ, suc, ◌+◌, String, Bool, true, false, not, ◌&&◌, ◌||◌, Option, none, some, List, [], ◌∷◌, ◌++◌,
  map, length, take, any, select, if◌then◌else◌, ltb, leb, ◌==◌,
}
use agentic_cyber_investigat.Prelude.Sort.{sort}
use agentic_cyber_investigat.Prelude.Result.{Result, ok, err, ◌>>=◌}
use agentic_cyber_investigat.Prelude.Text.{show}
use agentic_cyber_investigat.Types.{AssertionClass, Severity, EvidenceRole, supports, contradicts}
use agentic_cyber_investigat.Evidence.Contracts.{EntityRef, FindingDraft, Platform}
use agentic_cyber_investigat.Evidence.Rows.{Evidence, Finding, FindingEvidence, StoreError}
use agentic_cyber_investigat.Evidence.Store.{Store}
use agentic_cyber_investigat.Evidence.Findings.{add_finding}
use agentic_cyber_investigat.Graph.{Entity, EntityEdge}
use agentic_cyber_investigat.Agents.Correlation.{
  DataReader, extract_entity_refs, Key, has_key, Link,
}
use agentic_cyber_investigat.Agents.Correlation.Links.{find_id, key_of, derive_edges_for_evidence}

-- The tables of the graph; `drawn` counts the ids that are given out.
pub record EntityGraph : Type 0 where
  pub entities : List Entity
  pub edges : List EntityEdge
  pub drawn : ℕ

abbrev earliest_seen : Option ℕ → ℕ → Option ℕ
earliest_seen none t = some t
earliest_seen (some seen) t = some (if ltb t seen then t else seen)

abbrev latest_seen : Option ℕ → ℕ → Option ℕ
latest_seen none t = some t
latest_seen (some seen) t = some (if ltb seen t then t else seen)

-- Another observation of an entity.
abbrev pub observe : Option ℕ → Entity → Entity
observe none n = record n { observation_count = suc n.observation_count }
observe (some t) n = record n {
  observation_count = suc n.observation_count;
  first_seen_at = earliest_seen n.first_seen_at t;
  last_seen_at = latest_seen n.last_seen_at t;
}

module _ (env : Platform) (view : DataReader) (investigation : ℕ) where
  abbrev pub new_entity : ℕ → Key → String → Option ℕ → Entity
  new_entity id key raw observed_at = record {
    id = id;
    investigation_id = investigation;
    type = key.type;
    value_normalized = key.value;
    value_raw_first_seen = raw;
    first_seen_at = observed_at;
    last_seen_at = observed_at;
    observation_count = 1;
  }

  -- `entities_by_key` and the table, after a reference with this key.
  pub upsert : Entity → Key → Option ℕ → List Entity → List Entity
  upsert fresh key observed_at [] = fresh ∷ []
  upsert fresh key observed_at (n ∷ ns) =
      let rest = upsert fresh key observed_at ns in
      if has_key investigation key n then observe observed_at n ∷ ns else n ∷ rest

  -- The loop over the references of a row.
  pub resolve_refs : Option ℕ → List EntityRef → EntityGraph → EntityGraph
  unfolding upsert key_of
  resolve_refs observed_at [] g = g
  resolve_refs observed_at (r ∷ rs) g =
      let key = key_of env r.type r.value in
      resolve_refs observed_at rs (record g {
        entities =
            upsert (new_entity (env.uuid4 g.drawn) key r.value observed_at) key observed_at
              g.entities;
        drawn = if any (has_key investigation key) g.entities then g.drawn else suc g.drawn;
      })

  pub resolve_rows : List Evidence → EntityGraph → EntityGraph
  unfolding resolve_refs extract_entity_refs
  resolve_rows [] g = g
  resolve_rows (e ∷ es) g =
      resolve_rows es (resolve_refs e.observed_at (extract_entity_refs env view e) g)

  abbrev pub new_edge : ℕ → ℕ → Evidence → Link → EntityEdge
  new_edge id created e l = record {
    id = id;
    investigation_id = investigation;
    src_entity_id = l.src;
    dst_entity_id = l.dst;
    relation = l.relation;
    evidence_id = e.id;
    observed_at = e.observed_at;
    confidence = e.confidence;
    created_at = created;
  }

  -- `edge_key in existing_edge_keys`
  abbrev pub same_key : EntityEdge → EntityEdge → Bool
  same_key a b =
      a.investigation_id == b.investigation_id
      && (a.src_entity_id == b.src_entity_id
          && (a.dst_entity_id == b.dst_entity_id
              && (str_eq a.relation b.relation && a.evidence_id == b.evidence_id)))

  pub add_links : Evidence → List Link → EntityGraph → EntityGraph
  add_links e [] g = g
  add_links e (l ∷ ls) g =
      let edge = new_edge (env.uuid4 g.drawn) (env.utcnow g.drawn) e l in
      add_links e ls (
        if any (same_key edge) g.edges
        then g
        else record g { edges = g.edges ++ edge ∷ []; drawn = suc g.drawn })

  pub link_all : (Key → Option ℕ) → List Evidence → EntityGraph → EntityGraph
  unfolding add_links derive_edges_for_evidence
  link_all id_of [] g = g
  link_all id_of (e ∷ es) g =
      link_all id_of es (add_links e (derive_edges_for_evidence env view id_of e) g)

  -- The entities are resolved first, and then the edges drawn between them.
  unfoldable pub correlate : List Evidence → EntityGraph → EntityGraph
  unfolding resolve_rows link_all
  correlate rows g =
      let resolved = resolve_rows rows g in
      link_all (λ key. find_id investigation key resolved.entities) rows resolved
