-- ===== src/Agents/Correlation/Examples.antt =====
-- A failed login and a web request of one client, correlated twice.
use text.Mathlib.Text.{◌==◌ as str_eq}
use agentic_cyber_investigat.Prelude.{
  ℕ, ◌+◌, ◌≡◌, refl, String, Option, none, some, List, [], ◌∷◌, All, map, if◌then◌else◌,
}
use agentic_cyber_investigat.Types.{TimeConfidence}
use agentic_cyber_investigat.Evidence.Contracts.{Platform, normalize_entity_value}
use agentic_cyber_investigat.Evidence.Rows.{Evidence}
use agentic_cyber_investigat.Graph.{Entity, EntityEdge}
use agentic_cyber_investigat.Agents.Correlation.{DataReader, extract_entity_refs}
use agentic_cyber_investigat.Agents.Correlation.Links.{derive_edges_for_evidence, find_id}
use agentic_cyber_investigat.Agents.Correlation.Upserts.{EntityGraph, correlate}
use agentic_cyber_investigat.Agents.Correlation.Upserts.Known.{Same}
use agentic_cyber_investigat.Agents.Correlation.Upserts.Again.{correlate_again}
use agentic_cyber_investigat.Agents.Correlation.Upserts.Closure.{correlate-Closed}
use agentic_cyber_investigat.Graph.Queries.{HasEnds, Closed, get_full_graph}

abbrev env : Platform
env = record {
  lower = λ s. s;
  ip_address = λ s. some s;
  digest = λ c. 0;
  uuid4 = λ n. n + 100;
  utcnow = λ n. n;
}

abbrev login : String → Option String
login key =
    if str_eq key "user"
    then some " bob "
    else if str_eq key "host"
    then some "srv"
    else if str_eq key "source_ip"
    then some "10.0.0.9"
    else if str_eq key "outcome"
    then some "failure"
    else none

abbrev request : String → Option String
request key =
    if str_eq key "client_ip"
    then some "10.0.0.9"
    else if str_eq key "path"
    then some "/x"
    else none

abbrev read : String → String → Option String
read payload key = if str_eq payload "login" then login key else request key

abbrev view : DataReader
view = record { get = read; given = read; items = λ payload key. [] }

abbrev row : ℕ → String → String → Evidence
row id kind payload = record {
  id = id;
  investigation_id = 1;
  kind = kind;
  source_tool = "parser";
  observed_at = some id;
  time_confidence = TimeConfidence.exact;
  collected_at = 0;
  payload = payload;
  entities = [];
  confidence = 1;
  content_hash = 0;
  artifact_id = none;
  tool_run_id = some 9;
  agent_run_id = none;
}

abbrev rows : List Evidence
rows = row 5 "auth_event" "login" ∷ row 4 "web_request" "request" ∷ []

abbrev empty : EntityGraph
empty = record { entities = []; edges = []; drawn = 0 }

abbrev triple : EntityEdge → ℕ × ℕ × String
triple e = (e.src_entity_id, e.dst_entity_id, e.relation)

abbrev seen : Entity → String × Option ℕ × Option ℕ × ℕ
seen n = (n.value_normalized, n.first_seen_at, n.last_seen_at, n.observation_count)

correlate_runs :
    (map seen (correlate env view 1 rows empty).entities
      ≡ ("srv", some 5, some 5, 1)
        ∷ ("bob", some 5, some 5, 1)
        ∷ ("10.0.0.9", some 4, some 5, 2)
        ∷ ("/x", some 4, some 4, 1)
        ∷ [])
    × (map triple (correlate env view 1 rows empty).edges
        ≡ (101, 100, "FAILED_AUTH_TO")
          ∷ (102, 100, "CONNECTED_FROM")
          ∷ (102, 103, "CONTACTED")
          ∷ [])
unfolding correlate extract_entity_refs derive_edges_for_evidence find_id normalize_entity_value
correlate_runs = (refl, refl)

correlate_again_example :
    ((correlate env view 1 rows (correlate env view 1 rows empty)).edges
      ≡ (correlate env view 1 rows empty).edges)
    × Same env view 1
        (correlate env view 1 rows (correlate env view 1 rows empty)).entities
        (correlate env view 1 rows empty).entities
correlate_again_example = correlate_again env view 1 rows empty

abbrev entity : ℕ → String → String → Entity
entity id type value = record {
  id = id;
  investigation_id = 1;
  type = type;
  value_normalized = value;
  value_raw_first_seen = value;
  first_seen_at = some 1;
  last_seen_at = some 2;
  observation_count = 3;
}

abbrev drawn_edge : ℕ → ℕ → ℕ → ℕ → EntityEdge
drawn_edge id investigation src dst = record {
  id = id;
  investigation_id = investigation;
  src_entity_id = src;
  dst_entity_id = dst;
  relation = "CONTACTED";
  evidence_id = 3;
  observed_at = none;
  confidence = 1;
  created_at = 1;
}

-- An edge of this investigation, and one of another.
abbrev held : EntityGraph
held = record {
  entities = entity 7 "ip" "10.0.0.9" ∷ entity 8 "url" "/y" ∷ [];
  edges = drawn_edge 1 1 7 8 ∷ drawn_edge 2 2 70 80 ∷ [];
  drawn = 9;
}

correlate-Closed_example :
    let after = correlate env view 1 rows held in
    let graph = get_full_graph after.entities after.edges 1 3 in
    All (HasEnds after.entities 1) after.edges × All (Closed graph.entities) graph.edges
correlate-Closed_example = correlate-Closed env view 1 rows held 3 (refl, (refl, tt))
