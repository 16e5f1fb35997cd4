-- ===== src/Agents/Correlation/Links.antt =====
-- `_derive_edges_for_evidence` of src/acip/agents/correlation.py, a function for each kind of evidence.
pub mod Joined
use text.Mathlib.Text.{◌==◌ as str_eq}
use agentic_cyber_investigat.Prelude.{
  ℕ, ◌≡◌, String, Bool, false, ◌||◌, Option, none, some, List, [], ◌∷◌, ◌++◌, if◌then◌else◌,
}
use agentic_cyber_investigat.Prelude.Text.{is_empty}
use agentic_cyber_investigat.Types.{EntityType, entity_type_value, EvidenceKind}
use agentic_cyber_investigat.Evidence.Contracts.{EntityRef, Platform, normalize_entity_value}
use agentic_cyber_investigat.Evidence.Rows.{Evidence}
use agentic_cyber_investigat.Graph.{Entity}
use agentic_cyber_investigat.Agents.Correlation.{
  DataReader, of_kind, extract_entity_refs, indicator_kind, Key, has_key, Link, link, link_apart,
  or_given,
}

-- `entities_by_key.get(key)`, its id
unfoldable pub find_id : ℕ → Key → List Entity → Option ℕ
find_id investigation key [] = none
find_id investigation key (n ∷ ns) =
    let rest = find_id investigation key ns in
    if has_key investigation key n then some n.id else rest

unfoldable pub key_of : Platform → EntityType → String → Key
unfolding normalize_entity_value
key_of env type value = record {
  type = entity_type_value type;
  value = normalize_entity_value env type value;
}

-- The derivation looks ids up by `id_of`, and by nothing else of the entities.
module _ (env : Platform) (view : DataReader) (id_of : Key → Option ℕ) where
  abbrev pub get_ent_id : EntityType → Option String → Option ℕ
  unfolding key_of
  get_ent_id type none = none
  get_ent_id type (some raw) = if is_empty raw then none else id_of (key_of env type raw)

  abbrev pub entity : Evidence → EntityType → String → Option ℕ
  entity e type key = get_ent_id type (view.given e.payload key)

  abbrev is_outcome : Evidence → String → Bool
  is_outcome e outcome = elim (view.get e.payload "outcome") [
    | none ↦ false
    | some o ↦ str_eq o outcome
  ]

  abbrev pub auth_links : Evidence → List Link
  auth_links e =
      let user_id = entity e EntityType.user "user" in
      let host_id = entity e EntityType.host "host" in
      let src_ip_id = entity e EntityType.ip "source_ip" in
      (if is_outcome e "failure"
        then link user_id host_id "FAILED_AUTH_TO"
        else if is_outcome e "success"
        then link user_id host_id "AUTHENTICATED_TO"
        else [])
      ++ (link src_ip_id host_id "CONNECTED_FROM"
          ++ (link_apart user_id (entity e EntityType.user "target_user") "ASSOCIATED_WITH"
              ++ link src_ip_id (entity e EntityType.port "source_port") "CONNECTED_TO_PORT"))

  abbrev pub web_links : Evidence → List Link
  web_links e =
      let client_ip_id =
        get_ent_id EntityType.ip
          (or_given (view.given e.payload "client_ip") (view.given e.payload "source_ip")) in
      let host_id = entity e EntityType.host "host" in
      link client_ip_id host_id "CONNECTED_FROM"
      ++ (link client_ip_id (entity e EntityType.url "path") "CONTACTED"
          ++ link (entity e EntityType.user "user") host_id "AUTHENTICATED_TO")

  abbrev pub flow_links : Evidence → List Link
  flow_links e =
      let dst_ip_id = entity e EntityType.ip "dst_ip" in
      link (entity e EntityType.ip "src_ip") dst_ip_id "CONTACTED"
      ++ link dst_ip_id (entity e EntityType.port "dst_port") "LISTENS_ON"

  pub answer_links : Option ℕ → List String → List Link
  answer_links domain_id [] = []
  answer_links domain_id (a ∷ answers) =
      link domain_id (get_ent_id EntityType.ip (some a)) "RESOLVES_TO"
      ++ answer_links domain_id answers

  abbrev pub dns_links : Evidence → List Link
  unfolding answer_links
  dns_links e =
      let domain_id = entity e EntityType.domain "query" in
      link (entity e EntityType.ip "client_ip") domain_id "CONTACTED"
      ++ answer_links domain_id (view.items e.payload "answers")

  pub tag_links : Option ℕ → List String → List Link
  tag_links indicator_id [] = []
  tag_links indicator_id (t ∷ tags) =
      link indicator_id (get_ent_id EntityType.malware (some t)) "ASSOCIATED_WITH"
      ++ tag_links indicator_id tags

  abbrev intel_verdict : Evidence → String
  intel_verdict e = elim (view.given e.payload "is_malicious") [
    | none ↦ "EVALUATED_BY"
    | some v ↦ "FLAGGED_BY"
  ]

  abbrev pub intel_links : Evidence → List Link
  unfolding tag_links indicator_kind
  intel_links e =
      elim (or_given (view.given e.payload "indicator") (view.given e.payload "query")) [
        | none ↦ []
        | some indicator ↦
            let given =
              or_given (view.given e.payload "indicator_type")
                (view.given e.payload "entity_type") in
            let text = elim given as (λ _. String) [ none ↦ "ip" | some t ↦ t ] in
            let indicator_id = get_ent_id (indicator_kind (env.lower text)) (some indicator) in
            link_apart indicator_id (entity e EntityType.host "source") (intel_verdict e)
            ++ tag_links indicator_id (view.items e.payload "tags")
      ]

  abbrev pub by_kind : Evidence → List Link
  unfolding dns_links intel_links
  by_kind e =
      if of_kind EvidenceKind.auth_event e
      then auth_links e
      else if of_kind EvidenceKind.web_request e || of_kind EvidenceKind.web_attack e
      then web_links e
      else if of_kind EvidenceKind.network_flow e
      then flow_links e
      else if of_kind EvidenceKind.dns_query e
      then dns_links e
      else if of_kind EvidenceKind.threat_intel e
      then intel_links e
      else []

  -- Two references, and no more, are associated.
  abbrev pub pair_links : List EntityRef → List Link
  pair_links (a ∷ b ∷ []) =
      link_apart (get_ent_id a.type (some a.value)) (get_ent_id b.type (some b.value))
        "ASSOCIATED_WITH"
  pair_links _ = []

  unfoldable pub derive_edges_for_evidence : Evidence → List Link
  unfolding by_kind extract_entity_refs
  derive_edges_for_evidence e = elim (by_kind e) [
    | [] ↦ pair_links (extract_entity_refs env view e)
    | l ∷ ls ↦ l ∷ ls
  ]

  -- Links are between entities that are found.
  abbrev pub IsFound : ℕ → Type 0
  IsFound id = (key : Key) × (id_of key ≡ some id)

  abbrev pub Joins : Link → Type 0
  Joins l = IsFound l.src × IsFound l.dst
