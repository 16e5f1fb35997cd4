-- ===== src/Agents/Correlation.antt =====
-- src/acip/agents/correlation.py: the entities and the edges that the rows of evidence give. The data of a
-- row is read by parameters. The dictionary of the entities is the table: a key stands for one row of the
-- investigation. A new row takes its id when it is added and not at the flush.
pub mod Links
pub mod Upserts
pub mod Run
mod Examples
use text.Mathlib.Text.{◌==◌ as str_eq}
use agentic_cyber_investigat.Prelude.{
  ℕ, suc, ◌+◌, String, Bool, true, false, not, ◌&&◌, ◌||◌, Option, none, some, List, [], ◌∷◌, ◌++◌,
  any, if◌then◌else◌, ltb, ◌==◌,
}
use agentic_cyber_investigat.Prelude.Text.{strip, is_empty}
use agentic_cyber_investigat.Types.{EntityType, entity_type_value, EvidenceKind, kind_value}
use agentic_cyber_investigat.Evidence.Contracts.{EntityRef, Platform, normalize_entity_value}
use agentic_cyber_investigat.Evidence.Rows.{Evidence}
use agentic_cyber_investigat.Graph.{Entity, EntityEdge}

-- Of the data of a row: `get` is the text of a key's value, where the key is there, `given` that of a
-- value that counts as true, and `items` the texts of a list. A value that is no text, which the source
-- hands on as it is at some places, counts by its text.
pub record DataReader : Type 0 where
  pub get : String → String → Option String
  pub given : String → String → Option String
  pub items : String → String → List String

abbrev pub of_kind : EvidenceKind → Evidence → Bool
of_kind kind e = str_eq e.kind (kind_value kind)

abbrev pub same_ref : EntityRef → EntityRef → Bool
same_ref a b =
    str_eq (entity_type_value a.type) (entity_type_value b.type) && str_eq a.value b.value

-- The references with their values stripped, none of them blank, each type and value once.
pub collect : List EntityRef → List EntityRef → List EntityRef
unfolding strip
collect seen [] = []
collect seen (r ∷ rs) =
    let clean : EntityRef = record r { value = strip r.value } in
    let rest = collect seen rs in
    let kept = clean ∷ collect (clean ∷ seen) rs in
    if is_empty clean.value || any (same_ref clean) seen then rest else kept

abbrev pub ref : EntityType → String → String → EntityRef
ref type role value = record { type = type; value = value; role = some role }

abbrev pub each : (String → EntityRef) → List String → List EntityRef
each make [] = []
each make (v ∷ vs) = make v ∷ each make vs

abbrev pub only : {A : Type 0} → Bool → List A → List A
only true xs = xs
only false xs = []

-- `{"ip", "ipv4", "ipv6"}`, "domain" or else a hash
pub indicator_kind : String → EntityType
indicator_kind t =
    if str_eq t "ip" || (str_eq t "ipv4" || str_eq t "ipv6")
    then EntityType.ip
    else if str_eq t "domain"
    then EntityType.domain
    else EntityType.hash

module _ (env : Platform) (view : DataReader) where
  -- `if data.get(key): candidates.append(...)`
  abbrev pub data_ref : Evidence → String → EntityType → String → List EntityRef
  data_ref e key type role = elim (view.given e.payload key) [
    | none ↦ []
    | some v ↦ ref type role v ∷ []
  ]

  abbrev pub is_web : Evidence → Bool
  is_web e = of_kind EvidenceKind.web_request e || of_kind EvidenceKind.web_attack e

  abbrev pub type_text : Evidence → String
  type_text e = elim (view.get e.payload "indicator_type") [ none ↦ "ip" | some t ↦ t ]

  pub data_refs : Evidence → List EntityRef
  unfolding indicator_kind
  data_refs e =
      data_ref e "host" EntityType.host "target"
      ++ (data_ref e "target_host" EntityType.host "target"
          ++ (data_ref e "user" EntityType.user "actor"
              ++ (data_ref e "target_user" EntityType.user "target"
                  ++ (data_ref e "source_ip" EntityType.ip "source"
                      ++ (data_ref e "client_ip" EntityType.ip "source"
                          ++ (data_ref e "src_ip" EntityType.ip "source"
                              ++ (data_ref e "dst_ip" EntityType.ip "target"
                                  ++ (only (of_kind EvidenceKind.dns_query e) (
                                        data_ref e "query" EntityType.domain "query"
                                        ++ each (ref EntityType.ip "resolved_ip")
                                            (view.items e.payload "answers"))
                                      ++ (only (is_web e)
                                            (data_ref e "path" EntityType.url "target")
                                          ++ only (of_kind EvidenceKind.threat_intel e) (
                                              data_ref e "indicator"
                                                (indicator_kind (env.lower (type_text e)))
                                                "indicator"
                                              ++ data_ref e "source" EntityType.host
                                                  "intel_source"))))))))))

  unfoldable pub extract_entity_refs : Evidence → List EntityRef
  unfolding collect data_refs
  extract_entity_refs e = collect [] (e.entities ++ data_refs e)

-- A key of `entities_by_key`.
pub record Key : Type 0 where
  pub type : String
  pub value : String

abbrev pub has_key : ℕ → Key → Entity → Bool
has_key investigation key n =
    n.investigation_id == investigation
    && (str_eq n.type key.type && str_eq n.value_normalized key.value)

-- A pair of entities and how they are related.
pub record Link : Type 0 where
  pub src : ℕ
  pub dst : ℕ
  pub relation : String

-- `if a and b: derived.append((a, b, relation))`
abbrev pub link : Option ℕ → Option ℕ → String → List Link
link none b relation = []
link (some a) none relation = []
link (some a) (some b) relation = record { src = a; dst = b; relation = relation } ∷ []

-- The same for two entities that are not one.
abbrev pub link_apart : Option ℕ → Option ℕ → String → List Link
link_apart none b relation = []
link_apart (some a) none relation = []
link_apart (some a) (some b) relation = only (not (a == b)) (link (some a) (some b) relation)

abbrev pub or_given : Option String → Option String → Option String
or_given none b = b
or_given (some a) b = some a
