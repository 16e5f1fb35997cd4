-- ===== src/Evidence/Contracts.antt =====
-- src/acip/core/evidence/contracts.py: what tools and agents hand to the store. A float that the
-- store only passes on is an opaque number, and a JSON document is its text.
use Prim.Native.String.{◌++◌}
use text.Mathlib.Text.{◌==◌ as str_eq}
use agentic_cyber_investigat.Prelude.{
  ℕ, String, Bool, Option, none, some, List, map, not, any, if◌then◌else◌, ◌==◌,
}
use agentic_cyber_investigat.Prelude.Sort.{sort}
use agentic_cyber_investigat.Prelude.Text.{is_blank, strip, drop_right, partition, str_leb}
use agentic_cyber_investigat.Types.{
  EvidenceKind, kind_value, EntityType, entity_type_value, TimeConfidence, AssertionClass, Severity,
  FinishReason,
}

pub record EntityRef : Type 0 where
  pub type : EntityType
  pub value : String
  pub role : Option String

pub record EvidenceDraft : Type 0 where
  pub kind : EvidenceKind
  pub payload : String
  pub observed_at : Option ℕ
  pub time_confidence : TimeConfidence
  pub entities : List EntityRef
  pub confidence : ℕ

pub record FindingDraft : Type 0 where
  pub title : String
  pub description : String
  pub assertion_class : AssertionClass
  pub severity : Severity
  pub confidence : ℕ
  pub evidence_ids : List ℕ
  pub reasoning : Option String
  pub detection_rule : Option String

pub record HypothesisDraft : Type 0 where
  pub statement : String
  pub refutation_condition : String
  pub confidence : ℕ
  pub supporting_evidence_ids : List ℕ
  pub contradicting_evidence_ids : List ℕ

pub record HypothesisGapDraft : Type 0 where
  pub description : String
  pub required_tool : Option String

pub record ModelExecutionDraft : Type 0 where
  pub task_class : String
  pub provider : String
  pub model : String
  pub prompt_name : String
  pub prompt_version : String
  pub tokens_in : ℕ
  pub tokens_out : ℕ
  pub latency_ms : ℕ
  pub cost_estimate_usd : ℕ
  pub finish_reason : FinishReason
  pub retries : ℕ
  pub schema_valid : Bool
  pub fallback_from : Option String
  pub temperature : ℕ
  pub seed : Option ℕ
  pub nondeterminism_risk : String
  pub grounding_violations : ℕ

-- An entity as it stands in the canonical form that is hashed.
pub record Triple : Type 0 where
  pub type : String
  pub value : String
  pub role : String

-- The object that `content_hash` serialises.
pub record Canonical : Type 0 where
  pub kind : String
  pub source_tool : String
  pub observed_at : Option ℕ
  pub payload : String
  pub entities : List Triple

-- What the repository does not implement: the case mapping of `str.lower`, the printing of
-- `ipaddress.ip_address` (`none` for its ValueError), the SHA-256 digest of the JSON text of a
-- canonical form as a number, and the ids and times that `uuid.uuid4` and `utcnow` hand out, by
-- the count of rows before.
pub record Platform : Type 0 where
  pub lower : String → String
  pub ip_address : String → Option String
  pub digest : Canonical → ℕ
  pub uuid4 : ℕ → ℕ
  pub utcnow : ℕ → ℕ

abbrev triple_leb : Triple → Triple → Bool
triple_leb a b =
    if str_eq a.type b.type
    then (if str_eq a.value b.value then str_leb a.role b.role else str_leb a.value b.value)
    else str_leb a.type b.type

abbrev or_empty : Option String → String
or_empty none = ""
or_empty (some s) = s

module _ (env : Platform) where
  canonical_ip : String → String
  canonical_ip candidate = elim (env.ip_address candidate) [ some s ↦ s | none ↦ candidate ]

  canonical_url : String → String
  unfolding partition
  canonical_url candidate = elim (partition "://" candidate) [
    | none ↦ candidate
    | some (scheme, rest) ↦ env.lower scheme ++ "://" ++ rest
  ]

  unfoldable pub normalize_entity_value : EntityType → String → String
  unfolding strip drop_right canonical_ip canonical_url
  normalize_entity_value EntityType.ip value = canonical_ip (strip value)
  normalize_entity_value EntityType.domain value =
      env.lower (drop_right (λ c. c == b'.') (strip value))
  normalize_entity_value EntityType.url value = canonical_url (strip value)
  normalize_entity_value EntityType.hash value = env.lower (strip value)
  normalize_entity_value EntityType.user value = env.lower (strip value)
  normalize_entity_value EntityType.host value = env.lower (strip value)
  normalize_entity_value _ value = strip value

  -- The reference that is made; `is_valid` says whether its validator lets it be made.
  unfoldable pub normalized : EntityRef → EntityRef
  unfolding normalize_entity_value
  normalized e = record e { value = normalize_entity_value e.type e.value }

  unfoldable pub normalized_entities : EvidenceDraft → List EntityRef
  unfolding normalized
  normalized_entities draft = map normalized draft.entities

  -- `_non_empty` of every normalised reference; where it is false, `normalized_entities` raises.
  unfoldable pub is_valid : EvidenceDraft → Bool
  unfolding normalized_entities is_blank
  is_valid draft = not (any (λ e. is_blank (some e.value)) (normalized_entities draft))

  unfoldable pub content_hash : EvidenceDraft → String → ℕ
  unfolding normalized_entities sort
  content_hash draft source_tool = env.digest (record {
    kind = kind_value draft.kind;
    source_tool = source_tool;
    observed_at = draft.observed_at;
    payload = draft.payload;
    entities = sort triple_leb (
        map
          (λ e. record { type = entity_type_value e.type; value = e.value; role = or_empty e.role })
          (normalized_entities draft));
  })
