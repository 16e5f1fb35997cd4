-- ===== src/Evidence/Store.antt =====
-- src/acip/core/evidence/store.py: the rows of evidence that are written. Logging is left out.
use text.Mathlib.Text.{◌==◌ as str_eq}
use agentic_cyber_investigat.Prelude.{
  ℕ, suc, ◌+◌, ◌-◌, String, Bool, true, false, not, ◌||◌, Option, none, some, List, [], ◌∷◌, ◌++◌,
  map, if◌then◌else◌, ◌==◌, leb, length, select, any, contains,
}
use agentic_cyber_investigat.Types.{kind_value}
use agentic_cyber_investigat.Evidence.Contracts.{
  EvidenceDraft, Platform, is_valid, normalized_entities, content_hash,
}
use agentic_cyber_investigat.Evidence.Rows.{Evidence, Session}

-- An `EvidenceStore` object with the session that it writes to.
pub record Store : Type 0 where
  pub session : Session
  pub investigation_id : ℕ
  pub max_evidence : Option ℕ
  pub last_quota_dropped : ℕ

-- The keyword arguments of `add_evidence`.
pub record Source : Type 0 where
  pub source_tool : String
  pub artifact_id : Option ℕ
  pub tool_run_id : Option ℕ
  pub agent_run_id : Option ℕ

-- The rows of one investigation.
abbrev pub own : ℕ → Session → List Evidence
own investigation_id s = select (λ e. e.investigation_id == investigation_id) s.evidence

abbrev pub has_kind : Option (List String) → Evidence → Bool
has_kind none e = true
has_kind (some kinds) e = any (λ k. str_eq e.kind k) kinds

unfoldable pub count_evidence : Store → Option (List String) → ℕ
count_evidence st kinds = length (select (has_kind kinds) (own st.investigation_id st.session))

-- The loop variables of `add_evidence`.
pub record Batch : Type 0 where
  pub created : List Evidence
  pub seen_in_batch : List ℕ
  pub dropped : ℕ

abbrev pub full : Option ℕ → ℕ → Bool
full none n = false
full (some headroom) n = leb headroom n

module _ (env : Platform) (st : Store) (src : Source) where
  abbrev pub new_row : ℕ → EvidenceDraft → ℕ → Evidence
  new_row n draft content_hash = record {
    id = env.uuid4 n;
    investigation_id = st.investigation_id;
    kind = kind_value draft.kind;
    source_tool = src.source_tool;
    observed_at = draft.observed_at;
    time_confidence = draft.time_confidence;
    collected_at = env.utcnow n;
    payload = draft.payload;
    entities = normalized_entities env draft;
    confidence = draft.confidence;
    content_hash = content_hash;
    artifact_id = src.artifact_id;
    tool_run_id = src.tool_run_id;
    agent_run_id = src.agent_run_id;
  }

  -- One round of the loop over the drafts and their digests.
  unfoldable pub record_draft : List ℕ → Option ℕ → Batch → EvidenceDraft × ℕ → Batch
  record_draft existing headroom b (draft, h) =
      if contains h existing || contains h b.seen_in_batch
      then b
      else if full headroom (length b.created)
      then record b { dropped = suc b.dropped }
      else record b {
        created = b.created ++ new_row (st.session.drawn + length b.created) draft h ∷ [];
        seen_in_batch = h ∷ b.seen_in_batch;
      }

  unfoldable pub record_drafts : List ℕ → Option ℕ → Batch → List (EvidenceDraft × ℕ) → Batch
  record_drafts existing headroom b [] = b
  record_drafts existing headroom b (d ∷ ds) =
      record_drafts existing headroom (record_draft existing headroom b d) ds

  -- The digests of the investigation that the drafts' digests hit.
  abbrev pub existing_hashes : List ℕ → List ℕ
  existing_hashes candidates =
      select (λ h. contains h candidates)
        (map (λ (e : Evidence). e.content_hash) (own st.investigation_id st.session))

  abbrev pub headroom : Option ℕ
  headroom = elim st.max_evidence [
    | none ↦ none
    | some quota ↦ some (quota - count_evidence st none)
  ]

  abbrev pub hashed : List EvidenceDraft → List (EvidenceDraft × ℕ)
  hashed = map (λ d. (d, content_hash env d src.source_tool))

  abbrev pub batch : List EvidenceDraft → Batch
  batch drafts =
      record_drafts
        (existing_hashes (map (λ (d : EvidenceDraft). content_hash env d src.source_tool) drafts))
        headroom (record { created = []; seen_in_batch = []; dropped = 0 }) (hashed drafts)

  -- The digests are all there: no draft raises, which is for `add_valid` to see.
  unfoldable pub add_evidence : List EvidenceDraft → List Evidence × Store
  add_evidence [] = ([], st)
  add_evidence (d ∷ ds) =
      let b = batch (d ∷ ds) in
      (
        b.created,
        record st {
          session = record st.session {
            evidence = st.session.evidence ++ b.created;
            drawn = st.session.drawn + length b.created;
          };
          last_quota_dropped = b.dropped;
        },
      )

  -- The whole of `add_evidence`: the digests of all drafts are taken first, and one whose references do not
  -- pass their validator raises before anything is written.
  unfoldable pub add_valid : List EvidenceDraft → Option (List Evidence × Store)
  unfolding is_valid add_evidence
  add_valid drafts =
      if any (λ d. not (is_valid env d)) drafts then none else some (add_evidence drafts)
