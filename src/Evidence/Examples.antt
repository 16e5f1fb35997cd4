-- ===== src/Evidence/Examples.antt =====
-- Small tables, and what the store does on them.
use agentic_cyber_investigat.Prelude.{
  ℕ, zero, suc, ◌+◌, ◌≤◌, ◌≡◌, refl, ap, max, String, true, false, Option, none, some, List, [],
  ◌∷◌, ◌↔◌, arith, All, length, take, ◌==◌, ltb, ◌||◌, any, not,
}
use agentic_cyber_investigat.Prelude.Sort.{sort}
use agentic_cyber_investigat.Prelude.Result.{ok, err}
use agentic_cyber_investigat.Types.{auth_event, fact, high, TimeConfidence}
use agentic_cyber_investigat.Evidence.Contracts.{
  EvidenceDraft, FindingDraft, Platform, content_hash,
}
use agentic_cyber_investigat.Evidence.Rows.{Evidence, fact_without_tool_evidence, missing_evidence}
use agentic_cyber_investigat.Evidence.Store.{
  Store, Source, add_evidence, count_evidence, record_drafts, record_draft,
}
use agentic_cyber_investigat.Evidence.Findings.{
  add_finding, finding_row, write_finding, load_cited_evidence, enforce_grounding,
}
use agentic_cyber_investigat.Evidence.Grounding.{IsGrounded}
use agentic_cyber_investigat.Evidence.Grounding.Exact.{add_finding-ok_iff}
use agentic_cyber_investigat.Evidence.Dedupe.{holds}
use agentic_cyber_investigat.Evidence.Writes.{add_evidence_held, add_evidence-le_quota}
use agentic_cyber_investigat.Evidence.History.{here, next, evidence, empty, IsSound, Reach-IsSound}
use agentic_cyber_investigat.Evidence.Paging.{
  Cell, Codec, IsFaithful, row_leb, list_evidence, all_evidence, evidence_cursor, cursor_filter,
}
use agentic_cyber_investigat.Evidence.Paging.Cursor.{cursor_filter-cursor}
use agentic_cyber_investigat.Evidence.Paging.Complete.{all_evidence_lem}
use agentic_cyber_investigat.Evidence.Paging.Timeline.{timeline, HasDistinctIds}

abbrev text_length : String → ℕ
text_length String.[] = 0
text_length (String.◌∷◌ c s) = suc (text_length s)

-- A platform whose digest is the length of the payload.
abbrev toy : Platform
toy = record {
  lower = λ s. s;
  ip_address = λ s. none;
  digest = λ c. text_length c.payload;
  uuid4 = λ n. n + 100;
  utcnow = λ n. n;
}

abbrev draft : String → EvidenceDraft
draft payload = record {
  kind = auth_event;
  payload = payload;
  observed_at = some 7;
  time_confidence = TimeConfidence.exact;
  entities = [];
  confidence = 1;
}

abbrev parser : Source
parser = record {
  source_tool = "auth_log_parser";
  artifact_id = none;
  tool_run_id = some 5;
  agent_run_id = none;
}

abbrev blank_store : Store
blank_store = record {
  session = empty;
  investigation_id = 1;
  max_evidence = some 2;
  last_quota_dropped = 0;
}

abbrev drafts : List EvidenceDraft
drafts = draft "a" ∷ draft "bb" ∷ draft "a" ∷ []

add_evidence_runs :
    (length (add_evidence toy blank_store parser drafts).0 ≡ 2)
    × ((add_evidence toy blank_store parser (draft "ccc" ∷ drafts)).1.last_quota_dropped ≡ 1)
unfolding add_evidence record_drafts record_draft count_evidence content_hash
add_evidence_runs = (refl, refl)

-- The table that the drafts lead to.
abbrev filled : Store
filled = (add_evidence toy blank_store parser drafts).1

abbrev claim : FindingDraft
claim = record {
  title = "t";
  description = "d";
  assertion_class = fact;
  severity = high;
  confidence = 9;
  evidence_ids = 101 ∷ [];
  reasoning = none;
  detection_rule = none;
}

add_finding_runs :
    (add_finding toy filled claim none ≡ ok (write_finding toy filled claim none))
    × (add_finding toy blank_store claim none ≡ err (missing_evidence (101 ∷ [])))
    × (add_finding toy filled (record claim { evidence_ids = [] }) none
        ≡ err fact_without_tool_evidence)
unfolding add_finding add_evidence record_drafts record_draft count_evidence load_cited_evidence
    enforce_grounding content_hash
add_finding_runs = (refl, refl, refl)

add_finding-ok_iff_example :
    (add_finding toy filled claim none ≡ ok (write_finding toy filled claim none))
    ↔ IsGrounded filled.session.evidence (finding_row toy filled claim none)
add_finding-ok_iff_example = add_finding-ok_iff toy filled claim none

Reach-IsSound_example : IsSound filled.session
Reach-IsSound_example =
    Reach-IsSound toy filled.session (next here (evidence blank_store parser drafts refl))

filled-none_dropped : filled.last_quota_dropped ≡ 0
unfolding add_evidence record_drafts record_draft count_evidence content_hash
filled-none_dropped = refl

add_evidence_held_example :
    All
      (λ d. any (holds 1 (content_hash toy d "auth_log_parser")) filled.session.evidence ≡ true)
      drafts
add_evidence_held_example = add_evidence_held toy blank_store parser drafts tt filled-none_dropped

filled-holds :
    All
      (λ d.
        any
          (holds filled.investigation_id (content_hash toy d "auth_log_parser"))
          filled.session.evidence
        ≡ true)
      drafts
unfolding add_evidence record_drafts record_draft count_evidence content_hash
filled-holds = (refl, (refl, (refl, tt)))

add_evidence-le_quota_example :
    count_evidence (add_evidence toy blank_store parser drafts).1 none
    ≤ max 2 (count_evidence blank_store none)
add_evidence-le_quota_example = add_evidence-le_quota toy blank_store parser drafts 2 refl

abbrev unary : ℕ → String
unary zero = ""
unary (suc n) = String.◌∷◌ "x" (unary n)

-- A codec that keeps the cells as they are and prints numbers in unary.
abbrev plain : Codec (List Cell)
plain = record {
  dumps = λ cells. cells;
  loads = λ cells. some (some cells);
  blank = λ cells. false;
  isoformat = unary;
  fromisoformat = λ s. some (text_length s);
  uuid_text = unary;
  uuid_parse = λ s. some (text_length s);
  int_text = unary;
}

text_length-unary : (n : ℕ) → text_length (unary n) ≡ n
text_length-unary zero = refl
text_length-unary (suc n) = ap suc (text_length-unary n)

plain-IsFaithful : IsFaithful plain
plain-IsFaithful = record {
  loads-dumps = λ cells. refl;
  blank-dumps = λ cells. refl;
  parse-isoformat = λ t. ap some (text_length-unary t);
  parse-uuid_text = λ i. ap some (text_length-unary i);
}

abbrev row : ℕ → Option ℕ → Evidence
row id observed_at = record {
  id = id;
  investigation_id = 1;
  kind = "auth_event";
  source_tool = "auth_log_parser";
  observed_at = observed_at;
  time_confidence = TimeConfidence.exact;
  collected_at = 0;
  payload = "{}";
  entities = [];
  confidence = 1;
  content_hash = id;
  artifact_id = none;
  tool_run_id = none;
  agent_run_id = none;
}

abbrev three_rows : Store
three_rows = record blank_store {
  session = record empty { evidence = row 1 none ∷ row 2 (some 9) ∷ row 3 (some 4) ∷ [] };
}

three_rows-ids : HasDistinctIds three_rows.session.evidence
three_rows-ids = omega arith

all_evidence_lem_example :
    all_evidence plain three_rows 2 none
    ≡ some (
        ok (take 2 (timeline three_rows none), 2 == 0 || ltb 2 (length (timeline three_rows none))))
all_evidence_lem_example = all_evidence_lem plain plain-IsFaithful three_rows 2 none three_rows-ids

all_evidence_runs :
    all_evidence plain three_rows 2 none ≡ some (ok (row 3 (some 4) ∷ row 2 (some 9) ∷ [], true))
unfolding all_evidence list_evidence sort row_leb
all_evidence_runs = refl

cursor_filter-cursor_example :
    cursor_filter plain (some (evidence_cursor plain (row 2 (some 9))))
    ≡ ok (λ e. not (row_leb e (row 2 (some 9))))
cursor_filter-cursor_example = cursor_filter-cursor plain plain-IsFaithful (row 2 (some 9))
