-- ===== src/Agents/Validation.antt =====
-- src/acip/agents/validation.py: the review of the hypotheses. The data of a row of evidence is read by
-- parameters: `get` is the text of a key's value, where it has one, and `is_true` its truth. The rows are those
-- that `store.all_evidence` returns. The review of findings only counts for the metrics and is left out.
pub mod Returns
use Prim.Native.String.{◌++◌ as ◌+++◌}
use text.Mathlib.Text.{◌==◌ as str_eq}
use agentic_cyber_investigat.Prelude.{
  ℕ, suc, ◌+◌, String, Bool, true, false, ◌&&◌, ◌||◌, Option, none, some, List, [], ◌∷◌, map,
  length, take, any, select, if◌then◌else◌, ltb, ◌==◌,
}
use agentic_cyber_investigat.Prelude.Result.{Result, ok, err, ◌>>=◌}
use agentic_cyber_investigat.Prelude.Text.{has_text, show}
use agentic_cyber_investigat.Types.{
  AssertionClass, Severity, EvidenceKind, kind_value, HypothesisStatus, EvidenceRole, contradicts,
  supports,
}
use agentic_cyber_investigat.Evidence.Contracts.{FindingDraft, Platform}
use agentic_cyber_investigat.Evidence.Rows.{
  Evidence, Finding, Hypothesis, HypothesisEvidence, StoreError,
}
use agentic_cyber_investigat.Evidence.Store.{Store}
use agentic_cyber_investigat.Evidence.Findings.{add_finding}

pub record DataView : Type 0 where
  pub get : String → String → Option String
  pub is_true : String → String → Bool

-- `data.get(key) == value`
abbrev has_value : DataView → Evidence → String → String → Bool
has_value view e key value = elim (view.get e.payload key) [
  | none ↦ false
  | some v ↦ str_eq v value
]

abbrev is_kind : EvidenceKind → Evidence → Bool
is_kind kind e = str_eq e.kind (kind_value kind)

-- `"root" in str(data.get("user") or "")`
abbrev names_root : DataView → Evidence → Bool
names_root view e = elim (view.get e.payload "user") [
  | none ↦ false
  | some user ↦ has_text "root" user
]

unfoldable pub has_priv_esc_evidence : DataView → List Evidence → Bool
unfolding has_text
has_priv_esc_evidence view rows =
    any
      (λ e.
        has_value view e "event_type" "sudo_command"
        || is_kind EvidenceKind.auth_event e && names_root view e)
      rows

unfoldable pub has_confirmed_attacks : DataView → List Evidence → Bool
has_confirmed_attacks view rows =
    any
      (λ e.
        is_kind EvidenceKind.web_attack e
        || (is_kind EvidenceKind.auth_event e && has_value view e "outcome" "failure"
            || is_kind EvidenceKind.threat_intel e && view.is_true e.payload "is_malicious"))
      rows

abbrev is_contradicts : EvidenceRole → Bool
is_contradicts contradicts = true
is_contradicts supports = false

abbrev pub is_contradicted : List HypothesisEvidence → Hypothesis → Bool
is_contradicted links h = any (λ l. l.hypothesis_id == h.id && is_contradicts l.role) links

-- The texts that make a hypothesis a benign or a malicious one.
unfoldable pub is_benign : String → Bool
unfolding has_text
is_benign statement =
    has_text "benign" statement || (has_text "normal" statement || has_text "glitch" statement)

unfoldable pub is_malicious : String → Bool
unfolding has_text
is_malicious statement =
    has_text "intrusion" statement
    || (has_text "unauthorized" statement
        || (has_text "attack" statement || has_text "malicious" statement))

-- The loop over the hypotheses: the rows with their new status, and the counts.
pub record Resolved : Type 0 where
  pub hypotheses : List Hypothesis
  pub supported_count : ℕ
  pub refuted_count : ℕ

module _ (lower : String → String) (observed : Bool) (links : List HypothesisEvidence)
    (investigation_id : ℕ) where
  unfoldable pub resolve_all : List Hypothesis → Resolved
  unfolding is_benign is_malicious
  resolve_all [] = record { hypotheses = []; supported_count = 0; refuted_count = 0 }
  resolve_all (h ∷ hs) =
      let rest = resolve_all hs in
      let statement = lower h.statement in
      let as_it_is : Resolved = record rest { hypotheses = h ∷ rest.hypotheses } in
      if h.investigation_id == investigation_id
      then if is_benign statement
        then if observed || is_contradicted links h
          then record rest {
            hypotheses = record h { status = HypothesisStatus.refuted } ∷ rest.hypotheses;
            refuted_count = suc rest.refuted_count;
          }
          else as_it_is
        else if is_malicious statement && observed
        then record rest {
          hypotheses = record h { status = HypothesisStatus.supported } ∷ rest.hypotheses;
          supported_count = suc rest.supported_count;
        }
        else as_it_is
      else as_it_is

abbrev review_draft : ℕ → Resolved → List Evidence → FindingDraft
review_draft evaluated resolved rows = record {
  title = "Adversarial Validation: Hypothesis Resolutions";
  description =
      "Evaluated "
      +++ show evaluated
      +++ " hypothesis(es). Supported: "
      +++ show resolved.supported_count
      +++ ", Refuted: "
      +++ show resolved.refuted_count
      +++ ". Refutations were deterministically proven through observed attack evidence.";
  assertion_class = AssertionClass.inference;
  severity = Severity.info;
  confidence = 95;
  evidence_ids = map (λ e. e.id) (take 5 rows);
  reasoning = some (
      "Refutation conditions tested against "
      +++ show (length rows)
      +++ " evidence rows. Benign hypotheses were refuted by authenticated privilege escalation and attack telemetry.");
  detection_rule = some "validation.hypothesis_review";
}

-- `run`: the store afterwards, the finding if there is one, and the counts.
unfoldable pub run_validation :
    Platform
    → DataView
    → List Evidence
    → Option ℕ
    → Store
    → Result StoreError (Store × Option Finding × Resolved)
unfolding resolve_all has_priv_esc_evidence has_confirmed_attacks show
run_validation env view rows agent_run_id st =
    let observed = has_priv_esc_evidence view rows || has_confirmed_attacks view rows in
    let resolved =
      resolve_all env.lower observed st.session.hypothesis_evidence st.investigation_id
        st.session.hypotheses in
    let reviewed : Store = record st {
      session = record st.session { hypotheses = resolved.hypotheses };
    } in
    let evaluated =
      length (select (λ h. h.investigation_id == st.investigation_id) st.session.hypotheses) in
    if resolved.supported_count + resolved.refuted_count == 0
    then ok (reviewed, none, resolved)
    else add_finding env reviewed (review_draft evaluated resolved rows) agent_run_id
      >>= (λ (finding, written). ok (written, some finding, resolved))
