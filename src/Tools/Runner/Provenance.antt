-- ===== src/Tools/Runner/Provenance.antt =====
-- The evidence that a call of src/acip/tools/runner.py adds belongs to its row.
use agentic_cyber_investigat.Prelude.{
  ℕ, suc, not, any, Bool-cases, ◌+◌, ◌≡◌, refl, String, Bool, true, false, ◌||◌, Option, some, List,
  [], ◌∷◌, ◌++◌, length, contains, All, All-append, All_mono, if◌then◌else◌, inl, inr,
}
use agentic_cyber_investigat.Prelude.Result.{Result-cases, Returned}
use agentic_cyber_investigat.Evidence.Contracts.{EvidenceDraft, Platform, is_valid}
use agentic_cyber_investigat.Evidence.Rows.{Evidence}
use agentic_cyber_investigat.Evidence.Store.{
  Store, Source, Batch, add_valid, full, new_row, record_draft, record_drafts, headroom, hashed,
  add_evidence,
}
use agentic_cyber_investigat.Tools.Runner.{
  Execution, returned, timed_out, raised, ToolAdapter, FileSystem, ToolRunner, ToolCall,
  ToolInvocation,
}
use agentic_cyber_investigat.Tools.Runner.Run.{prepare, opened_run, opened, settle, run_tool}

-- A row of the source, in the investigation.
pub record IsFrom (source : Source) (investigation_id : ℕ) (e : Evidence) : Type 0 where
  pub same_tool : e.source_tool ≡ source.source_tool
  pub same_run : e.tool_run_id ≡ source.tool_run_id
  pub same_artifact : e.artifact_id ≡ source.artifact_id
  pub same_investigation : e.investigation_id ≡ investigation_id

module _ (env : Platform) (st : Store) (source : Source) where
  record_drafts-IsFrom :
      (existing : List ℕ) (room : Option ℕ) (b : Batch) (drafts : List (EvidenceDraft × ℕ))
      → All (IsFrom source st.investigation_id) b.created
      → All
          (IsFrom source st.investigation_id)
          (record_drafts env st source existing room b drafts).created
  unfolding record_drafts record_draft
  record_drafts-IsFrom existing room b [] h = h
  record_drafts-IsFrom existing room b ((draft, d) ∷ ds) h =
      record_drafts-IsFrom existing room (record_draft env st source existing room b (draft, d)) ds
        (kept (contains d existing || contains d b.seen_in_batch) (full room (length b.created)))
    where
      fresh : Evidence
      fresh = new_row env st source (st.session.drawn + length b.created) draft d

      kept :
          (known over : Bool)
          → All
              (IsFrom source st.investigation_id)
              (if known
                then b
                else if over
                then record b { dropped = suc b.dropped }
                else record b {
                  created = b.created ++ fresh ∷ [];
                  seen_in_batch = d ∷ b.seen_in_batch;
                }).created
      kept true over = h
      kept false true = h
      kept false false = All-append (IsFrom source st.investigation_id) b.created (fresh ∷ []) h (
        record {
          same_tool = refl;
          same_run = refl;
          same_artifact = refl;
          same_investigation = refl;
        },
        tt,
      )

  add_evidence-IsFrom :
      (drafts : List EvidenceDraft)
      → All (IsFrom source st.investigation_id) (add_evidence env st source drafts).0
  unfolding add_evidence
  add_evidence-IsFrom [] = tt
  add_evidence-IsFrom (d ∷ ds) =
      record_drafts-IsFrom _ (headroom env st source) _ (hashed env st source (d ∷ ds)) tt

-- The evidence is from the tool's run, of the tool and for the investigation that its row names.
abbrev pub IsBound : ToolInvocation → Type 0
IsBound invocation =
    All
      (λ e.
        (e.tool_run_id ≡ some invocation.tool_run.id)
        × (e.source_tool ≡ invocation.tool_run.tool_name)
        × (e.investigation_id ≡ invocation.tool_run.investigation_id))
      invocation.evidence

module _ {R A W : Type 0} (env : Platform) (fs : FileSystem) (call : ToolCall R) where
  settle-IsBound :
      (tool : ToolAdapter R A W) (args : A) (runner : ToolRunner R A W) (execution : Execution)
      → let row = opened_run env fs call runner tool args in
        Returned IsBound (settle env fs call tool row (opened env fs call runner row) execution).0
  unfolding settle add_valid
  settle-IsBound tool args runner timed_out = tt
  settle-IsBound tool args runner (raised reason) = tt
  settle-IsBound tool args runner (returned result) =
      let row = opened_run env fs call runner tool args in
      let source : Source = record {
        source_tool = tool.name;
        artifact_id = call.artifact_id;
        tool_run_id = some row.id;
        agent_run_id = call.agent_run_id;
      } in
      let added =
        add_evidence-IsFrom env (opened env fs call runner row).store source result.evidence in
      elim (Bool-cases (any (λ d. not (is_valid env d)) result.evidence)) [
        | inl bad ↦ rw (bad, settle, add_valid, Returned) tt
        | inr good ↦
            rw (good, settle, add_valid, Returned)
              (All_mono (IsFrom source runner.store.investigation_id) _
                (λ e from. (from.same_run, from.same_tool, from.same_investigation)) _ added)
      ]

  -- Every piece of evidence that a call returns carries the id of the call's row, which is what lets a finding
  -- be a fact, the name of its tool and its investigation.
  pub run_tool-IsBound :
      (runner : ToolRunner R A W) (tool_name : String) (w : W)
      → Returned IsBound (run_tool env fs call runner tool_name w).0
  unfolding run_tool
  run_tool-IsBound runner tool_name w = elim (Result-cases (prepare env fs call runner tool_name)) [
    | inl (fault, e) ↦ rw (e, run_tool, Returned) tt
    | inr ((tool, args, path), e) ↦ rw (e, run_tool) (settle-IsBound tool args runner _)
  ]
