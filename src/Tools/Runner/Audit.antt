-- ===== src/Tools/Runner/Audit.antt =====
-- What a call of src/acip/tools/runner.py leaves behind, however it ends.
use agentic_cyber_investigat.Prelude.{
  ◌≡◌, ◌⊎◌, String, true, not, Option, none, some, is_some, any, List, [], ◌∷◌, ◌++◌, length,
}
use agentic_cyber_investigat.Prelude.Result.{Result, ok, err}
use agentic_cyber_investigat.Types.{RunStatus}
use agentic_cyber_investigat.Evidence.Contracts.{EvidenceDraft, Platform, is_valid}
use agentic_cyber_investigat.Tools.Runner.{
  ToolRun, FileSystem, ToolFault, ToolRunner, ToolCall, ToolInvocation, invalid_entity,
}

-- The artifact's path, if there is one, is that of a file under the root.
abbrev pub IsContained : FileSystem → String → Option String → Type 0
IsContained fs root none = Unit
IsContained fs root (some path) = (fs.is_relative_to path root ≡ true) × (fs.is_file path ≡ true)

module _ {R A W : Type 0} (env : Platform) (fs : FileSystem) (call : ToolCall R) where
  -- The table has one row more: a success with the evidence that is returned, or a failure with its reason,
  -- which have ended, or, for a draft that is not valid, one that still runs; without success no evidence
  -- was added.
  pub record IsAudited (before after : ToolRunner R A W) (outcome : Result ToolFault ToolInvocation)
      : Type 0 where
    pub row : ToolRun
    pub appended : after.tool_runs ≡ before.tool_runs ++ row ∷ []
    pub told :
        ((invocation : ToolInvocation) × (outcome ≡ ok invocation)
          × (invocation.tool_run ≡ row)
          × (row.status ≡ RunStatus.succeeded)
          × (is_some row.finished_at ≡ true)
          × (row.evidence_count ≡ length invocation.evidence))
        ⊎ ((fault : ToolFault) × (outcome ≡ err fault)
            × (row.status ≡ RunStatus.failed)
            × (is_some row.finished_at ≡ true)
            × (is_some row.error ≡ true)
            × (after.store.session.evidence ≡ before.store.session.evidence))
        ⊎ ((drafts : List EvidenceDraft) × (any (λ d. not (is_valid env d)) drafts ≡ true)
            × (outcome ≡ err invalid_entity)
            × (row.status ≡ RunStatus.running)
            × (row.finished_at ≡ none)
            × (after.store.session.evidence ≡ before.store.session.evidence))
