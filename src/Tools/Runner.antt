-- ===== src/Tools/Runner.antt =====
-- src/acip/tools/runner.py and registry.py: the row of a call of a tool, its result and the checks of its
-- arguments and path; Run has the call. `R` are the arguments as the
-- caller gives them, `A` those that a tool has validated, and `W` is the state of the world that the tools
-- are in. A tool's own code, the file system and the timer are parameters. A call's row is the last of
-- its table until the call returns. Metrics and logging are left out.
pub mod Run
pub mod Audit
pub mod Provenance
use Prim.Native.Nat.{◌/◌}
use Prim.Native.String.{◌++◌ as ◌+++◌, count}
use agentic_cyber_investigat.Prelude.{
  ℕ, suc, ◌+◌, ◌-◌, String, Bool, true, false, not, ◌&&◌, Option, none, some, is_some, List, [],
  ◌∷◌, ◌++◌, map, length, if◌then◌else◌, ltb, ◌==◌,
}
use agentic_cyber_investigat.Prelude.Result.{Result, ok, err, ◌>>=◌, ◌>>◌, raise_if}
use agentic_cyber_investigat.Prelude.Text.{show}
use agentic_cyber_investigat.Types.{RunStatus}
use agentic_cyber_investigat.Evidence.Contracts.{EvidenceDraft, Platform}
use agentic_cyber_investigat.Evidence.Rows.{Evidence}
use agentic_cyber_investigat.Evidence.Store.{Store, Source, add_evidence}

-- A value of the arguments: a text, or any other by a number.
pub data ArgValue : Type 0 where
  chars : String → ArgValue
  value : ℕ → ArgValue

abbrev pub Args : Type 0
Args = List (String × ArgValue)

pub data Warning : Type 0 where
  of_tool : String → Warning
  quota_reached : ℕ → Warning

pub record ToolRun : Type 0 where
  pub id : ℕ
  pub investigation_id : ℕ
  pub agent_run_id : Option ℕ
  pub tool_name : String
  pub tool_version : String
  pub sandbox_tier : String
  pub args : Args
  pub status : RunStatus
  pub exit_status : Option ℕ
  pub evidence_count : ℕ
  pub warnings : List Warning
  pub started_at : ℕ
  pub finished_at : Option ℕ
  pub duration_ms : Option ℕ
  pub error : Option String

pub record ToolResult : Type 0 where
  pub evidence : List EvidenceDraft
  pub warnings : List String
  pub exit_status : Option ℕ

pub record ToolContext : Type 0 where
  pub investigation_id : ℕ
  pub agent_run_id : Option ℕ
  pub artifact_id : Option ℕ
  pub artifact_path : Option String

-- How the tool's execution under its time limit ends.
pub data Execution : Type 0 where
  returned : ToolResult → Execution
  timed_out : Execution
  raised : String → Execution

pub record ToolAdapter (R A W : Type 0) : Type 0 where
  pub name : String
  pub version : String
  pub tier : String
  pub requires_artifact : Bool
  pub unavailable_reason : Option String
  pub model_validate : R → Result String A
  pub model_dump : A → Args
  pub execute : A → ToolContext → ℕ → W → Execution × W

pub record FileSystem : Type 0 where
  pub resolve : String → String
  pub is_relative_to : String → String → Bool
  pub is_file : String → Bool

pub data ToolFault : Type 0 where
  unknown_tool : ToolFault
  not_available : String → ToolFault
  invalid_arguments : String → ToolFault
  requires_an_artifact outside_artifact_directory no_artifact_file : ToolFault
  tool_timed_out : ℕ → ToolFault
  tool_raised : String → ToolFault
  invalid_entity : ToolFault

-- A `ToolRunner` and the tables that it writes to.
pub record ToolRunner (R A W : Type 0) : Type 0 where
  pub registry : String → Option (ToolAdapter R A W)
  pub store : Store
  pub tool_runs : List ToolRun
  pub artifact_root : String
  pub default_timeout : ℕ

-- The arguments of `run` after the tool's name.
pub record ToolCall (R : Type 0) : Type 0 where
  pub args : R
  pub agent_run_id : Option ℕ
  pub artifact_id : Option ℕ
  pub artifact_path : Option String
  pub timeout : Option ℕ

pub record ToolInvocation : Type 0 where
  pub tool_run : ToolRun
  pub result : ToolResult
  pub evidence : List Evidence

unfoldable pub redact_args : Args → Args
unfolding show
redact_args [] = []
redact_args ((key, chars s) ∷ args) =
    let rest = redact_args args in
    (
      key,
      if ltb 512 (count s)
          then chars ("<" +++ show (count s) +++ " characters omitted>")
          else chars s,
    )
    ∷ rest
redact_args ((key, value v) ∷ args) = (key, value v) ∷ redact_args args

unfoldable pub check_containment : FileSystem → String → String → Result ToolFault String
check_containment fs root path =
    let resolved = fs.resolve path in
    do
      raise_if (not (fs.is_relative_to resolved root)) outside_artifact_directory
      raise_if (not (fs.is_file resolved)) no_artifact_file
      ok resolved

-- `timeout or self._default_timeout`
abbrev pub time_limit : Option ℕ → ℕ → ℕ
time_limit none default = default
time_limit (some t) default = if t == 0 then default else t

abbrev pub change_last : (ToolRun → ToolRun) → List ToolRun → List ToolRun
change_last f [] = []
change_last f (r ∷ []) = f r ∷ []
change_last f (r ∷ s ∷ rs) = r ∷ change_last f (s ∷ rs)

abbrev pub contained : FileSystem → Option String → String → Result ToolFault (Option String)
contained fs none root = ok none
contained fs (some path) root = check_containment fs root path >>= (λ resolved. ok (some resolved))

-- `_finalize`, with what it is called with.
abbrev pub finalize :
    ℕ → RunStatus → Option String → ℕ → List Warning → Option ℕ → ToolRun → ToolRun
finalize finished status error evidence_count warnings exit_status row = record row {
  status = status;
  finished_at = some finished;
  duration_ms = some ((finished - row.started_at) / 1000);
  error = error;
  evidence_count = evidence_count;
  warnings = warnings;
  exit_status = exit_status;
}

abbrev pub all_warnings : ToolResult → ℕ → List Warning
all_warnings result dropped =
    map of_tool result.warnings ++ (if dropped == 0 then [] else quota_reached dropped ∷ [])
