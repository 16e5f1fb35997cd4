-- ===== src/Orchestration/Registry.antt =====
-- src/acip/agents/registry.py: the agents by name, as the list of the names in order of registration,
-- and the tasks and plans of src/acip/core/orchestration/planner.py. The texts that explain a step to
-- a reader are left out; a note of a plan is a constructor for each text.
use text.Mathlib.Text.{◌==◌ as str_eq}
use agentic_cyber_investigat.Prelude.{
  ℕ, String, Bool, true, false, List, [], ◌∷◌, ◌++◌, Option, none, some, any, if◌then◌else◌,
}
use agentic_cyber_investigat.Types.{ArtifactKind, TargetType}

abbrev pub AgentRegistry : Type 0
AgentRegistry = List String

abbrev pub has : AgentRegistry → String → Bool
has agents name = any (λ a. str_eq a name) agents

-- `none` is the ValueError for a name that is taken.
unfoldable pub register : AgentRegistry → String → Option AgentRegistry
register agents name = if has agents name then none else some (agents ++ name ∷ [])

pub record Task : Type 0 where
  pub task_id : String
  pub agent_name : String

pub data Note : Type 0 where
  log_analysis_not_scheduled : Note
  skipped_unavailable : List String → Note
  dropped_unregistered : String → Note
  truncated_at : ℕ → Note
  dynamically_scheduled : Note
  fallback_plan : Note
  skipped_proposal : String → Note

pub record Plan : Type 0 where
  pub tasks : List Task
  pub strategy : String
  pub notes : List Note

-- The kinds of artifact that may hold log records.
abbrev pub is_log_like : ArtifactKind → Bool
is_log_like ArtifactKind.linux_auth_log = true
is_log_like ArtifactKind.web_server_log = true
is_log_like ArtifactKind.sys_log = true
is_log_like ArtifactKind.generic_log = true
is_log_like ArtifactKind.generic_text = true
is_log_like ArtifactKind.url_response = true
is_log_like ArtifactKind.unknown = true
is_log_like _ = false

abbrev pub is_pcap : ArtifactKind → Bool
is_pcap ArtifactKind.pcap = true
is_pcap _ = false

abbrev pub is_log_target : TargetType → Bool
is_log_target TargetType.log = true
is_log_target _ = false

abbrev pub is_pcap_target : TargetType → Bool
is_pcap_target TargetType.pcap = true
is_pcap_target _ = false
