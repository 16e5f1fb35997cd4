-- ===== src/Orchestration/Planner.antt =====
-- src/acip/core/orchestration/planner.py and adaptive_planner.py.
pub mod Laws
use Prim.Native.String.{◌++◌ as ◌+++◌}
use text.Mathlib.Text.{◌==◌ as str_eq}
use agentic_cyber_investigat.Prelude.{
  ℕ, suc, ◌+◌, String, Bool, true, false, not, ◌&&◌, ◌||◌, List, [], ◌∷◌, ◌++◌, map, length, any,
  select, if◌then◌else◌, leb,
}
use agentic_cyber_investigat.Prelude.Sort.{sort}
use agentic_cyber_investigat.Prelude.Text.{show, str_leb}
use agentic_cyber_investigat.Types.{ArtifactKind, TargetType}
use agentic_cyber_investigat.Orchestration.Registry.{
  AgentRegistry, has, Task, Plan, Note, log_analysis_not_scheduled, skipped_unavailable,
  dropped_unregistered, truncated_at, dynamically_scheduled, is_log_like, is_pcap, is_log_target,
  is_pcap_target,
}

-- f"t{n}-{name}"
abbrev pub numbered : ℕ → String → String
numbered n name = "t" +++ show n +++ "-" +++ name

abbrev pub task : String → String → Task
task task_id agent_name = record { task_id = task_id; agent_name = agent_name }

-- `sorted(set(names))`
abbrev drop_repeats : List String → List String
drop_repeats [] = []
drop_repeats (x ∷ xs) =
    let rest = drop_repeats xs in if any (λ y. str_eq x y) xs then rest else x ∷ rest

abbrev sorted_set : List String → List String
sorted_set names = sort str_leb (drop_repeats names)

abbrev pub available : AgentRegistry → List Task → List Task
available agents = select (λ t. has agents t.agent_name)

-- `if self._registry.has(name)`: the next task, numbered by the tasks before it.
abbrev pub if_has : AgentRegistry → String → List Task → List Task
if_has agents name tasks =
    if has agents name then tasks ++ task (numbered (length tasks + 1) name) name ∷ [] else tasks

abbrev pub without_report : AgentRegistry → Bool → List Task
without_report agents log_like =
    let first = task "t1-triage" "triage" ∷ [] in
    let logs = if log_like then first ++ task "t2-log-analysis" "log_analysis" ∷ [] else first in
    if_has agents "correlation" (if_has agents "mitre" logs)

abbrev pub static_tasks : AgentRegistry → Bool → List Task
static_tasks agents log_like = without_report agents log_like ++ task "t9-report" "reporting" ∷ []

unfoldable pub static_plan : AgentRegistry → List ArtifactKind → Plan
unfolding show sort
static_plan agents artifacts =
    let log_like = any is_log_like artifacts in
    let notes = if log_like then [] else log_analysis_not_scheduled ∷ [] in
    let tasks = static_tasks agents log_like in
    let unavailable = map (λ t. t.agent_name) (select (λ t. not (has agents t.agent_name)) tasks) in
    elim unavailable [
      | [] ↦ record { tasks = tasks; strategy = "static"; notes = notes }
      | name ∷ names ↦ record {
        tasks = available agents tasks;
        strategy = "static";
        notes = notes ++ skipped_unavailable (sorted_set (name ∷ names)) ∷ [];
      }
    ]

-- One of the adaptive planner's steps: `tasks` and `step`, and the next task if its test passes.
pub record Steps : Type 0 where
  pub tasks : List Task
  pub step : ℕ

abbrev pub schedule : AgentRegistry → Bool → String → String → Steps → Steps
schedule agents test suffix name s =
    if test && has agents name
    then record { tasks = s.tasks ++ task (numbered s.step suffix) name ∷ []; step = s.step + 1 }
    else s

unfoldable pub adaptive_tasks : AgentRegistry → TargetType → List ArtifactKind → List Task
unfolding show
adaptive_tasks agents target artifacts =
    let has_logs = any is_log_like artifacts || is_log_target target in
    let has_pcap = any is_pcap artifacts || is_pcap_target target in
    let s0 : Steps = record { tasks = []; step = 1 } in
    let s1 = schedule agents true "triage" "triage" s0 in
    let s2 = schedule agents has_logs "log-analysis" "log_analysis" s1 in
    let s3 = schedule agents has_pcap "network-analysis" "network_analysis" s2 in
    let s4 = schedule agents true "mitre" "mitre" s3 in
    let s5 = schedule agents true "correlation" "correlation" s4 in
    let s6 = schedule agents true "reasoning" "reasoning" s5 in
    let s7 = schedule agents true "hypothesis" "hypothesis" s6 in
    let s8 = schedule agents true "validation" "validation" s7 in
    (schedule agents true "report" "reporting" s8).tasks

-- The loop that enforces the cap, and what it did so far.
pub record Kept : Type 0 where
  pub valid : List Task
  pub notes : List Note

unfoldable pub enforce : AgentRegistry → ℕ → Kept → List Task → Kept
enforce agents max_tasks k [] = k
enforce agents max_tasks k (t ∷ ts) = elim (has agents t.agent_name) [
  | false ↦
      enforce agents max_tasks
        (record k { notes = k.notes ++ dropped_unregistered t.agent_name ∷ [] }) ts
  | true ↦ elim (leb max_tasks (length k.valid)) [
    | true ↦ record k { notes = k.notes ++ truncated_at max_tasks ∷ [] }
    | false ↦ enforce agents max_tasks (record k { valid = k.valid ++ t ∷ [] }) ts
  ]
]

unfoldable pub adaptive_plan : AgentRegistry → ℕ → TargetType → List ArtifactKind → Plan
adaptive_plan agents max_tasks target artifacts =
    let k =
      enforce agents max_tasks (record { valid = []; notes = [] })
        (adaptive_tasks agents target artifacts) in
    record { tasks = k.valid; strategy = "adaptive"; notes = k.notes ++ dynamically_scheduled ∷ [] }
