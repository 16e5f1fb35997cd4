-- ===== src/Orchestration/Examples.antt =====
-- The planners and the loop of src/acip/core/orchestration at concrete inputs.
use Prim.Native.Nat.{max}
use text.Mathlib.Text.{◌==◌ as str_eq}
use agentic_cyber_investigat.Prelude.{
  ℕ, ◌++◌, ◌≡◌, ◌≤◌, refl, String, true, Option, none, some, List, [], ◌∷◌, map, length, take,
  if◌then◌else◌, ltb, arith,
}
use agentic_cyber_investigat.Prelude.Result.{ok}
use agentic_cyber_investigat.Types.{RunStatus, InvestigationStatus, TargetType}
use agentic_cyber_investigat.Orchestration.Registry.{AgentRegistry, Task}
use agentic_cyber_investigat.Orchestration.Planner.{task, adaptive_tasks, adaptive_plan}
use agentic_cyber_investigat.Orchestration.Planner.Laws.{AllRegistered, adaptive_plan_lem}
use agentic_cyber_investigat.Orchestration.Runs.{
  Proposal, AgentResult, Attempt, returned, timed_out, Session, TaskOutcome, run_task,
}
use agentic_cyber_investigat.Orchestration.Runs.Laws.{run_of, Recorded, run_task_lem}
use agentic_cyber_investigat.Orchestration.Execute.{
  interpret_triage_result, Config, Progress, derive_status,
}
use agentic_cyber_investigat.Orchestration.Execute.Turns.{execute}
use agentic_cyber_investigat.Orchestration.Execute.Laws.{interpret_triage_result-AllRegistered}
use agentic_cyber_investigat.Orchestration.Execute.Trail.{execute_lem}

abbrev agents : AgentRegistry
agents = "triage" ∷ "log_analysis" ∷ "mitre" ∷ "reporting" ∷ []

abbrev proposals : List Proposal
proposals =
    record { task_type = "reporting"; priority = 3 }
    ∷ record { task_type = "malware"; priority = 2 }
    ∷ record { task_type = " log_analysis "; priority = 1 }
    ∷ []

abbrev result : String → Option (List Proposal) → AgentResult
result summary analysis = record {
  status = RunStatus.succeeded;
  summary = summary;
  analysis = analysis;
}

-- Triage proposes, the log analysis takes too long, and each other agent writes its name.
abbrev agent : Task → ℕ → List String → Attempt (List String)
agent t budget written =
    if str_eq t.agent_name "triage"
    then returned (result "triaged" (some proposals)) ("triage" ∷ written)
    else if str_eq t.agent_name "log_analysis"
    then timed_out
    else returned (result "done" none) (t.agent_name ∷ written)

abbrev config : Config (List String)
config = record {
  agents = agents;
  agent = agent;
  remaining = λ n. if ltb n 2 then 5000 else 0;
  max_tasks = 5;
  enable_adaptive_planning = true;
  planner = none;
}

abbrev session : Session (List String)
session = record {
  data_written = [];
  agent_runs = [];
  task_runs = [];
  status = InvestigationStatus.running;
  error = [];
}

abbrev outcome : TaskOutcome
outcome = record {
  task = task "t1-triage" "triage";
  status = RunStatus.succeeded;
  agent_run_id = 0;
  result = none;
  error = none;
}

adaptive_plan_lem_example :
    ((adaptive_plan agents 3 TargetType.log []).tasks
      ≡ take 3 (adaptive_tasks agents TargetType.log []))
    × AllRegistered agents (adaptive_tasks agents TargetType.log [])
adaptive_plan_lem_example = adaptive_plan_lem agents 3 TargetType.log []

run_task_lem_example :
    (done : Session (List String) × TaskOutcome) × (run_task agents agent session
        (task "t2-log" "log_analysis")
        5000
      ≡ ok done)
    × Recorded session (task "t2-log" "log_analysis") 5000 timed_out done
run_task_lem_example = run_task_lem agents agent session (task "t2-log" "log_analysis") 5000 refl tt

interpret_triage_result-AllRegistered_example :
    AllRegistered agents
      (interpret_triage_result agents (some (result "triaged" (some proposals))) []).0
interpret_triage_result-AllRegistered_example =
    interpret_triage_result-AllRegistered agents (some (result "triaged" (some proposals))) []

-- A retry over the rows of an execution that failed.
abbrev again : Session (List String)
again = record session { agent_runs = run_of (record outcome { status = RunStatus.failed }) ∷ [] }

execute_lem_example :
    (q : Progress (List String)) × (execute config [] 5 again ≡ ok q)
    × (q.pending ≡ [])
    × (map (λ o. o.task) q.outcomes ≡ q.planned)
    × (q.session.agent_runs ≡ again.agent_runs ++ map run_of q.outcomes)
    × (length q.planned ≤ max 5 1)
    × (q.session.status ≡ derive_status q.outcomes q.halted)
execute_lem_example = execute_lem config [] 5 again (omega arith, tt) (refl, tt) (omega arith)
