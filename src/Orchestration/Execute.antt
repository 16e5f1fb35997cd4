-- ===== src/Orchestration/Execute.antt =====
-- src/acip/core/orchestration/orchestrator.py: the reading of a triage result, the state of `execute` and
-- the status it derives; Turns has its loop. Times are whole milliseconds: `remaining n`
-- is the time left, 0 when none is, as task number n is about to start. `pending` is
-- tasks_to_run[task_idx:], and `planned` is all_planned_tasks, which is always tasks_to_run itself.
pub mod Turns
pub mod Laws
pub mod Trail
use Prim.Native.Nat.{max}
use Prim.Native.String.{◌++◌ as ◌+++◌}
use text.Mathlib.Text.{◌==◌ as str_eq}
use agentic_cyber_investigat.Prelude.{
  ℕ, zero, suc, ◌+◌, ◌-◌, String, Bool, true, false, not, ◌&&◌, ◌||◌, Option, none, some, is_some,
  List, [], ◌∷◌, ◌++◌, map, length, take, any, select, if◌then◌else◌, ltb, ◌==◌,
}
use agentic_cyber_investigat.Prelude.Result.{Result, ok, err, ◌>>=◌}
use agentic_cyber_investigat.Prelude.Sort.{sort}
use agentic_cyber_investigat.Prelude.Text.{strip, show}
use agentic_cyber_investigat.Prelude.Tests.{leb}
use agentic_cyber_investigat.Types.{RunStatus, InvestigationStatus, ArtifactKind}
use agentic_cyber_investigat.Orchestration.Registry.{
  AgentRegistry, has, Task, Note, Plan, fallback_plan, skipped_proposal, truncated_at, is_log_like,
}
use agentic_cyber_investigat.Orchestration.Planner.{task, numbered}
use agentic_cyber_investigat.Orchestration.Runs.{
  Proposal, AgentResult, RunError, budget_exhausted, Attempt, Session, TaskOutcome, Stop,
  out_of_fuel, planned_task, skip, run_task,
}

-- The tasks and notes of a list of proposals in order, from step `step` on.
unfoldable pub accept : AgentRegistry → ℕ → List Proposal → List Task × List Note
unfolding strip show
accept agents step [] = ([], [])
accept agents step (p ∷ ps) =
    let task_type = strip p.task_type in
    let skipped = accept agents step ps in
    let (later, notes) = accept agents (step + 1) ps in
    if str_eq task_type "triage"
    then skipped
    else if has agents task_type
    then (task (numbered step task_type) task_type ∷ later, notes)
    else (skipped.0, skipped_proposal task_type ∷ skipped.1)

abbrev pub if_registered : AgentRegistry → String → Task → List Task
if_registered agents name t = if has agents name then t ∷ [] else []

unfoldable pub fallback_tasks : AgentRegistry → List ArtifactKind → List Task
fallback_tasks agents artifacts =
    let logs =
      if any is_log_like artifacts && has agents "log_analysis"
      then task "t2-log-analysis" "log_analysis"
        ∷ if_registered agents "mitre" (task "t3-mitre" "mitre")
      else [] in
    logs
    ++ if_registered agents "correlation" (task "t4-correlation" "correlation")
    ++ if_registered agents "reporting" (task "t9-report" "reporting")

-- The tasks of the proposals, and the report if none of them is one.
abbrev pub proposed_tasks : AgentRegistry → List Proposal → List Task × List Note
proposed_tasks agents proposals =
    let (tasks, notes) = accept agents 2 (sort (λ p q. leb p.priority q.priority) proposals) in
    let reported = any (λ t. str_eq t.agent_name "reporting") tasks in
    (
      if not reported && has agents "reporting"
          then tasks ++ task "t9-report" "reporting" ∷ []
          else tasks,
      notes,
    )

abbrev pub is_succeeded : RunStatus → Bool
is_succeeded RunStatus.succeeded = true
is_succeeded _ = false

abbrev pub is_failed : RunStatus → Bool
is_failed RunStatus.failed = true
is_failed _ = false

abbrev pub follow_up :
    AgentRegistry → List ArtifactKind → Option (List Proposal) → List Task × List Note
follow_up agents artifacts none = (fallback_tasks agents artifacts, [])
follow_up agents artifacts (some proposals) = proposed_tasks agents proposals

unfoldable pub interpret_triage_result :
    AgentRegistry → Option AgentResult → List ArtifactKind → List Task × List Note
interpret_triage_result agents none artifacts =
    (fallback_tasks agents artifacts, fallback_plan ∷ [])
interpret_triage_result agents (some result) artifacts =
    if is_succeeded result.status
    then follow_up agents artifacts result.analysis
    else (fallback_tasks agents artifacts, fallback_plan ∷ [])

-- The settings and the environment of a run. `planner` is the planner's name and its plan for this
-- investigation, where there is a planner.
pub record Config (D : Type 0) : Type 0 where
  pub agents : AgentRegistry
  pub agent : Task → ℕ → D → Attempt D
  pub remaining : ℕ → ℕ
  pub max_tasks : ℕ
  pub enable_adaptive_planning : Bool
  pub planner : Option (String × Plan)

-- The state of the loop.
pub record Progress (D : Type 0) : Type 0 where
  pub session : Session D
  pub task_idx : ℕ
  pub pending : List Task
  pub planned : List Task
  pub outcomes : List TaskOutcome
  pub notes : List Note
  pub halted : Bool

unfoldable pub derive_status : List TaskOutcome → Bool → InvestigationStatus
derive_status [] halted = InvestigationStatus.failed
derive_status (o ∷ os) halted =
    let failed = any (λ o. is_failed o.status) (o ∷ os) in
    let succeeded = any (λ o. is_succeeded o.status) (o ∷ os) in
    if halted
    then InvestigationStatus.halted
    else if failed && succeeded
    then InvestigationStatus.partial
    else if failed
    then InvestigationStatus.failed
    else InvestigationStatus.completed

-- The errors of the failed outcomes.
unfoldable pub failures : List TaskOutcome → List RunError
failures [] = []
failures (o ∷ os) =
    let rest = failures os in
    elim o.error [ some e ↦ if is_failed o.status then e ∷ rest else rest | none ↦ rest ]

unfoldable pub report_grace : ℕ
report_grace = 30000

abbrev pub is_report : Task → Bool
is_report t = str_eq t.agent_name "reporting"

-- The first `slots` of the tasks, if there are more.
abbrev pub within : ℕ → List Task → List Task
within slots tasks = if ltb slots (length tasks) then take slots tasks else tasks

-- The planner's plan within the limit, or the triage task alone where there is no planner.
abbrev pub first_plan : ℕ → Option (String × Plan) → Plan
first_plan max_tasks none = record {
  tasks = task "t1-triage" "triage" ∷ [];
  strategy = "dynamic_orchestrator";
  notes = [];
}
first_plan max_tasks (some (name, plan)) =
    if ltb max_tasks (length plan.tasks)
    then record plan {
      tasks = take max_tasks plan.tasks;
      notes = plan.notes ++ truncated_at max_tasks ∷ [];
    }
    else plan

-- The state after a task's run: its outcome is appended, and the next task is at hand.
abbrev pub advance :
    {D : Type 0} → Progress D → List Task → Session D × TaskOutcome → Bool → Progress D
advance p rest (w, o) halt = record {
  session = w;
  task_idx = p.task_idx + 1;
  pending = rest;
  planned = p.planned;
  outcomes = p.outcomes ++ o ∷ [];
  notes = p.notes;
  halted = halt || p.halted;
}
