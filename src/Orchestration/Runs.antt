-- ===== src/Orchestration/Runs.antt =====
-- src/acip/core/orchestration/orchestrator.py: one task's run. The session's rows are lists, a row's
-- id is the number of rows before it, and `D` is what the agents write. The clock's readings and the
-- agents themselves are parameters; versions, rationales, times and audit entries are left out, and so
-- is a fault of the database at the orchestrator's own sessions, which ends the whole execution.
pub mod Laws
use agentic_cyber_investigat.Prelude.{
  ℕ, ◌+◌, String, Bool, true, false, Option, none, some, List, [], ◌∷◌, ◌++◌, length, if◌then◌else◌,
  ◌==◌,
}
use text.Mathlib.Text.{◌==◌ as str_eq}
use agentic_cyber_investigat.Prelude.Result.{Result, ok, err}
use agentic_cyber_investigat.Types.{RunStatus, TaskStatus, InvestigationStatus}
use agentic_cyber_investigat.Orchestration.Registry.{AgentRegistry, has, Task}

pub record Proposal : Type 0 where
  pub task_type : String
  pub priority : ℕ

-- `analysis` is the valid `triage_analysis` of the metrics, if there is one.
pub record AgentResult : Type 0 where
  pub status : RunStatus
  pub summary : String
  pub analysis : Option (List Proposal)

-- The error texts of a run: its budget ran out, the agent raised, the task was skipped.
pub data RunError : Type 0 where
  exceeded_budget : ℕ → RunError
  agent_raised : String → RunError
  budget_exhausted : RunError

-- How `agent.run` and its session ended: with a result whose writes were committed; with a result, but the
-- commit at the session's exit raised, a `none` being a TimeoutError; at the time limit; by an exception.
pub data Attempt (D : Type 0) : Type 0 where
  returned : AgentResult → D → Attempt D
  uncommitted : AgentResult → Option String → Attempt D
  timed_out : Attempt D
  raised : String → Attempt D

pub record AgentRun : Type 0 where
  pub id : ℕ
  pub task_id : String
  pub agent_name : String
  pub status : RunStatus
  pub outputs : Option AgentResult
  pub error : Option RunError

pub record TaskRun : Type 0 where
  pub task_id : String
  pub task_type : String
  pub status : TaskStatus
  pub outputs : Option AgentResult
  pub error : Option RunError

-- The rows of one investigation.
pub record Session (D : Type 0) : Type 0 where
  pub data_written : D
  pub agent_runs : List AgentRun
  pub task_runs : List TaskRun
  pub status : InvestigationStatus
  pub error : List RunError

pub record TaskOutcome : Type 0 where
  pub task : Task
  pub status : RunStatus
  pub agent_run_id : ℕ
  pub result : Option AgentResult
  pub error : Option RunError

-- What `execute` raises: the registry has no agent of this name.
pub data Stop : Type 0 where
  unknown_agent : String → Stop
  out_of_fuel : Stop

unfoldable pub planned_task : Task → TaskRun
planned_task t = record {
  task_id = t.task_id;
  task_type = t.agent_name;
  status = TaskStatus.pending;
  outputs = none;
  error = none;
}

-- Updates the first row that has the task's id: the source's query takes one row and names no order.
unfoldable pub update_task : String → (TaskRun → TaskRun) → List TaskRun → List TaskRun
update_task id f [] = []
update_task id f (row ∷ rows) =
    let rest = update_task id f rows in if str_eq row.task_id id then f row ∷ rows else row ∷ rest

unfoldable pub has_task : String → List TaskRun → Bool
has_task id [] = false
has_task id (row ∷ rows) =
    let rest = has_task id rows in if str_eq row.task_id id then true else rest

-- `session.get(AgentRun, id)` and the assignments to the row.
unfoldable pub update_run : ℕ → (AgentRun → AgentRun) → List AgentRun → List AgentRun
update_run id f [] = []
update_run id f (run ∷ runs) =
    let rest = update_run id f runs in if run.id == id then f run ∷ rest else run ∷ rest

abbrev pub task_status : RunStatus → TaskStatus
task_status RunStatus.succeeded = TaskStatus.succeeded
task_status _ = TaskStatus.failed

-- `result.status if result is not None else RunStatus.FAILED`
abbrev pub run_status : Option AgentResult → RunStatus
run_status none = RunStatus.failed
run_status (some result) = result.status

module _ {D : Type 0} where
  unfoldable pub open_run : Session D → Task → Session D × ℕ
  open_run w t =
      let id = length w.agent_runs in
      let run : AgentRun = record {
        id = id;
        task_id = t.task_id;
        agent_name = t.agent_name;
        status = RunStatus.running;
        outputs = none;
        error = none;
      } in
      let started : TaskRun = record {
        task_id = t.task_id;
        task_type = t.agent_name;
        status = TaskStatus.running;
        outputs = none;
        error = none;
      } in
      let rows =
        if has_task t.task_id w.task_runs
        then update_task t.task_id (λ row. record row { status = TaskStatus.running }) w.task_runs
        else w.task_runs ++ started ∷ [] in
      (record w { agent_runs = w.agent_runs ++ run ∷ []; task_runs = rows }, id)

  unfoldable pub close_run :
      Session D → Task → ℕ → RunStatus → Option AgentResult → Option RunError → Session D
  close_run w t id status result error = record w {
    agent_runs =
        update_run id (λ run. record run { status = status; outputs = result; error = error })
          w.agent_runs;
    task_runs =
        update_task t.task_id
          (λ row. record row { status = task_status status; outputs = result; error = error })
          w.task_runs;
  }

  unfoldable pub skipped_run : Session D → Task → Session D × TaskOutcome
  skipped_run w t =
      let id = length w.agent_runs in
      let run : AgentRun = record {
        id = id;
        task_id = t.task_id;
        agent_name = t.agent_name;
        status = RunStatus.skipped;
        outputs = none;
        error = some budget_exhausted;
      } in
      let rows =
        update_task t.task_id
          (λ row. record row {
            status = TaskStatus.cancelled;
            outputs = none;
            error = some budget_exhausted;
          })
          w.task_runs in
      let outcome : TaskOutcome = record {
        task = t;
        status = RunStatus.skipped;
        agent_run_id = id;
        result = none;
        error = some budget_exhausted;
      } in
      (record w { agent_runs = w.agent_runs ++ run ∷ []; task_runs = rows }, outcome)

  unfoldable pub skip : AgentRegistry → Session D → Task → Result Stop (Session D × TaskOutcome)
  skip agents w t =
      if has agents t.agent_name then ok (skipped_run w t) else err (unknown_agent t.agent_name)

  -- The result, the error and the data after the agent's session: a session that an exception ends
  -- is rolled back, and the result that was assigned before the commit stays.
  unfoldable pub settled : D → ℕ → Attempt D → Option AgentResult × Option RunError × D
  settled before budget (returned result after) = (some result, none, after)
  settled before budget (uncommitted result none) =
      (some result, some (exceeded_budget budget), before)
  settled before budget (uncommitted result (some text)) =
      (some result, some (agent_raised text), before)
  settled before budget timed_out = (none, some (exceeded_budget budget), before)
  settled before budget (raised text) = (none, some (agent_raised text), before)

  -- The rows and the outcome of a run that ended so.
  unfoldable pub finished_run : Session D → Task → ℕ → Attempt D → Session D × TaskOutcome
  finished_run w t budget attempt =
      let (opened, id) = open_run w t in
      let (result, error, after) = settled w.data_written budget attempt in
      let status = run_status result in
      let outcome : TaskOutcome = record {
        task = t;
        status = status;
        agent_run_id = id;
        result = result;
        error = error;
      } in
      (close_run (record opened { data_written = after }) t id status result error, outcome)

  unfoldable pub run_task :
      AgentRegistry
      → (Task → ℕ → D → Attempt D)
      → Session D
      → Task
      → ℕ
      → Result Stop (Session D × TaskOutcome)
  run_task agents agent w t budget =
      if has agents t.agent_name
      then ok (finished_run w t budget (agent t budget w.data_written))
      else err (unknown_agent t.agent_name)
