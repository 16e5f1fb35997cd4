-- ===== src/Orchestration/Runs/Laws.antt =====
-- What one task's run leaves behind, for `_run_task` and `_skip` of
-- src/acip/core/orchestration/orchestrator.py.
use agentic_cyber_investigat.Prelude.{
  ℕ, ◌+◌, ◌<◌, ◌≡◌, refl, ap, true, false, Option, none, some, List, [], ◌∷◌, ◌++◌, length, All,
  All-append, All_mono, length-append, arith, ◌==◌,
}
use agentic_cyber_investigat.Prelude.Result.{ok}
use agentic_cyber_investigat.Types.{RunStatus}
use agentic_cyber_investigat.Orchestration.Registry.{AgentRegistry, has, Task}
use agentic_cyber_investigat.Orchestration.Runs.{
  AgentResult, RunError, exceeded_budget, agent_raised, Attempt, returned, uncommitted, timed_out,
  raised, AgentRun, Session, TaskOutcome, update_run, open_run, close_run, skip, skipped_run,
  settled, finished_run, run_task,
}

-- The row of an outcome.
abbrev pub run_of : TaskOutcome → AgentRun
run_of o = record {
  id = o.agent_run_id;
  task_id = o.task.task_id;
  agent_name = o.task.agent_name;
  status = o.status;
  outputs = o.result;
  error = o.error;
}

abbrev pub AllBelow : ℕ → List AgentRun → Type 0
AllBelow n = All (λ run. run.id < n)

update_run-fresh :
    (f : AgentRun → AgentRun) (runs : List AgentRun) (run : AgentRun)
    → AllBelow run.id runs
    → update_run run.id f (runs ++ run ∷ []) ≡ runs ++ f run ∷ []
unfolding update_run
update_run-fresh f [] run h = ground arith
update_run-fresh f (r ∷ runs) run h =
    let other : (r.id == run.id) ≡ false = ground arith in
    rw other (ap (◌∷◌ r) (update_run-fresh f runs run h.1))

pub AllBelow-append :
    (runs : List AgentRun) (run : AgentRun)
    → AllBelow (length runs) runs
    → run.id ≡ length runs
    → AllBelow (length (runs ++ run ∷ [])) (runs ++ run ∷ [])
AllBelow-append runs run h e =
    let n : length (runs ++ run ∷ []) ≡ length runs + 1 = length-append runs (run ∷ []) in
    rw n (
      All-append (λ r. r.id < length runs + 1) runs (run ∷ [])
        (All_mono (λ r. r.id < length runs) (λ r. r.id < length runs + 1) (λ r b. ground arith) runs
          h)
        (ground arith, tt))

abbrev closing : RunStatus → Option AgentResult → Option RunError → AgentRun → AgentRun
closing status outputs error run = record run { status = status; outputs = outputs; error = error }

module _ {D : Type 0} where
  -- What the database holds of the agent's writes.
  abbrev pub committed : D → Attempt D → D
  committed before (returned result after) = after
  committed before (uncommitted result failure) = before
  committed before timed_out = before
  committed before (raised text) = before

  abbrev pub Ends : Attempt D → ℕ → TaskOutcome → Type 0
  Ends (returned result after) budget o =
      (o.status ≡ result.status) × (o.result ≡ some result) × (o.error ≡ none)
  Ends (uncommitted result none) budget o =
      (o.status ≡ result.status)
      × (o.result ≡ some result)
      × (o.error ≡ some (exceeded_budget budget))
  Ends (uncommitted result (some text)) budget o =
      (o.status ≡ result.status) × (o.result ≡ some result) × (o.error ≡ some (agent_raised text))
  Ends timed_out budget o =
      (o.status ≡ RunStatus.failed) × (o.result ≡ none) × (o.error ≡ some (exceeded_budget budget))
  Ends (raised text) budget o =
      (o.status ≡ RunStatus.failed) × (o.result ≡ none) × (o.error ≡ some (agent_raised text))

  -- The outcome and its row.
  abbrev pub Recorded : Session D → Task → ℕ → Attempt D → Session D × TaskOutcome → Type 0
  Recorded w t budget attempt (w', o) =
      (o.task ≡ t)
      × (o.agent_run_id ≡ length w.agent_runs)
      × (w'.agent_runs ≡ w.agent_runs ++ run_of o ∷ [])
      × (w'.data_written ≡ committed w.data_written attempt)
      × Ends attempt budget o

  abbrev running_run : Session D → Task → AgentRun
  running_run w t = record {
    id = length w.agent_runs;
    task_id = t.task_id;
    agent_name = t.agent_name;
    status = RunStatus.running;
    outputs = none;
    error = none;
  }

  finished_run_lem :
      (w : Session D) (t : Task) (budget : ℕ) (attempt : Attempt D)
      → AllBelow (length w.agent_runs) w.agent_runs
      → Recorded w t budget attempt (finished_run w t budget attempt)
  unfolding finished_run open_run close_run settled
  finished_run_lem w t budget (returned result after) below = (
    refl,
    refl,
    update_run-fresh (closing result.status (some result) none) w.agent_runs (running_run w t)
        below,
    refl,
    (refl, refl, refl),
  )
  finished_run_lem w t budget (uncommitted result none) below = (
    refl,
    refl,
    update_run-fresh (closing result.status (some result) (some (exceeded_budget budget)))
        w.agent_runs (running_run w t) below,
    refl,
    (refl, refl, refl),
  )
  finished_run_lem w t budget (uncommitted result (some text)) below = (
    refl,
    refl,
    update_run-fresh (closing result.status (some result) (some (agent_raised text))) w.agent_runs
        (running_run w t) below,
    refl,
    (refl, refl, refl),
  )
  finished_run_lem w t budget timed_out below = (
    refl,
    refl,
    update_run-fresh (closing RunStatus.failed none (some (exceeded_budget budget))) w.agent_runs
        (running_run w t) below,
    refl,
    (refl, refl, refl),
  )
  finished_run_lem w t budget (raised text) below = (
    refl,
    refl,
    update_run-fresh (closing RunStatus.failed none (some (agent_raised text))) w.agent_runs
        (running_run w t) below,
    refl,
    (refl, refl, refl),
  )

  -- A registered agent's task always ends in an outcome, whatever the agent does. The outcome's row is
  -- added behind the rows before it and is closed with the outcome's status, result and error. The
  -- agent's writes are kept where it returned a result, failed or not, and they were committed; if the
  -- commit raises they are lost, but the result and its status stay, beside the error; at its time limit or
  -- by an exception the run is failed and what it wrote is rolled back.
  pub run_task_lem :
      (agents : AgentRegistry) (agent : Task → ℕ → D → Attempt D) (w : Session D) (t : Task)
      (budget : ℕ)
      → has agents t.agent_name ≡ true
      → AllBelow (length w.agent_runs) w.agent_runs
      → (done : Session D × TaskOutcome) × (run_task agents agent w t budget ≡ ok done)
        × Recorded w t budget (agent t budget w.data_written) done
  unfolding run_task
  run_task_lem agents agent w t budget known below =
      let attempt = agent t budget w.data_written in
      (finished_run w t budget attempt, rw known refl, finished_run_lem w t budget attempt below)

  -- A skipped task of a registered agent leaves a row too, and no data.
  pub skip_lem :
      (agents : AgentRegistry) (w : Session D) (t : Task)
      → has agents t.agent_name ≡ true
      → (done : Session D × TaskOutcome) × (skip agents w t ≡ ok done)
        × (done.1.task ≡ t)
        × (done.1.agent_run_id ≡ length w.agent_runs)
        × (done.0.agent_runs ≡ w.agent_runs ++ run_of done.1 ∷ [])
        × (done.0.data_written ≡ w.data_written)
        × (done.1.status ≡ RunStatus.skipped)
  unfolding skip skipped_run
  skip_lem agents w t known = (skipped_run w t, rw known refl, refl, refl, refl, refl, refl)
