-- ===== src/Orchestration/Execute/Turns.antt =====
-- src/acip/core/orchestration/orchestrator.py: `_begin`, a turn of the loop of `execute`, and `_finish`. An
-- execution starts over the rows that earlier ones of the investigation have left.
use Prim.Native.Nat.{max}
use text.Mathlib.Text.{◌==◌ as str_eq}
use agentic_cyber_investigat.Prelude.{
  ℕ, zero, suc, ◌-◌, String, Bool, true, false, not, ◌&&◌, ◌||◌, Option, none, some, List, [], ◌∷◌,
  ◌++◌, map, length, any, select, if◌then◌else◌, ltb, ◌==◌,
}
use agentic_cyber_investigat.Prelude.Result.{Result, ok, err, ◌>>=◌}
use agentic_cyber_investigat.Types.{InvestigationStatus, ArtifactKind}
use agentic_cyber_investigat.Orchestration.Registry.{Task, truncated_at}
use agentic_cyber_investigat.Orchestration.Runs.{
  AgentResult, Session, budget_exhausted, TaskOutcome, Stop, out_of_fuel, planned_task, skip,
  run_task,
}
use agentic_cyber_investigat.Orchestration.Execute.{
  Config, Progress, advance, derive_status, failures, first_plan, interpret_triage_result,
  is_report, is_succeeded, report_grace, within,
}

module _ {D : Type 0} (config : Config D) where
  -- `_begin`, after the artifacts are there: the plan within the limit, and its rows, which join those
  -- that earlier executions have left.
  unfoldable pub begin : Session D → Progress D
  unfolding planned_task
  begin w =
      let p = first_plan config.max_tasks config.planner in
      record {
        session = record w {
          task_runs = w.task_runs ++ map planned_task p.tasks;
          status = InvestigationStatus.running;
          error = [];
        };
        task_idx = 0;
        pending = p.tasks;
        planned = p.tasks;
        outcomes = [];
        notes = p.notes;
        halted = false;
      }

  unfoldable pub is_adaptive : Bool
  is_adaptive =
      config.enable_adaptive_planning
      || elim config.planner [ none ↦ true | some (name, plan) ↦ str_eq name "adaptive" ]

  -- The tasks that a triage outcome adds, and its notes.
  unfoldable pub extend : List ArtifactKind → Progress D → Option AgentResult → Progress D
  unfolding planned_task
  extend artifacts p result =
      let (created, notes) = interpret_triage_result config.agents result artifacts in
      let scheduled : String → Bool = λ name. any (λ t. str_eq t.agent_name name) p.planned in
      let fresh = select (λ t. not (scheduled t.agent_name)) created in
      let slots = config.max_tasks - length p.planned in
      let new_tasks = within slots fresh in
      let cut_note = if ltb slots (length fresh) then truncated_at config.max_tasks ∷ [] else [] in
      if is_adaptive
      then record p {
        session = record p.session {
          task_runs = p.session.task_runs ++ map planned_task new_tasks;
        };
        pending = p.pending ++ new_tasks;
        planned = p.planned ++ new_tasks;
        notes = p.notes ++ notes ++ cut_note;
      }
      else record p { notes = p.notes ++ notes }

  -- The loop's body on the next task.
  unfoldable pub turn : List ArtifactKind → Progress D → Task → List Task → Result Stop (Progress D)
  turn artifacts p t rest =
      let left = config.remaining p.task_idx in
      let out_of_time = left == 0 && not (is_report t) in
      let budget = if is_report t then max left report_grace else left in
      let triage_done : TaskOutcome → Bool =
        λ o. str_eq t.agent_name "triage" && is_succeeded o.status && p.task_idx == 0 in
      if out_of_time
      then skip config.agents p.session t >>= (λ done. ok (advance p rest done true))
      else run_task config.agents config.agent p.session t budget >>= (λ done.
        let next = advance p rest done false in
        ok (if triage_done done.1 then extend artifacts next done.1.result else next))

  unfoldable pub loop : List ArtifactKind → ℕ → Progress D → Result Stop (Progress D)
  loop artifacts zero p = elim p.pending [ [] ↦ ok p | t ∷ rest ↦ err out_of_fuel ]
  loop artifacts (suc fuel) p = elim p.pending [
    | [] ↦ ok p
    | t ∷ rest ↦ turn artifacts p t rest >>= loop artifacts fuel
  ]

  unfoldable pub finish : Progress D → Progress D
  finish p =
      let status = derive_status p.outcomes p.halted in
      let reasons = (if p.halted then budget_exhausted ∷ [] else []) ++ failures p.outcomes in
      record p { session = record p.session { status = status; error = reasons } }

  unfoldable pub execute : List ArtifactKind → ℕ → Session D → Result Stop (Progress D)
  execute artifacts fuel w = loop artifacts fuel (begin w) >>= (λ p. ok (finish p))
