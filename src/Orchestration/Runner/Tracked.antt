-- ===== src/Orchestration/Runner/Tracked.antt =====
-- The agreement of the tasks of src/acip/core/orchestration/runner.py with the rows, and that the
-- tasks' own steps keep it.
use agentic_cyber_investigat.Prelude.{
  ℕ, ◌+◌, ◌≤◌, ◌≡◌, refl, sym, true, false, Option, none, some, length, Bool-cases, inl, inr, arith,
}
use agentic_cyber_investigat.Types.{InvestigationStatus}
use agentic_cyber_investigat.Orchestration.Execute.{derive_status}
use agentic_cyber_investigat.Orchestration.Runner.{
  Row, Table, Runner, Ending, returned, raised, edit, update, ended, discard, tracks, is_running,
  acquire, finish_task, restart, recover_row,
}
use agentic_cyber_investigat.Orchestration.Runner.Laws.{
  occurrences, in_progress, occurrences-discard, tracks-occurrences, length-discard,
  derive_status-ends, not_running, in_progress-update, in_progress_bound,
}

-- Every slot is free or held, and an investigation has a task, and then one, if and only if its row is
-- marked running.
pub record IsTracked (max_concurrent : ℕ) (r : Runner) : Type 0 where
  pub slots_held : length r.running + r.slots ≡ max_concurrent
  pub tasks_running :
      (i : ℕ) → occurrences i r.waiting + occurrences i r.running ≡ in_progress (r.table i)

module _ (max_concurrent : ℕ) (r : Runner) (tracked : IsTracked max_concurrent r) where
  pub acquire-IsTracked :
      (id : ℕ) → tracks id r.waiting ≡ true → 1 ≤ r.slots → IsTracked max_concurrent (acquire id r)
  unfolding acquire
  acquire-IsTracked id waits free = record {
    slots_held = omega (arith, tracked.slots_held);
    tasks_running = λ i. ground (
      arith,
      tracked.tasks_running i,
      occurrences-discard i id r.waiting,
      tracks-occurrences i id r.waiting waits,
    );
  }

  -- The end of a running task, with its row in a state that is not running.
  release-IsTracked :
      (id : ℕ) (change : Row → Row)
      → ((row : Row) → is_running (change row).status ≡ false)
      → tracks id r.running ≡ true
      → IsTracked max_concurrent (record r {
        slots = r.slots + 1;
        running = discard id r.running;
        table = update id change r.table;
      })
  release-IsTracked id change stops runs = record {
    slots_held = omega (arith, tracked.slots_held, length-discard id r.running runs);
    tasks_running = λ i. ground (
      arith,
      tracked.tasks_running i,
      occurrences-discard i id r.running,
      tracks-occurrences i id r.running runs,
      in_progress-update id change r.table i stops,
      in_progress_bound (r.table i),
    );
  }

  pub finish_task-IsTracked :
      (id : ℕ) (ending : Ending) (now : ℕ)
      → tracks id r.running ≡ true
      → IsTracked max_concurrent (finish_task id ending now r)
  unfolding finish_task
  finish_task-IsTracked id (returned outcomes halted) now runs =
      release-IsTracked id (ended (derive_status outcomes halted) _ now)
        (λ row. not_running (derive_status outcomes halted) (derive_status-ends outcomes halted))
        runs
  finish_task-IsTracked id (raised reason) now runs =
      release-IsTracked id (ended InvestigationStatus.failed _ now) (λ row. refl) runs

pub restart_stopped : (now : ℕ) (o : Option Row) → in_progress (edit (recover_row now) o) ≡ 0
unfolding recover_row
restart_stopped now none = refl
restart_stopped now (some row) = elim (Bool-cases (is_running row.status)) [
  | inl e ↦ rw (e, recover_row) refl
  | inr e ↦ rw (e, recover_row) (rw e refl)
]

restart-IsTracked :
    (max_concurrent now : ℕ) (table : Table)
    → IsTracked max_concurrent (restart max_concurrent now table)
unfolding restart
restart-IsTracked max_concurrent now table = record {
  slots_held = omega arith;
  tasks_running = λ i. sym (restart_stopped now (table i));
}
