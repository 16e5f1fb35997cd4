-- ===== src/Orchestration/Runner/Ends.antt =====
-- What a start, a cancellation and the end of the process come to in src/acip/core/orchestration/runner.py,
-- by where the investigation's task stands.
use agentic_cyber_investigat.Prelude.{
  ℕ, ◌+◌, ◌≡◌, refl, sym, ap, ◌∙◌, true, false, some, [], ◌∷◌, if◌then◌else◌, Bool-cases, inl, inr,
  arith,
}
use agentic_cyber_investigat.Prelude.Result.{ok}
use agentic_cyber_investigat.Types.{InvestigationStatus, terminal}
use agentic_cyber_investigat.Orchestration.Runner.{
  Row, Runner, execution_cancelled, server_restarted, ended, tracks, is_running, cancel,
  cancel_investigation, shutdown, recover_row, restart,
}
use agentic_cyber_investigat.Orchestration.Runner.Laws.{
  occurrences, in_progress, tracks-occurrences, untracked,
}
use agentic_cyber_investigat.Orchestration.Runner.Tracked.{IsTracked}
use agentic_cyber_investigat.Orchestration.Runner.Halted.{
  IsHalted, out_of_running, out_of_waiting, row_alone, out_of_running-IsHalted,
  out_of_waiting-IsHalted, row_alone-IsHalted,
}

module _ (max_concurrent : ℕ) (r : Runner) (tracked : IsTracked max_concurrent r) where
  marked :
      (i : ℕ) (row : Row)
      → r.table i ≡ some row
      → (if is_running row.status then 1 else 0) ≡ occurrences i r.waiting + occurrences i r.running
  marked i row known = sym (tracked.tasks_running i ∙ ap in_progress known)

  runs_if_waiting :
      (i : ℕ) (row : Row)
      → r.table i ≡ some row
      → tracks i r.waiting ≡ true
      → is_running row.status ≡ true
  runs_if_waiting i row known waits =
      ground (arith, marked i row known, tracks-occurrences i i r.waiting waits)

  idle_if_away :
      (i : ℕ) (row : Row)
      → r.table i ≡ some row
      → tracks i r.waiting ≡ false
      → tracks i r.running ≡ false
      → is_running row.status ≡ false
  idle_if_away i row known away stands =
      ground (arith, marked i row known, untracked i r.waiting away, untracked i r.running stands)

  -- Where the tasks agree with the rows, a cancellation of an investigation that has not ended, with no other
  -- request between its writes, succeeds: the row is halted by the user, no task
  -- of it is left, and the rows and tasks of the others are as before.
  pub cancel_investigation_lem :
      (id now : ℕ) (row : Row)
      → r.table id ≡ some row
      → terminal row.status ≡ false
      → (q : Runner) × (cancel_investigation id now r ≡ ok q) × IsHalted id now row r q
  unfolding cancel_investigation cancel
  cancel_investigation_lem id now row known lasts = elim (Bool-cases (tracks id r.running)) [
    | inl runs ↦ (
      out_of_running max_concurrent r tracked id now,
      rw (known, lasts, runs, cancel_investigation, cancel) refl,
      out_of_running-IsHalted max_concurrent r tracked id now row known runs,
    )
    | inr stands ↦ elim (Bool-cases (tracks id r.waiting)) [
      | inl waits ↦ (
        out_of_waiting max_concurrent r tracked id now,
        rw (known, lasts, stands, waits, cancel_investigation, cancel) refl,
        out_of_waiting-IsHalted max_concurrent r tracked id now row known waits,
      )
      | inr away ↦ (
        row_alone max_concurrent r tracked id now,
        rw (known, lasts, stands, away, cancel_investigation, cancel) refl,
        row_alone-IsHalted max_concurrent r tracked id now row known stands away,
      )
    ]
  ]

  -- Where the tasks agree with the rows, after a shutdown and a restart an investigation whose task was running is halted, one whose task was
  -- waiting has failed by the restart, and the row of one without a task is as it was.
  pub shutdown-restart :
      (i now : ℕ) (row : Row)
      → r.table i ≡ some row
      → (restart max_concurrent now (shutdown now r).table).table i
        ≡ some (
            if tracks i r.running
            then ended InvestigationStatus.halted (execution_cancelled ∷ []) now row
            else if tracks i r.waiting
            then ended InvestigationStatus.failed (server_restarted ∷ []) now row
            else row)
  unfolding restart shutdown recover_row
  shutdown-restart i now row known = elim (Bool-cases (tracks i r.running)) [
    | inl runs ↦ rw (known, runs, restart, shutdown) refl
    | inr stands ↦ elim (Bool-cases (tracks i r.waiting)) [
      | inl waits ↦
          rw
            (
              stands,
              known,
              waits,
              runs_if_waiting i row known waits,
              restart,
              shutdown,
              recover_row,
            )
            refl
      | inr away ↦
          rw
            (
              stands,
              known,
              away,
              idle_if_away i row known away stands,
              restart,
              shutdown,
              recover_row,
            )
            refl
    ]
  ]
