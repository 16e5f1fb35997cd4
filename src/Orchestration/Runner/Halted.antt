-- ===== src/Orchestration/Runner/Halted.antt =====
-- What a cancellation in src/acip/core/orchestration/runner.py leaves, by where the task stands.
use agentic_cyber_investigat.Prelude.{
  ℕ, ◌+◌, ◌≤◌, ◌≡◌, ◌≢◌, refl, ap, ◌∙◌, true, false, some, [], ◌∷◌, arith,
}
use agentic_cyber_investigat.Types.{InvestigationStatus}
use agentic_cyber_investigat.Orchestration.Runner.{
  Cause, Row, Table, Runner, cancelled_by_user, execution_cancelled, edit, update, ended, discard,
  tracks,
}
use agentic_cyber_investigat.Orchestration.Runner.Laws.{
  occurrences, occurrences-discard, tracks-occurrences, untracked, in_progress_bound, update_at,
  update_other, occurrences-discard_other,
}
use agentic_cyber_investigat.Orchestration.Runner.Tracked.{IsTracked}

-- The row is halted by the user, no task of it is left, and the others are as before.
pub record IsHalted (id now : ℕ) (row : Row) (r q : Runner) : Type 0 where
  pub row_halted :
      q.table id ≡ some (ended InvestigationStatus.halted (cancelled_by_user ∷ []) now row)
  pub no_task : occurrences id q.waiting + occurrences id q.running ≡ 0
  pub other_rows : (i : ℕ) → i ≢ id → q.table i ≡ r.table i
  pub other_waiting : (i : ℕ) → i ≢ id → occurrences i q.waiting ≡ occurrences i r.waiting
  pub other_running : (i : ℕ) → i ≢ id → occurrences i q.running ≡ occurrences i r.running

module _ (max_concurrent : ℕ) (r : Runner) (tracked : IsTracked max_concurrent r) where
  one_task : (id : ℕ) → occurrences id r.waiting + occurrences id r.running ≤ 1
  one_task id = omega (arith, tracked.tasks_running id, in_progress_bound (r.table id))

  abbrev halt : ℕ → Cause → Row → Row
  halt now cause = ended InvestigationStatus.halted (cause ∷ []) now

  -- The task is cancelled where it runs, writes its row, and then the caller writes it again.
  abbrev pub out_of_running : ℕ → ℕ → Runner
  out_of_running id now = record {
    slots = r.slots + 1;
    waiting = r.waiting;
    running = discard id r.running;
    table =
        update id (halt now cancelled_by_user) (update id (halt now execution_cancelled) r.table);
  }

  abbrev pub out_of_waiting : ℕ → ℕ → Runner
  out_of_waiting id now = record {
    slots = r.slots;
    waiting = discard id r.waiting;
    running = r.running;
    table = update id (halt now cancelled_by_user) r.table;
  }

  abbrev pub row_alone : ℕ → ℕ → Runner
  row_alone id now = record r { table = update id (halt now cancelled_by_user) r.table }

  pub out_of_running-IsHalted :
      (id now : ℕ) (row : Row)
      → r.table id ≡ some row
      → tracks id r.running ≡ true
      → IsHalted id now row r (out_of_running id now)
  out_of_running-IsHalted id now row known runs =
      let once : Table = update id (halt now execution_cancelled) r.table in
      record {
        row_halted =
            update_at id (halt now cancelled_by_user) once
            ∙ ap (edit (halt now cancelled_by_user)) (
                update_at id (halt now execution_cancelled) r.table
                ∙ ap (edit (halt now execution_cancelled)) known);
        no_task = ground (
          arith,
          one_task id,
          occurrences-discard id id r.running,
          tracks-occurrences id id r.running runs,
        );
        other_rows = λ i other.
            update_other id i (halt now cancelled_by_user) once other
            ∙ update_other id i (halt now execution_cancelled) r.table other;
        other_waiting = λ i other. refl;
        other_running = λ i other. occurrences-discard_other i id r.running other;
      }

  pub out_of_waiting-IsHalted :
      (id now : ℕ) (row : Row)
      → r.table id ≡ some row
      → tracks id r.waiting ≡ true
      → IsHalted id now row r (out_of_waiting id now)
  out_of_waiting-IsHalted id now row known waits = record {
    row_halted =
        update_at id (halt now cancelled_by_user) r.table
        ∙ ap (edit (halt now cancelled_by_user)) known;
    no_task = ground (
      arith,
      one_task id,
      occurrences-discard id id r.waiting,
      tracks-occurrences id id r.waiting waits,
    );
    other_rows = λ i other. update_other id i (halt now cancelled_by_user) r.table other;
    other_waiting = λ i other. occurrences-discard_other i id r.waiting other;
    other_running = λ i other. refl;
  }

  pub row_alone-IsHalted :
      (id now : ℕ) (row : Row)
      → r.table id ≡ some row
      → tracks id r.running ≡ false
      → tracks id r.waiting ≡ false
      → IsHalted id now row r (row_alone id now)
  row_alone-IsHalted id now row known stands away = record {
    row_halted =
        update_at id (halt now cancelled_by_user) r.table
        ∙ ap (edit (halt now cancelled_by_user)) known;
    no_task = omega (arith, untracked id r.waiting away, untracked id r.running stands);
    other_rows = λ i other. update_other id i (halt now cancelled_by_user) r.table other;
    other_waiting = λ i other. refl;
    other_running = λ i other. refl;
  }
