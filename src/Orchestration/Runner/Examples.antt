-- ===== src/Orchestration/Runner/Examples.antt =====
-- The runner of src/acip/core/orchestration/runner.py with one slot and two investigations.
use agentic_cyber_investigat.Prelude.{
  ℕ, zero, suc, ◌+◌, ◌≡◌, refl, none, some, [], ◌∷◌, length, if◌then◌else◌, ◌==◌, inl, inr, arith,
}
use agentic_cyber_investigat.Prelude.Result.{ok}
use agentic_cyber_investigat.Types.{InvestigationStatus, terminal}
use agentic_cyber_investigat.Orchestration.Runner.{
  Row, Table, Runner, Service, submit, cancelled_by_user, update, recover_row, server_restarted,
  ended, raised, start_investigation, acquire, finish_task, cancel_investigation, shutdown, restart,
}
use agentic_cyber_investigat.Orchestration.Runner.Laws.{in_progress}
use agentic_cyber_investigat.Orchestration.Runner.Tracked.{IsTracked}
use agentic_cyber_investigat.Orchestration.Runner.Reachable.{
  TaskStep, acquires, ends, fresh, Reaches, here, after, starts, marks, submits, IsCarried,
  Reaches-IsCarried,
}
use agentic_cyber_investigat.Orchestration.Runner.Settles.{IsRun, settles}
use agentic_cyber_investigat.Orchestration.Runner.Halted.{IsHalted}
use agentic_cyber_investigat.Orchestration.Runner.Ends.{cancel_investigation_lem, shutdown-restart}

abbrev created : Row
created = record { status = InvestigationStatus.created; completed_at = none; error = [] }

abbrev in_flight : Row
in_flight = record { status = InvestigationStatus.running; completed_at = none; error = [] }

abbrev table : Table
table i = if i == 5 then some created else if i == 6 then some created else none

-- Both are started, and one holds the slot.
abbrev busy : Runner
busy = record {
  slots = 0;
  waiting = 6 ∷ [];
  running = 5 ∷ [];
  table = λ i. if i == 5 then some in_flight else if i == 6 then some in_flight else none;
}

busy-IsTracked : IsTracked 1 busy
busy-IsTracked = record { slots_held = refl; tasks_running = λ i. ground arith }

-- A start of 5 that has committed, and then 5 is cancelled, which finds no task.
abbrev overtaken : Service
overtaken = record (fresh 1 0 table) {
  tasks = record (restart 1 0 table) {
    table = update 5 (ended InvestigationStatus.halted (cancelled_by_user ∷ []) 1) (
        update 5 (λ row. record row { status = InvestigationStatus.running })
          (restart 1 0 table).table);
  };
  claims = 5 ∷ [];
}

-- The start submits its task nevertheless.
overtaken-reached : Reaches 1 (fresh 1 0 table) (submit 5 overtaken)
unfolding restart start_investigation recover_row
overtaken-reached = after (after (after here (starts 5 refl)) (marks 5 1)) (submits 5 refl)

Reaches-IsCarried_example : IsCarried 1 (submit 5 overtaken)
Reaches-IsCarried_example = Reaches-IsCarried 1 0 table (submit 5 overtaken) overtaken-reached

-- Its row is halted, while its task waits.
overtaken_row :
    ((submit 5 overtaken).tasks.table 5
      ≡ some (ended InvestigationStatus.halted (cancelled_by_user ∷ []) 1 in_flight))
    × ((submit 5 overtaken).tasks.waiting ≡ 5 ∷ [])
unfolding restart recover_row
overtaken_row = (refl, refl)

-- 5 fails, 6 gets the slot and fails, and then nothing is in flight.
abbrev run : ℕ → Runner
run zero = busy
run (suc zero) = finish_task 5 (raised "e") 0 busy
run (suc (suc zero)) = acquire 6 (finish_task 5 (raised "e") 0 busy)
run (suc (suc (suc n))) =
    finish_task 6 (raised "e") 1 (acquire 6 (finish_task 5 (raised "e") 0 busy))

at_rest :
    (q : Runner)
    → ¬ TaskStep (finish_task 6 (raised "e") 1 (acquire 6 (finish_task 5 (raised "e") 0 busy))) q
unfolding finish_task acquire
at_rest q (acquires id waits free) = cc
at_rest q (ends id ending now runs) = cc

run-IsRun : IsRun run
unfolding finish_task acquire
run-IsRun zero = inl (ends 5 (raised "e") 0 refl)
run-IsRun (suc zero) = inl (acquires 6 refl (omega arith))
run-IsRun (suc (suc zero)) = inl (ends 6 (raised "e") 1 refl)
run-IsRun (suc (suc (suc n))) = inr (λ (q, step). at_rest q step, refl)

settles_example :
    let rest = run 3 in
    (length rest.waiting + length rest.running ≡ 0) × ((i : ℕ) → in_progress (rest.table i) ≡ 0)
settles_example = settles 1 (omega arith) run run-IsRun busy-IsTracked

cancel_investigation_lem_example :
    (q : Runner) × (cancel_investigation 5 3 busy ≡ ok q) × IsHalted 5 3 in_flight busy q
unfolding terminal
cancel_investigation_lem_example =
    cancel_investigation_lem 1 busy busy-IsTracked 5 3 in_flight refl refl

shutdown-restart_example :
    (restart 1 4 (shutdown 4 busy).table).table 6
    ≡ some (ended InvestigationStatus.failed (server_restarted ∷ []) 4 in_flight)
shutdown-restart_example = shutdown-restart 1 busy busy-IsTracked 6 4 in_flight refl
