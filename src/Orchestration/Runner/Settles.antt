-- ===== src/Orchestration/Runner/Settles.antt =====
-- How what is in flight in src/acip/core/orchestration/runner.py comes to its end.
use agentic_cyber_investigat.Prelude.{
  ℕ, zero, suc, ◌+◌, ◌-◌, ◌*◌, ◌≤◌, ◌≡◌, refl, sym, subst, ap, true, List, [], ◌∷◌, length, inl,
  inr, ◌⊎◌, arith,
}
use agentic_cyber_investigat.Orchestration.Runner.{
  Runner, tracks, raised, acquire, finish_task, returned,
}
use agentic_cyber_investigat.Orchestration.Runner.Laws.{
  in_progress, length-discard, occurrences_bound,
}
use agentic_cyber_investigat.Orchestration.Runner.Tracked.{IsTracked}
use agentic_cyber_investigat.Orchestration.Runner.Reachable.{
  TaskStep, acquires, ends, TaskStep-IsTracked,
}

-- The steps that the tasks in flight have before them.
abbrev pub load : Runner → ℕ
load r = 2 * length r.waiting + length r.running

pub TaskStep-load : (r q : Runner) → TaskStep r q → load q + 1 ≡ load r
unfolding acquire finish_task
TaskStep-load r _ (acquires id waits free) = omega (arith, length-discard id r.waiting waits)
TaskStep-load r _ (ends id (returned outcomes halted) now runs) =
    omega (arith, length-discard id r.running runs)
TaskStep-load r _ (ends id (raised reason) now runs) =
    omega (arith, length-discard id r.running runs)

tracks_first : (id : ℕ) (ids : List ℕ) → tracks id (id ∷ ids) ≡ true
tracks_first id ids = ground arith

-- No deadlock: while a task is in flight, one can go on.
goes_on :
    (max_concurrent : ℕ) (r : Runner)
    → 1 ≤ max_concurrent
    → IsTracked max_concurrent r
    → (load r ≡ 0) ⊎ ((q : Runner) × TaskStep r q)
goes_on max_concurrent r positive tracked = by_running r.running refl
  where
    by_waiting :
        (waiting : List ℕ)
        → r.waiting ≡ waiting
        → r.running ≡ []
        → (load r ≡ 0) ⊎ ((q : Runner) × TaskStep r q)
    by_waiting [] e none_runs = inl (rw (e, none_runs) refl)
    by_waiting (id ∷ ids) e none_runs = inr (
      acquire id r,
      acquires id (rw e (tracks_first id ids))
          (omega (arith, tracked.slots_held, ap length none_runs)),
    )

    by_running :
        (running : List ℕ) → r.running ≡ running → (load r ≡ 0) ⊎ ((q : Runner) × TaskStep r q)
    by_running [] e = by_waiting r.waiting refl e
    by_running (id ∷ ids) e =
        inr (finish_task id (raised "") 0 r, ends id (raised "") 0 (rw e (tracks_first id ids)))

-- A run of task steps that stops only where no task can go on.
abbrev pub IsRun : (ℕ → Runner) → Type 0
IsRun run =
    (n : ℕ)
    → TaskStep (run n) (run (suc n))
      ⊎ ((¬ ((q : Runner) × TaskStep (run n) q)) × (run (suc n) ≡ run n))

module _ (max_concurrent : ℕ) (positive : 1 ≤ max_concurrent) (run : ℕ → Runner) (goes : IsRun run)
    (tracked : IsTracked max_concurrent (run 0)) where
  run-load : (n : ℕ) → IsTracked max_concurrent (run n) × (load (run n) ≡ load (run 0) - n)
  run-load zero = (tracked, omega arith)
  run-load (suc n) =
      let (kept, left) = run-load n in
      elim (goes n) [
        | inl step ↦ (
          TaskStep-IsTracked max_concurrent (run n) (run (suc n)) kept step,
          omega (arith, left, TaskStep-load (run n) (run (suc n)) step),
        )
        | inr (stuck, same) ↦ elim (goes_on max_concurrent (run n) positive kept) [
          | inl rest ↦ (
            subst (IsTracked max_concurrent) (sym same) kept,
            omega (arith, ap load same, rest, left),
          )
          | inr next ↦ absurd (stuck next)
        ]
      ]

  -- From a state in which every slot is free or held, and an investigation has a task, and then one, if and
  -- only if its row is marked running, and with a slot at all, a run of the tasks' own steps that stops only
  -- where no task can go on has, after two steps for each task that waits and one for each that runs, no task in flight and no row that is
  -- marked running.
  pub settles :
      let rest = run (load (run 0)) in
      (length rest.waiting + length rest.running ≡ 0) × ((i : ℕ) → in_progress (rest.table i) ≡ 0)
  settles =
      let (kept, left) = run-load (load (run 0)) in
      (
        omega (arith, left),
        λ i. omega (
          arith,
          left,
          kept.tasks_running i,
          occurrences_bound i (run (load (run 0))).waiting,
          occurrences_bound i (run (load (run 0))).running,
        ),
      )
