-- ===== src/Orchestration/Execute/Trail.antt =====
-- The loop of `execute` in src/acip/core/orchestration/orchestrator.py: its end, its outcomes and the
-- rows that it leaves.
use mathlib.Core.List.{append-nil, append_assoc}
use Prim.Native.Nat.{max}
use text.Mathlib.Text.{◌==◌ as str_eq}
use agentic_cyber_investigat.Prelude.{
  ℕ, zero, suc, ◌+◌, ◌-◌, ◌≤◌, ◌≡◌, refl, sym, ap, ◌∙◌, subst, String, Bool, true, false, not, ◌&&◌,
  Option, none, some, List, [], ◌∷◌, ◌++◌, map, length, take, any, select, All-append,
  length-append, length-take, arith, if◌then◌else◌, Bool-cases, List-cases, inl, inr, ltb, ◌==◌,
}
use agentic_cyber_investigat.Prelude.Sort.{All_select}
use agentic_cyber_investigat.Prelude.Result.{ok}
use agentic_cyber_investigat.Types.{ArtifactKind}
use agentic_cyber_investigat.Orchestration.Registry.{AgentRegistry, has, Task, Plan}
use agentic_cyber_investigat.Orchestration.Planner.Laws.{AllRegistered}
use agentic_cyber_investigat.Orchestration.Runs.{AgentResult, AgentRun, Session, TaskOutcome}
use agentic_cyber_investigat.Orchestration.Runs.Laws.{
  run_of, AllBelow, AllBelow-append, run_task_lem, skip_lem,
}
use agentic_cyber_investigat.Orchestration.Execute.{
  interpret_triage_result, is_succeeded, is_report, report_grace, Config, Progress, derive_status,
  within, first_plan, advance,
}
use agentic_cyber_investigat.Orchestration.Execute.Turns.{
  begin, is_adaptive, extend, turn, loop, finish, execute,
}
use agentic_cyber_investigat.Orchestration.Execute.Laws.{interpret_triage_result-AllRegistered}

take-AllRegistered :
    (agents : AgentRegistry) (n : ℕ) (ts : List Task)
    → AllRegistered agents ts
    → AllRegistered agents (take n ts)
take-AllRegistered agents zero ts h = tt
take-AllRegistered agents (suc n) [] h = tt
take-AllRegistered agents (suc n) (t ∷ ts) h = (h.0, take-AllRegistered agents n ts h.1)

within_lem :
    (agents : AgentRegistry) (slots : ℕ) (ts : List Task)
    → AllRegistered agents ts
    → AllRegistered agents (within slots ts) × (length (within slots ts) ≤ slots)
within_lem agents slots ts h = elim (Bool-cases (ltb slots (length ts))) [
  | inl e ↦ rw e (take-AllRegistered agents slots ts h, omega (arith, length-take slots ts))
  | inr e ↦ rw e (h, ground arith)
]

module _ {D : Type 0} (config : Config D) where
  -- Behind the rows of earlier executions each agent run row is the row of one outcome, in order; the outcomes' tasks and the pending tasks
  -- are the plan; the plan names registered agents and stays within its bound.
  pub record Trail (earlier : List AgentRun) (p : Progress D) : Type 0 where
    pub rows : p.session.agent_runs ≡ earlier ++ map run_of p.outcomes
    pub ids : AllBelow (length p.session.agent_runs) p.session.agent_runs
    pub order : map (λ o. o.task) p.outcomes ++ p.pending ≡ p.planned
    pub known : AllRegistered config.agents p.pending
    pub bound : length p.planned ≤ max config.max_tasks 1

  map-snoc :
      {A B : Type 0} (f : A → B) (xs : List A) (x : A) → map f (xs ++ x ∷ []) ≡ map f xs ++ f x ∷ []
  map-snoc f [] x = refl
  map-snoc f (y ∷ xs) x = ap (◌∷◌ (f y)) (map-snoc f xs x)

  length-map : {A B : Type 0} (f : A → B) (xs : List A) → length (map f xs) ≡ length xs
  length-map f [] = refl
  length-map f (x ∷ xs) = ap suc (length-map f xs)

  extend-Trail :
      (earlier : List AgentRun) (artifacts : List ArtifactKind) (p : Progress D)
      (result : Option AgentResult)
      → Trail earlier p
      → Trail earlier (extend config artifacts p result)
        × ((extend config artifacts p result).outcomes ≡ p.outcomes)
  unfolding extend
  extend-Trail earlier artifacts p result h =
      let created = (interpret_triage_result config.agents result artifacts).0 in
      let fresh =
        select (λ t. not (any (λ u. str_eq u.agent_name t.agent_name) p.planned)) created in
      let slots = config.max_tasks - length p.planned in
      let registered = interpret_triage_result-AllRegistered config.agents result artifacts in
      let fits = within_lem config.agents slots fresh (
        All_select (λ t. has config.agents t.agent_name ≡ true)
          (λ t. not (any (λ u. str_eq u.agent_name t.agent_name) p.planned)) created registered) in
      elim (Bool-cases (is_adaptive config)) [
        | inl e ↦ rw e (
          record {
            rows = h.rows;
            ids = h.ids;
            order =
                sym (append_assoc (map (λ o. o.task) p.outcomes) p.pending (within slots fresh))
                ∙ ap (λ l. l ++ within slots fresh) h.order;
            known =
                All-append (λ t. has config.agents t.agent_name ≡ true) p.pending
                  (within slots fresh) h.known fits.0;
            bound =
                let old = h.bound in
                let new = fits.1 in omega (arith, length-append p.planned (within slots fresh));
          },
          refl,
        )
        | inr e ↦ rw e (
          record { rows = h.rows; ids = h.ids; order = h.order; known = h.known; bound = h.bound },
          refl,
        )
      ]

  advance-Trail :
      (earlier : List AgentRun) (p : Progress D) (t : Task) (rest : List Task) (w : Session D)
      (o : TaskOutcome) (halt : Bool)
      → Trail earlier p
      → p.pending ≡ t ∷ rest
      → o.task ≡ t
      → o.agent_run_id ≡ length p.session.agent_runs
      → w.agent_runs ≡ p.session.agent_runs ++ run_of o ∷ []
      → Trail earlier (advance p rest (w, o) halt)
  advance-Trail earlier p t rest w o halt h next same id row = record {
    rows =
        row
        ∙ ap (λ l. l ++ run_of o ∷ []) h.rows
        ∙ append_assoc earlier (map run_of p.outcomes) (run_of o ∷ [])
        ∙ sym (ap (λ l. earlier ++ l) (map-snoc run_of p.outcomes o));
    ids = rw row (AllBelow-append p.session.agent_runs (run_of o) h.ids id);
    order =
        ap (λ l. l ++ rest) (map-snoc (λ o. o.task) p.outcomes o)
        ∙ append_assoc (map (λ o. o.task) p.outcomes) (o.task ∷ []) rest
        ∙ ap (λ u. map (λ o. o.task) p.outcomes ++ (u ∷ rest)) same
        ∙ sym (ap (λ l. map (λ o. o.task) p.outcomes ++ l) next)
        ∙ h.order;
    known = (subst (AllRegistered config.agents) next h.known).1;
    bound = h.bound;
  }

  turn-Trail :
      (earlier : List AgentRun) (artifacts : List ArtifactKind) (p : Progress D) (t : Task)
      (rest : List Task)
      → Trail earlier p
      → p.pending ≡ t ∷ rest
      → (q : Progress D) × (turn config artifacts p t rest ≡ ok q)
        × Trail earlier q
        × (length q.outcomes ≡ length p.outcomes + 1)
  unfolding turn
  turn-Trail earlier artifacts p t rest h next =
      let known = (subst (AllRegistered config.agents) next h.known).0 in
      let left = config.remaining p.task_idx in
      let budget = if is_report t then max left report_grace else left in
      elim (Bool-cases (left == 0 && not (is_report t))) [
        | inl e ↦
            let (done, ended, same, id, row, _, _) = skip_lem config.agents p.session t known in
            (
              advance p rest done true,
              rw (e, ended) refl,
              advance-Trail earlier p t rest done.0 done.1 true h next same id row,
              length-append p.outcomes (done.1 ∷ []),
            )
        | inr e ↦
            let (done, ended, (same, id, row, _, _)) =
              run_task_lem config.agents config.agent p.session t budget known h.ids in
            let q = advance p rest done false in
            let trail = advance-Trail earlier p t rest done.0 done.1 false h next same id row in
            let (trail', same_outcomes) = extend-Trail earlier artifacts q done.1.result trail in
            elim (Bool-cases
              (str_eq t.agent_name "triage" && is_succeeded done.1.status && p.task_idx == 0)) [
                | inl c ↦ (
                  extend config artifacts q done.1.result,
                  rw (e, ended, c) refl,
                  trail',
                  ap length same_outcomes ∙ length-append p.outcomes (done.1 ∷ []),
                )
                | inr c ↦ (q, rw (e, ended, c) refl, trail, length-append p.outcomes (done.1 ∷ []))
              ]
      ]

  loop-turn :
      (artifacts : List ArtifactKind) (fuel : ℕ) (p q : Progress D) (t : Task) (rest : List Task)
      → p.pending ≡ t ∷ rest
      → turn config artifacts p t rest ≡ ok q
      → loop config artifacts (suc fuel) p ≡ loop config artifacts fuel q
  unfolding loop turn
  loop-turn artifacts fuel p q t rest next turned = rw (next, turned) refl

  loop-Trail :
      (earlier : List AgentRun) (artifacts : List ArtifactKind) (fuel : ℕ) (p : Progress D)
      → Trail earlier p
      → max config.max_tasks 1 ≤ fuel + length p.outcomes
      → (q : Progress D) × (loop config artifacts fuel p ≡ ok q)
        × Trail earlier q
        × (q.pending ≡ [])
  unfolding loop turn
  loop-Trail earlier artifacts zero p h enough = elim (List-cases p.pending) [
    | inl e ↦ (p, rw e refl, h, e)
    | inr (t, rest, e) ↦
        let planned = ap length h.order in
        let some_left : length p.pending ≡ suc (length rest) = ap length e in
        let old = h.bound in
        absurd (
          omega (
            arith,
            length-append (map (λ o. o.task) p.outcomes) p.pending,
            length-map (λ o. o.task) p.outcomes,
          ))
  ]
  loop-Trail earlier artifacts (suc fuel) p h enough = elim (List-cases p.pending) [
    | inl e ↦ (p, rw e refl, h, e)
    | inr (t, rest, e) ↦
        let (q, turned, trail, longer) = turn-Trail earlier artifacts p t rest h e in
        let (r, looped, trail', empty) = loop-Trail earlier artifacts fuel q trail (omega arith) in
        (r, loop-turn artifacts fuel p q t rest e turned ∙ looped, trail', empty)
  ]

  first_plan-length :
      (max_tasks : ℕ) (planner : Option (String × Plan))
      → length (first_plan max_tasks planner).tasks ≤ max max_tasks 1
  first_plan-length max_tasks none = omega arith
  first_plan-length max_tasks (some (name, plan)) =
      elim (Bool-cases (ltb max_tasks (length plan.tasks))) [
        | inl e ↦ rw e (omega (arith, length-take max_tasks plan.tasks))
        | inr e ↦ rw e (ground arith)
      ]

  begin-Trail :
      (w : Session D)
      → AllBelow (length w.agent_runs) w.agent_runs
      → AllRegistered config.agents (first_plan config.max_tasks config.planner).tasks
      → Trail w.agent_runs (begin config w)
  unfolding begin
  begin-Trail w below known = record {
    rows = sym (append-nil w.agent_runs);
    ids = below;
    order = refl;
    known = known;
    bound = first_plan-length config.max_tasks config.planner;
  }

  -- Where the first plan names registered agents, the run of an investigation ends: one turn for each
  -- task that the limit allows is enough. Then no task is pending, each task of the final plan has its
  -- outcome, in the order of the plan, behind the agent run rows of earlier executions each outcome has its
  -- own and there is no other, the final plan is within the limit, and the stored status is the one derived
  -- from the outcomes. The earlier rows have the ids that are given out.
  pub execute_lem :
      (artifacts : List ArtifactKind) (fuel : ℕ) (w : Session D)
      → AllBelow (length w.agent_runs) w.agent_runs
      → AllRegistered config.agents (first_plan config.max_tasks config.planner).tasks
      → max config.max_tasks 1 ≤ fuel
      → (q : Progress D) × (execute config artifacts fuel w ≡ ok q)
        × (q.pending ≡ [])
        × (map (λ o. o.task) q.outcomes ≡ q.planned)
        × (q.session.agent_runs ≡ w.agent_runs ++ map run_of q.outcomes)
        × (length q.planned ≤ max config.max_tasks 1)
        × (q.session.status ≡ derive_status q.outcomes q.halted)
  unfolding execute finish begin
  execute_lem artifacts fuel w below known enough =
      let (q, looped, trail, empty) =
        loop-Trail w.agent_runs artifacts fuel (begin config w) (begin-Trail w below known)
          (omega arith) in
      (
        finish config q,
        rw looped refl,
        empty,
        sym (append-nil (map (λ o. o.task) q.outcomes))
            ∙ ap (λ l. map (λ o. o.task) q.outcomes ++ l) (sym empty)
            ∙ trail.order,
        trail.rows,
        trail.bound,
        refl,
      )
