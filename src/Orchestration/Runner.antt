-- ===== src/Orchestration/Runner.antt =====
-- src/acip/core/orchestration/runner.py, and the endpoints of src/acip/api/routers/investigations.py that
-- start, retry, cancel and delete an investigation. A task is named by its investigation; `waiting` are the
-- tasks before the semaphore and `running` those that hold one of its slots. The table is a function
-- from the primary key. `finish_task` and `cancel` are what a task's end and a cancellation come to if no
-- other request runs between their writes; Reachable has them write by write. A write that the database
-- refuses is left out, and so is the count that recovery returns for the log.
pub mod Laws
pub mod Tracked
pub mod Reachable
pub mod Settles
pub mod Halted
pub mod Ends
mod Examples
use agentic_cyber_investigat.Prelude.{
  ℕ, suc, ◌+◌, ◌-◌, String, Bool, true, false, not, ◌&&◌, ◌||◌, Option, none, some, List, [], ◌∷◌,
  ◌++◌, map, if◌then◌else◌, any, ◌==◌,
}
use agentic_cyber_investigat.Prelude.Result.{Result, ok, err}
use agentic_cyber_investigat.Types.{InvestigationStatus, terminal}
use agentic_cyber_investigat.Orchestration.Runs.{RunError, budget_exhausted, TaskOutcome}
use agentic_cyber_investigat.Orchestration.Execute.{derive_status, failures}

-- What `investigation.error` tells.
pub data Cause : Type 0 where
  task_failed : RunError → Cause
  orchestrator_raised : String → Cause
  execution_cancelled cancelled_by_user server_restarted : Cause

pub record Row : Type 0 where
  pub status : InvestigationStatus
  pub completed_at : Option ℕ
  pub error : List Cause

abbrev pub Table : Type 0
Table = ℕ → Option Row

pub record Runner : Type 0 where
  pub slots : ℕ
  pub waiting : List ℕ
  pub running : List ℕ
  pub table : Table

-- The runner with the endpoints and tasks that stand between two of their steps: `claims` have committed the
-- row and not yet submitted it, `cancelling` have cancelled a task and not yet marked its row, and `leaving`
-- are tasks that have written their last and still hold their slot.
pub record Service : Type 0 where
  pub tasks : Runner
  pub claims : List ℕ
  pub cancelling : List ℕ
  pub leaving : List ℕ

-- ConflictError with the row's status or for the append-only records, and the error of a row that does not
-- exist.
pub data StartRefusal : Type 0 where
  not_found append_only : StartRefusal
  conflict : InvestigationStatus → StartRefusal

abbrev pub is_running : InvestigationStatus → Bool
is_running InvestigationStatus.running = true
is_running _ = false

abbrev pub is_created : InvestigationStatus → Bool
is_created InvestigationStatus.created = true
is_created _ = false

abbrev pub can_retry : InvestigationStatus → Bool
can_retry InvestigationStatus.failed = true
can_retry InvestigationStatus.halted = true
can_retry InvestigationStatus.partial = true
can_retry _ = false

abbrev pub edit : (Row → Row) → Option Row → Option Row
edit change none = none
edit change (some row) = some (change row)

-- The row of `id` changed.
abbrev pub update : ℕ → (Row → Row) → Table → Table
update id change table i = if i == id then edit change (table i) else table i

abbrev pub ended : InvestigationStatus → List Cause → ℕ → Row → Row
ended status error now row = record { status = status; completed_at = some now; error = error }

-- The list without its first `id`.
abbrev pub discard : ℕ → List ℕ → List ℕ
discard id [] = []
discard id (x ∷ xs) = let rest = discard id xs in if x == id then xs else x ∷ rest

abbrev pub tracks : ℕ → List ℕ → Bool
tracks id tasks = any (λ i. i == id) tasks

-- `runner.submit`, behind the commit of the claim.
abbrev pub submit : ℕ → Service → Service
submit id s = record s {
  tasks = record s.tasks { waiting = id ∷ s.tasks.waiting };
  claims = discard id s.claims;
}

-- The claim of `start_investigation` and `retry_investigation`, up to its commit: the row's status decides.
abbrev pub claimed :
    (InvestigationStatus → Bool) → (Row → Row) → ℕ → Service → Result StartRefusal Service
claimed allowed claim id s = elim (s.tasks.table id) [
  | none ↦ err not_found
  | some row ↦
      if allowed row.status
      then ok (record s {
        tasks = record s.tasks { table = update id claim s.tasks.table };
        claims = id ∷ s.claims;
      })
      else err (conflict row.status)
]

unfoldable pub start_investigation : ℕ → Service → Result StartRefusal Service
start_investigation id s =
    claimed is_created (λ row. record row { status = InvestigationStatus.running }) id s

unfoldable pub retry_investigation : ℕ → Service → Result StartRefusal Service
retry_investigation id s =
    claimed can_retry (λ row. record row { status = InvestigationStatus.running; error = [] }) id s

-- `delete_investigation`, whose tasks go on; `held` says that there are append-only records.
unfoldable pub delete_investigation : Bool → Bool → ℕ → Service → Result StartRefusal Service
delete_investigation held purge id s = elim (s.tasks.table id) [
  | none ↦ err not_found
  | some row ↦
      if held && not purge
      then err append_only
      else ok (record s {
        tasks = record s.tasks { table = λ i. if i == id then none else s.tasks.table i };
      })
]

-- A task gets past the semaphore.
unfoldable pub acquire : ℕ → Runner → Runner
acquire id r = record r {
  slots = r.slots - 1;
  waiting = discard id r.waiting;
  running = id ∷ r.running;
}

abbrev pub release : ℕ → Runner → Runner
release id r = record r { slots = r.slots + 1; running = discard id r.running }

abbrev pub mark_failed : ℕ → InvestigationStatus → Cause → ℕ → Runner → Runner
mark_failed id status cause now r = record r {
  table = update id (ended status (cause ∷ []) now) r.table;
}

-- How `execute` ends if the task is not cancelled.
pub data Ending : Type 0 where
  returned : List TaskOutcome → Bool → Ending
  raised : String → Ending

-- The last write of a task: that of `_finish`, or of the handler of `_guarded`.
abbrev pub last_write : ℕ → Ending → ℕ → Runner → Runner
last_write id (returned outcomes halted) now r =
    let reasons = (if halted then budget_exhausted ∷ [] else []) ++ failures outcomes in
    record r {
      table =
          update id (ended (derive_status outcomes halted) (map task_failed reasons) now) r.table;
    }
last_write id (raised reason) now r =
    mark_failed id InvestigationStatus.failed (orchestrator_raised reason) now r

-- The rest of `_guarded` once `execute` ends.
unfoldable pub finish_task : ℕ → Ending → ℕ → Runner → Runner
finish_task id ending now r = release id (last_write id ending now r)

-- `cancel`: the task unwinds, and the row tells who cancelled.
unfoldable pub cancel : ℕ → ℕ → Runner → Bool × Runner
cancel id now r =
    let halt : Cause → Runner → Runner =
      λ cause q. mark_failed id InvestigationStatus.halted cause now q in
    if tracks id r.running
    then (true, halt cancelled_by_user (release id (halt execution_cancelled r)))
    else if tracks id r.waiting
    then (true, halt cancelled_by_user (record r { waiting = discard id r.waiting }))
    else (false, r)

unfoldable pub cancel_investigation : ℕ → ℕ → Runner → Result StartRefusal Runner
unfolding terminal cancel
cancel_investigation id now r =
    let (cancelled, q) = cancel id now r in
    elim (r.table id) [
      | none ↦ err not_found
      | some row ↦
          if terminal row.status
          then err (conflict row.status)
          else ok (
              if cancelled
              then q
              else mark_failed id InvestigationStatus.halted cancelled_by_user now q)
    ]

-- `shutdown` behind its `wait_all`, during which tasks go on by their own steps: what runs is cancelled
-- and marks its row, what waits is cancelled as it is.
unfoldable pub shutdown : ℕ → Runner → Runner
shutdown now r =
    let halted : Option Row → Option Row =
      edit (ended InvestigationStatus.halted (execution_cancelled ∷ []) now) in
    record r {
      waiting = [];
      running = [];
      table = λ id. if tracks id r.running then halted (r.table id) else r.table id;
    }

unfoldable pub recover_row : ℕ → Row → Row
recover_row now row =
    if is_running row.status
    then ended InvestigationStatus.failed (server_restarted ∷ []) now row
    else row

-- A new process over the table, once it has recovered what was interrupted.
unfoldable pub restart : ℕ → ℕ → Table → Runner
unfolding recover_row
restart max_concurrent now table = record {
  slots = max_concurrent;
  waiting = [];
  running = [];
  table = λ id. edit (recover_row now) (table id);
}
