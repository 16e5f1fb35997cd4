-- ===== src/Orchestration/Runner/Reachable.antt =====
-- The service of src/acip/core/orchestration/runner.py and the endpoints that use it as a step relation,
-- write by write, and what holds in every state that it reaches.
use agentic_cyber_investigat.Prelude.{
  ℕ, ◌+◌, ◌≤◌, ◌≡◌, refl, subst, Bool, true, false, none, some, List, [], ◌∷◌, length,
  if◌then◌else◌, ◌==◌, arith, not, ◌&&◌, Option-cases, Bool-cases, inl, inr,
}
use agentic_cyber_investigat.Prelude.Result.{ok, Returned}
use agentic_cyber_investigat.Types.{InvestigationStatus}
use agentic_cyber_investigat.Orchestration.Execute.{derive_status}
use agentic_cyber_investigat.Orchestration.Runner.{
  Row, Table, Runner, Service, Ending, returned, raised, execution_cancelled, cancelled_by_user,
  claimed, submit, update, ended, discard, tracks, is_running, is_created, can_retry,
  start_investigation, retry_investigation, delete_investigation, acquire, last_write, finish_task,
  mark_failed, shutdown, restart,
}
use agentic_cyber_investigat.Orchestration.Runner.Tracked.{
  IsTracked, acquire-IsTracked, finish_task-IsTracked, restart_stopped,
}
use agentic_cyber_investigat.Orchestration.Runner.Laws.{
  occurrences, in_progress, occurrences-discard, tracks-occurrences, length-discard,
  in_progress-update, in_progress-edit, not_running, derive_status-ends,
}

-- A task's own step, with no other request between the writes of its end: it gets past the semaphore, or
-- its execution ends.
pub data TaskStep (r : Runner) : Runner → Type 0 where
  acquires : (id : ℕ) → tracks id r.waiting ≡ true → 1 ≤ r.slots → TaskStep r (acquire id r)
  ends :
      (id : ℕ) (ending : Ending) (now : ℕ)
      → tracks id r.running ≡ true
      → TaskStep r (finish_task id ending now r)

pub TaskStep-IsTracked :
    (max_concurrent : ℕ) (r q : Runner)
    → IsTracked max_concurrent r
    → TaskStep r q
    → IsTracked max_concurrent q
TaskStep-IsTracked max_concurrent r _ tracked (acquires id waits free) =
    acquire-IsTracked max_concurrent r tracked id waits free
TaskStep-IsTracked max_concurrent r _ tracked (ends id ending now runs) =
    finish_task-IsTracked max_concurrent r tracked id ending now runs

-- A running task has written its last.
abbrev go_on_leaving : ℕ → Runner → Service → Service
go_on_leaving id written s = record s {
  tasks = record written { running = discard id s.tasks.running };
  leaving = id ∷ s.leaving;
}

-- A process that has just recovered the rows.
abbrev pub fresh : ℕ → ℕ → Table → Service
fresh max_concurrent now table = record {
  tasks = restart max_concurrent now table;
  claims = [];
  cancelling = [];
  leaving = [];
}

-- A step of the service. `begins` is the write of `_begin`. A row is created for a key that has none. A
-- cancellation cancels a task that runs or waits, and marks the row once that has unwound; one that finds no
-- task marks the row at once, by a status that it has read before. A process that ends, by shutdown or
-- without it, is followed by a new one.
pub data Step (max_concurrent : ℕ) (s : Service) : Service → Type 0 where
  acquires :
      (id : ℕ)
      → tracks id s.tasks.waiting ≡ true
      → 1 ≤ s.tasks.slots
      → Step max_concurrent s (record s { tasks = acquire id s.tasks })
  begins :
      (id : ℕ)
      → tracks id s.tasks.running ≡ true
      → Step max_concurrent s (record s {
        tasks = record s.tasks {
          table =
              update id
                (λ row. record row { status = InvestigationStatus.running; error = [] })
                s.tasks.table;
        };
      })
  writes :
      (id : ℕ) (ending : Ending) (now : ℕ)
      → tracks id s.tasks.running ≡ true
      → Step max_concurrent s (go_on_leaving id (last_write id ending now s.tasks) s)
  leaves :
      (id : ℕ)
      → tracks id s.leaving ≡ true
      → Step max_concurrent s (record s {
        tasks = record s.tasks { slots = s.tasks.slots + 1 };
        leaving = discard id s.leaving;
      })
  creates :
      (id : ℕ)
      → s.tasks.table id ≡ none
      → Step max_concurrent s (record s {
        tasks = record s.tasks {
          table = λ i.
              if i == id
              then some
                  (record { status = InvestigationStatus.created; completed_at = none; error = [] })
              else s.tasks.table i;
        };
      })
  starts : (id : ℕ) {q : Service} → start_investigation id s ≡ ok q → Step max_concurrent s q
  retries : (id : ℕ) {q : Service} → retry_investigation id s ≡ ok q → Step max_concurrent s q
  submits : (id : ℕ) → tracks id s.claims ≡ true → Step max_concurrent s (submit id s)
  deletes :
      (held purge : Bool) (id : ℕ) {q : Service}
      → delete_investigation held purge id s ≡ ok q
      → Step max_concurrent s q
  cancels_running :
      (id now : ℕ)
      → tracks id s.tasks.running ≡ true
      → Step max_concurrent s
          (record (go_on_leaving id
            (mark_failed id InvestigationStatus.halted execution_cancelled now s.tasks)
            s) { cancelling = id ∷ s.cancelling })
  cancels_waiting :
      (id : ℕ)
      → tracks id s.tasks.waiting ≡ true
      → Step max_concurrent s (record s {
        tasks = record s.tasks { waiting = discard id s.tasks.waiting };
        cancelling = id ∷ s.cancelling;
      })
  marks :
      (id now : ℕ)
      → Step max_concurrent s (record s {
        tasks = mark_failed id InvestigationStatus.halted cancelled_by_user now s.tasks;
        cancelling = discard id s.cancelling;
      })
  shuts_down :
      (now : ℕ) → Step max_concurrent s (fresh max_concurrent now (shutdown now s.tasks).table)
  crashes : (now : ℕ) → Step max_concurrent s (fresh max_concurrent now s.tasks.table)

-- The states that a process comes to.
pub data Reaches (max_concurrent : ℕ) (s : Service) : Service → Type 0 where
  here : Reaches max_concurrent s s
  after :
      {p q : Service}
      → Reaches max_concurrent s p
      → Step max_concurrent p q
      → Reaches max_concurrent s q

-- Every slot is free or held, and a row that is marked running has something that will go on with it: a task,
-- a request that will submit one, or a cancellation that will mark the row.
pub record IsCarried (max_concurrent : ℕ) (s : Service) : Type 0 where
  pub slots_held : length s.tasks.running + length s.leaving + s.tasks.slots ≡ max_concurrent
  pub carried :
      (i : ℕ)
      → in_progress (s.tasks.table i)
        ≤ occurrences i s.tasks.waiting
          + occurrences i s.tasks.running
          + occurrences i s.claims
          + occurrences i s.cancelling

fresh-IsCarried :
    (max_concurrent now : ℕ) (table : Table)
    → IsCarried max_concurrent (fresh max_concurrent now table)
unfolding restart
fresh-IsCarried max_concurrent now table = record {
  slots_held = omega arith;
  carried = λ i. omega (arith, restart_stopped now (table i));
}

module _ (max_concurrent : ℕ) (s : Service) (h : IsCarried max_concurrent s) where
  acquire-IsCarried :
      (id : ℕ)
      → tracks id s.tasks.waiting ≡ true
      → 1 ≤ s.tasks.slots
      → IsCarried max_concurrent (record s { tasks = acquire id s.tasks })
  unfolding acquire
  acquire-IsCarried id waits free = record {
    slots_held = omega (arith, h.slots_held);
    carried = λ i. ground (
      arith,
      h.carried i,
      occurrences-discard i id s.tasks.waiting,
      tracks-occurrences i id s.tasks.waiting waits,
    );
  }

  begin-IsCarried :
      (id : ℕ) (change : Row → Row)
      → tracks id s.tasks.running ≡ true
      → IsCarried max_concurrent
          (record s { tasks = record s.tasks { table = update id change s.tasks.table } })
  begin-IsCarried id change runs = record {
    slots_held = h.slots_held;
    carried = λ i. ground (
      arith,
      h.carried i,
      in_progress-edit id change s.tasks.table i,
      tracks-occurrences i id s.tasks.running runs,
    );
  }

  -- What becomes of a running task that writes its last and leaves.
  leaving-IsCarried :
      (id : ℕ) (change : Row → Row)
      → ((row : Row) → is_running (change row).status ≡ false)
      → tracks id s.tasks.running ≡ true
      → (cancelling : List ℕ) → ((i : ℕ) → occurrences i s.cancelling ≤ occurrences i cancelling)
      → IsCarried max_concurrent (record s {
        tasks = record s.tasks {
          running = discard id s.tasks.running;
          table = update id change s.tasks.table;
        };
        cancelling = cancelling;
        leaving = id ∷ s.leaving;
      })
  leaving-IsCarried id change stops runs cancelling more = record {
    slots_held = omega (arith, h.slots_held, length-discard id s.tasks.running runs);
    carried = λ i. ground (
      arith,
      h.carried i,
      more i,
      occurrences-discard i id s.tasks.running,
      in_progress-update id change s.tasks.table i stops,
    );
  }

  write-IsCarried :
      (id : ℕ) (ending : Ending) (now : ℕ)
      → tracks id s.tasks.running ≡ true
      → IsCarried max_concurrent (go_on_leaving id (last_write id ending now s.tasks) s)
  write-IsCarried id (returned outcomes halted) now runs =
      leaving-IsCarried id (ended (derive_status outcomes halted) _ now)
        (λ row. not_running (derive_status outcomes halted) (derive_status-ends outcomes halted))
        runs s.cancelling (λ i. omega arith)
  write-IsCarried id (raised reason) now runs =
      leaving-IsCarried id (ended InvestigationStatus.failed _ now) (λ row. refl) runs s.cancelling
        (λ i. omega arith)

  leave-IsCarried :
      (id : ℕ)
      → tracks id s.leaving ≡ true
      → IsCarried max_concurrent (record s {
        tasks = record s.tasks { slots = s.tasks.slots + 1 };
        leaving = discard id s.leaving;
      })
  leave-IsCarried id left = record {
    slots_held = omega (arith, h.slots_held, length-discard id s.leaving left);
    carried = h.carried;
  }

  -- A table that has no more running rows than before.
  table-IsCarried :
      (table : Table)
      → ((i : ℕ) → in_progress (table i) ≤ in_progress (s.tasks.table i))
      → IsCarried max_concurrent (record s { tasks = record s.tasks { table = table } })
  table-IsCarried table fewer = record {
    slots_held = h.slots_held;
    carried = λ i. omega (arith, h.carried i, fewer i);
  }

  claimed-IsCarried :
      (allowed : InvestigationStatus → Bool) (change : Row → Row) (id : ℕ)
      → Returned (IsCarried max_concurrent) (claimed allowed change id s)
  claimed-IsCarried allowed change id = elim (Option-cases (s.tasks.table id)) [
    | inl e ↦ rw (e, Returned) tt
    | inr (row, e) ↦ elim (Bool-cases (allowed row.status)) [
      | inl may ↦
          rw (e, may, Returned)
            (record {
              slots_held = h.slots_held;
              carried =
                  λ i. ground (arith, h.carried i, in_progress-edit id change s.tasks.table i);
            })
      | inr refused ↦ rw (e, refused, Returned) tt
    ]
  ]

  start-IsCarried : (id : ℕ) → Returned (IsCarried max_concurrent) (start_investigation id s)
  unfolding start_investigation
  start-IsCarried id = claimed-IsCarried is_created _ id

  retry-IsCarried : (id : ℕ) → Returned (IsCarried max_concurrent) (retry_investigation id s)
  unfolding retry_investigation
  retry-IsCarried id = claimed-IsCarried can_retry _ id

  submit-IsCarried : (id : ℕ) → tracks id s.claims ≡ true → IsCarried max_concurrent (submit id s)
  submit-IsCarried id claims = record {
    slots_held = h.slots_held;
    carried = λ i. ground (arith, h.carried i, occurrences-discard i id s.claims);
  }

  delete-IsCarried :
      (held purge : Bool) (id : ℕ)
      → Returned (IsCarried max_concurrent) (delete_investigation held purge id s)
  unfolding delete_investigation
  delete-IsCarried held purge id = elim (Option-cases (s.tasks.table id)) [
    | inl e ↦ rw (e, delete_investigation, Returned) tt
    | inr (row, e) ↦ elim (Bool-cases (held && not purge)) [
      | inl refused ↦ rw (e, refused, delete_investigation, Returned) tt
      | inr may ↦
          rw (e, may, delete_investigation, Returned)
            (table-IsCarried (λ i. if i == id then none else s.tasks.table i) (λ i. ground arith))
    ]
  ]

  withdraw-IsCarried :
      (id : ℕ)
      → IsCarried max_concurrent (record s {
        tasks = record s.tasks { waiting = discard id s.tasks.waiting };
        cancelling = id ∷ s.cancelling;
      })
  withdraw-IsCarried id = record {
    slots_held = h.slots_held;
    carried = λ i. ground (arith, h.carried i, occurrences-discard i id s.tasks.waiting);
  }

  mark-IsCarried :
      (id now : ℕ)
      → IsCarried max_concurrent (record s {
        tasks = mark_failed id InvestigationStatus.halted cancelled_by_user now s.tasks;
        cancelling = discard id s.cancelling;
      })
  mark-IsCarried id now = record {
    slots_held = h.slots_held;
    carried = λ i. ground (
      arith,
      h.carried i,
      occurrences-discard i id s.cancelling,
      in_progress-update id (ended InvestigationStatus.halted (cancelled_by_user ∷ []) now)
          s.tasks.table i (λ row. refl),
    );
  }

  created-IsCarried :
      (id : ℕ)
      → IsCarried max_concurrent (record s {
        tasks = record s.tasks {
          table = λ i.
              if i == id
              then some
                  (record { status = InvestigationStatus.created; completed_at = none; error = [] })
              else s.tasks.table i;
        };
      })
  created-IsCarried id = table-IsCarried _ (λ i. ground arith)

Step-IsCarried :
    (max_concurrent : ℕ) (s q : Service)
    → IsCarried max_concurrent s
    → Step max_concurrent s q
    → IsCarried max_concurrent q
Step-IsCarried m s _ h (acquires id waits free) = acquire-IsCarried m s h id waits free
Step-IsCarried m s _ h (begins id runs) = begin-IsCarried m s h id _ runs
Step-IsCarried m s _ h (writes id ending now runs) = write-IsCarried m s h id ending now runs
Step-IsCarried m s _ h (leaves id left) = leave-IsCarried m s h id left
Step-IsCarried m s _ h (creates id absent) = created-IsCarried m s h id
Step-IsCarried m s q h (starts id e) = subst (Returned (IsCarried m)) e (start-IsCarried m s h id)
Step-IsCarried m s q h (retries id e) = subst (Returned (IsCarried m)) e (retry-IsCarried m s h id)
Step-IsCarried m s _ h (submits id claims) = submit-IsCarried m s h id claims
Step-IsCarried m s q h (deletes held purge id e) =
    subst (Returned (IsCarried m)) e (delete-IsCarried m s h held purge id)
Step-IsCarried m s _ h (cancels_running id now runs) =
    leaving-IsCarried m s h id (ended InvestigationStatus.halted (execution_cancelled ∷ []) now)
      (λ row. refl) runs (id ∷ s.cancelling) (λ i. ground arith)
Step-IsCarried m s _ h (cancels_waiting id waits) = withdraw-IsCarried m s h id
Step-IsCarried m s _ h (marks id now) = mark-IsCarried m s h id now
Step-IsCarried m s _ h (shuts_down now) = fresh-IsCarried m now (shutdown now s.tasks).table
Step-IsCarried m s _ h (crashes now) = fresh-IsCarried m now s.tasks.table

-- However requests, cancellations, deletions and tasks come between each other's writes, and whenever a
-- process ends: in every state that a process comes to from its start, every slot is free or held by a
-- task, and an investigation whose row is marked running has a task, or a request that will submit one, or
-- a cancellation that will mark its row.
pub Reaches-IsCarried :
    (max_concurrent now : ℕ) (table : Table) (s : Service)
    → Reaches max_concurrent (fresh max_concurrent now table) s
    → IsCarried max_concurrent s
Reaches-IsCarried max_concurrent now table _ here = fresh-IsCarried max_concurrent now table
Reaches-IsCarried max_concurrent now table s (after {p} reached step) =
    Step-IsCarried max_concurrent p s (Reaches-IsCarried max_concurrent now table p reached) step
