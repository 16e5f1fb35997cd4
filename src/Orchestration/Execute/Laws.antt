-- ===== src/Orchestration/Execute/Laws.antt =====
-- What a triage result may schedule, and what the status of an investigation says, for
-- `interpret_triage_result` and `_derive_status` of src/acip/core/orchestration/orchestrator.py.
use text.Mathlib.Text.{◌==◌ as str_eq}
use agentic_cyber_investigat.Prelude.{
  ℕ, ◌+◌, ◌≡◌, ◌≢◌, ◌↔◌, refl, String, Bool, true, false, not, ◌&&◌, Option, none, some, List, [],
  ◌∷◌, any, All-append, arith, if◌then◌else◌, Bool-cases, inl, inr,
}
use agentic_cyber_investigat.Prelude.Sort.{sort}
use agentic_cyber_investigat.Prelude.Tests.{leb}
use agentic_cyber_investigat.Types.{InvestigationStatus, ArtifactKind}
use agentic_cyber_investigat.Orchestration.Registry.{AgentRegistry, has, Task, is_log_like}
use agentic_cyber_investigat.Orchestration.Planner.{task}
use agentic_cyber_investigat.Orchestration.Planner.Laws.{AllRegistered}
use agentic_cyber_investigat.Orchestration.Runs.{Proposal, AgentResult, TaskOutcome}
use agentic_cyber_investigat.Orchestration.Execute.{
  accept, if_registered, fallback_tasks, proposed_tasks, follow_up, is_succeeded, is_failed,
  interpret_triage_result, derive_status,
}

accept-AllRegistered :
    (agents : AgentRegistry) (step : ℕ) (ps : List Proposal)
    → AllRegistered agents (accept agents step ps).0
unfolding accept
accept-AllRegistered agents step [] = tt
accept-AllRegistered agents step (p ∷ ps) =
    let skipped = accept-AllRegistered agents step ps in
    let later = accept-AllRegistered agents (step + 1) ps in ground arith

if_registered-AllRegistered :
    (agents : AgentRegistry) (name id : String)
    → AllRegistered agents (if_registered agents name (task id name))
if_registered-AllRegistered agents name id = elim (Bool-cases (has agents name)) [
  | inl e ↦ rw e (e, tt)
  | inr e ↦ rw e tt
]

fallback_tasks-AllRegistered :
    (agents : AgentRegistry) (artifacts : List ArtifactKind)
    → AllRegistered agents (fallback_tasks agents artifacts)
unfolding fallback_tasks
fallback_tasks-AllRegistered agents artifacts =
    let P : Task → Type 0 = λ t. has agents t.agent_name ≡ true in
    let correlation = if_registered-AllRegistered agents "correlation" "t4-correlation" in
    let report = if_registered-AllRegistered agents "reporting" "t9-report" in
    let logs : AllRegistered agents (
        if any is_log_like artifacts && has agents "log_analysis"
        then task "t2-log-analysis" "log_analysis"
          ∷ if_registered agents "mitre" (task "t3-mitre" "mitre")
        else []) =
      elim (Bool-cases (any is_log_like artifacts && has agents "log_analysis")) [
        | inl e ↦ rw e (ground arith, if_registered-AllRegistered agents "mitre" "t3-mitre")
        | inr e ↦ rw e tt
      ] in
    All-append P _ _ (All-append P _ _ logs correlation) report

proposed_tasks-AllRegistered :
    (agents : AgentRegistry) (proposals : List Proposal)
    → AllRegistered agents (proposed_tasks agents proposals).0
proposed_tasks-AllRegistered agents proposals =
    let ps = sort (λ p q. leb p.priority q.priority) proposals in
    let accepted = accept-AllRegistered agents 2 ps in
    let reported = any (λ t. str_eq t.agent_name "reporting") (accept agents 2 ps).0 in
    elim (Bool-cases (not reported && has agents "reporting")) [
      | inl e ↦ rw e (
          All-append (λ t. has agents t.agent_name ≡ true) (accept agents 2 ps).0 _ accepted
            (ground arith, tt))
      | inr e ↦ rw e accepted
    ]

follow_up-AllRegistered :
    (agents : AgentRegistry) (artifacts : List ArtifactKind) (analysis : Option (List Proposal))
    → AllRegistered agents (follow_up agents artifacts analysis).0
follow_up-AllRegistered agents artifacts none = fallback_tasks-AllRegistered agents artifacts
follow_up-AllRegistered agents artifacts (some proposals) =
    proposed_tasks-AllRegistered agents proposals

-- Whatever the triage agent proposes, each task that its result schedules names a registered agent.
pub interpret_triage_result-AllRegistered :
    (agents : AgentRegistry) (result : Option AgentResult) (artifacts : List ArtifactKind)
    → AllRegistered agents (interpret_triage_result agents result artifacts).0
unfolding interpret_triage_result
interpret_triage_result-AllRegistered agents none artifacts =
    fallback_tasks-AllRegistered agents artifacts
interpret_triage_result-AllRegistered agents (some result) artifacts =
    elim (Bool-cases (is_succeeded result.status)) [
      | inl e ↦ rw e (follow_up-AllRegistered agents artifacts result.analysis)
      | inr e ↦ rw e (fallback_tasks-AllRegistered agents artifacts)
    ]

no_failure :
    (halted failed succeeded : Bool)
    → ((if halted
          then InvestigationStatus.halted
          else if failed && succeeded
          then InvestigationStatus.partial
          else if failed
          then InvestigationStatus.failed
          else InvestigationStatus.completed)
        ≡ InvestigationStatus.completed)
      ↔ ((halted ≡ false) × (failed ≡ false))
no_failure true failed succeeded = (λ h. cc, λ (h, _). cc)
no_failure false true true = (λ h. cc, λ (_, h). cc)
no_failure false true false = (λ h. cc, λ (_, h). cc)
no_failure false false succeeded = (λ h. (refl, refl), λ h. refl)

-- The derived status is completed exactly when there is an outcome, the run was not halted and no
-- outcome failed.
pub derive_status-completed :
    (outcomes : List TaskOutcome) (halted : Bool)
    → (derive_status outcomes halted ≡ InvestigationStatus.completed)
      ↔ ((outcomes ≢ []) × (halted ≡ false) × (any (λ o. is_failed o.status) outcomes ≡ false))
unfolding derive_status
derive_status-completed [] halted = (λ h. cc, λ (nonempty, _, _). absurd (nonempty refl))
derive_status-completed (o ∷ os) halted =
    let (to, from) =
      no_failure halted (any (λ o. is_failed o.status) (o ∷ os))
        (any (λ o. is_succeeded o.status) (o ∷ os)) in
    (λ h. (λ e. cc, (to h).0, (to h).1), λ (_, running, passed). from (running, passed))
