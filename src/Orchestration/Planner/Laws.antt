-- ===== src/Orchestration/Planner/Laws.antt =====
-- The plans of src/acip/core/orchestration/planner.py and adaptive_planner.py: which agents they name,
-- their ends and the cap.
use mathlib.Core.List.{append-nil, append_assoc}
use agentic_cyber_investigat.Prelude.{
  ℕ, suc, ◌+◌, ◌-◌, ◌≤◌, ◌≡◌, refl, sym, ap, ◌∙◌, subst, String, Bool, true, false, not, ◌&&◌, ◌||◌,
  some, List, [], ◌∷◌, ◌++◌, map, length, any, select, take, last?, last?-append, All, All-append,
  leb, arith, Bool-cases, List-cases, inl, inr, length-append, take_all,
}
use agentic_cyber_investigat.Types.{ArtifactKind, TargetType}
use agentic_cyber_investigat.Orchestration.Registry.{
  AgentRegistry, has, Task, is_log_like, is_pcap, is_log_target, is_pcap_target,
}
use agentic_cyber_investigat.Orchestration.Planner.{
  task, available, static_tasks, static_plan, without_report, Steps, schedule, adaptive_tasks, Kept,
  enforce, adaptive_plan, numbered, if_has,
}

abbrev pub AllRegistered : AgentRegistry → List Task → Type 0
AllRegistered agents = All (λ t. has agents t.agent_name ≡ true)

available-AllRegistered :
    (agents : AgentRegistry) (ts : List Task) → AllRegistered agents (available agents ts)
available-AllRegistered agents [] = tt
available-AllRegistered agents (t ∷ ts) = elim (Bool-cases (has agents t.agent_name)) [
  | inl e ↦ rw e (e, available-AllRegistered agents ts)
  | inr e ↦ rw e (available-AllRegistered agents ts)
]

-- With no unavailable task all tasks are available.
none_unavailable :
    (agents : AgentRegistry) (ts : List Task)
    → map (λ t. t.agent_name) (select (λ t. not (has agents t.agent_name)) ts) ≡ []
    → available agents ts ≡ ts
none_unavailable agents [] h = refl
none_unavailable agents (t ∷ ts) h = elim (Bool-cases (has agents t.agent_name)) [
  | inl e ↦ rw e (ap (◌∷◌ t) (none_unavailable agents ts (rw e at h)))
  | inr e ↦ cc (rw e at h)
]

-- The static plan is its task list without the tasks of agents that are not registered.
pub static_plan_lem :
    (agents : AgentRegistry) (artifacts : List ArtifactKind)
    → (static_plan agents artifacts).tasks
      ≡ available agents (static_tasks agents (any is_log_like artifacts))
unfolding static_plan
static_plan_lem agents artifacts =
    let ts = static_tasks agents (any is_log_like artifacts) in
    elim (List-cases (map (λ t. t.agent_name) (select (λ t. not (has agents t.agent_name)) ts))) [
      | inl e ↦ rw (e, static_plan) (sym (none_unavailable agents ts e))
      | inr (x, rest, e) ↦ rw (e, static_plan) refl
    ]

available-append :
    (agents : AgentRegistry) (xs ys : List Task)
    → available agents (xs ++ ys) ≡ available agents xs ++ available agents ys
available-append agents [] ys = refl
available-append agents (x ∷ xs) ys = ground (arith, available-append agents xs ys)

if_has_head :
    (agents : AgentRegistry) (name : String) (t : Task) (ts : List Task)
    → (rest : List Task) × (if_has agents name (t ∷ ts) ≡ t ∷ rest)
if_has_head agents name t ts = elim (Bool-cases (has agents name)) [
  | inl e ↦ (ts ++ task (numbered (length (t ∷ ts) + 1) name) name ∷ [], rw e refl)
  | inr e ↦ (ts, rw e refl)
]

static_tasks_head :
    (agents : AgentRegistry) (log_like : Bool)
    → (rest : List Task) × (static_tasks agents log_like ≡ task "t1-triage" "triage" ∷ rest)
static_tasks_head agents true =
    let (r, e) =
      if_has_head agents "mitre" (task "t1-triage" "triage")
        (task "t2-log-analysis" "log_analysis" ∷ []) in
    let (r', e') = if_has_head agents "correlation" (task "t1-triage" "triage") r in
    (
      r' ++ task "t9-report" "reporting" ∷ [],
      ap (λ l. l ++ task "t9-report" "reporting" ∷ []) (ap (if_has agents "correlation") e ∙ e'),
    )
static_tasks_head agents false =
    let (r, e) = if_has_head agents "mitre" (task "t1-triage" "triage") [] in
    let (r', e') = if_has_head agents "correlation" (task "t1-triage" "triage") r in
    (
      r' ++ task "t9-report" "reporting" ∷ [],
      ap (λ l. l ++ task "t9-report" "reporting" ∷ []) (ap (if_has agents "correlation") e ∙ e'),
    )

before_report :
    (agents : AgentRegistry) (log_like : Bool)
    → has agents "reporting" ≡ true
    → available agents (static_tasks agents log_like)
      ≡ available agents (without_report agents log_like) ++ task "t9-report" "reporting" ∷ []
before_report agents log_like h =
    available-append agents (without_report agents log_like) (task "t9-report" "reporting" ∷ [])
    ∙ ap (λ l. available agents (without_report agents log_like) ++ l) (rw h refl)

-- The static plan names registered agents only. Where reporting and triage are registered, its last
-- task is the report and its first is triage.
pub static_plan_ends :
    (agents : AgentRegistry) (artifacts : List ArtifactKind)
    → has agents "reporting" ≡ true
    → has agents "triage" ≡ true
    → let plan = static_plan agents artifacts in
      AllRegistered agents plan.tasks
      × (last? plan.tasks ≡ some (task "t9-report" "reporting"))
      × (take 1 plan.tasks ≡ task "t1-triage" "triage" ∷ [])
static_plan_ends agents artifacts reporting triage =
    let log_like = any is_log_like artifacts in
    let ts = static_tasks agents log_like in
    let same = static_plan_lem agents artifacts in
    let (rest, first) = static_tasks_head agents log_like in
    (
      subst (AllRegistered agents) (sym same) (available-AllRegistered agents ts),
      ap last? (same ∙ before_report agents log_like reporting)
          ∙ last?-append (available agents (without_report agents log_like))
              (task "t9-report" "reporting"),
      ap (take 1) (same ∙ ap (available agents) first) ∙ rw triage refl,
    )

-- The enforcing loop over registered tasks keeps the first of them up to the cap.
enforce_registered :
    (agents : AgentRegistry) (max_tasks : ℕ) (k : Kept) (ts : List Task)
    → AllRegistered agents ts
    → length k.valid ≤ max_tasks
    → (enforce agents max_tasks k ts).valid ≡ k.valid ++ take (max_tasks - length k.valid) ts
unfolding enforce
enforce_registered agents max_tasks k [] h room =
    (sym (
      ap (λ l. k.valid ++ l) (take_all (max_tasks - length k.valid) [] (ground arith))
      ∙ append-nil k.valid))
enforce_registered agents max_tasks k (t ∷ ts) h room =
    elim (Bool-cases (leb max_tasks (length k.valid))) [
      | inl e ↦
          let zero_left : max_tasks - length k.valid ≡ 0 = ground arith in
          rw (h.0, e, zero_left, enforce) (sym (append-nil k.valid))
      | inr e ↦
          let one_less : max_tasks - length k.valid ≡ suc (max_tasks - (length k.valid + 1)) =
            ground arith in
          let longer : length (k.valid ++ t ∷ []) ≡ length k.valid + 1 =
            length-append k.valid (t ∷ []) in
          let fits : length (k.valid ++ t ∷ []) ≤ max_tasks = ground arith in
          let rest =
            enforce_registered agents max_tasks (record k { valid = k.valid ++ t ∷ [] }) ts h.1
              fits in
          rw (h.0, e, one_less, enforce)
            (rest
              ∙ rw longer
                  (append_assoc k.valid (t ∷ []) (take (max_tasks - (length k.valid + 1)) ts)))
    ]

enforce_lem :
    (agents : AgentRegistry) (max_tasks : ℕ) (ts : List Task)
    → AllRegistered agents ts
    → (enforce agents max_tasks (record { valid = []; notes = [] }) ts).valid ≡ take max_tasks ts
enforce_lem agents max_tasks ts h =
    let none_yet : max_tasks - 0 ≡ max_tasks = omega arith in
    enforce_registered agents max_tasks (record { valid = []; notes = [] }) ts h (omega arith)
    ∙ ap (λ n. take n ts) none_yet

schedule-AllRegistered :
    (agents : AgentRegistry) (test : Bool) (suffix name : String) (s : Steps)
    → AllRegistered agents s.tasks
    → AllRegistered agents (schedule agents test suffix name s).tasks
schedule-AllRegistered agents test suffix name s h = elim (Bool-cases (test && has agents name)) [
  | inl e ↦ rw e (All-append (λ t. has agents t.agent_name ≡ true) s.tasks _ h (ground arith, tt))
  | inr e ↦ rw e h
]

adaptive_tasks-AllRegistered :
    (agents : AgentRegistry) (target : TargetType) (artifacts : List ArtifactKind)
    → AllRegistered agents (adaptive_tasks agents target artifacts)
unfolding adaptive_tasks
adaptive_tasks-AllRegistered agents target artifacts =
    let step = schedule-AllRegistered agents in
    let has_logs = any is_log_like artifacts || is_log_target target in
    let has_pcap = any is_pcap artifacts || is_pcap_target target in
    let s0 : Steps = record { tasks = []; step = 1 } in
    let s1 = schedule agents true "triage" "triage" s0 in
    let s2 = schedule agents has_logs "log-analysis" "log_analysis" s1 in
    let s3 = schedule agents has_pcap "network-analysis" "network_analysis" s2 in
    let s4 = schedule agents true "mitre" "mitre" s3 in
    let s5 = schedule agents true "correlation" "correlation" s4 in
    let s6 = schedule agents true "reasoning" "reasoning" s5 in
    let s7 = schedule agents true "hypothesis" "hypothesis" s6 in
    let s8 = schedule agents true "validation" "validation" s7 in
    let h2 = step has_logs "log-analysis" "log_analysis" s1 (step true "triage" "triage" s0 tt) in
    let h3 = step has_pcap "network-analysis" "network_analysis" s2 h2 in
    let h5 = step true "correlation" "correlation" s4 (step true "mitre" "mitre" s3 h3) in
    let h7 = step true "hypothesis" "hypothesis" s6 (step true "reasoning" "reasoning" s5 h5) in
    step true "report" "reporting" s8 (step true "validation" "validation" s7 h7)

-- The adaptive plan is the first tasks of its schedule, up to the cap, and each task of the schedule
-- names a registered agent.
pub adaptive_plan_lem :
    (agents : AgentRegistry) (max_tasks : ℕ) (target : TargetType) (artifacts : List ArtifactKind)
    → ((adaptive_plan agents max_tasks target artifacts).tasks
        ≡ take max_tasks (adaptive_tasks agents target artifacts))
      × AllRegistered agents (adaptive_tasks agents target artifacts)
unfolding adaptive_plan
adaptive_plan_lem agents max_tasks target artifacts =
    let all_registered = adaptive_tasks-AllRegistered agents target artifacts in
    (
      enforce_lem agents max_tasks (adaptive_tasks agents target artifacts) all_registered,
      all_registered,
    )
