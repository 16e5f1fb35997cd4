-- ===== src/Orchestration/Runner/Laws.antt =====
-- The tasks of src/acip/core/orchestration/runner.py and the rows that are marked running.
use agentic_cyber_investigat.Prelude.{
  ℕ, suc, ◌+◌, ◌-◌, ◌≤◌, ◌≡◌, ◌≢◌, refl, Bool, true, false, Option, none, some, List, [], ◌∷◌,
  length, if◌then◌else◌, ◌==◌, ==_iff, Bool-cases, inl, inr, ◌⊎◌, arith,
}
use agentic_cyber_investigat.Types.{InvestigationStatus, terminal}
use agentic_cyber_investigat.Orchestration.Runs.{TaskOutcome}
use agentic_cyber_investigat.Orchestration.Execute.{derive_status}
use agentic_cyber_investigat.Orchestration.Runner.{
  Row, Table, is_running, edit, update, discard, tracks,
}

abbrev pub occurrences : ℕ → List ℕ → ℕ
occurrences i [] = 0
occurrences i (x ∷ xs) = let rest = occurrences i xs in if x == i then suc rest else rest

-- 1 for a row that is marked running.
abbrev pub in_progress : Option Row → ℕ
in_progress none = 0
in_progress (some row) = if is_running row.status then 1 else 0

pub occurrences-discard :
    (i id : ℕ) (xs : List ℕ)
    → occurrences i (discard id xs) ≡ occurrences i xs - (if id == i then 1 else 0)
occurrences-discard i id [] = ground arith
occurrences-discard i id (x ∷ xs) = ground (arith, occurrences-discard i id xs)

-- What is tracked stands in the list, under a key that is equal, too.
pub tracks-occurrences :
    (i id : ℕ) (xs : List ℕ) → tracks id xs ≡ true → (if id == i then 1 else 0) ≤ occurrences i xs
tracks-occurrences i id [] h = cc
tracks-occurrences i id (x ∷ xs) h = ground (arith, tracks-occurrences i id xs)

pub tracks_cases : (i : ℕ) (xs : List ℕ) → (tracks i xs ≡ true) ⊎ (occurrences i xs ≡ 0)
tracks_cases i [] = inr refl
tracks_cases i (x ∷ xs) = ground (arith, tracks_cases i xs)

pub length-discard :
    (id : ℕ) (xs : List ℕ) → tracks id xs ≡ true → length (discard id xs) + 1 ≡ length xs
length-discard id [] h = cc
length-discard id (x ∷ xs) h = ground (arith, length-discard id xs)

pub derive_status-ends :
    (outcomes : List TaskOutcome) (halted : Bool) → terminal (derive_status outcomes halted) ≡ true
unfolding derive_status terminal
derive_status-ends [] halted = refl
derive_status-ends (o ∷ os) halted = ground arith

pub not_running :
    (status : InvestigationStatus) → terminal status ≡ true → is_running status ≡ false
unfolding terminal
not_running InvestigationStatus.created h = refl
not_running InvestigationStatus.running h = cc
not_running InvestigationStatus.completed h = refl
not_running InvestigationStatus.partial h = refl
not_running InvestigationStatus.failed h = refl
not_running InvestigationStatus.halted h = refl

pub in_progress_bound : (o : Option Row) → in_progress o ≤ 1
in_progress_bound none = omega arith
in_progress_bound (some row) = ground arith

edit_stopped :
    (change : Row → Row) (o : Option Row)
    → ((row : Row) → is_running (change row).status ≡ false)
    → in_progress (edit change o) ≡ 0
edit_stopped change none stops = refl
edit_stopped change (some row) stops = rw (stops row) refl

-- A change that stops a row stops this one and no other.
pub in_progress-update :
    (id : ℕ) (change : Row → Row) (table : Table) (i : ℕ)
    → ((row : Row) → is_running (change row).status ≡ false)
    → in_progress (update id change table i) ≡ (if id == i then 0 else in_progress (table i))
in_progress-update id change table i stops = ground (arith, edit_stopped change (table i) stops)

-- Any change concerns this row and no other.
pub in_progress-edit :
    (id : ℕ) (change : Row → Row) (table : Table) (i : ℕ)
    → in_progress (update id change table i) ≤ (if id == i then 1 else in_progress (table i))
in_progress-edit id change table i = ground (arith, in_progress_bound (edit change (table i)))

pub untracked : (id : ℕ) (xs : List ℕ) → tracks id xs ≡ false → occurrences id xs ≡ 0
untracked id [] h = refl
untracked id (x ∷ xs) h = ground (arith, untracked id xs)

pub occurrences_bound : (i : ℕ) (xs : List ℕ) → occurrences i xs ≤ length xs
occurrences_bound i [] = omega arith
occurrences_bound i (x ∷ xs) = ground (arith, occurrences_bound i xs)

pub update_at :
    (id : ℕ) (change : Row → Row) (table : Table)
    → update id change table id ≡ edit change (table id)
update_at id change table = rw ((==_iff id id).1 refl) refl

pub update_other :
    (id i : ℕ) (change : Row → Row) (table : Table) → i ≢ id → update id change table i ≡ table i
update_other id i change table other = elim (Bool-cases (i == id)) [
  | inl e ↦ absurd (other ((==_iff i id).0 e))
  | inr e ↦ rw e refl
]

pub occurrences-discard_other :
    (i id : ℕ) (xs : List ℕ) → i ≢ id → occurrences i (discard id xs) ≡ occurrences i xs
occurrences-discard_other i id xs other = ground (arith, occurrences-discard i id xs)
