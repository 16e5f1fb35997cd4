-- ===== src/Risk.antt =====
-- src/acip/core/risk.py: the weights and bands of the risk, and what it is assessed from; Assess has the
-- assessment. The rationale text is left out. Confidences are floats, which stay abstract; every number that
-- decides a band is an integer, and the blends of two integers by halves are computed exactly.
pub mod Assess
pub mod Bounds
pub mod Bands
mod Examples
use text.Mathlib.Text.{◌==◌ as str_eq}
use agentic_cyber_investigat.Prelude.{
  ℕ, suc, ◌+◌, ◌/◌, ◌%◌, min, max, String, Bool, true, false, not, ◌&&◌, ◌||◌, Option, none, some,
  List, [], ◌∷◌, if◌then◌else◌, ◌==◌, leb, ltb, is_some,
}
use agentic_cyber_investigat.Prelude.Int.{ℤ, pos, pos_part}
use agentic_cyber_investigat.Prelude.Text.{str_leb, is_empty}
use agentic_cyber_investigat.Types.{
  Severity, info, low, medium, high, critical, rank, severity_value, AssertionClass,
}

-- The float arithmetic that the code uses; `ratio 1 2` is the literal 0.5. `round` is to the nearest
-- integer, of a value that is not negative.
pub record FloatOps (F : Type 0) : Type 0 where
  pub ratio : ℕ → ℕ → F
  pub add : F → F → F
  pub mul : F → F → F
  pub div : F → F → F
  pub is_zero : F → Bool
  pub round : F → ℕ
  pub round3 : F → F

pub record ScorableFinding (F : Type 0) : Type 0 where
  pub severity : Severity
  pub confidence : F
  pub assertion_class : AssertionClass
  pub detection_rule : Option String
  pub reasoning : Option String
  pub description : String

pub record RiskAssessment (F : Type 0) : Type 0 where
  pub severity : Severity
  pub risk_score : ℕ
  pub confidence : F
  pub model_opinion : Option String
  pub model_adjusted_score : Option ℕ
  pub deterministic_score : Option ℕ
  pub deterministic_severity : Option Severity
  pub ai_score : Option ℕ
  pub ai_severity : Option Severity

-- The keyword arguments of `assess`.
pub record AiDecision (F : Type 0) : Type 0 where
  pub severity : Option Severity
  pub score : Option ℤ
  pub confidence : Option F
  pub rationale : Option String

abbrev pub weight : Severity → ℕ
weight critical = 45
weight high = 25
weight medium = 10
weight low = 4
weight info = 1

abbrev pub ai_base_score : Severity → ℕ
ai_base_score critical = 100
ai_base_score high = 75
ai_base_score medium = 45
ai_base_score low = 20
ai_base_score info = 0

-- `_RANK_TO_SEVERITY[min(4, max(0, n))]`
abbrev pub severity_of_rank : ℕ → Severity
severity_of_rank n =
    if n == 0
    then info
    else if n == 1
    then low
    else if n == 2
    then medium
    else if n == 3
    then high
    else critical

-- `round(0.5 * a + 0.5 * b)`: halves go to the even neighbour.
unfoldable pub blend : ℕ → ℕ → ℕ
blend a b =
    let half = (a + b) / 2 in
    if (a + b) % 2 == 0 then half else if half % 2 == 0 then half else half + 1

-- `max` and `min` of two severities, which are strings and compare as strings.
abbrev pub str_max : Severity → Severity → Severity
str_max a b = if str_leb (severity_value b) (severity_value a) then a else b

abbrev pub str_min : Severity → Severity → Severity
str_min a b = if str_leb (severity_value a) (severity_value b) then a else b

abbrev pub is_critical : Severity → Bool
is_critical critical = true
is_critical _ = false

abbrev is_low : Severity → Bool
is_low low = true
is_low _ = false

abbrev pub is_ai_rule : Option String → Bool
is_ai_rule none = false
is_ai_rule (some rule) = str_eq rule "triage.classification" || str_eq rule "risk.ai_decision"

abbrev pub or_else {ℓ} : {A : Type ℓ} → Option A → Option A → Option A
or_else none b = b
or_else (some a) b = some a

-- `a or b` on texts
abbrev truthy_or : Option String → String → Option String
truthy_or none b = some b
truthy_or (some a) b = if is_empty a then some b else some a

abbrev pub get {ℓ} : {A : Type ℓ} → Option A → A → A
get none d = d
get (some a) d = a

-- The safety floor on the blended score.
unfoldable pub floor_score : Severity → ℕ → ℕ → ℕ
floor_score top det raw =
    if is_critical top && leb 80 det
    then max raw 80
    else if is_critical top
    then max raw 50
    else raw

-- The category for a final score, before and after the coherence step.
unfoldable pub coherent : Severity → Severity → ℕ → Severity → Severity
coherent top ai score blended =
    if leb 80 score
    then (if is_critical top || is_critical ai then critical else str_max blended high)
    else if leb 50 score
    then str_max blended (if leb 3 (rank top) || leb 3 (rank ai) then high else medium)
    else if leb score 10 && leb (rank top) 1 && leb (rank ai) 1
    then str_min blended (if is_low top || is_low ai then low else info)
    else blended
