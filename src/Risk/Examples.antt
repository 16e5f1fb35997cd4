-- ===== src/Risk/Examples.antt =====
-- Assessments of small lists of findings, with percentages for floats.
use agentic_cyber_investigat.Prelude.{
  ℕ, ◌+◌, ◌*◌, ◌/◌, ◌≡◌, refl, ◌≢◌, not, none, some, List, [], ◌∷◌, select, ◌==◌,
}
use agentic_cyber_investigat.Prelude.Int.{pos}
use agentic_cyber_investigat.Types.{Severity, critical, high, low, AssertionClass, fact}
use agentic_cyber_investigat.Risk.{FloatOps, ScorableFinding, AiDecision}
use agentic_cyber_investigat.Risk.Assess.{
  assess, roll_up, no_findings, det_findings, ai_finding, resolve, deterministic, blended,
}
use agentic_cyber_investigat.Risk.Bands.{IsTop, roll_up-IsTop, is_gap}

abbrev percent : FloatOps ℕ
percent = record {
  ratio = λ a b. a * 100 / b;
  add = λ a b. a + b;
  mul = λ a b. a * b / 100;
  div = λ a b. a * 100 / b;
  is_zero = λ a. a == 0;
  round = λ a. (a + 50) / 100;
  round3 = λ a. a;
}

abbrev finding : Severity → AssertionClass → ScorableFinding ℕ
finding severity class = record {
  severity = severity;
  confidence = 100;
  assertion_class = class;
  detection_rule = none;
  reasoning = none;
  description = "";
}

abbrev one_critical : List (ScorableFinding ℕ)
one_critical = finding critical fact ∷ finding low AssertionClass.unknown ∷ []

abbrev ai_critical : AiDecision ℕ
ai_critical = record {
  severity = some critical;
  score = some (pos 100);
  confidence = none;
  rationale = none;
}

abbrev two_critical : List (ScorableFinding ℕ)
two_critical = finding critical fact ∷ one_critical

abbrev one_high : List (ScorableFinding ℕ)
one_high = finding high fact ∷ []

runs : Unit {0}
unfolding assess roll_up det_findings ai_finding resolve deterministic blended
runs = tt

assess_runs :
    ((assess percent one_critical ai_critical).risk_score ≡ 72)
    × ((assess percent one_critical ai_critical).severity ≡ high)
    × ((assess percent two_critical ai_critical).risk_score ≡ 95)
    × ((assess percent two_critical ai_critical).severity ≡ critical)
unfolding runs
assess_runs = (refl, refl, refl, refl)

roll_up-IsTop_example :
    IsTop percent Severity.info one_critical
      (roll_up percent (no_findings percent) one_critical).top
roll_up-IsTop_example = roll_up-IsTop percent (no_findings percent) one_critical

kept-ne-nil : select (λ f. not (is_gap percent f)) one_critical ≢ []
kept-ne-nil e = cc
