-- ===== src/Risk/Assess.antt =====
-- src/acip/core/risk.py: the roll-up of the findings, the blend with an AI decision, and `assess`.
use agentic_cyber_investigat.Prelude.{
  ℕ, suc, min, String, Bool, true, false, not, ◌&&◌, Option, none, some, List, [], ◌∷◌,
  if◌then◌else◌, ltb, is_some,
}
use agentic_cyber_investigat.Prelude.Int.{ℤ, pos, pos_part}
use agentic_cyber_investigat.Types.{Severity, info, rank, AssertionClass}
use agentic_cyber_investigat.Risk.{
  AiDecision, FloatOps, RiskAssessment, ScorableFinding, ai_base_score, blend, coherent,
  floor_score, get, is_ai_rule, or_else, severity_of_rank, truthy_or, weight,
}

module _ {F : Type 0} (ops : FloatOps F) where
  open ops use {ratio, add, mul, div, is_zero, round, round3}

  -- The loop variables of the roll-up.
  pub record Rollup : Type 0 where
    pub score_raw : F
    pub top : Severity
    pub weighted_conf : F
    pub weight_total : F

  abbrev contribution : ScorableFinding F → F
  contribution f =
      let full = mul (ratio (weight f.severity) 1) f.confidence in
      elim f.assertion_class [ AssertionClass.hypothesis ↦ mul full (ratio 1 2) | _ ↦ full ]

  abbrev pub count_finding : ScorableFinding F → Rollup → Rollup
  count_finding f r =
      let w = ratio (suc (rank f.severity)) 1 in
      record {
        score_raw = add r.score_raw (contribution f);
        top = if ltb (rank r.top) (rank f.severity) then f.severity else r.top;
        weighted_conf = add r.weighted_conf (mul f.confidence w);
        weight_total = add r.weight_total w;
      }

  abbrev pub is_unknown : AssertionClass → Bool
  is_unknown AssertionClass.unknown = true
  is_unknown _ = false

  unfoldable pub roll_up : Rollup → List (ScorableFinding F) → Rollup
  roll_up r [] = r
  roll_up r (f ∷ fs) = roll_up (if is_unknown f.assertion_class then r else count_finding f r) fs

  abbrev pub no_findings : Rollup
  no_findings = record {
    score_raw = ratio 0 1;
    top = info;
    weighted_conf = ratio 0 1;
    weight_total = ratio 0 1;
  }

  unfoldable pub det_findings : List (ScorableFinding F) → List (ScorableFinding F)
  det_findings [] = []
  det_findings (f ∷ fs) =
      let rest = det_findings fs in if is_ai_rule f.detection_rule then rest else f ∷ rest

  -- The last finding of an AI rule.
  unfoldable pub ai_finding : List (ScorableFinding F) → Option (ScorableFinding F)
  ai_finding [] = none
  ai_finding (f ∷ fs) =
      or_else (ai_finding fs) (if is_ai_rule f.detection_rule then some f else none)

  abbrev ai_points : Severity → F → ℤ
  ai_points severity confidence = pos (round (mul (ratio (ai_base_score severity) 1) confidence))

  -- The parameters of the AI decision, from the arguments and the AI finding.
  unfoldable pub resolve : Option (ScorableFinding F) → AiDecision F → AiDecision F
  resolve none ai = record ai {
    score = elim ai.severity [
      | none ↦ ai.score
      | some s ↦ or_else ai.score (some (ai_points s (get ai.confidence (ratio 1 1))))
    ];
  }
  resolve (some f) ai =
      let severity = get ai.severity f.severity in
      let confidence = get ai.confidence f.confidence in
      record {
        severity = some severity;
        score = or_else ai.score (some (ai_points severity confidence));
        confidence = some confidence;
        rationale = or_else ai.rationale (truthy_or f.reasoning f.description);
      }

  abbrev pub det_risk_score : Rollup → ℕ
  det_risk_score r = min 100 (round r.score_raw)

  abbrev det_confidence : Rollup → F
  det_confidence r =
      if is_zero r.weight_total then ratio 0 1 else round3 (div r.weighted_conf r.weight_total)

  unfoldable pub deterministic : Rollup → RiskAssessment F
  deterministic r = record {
    severity = r.top;
    risk_score = det_risk_score r;
    confidence = det_confidence r;
    model_opinion = none;
    model_adjusted_score = none;
    deterministic_score = some (det_risk_score r);
    deterministic_severity = some r.top;
    ai_score = none;
    ai_severity = none;
  }

  unfoldable pub blended : Rollup → AiDecision F → RiskAssessment F
  unfolding blend floor_score coherent
  blended r ai =
      let det = det_risk_score r in
      let ai_val = min 100 (pos_part (get ai.score (pos 0))) in
      let ai_sev = get ai.severity info in
      let ai_conf = get ai.confidence (ratio 8 10) in
      let score = floor_score r.top det (min 100 (blend det ai_val)) in
      let start = severity_of_rank (min 4 (blend (rank r.top) (rank ai_sev))) in
      record {
        severity = coherent r.top ai_sev score start;
        risk_score = score;
        confidence =
            if is_zero r.weight_total
            then ai_conf
            else round3 (add (mul (ratio 1 2) (det_confidence r)) (mul (ratio 1 2) ai_conf));
        model_opinion = ai.rationale;
        model_adjusted_score = some ai_val;
        deterministic_score = some det;
        deterministic_severity = some r.top;
        ai_score = some ai_val;
        ai_severity = some ai_sev;
      }

  abbrev pub decide_risk : Rollup → AiDecision F → RiskAssessment F
  decide_risk r ai =
      if not (is_some ai.score) && not (is_some ai.severity) then deterministic r else blended r ai

  abbrev pub nothing_to_score : RiskAssessment F
  nothing_to_score = record {
    severity = info;
    risk_score = 0;
    confidence = ratio 0 1;
    model_opinion = none;
    model_adjusted_score = none;
    deterministic_score = some 0;
    deterministic_severity = some info;
    ai_score = some 0;
    ai_severity = some info;
  }

  abbrev scored : List (ScorableFinding F) → AiDecision F → RiskAssessment F
  scored findings ai =
      decide_risk (roll_up no_findings (det_findings findings)) (resolve (ai_finding findings) ai)

  unfoldable pub assess : List (ScorableFinding F) → AiDecision F → RiskAssessment F
  assess [] ai =
      if not (is_some ai.score) && not (is_some ai.severity) then nothing_to_score else scored [] ai
  assess (f ∷ fs) ai = scored (f ∷ fs) ai

  unfoldable pub assess_with_model_opinion :
      List (ScorableFinding F) → Option String → Option ℤ → Option Severity → RiskAssessment F
  unfolding assess
  assess_with_model_opinion findings opinion score severity =
      assess findings
        (record { severity = severity; score = score; confidence = none; rationale = opinion })
