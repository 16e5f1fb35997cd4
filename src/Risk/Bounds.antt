-- ===== src/Risk/Bounds.antt =====
-- The numbers of an assessment: the range, and the blend between its two parts.
use agentic_cyber_investigat.Prelude.{
  ℕ, ◌≤◌, ◌≡◌, min, max, false, some, List, [], ◌∷◌, arith, Bool-cases, is_some, inl, inr, not,
  ◌&&◌,
}
use agentic_cyber_investigat.Prelude.Int.{pos, pos_part}
use agentic_cyber_investigat.Types.{Severity, critical}
use agentic_cyber_investigat.Risk.{
  FloatOps, ScorableFinding, AiDecision, RiskAssessment, blend, floor_score, is_critical, get,
}
use agentic_cyber_investigat.Risk.Assess.{
  Rollup, deterministic, blended, decide_risk, no_findings, nothing_to_score, roll_up, det_findings,
  ai_finding, resolve, assess, det_risk_score,
}

blend_bounds : (a b : ℕ) → (min a b ≤ blend a b) × (blend a b ≤ max a b)
unfolding blend
blend_bounds a b = ground arith

floor_bounds :
    (top : Severity) (det raw : ℕ)
    → (raw ≤ floor_score top det raw) × (raw ≤ 100 → floor_score top det raw ≤ 100)
unfolding floor_score
floor_bounds top det raw = ground arith

floor_plain :
    (top : Severity) (det raw : ℕ) → is_critical top ≡ false → floor_score top det raw ≡ raw
unfolding floor_score
floor_plain top det raw h = ground arith

pub floor_critical_50 : (det raw : ℕ) → 50 ≤ floor_score critical det raw
unfolding floor_score
floor_critical_50 det raw = ground arith

module _ {F : Type 0} (ops : FloatOps F) where
  abbrev pub ai_val : AiDecision F → ℕ
  ai_val ai = min 100 (pos_part (get ai.score (pos 0)))

  decide_rule {ℓ} :
      (P : RiskAssessment F → Type ℓ) (r : Rollup ops) (ai : AiDecision F)
      → P (deterministic ops r)
      → P (blended ops r ai)
      → P (decide_risk ops r ai)
  decide_rule P r ai det both =
      elim (Bool-cases (not (is_some ai.score) && not (is_some ai.severity))) [
        | inl e ↦ rw e det
        | inr e ↦ rw e both
      ]

  -- An assessment is one of three: nothing to score, the roll-up alone, or the blend.
  pub assess_rule {ℓ} :
      (P : RiskAssessment F → Type ℓ)
      → P (nothing_to_score ops)
      → ((r : Rollup ops) → P (deterministic ops r))
      → ((r : Rollup ops) (ai : AiDecision F) → P (blended ops r ai))
      → (findings : List (ScorableFinding F)) (ai : AiDecision F) → P (assess ops findings ai)
  unfolding assess
  assess_rule P nothing det both [] ai =
      elim (Bool-cases (not (is_some ai.score) && not (is_some ai.severity))) [
        | inl e ↦ rw (e, assess) nothing
        | inr e ↦
            rw (e, assess)
              (decide_rule P (roll_up ops (no_findings ops) (det_findings ops []))
                (resolve ops (ai_finding ops []) ai) (det _) (both _ _))
      ]
  assess_rule P nothing det both (f ∷ fs) ai =
      decide_rule P (roll_up ops (no_findings ops) (det_findings ops (f ∷ fs)))
        (resolve ops (ai_finding ops (f ∷ fs)) ai) (det _) (both _ _)

  -- Every assessment scores from 0 to 100, and so does each part that it reports.
  pub assess-le_100 :
      (findings : List (ScorableFinding F)) (ai : AiDecision F)
      → let out = assess ops findings ai in
        (out.risk_score ≤ 100) × (get out.deterministic_score 0 ≤ 100) × (get out.ai_score 0 ≤ 100)
  unfolding deterministic blended
  assess-le_100 findings ai =
      assess_rule
        (λ out.
          (out.risk_score ≤ 100)
          × (get out.deterministic_score 0 ≤ 100)
          × (get out.ai_score 0 ≤ 100))
        (ground arith) (λ r. ground arith)
        (λ r ai'.
          let raw = min 100 (blend (det_risk_score ops r) (ai_val ai')) in
          ground (arith, floor_bounds r.top (det_risk_score ops r) raw))
        findings ai

  -- Without a critical deterministic severity, a blended score lies between its two parts.
  pub assess_between :
      (findings : List (ScorableFinding F)) (ai : AiDecision F) (d a : ℕ) (top : Severity)
      → let out = assess ops findings ai in
        out.ai_score ≡ some a
        → out.deterministic_score ≡ some d
        → out.deterministic_severity ≡ some top
        → is_critical top ≡ false
        → (min d a ≤ out.risk_score) × (out.risk_score ≤ max d a)
  unfolding deterministic blended
  assess_between findings ai d a top =
      assess_rule
        (λ out.
          out.ai_score ≡ some a
          → out.deterministic_score ≡ some d
          → out.deterministic_severity ≡ some top
          → is_critical top ≡ false
          → (min d a ≤ out.risk_score) × (out.risk_score ≤ max d a))
        (λ p q s c. ground arith) (λ r p q s c. cc)
        (λ r ai' p q s c.
          let det = det_risk_score ops r in
          let same_top : r.top ≡ top = cc in
          let same : det ≡ d = cc in
          let same_ai : ai_val ai' ≡ a = cc in
          ground (
            arith,
            blend_bounds det (ai_val ai'),
            floor_plain r.top det (min 100 (blend det (ai_val ai'))),
          ))
        findings ai
