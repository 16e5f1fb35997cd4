-- ===== src/Risk/Bands.antt =====
-- The category of an assessment, and what findings it depends on.
use agentic_cyber_investigat.Prelude.{
  ℕ, ◌≤◌, ◌<◌, ◌≡◌, refl, sym, subst, ◌≢◌, min, ◌⊎◌, Bool, true, false, not, ◌&&◌, ◌||◌, some, List,
  [], ◌∷◌, arith, ltb, Bool-cases, List-cases, inl, inr, select, All, any, ◌==◌, if◌then◌else◌,
}
use agentic_cyber_investigat.Types.{Severity, info, low, medium, high, critical, rank}
use agentic_cyber_investigat.Risk.{
  FloatOps, ScorableFinding, AiDecision, blend, coherent, is_critical, is_ai_rule, severity_of_rank,
  floor_score, get,
}
use agentic_cyber_investigat.Risk.Assess.{
  Rollup, deterministic, blended, no_findings, roll_up, count_finding, det_findings, ai_finding,
  assess, is_unknown, det_risk_score,
}
use agentic_cyber_investigat.Risk.Bounds.{assess_rule, floor_critical_50, ai_val}

-- A score of 80 or more with a critical side is critical.
coherent_critical :
    (top ai : Severity) (score : ℕ) (start : Severity)
    → 80 ≤ score
    → (is_critical top || is_critical ai) ≡ true
    → coherent top ai score start ≡ critical
unfolding coherent
coherent_critical top ai score start h c = ground arith

-- Between 50 and 79, a category that is critical becomes high.
coherent_downgrades :
    (score : ℕ) → 50 ≤ score → score < 80 → coherent critical critical score critical ≡ high
unfolding coherent
coherent_downgrades score h k = ground arith

-- From 80 on, without a critical side, a category that is medium stays medium.
coherent_stays : (score : ℕ) → 80 ≤ score → coherent high low score medium ≡ medium
unfolding coherent
coherent_stays score h = ground arith

abbrev start_of : Severity → Severity → Severity
start_of top ai = severity_of_rank (min 4 (blend (rank top) (rank ai)))

start_critical : start_of critical critical ≡ critical
unfolding blend
start_critical = refl

both_critical :
    (top ai : Severity) (det raw : ℕ)
    → top ≡ critical
    → ai ≡ critical
    → floor_score top det raw < 80
    → coherent top ai (floor_score top det raw) (start_of top ai) ≡ high
both_critical critical critical det raw p q h =
    rw start_critical
      (coherent_downgrades (floor_score critical det raw) (floor_critical_50 det raw) h)
both_critical _ _ det raw p q h = cc

module _ {F : Type 0} (ops : FloatOps F) where
  abbrev ai_side : AiDecision F → Severity
  ai_side ai = get ai.severity info

  -- A blended score of 80 or more with a critical deterministic or AI severity gives the category
  -- critical.
  pub assess_critical :
      (findings : List (ScorableFinding F)) (ai : AiDecision F) (a : ℕ) (top ai_sev : Severity)
      → let out = assess ops findings ai in
        out.ai_score ≡ some a
        → out.deterministic_severity ≡ some top
        → out.ai_severity ≡ some ai_sev
        → (is_critical top || is_critical ai_sev) ≡ true
        → 80 ≤ out.risk_score
        → out.severity ≡ critical
  unfolding deterministic blended
  assess_critical findings ai a top ai_sev =
      assess_rule ops
        (λ out.
          out.ai_score ≡ some a
          → out.deterministic_severity ≡ some top
          → out.ai_severity ≡ some ai_sev
          → (is_critical top || is_critical ai_sev) ≡ true
          → 80 ≤ out.risk_score
          → out.severity ≡ critical)
        (λ p q s c h. ground arith) (λ r p q s c h. cc)
        (λ r ai' p q s c h. ground (
          arith,
          coherent_critical r.top (ai_side ai') (blended ops r ai').risk_score
              (start_of r.top (ai_side ai')),
        ))
        findings ai

  -- Where both sides are critical and the score stays below 80, the category is high: the coherence
  -- step takes the larger of two severities as strings, and "critical" sorts before "high".
  pub assess_downgrades :
      (findings : List (ScorableFinding F)) (ai : AiDecision F) (a : ℕ)
      → let out = assess ops findings ai in
        out.ai_score ≡ some a
        → out.deterministic_severity ≡ some critical
        → out.ai_severity ≡ some critical
        → out.risk_score < 80
        → out.severity ≡ high
  unfolding deterministic blended
  assess_downgrades findings ai a =
      assess_rule ops
        (λ out.
          out.ai_score ≡ some a
          → out.deterministic_severity ≡ some critical
          → out.ai_severity ≡ some critical
          → out.risk_score < 80
          → out.severity ≡ high)
        (λ p q s h. cc) (λ r p q s h. cc)
        (λ r ai' p q s h.
          let raw = min 100 (blend (det_risk_score ops r) (ai_val ops ai')) in
          ground (arith, both_critical r.top (ai_side ai') (det_risk_score ops r) raw))
        findings ai

  -- `top` bounds the severities of the findings that are no evidence gaps, and is one of them or the
  -- severity that the roll-up began with.
  abbrev pub IsTop : Severity → List (ScorableFinding F) → Severity → Type 0
  IsTop start fs top =
      (rank start ≤ rank top)
      × All (λ f. is_unknown ops f.assertion_class ≡ false → rank f.severity ≤ rank top) fs
      × ((top ≡ start)
          ⊎ (any (λ f. not (is_unknown ops f.assertion_class) && rank f.severity == rank top) fs
              ≡ true))

  -- One finding more, by whether it is a gap.
  IsTop-gap :
      (start : Severity) (f : ScorableFinding F) (fs : List (ScorableFinding F)) (top : Severity)
      → is_unknown ops f.assertion_class ≡ true
      → IsTop start fs top
      → IsTop start (f ∷ fs) top
  IsTop-gap start f fs top gap h = (h.0, ((λ e. cc), h.1), ground (arith, h.2))

  IsTop-known :
      (start : Severity) (f : ScorableFinding F) (fs : List (ScorableFinding F)) (top : Severity)
      → is_unknown ops f.assertion_class ≡ false
      → IsTop (if ltb (rank start) (rank f.severity) then f.severity else start) fs top
      → IsTop start (f ∷ fs) top
  IsTop-known start f fs top known h =
      (ground (arith, h.0), ((λ e. ground (arith, h.0)), h.1), ground (arith, h.2))

  -- The severity of the roll-up is the highest of the findings that are no evidence gaps, or the one
  -- that it began with.
  pub roll_up-IsTop :
      (r : Rollup ops) (fs : List (ScorableFinding F)) → IsTop r.top fs (roll_up ops r fs).top
  unfolding roll_up
  roll_up-IsTop r [] = (omega arith, tt, inl refl)
  roll_up-IsTop r (f ∷ fs) = elim (Bool-cases (is_unknown ops f.assertion_class)) [
    | inl gap ↦
        let same : roll_up ops r (f ∷ fs) ≡ roll_up ops r fs = rw gap refl in
        IsTop-gap r.top f fs (roll_up ops r (f ∷ fs)).top gap
          (subst (λ (q : Rollup ops). IsTop r.top fs q.top) (sym same) (roll_up-IsTop r fs))
    | inr known ↦
        let same : roll_up ops r (f ∷ fs) ≡ roll_up ops (count_finding ops f r) fs =
          rw known refl in
        IsTop-known r.top f fs (roll_up ops r (f ∷ fs)).top known (
          subst
            (λ (q : Rollup ops).
              IsTop (if ltb (rank r.top) (rank f.severity) then f.severity else r.top) fs q.top)
            (sym same) (roll_up-IsTop (count_finding ops f r) fs))
  ]

  -- What a gap record is: an UNKNOWN that no AI rule wrote.
  abbrev pub is_gap : ScorableFinding F → Bool
  is_gap f = is_unknown ops f.assertion_class && not (is_ai_rule f.detection_rule)

  roll_up_gaps :
      (r : Rollup ops) (fs : List (ScorableFinding F))
      → roll_up ops r (det_findings ops (select (λ f. not (is_gap f)) fs))
        ≡ roll_up ops r (det_findings ops fs)
  unfolding roll_up det_findings
  roll_up_gaps r [] = refl
  roll_up_gaps r (f ∷ fs) =
      ground (arith, roll_up_gaps r fs, roll_up_gaps (count_finding ops f r) fs)

  ai_finding_gaps :
      (fs : List (ScorableFinding F))
      → ai_finding ops (select (λ f. not (is_gap f)) fs) ≡ ai_finding ops fs
  unfolding ai_finding
  ai_finding_gaps [] = refl
  ai_finding_gaps (f ∷ fs) = ground (arith, ai_finding_gaps fs)

  -- Evidence gaps do not move the assessment: dropping every UNKNOWN finding, but those of an AI
  -- rule, gives the same assessment, if a finding is left.
  pub assess_gaps :
      (fs : List (ScorableFinding F)) (ai : AiDecision F)
      → select (λ f. not (is_gap f)) fs ≢ []
      → assess ops (select (λ f. not (is_gap f)) fs) ai ≡ assess ops fs ai
  unfolding assess
  assess_gaps [] ai h = absurd (h refl)
  assess_gaps (f ∷ fs) ai h = elim (List-cases (select (λ f. not (is_gap f)) (f ∷ fs))) [
    | inl e ↦ absurd (h e)
    | inr (x, rest, e) ↦
        let same = roll_up_gaps (no_findings ops) (f ∷ fs) in
        let same_ai = ai_finding_gaps (f ∷ fs) in rw (e, assess) (cc (same, same_ai, e))
  ]
