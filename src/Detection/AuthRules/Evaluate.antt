-- ===== src/Detection/AuthRules/Evaluate.antt =====
-- All rules of src/acip/core/detection/auth_rules.py: what their hits cite.
use text.Mathlib.Text.{◌==◌ as str_eq}
use agentic_cyber_investigat.Prelude.{
  ℕ, ◌≤◌, ◌≡◌, subst, String, Bool, true, false, ◌&&◌, none, some, List, [], ◌∷◌, map, length,
  last?, All, All-append, if◌then◌else◌, Bool-cases, Option-cases, inl, inr, arith,
}
use agentic_cyber_investigat.Prelude.Sort.{All-sort}
use agentic_cyber_investigat.Detection.AuthEvents.{
  AuthEventView, is_given, given_or_empty, seconds, Dict, by_ip, find_failure_bursts,
}
use agentic_cyber_investigat.Detection.AuthRules.{
  DetectionHit, bruteforce_hit, successes, users_by_ip, evaluate_user_enumeration, related_to,
  last_one, evaluate_privilege_escalation, before, evaluate_auth_rules,
}
use agentic_cyber_investigat.Detection.AuthRules.Cites.{
  Of, Cites, by_ip-All, bursts_of-KeptBurst, bruteforce_hits, successes-Cites, users_by_ip-All,
  enumerations-Cites,
}

module _ (Q : ℕ → Type 0) where
  last_one-All : (ids : List ℕ) → All Q ids → All Q (last_one ids)
  last_one-All [] h = tt
  last_one-All (i ∷ []) h = (h.0, tt)
  last_one-All (i ∷ j ∷ ids) h = last_one-All (j ∷ ids) h.1

  length-last_one : (ids : List ℕ) → length (last_one ids) ≤ 1
  length-last_one ids =
      elim (last? ids)
        as (λ o. length (elim o as (λ x. List ℕ) [ none ↦ [] | some id ↦ id ∷ [] ]) ≤ 1) [
          | none ↦ omega arith
          | some id ↦ omega arith
        ]

  related_to-Cites :
      (user : String) (d : Dict DetectionHit) (hit : DetectionHit)
      → All (λ x. Cites Q x.1) d
      → related_to user d ≡ some hit
      → Cites Q hit
  related_to-Cites user [] hit h e = cc
  related_to-Cites user ((k, v) ∷ d) hit h e =
      found (str_eq user k) e (related_to-Cites user d hit h.1)
    where
      found :
          (b : Bool)
          → (if b then some v else related_to user d) ≡ some hit
          → (related_to user d ≡ some hit → Cites Q hit)
          → Cites Q hit
      found true e later = subst (λ o. elim o [ none ↦ Unit | some x ↦ Cites Q x ]) e h.0
      found false e later = later e

  escalations-Cites :
      (lower : String → String) (events : List AuthEventView) (compromised : Dict DetectionHit)
      → All (Of Q) events
      → All (λ x. Cites Q x.1) compromised
      → All (Cites Q) (evaluate_privilege_escalation lower events compromised)
  unfolding evaluate_privilege_escalation
  escalations-Cites lower [] compromised h c = tt
  escalations-Cites lower (e ∷ es) compromised h c =
      let later = escalations-Cites lower es compromised h.1 c in
      elim (Bool-cases (
        str_eq e.event_type "sudo_command"
        && (is_given e.user && str_eq (lower (given_or_empty e.target_user)) "root"))) [
          | inl root ↦ elim (Option-cases (related_to (given_or_empty e.user) compromised)) [
            | inl unrelated ↦ rw (root, unrelated, evaluate_privilege_escalation) later
            | inr (hit, known) ↦
                let good = related_to-Cites (given_or_empty e.user) compromised hit c known in
                let short = length-last_one hit.evidence_ids in
                rw (root, known, evaluate_privilege_escalation)
                  (
                    (
                      (h.0, last_one-All hit.evidence_ids good.0),
                      omega arith,
                      omega (arith, short),
                    ),
                    later,
                  )
          ]
          | inr other ↦ rw (other, evaluate_privilege_escalation) later
        ]

  -- Each hit cites at least one and at most twenty-six pieces of evidence, and each that it cites is that of
  -- one of the events: it has any property that the evidence of all the events has.
  pub evaluate_auth_rules-Cites :
      (lower : String → String) (events : List AuthEventView) (min_failures window_seconds : ℕ)
      → All (Of Q) events
      → All (Cites Q) (evaluate_auth_rules lower events min_failures window_seconds)
  unfolding evaluate_auth_rules evaluate_user_enumeration find_failure_bursts
  evaluate_auth_rules-Cites lower events min_failures window_seconds h =
      let bursts = find_failure_bursts events min_failures window_seconds in
      let kept =
        bursts_of-KeptBurst Q min_failures (seconds window_seconds) (by_ip events [])
          (by_ip-All Q events [] h tt) in
      let found = successes-Cites Q events bursts [] h kept tt in
      let direct =
        All-append (Cites Q) (map bruteforce_hit bursts) (successes events bursts []).0
          (bruteforce_hits Q bursts kept) found.0 in
      let named =
        All-append (Cites Q) _ (evaluate_user_enumeration events) direct
          (enumerations-Cites Q (users_by_ip events []) (users_by_ip-All Q events [] h tt)) in
      All-sort before (Cites Q) _ (
        All-append (Cites Q) _ _ named
          (escalations-Cites lower events (successes events bursts []).1 h found.1))
