-- ===== src/Detection/AuthRules/Cites.antt =====
-- The evidence that the hits of src/acip/core/detection/auth_rules.py cite.
use text.Mathlib.Text.{◌==◌ as str_eq}
use agentic_cyber_investigat.Prelude.{
  ℕ, ◌+◌, ◌≤◌, subst, String, Bool, true, false, Option, none, some, List, [], ◌∷◌, ◌++◌, map,
  length, take, drop, select, All, All-append, length-append, length-take, length-map, All-take,
  All-drop, All-map, if◌then◌else◌, ltb, ◌==◌, Bool-cases, Option-cases, inl, inr, arith,
}
use agentic_cyber_investigat.Prelude.Sort.{sort, All-sort, All_select}
use agentic_cyber_investigat.Prelude.Dict.{alter, All-alter}
use agentic_cyber_investigat.Detection.Window.{best_span, sweep, time_at}
use agentic_cyber_investigat.Detection.AuthEvents.{
  AuthEventView, is_given, given_or_empty, is_dated, time_of, seconds, Dict, is_failure, by_ip,
  in_order, bursts_of,
}
use agentic_cyber_investigat.Detection.AuthRules.{
  DetectionHit, cited, bruteforce_hit, success_hit, earliest, first_of, least, greatest,
  is_success_from, first_success_after, successes, setdefault, names_invalid_user, users_by_ip,
  enumerations,
}

module _ (Q : ℕ → Type 0) where
  -- The event's evidence.
  abbrev pub Of : AuthEventView → Type 0
  Of e = Q e.evidence_id

  -- A hit cites one to twenty-six pieces of evidence, all of them among those.
  abbrev pub Cites : DetectionHit → Type 0
  Cites hit =
      All Q hit.evidence_ids × (1 ≤ length hit.evidence_ids) × (length hit.evidence_ids ≤ 26)

  -- A burst that is kept.
  abbrev pub KeptBurst : String × List AuthEventView → Type 0
  KeptBurst (ip, burst) = All Of burst × (1 ≤ length burst)

  pub by_ip-All :
      (events : List AuthEventView) (dict : Dict (List AuthEventView))
      → All Of events
      → All (λ d. All Of d.1) dict
      → All (λ d. All Of d.1) (by_ip events dict)
  unfolding by_ip
  by_ip-All [] dict h k = k
  by_ip-All (e ∷ es) dict h k = elim (Bool-cases (is_failure e)) [
    | inl fails ↦
        rw (fails, by_ip)
          (by_ip-All es (alter [] (λ fs. fs ++ e ∷ []) (given_or_empty e.source_ip) dict) h.1 (
            All-alter [] (λ fs. fs ++ e ∷ []) (given_or_empty e.source_ip) (λ d. All Of d.1)
              (h.0, tt) (λ k v o. All-append Of v (e ∷ []) o (h.0, tt)) dict k))
    | inr other ↦ rw (other, by_ip) (by_ip-All es dict h.1 k)
  ]

  best_span-All :
      (window min : ℕ) (ordered : List AuthEventView)
      → All Of ordered
      → All Of (best_span time_of window min ordered)
  unfolding best_span
  best_span-All window min ordered h =
      let best = sweep window (time_at time_of ordered) min (length ordered) 0 0 (0, 0) in
      All-take Of best.1 (drop best.0 ordered) (All-drop Of best.0 ordered h)

  pub bursts_of-KeptBurst :
      (min window : ℕ) (dict : Dict (List AuthEventView))
      → All (λ d. All Of d.1) dict
      → All KeptBurst (bursts_of min window dict)
  unfolding bursts_of
  bursts_of-KeptBurst min window [] h = tt
  bursts_of-KeptBurst min window ((ip, fs) ∷ rest) h =
      let best = best_span time_of window min (sort in_order fs) in
      elim (Bool-cases (length best == 0)) [
        | inl e ↦ rw (e, bursts_of) (bursts_of-KeptBurst min window rest h.1)
        | inr e ↦
            rw (e, bursts_of)
              (
                (
                  best_span-All window min (sort in_order fs) (All-sort in_order Of fs h.0),
                  ground (arith, e),
                ),
                bursts_of-KeptBurst min window rest h.1,
              )
      ]

  cited-Cites : (events : List AuthEventView) → All Of events → All Q (cited events)
  cited-Cites events h = All-map Q (λ e. e.evidence_id) (take 25 events) (All-take Of 25 events h)

  length-cited :
      (events : List AuthEventView)
      → 1 ≤ length events
      → (1 ≤ length (cited events)) × (length (cited events) ≤ 25)
  length-cited events h =
      let size = length-map (λ e. e.evidence_id) (take 25 events) in
      (omega (arith, size, length-take 25 events), omega (arith, size, length-take 25 events))

  pub bruteforce_hits :
      (bursts : Dict (List AuthEventView))
      → All KeptBurst bursts
      → All Cites (map bruteforce_hit bursts)
  bruteforce_hits [] h = tt
  bruteforce_hits ((ip, burst) ∷ rest) h =
      let size = length-cited burst h.0.1 in
      ((cited-Cites burst h.0.0, size.0, omega (arith, size.1)), bruteforce_hits rest h.1)

  earliest-Of :
      (e : AuthEventView) (es : List AuthEventView) → Of e → All Of es → Of (earliest e es)
  earliest-Of e [] o h = o
  earliest-Of e (x ∷ xs) o h =
      earliest-Of (if ltb (time_of x) (time_of e) then x else e) xs
        (either (ltb (time_of x) (time_of e))) h.1
    where
      either : (b : Bool) → Of (if b then x else e)
      either true = h.0
      either false = o

  -- The success is one of the events.
  abbrev Found : Option AuthEventView → Type 0
  Found none = Unit
  Found (some e) = Of e

  first_of-Found : (es : List AuthEventView) → All Of es → Found (first_of es)
  first_of-Found [] h = tt
  first_of-Found (e ∷ es) h = earliest-Of e es h.0 h.1

  first_success_after-Found :
      (events : List AuthEventView) (ip : String) (burst : List AuthEventView)
      → All Of events
      → Found (first_success_after events ip burst)
  unfolding first_success_after
  first_success_after-Found events ip burst h =
      elim (select is_dated burst)
        as (λ dated. Found (elim dated as (λ d. Option AuthEventView) [
          | [] ↦ none
          | e ∷ es ↦ first_of (
              select
                (is_success_from ip (least (time_of e) es) (greatest (time_of e) es + seconds 3600))
                events)
        ])) [
          | [] ↦ tt
          | e ∷ es ↦ first_of-Found _ (
              All_select Of
                (is_success_from ip (least (time_of e) es) (greatest (time_of e) es + seconds 3600))
                events h)
        ]

  success_hit-Cites :
      (ip : String) (burst : List AuthEventView) (success : AuthEventView)
      → KeptBurst (ip, burst)
      → Of success
      → Cites (success_hit ip burst success)
  success_hit-Cites ip burst success kept own =
      let size = length-cited burst kept.1 in
      let joined = length-append (cited burst) (success.evidence_id ∷ []) in
      (
        All-append Q (cited burst) (success.evidence_id ∷ []) (cited-Cites burst kept.0) (own, tt),
        omega (arith, joined),
        omega (arith, joined, size.1),
      )

  noted :
      (b : Bool) (user : String) (hit : DetectionHit) (compromised : Dict DetectionHit)
      → Cites hit
      → All (λ d. Cites d.1) compromised
      → All (λ d. Cites d.1) (if b then (user, hit) ∷ compromised else compromised)
  noted true user hit compromised good c = (good, c)
  noted false user hit compromised good c = c

  pub successes-Cites :
      (events : List AuthEventView) (bursts : Dict (List AuthEventView))
      (compromised : Dict DetectionHit)
      → All Of events
      → All KeptBurst bursts
      → All (λ d. Cites d.1) compromised
      → All Cites (successes events bursts compromised).0
        × All (λ d. Cites d.1) (successes events bursts compromised).1
  unfolding successes
  successes-Cites events [] compromised h k c = (tt, c)
  successes-Cites events ((ip, burst) ∷ rest) compromised h k c =
      elim (Option-cases (first_success_after events ip burst)) [
        | inl e ↦ rw (e, successes) (successes-Cites events rest compromised h k.1 c)
        | inr (success, e) ↦
            let hit = success_hit ip burst success in
            let known : Dict DetectionHit =
              if is_given success.user
              then (given_or_empty success.user, hit) ∷ compromised
              else compromised in
            let own = subst Found e (first_success_after-Found events ip burst h) in
            let good = success_hit-Cites ip burst success k.0 own in
            let later = successes-Cites events rest known h k.1 (
              noted (is_given success.user) (given_or_empty success.user) hit compromised good c) in
            rw (e, successes) ((good, later.0), later.1)
      ]

  setdefault_keeps :
      (user : String) (event : AuthEventView) (d : Dict AuthEventView)
      → Of event
      → All (λ x. Of x.1) d
      → All (λ x. Of x.1) (setdefault user event d)
  setdefault_keeps user event [] o h = (o, tt)
  setdefault_keeps user event ((k, v) ∷ d) o h = elim (Bool-cases (str_eq user k)) [
    | inl e ↦ rw e h
    | inr e ↦ rw e (h.0, setdefault_keeps user event d o h.1)
  ]

  pub users_by_ip-All :
      (events : List AuthEventView) (dict : Dict (Dict AuthEventView))
      → All Of events
      → All (λ d. All (λ x. Of x.1) d.1) dict
      → All (λ d. All (λ x. Of x.1) d.1) (users_by_ip events dict)
  unfolding users_by_ip
  users_by_ip-All [] dict h k = k
  users_by_ip-All (e ∷ es) dict h k = elim (Bool-cases (names_invalid_user e)) [
    | inl names ↦
        let put =
          alter [] (setdefault (given_or_empty e.user) e) (given_or_empty e.source_ip) dict in
        rw (names, users_by_ip)
          (users_by_ip-All es put h.1 (
            All-alter [] (setdefault (given_or_empty e.user) e) (given_or_empty e.source_ip)
              (λ d. All (λ x. Of x.1) d.1) (h.0, tt)
              (λ k v o. setdefault_keeps (given_or_empty e.user) e v h.0 o) dict k))
    | inr other ↦ rw (other, users_by_ip) (users_by_ip-All es dict h.1 k)
  ]

  pub enumerations-Cites :
      (dict : Dict (Dict AuthEventView))
      → All (λ d. All (λ x. Of x.1) d.1) dict
      → All Cites (enumerations dict)
  unfolding enumerations
  enumerations-Cites [] h = tt
  enumerations-Cites ((ip, users) ∷ rest) h = elim (Bool-cases (ltb (length users) 3)) [
    | inl few ↦ rw (few, enumerations) (enumerations-Cites rest h.1)
    | inr many ↦
        let events = map (λ u. u.1) users in
        let enough : 3 ≤ length users = ground (arith, many) in
        let size = length-cited events (omega (arith, enough, length-map (λ u. u.1) users)) in
        rw (many, enumerations)
          (
            (cited-Cites events (All-map Of (λ u. u.1) users h.0), size.0, omega (arith, size.1)),
            enumerations-Cites rest h.1,
          )
  ]
