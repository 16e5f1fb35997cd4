-- ===== src/Detection/WebRules/WebCites.antt =====
-- The evidence that the hits of src/acip/core/detection/web_rules.py cite.
use agentic_cyber_investigat.Prelude.{
  ℕ, zero, suc, ◌+◌, ◌≤◌, ◌≡◌, refl, ap, ◌∙◌, String, Bool, true, false, ◌&&◌, ◌||◌, ◌==◌, ==_iff,
  Option, none, some, List, [], ◌∷◌, map, length, take, select, contains, distinct, distinct_from,
  All, All-append, length-append, All-take, length-take, All-map, if◌then◌else◌, leb, Bool-cases,
  inl, inr, arith,
}
use agentic_cyber_investigat.Prelude.Sort.{All_select}
use agentic_cyber_investigat.Prelude.Dict.{get_or, alter, All-alter}
use agentic_cyber_investigat.Types.{Severity}
use agentic_cyber_investigat.Detection.AuthEvents.{Dict}
use agentic_cyber_investigat.Detection.WebRules.{
  WebEventView, WebRuleId, WebHit, moment, unique_from, unique_evidence_ids, errors_by_ip,
  first_window, Grouped, is_2xx, is_exploit, adding, group_attacks, group_events, hits_for,
}

distinct_from_ext :
    (s t ids : List ℕ)
    → ((a : ℕ) → contains a s ≡ contains a t)
    → distinct_from s ids ≡ distinct_from t ids
distinct_from_ext s t [] same = refl
distinct_from_ext s t (i ∷ ids) same =
    let later = distinct_from_ext (i ∷ s) (i ∷ t) ids (λ a. ap (λ b. (a == i) || b) (same a)) in
    rw (same i, later) refl

contains_again :
    (i : ℕ) (seen : List ℕ)
    → contains i seen ≡ true
    → (a : ℕ) → contains a seen ≡ contains a (i ∷ seen)
contains_again i seen h a = elim (Bool-cases (a == i)) [
  | inl e ↦ rw (e, (==_iff a i).0 e, h) refl
  | inr e ↦ rw e refl
]

full_at : (n : ℕ) → n + 1 ≡ 25 → leb 25 (n + 1) ≡ true
full_at n h = ground arith

room_at : (n m : ℕ) → n + suc (suc m) ≡ 25 → leb 25 (n + 1) ≡ false
room_at n m h = ground arith

unique_from_lem :
    (seen : List ℕ) (n m : ℕ) (events : List WebEventView)
    → n + suc m ≡ 25
    → unique_from seen n events
      ≡ take (suc m) (distinct_from seen (map (λ e. e.evidence_id) events))
unfolding unique_from
unique_from_lem seen n m [] h = refl
unique_from_lem seen n m (e ∷ es) h = elim (Bool-cases (contains e.evidence_id seen)) [
  | inl old ↦
      rw (old, unique_from)
        (unique_from_lem seen n m es h
          ∙ ap (take (suc m)) (
              distinct_from_ext seen (e.evidence_id ∷ seen) (map (λ x. x.evidence_id) es)
                (contains_again e.evidence_id seen old)))
  | inr fresh ↦
      rw (fresh, unique_from)
        (ap (◌∷◌ e.evidence_id)
          (rest m h (λ k e'. unique_from_lem (e.evidence_id ∷ seen) (n + 1) k es e')))
]
  where
    rest :
        (m : ℕ)
        → n + suc m ≡ 25
        → ((k : ℕ)
            → n + 1 + suc k ≡ 25
            → unique_from (e.evidence_id ∷ seen) (n + 1) es
              ≡ take (suc k) (distinct_from (e.evidence_id ∷ seen) (map (λ e. e.evidence_id) es)))
        → (if leb 25 (n + 1) then [] else unique_from (e.evidence_id ∷ seen) (n + 1) es)
          ≡ take m (distinct_from (e.evidence_id ∷ seen) (map (λ e. e.evidence_id) es))
    rest zero h later = rw (full_at n (omega (arith, h))) refl
    rest (suc k) h later = rw (room_at n k h) (later k (omega (arith, h)))

-- The cited ids are the first twenty-five of the events' distinct ids, in the order of the events.
pub unique_evidence_ids_lem :
    (events : List WebEventView)
    → unique_evidence_ids events ≡ take 25 (distinct (map (λ e. e.evidence_id) events))
unfolding unique_evidence_ids
unique_evidence_ids_lem events = unique_from_lem [] 0 24 events refl

module _ (Q : ℕ → Type 0) where
  abbrev pub OfEvent : WebEventView → Type 0
  OfEvent e = Q e.evidence_id

  -- A hit cites one to twenty-five pieces of evidence, all of them among those.
  abbrev pub CitesWeb : WebHit → Type 0
  CitesWeb hit =
      All Q hit.evidence_ids × (1 ≤ length hit.evidence_ids) × (length hit.evidence_ids ≤ 25)

  abbrev pub Group : String × List WebEventView → Type 0
  Group (ip, events) = All OfEvent events × (1 ≤ length events)

  distinct_from-All : (seen ids : List ℕ) → All Q ids → All Q (distinct_from seen ids)
  distinct_from-All seen [] h = tt
  distinct_from-All seen (i ∷ ids) h = elim (Bool-cases (contains i seen)) [
    | inl old ↦ rw old (distinct_from-All (i ∷ seen) ids h.1)
    | inr fresh ↦ rw fresh (h.0, distinct_from-All (i ∷ seen) ids h.1)
  ]

  unique_evidence_ids-CitesWeb :
      (events : List WebEventView)
      → Group ("", events)
      → All Q (unique_evidence_ids events)
        × (1 ≤ length (unique_evidence_ids events))
        × (length (unique_evidence_ids events) ≤ 25)
  unique_evidence_ids-CitesWeb [] h = absurd (omega (arith, h.1))
  unique_evidence_ids-CitesWeb (e ∷ es) h =
      let ids = distinct_from [] (map (λ x. x.evidence_id) (e ∷ es)) in
      rw (unique_evidence_ids_lem (e ∷ es)) (
        All-take Q 25 ids (
            distinct_from-All [] (map (λ x. x.evidence_id) (e ∷ es))
              (All-map Q (λ x. x.evidence_id) (e ∷ es) h.0)),
        omega arith,
        omega (arith, length-take 25 ids),
      )

  pub hits_for-CitesWeb :
      (rule : WebRuleId) (title : String → String) (severity : Severity) (confidence : ℕ)
      (groups : Dict (List WebEventView))
      → All Group groups
      → All CitesWeb (hits_for rule title severity confidence groups)
  hits_for-CitesWeb rule title severity confidence [] h = tt
  hits_for-CitesWeb rule title severity confidence ((ip, events) ∷ rest) h = (
    unique_evidence_ids-CitesWeb events h.0,
    hits_for-CitesWeb rule title severity confidence rest h.1,
  )

  adding-Group :
      (e : WebEventView) (key : String) (groups : Dict (List WebEventView))
      → OfEvent e
      → All Group groups
      → All Group (alter [] (adding e) key groups)
  adding-Group e key groups o h =
      All-alter [] (adding e) key Group ((o, tt), omega arith)
        (λ k v g.
          (All-append OfEvent v (e ∷ []) g.0 (o, tt), omega (arith, length-append v (e ∷ []))))
        groups h

  group_attacks-Group :
      (e : WebEventView) (attacks : List (Dict String)) (g : Grouped)
      → OfEvent e
      → All (λ d. All Group d.1) g.0 × All Group g.1
      → let done = group_attacks e attacks g in All (λ d. All Group d.1) done.0 × All Group done.1
  unfolding group_attacks
  group_attacks-Group e [] g o h = h
  group_attacks-Group e (attack ∷ rest) g o h =
      let cat = get_or "" "category" attack in
      let counts = is_2xx e.status_code && is_exploit cat in
      group_attacks-Group e rest
        (
          alter [] (alter [] (adding e) e.client_ip) cat g.0,
          if counts then alter [] (adding e) e.client_ip g.1 else g.1,
        )
        o
        (
          All-alter [] (alter [] (adding e) e.client_ip) cat (λ d. All Group d.1)
              (adding-Group e e.client_ip [] o tt) (λ k v all. adding-Group e e.client_ip v o all)
              g.0 h.0,
          added counts,
        )
    where
      added : (b : Bool) → All Group (if b then alter [] (adding e) e.client_ip g.1 else g.1)
      added true = adding-Group e e.client_ip g.1 o h.1
      added false = h.1

  pub group_events-Group :
      (events : List WebEventView) (g : Grouped)
      → All OfEvent events
      → All (λ d. All Group d.1) g.0 × All Group g.1
      → let done = group_events events g in All (λ d. All Group d.1) done.0 × All Group done.1
  unfolding group_events
  group_events-Group [] g o h = h
  group_events-Group (e ∷ es) g o h =
      group_events-Group es (group_attacks e e.attacks g) o.1
        (group_attacks-Group e e.attacks g o.0 h)

  pub errors_by_ip-Group :
      (events : List WebEventView) (dict : Dict (List WebEventView))
      → All OfEvent events
      → All Group dict
      → All Group (errors_by_ip events dict)
  unfolding errors_by_ip
  errors_by_ip-Group [] dict o h = h
  errors_by_ip-Group (e ∷ es) dict o h = elim (Bool-cases (leb 400 e.status_code)) [
    | inl fails ↦
        rw (fails, errors_by_ip)
          (errors_by_ip-Group es (alter [] (adding e) e.client_ip dict) o.1
            (adding-Group e e.client_ip dict o.0 h))
    | inr fine ↦ rw (fine, errors_by_ip) (errors_by_ip-Group es dict o.1 h)
  ]

  -- A burst, if there is one, is a group.
  abbrev pub Burst : Option (List WebEventView) → Type 0
  Burst none = Unit
  Burst (some burst) = Group ("", burst)

  pub first_window-Burst :
      (min window : ℕ) (ordered : List WebEventView)
      → All OfEvent ordered
      → Burst (first_window min window ordered)
  unfolding first_window
  first_window-Burst min window [] h = tt
  first_window-Burst min window (e ∷ es) h =
      let current = select (λ x. leb (moment x) (moment e + window)) (e ∷ es) in
      let own : leb (moment e) (moment e + window) ≡ true = ground arith in
      let some_item : 1 ≤ length current = rw own (omega arith) in
      elim (Bool-cases (leb min (length current))) [
        | inl enough ↦
            rw (enough, first_window)
              (All_select OfEvent (λ x. leb (moment x) (moment e + window)) (e ∷ es) h, some_item)
        | inr few ↦ rw (few, first_window) (first_window-Burst min window es h.1)
      ]
