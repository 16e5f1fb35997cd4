-- ===== src/Detection/AuthEvents/Bursts.antt =====
-- The bursts of src/acip/core/detection/auth_rules.py, address by address.
use text.Mathlib.Text.{◌==◌ as str_eq}
use text.Mathlib.TextEquality.{eq_iff}
use mathlib.Core.List.{append-nil, append_assoc}
use agentic_cyber_investigat.Prelude.{
  ℕ, ◌≡◌, refl, sym, subst, ap, ◌∙◌, String, Bool, true, false, ◌&&◌, List, [], ◌∷◌, ◌++◌, length,
  select, All, if◌then◌else◌, ◌==◌, Bool-cases, inl, inr, arith,
}
use agentic_cyber_investigat.Prelude.Sort.{sort, sort-IsSorted}
use agentic_cyber_investigat.Prelude.Dict.{get_or, alter, get_or-alter, IsKeyed, alter-IsKeyed}
use agentic_cyber_investigat.Detection.Window.{best_span, sweep}
use agentic_cyber_investigat.Detection.Window.Longest.{IsLongestBurst, best_span-IsLongestBurst}
use agentic_cyber_investigat.Detection.AuthEvents.{
  AuthEventView, given_or_empty, is_failure, time_of, seconds, Dict, by_ip, in_order, bursts_of,
  find_failure_bursts,
}

abbrev pub is_failure_of : String → AuthEventView → Bool
is_failure_of ip event = is_failure event && str_eq ip (given_or_empty event.source_ip)

none_if : {A : Type 0} (xs : List A) → (length xs == 0) ≡ true → xs ≡ []
none_if [] h = refl
none_if (x ∷ xs) h = absurd (ground arith)

by_ip_lem :
    (ip : String) (events : List AuthEventView) (dict : Dict (List AuthEventView))
    → get_or [] ip (by_ip events dict) ≡ get_or [] ip dict ++ select (is_failure_of ip) events
unfolding by_ip
by_ip_lem ip [] dict = sym (append-nil (get_or [] ip dict))
by_ip_lem ip (e ∷ es) dict = elim (Bool-cases (is_failure e)) [
  | inl fails ↦
      let put = alter [] (λ fs. fs ++ e ∷ []) (given_or_empty e.source_ip) dict in
      let at_ip = get_or-alter [] (λ fs. fs ++ e ∷ []) (given_or_empty e.source_ip) ip dict in
      let joined : get_or [] ip put ++ select (is_failure_of ip) es
          ≡ get_or [] ip dict
            ++ (if str_eq ip (given_or_empty e.source_ip)
                then e ∷ select (is_failure_of ip) es
                else select (is_failure_of ip) es) =
        elim (Bool-cases (str_eq ip (given_or_empty e.source_ip))) [
          | inl same ↦
              rw (at_ip, same)
                (append_assoc (get_or [] ip dict) (e ∷ []) (select (is_failure_of ip) es))
          | inr apart ↦ rw (at_ip, apart) refl
        ] in
      rw (fails, by_ip) (by_ip_lem ip es put ∙ joined)
  | inr other ↦ rw (other, by_ip) (by_ip_lem ip es dict)
]

by_ip-IsKeyed :
    (events : List AuthEventView) (dict : Dict (List AuthEventView))
    → IsKeyed dict
    → IsKeyed (by_ip events dict)
unfolding by_ip
by_ip-IsKeyed [] dict h = h
by_ip-IsKeyed (e ∷ es) dict h = elim (Bool-cases (is_failure e)) [
  | inl fails ↦
      rw (fails, by_ip)
        (by_ip-IsKeyed es (alter [] (λ fs. fs ++ e ∷ []) (given_or_empty e.source_ip) dict)
          (alter-IsKeyed [] (λ fs. fs ++ e ∷ []) (given_or_empty e.source_ip) dict h))
  | inr other ↦ rw (other, by_ip) (by_ip-IsKeyed es dict h)
]

in_order_total : (x y : AuthEventView) → in_order x y ≡ false → in_order y x ≡ true
in_order_total x y h = ground arith

in_order_trans :
    (x y z : AuthEventView) → in_order x y ≡ true → in_order y z ≡ true → in_order x z ≡ true
in_order_trans x y z h k = ground arith

module _ (min_failures window : ℕ) where
  abbrev burst : List AuthEventView → List AuthEventView
  burst failures = best_span time_of window min_failures (sort in_order failures)

  bursts_of_absent :
      (ip : String) (dict : Dict (List AuthEventView))
      → All (λ y. str_eq ip y.0 ≡ false) dict
      → get_or [] ip (bursts_of min_failures window dict) ≡ []
  unfolding bursts_of
  bursts_of_absent ip [] h = refl
  bursts_of_absent ip ((k, fs) ∷ d) h = elim (Bool-cases (length (burst fs) == 0)) [
    | inl e ↦ rw (e, bursts_of) (bursts_of_absent ip d h.1)
    | inr e ↦ rw (e, h.0, bursts_of) (bursts_of_absent ip d h.1)
  ]

  bursts_of_lem :
      (ip : String) (dict : Dict (List AuthEventView))
      → IsKeyed dict
      → get_or [] ip (bursts_of min_failures window dict) ≡ burst (get_or [] ip dict)
  unfolding bursts_of sort best_span sweep
  bursts_of_lem ip [] h = refl
  bursts_of_lem ip ((k, fs) ∷ d) h = elim (Bool-cases (str_eq ip k)) [
    | inl same ↦
        let away =
          bursts_of_absent ip d
            (subst (λ j. All (λ y. str_eq j y.0 ≡ false) d) (sym ((eq_iff ip k).0 same)) h.0) in
        elim (Bool-cases (length (burst fs) == 0)) [
          | inl e ↦ rw (e, same, bursts_of) (away ∙ sym (none_if (burst fs) e))
          | inr e ↦ rw (e, same, bursts_of) refl
        ]
    | inr apart ↦ elim (Bool-cases (length (burst fs) == 0)) [
      | inl e ↦ rw (e, apart, bursts_of) (bursts_of_lem ip d h.1)
      | inr e ↦ rw (e, apart, bursts_of) (bursts_of_lem ip d h.1)
    ]
  ]

-- The span that is kept for an address is the longest burst among its dated failures in the order of
-- time, of at least so many failures within so many seconds, and none is kept if there is no such burst.
pub find_failure_bursts_lem :
    (events : List AuthEventView) (min_failures window_seconds : ℕ) (ip : String)
    → IsLongestBurst time_of
        (seconds window_seconds)
        min_failures
        (sort in_order (select (is_failure_of ip) events))
        (get_or [] ip (find_failure_bursts events min_failures window_seconds))
unfolding find_failure_bursts
find_failure_bursts_lem events min_failures window_seconds ip =
    let window = seconds window_seconds in
    let kept =
      bursts_of_lem min_failures window ip (by_ip events []) (by_ip-IsKeyed events [] tt)
      ∙ ap (burst min_failures window) (by_ip_lem ip events []) in
    rw kept (
      best_span-IsLongestBurst time_of window min_failures
        (sort in_order (select (is_failure_of ip) events))
        (sort-IsSorted in_order in_order_total in_order_trans (select (is_failure_of ip) events)))
