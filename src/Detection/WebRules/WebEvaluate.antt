-- ===== src/Detection/WebRules/WebEvaluate.antt =====
-- All rules of src/acip/core/detection/web_rules.py: what their hits cite.
use agentic_cyber_investigat.Prelude.{
  ℕ, String, List, [], ◌∷◌, length, select, All, All-append, All-take, length-take, ltb, leb,
  Bool-cases, Option-cases, inl, inr, arith, subst,
}
use agentic_cyber_investigat.Prelude.Sort.{sort, All-sort, All_select}
use agentic_cyber_investigat.Prelude.Dict.{get_or, All-get_or}
use agentic_cyber_investigat.Detection.AuthEvents.{Dict, seconds}
use agentic_cyber_investigat.Detection.WebRules.{
  WebEventView, is_timed, by_time, errors_by_ip, error_burst_of, bursts_by_ip, find_error_bursts,
  group_events, ranks_before, web_hits, evaluate_web_rules,
}
use agentic_cyber_investigat.Detection.WebRules.WebCites.{
  OfEvent, CitesWeb, Group, hits_for-CitesWeb, group_events-Group, errors_by_ip-Group, Burst,
  first_window-Burst,
}

module _ (Q : ℕ → Type 0) where
  error_burst_of-Burst :
      (min window : ℕ) (errs : List WebEventView)
      → All (OfEvent Q) errs
      → Burst Q (error_burst_of min window errs)
  unfolding error_burst_of
  error_burst_of-Burst min window errs h =
      let dated = select is_timed errs in
      elim (Bool-cases (ltb (length dated) min)) [
        | inl few ↦ elim (Bool-cases (leb min (length errs))) [
          | inl enough ↦
              rw (few, enough, error_burst_of)
                (All-take (OfEvent Q) min errs h, ground (arith, few, enough, length-take min errs))
          | inr none_here ↦ rw (few, none_here, error_burst_of) tt
        ]
        | inr many ↦
            rw (many, error_burst_of)
              (first_window-Burst Q min window (sort by_time dated)
                (All-sort by_time (OfEvent Q) dated (All_select (OfEvent Q) is_timed errs h)))
      ]

  bursts_by_ip-Group :
      (min window : ℕ) (dict : Dict (List WebEventView))
      → All (Group Q) dict
      → All (Group Q) (bursts_by_ip min window dict)
  unfolding bursts_by_ip
  bursts_by_ip-Group min window [] h = tt
  bursts_by_ip-Group min window ((ip, errs) ∷ rest) h =
      elim (Option-cases (error_burst_of min window errs)) [
        | inl e ↦ rw (e, bursts_by_ip) (bursts_by_ip-Group min window rest h.1)
        | inr (burst, e) ↦
            let good : Group Q ("", burst) =
              subst (Burst Q) e (error_burst_of-Burst min window errs h.0.0) in
            rw (e, bursts_by_ip) (good, bursts_by_ip-Group min window rest h.1)
      ]

  -- Each hit cites at least one and at most twenty-five pieces of evidence, and each that it cites is that of
  -- one of the events: it has any property that the evidence of all the events has.
  pub evaluate_web_rules-CitesWeb :
      (events : List WebEventView) (min_scan_errors scan_window_seconds : ℕ)
      → All (OfEvent Q) events
      → All (CitesWeb Q) (evaluate_web_rules events min_scan_errors scan_window_seconds)
  unfolding evaluate_web_rules web_hits find_error_bursts
  evaluate_web_rules-CitesWeb events min_scan_errors scan_window_seconds h =
      let (by_cat, successful) = group_events-Group Q events ([], []) h (tt, tt) in
      let groups = (group_events events ([], [])).0 in
      let of : (cat : String) → All (Group Q) (get_or [] cat groups) =
        λ cat. All-get_or (All (Group Q)) [] cat groups tt by_cat in
      let bursts =
        bursts_by_ip-Group min_scan_errors (seconds scan_window_seconds) (errors_by_ip events [])
          (errors_by_ip-Group Q events [] h tt) in
      let also = All-append (CitesWeb Q) in
      All-sort ranks_before (CitesWeb Q) (web_hits events min_scan_errors scan_window_seconds) (
        also _ _
          (also _ _
            (also _ _
              (also _ _
                (also _ _
                  (also _ _
                    (also _ _ (hits_for-CitesWeb Q _ _ _ _ _ (of "sqli"))
                      (hits_for-CitesWeb Q _ _ _ _ _ (of "traversal")))
                    (hits_for-CitesWeb Q _ _ _ _ _ (of "command_injection")))
                  (hits_for-CitesWeb Q _ _ _ _ _ (of "webshell")))
                (hits_for-CitesWeb Q _ _ _ _ _ (of "sensitive_file")))
              (hits_for-CitesWeb Q _ _ _ _ _ (of "scanner")))
            (hits_for-CitesWeb Q _ _ _ _ _ bursts))
          (hits_for-CitesWeb Q _ _ _ _ _ successful))
