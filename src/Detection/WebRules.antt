-- ===== src/Detection/WebRules.antt =====
-- src/acip/core/detection/web_rules.py: the rules over web requests. A time is in microseconds. Of a hit
-- the rule, the title, the severity, the confidence in percent and the cited evidence are kept, and its
-- prose is left out.
pub mod ErrorBursts
pub mod WebCites
pub mod WebEvaluate
use Prim.Native.String.{◌++◌ as ◌+++◌}
use text.Mathlib.Text.{◌==◌ as str_eq}
use agentic_cyber_investigat.Prelude.{
  ℕ, zero, suc, ◌+◌, String, Bool, true, false, ◌&&◌, ◌||◌, Option, none, some, List, [], ◌∷◌, ◌++◌,
  map, length, take, select, contains, if◌then◌else◌, ltb, leb, ◌==◌,
}
use agentic_cyber_investigat.Prelude.Sort.{sort}
use agentic_cyber_investigat.Prelude.Text.{str_leb}
use agentic_cyber_investigat.Prelude.Dict.{alter, get_or}
use agentic_cyber_investigat.Types.{Severity, rank}
use agentic_cyber_investigat.Detection.AuthEvents.{Dict, seconds}

pub record WebEventView : Type 0 where
  pub evidence_id : ℕ
  pub observed_at : Option ℕ
  pub client_ip : String
  pub method : String
  pub path : String
  pub query_string : Option String
  pub status_code : ℕ
  pub user_agent : Option String
  pub user : Option String
  pub attacks : List (Dict String)

pub data WebRuleId : Type 0 where
  sql_injection path_traversal command_injection webshell_access : WebRuleId
  sensitive_file_recon malicious_scanner error_burst successful_exploit : WebRuleId

unfoldable pub web_rule_id : WebRuleId → String
web_rule_id sql_injection = "R-WEB-001"
web_rule_id path_traversal = "R-WEB-002"
web_rule_id command_injection = "R-WEB-003"
web_rule_id webshell_access = "R-WEB-004"
web_rule_id sensitive_file_recon = "R-WEB-005"
web_rule_id malicious_scanner = "R-WEB-006"
web_rule_id error_burst = "R-WEB-007"
web_rule_id successful_exploit = "R-WEB-008"

pub record WebHit : Type 0 where
  pub rule : WebRuleId
  pub title : String
  pub severity : Severity
  pub confidence : ℕ
  pub evidence_ids : List ℕ

abbrev pub moment : WebEventView → ℕ
moment event = elim event.observed_at [ none ↦ 0 | some t ↦ t ]

abbrev pub is_timed : WebEventView → Bool
is_timed event = elim event.observed_at [ none ↦ false | some t ↦ true ]

-- The loop of `_unique_evidence_ids`; `seen` are the ids that were taken, of which there are `n`.
unfoldable pub unique_from : List ℕ → ℕ → List WebEventView → List ℕ
unique_from seen n [] = []
unique_from seen n (e ∷ es) =
    let skipped = unique_from seen n es in
    let taken = unique_from (e.evidence_id ∷ seen) (n + 1) es in
    if contains e.evidence_id seen
    then skipped
    else e.evidence_id ∷ (if leb 25 (n + 1) then [] else taken)

unfoldable pub unique_evidence_ids : List WebEventView → List ℕ
unfolding unique_from
unique_evidence_ids events = unique_from [] 0 events

abbrev pub by_time : WebEventView → WebEventView → Bool
by_time x y = leb (moment x) (moment y)

unfoldable pub errors_by_ip :
    List WebEventView → Dict (List WebEventView) → Dict (List WebEventView)
errors_by_ip [] dict = dict
errors_by_ip (e ∷ es) dict =
    errors_by_ip es
      (if leb 400 e.status_code then alter [] (λ errs. errs ++ e ∷ []) e.client_ip dict else dict)

-- The first window that holds enough errors.
unfoldable pub first_window : ℕ → ℕ → List WebEventView → Option (List WebEventView)
first_window min_errors window [] = none
first_window min_errors window (e ∷ es) =
    let later = first_window min_errors window es in
    let current_window = select (λ x. leb (moment x) (moment e + window)) (e ∷ es) in
    if leb min_errors (length current_window) then some current_window else later

-- The burst among the errors of one address.
unfoldable pub error_burst_of : ℕ → ℕ → List WebEventView → Option (List WebEventView)
unfolding first_window
error_burst_of min_errors window errs =
    let dated = select is_timed errs in
    if ltb (length dated) min_errors
    then (if leb min_errors (length errs) then some (take min_errors errs) else none)
    else first_window min_errors window (sort by_time dated)

unfoldable pub bursts_by_ip : ℕ → ℕ → Dict (List WebEventView) → Dict (List WebEventView)
unfolding error_burst_of
bursts_by_ip min_errors window [] = []
bursts_by_ip min_errors window ((ip, errs) ∷ rest) =
    let later = bursts_by_ip min_errors window rest in
    elim (error_burst_of min_errors window errs) [ none ↦ later | some burst ↦ (ip, burst) ∷ later ]

unfoldable pub find_error_bursts : List WebEventView → ℕ → ℕ → Dict (List WebEventView)
unfolding errors_by_ip bursts_by_ip
find_error_bursts events min_errors window_seconds =
    bursts_by_ip min_errors (seconds window_seconds) (errors_by_ip events [])

abbrev pub Grouped : Type 0
Grouped = Dict (Dict (List WebEventView)) × Dict (List WebEventView)

abbrev pub is_exploit : String → Bool
is_exploit cat =
    str_eq cat "sqli"
    || (str_eq cat "traversal" || (str_eq cat "command_injection" || str_eq cat "webshell"))

abbrev pub is_2xx : ℕ → Bool
is_2xx status = leb 200 status && ltb status 300

abbrev pub adding : WebEventView → List WebEventView → List WebEventView
adding e events = events ++ e ∷ []

-- The inner loop over an event's attacks.
unfoldable pub group_attacks : WebEventView → List (Dict String) → Grouped → Grouped
group_attacks e [] g = g
group_attacks e (attack ∷ rest) (by_cat, successful) =
    let cat = get_or "" "category" attack in
    group_attacks e rest (
      alter [] (alter [] (adding e) e.client_ip) cat by_cat,
      if is_2xx e.status_code && is_exploit cat
          then alter [] (adding e) e.client_ip successful
          else successful,
    )

unfoldable pub group_events : List WebEventView → Grouped → Grouped
unfolding group_attacks
group_events [] g = g
group_events (e ∷ es) g = group_events es (group_attacks e e.attacks g)

-- One hit for each address.
abbrev pub hits_for :
    WebRuleId → (String → String) → Severity → ℕ → Dict (List WebEventView) → List WebHit
hits_for rule title severity confidence groups =
    map
      (λ (ip, events). record {
        rule = rule;
        title = title ip;
        severity = severity;
        confidence = confidence;
        evidence_ids = unique_evidence_ids events;
      })
      groups

-- `(-hit.severity.rank, -hit.confidence, hit.rule_id)`, compared
unfoldable pub ranks_before : WebHit → WebHit → Bool
unfolding web_rule_id
ranks_before x y =
    ltb (rank y.severity) (rank x.severity)
    || rank x.severity == rank y.severity
      && (ltb y.confidence x.confidence
          || x.confidence == y.confidence && str_leb (web_rule_id x.rule) (web_rule_id y.rule))

-- All hits in the order of the rules.
unfoldable pub web_hits : List WebEventView → ℕ → ℕ → List WebHit
unfolding group_events find_error_bursts
web_hits events min_scan_errors scan_window_seconds =
    let (by_cat, successful) = group_events events ([], []) in
    let of : String → Dict (List WebEventView) = λ cat. get_or [] cat by_cat in
    hits_for sql_injection (λ ip. "SQL injection attack attempts from " +++ ip) Severity.high 95
      (of "sqli")
    ++ hits_for path_traversal (λ ip. "Directory traversal / LFI attempts from " +++ ip)
        Severity.high 95 (of "traversal")
    ++ hits_for command_injection (λ ip. "Remote command injection attempts from " +++ ip)
        Severity.critical 95 (of "command_injection")
    ++ hits_for webshell_access (λ ip. "Web shell / backdoor access attempts from " +++ ip)
        Severity.high 90 (of "webshell")
    ++ hits_for sensitive_file_recon (λ ip. "Sensitive file reconnaissance from " +++ ip)
        Severity.medium 90 (of "sensitive_file")
    ++ hits_for malicious_scanner (λ ip. "Automated security scanner detected from " +++ ip)
        Severity.medium 95 (of "scanner")
    ++ hits_for error_burst (λ ip. "HTTP scanning error burst from " +++ ip) Severity.low 85
        (find_error_bursts events min_scan_errors scan_window_seconds)
    ++ hits_for successful_exploit (λ ip. "Potential successful web exploit execution from " +++ ip)
        Severity.critical 90 successful

unfoldable pub evaluate_web_rules : List WebEventView → ℕ → ℕ → List WebHit
unfolding ranks_before web_hits
evaluate_web_rules events min_scan_errors scan_window_seconds =
    sort ranks_before (web_hits events min_scan_errors scan_window_seconds)
