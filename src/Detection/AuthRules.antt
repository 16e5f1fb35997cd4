-- ===== src/Detection/AuthRules.antt =====
-- src/acip/core/detection/auth_rules.py: the rules over authentication events. Of a hit the rule, the
-- title, the severity, the confidence in percent and the cited evidence are kept, and its prose is left
-- out.
pub mod Cites
pub mod Evaluate
use Prim.Native.String.{◌++◌ as ◌+++◌}
use text.Mathlib.Text.{◌==◌ as str_eq}
use agentic_cyber_investigat.Prelude.{
  ℕ, zero, suc, ◌+◌, ◌*◌, String, Bool, true, false, not, ◌&&◌, ◌||◌, Option, none, some, List, [],
  ◌∷◌, ◌++◌, map, length, take, select, any, last?, if◌then◌else◌, ltb, leb, ◌==◌,
}
use agentic_cyber_investigat.Prelude.Sort.{sort}
use agentic_cyber_investigat.Prelude.Text.{is_empty, str_leb}
use agentic_cyber_investigat.Prelude.Dict.{alter}
use agentic_cyber_investigat.Types.{Severity, rank}
use agentic_cyber_investigat.Evidence.Contracts.{Platform}
use agentic_cyber_investigat.Detection.Window.{best_span}
use agentic_cyber_investigat.Detection.AuthEvents.{
  AuthEventView, is_given, given_or_empty, is_dated, time_of, seconds, Dict, in_order,
  find_failure_bursts,
}

pub data RuleId : Type 0 where
  bruteforce success_after_bruteforce user_enumeration privilege_escalation : RuleId

unfoldable pub rule_id : RuleId → String
rule_id bruteforce = "R-AUTH-001"
rule_id success_after_bruteforce = "R-AUTH-002"
rule_id user_enumeration = "R-AUTH-003"
rule_id privilege_escalation = "R-AUTH-004"

pub record DetectionHit : Type 0 where
  pub rule : RuleId
  pub title : String
  pub severity : Severity
  pub confidence : ℕ
  pub evidence_ids : List ℕ

-- The least and the greatest time of the events, `t` among them.
abbrev pub least : ℕ → List AuthEventView → ℕ
least t [] = t
least t (e ∷ es) = least (if ltb (time_of e) t then time_of e else t) es

abbrev pub greatest : ℕ → List AuthEventView → ℕ
greatest t [] = t
greatest t (e ∷ es) = greatest (if ltb t (time_of e) then time_of e else t) es

-- The first of the earliest events, `e` before the others.
abbrev pub earliest : AuthEventView → List AuthEventView → AuthEventView
earliest e [] = e
earliest e (x ∷ xs) = earliest (if ltb (time_of x) (time_of e) then x else e) xs

abbrev pub first_of : List AuthEventView → Option AuthEventView
first_of [] = none
first_of (e ∷ es) = some (earliest e es)

abbrev pub is_success_from : String → ℕ → ℕ → AuthEventView → Bool
is_success_from source_ip start deadline e =
    str_eq e.event_type "auth_success"
    && (elim e.source_ip [ none ↦ false | some ip ↦ str_eq ip source_ip ]
        && (is_dated e && (leb start (time_of e) && leb (time_of e) deadline)))

unfoldable pub first_success_after :
    List AuthEventView → String → List AuthEventView → Option AuthEventView
first_success_after events source_ip burst = elim (select is_dated burst) [
  | [] ↦ none
  | e ∷ es ↦
      let burst_start = least (time_of e) es in
      let deadline = greatest (time_of e) es + seconds 3600 in
      first_of (select (is_success_from source_ip burst_start deadline) events)
]

abbrev pub max_cited : ℕ
max_cited = 25

abbrev pub cited : List AuthEventView → List ℕ
cited events = map (λ e. e.evidence_id) (take max_cited events)

abbrev pub bruteforce_hit : String × List AuthEventView → DetectionHit
bruteforce_hit (source_ip, burst) = record {
  rule = bruteforce;
  title = "Authentication brute-force attempts from " +++ source_ip;
  severity = Severity.medium;
  confidence = 90;
  evidence_ids = cited burst;
}

abbrev pub success_hit : String → List AuthEventView → AuthEventView → DetectionHit
success_hit source_ip burst success = record {
  rule = success_after_bruteforce;
  title = "Successful authentication from " +++ source_ip +++ " following failed attempts";
  severity = Severity.high;
  confidence = 75;
  evidence_ids = cited burst ++ success.evidence_id ∷ [];
}

-- The second loop: its hits, and the hit by the user who logged in, a later one first.
unfoldable pub successes :
    List AuthEventView
    → Dict (List AuthEventView)
    → Dict DetectionHit
    → List DetectionHit × Dict DetectionHit
unfolding first_success_after
successes events [] compromised = ([], compromised)
successes events ((ip, burst) ∷ rest) compromised =
    let skipped = successes events rest compromised in
    elim (first_success_after events ip burst) [
      | none ↦ skipped
      | some success ↦
          let hit = success_hit ip burst success in
          let known =
            if is_given success.user
            then (given_or_empty success.user, hit) ∷ compromised
            else compromised in
          let (hits, all) = successes events rest known in (hit ∷ hits, all)
    ]

-- `users.setdefault(event.user, event)`
abbrev pub setdefault : String → AuthEventView → Dict AuthEventView → Dict AuthEventView
setdefault user event [] = (user, event) ∷ []
setdefault user event ((k, v) ∷ d) =
    let later = setdefault user event d in if str_eq user k then (k, v) ∷ d else (k, v) ∷ later

abbrev pub names_invalid_user : AuthEventView → Bool
names_invalid_user e = e.invalid_user && (is_given e.source_ip && is_given e.user)

unfoldable pub users_by_ip :
    List AuthEventView → Dict (Dict AuthEventView) → Dict (Dict AuthEventView)
users_by_ip [] dict = dict
users_by_ip (e ∷ es) dict = users_by_ip es (
    if names_invalid_user e
    then alter [] (setdefault (given_or_empty e.user) e) (given_or_empty e.source_ip) dict
    else dict)

abbrev pub enumeration_min_users : ℕ
enumeration_min_users = 3

abbrev pub enumeration_hit : String → Dict AuthEventView → DetectionHit
enumeration_hit source_ip users = record {
  rule = user_enumeration;
  title = "Username enumeration from " +++ source_ip;
  severity = Severity.medium;
  confidence = 85;
  evidence_ids = cited (map (λ u. u.1) users);
}

unfoldable pub enumerations : Dict (Dict AuthEventView) → List DetectionHit
enumerations [] = []
enumerations ((ip, users) ∷ rest) =
    let later = enumerations rest in
    if ltb (length users) enumeration_min_users then later else enumeration_hit ip users ∷ later

unfoldable pub evaluate_user_enumeration : List AuthEventView → List DetectionHit
unfolding users_by_ip enumerations
evaluate_user_enumeration events = enumerations (users_by_ip events [])

-- `compromised.get(user)`
abbrev pub related_to : String → Dict DetectionHit → Option DetectionHit
related_to user [] = none
related_to user ((k, hit) ∷ d) =
    let later = related_to user d in if str_eq user k then some hit else later

-- `ids[-1:]`
abbrev pub last_one : List ℕ → List ℕ
last_one ids = elim (last? ids) [ none ↦ [] | some id ↦ id ∷ [] ]

abbrev pub escalation_hit : AuthEventView → DetectionHit → DetectionHit
escalation_hit event related = record {
  rule = privilege_escalation;
  title =
      "Root command execution by '" +++ given_or_empty event.user +++ "' after suspicious login";
  severity = Severity.high;
  confidence = 70;
  evidence_ids = event.evidence_id ∷ last_one related.evidence_ids;
}

unfoldable pub evaluate_privilege_escalation :
    (String → String) → List AuthEventView → Dict DetectionHit → List DetectionHit
evaluate_privilege_escalation lower [] compromised = []
evaluate_privilege_escalation lower (e ∷ es) compromised =
    let later = evaluate_privilege_escalation lower es compromised in
    if str_eq e.event_type "sudo_command"
      && (is_given e.user && str_eq (lower (given_or_empty e.target_user)) "root")
    then elim (related_to (given_or_empty e.user) compromised) [
      | none ↦ later
      | some hit ↦ escalation_hit e hit ∷ later
    ]
    else later

-- `(-hit.severity.rank, hit.rule_id)`, compared
unfoldable pub before : DetectionHit → DetectionHit → Bool
unfolding rule_id
before x y =
    ltb (rank y.severity) (rank x.severity)
    || rank x.severity == rank y.severity && str_leb (rule_id x.rule) (rule_id y.rule)

-- `lower` is `str.lower`.
unfoldable pub evaluate_auth_rules :
    (String → String) → List AuthEventView → ℕ → ℕ → List DetectionHit
unfolding find_failure_bursts successes evaluate_user_enumeration evaluate_privilege_escalation
    before
evaluate_auth_rules lower events min_failures window_seconds =
    let bursts = find_failure_bursts events min_failures window_seconds in
    let (hits, compromised) = successes events bursts [] in
    sort before (
      map bruteforce_hit bursts
      ++ hits
      ++ evaluate_user_enumeration events
      ++ evaluate_privilege_escalation lower events compromised)
