-- ===== src/Detection/AuthEvents.antt =====
-- The events of src/acip/core/detection/auth_rules.py and the bursts of failures among them. A time is in
-- microseconds.
pub mod Bursts
use Prim.Native.String.{◌++◌ as ◌+++◌}
use text.Mathlib.Text.{◌==◌ as str_eq}
use agentic_cyber_investigat.Prelude.{
  ℕ, zero, suc, ◌+◌, ◌*◌, String, Bool, true, false, not, ◌&&◌, ◌||◌, Option, none, some, List, [],
  ◌∷◌, ◌++◌, map, length, take, select, any, last?, if◌then◌else◌, ltb, leb, ◌==◌,
}
use agentic_cyber_investigat.Prelude.Sort.{sort}
use agentic_cyber_investigat.Prelude.Text.{is_empty, str_leb}
use agentic_cyber_investigat.Prelude.Dict.{alter}
use agentic_cyber_investigat.Types.{Severity, rank}
use agentic_cyber_investigat.Evidence.Contracts.{Platform}
use agentic_cyber_investigat.Detection.Window.{best_span}

pub record AuthEventView : Type 0 where
  pub evidence_id : ℕ
  pub event_type : String
  pub observed_at : Option ℕ
  pub outcome : String
  pub user : Option String
  pub source_ip : Option String
  pub host : Option String
  pub target_user : Option String
  pub command : Option String
  pub invalid_user : Bool

-- Of an optional text: that it is there and not empty.
abbrev pub is_given : Option String → Bool
is_given none = false
is_given (some text) = not (is_empty text)

-- `value or ""`
abbrev pub given_or_empty : Option String → String
given_or_empty none = ""
given_or_empty (some text) = text

abbrev pub is_dated : AuthEventView → Bool
is_dated event = elim event.observed_at [ none ↦ false | some t ↦ true ]

-- The time of a dated event.
abbrev pub time_of : AuthEventView → ℕ
time_of event = elim event.observed_at [ none ↦ 0 | some t ↦ t ]

abbrev pub seconds : ℕ → ℕ
seconds n = n * 1000000

abbrev pub is_failure_type : String → Bool
is_failure_type t =
    str_eq t "auth_failure" || (str_eq t "invalid_user" || str_eq t "max_auth_attempts")

-- A dated failure with a source.
abbrev pub is_failure : AuthEventView → Bool
is_failure event = is_failure_type event.event_type && (is_given event.source_ip && is_dated event)

abbrev pub Dict : Type 0 → Type 0
Dict V = List (String × V)

-- `by_ip` after the events, from `dict` on.
unfoldable pub by_ip : List AuthEventView → Dict (List AuthEventView) → Dict (List AuthEventView)
by_ip [] dict = dict
by_ip (e ∷ es) dict =
    by_ip es (
      if is_failure e
      then alter [] (λ fs. fs ++ e ∷ []) (given_or_empty e.source_ip) dict
      else dict)

abbrev pub in_order : AuthEventView → AuthEventView → Bool
in_order x y = leb (time_of x) (time_of y)

-- The longest dense span of each address that has one.
unfoldable pub bursts_of : ℕ → ℕ → Dict (List AuthEventView) → Dict (List AuthEventView)
bursts_of min_failures window [] = []
bursts_of min_failures window ((ip, failures) ∷ rest) =
    let later = bursts_of min_failures window rest in
    let best = best_span time_of window min_failures (sort in_order failures) in
    if length best == 0 then later else (ip, best) ∷ later

unfoldable pub find_failure_bursts : List AuthEventView → ℕ → ℕ → Dict (List AuthEventView)
unfolding by_ip bursts_of
find_failure_bursts events min_failures window_seconds =
    bursts_of min_failures (seconds window_seconds) (by_ip events [])
