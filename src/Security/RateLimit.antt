-- ===== src/Security/RateLimit.antt =====
-- src/acip/core/security/ratelimit.py: the sliding window limiter. A time is a whole number of
-- microseconds, and the dictionary of histories is a function, empty where a key is missing. The time of a
-- check is its argument: the source reads the clock before it takes the lock, and the clock may step back,
-- so nothing here says that the times of the checks are in order.
pub mod Window
use Prim.Native.Nat.{◌*◌, ◌/◌, max}
use text.Mathlib.Text.{◌==◌ as str_eq}
use agentic_cyber_investigat.Prelude.{
  ℕ, ◌+◌, ◌-◌, String, Bool, List, [], ◌∷◌, ◌++◌, length, select, if◌then◌else◌, ltb, leb,
}
use agentic_cyber_investigat.Prelude.Result.{Result, ok, err}

pub record Limiter : Type 0 where
  pub max_requests : ℕ
  pub window_seconds : ℕ
  pub history : String → List ℕ

abbrev pub ticks : ℕ → ℕ
ticks seconds = seconds * 1000000

-- `t > now - window`
abbrev pub is_active : ℕ → ℕ → ℕ → Bool
is_active window now t = ltb now (t + window)

abbrev pub assign : (String → List ℕ) → String → List ℕ → String → List ℕ
assign history key times k = if str_eq k key then times else history k

-- RateLimitExceededError with the seconds to wait, and the IndexError of `[0]` on no time.
pub data Refusal : Type 0 where
  rate_limited : ℕ → Refusal
  index_error : Refusal

abbrev pub refusal : ℕ → ℕ → List ℕ → Refusal
refusal window now [] = index_error
refusal window now (oldest ∷ times) = rate_limited (max 1 ((oldest + window - now) / 1000000))

-- The limiter after the check, and whether the request is let through.
unfoldable pub check : Limiter → String → ℕ → Limiter × Result Refusal ℕ
check limiter key now =
    let window = ticks limiter.window_seconds in
    let active = select (is_active window now) (limiter.history key) in
    if leb limiter.max_requests (length active)
    then (
      record limiter { history = assign limiter.history key active },
      err (refusal window now active),
    )
    else (record limiter { history = assign limiter.history key (active ++ now ∷ []) }, ok now)

unfoldable pub reset : Limiter → Limiter
reset limiter = record limiter { history = λ key. [] }
